-- ===== src/Tests/Calls.antt =====
-- Runs of the code of the user bot.
use yes.Prelude.{◌≡◌, refl, true, false, [], ◌∷◌, none, some, pos, eq_ℤ, ◌≤◌}
use yes.Prelude.Assoc.{lookup, insert}
use yes.Tests.Data.{room}
use yes.UserBot.{
  Context, CallParticipant, MediaDescription, connected, closed, other_change, new_instance,
  waiting,
}
use yes.UserBot.Ids.{peer_channel}
use yes.UserBot.GroupCalls.{get_input_group_call}
use yes.UserBot.Changes.{first_change}
use yes.UserBot.Participants.{update_participants, participants_of}
use yes.UserBot.Streams.{Has, streaming}
use yes.UserBot.Roster.{latest, participants-update_participants, sources-update_participants}
use yes.UserBot.Phone.{PhoneEvent, arrives, answered, on_event, phone_requested, phone_accepted}
use yes.UserBot.Announced.{announcements, requests_of, announcements-bound}
use yes.UserBot.Connect.{
  Answers, join_failed, joined_with, confirm_failed, other_answer, wait_connection, rtc_connection,
}
use yes.UserBot.Calling.{connect_call, SelfAnswers}
use yes.UserBot.Unblocked.{is_waiting}
use yes.UserBot.Cleanup.{is_user, connect_call-forgets}
use yes.UserBot.Dial.{connect_user}
use yes.UserBot.Stops.{is_ok, stops, stops_of}
use yes.UserBot.Outcome.{connect_call_lem}

abbrev guest : CallParticipant
guest = record {
  id = pos 5;
  is_user = true;
  left = false;
  can_self_unmute = true;
  video = some "camera";
  presentation = none;
}

abbrev left_guest : CallParticipant
left_guest = record guest { left = true }

-- The assistant has the id 1.
abbrev muted_self : CallParticipant
muted_self = record guest { id = pos 1; can_self_unmute = false; video = none }

abbrev context : Context
context = record (new_instance (pos 1)) {
  call_sources = (room, record { camera_sources = []; screen_sources = [] }) ∷ [];
}

abbrev song_media : MediaDescription
song_media = record { description = "song.m4a"; camera = false; screen = false }

-- The group has a call, and everything works.
abbrev answers : Answers
answers = record {
  group = record {
    created = some "params";
    sources_set = true;
    full = record {
      peer = some (peer_channel (pos 7));
      call = some (some (record { id = pos 70; access_hash = pos 71 }));
    };
    joined = joined_with (none ∷ some "transport" ∷ []);
    is_connected = true;
    mode = some rtc_connection;
  };
  phone = record {
    dh = true;
    created = true;
    sources_set = true;
    exchanged = some (1 ∷ []);
    user = true;
    taken = true;
    asked = [];
    arriving = [];
    keys = true;
    confirmed = confirm_failed;
    is_connected = true;
  };
  changes = (room, other_change) ∷ (room, connected) ∷ (room, closed) ∷ [];
}

-- Telegram refuses the join.
abbrev refused : Answers
refused = record answers { group = record (answers.group) { joined = join_failed } }

participants-update_participants_example :
    lookup
      (pos 5)
      (participants_of room (update_participants 10 room (guest ∷ left_guest ∷ []) context))
    ≡ none
unfolding latest
participants-update_participants_example =
    participants-update_participants 10 room (pos 5) (guest ∷ left_guest ∷ []) context

-- The camera goes on with another endpoint, which is not taken over.
sources-update_participants_example : Has (pos 5) (some "camera") none (
    lookup room
      (update_participants 10 room
        (guest ∷ record guest { video = some "other" } ∷ [])
        context).call_sources)
unfolding lookup streaming
sources-update_participants_example =
    sources-update_participants 10 room (pos 5) (guest ∷ record guest { video = some "other" } ∷ [])
      none none context ((refl, tt), ((refl, tt), tt)) tt tt (refl, refl)

-- A request of the user 5.
abbrev ring : PhoneEvent
ring = arrives (phone_requested (pos 5) (record { id = pos 50; access_hash = pos 51 }) (1 ∷ []))

-- The user 5 calls while a call with the user is being set up.
announcements-bound_example :
    announcements
      (pos 5)
      (ring ∷ answered true 0 ∷ [])
      []
      (on_event (answered true 0) (new_instance (pos 1)) ((pos 5, 1 ∷ []) ∷ [])).0.context
    ≤ 0
unfolding on_event requests_of lookup insert
announcements-bound_example =
    announcements-bound (pos 5) (ring ∷ answered true 0 ∷ []) []
      (on_event (answered true 0) (new_instance (pos 1)) ((pos 5, 1 ∷ []) ∷ [])).0.context refl

-- Two requests that come before the first answer are both announced.
announced_twice :
    announcements
      (pos 5)
      (ring ∷ ring ∷ answered true 0 ∷ answered true 0 ∷ [])
      []
      (new_instance (pos 1))
    ≡ 2
unfolding announcements on_event lookup insert
announced_twice = refl

connect_call-forgets_example :
    let r = connect_call answers (pos 5) song_media context in
    (is_waiting r.1 ≡ false)
    × (lookup (pos 5) r.0.wait_connect ≡ none)
    × (is_user (pos 5) ≡ true → lookup (pos 5) r.0.p2p_configs ≡ none)
connect_call-forgets_example = connect_call-forgets answers (pos 5) song_media context refl

-- The user 5 accepts, and the answer to the confirmation is not the call.
abbrev unusual : Answers
unusual = record answers {
  phone = record (answers.phone) {
    arriving =
        arrives (phone_accepted (pos 5) (record { id = pos 50; access_hash = pos 51 }) (2 ∷ []))
        ∷ [];
    confirmed = other_answer;
  };
}

blocked_call : (connect_call unusual (pos 5) song_media context).1 ≡ waiting
unfolding connect_call connect_user lookup wait_connection insert on_event
blocked_call = refl

-- The call of a group whose join was refused is not stopped.
connect_call_lem_example :
    let r = connect_call refused room song_media context in
    (is_ok r.1 ≡ false) × (stops room r.0 ≡ 0)
unfolding get_input_group_call lookup first_change stops_of
connect_call_lem_example = connect_call_lem refused 99 song_media context

good_call : is_ok (connect_call answers room song_media context).1 ≡ true
unfolding get_input_group_call lookup first_change
good_call = (connect_call_lem answers 99 song_media context).0

abbrev self_answers : SelfAnswers
self_answers = record {
  mode = some rtc_connection;
  has_state = true;
  edited = true;
  connection = answers;
}
