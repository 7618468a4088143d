-- ===== src/UserBot/Calling.antt =====
-- connectCall with its deferred functions in src/vc/ubot/connect_call.go, Play and Record in play.go and record.go, and
-- the second half of the handler of UpdateGroupCallParticipants in handle_updates.go.
use yes.Prelude.{
  ℕ, Bool, true, false, not, ◌&&◌, List, [], ◌∷◌, ◌++◌, Option, none, some, String, ℤ, pos, negsuc,
  int_eq, eq_ℤ, if◌then◌else◌,
}
use yes.Prelude.Assoc.{lookup, insert, remove}
use yes.Database.Utilities.{contains}
use yes.UserBot.{
  Context, CallParticipant, Pending, MediaDescription, set_sources, record_sources, edit_status,
  does, Ended, ok, failed, panicked, waiting,
}
use yes.UserBot.Ids.{std_remove}
use yes.UserBot.GroupCalls.{FullChat, convert_group_call_id}
use yes.UserBot.Participants.{update_participants}
use yes.UserBot.Sources.{update_sources}
use yes.UserBot.Connect.{Mode, stream_connection, Answers, wait_connection, connect_group}
use yes.UserBot.Dial.{connect_user}
use yes.UserBot.Presentation.{ScreenAnswers, join_presentation}

unfoldable pub begin : ℤ → Context → Context
begin chat_id c = record c {
  wait_connect = insert chat_id (record { capacity = 1; held = [] }) c.wait_connect;
}

-- The deferred functions. The first one to run is that of `p2pMutex`: it waits forever, and the other does not run,
-- if the call of a user ended in a panic while the method held this mutex, which stays held.
unfoldable pub cleaned : ℤ → Context × Ended → Context × Ended
cleaned (pos n) (c, waiting) = (c, waiting)
cleaned (pos n) (c, e) = (
  record c {
    wait_connect = remove (pos n) c.wait_connect;
    p2p_configs = remove (pos n) c.p2p_configs;
  },
  e,
)
cleaned (negsuc n) (c, e) = (record c { wait_connect = remove (negsuc n) c.wait_connect }, e)

unfoldable pub connect_chat : Answers → ℤ → MediaDescription → Context → Context × Ended
connect_chat a (pos n) media c = connect_user a.phone (pos n) media c
connect_chat a (negsuc n) media c = connect_group a.group (negsuc n) media c

unfoldable pub connect_call : Answers → ℤ → MediaDescription → Context → Context × Ended
unfolding begin cleaned connect_chat
connect_call a chat_id media c =
    cleaned chat_id
      (wait_connection a.changes chat_id (connect_chat a chat_id media (begin chat_id c)))

-- What `updateSources` asks for: when it runs, the chat, the pages of participants, and which streams the
-- call library adds.
pub record SourceAnswers : Type 0 where
  pub now : ℕ
  pub full : FullChat
  pub pages : List (Option (List CallParticipant))
  pub adds : String → Bool

-- Whether the call library takes the sources of a stream.
after_set : Bool → Context → Context × Ended
after_set false c = (c, failed "sources")
after_set true c = (c, ok)

with_screen : SourceAnswers → ℤ → Context × Ended → Context × Ended
with_screen s chat_id (c, ok) = update_sources s.now s.full s.pages s.adds chat_id c
with_screen s chat_id (c, e) = (c, e)

after_connect_call :
    ScreenAnswers → SourceAnswers → ℤ → MediaDescription → Context × Ended → Context × Ended
after_connect_call a s (pos n) media (c, ok) = (c, ok)
after_connect_call a s (negsuc n) media (c, ok) =
    with_screen s (negsuc n) (join_presentation a (negsuc n) media.screen c)
after_connect_call a s chat_id media (c, e) = (c, e)

-- Parameters: whether the call library has a call for the chat, the answer if it has, and the answers if not.
unfoldable pub play :
    Bool
    → Bool
    → Answers
    → ScreenAnswers
    → SourceAnswers
    → ℤ
    → MediaDescription
    → Context
    → Context × Ended
unfolding after_set with_screen after_connect_call
play true is_set a screen s chat_id media c = after_set is_set (does (set_sources chat_id media) c)
play false is_set a screen s chat_id media c =
    after_connect_call screen s chat_id media (connect_call a chat_id media c)

record_after : Bool → ℤ → MediaDescription → Context × Ended → Context × Ended
record_after is_set chat_id media (c, ok) = after_set is_set (does (record_sources chat_id media) c)
record_after is_set chat_id media (c, e) = (c, e)

abbrev nothing : MediaDescription
nothing = record { description = ""; camera = false; screen = false }

unfoldable pub record_call :
    Bool
    → Bool
    → Answers
    → ScreenAnswers
    → SourceAnswers
    → ℤ
    → MediaDescription
    → Context
    → Context × Ended
unfolding after_set record_after
record_call true is_set a screen s chat_id media c = record_after is_set chat_id media (c, ok)
record_call false is_set a screen s chat_id media c =
    record_after is_set chat_id media (play false is_set a screen s chat_id nothing c)

-- What the handler asks for when an update reports the assistant itself: the mode of the connection, whether the
-- library gives its state, and whether Telegram takes it.
pub record SelfAnswers : Type 0 where
  pub mode : Option Mode
  pub has_state : Bool
  pub edited : Bool
  pub connection : Answers

-- An error of connectCall is not looked at.
unfoldable pub ignored : Context × Ended → Context × Ended
ignored (c, failed error) = (c, ok)
ignored (c, e) = (c, e)

unfoldable pub reconnected : SelfAnswers → ℤ → Option Pending → Context → Context × Ended
reconnected a chat_id none c = (c, ok)
reconnected a chat_id (some pending) c = ignored (connect_call a.connection chat_id pending.media c)

unfoldable pub unmuted : SelfAnswers → ℤ → Context → Context × Ended
unmuted a chat_id c =
    if not a.has_state
    then (c, panicked)
    else if not a.edited
    then (does (edit_status chat_id) c, panicked)
    else (
      does (edit_status chat_id)
          (record c { muted_by_admin = std_remove c.muted_by_admin chat_id }),
      ok,
    )

unfoldable pub may_speak : SelfAnswers → ℤ → Option Mode → Context → Context × Ended
may_speak a chat_id (some stream_connection) c =
    reconnected a chat_id (lookup chat_id c.pending_connections) c
may_speak a chat_id _ c = if contains c.muted_by_admin chat_id then unmuted a chat_id c else (c, ok)

unfoldable pub note_self : SelfAnswers → ℤ → Bool → Context → Context × Ended
note_self a chat_id true c = may_speak a chat_id a.mode c
note_self a chat_id false c =
    if contains c.muted_by_admin chat_id
    then (c, ok)
    else (record c { muted_by_admin = c.muted_by_admin ++ chat_id ∷ [] }, ok)

unfoldable pub note_one : SelfAnswers → ℤ → CallParticipant → Context → Context × Ended
note_one a chat_id p c =
    if p.is_user && int_eq p.id c.self_id then note_self a chat_id p.can_self_unmute c else (c, ok)

unfoldable pub note_next : (Context → Context × Ended) → Context × Ended → Context × Ended
note_next next (c, ok) = next c
note_next next (c, e) = (c, e)

-- The answers are given by the id of the participant.
unfoldable pub note_all : (ℤ → SelfAnswers) → ℤ → List CallParticipant → Context → Context × Ended
unfolding ignored reconnected unmuted may_speak note_self note_one note_next
note_all a chat_id [] c = (c, ok)
note_all a chat_id (p ∷ ps) c = note_next (note_all a chat_id ps) (note_one (a p.id) chat_id p c)

with_chat : ℕ → (ℤ → SelfAnswers) → List CallParticipant → Context → Option ℤ → Context × Ended
with_chat now a ps c none = (c, ok)
with_chat now a ps c (some chat_id) = note_all a chat_id ps (update_participants now chat_id ps c)

-- The handler of UpdateGroupCallParticipants.
unfoldable pub on_participants :
    ℕ → (ℤ → SelfAnswers) → ℤ → List CallParticipant → Context → Context × Ended
unfolding with_chat
on_participants now a call_id ps c = with_chat now a ps c (convert_group_call_id call_id c)
