-- ===== src/UserBot/Participants.antt =====
-- The participants of a chat's call and their video streams: the first half of the handler of
-- UpdateGroupCallParticipants in src/vc/ubot/handle_updates.go.
use yes.Prelude.{
  ℕ, Bool, true, false, not, List, [], ◌∷◌, Option, none, some, String, ℤ, str_eq, eq_ℤ, eq_String,
  if◌then◌else◌,
}
use yes.Prelude.Assoc.{Assoc, lookup, insert, remove}
use yes.UserBot.{
  Context, CallParticipant, ParticipantsCache, CallSources, add_video, remove_video, does,
}

-- What the loop of the handler writes: the participants, the sources if the chat has any, and the
-- endpoints to add and to remove.
pub record Roster : Type 0 where
  pub participants : Assoc ℤ CallParticipant
  pub sources : Option CallSources
  pub added : Assoc String Bool
  pub removed : Assoc String Bool

-- `m[id]` in a map of texts.
unfoldable pub text_or_empty : Option String → String
text_or_empty none = ""
text_or_empty (some t) = t

abbrev pub source_at : ℤ → Assoc ℤ String → String
source_at id m = text_or_empty (lookup id m)

abbrev pub has_stream : Option String → Bool
has_stream none = false
has_stream (some endpoint) = true

-- One stream of a participant: the sources of its kind, and the endpoints to add and to remove.
unfoldable pub refresh :
    ℤ
    → Option String
    → Assoc ℤ String × (Assoc String Bool × Assoc String Bool)
    → Assoc ℤ String × (Assoc String Bool × Assoc String Bool)
refresh id none (m, (added, removed)) =
    if not (str_eq (source_at id m) "")
    then (remove id m, (added, insert (source_at id m) true removed))
    else (m, (added, removed))
refresh id (some endpoint) (m, (added, removed)) =
    if not (str_eq (source_at id m) "")
    then (m, (added, removed))
    else (insert id endpoint m, (insert endpoint true added, removed))

unfoldable pub refreshed : CallParticipant → CallSources → Roster → Roster
unfolding refresh
refreshed p s r =
    let (cameras, streams) = refresh p.id p.video (s.camera_sources, (r.added, r.removed)) in
    let (screens, streams') = refresh p.id p.presentation (s.screen_sources, streams) in
    record r {
      sources = some (record { camera_sources = cameras; screen_sources = screens });
      added = streams'.0;
      removed = streams'.1;
    }

unfoldable pub forgotten : ℤ → Option CallSources → Option CallSources
forgotten id none = none
forgotten id (some s) = some (record {
  camera_sources = remove id s.camera_sources;
  screen_sources = remove id s.screen_sources;
})

-- A participant who is in the call; a chat without sources stays without.
unfoldable pub present : CallParticipant → Roster → Option CallSources → Roster
unfolding refreshed
present p r none = record r { participants = insert p.id p r.participants; sources = none }
present p r (some s) = refreshed p s (record r { participants = insert p.id p r.participants })

-- One round of the loop, by whether the participant has left.
unfoldable pub update_by : Bool → CallParticipant → Roster → Roster
unfolding present forgotten
update_by true p r = record r {
  participants = remove p.id r.participants;
  sources = forgotten p.id r.sources;
}
update_by false p r = present p r r.sources

unfoldable pub update_one : CallParticipant → Roster → Roster
unfolding update_by
update_one p r = update_by p.left p r

unfoldable pub update_all : List CallParticipant → Roster → Roster
update_all [] r = r
update_all (p ∷ ps) r = update_all ps (update_one p r)

unfoldable pub add_incoming : ℤ → Assoc String Bool → Context → Context
add_incoming chat_id [] c = c
add_incoming chat_id ((endpoint, b) ∷ m) c =
    add_incoming chat_id m (does (add_video chat_id endpoint) c)

unfoldable pub remove_incoming : ℤ → Assoc String Bool → Context → Context
remove_incoming chat_id [] c = c
remove_incoming chat_id ((endpoint, b) ∷ m) c =
    remove_incoming chat_id m (does (remove_video chat_id endpoint) c)

abbrev pub cached_participants : Option ParticipantsCache → Assoc ℤ CallParticipant
cached_participants none = []
cached_participants (some cached) = cached.participants

abbrev pub participants_of : ℤ → Context → Assoc ℤ CallParticipant
participants_of chat_id c = cached_participants (lookup chat_id c.call_participants)

abbrev pub roster : ℤ → Context → Roster
roster chat_id c = record {
  participants = participants_of chat_id c;
  sources = lookup chat_id c.call_sources;
  added = [];
  removed = [];
}

unfoldable pub stored_sources : ℤ → Option CallSources → Assoc ℤ CallSources → Assoc ℤ CallSources
stored_sources chat_id none m = m
stored_sources chat_id (some s) m = insert chat_id s m

unfoldable pub stored_participants : ℕ → ℤ → Roster → Context → Context
unfolding stored_sources
stored_participants now chat_id r c = record c {
  call_participants =
      insert chat_id (record { participants = r.participants; last_update = now })
        c.call_participants;
  call_sources = stored_sources chat_id r.sources c.call_sources;
}

-- The handler up to its calls of `RemoveIncomingVideo`, for the chat of the call.
unfoldable pub update_participants : ℕ → ℤ → List CallParticipant → Context → Context
unfolding update_all add_incoming remove_incoming stored_participants
update_participants now chat_id ps c =
    let r = update_all ps (roster chat_id c) in
    remove_incoming chat_id r.removed
      (add_incoming chat_id r.added (stored_participants now chat_id r c))
