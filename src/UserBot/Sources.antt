-- ===== src/UserBot/Sources.antt =====
-- src/vc/ubot/get_participants.go and update_sources.go: the participants read from Telegram, and their streams.
use yes.Prelude.{
  ℕ, ◌-◌, Bool, true, false, not, ◌&&◌, List, [], ◌∷◌, ◌++◌, Option, none, some, String, ℤ, ltb,
  int_eq, str_eq, eq_ℤ, eq_String, if◌then◌else◌,
}
use yes.Prelude.Assoc.{Assoc, lookup, insert}
use yes.Database.Utilities.{contains}
use yes.TtlCache.{minute}
use yes.UserBot.{Context, CallRef, CallParticipant, CallSources, add_video, does, Ended, ok, failed}
use yes.UserBot.GroupCalls.{FullChat, get_input_group_call}
use yes.UserBot.Participants.{source_at, participants_of}

-- `GetParticipants`: the pages that Telegram gives, each with a next offset but the last; `none` is an
-- error, and the pages before it are kept.
with_page : List CallParticipant → Assoc ℤ CallParticipant → Assoc ℤ CallParticipant
with_page [] m = m
with_page (p ∷ ps) m = with_page ps (insert p.id p m)

unfoldable pub read_pages :
    List (Option (List CallParticipant)) → Assoc ℤ CallParticipant → Assoc ℤ CallParticipant × Bool
unfolding with_page
read_pages [] m = (m, true)
read_pages (none ∷ pages) m = (m, false)
read_pages (some page ∷ pages) m = read_pages pages (with_page page m)

last_update_of : ℤ → Context → ℕ
last_update_of chat_id c = elim (lookup chat_id c.call_participants) [
  | none ↦ 0
  | some cached ↦ cached.last_update
]

values : Assoc ℤ CallParticipant → List CallParticipant
values [] = []
values ((id, p) ∷ m) = p ∷ values m

cached_as : ℤ → Assoc ℤ CallParticipant → ℕ → Context → Context
cached_as chat_id m last c = record c {
  call_participants =
      insert chat_id (record { participants = m; last_update = last }) c.call_participants;
}

read_again :
    ℕ
    → List (Option (List CallParticipant))
    → ℤ
    → ℕ
    → Context × Option CallRef
    → Context × Option (List CallParticipant)
read_again now pages chat_id last (c, none) =
    (cached_as chat_id (participants_of chat_id c) last c, none)
read_again now pages chat_id last (c, some call) =
    let (m, complete) = read_pages pages [] in
    if complete
    then (cached_as chat_id m now c, some (values m))
    else (cached_as chat_id m last c, none)

-- The time zero of a chat that was never read is 0; `none` is an error.
unfoldable pub get_participants :
    ℕ
    → FullChat
    → List (Option (List CallParticipant))
    → ℤ
    → Context
    → Context × Option (List CallParticipant)
unfolding last_update_of values cached_as read_again read_pages
get_participants now full pages chat_id c =
    let last = last_update_of chat_id c in
    if ltb minute (now - last)
    then read_again now pages chat_id last (get_input_group_call full chat_id c)
    else (
      cached_as chat_id (participants_of chat_id c) last c,
      some (values (participants_of chat_id c)),
    )

-- `updateSources`. A stream that has no source yet gets one and is added to the call.
sources_of : ℤ → Context → CallSources
sources_of chat_id c = elim (lookup chat_id c.call_sources) [
  | none ↦ record { camera_sources = []; screen_sources = [] }
  | some s ↦ s
]

with_sources : ℤ → CallSources → Context → Context
with_sources chat_id s c = record c { call_sources = insert chat_id s c.call_sources }

add_camera : (String → Bool) → ℤ → CallParticipant → Option String → Context → Context × Bool
add_camera adds chat_id p none c = (c, true)
add_camera adds chat_id p (some endpoint) c =
    let s = sources_of chat_id c in
    if str_eq (source_at p.id s.camera_sources) ""
    then (
      does (add_video chat_id endpoint) (
          with_sources chat_id (record s { camera_sources = insert p.id endpoint s.camera_sources })
            c),
      adds endpoint,
    )
    else (c, true)

add_screen : (String → Bool) → ℤ → CallParticipant → Option String → Context → Context × Bool
add_screen adds chat_id p none c = (c, true)
add_screen adds chat_id p (some endpoint) c =
    let s = sources_of chat_id c in
    if str_eq (source_at p.id s.screen_sources) ""
    then (
      does (add_video chat_id endpoint) (
          with_sources chat_id (record s { screen_sources = insert p.id endpoint s.screen_sources })
            c),
      adds endpoint,
    )
    else (c, true)

noted_mute : ℤ → CallParticipant → Context → Context
noted_mute chat_id p c =
    if int_eq p.id c.self_id && not p.can_self_unmute && not (contains c.muted_by_admin chat_id)
    then record c { muted_by_admin = c.muted_by_admin ++ chat_id ∷ [] }
    else c

-- One round; `false` is an error.
source_one : (String → Bool) → ℤ → CallParticipant → Context → Context × Bool
source_one adds chat_id p c =
    let (c', camera) = add_camera adds chat_id p p.video c in
    if not camera
    then (c', false)
    else (let (d, screen) = add_screen adds chat_id p p.presentation c' in
        if not screen then (d, false) else (noted_mute chat_id p d, true))

source_all : (String → Bool) → ℤ → List CallParticipant → Context → Context × Ended
source_all adds chat_id [] c = (c, ok)
source_all adds chat_id (p ∷ ps) c = elim (source_one adds chat_id p c).1 [
  | false ↦ ((source_one adds chat_id p c).0, failed "add_video")
  | true ↦ source_all adds chat_id ps (source_one adds chat_id p c).0
]

with_participants : (String → Bool) → ℤ → Context × Option (List CallParticipant) → Context × Ended
with_participants adds chat_id (c, none) = (c, failed "participants")
with_participants adds chat_id (c, some ps) =
    source_all adds chat_id ps (with_sources chat_id (sources_of chat_id c) c)

unfoldable pub update_sources :
    ℕ
    → FullChat
    → List (Option (List CallParticipant))
    → (String → Bool)
    → ℤ
    → Context
    → Context × Ended
unfolding sources_of with_sources add_camera add_screen noted_mute source_one source_all
    with_participants
update_sources now full pages adds chat_id c =
    with_participants adds chat_id (get_participants now full pages chat_id c)
