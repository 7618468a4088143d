-- ===== src/ChatCache.antt =====
-- src/core/cache/chat_cache.go: the queue of tracks of each chat. The mutex makes each method one
-- step, so a method is a function from the cache to the cache and its result.
pub mod Frame
pub mod Queue
pub mod Tracks
pub mod Active
use yes.Prelude.{
  ℕ, suc, Bool, true, false, ◌&&◌, ◌||◌, List, [], ◌∷◌, ◌++◌, Option, none, some, String, ℤ, pos,
  ltb, ltb_ℤ, leb_ℤ, pos_part, length, take, drop, eq_ℤ, str_eq, if◌then◌else◌,
}
use yes.Prelude.Assoc.{Assoc, lookup, insert, remove}
use yes.Track.{CachedTrack, Ref, Heap, write}

pub record ChatData : Type 0 where
  pub is_active : Bool
  pub queue : List Ref

pub record ChatCacher : Type 0 where
  pub chat_cache : Assoc ℤ ChatData

-- `c.chatCache[chatID]`
abbrev pub chat_at : ℤ → ChatCacher → Option ChatData
chat_at chat_id c = lookup chat_id c.chat_cache

abbrev pub put_chat : ℤ → ChatData → ChatCacher → ChatCacher
put_chat chat_id data' c = record { chat_cache = insert chat_id data' c.chat_cache }

abbrev pub new_chat_cacher : ChatCacher
new_chat_cacher = record { chat_cache = [] }

-- The queue of a chat, empty for a chat that has no entry.
abbrev pub queue_of : Option ChatData → List Ref
queue_of none = []
queue_of (some d) = d.queue

abbrev pub head_of : List Ref → Option Ref
head_of [] = none
head_of (r ∷ q) = some r

abbrev pub second_of : List Ref → Option Ref
second_of (r ∷ s ∷ q) = some s
second_of _ = none

added : Ref → Option ChatData → ChatData
added song none = record { is_active = true; queue = song ∷ [] }
added song (some d) = record d { queue = d.queue ++ song ∷ [] }

unfoldable pub add_song : ℤ → Ref → ChatCacher → ChatCacher
unfolding added
add_song chat_id song c = put_chat chat_id (added song (chat_at chat_id c)) c

unfoldable pub get_upcoming_track : ℤ → ChatCacher → Option Ref
get_upcoming_track chat_id c = second_of (queue_of (chat_at chat_id c))

unfoldable pub get_playing_track : ℤ → ChatCacher → Option Ref
get_playing_track chat_id c = head_of (queue_of (chat_at chat_id c))

remove_head : ℤ → ChatCacher → ChatData → List Ref → ChatCacher × Option Ref
remove_head chat_id c d [] = (c, none)
remove_head chat_id c d (removed ∷ rest) =
    (put_chat chat_id (record d { queue = rest }) c, some removed)

unfoldable pub remove_current_song : ℤ → ChatCacher → ChatCacher × Option Ref
unfolding remove_head
remove_current_song chat_id c = elim (chat_at chat_id c) [
  | none ↦ (c, none)
  | some d ↦ remove_head chat_id c d d.queue
]

unfoldable pub is_active : ℤ → ChatCacher → Bool
is_active chat_id c = elim (chat_at chat_id c) [ none ↦ false | some d ↦ d.is_active ]

activated : Bool → Option ChatData → ChatData
activated active none = record { is_active = active; queue = [] }
activated active (some d) = record d { is_active = active }

unfoldable pub set_active : ℤ → Bool → ChatCacher → ChatCacher
unfolding activated
set_active chat_id active c = put_chat chat_id (activated active (chat_at chat_id c)) c

unfoldable pub clear_chat : ℤ → ChatCacher → ChatCacher
clear_chat chat_id c = elim (chat_at chat_id c) [
  | none ↦ c
  | some d ↦ record { chat_cache = remove chat_id c.chat_cache }
]

unfoldable pub get_queue_length : ℤ → ChatCacher → ℕ
get_queue_length chat_id c = length (queue_of (chat_at chat_id c))

unfoldable pub get_loop_count : ℤ → ChatCacher → Heap → ℤ
get_loop_count chat_id c h = elim (queue_of (chat_at chat_id c)) [
  | [] ↦ pos 0
  | r ∷ q ↦ (h.cell r).loop
]

unfoldable pub set_loop_count : ℤ → ℤ → ChatCacher → Heap → Heap × Bool
set_loop_count chat_id loop c h = elim (queue_of (chat_at chat_id c)) [
  | [] ↦ (h, false)
  | r ∷ q ↦ (write r (record (h.cell r) { loop = loop }) h, true)
]

-- `append(q[:index], q[index+1:]...)`
unfoldable pub remove_at : ℕ → List Ref → List Ref
remove_at index q = take index q ++ drop (suc index) q

unfoldable pub remove_track : ℤ → ℤ → ChatCacher → ChatCacher × Bool
unfolding remove_at
remove_track chat_id index c = elim (chat_at chat_id c) [
  | none ↦ (c, false)
  | some d ↦
      if ltb_ℤ index (pos 0) || leb_ℤ (pos (length d.queue)) index
      then (c, false)
      else (put_chat chat_id (record d { queue = remove_at (pos_part index) d.queue }) c, true)
]

unfoldable pub get_queue : ℤ → ChatCacher → List Ref
get_queue chat_id c = queue_of (chat_at chat_id c)

active_ids : Assoc ℤ ChatData → List ℤ
active_ids [] = []
active_ids ((chat_id, d) ∷ m) =
    let rest = active_ids m in if d.is_active then chat_id ∷ rest else rest

unfoldable pub get_active_chats : ChatCacher → List ℤ
unfolding active_ids
get_active_chats c = active_ids c.chat_cache

-- The loop of `GetTrackIfExists`.
unfoldable pub find_track : String → Heap → List Ref → Option Ref
find_track track_id h [] = none
find_track track_id h (t ∷ q) =
    if str_eq (h.cell t).track_id track_id then some t else find_track track_id h q

unfoldable pub get_track_if_exists : ℤ → String → ChatCacher → Heap → Option Ref
unfolding find_track
get_track_if_exists chat_id track_id c h = find_track track_id h (queue_of (chat_at chat_id c))
