-- ===== src/ChatCache/Tracks.antt =====
-- The methods of the chat cache that read or change single tracks of a queue.
use yes.Prelude.{
  ℕ, zero, suc, ◌+◌, ◌<◌, ◌≡◌, ◌≢◌, refl, true, false, List, [], ◌∷◌, none, some, ℤ, pos, length,
  get_elem?, arith, eq_ℤ, int_eq_iff, nat_eq, if◌then◌else◌, Bool-cases, ◌≤ℤ◌, ◌<ℤ◌, ◌⊎◌, ◌↔◌, inl,
  inr, ltb, String, str_eq, eq_iff, All,
}
use yes.Prelude.Assoc.{lookup-insert}
use yes.Track.{Ref, Heap, write}
use yes.ChatCache.{
  ChatCacher, chat_at, queue_of, remove_at, remove_track, get_queue, get_playing_track,
  get_loop_count, set_loop_count, find_track, get_track_if_exists,
}

-- The queue without its entry `index`: the entries before it stay, those behind it move up by one.
get_elem?-remove_at :
    (q : List Ref) (i j : ℕ)
    → i < length q
    → get_elem? (remove_at i q) j ≡ (if ltb j i then get_elem? q j else get_elem? q (suc j))
unfolding remove_at
get_elem?-remove_at [] i j h = elim h [ ]
get_elem?-remove_at (x ∷ q) zero j h = ground arith
get_elem?-remove_at (x ∷ q) (suc i) zero h = ground arith
get_elem?-remove_at (x ∷ q) (suc i) (suc j) h = ground (arith, get_elem?-remove_at q i j)

length-remove_at : (q : List Ref) (i : ℕ) → i < length q → length (remove_at i q) + 1 ≡ length q
unfolding remove_at
length-remove_at [] i h = elim h [ ]
length-remove_at (x ∷ q) zero h = omega arith
length-remove_at (x ∷ q) (suc i) h = omega (arith, length-remove_at q i (omega arith))

remove_track-remove_at :
    (chat_id : ℤ) (i : ℕ) (c : ChatCacher)
    → i < length (get_queue chat_id c)
    → ((remove_track chat_id (pos i) c).1 ≡ true)
      × (get_queue chat_id (remove_track chat_id (pos i) c).0 ≡ remove_at i (get_queue chat_id c))
unfolding remove_track get_queue
remove_track-remove_at chat_id i c h = grind (arith, lookup-insert, int_eq_iff)

-- `RemoveTrack` with an index that the queue has: it reports success, and the queue afterwards is one
-- shorter, keeps the entries before the index and has the entries behind it one place further up.
pub remove_track_in_range :
    (chat_id : ℤ) (i : ℕ) (c : ChatCacher)
    → i < length (get_queue chat_id c)
    → ((remove_track chat_id (pos i) c).1 ≡ true)
      × (length (get_queue chat_id (remove_track chat_id (pos i) c).0) + 1
          ≡ length (get_queue chat_id c))
      × ((j : ℕ)
          → get_elem? (get_queue chat_id (remove_track chat_id (pos i) c).0) j ≡ (
              if ltb j i
              then get_elem? (get_queue chat_id c) j
              else get_elem? (get_queue chat_id c) (suc j)))
remove_track_in_range chat_id i c h =
    let (done, left) = remove_track-remove_at chat_id i c h in
    (
      done,
      rw left (length-remove_at (get_queue chat_id c) i h),
      λ j. rw left (get_elem?-remove_at (get_queue chat_id c) i j h),
    )

-- `RemoveTrack` with any other index reports failure and changes nothing.
pub remove_track_out_of_range :
    (chat_id index : ℤ) (c : ChatCacher)
    → (index <ℤ pos 0) ⊎ (pos (length (get_queue chat_id c)) ≤ℤ index)
    → remove_track chat_id index c ≡ (c, false)
unfolding remove_track get_queue
remove_track_out_of_range chat_id index c h = ground arith

-- `SetLoopCount` on a chat with a current track succeeds: `GetLoopCount` reads the new count, no field
-- of that track but the count changes, and no other track changes.
pub set_loop_count_lem :
    (chat_id loop : ℤ) (r : Ref) (c : ChatCacher) (h : Heap)
    → get_playing_track chat_id c ≡ some r
    → ((set_loop_count chat_id loop c h).1 ≡ true)
      × (get_loop_count chat_id c (set_loop_count chat_id loop c h).0 ≡ loop)
      × ((s : Ref)
          → (set_loop_count chat_id loop c h).0.cell s
            ≡ (if nat_eq s r then record (h.cell r) { loop = loop } else h.cell s))
unfolding set_loop_count get_loop_count get_playing_track write
set_loop_count_lem chat_id loop r c h e = (ground arith, ground arith, λ s. ground arith)

-- `SetLoopCount` on a chat without a current track fails and changes nothing, and `GetLoopCount` is 0.
pub set_loop_count_idle :
    (chat_id loop : ℤ) (c : ChatCacher) (h : Heap)
    → get_playing_track chat_id c ≡ none
    → (set_loop_count chat_id loop c h ≡ (h, false)) × (get_loop_count chat_id c h ≡ pos 0)
unfolding set_loop_count get_loop_count get_playing_track
set_loop_count_idle chat_id loop c h e = ground arith

find_track-eq-none :
    (track_id : String) (h : Heap) (q : List Ref)
    → (find_track track_id h q ≡ none) ↔ All (λ r. (h.cell r).track_id ≢ track_id) q
unfolding find_track
find_track-eq-none track_id h [] = (λ e. tt, λ a. refl)
find_track-eq-none track_id h (t ∷ q) =
    let (all, missed) = find_track-eq-none track_id h q in
    (
      λ e. (λ p. ground (arith, eq_iff (h.cell t).track_id track_id), all (ground arith)),
      λ a. ground (arith, eq_iff (h.cell t).track_id track_id, missed a.1),
    )

-- `GetTrackIfExists` finds nothing exactly when no track of the chat's queue has the id.
pub get_track_if_exists-eq-none :
    (chat_id : ℤ) (track_id : String) (c : ChatCacher) (h : Heap)
    → (get_track_if_exists chat_id track_id c h ≡ none)
      ↔ All (λ r. (h.cell r).track_id ≢ track_id) (get_queue chat_id c)
unfolding get_track_if_exists get_queue
get_track_if_exists-eq-none chat_id track_id c h =
    find_track-eq-none track_id h (queue_of (chat_at chat_id c))

find_track_sound :
    (track_id : String) (h : Heap) (q : List Ref) (r : Ref)
    → find_track track_id h q ≡ some r
    → ((h.cell r).track_id ≡ track_id) × ((i : ℕ) × (get_elem? q i ≡ some r))
unfolding find_track
find_track_sound track_id h [] r e = cc
find_track_sound track_id h (t ∷ q) r e = elim (Bool-cases (str_eq (h.cell t).track_id track_id)) [
  | inl same ↦ ((ground (arith, eq_iff (h.cell t).track_id track_id), (0, ground arith)))
  | inr other ↦
      let (found, (i, at)) = find_track_sound track_id h q r (ground arith) in (found, (suc i, at))
]

-- A track that `GetTrackIfExists` returns has the id and stands in the chat's queue.
pub get_track_if_exists_sound :
    (chat_id : ℤ) (track_id : String) (r : Ref) (c : ChatCacher) (h : Heap)
    → get_track_if_exists chat_id track_id c h ≡ some r
    → ((h.cell r).track_id ≡ track_id) × ((i : ℕ) × (get_elem? (get_queue chat_id c) i ≡ some r))
unfolding get_track_if_exists get_queue
get_track_if_exists_sound chat_id track_id r c h =
    find_track_sound track_id h (queue_of (chat_at chat_id c)) r
