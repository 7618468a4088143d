-- ===== src/Handlers/Enqueue.antt =====
-- The queue of a chat as a list of tracks: what adding tracks does to it, and which track plays first.
use mathlib.Core.List.{append_assoc, append-nil, map-append}
use yes.Prelude.{
  ℕ, suc, ◌<◌, ◌≡◌, refl, sym, ◌∙◌, Bool, true, false, not, ◌&&◌, List, [], ◌∷◌, ◌++◌, ℤ, ltb_ℤ,
  nat_eq, nat_eq_iff, map, All, arith, if◌then◌else◌, Bool-cases, inl, inr,
}
use yes.Track.{CachedTrack, MusicTrack, Ref, alloc}
use yes.ChatCache.Queue.{queue-add_song}
use yes.Handlers.Play.{Request, add_track, listed_track, enqueue_one, enqueue}
use yes.Playback.{Player}
use yes.Playback.Effects.{queue_at}

-- The tracks of a chat's queue, in order.
abbrev pub contents : ℤ → Player → List CachedTrack
contents chat_id p = map p.heap.cell (queue_at chat_id p)

-- Every track of the queue is one that was allocated.
abbrev pub IsAllocated : ℤ → Player → Type 0
IsAllocated chat_id p = All (λ r. r < p.heap.next) (queue_at chat_id p)

All-append_one : (n : ℕ) (l : List Ref) → All (λ r. r < n) l → All (λ r. r < suc n) (l ++ n ∷ [])
All-append_one n [] h = omega arith
All-append_one n (r ∷ l) h = (omega arith, All-append_one n l h.1)

queue_at-add_track :
    (chat_id : ℤ) (t : CachedTrack) (p : Player)
    → queue_at chat_id (add_track chat_id t p) ≡ queue_at chat_id p ++ p.heap.next ∷ []
unfolding add_track
queue_at-add_track chat_id t p = queue-add_song chat_id p.heap.next p.chats

next-add_track :
    (chat_id : ℤ) (t : CachedTrack) (p : Player)
    → (add_track chat_id t p).heap.next ≡ suc p.heap.next
unfolding add_track alloc
next-add_track chat_id t p = omega arith

cell-add_track :
    (chat_id : ℤ) (t : CachedTrack) (r : Ref) (p : Player)
    → (add_track chat_id t p).heap.cell r ≡ (if nat_eq r p.heap.next then t else p.heap.cell r)
unfolding add_track alloc
cell-add_track chat_id t r p = refl

add_track-IsAllocated :
    (chat_id : ℤ) (t : CachedTrack) (p : Player)
    → IsAllocated chat_id p
    → IsAllocated chat_id (add_track chat_id t p)
add_track-IsAllocated chat_id t p h =
    rw (queue_at-add_track, next-add_track) (All-append_one p.heap.next (queue_at chat_id p) h)

map-add_track :
    (chat_id : ℤ) (t : CachedTrack) (p : Player) (l : List Ref)
    → All (λ r. r < p.heap.next) l
    → map (add_track chat_id t p).heap.cell l ≡ map p.heap.cell l
map-add_track chat_id t p [] h = refl
map-add_track chat_id t p (r ∷ l) h =
    ground (
      arith,
      cell-add_track chat_id t r p,
      nat_eq_iff r p.heap.next,
      map-add_track chat_id t p l h.1,
    )

-- An added track comes last.
contents-add_track :
    (chat_id : ℤ) (t : CachedTrack) (p : Player)
    → IsAllocated chat_id p
    → contents chat_id (add_track chat_id t p) ≡ contents chat_id p ++ t ∷ []
contents-add_track chat_id t p h =
    rw (queue_at-add_track, map-append, map-add_track chat_id t p (queue_at chat_id p) h)
      (ground (arith, cell-add_track chat_id t p.heap.next p, nat_eq_iff p.heap.next p.heap.next))

module _ (q : Request) (was_active : Bool) (i : ℕ) (track : MusicTrack) (p : Player) where
  enqueue_one_long :
      ltb_ℤ q.song_duration_limit track.duration ≡ true → enqueue_one q was_active i track p ≡ p
  unfolding enqueue_one
  enqueue_one_long long = rw long

  enqueue_one_fits :
      ltb_ℤ q.song_duration_limit track.duration ≡ false
      → enqueue_one q was_active i track p
        ≡ add_track q.chat_id (listed_track q (not was_active && nat_eq i 0) track) p
  unfolding enqueue_one
  enqueue_one_fits fits = rw fits

-- A track of a list as it is queued, unless it is too long.
unfoldable pub fitting_one : Request → Bool → ℕ → MusicTrack → List CachedTrack
fitting_one q was_active i track =
    if ltb_ℤ q.song_duration_limit track.duration
    then []
    else listed_track q (not was_active && nat_eq i 0) track ∷ []

-- The tracks of a list that are not too long, as they are queued.
unfoldable pub fitting : Request → Bool → ℕ → List MusicTrack → List CachedTrack
fitting q was_active i [] = []
fitting q was_active i (track ∷ tracks) =
    fitting_one q was_active i track ++ fitting q was_active (suc i) tracks

module _ (q : Request) (was_active : Bool) where
  enqueue_one-IsAllocated :
      (i : ℕ) (track : MusicTrack) (p : Player)
      → IsAllocated q.chat_id p
      → IsAllocated q.chat_id (enqueue_one q was_active i track p)
  enqueue_one-IsAllocated i track p h =
      elim (Bool-cases (ltb_ℤ q.song_duration_limit track.duration)) [
        | inl long ↦ rw (enqueue_one_long q was_active i track p long) h
        | inr fits ↦
            rw (enqueue_one_fits q was_active i track p fits)
              (add_track-IsAllocated q.chat_id _ p h)
      ]

  contents-enqueue_one :
      (i : ℕ) (track : MusicTrack) (p : Player)
      → IsAllocated q.chat_id p
      → contents q.chat_id (enqueue_one q was_active i track p)
        ≡ contents q.chat_id p ++ fitting_one q was_active i track
  unfolding fitting_one
  contents-enqueue_one i track p h =
      elim (Bool-cases (ltb_ℤ q.song_duration_limit track.duration)) [
        | inl long ↦ rw (enqueue_one_long q was_active i track p long, long, append-nil)
        | inr fits ↦
            rw (enqueue_one_fits q was_active i track p fits, fits)
              (contents-add_track q.chat_id (listed_track q (not was_active && nat_eq i 0) track) p
                h)
      ]

  -- The loop of `handleMultipleTracks` puts the tracks of the list that are not too long behind those
  -- that the queue holds, in the order of the list, and leaves the tracks that the queue holds as they are.
  pub contents-enqueue :
      (i : ℕ) (tracks : List MusicTrack) (p : Player)
      → IsAllocated q.chat_id p
      → contents q.chat_id (enqueue q was_active i tracks p)
        ≡ contents q.chat_id p ++ fitting q was_active i tracks
  unfolding enqueue fitting
  contents-enqueue i [] p h = sym (append-nil _)
  contents-enqueue i (track ∷ tracks) p h =
      contents-enqueue (suc i) tracks (enqueue_one q was_active i track p)
        (enqueue_one-IsAllocated i track p h)
      ∙ rw (contents-enqueue_one i track p h, append_assoc)
