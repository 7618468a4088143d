-- ===== src/Handlers/FirstTrack.antt =====
-- Which track of a list `PlayNext` picks in a chat without an entry.
use mathlib.Core.Option
use yes.Prelude.{
  ℕ, suc, ◌≡◌, refl, ◌∙◌, true, false, List, [], ◌∷◌, Option, none, some, ℤ, pos, ◌≤ℤ◌, ◌<ℤ◌, ltb_ℤ,
  map, All, arith,
}
use yes.Track.{CachedTrack, MusicTrack, Ref}
use yes.ChatCache.{get_queue, chat_at}
use yes.Handlers.Enqueue.{contents, fitting, fitting_one, contents-enqueue}
use yes.Handlers.Play.{Request, listed_track, enqueue}
use yes.Playback.{Player, choose}
use yes.Playback.Effects.{queue_at, choose_loop, choose_next, choose_last, choose_empty}

abbrev pub second {ℓ} : {A : Type ℓ} → List A → Option A
second (a ∷ b ∷ l) = some b
second _ = none

queue_at_absent :
    (chat_id : ℤ) (p : Player) → chat_at chat_id p.chats ≡ none → queue_at chat_id p ≡ []
unfolding get_queue
queue_at_absent chat_id p e = rw e

-- What is queued in a chat that had no entry.
contents-enqueue_absent :
    (q : Request) (i : ℕ) (tracks : List MusicTrack) (p : Player)
    → chat_at q.chat_id p.chats ≡ none
    → contents q.chat_id (enqueue q false i tracks p) ≡ fitting q false i tracks
contents-enqueue_absent q i tracks p e =
    let empty = queue_at_absent q.chat_id p e in
    contents-enqueue q false i tracks p (rw empty tt) ∙ rw empty

choose_repeats :
    (chat_id : ℤ) (p : Player) (t : CachedTrack) (ts : List CachedTrack) (l : List Ref)
    → queue_at chat_id p ≡ l
    → map p.heap.cell l ≡ t ∷ ts
    → pos 0 <ℤ t.loop
    → Option.map p.heap.cell (choose chat_id p).1 ≡ some t
choose_repeats chat_id p t ts [] e h more = cc
choose_repeats chat_id p t ts (r ∷ l) e h more = ground (arith, choose_loop chat_id r l p e)

-- In a chat without an entry, the pick of `PlayNext` after the loop of `handleMultipleTracks` is the first
-- track of the list, if that track is not too long.
pub first_track_first :
    (q : Request) (track : MusicTrack) (tracks : List MusicTrack) (p : Player)
    → chat_at q.chat_id p.chats ≡ none
    → ltb_ℤ q.song_duration_limit track.duration ≡ false
    → Option.map
        (enqueue q false 0 (track ∷ tracks) p).heap.cell
        (choose q.chat_id (enqueue q false 0 (track ∷ tracks) p)).1
      ≡ some (listed_track q true track)
unfolding fitting fitting_one listed_track
first_track_first q track tracks p e fits =
    choose_repeats q.chat_id (enqueue q false 0 (track ∷ tracks) p) (listed_track q true track)
      (fitting q false 1 tracks) _ refl (contents-enqueue_absent q 0 (track ∷ tracks) p e ∙ rw fits)
      (omega arith)

-- No track has loops left.
abbrev NoLoops : List CachedTrack → Type 0
NoLoops = All (λ t. t.loop ≤ℤ pos 0)

fitting-NoLoops :
    (q : Request) (i : ℕ) (tracks : List MusicTrack) → NoLoops (fitting q false (suc i) tracks)
unfolding fitting fitting_one listed_track
fitting-NoLoops q i [] = tt
fitting-NoLoops q i (track ∷ tracks) = ground (arith, fitting-NoLoops q (suc i) tracks)

choose_skips :
    (chat_id : ℤ) (p : Player) (ts : List CachedTrack) (l : List Ref)
    → queue_at chat_id p ≡ l
    → map p.heap.cell l ≡ ts
    → NoLoops ts
    → Option.map p.heap.cell (choose chat_id p).1 ≡ second ts
choose_skips chat_id p ts [] e h no_loops = ground (arith, choose_empty chat_id p e)
choose_skips chat_id p ts (r ∷ []) e h no_loops = ground (arith, choose_last chat_id r p e)
choose_skips chat_id p ts (r ∷ s ∷ l) e h no_loops = ground (arith, choose_next chat_id r s l p e)

-- In a chat without an entry, if the first track of the list is too long, the pick of `PlayNext` after the loop
-- of `handleMultipleTracks` is the second of the tracks that were added, and none if only one was added.
pub first_track_dropped :
    (q : Request) (track : MusicTrack) (tracks : List MusicTrack) (p : Player)
    → chat_at q.chat_id p.chats ≡ none
    → ltb_ℤ q.song_duration_limit track.duration ≡ true
    → Option.map
        (enqueue q false 0 (track ∷ tracks) p).heap.cell
        (choose q.chat_id (enqueue q false 0 (track ∷ tracks) p)).1
      ≡ second (fitting q false 1 tracks)
unfolding fitting fitting_one
first_track_dropped q track tracks p e long =
    choose_skips q.chat_id (enqueue q false 0 (track ∷ tracks) p) (fitting q false 1 tracks) _ refl
      (contents-enqueue_absent q 0 (track ∷ tracks) p e ∙ rw long) (fitting-NoLoops q 0 tracks)
