-- ===== src/Playback/Termination.antt =====
-- `PlayNext` ends: a track that cannot be prepared is retried at most as often as its loop count says
-- and then skipped, so that the calls between `PlayNext` and `playSong` come to an end.
use yes.Prelude.{
  ℕ, zero, suc, ◌+◌, ◌≤◌, ◌<◌, ◌≡◌, refl, ap, Bool, true, false, List, [], ◌∷◌, Option, some, ℤ,
  pos, negsuc, pos_part, ◌-ℤ◌, ◌<ℤ◌, inl, inr, arith, nat_eq_iff, Bool-cases,
}
use yes.Track.{Ref, Heap}
use yes.Playback.{
  Player, Download, Env, Outcome, download_and_prepare_song, play_song, play_next, decremented,
  dropped, reported, measured, handle_no_song,
}
use yes.Playback.Effects.{
  play_next_song, play_next_over, queue_at, loop_of, chats-download_and_prepare_song,
  loop-download_and_prepare_song, choice, repeated, advanced, ended, queue_at-dropped,
  cell-decremented,
}

-- The rounds that a queue can take: one for each track and one for each loop.
unfoldable pub rounds : Heap → List Ref → ℕ
rounds h [] = 0
rounds h (r ∷ q) = suc (pos_part (h.cell r).loop + rounds h q)

abbrev pub rounds_left : ℤ → Player → ℕ
rounds_left chat_id p = rounds p.heap (queue_at chat_id p)

heap-dropped : (chat_id : ℤ) (p : Player) → (dropped chat_id p).heap ≡ p.heap
unfolding dropped
heap-dropped chat_id p = refl

-- Loop counts that do not grow leave no more rounds.
rounds_mono :
    (h k : Heap) (q : List Ref)
    → ((s : Ref) → pos_part (k.cell s).loop ≤ pos_part (h.cell s).loop)
    → rounds k q ≤ rounds h q
unfolding rounds
rounds_mono h k [] le = omega arith
rounds_mono h k (s ∷ q) le = omega (arith, le s, rounds_mono h k q le)

pub pred_part : (z : ℤ) → pos 0 <ℤ z → suc (pos_part (z -ℤ pos 1)) ≡ pos_part z
unfolding ◌-ℤ◌
pred_part (pos n) h = ground arith
pred_part (negsuc n) h = absurd (omega arith)

loop-decremented-le :
    (chat_id : ℤ) (r s : Ref) (q : List Ref) (p : Player)
    → queue_at chat_id p ≡ r ∷ q
    → pos 0 <ℤ loop_of r p
    → pos_part (loop_of s (decremented (loop_of r p) chat_id p)) ≤ pos_part (loop_of s p)
loop-decremented-le chat_id r s q p e h = ground (
  arith,
  cell-decremented chat_id (loop_of r p) r s q p e,
  pred_part (loop_of r p) h,
  nat_eq_iff s r,
)

loop-decremented_head :
    (chat_id : ℤ) (r : Ref) (q : List Ref) (p : Player)
    → queue_at chat_id p ≡ r ∷ q
    → pos 0 <ℤ loop_of r p
    → suc (pos_part (loop_of r (decremented (loop_of r p) chat_id p))) ≡ pos_part (loop_of r p)
loop-decremented_head chat_id r q p e h = ground (
  arith,
  cell-decremented chat_id (loop_of r p) r r q p e,
  nat_eq_iff r r,
  pred_part (loop_of r p) h,
)

rounds-cons :
    (h : Heap) (r : Ref) (q : List Ref)
    → rounds h (r ∷ q) ≡ suc (pos_part (h.cell r).loop + rounds h q)
unfolding rounds
rounds-cons h r q = refl

pub queue_at-decremented :
    (chat_id loop : ℤ) (p : Player)
    → queue_at chat_id (decremented loop chat_id p) ≡ queue_at chat_id p
unfolding decremented
queue_at-decremented chat_id loop p = refl

rounds-decremented :
    (chat_id : ℤ) (r : Ref) (q : List Ref) (p : Player)
    → queue_at chat_id p ≡ r ∷ q
    → pos 0 <ℤ loop_of r p
    → rounds_left chat_id (decremented (loop_of r p) chat_id p) < rounds_left chat_id p
rounds-decremented chat_id r q p e h =
    let p' = decremented (loop_of r p) chat_id p in
    rw (queue_at-decremented, e)
      (omega (
        arith,
        rounds-cons p.heap r q,
        rounds-cons p'.heap r q,
        loop-decremented_head chat_id r q p e h,
        rounds_mono p.heap p'.heap q (λ s. loop-decremented-le chat_id r s q p e h),
      ))

rounds-dropped :
    (chat_id : ℤ) (r : Ref) (q : List Ref) (p : Player)
    → queue_at chat_id p ≡ r ∷ q
    → rounds_left chat_id (dropped chat_id p) < rounds_left chat_id p
rounds-dropped chat_id r q p e =
    rw (heap-dropped, queue_at-dropped chat_id r q p e, e) (omega (arith, rounds-cons p.heap r q))

-- Preparing a track changes no count of rounds.
rounds-prepare :
    (chat_id : ℤ) (answer : Download) (r : Ref) (p : Player)
    → rounds_left chat_id (download_and_prepare_song answer r p).0 ≤ rounds_left chat_id p
rounds-prepare chat_id answer r p = rw chats-download_and_prepare_song (
    rounds_mono p.heap (download_and_prepare_song answer r p).0.heap (queue_at chat_id p)
      (λ s. omega (arith, ap pos_part (loop-download_and_prepare_song answer r s p))))

-- There is a result.
abbrev pub Ends : Option (Outcome × Player) → Type 0
Ends x = (o : Outcome) × (p' : Player) × (x ≡ some (o, p'))

reported-Ends : (d : ℤ) (r : Ref) (x : Player × Bool) → Ends (reported d r x)
unfolding reported
reported-Ends d r (p, true) = (Outcome.playing r, measured d r p, refl)
reported-Ends d r (p, false) = (Outcome.media_failed, p, refl)

-- A round ends, or goes on with what the preparation left.
play_song-Ends :
    (env : Env) (again : Player → Option (Outcome × Player)) (n : ℕ) (chat_id : ℤ) (r : Ref)
    (p : Player)
    → Ends (again (download_and_prepare_song (env.downloads n) r p).0)
    → Ends (play_song env again n chat_id r p)
unfolding play_song
play_song-Ends env again n chat_id r p h = elim (Bool-cases (env.sends n)) [
  | inr unsent ↦ (Outcome.message_failed, p, rw unsent)
  | inl sent ↦ elim (Bool-cases (download_and_prepare_song (env.downloads n) r p).1) [
    | inr unready ↦ rw (sent, unready) h
    | inl ready ↦ rw (sent, ready) (reported-Ends _ _ _)
  ]
]

-- With more fuel than the chat has rounds left, `PlayNext` ends with an outcome, whatever the
-- downloader, Telegram and the call library answer.
pub play_next-Ends :
    (env : Env) (fuel n : ℕ) (chat_id : ℤ) (p : Player)
    → rounds_left chat_id p < fuel
    → Ends (play_next env fuel n chat_id p)
play_next-Ends env zero n chat_id p h = elim h [ ]
play_next-Ends env (suc fuel) n chat_id p h = elim (choice chat_id p) [
  | repeated r q e more chosen ↦
      let p' = decremented (loop_of r p) chat_id p in
      rw (play_next_song env fuel n chat_id p chosen) (
        play_song-Ends env (play_next env fuel (suc n) chat_id) n chat_id r p' (
          play_next-Ends env fuel (suc n) chat_id
            (download_and_prepare_song (env.downloads n) r p').0
            (omega (
              arith,
              rounds-prepare chat_id (env.downloads n) r p',
              rounds-decremented chat_id r q p e more,
            ))))
  | advanced r s q e chosen ↦
      let p' = dropped chat_id p in
      rw (play_next_song env fuel n chat_id p chosen) (
        play_song-Ends env (play_next env fuel (suc n) chat_id) n chat_id s p' (
          play_next-Ends env fuel (suc n) chat_id
            (download_and_prepare_song (env.downloads n) s p').0
            (omega (
              arith,
              rounds-prepare chat_id (env.downloads n) s p',
              rounds-dropped chat_id r (s ∷ q) p e,
            ))))
  | ended empty chosen ↦ (
    Outcome.queue_finished,
    handle_no_song (env.can_stop n) chat_id (dropped chat_id p),
    rw (play_next_over env fuel n chat_id p chosen),
  )
]
