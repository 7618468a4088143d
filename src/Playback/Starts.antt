-- ===== src/Playback/Starts.antt =====
-- The tracks that `PlayNext` starts, one after the other.
use yes.Prelude.{
  ℕ, zero, suc, ◌≡◌, refl, ap, sym, ◌∙◌, List, [], ◌∷◌, none, some, ℤ, pos, ◌-ℤ◌, ◌≤ℤ◌, ◌<ℤ◌, ltb_ℤ,
  take, nat_eq_iff, arith, Bool-cases, inl, inr,
}
use yes.Track.{Ref}
use yes.ChatCache.{get_queue}
use yes.Playback.{Player, Env, playing, play_next, decremented, dropped, choose}
use yes.Playback.Effects.{
  queue_at, loop_of, play_next_song, play_next_over, choose_loop, choose_next, choose_last,
  choose_empty, queue_at-dropped, cell-decremented,
}
use yes.Playback.Termination.{rounds_left, queue_at-decremented}
use yes.Playback.Loops.{
  AllWorks, continued, started_tracks, upcoming, Distinct, played, chats-played, loop-played,
  play_song_works, upcoming_repeat, upcoming_next, upcoming_last, All-of, loop-decremented_others,
  same_loops,
}

module _ (env : Env) (chat_id : ℤ) (works : AllWorks env) where
  play_next-choose :
      (fuel : ℕ) (p : Player) {r : Ref} {p' : Player}
      → choose chat_id p ≡ (p', some r)
      → play_next env (suc fuel) 0 chat_id p ≡ some (playing r, played env 0 r p')
  play_next-choose fuel p {r} {p'} e =
      play_next_song env fuel 0 chat_id p e
      ∙ play_song_works env (play_next env fuel 1 chat_id) 0 chat_id r p' works

  started-choose :
      (k : ℕ) (p : Player) {r : Ref} {p' : Player}
      → choose chat_id p ≡ (p', some r)
      → started_tracks env chat_id (suc k) p ≡ r ∷ started_tracks env chat_id k (played env 0 r p')
  unfolding started_tracks
  started-choose k p e =
      ap (continued (started_tracks env chat_id k)) (play_next-choose (rounds_left chat_id p) p e)

  started-over :
      (k : ℕ) (p : Player) {p' : Player}
      → choose chat_id p ≡ (p', none)
      → started_tracks env chat_id (suc k) p ≡ []
  unfolding started_tracks
  started-over k p e =
      ap (continued (started_tracks env chat_id k))
        (play_next_over env (rounds_left chat_id p) 0 chat_id p e)

  -- The statement for the player `p`, when its queue is `l`.
  abbrev StartsAs : ℕ → Player → List Ref → Type 0
  StartsAs k p l = started_tracks env chat_id k p ≡ take k (upcoming (λ r. loop_of r p) l)

  queue_at-played :
      (r : Ref) (p : Player) → queue_at chat_id (played env 0 r p) ≡ queue_at chat_id p
  queue_at-played r p = ap (get_queue chat_id) (chats-played env 0 r p)

  started-repeat :
      (k : ℕ) (r : Ref) (q : List Ref) (p : Player)
      → queue_at chat_id p ≡ r ∷ q
      → pos 0 <ℤ loop_of r p
      → Distinct (r ∷ q)
      → StartsAs k (played env 0 r (decremented (loop_of r p) chat_id p)) (r ∷ q)
      → StartsAs (suc k) p (r ∷ q)
  started-repeat k r q p e more d ih =
      let p' = decremented (loop_of r p) chat_id p in
      let less : loop_of r (played env 0 r p') ≡ loop_of r p -ℤ pos 1 =
        loop-played env 0 r r p'
        ∙ ground (arith, cell-decremented chat_id (loop_of r p) r r q p e, nat_eq_iff r r) in
      started-choose k p (choose_loop chat_id r q p e more)
      ∙ ap (λ l. r ∷ l) ih
      ∙ sym (
          ap (take (suc k)) (
            upcoming_repeat (λ s. loop_of s p) (λ s. loop_of s (played env 0 r p')) r q more less
              (same_loops _ (λ s. loop_of s p') _ q (λ s. loop-played env 0 r s p')
                (loop-decremented_others chat_id r q q p e d.0))))

  loop-dropped : (s : Ref) (p : Player) → loop_of s (dropped chat_id p) ≡ loop_of s p
  unfolding dropped
  loop-dropped s p = refl

  started-next :
      (k : ℕ) (r s : Ref) (q : List Ref) (p : Player)
      → queue_at chat_id p ≡ r ∷ s ∷ q
      → loop_of r p ≤ℤ pos 0
      → StartsAs k (played env 0 s (dropped chat_id p)) (s ∷ q)
      → StartsAs (suc k) p (r ∷ s ∷ q)
  started-next k r s q p e no_more ih =
      let p' = dropped chat_id p in
      started-choose k p (choose_next chat_id r s q p e no_more)
      ∙ ap (λ l. s ∷ l) ih
      ∙ sym (
          ap (take (suc k)) (
            upcoming_next (λ t. loop_of t p) (λ t. loop_of t (played env 0 s p')) r s q no_more
              (All-of (λ t. loop-played env 0 s t p' ∙ loop-dropped t p) (s ∷ q))))

  -- The case in which the current track has no loops left.
  started_as_of :
      (k : ℕ) (p : Player) (r : Ref) (q : List Ref)
      → ((p' : Player) (l : List Ref) → queue_at chat_id p' ≡ l → Distinct l → StartsAs k p' l)
      → queue_at chat_id p ≡ r ∷ q
      → loop_of r p ≤ℤ pos 0
      → Distinct (r ∷ q)
      → StartsAs (suc k) p (r ∷ q)
  started_as_of k p r [] ih e no_more d =
      started-over k p (choose_last chat_id r p e no_more)
      ∙ sym (ap (take (suc k)) (upcoming_last (λ s. loop_of s p) r no_more))
  started_as_of k p r (s ∷ q) ih e no_more d =
      let p' = dropped chat_id p in
      started-next k r s q p e no_more (
        ih (played env 0 s p') (s ∷ q)
          (queue_at-played s p' ∙ queue_at-dropped chat_id r (s ∷ q) p e) d.1)

  started_as :
      (k : ℕ) (p : Player) (l : List Ref) → queue_at chat_id p ≡ l → Distinct l → StartsAs k p l
  started_as zero p l e d = unfold started_tracks in refl
  started_as (suc k) p [] e d = unfold upcoming in started-over k p (choose_empty chat_id p e)
  started_as (suc k) p (r ∷ q) e d = elim (Bool-cases (ltb_ℤ (pos 0) (loop_of r p))) [
    | inl more ↦
        let p' = decremented (loop_of r p) chat_id p in
        started-repeat k r q p e (ground arith) d (
          started_as k (played env 0 r p') (r ∷ q)
            (queue_at-played r p' ∙ queue_at-decremented chat_id (loop_of r p) p ∙ e) d)
    | inr no_more ↦ started_as_of k p r q (started_as k) e (ground arith) d
  ]

-- When every round works and no track stands in the queue twice, the tracks that `PlayNext` starts are
-- the current one as often as its loops say, and then each other track of the queue, in order, once and
-- as often again as its loops say; after these, none.
pub started_tracks-upcoming :
    (env : Env) (chat_id : ℤ) (k : ℕ) (p : Player)
    → AllWorks env
    → Distinct (queue_at chat_id p)
    → started_tracks env chat_id k p ≡ take k (upcoming (λ r. loop_of r p) (queue_at chat_id p))
started_tracks-upcoming env chat_id k p works d =
    started_as env chat_id works k p (queue_at chat_id p) refl d
