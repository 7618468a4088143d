-- ===== src/Playback/Effects.antt =====
-- What the steps of `PlayNext` do to the queue of the chat and to the loop counts of its tracks.
use yes.Prelude.{
  ap, inl, inr, ltb_ℤ, Bool-cases, ℕ, suc, ◌≡◌, refl, false, List, [], ◌∷◌, none, some, ℤ, pos,
  ◌-ℤ◌, ltb_ℤ, ◌≤ℤ◌, ◌<ℤ◌, arith, nat_eq, Bool-cases, if◌then◌else◌, int_eq, int_eq_iff,
}
use yes.Prelude.Assoc.{lookup-insert, lookup-remove}
use yes.Track.{Ref, write}
use yes.ChatCache.{
  chat_at, get_queue, get_upcoming_track, get_playing_track, remove_current_song, clear_chat,
  get_loop_count, set_loop_count,
}
use yes.Playback.{
  chosen, play_song, play_next, handle_no_song, Player, Download, failed, fetched, Env, Outcome,
  download_and_prepare_song, cleared, measured, choose, decremented, dropped,
}

abbrev pub queue_at : ℤ → Player → List Ref
queue_at chat_id p = get_queue chat_id p.chats

abbrev pub loop_of : Ref → Player → ℤ
loop_of r p = (p.heap.cell r).loop

-- Preparing a track leaves every queue and every loop count.
pub chats-download_and_prepare_song :
    (answer : Download) (r : Ref) (p : Player)
    → (download_and_prepare_song answer r p).0.chats ≡ p.chats
unfolding download_and_prepare_song
chats-download_and_prepare_song failed r p = ground arith
chats-download_and_prepare_song (fetched path info) r p = ground arith

pub loop-download_and_prepare_song :
    (answer : Download) (r s : Ref) (p : Player)
    → loop_of s (download_and_prepare_song answer r p).0 ≡ loop_of s p
unfolding download_and_prepare_song write
loop-download_and_prepare_song failed r s p = ground arith
loop-download_and_prepare_song (fetched path none) r s p = ground arith
loop-download_and_prepare_song (fetched path (some info)) r s p = ground arith

-- The current track with loops left is played again, with one loop less.
pub choose_loop :
    (chat_id : ℤ) (r : Ref) (q : List Ref) (p : Player)
    → queue_at chat_id p ≡ r ∷ q
    → pos 0 <ℤ loop_of r p
    → choose chat_id p ≡ (decremented (loop_of r p) chat_id p, some r)
unfolding choose get_queue get_playing_track get_loop_count
choose_loop chat_id r q p e h = ground arith

-- Without loops left the track behind it is next, and is then the current one.
pub choose_next :
    (chat_id : ℤ) (r s : Ref) (q : List Ref) (p : Player)
    → queue_at chat_id p ≡ r ∷ s ∷ q
    → loop_of r p ≤ℤ pos 0
    → choose chat_id p ≡ (dropped chat_id p, some s)
unfolding choose get_queue get_upcoming_track get_loop_count
choose_next chat_id r s q p e h = ground arith

-- Behind the last track there is none.
pub choose_last :
    (chat_id : ℤ) (r : Ref) (p : Player)
    → queue_at chat_id p ≡ r ∷ []
    → loop_of r p ≤ℤ pos 0
    → choose chat_id p ≡ (dropped chat_id p, none)
unfolding choose get_queue get_upcoming_track get_loop_count
choose_last chat_id r p e h = ground arith

pub choose_empty :
    (chat_id : ℤ) (p : Player)
    → queue_at chat_id p ≡ []
    → choose chat_id p ≡ (dropped chat_id p, none)
unfolding choose get_queue get_upcoming_track get_loop_count
choose_empty chat_id p e = ground arith

pub queue_at-dropped :
    (chat_id : ℤ) (r : Ref) (q : List Ref) (p : Player)
    → queue_at chat_id p ≡ r ∷ q
    → queue_at chat_id (dropped chat_id p) ≡ q
unfolding dropped get_queue remove_current_song
queue_at-dropped chat_id r q p e = grind (arith, lookup-insert, int_eq_iff)

queue_at-dropped_empty :
    (chat_id : ℤ) (p : Player) → queue_at chat_id p ≡ [] → queue_at chat_id (dropped chat_id p) ≡ []
unfolding dropped get_queue remove_current_song
queue_at-dropped_empty chat_id p e = ground arith

-- Neither dropping the current track nor clearing the queue touches another chat.
pub chat_at-dropped :
    (chat_id j : ℤ) (p : Player)
    → int_eq chat_id j ≡ false
    → chat_at j (dropped chat_id p).chats ≡ chat_at j p.chats
unfolding dropped remove_current_song
chat_at-dropped chat_id j p other = grind (arith, lookup-insert)

pub chat_at-cleared :
    (chat_id j : ℤ) (p : Player)
    → int_eq chat_id j ≡ false
    → chat_at j (cleared chat_id p).chats ≡ chat_at j p.chats
unfolding cleared clear_chat
chat_at-cleared chat_id j p other = grind (arith, lookup-remove)

pub queue_at-cleared : (chat_id : ℤ) (p : Player) → chat_at chat_id (cleared chat_id p).chats ≡ none
unfolding cleared clear_chat
queue_at-cleared chat_id p = grind (arith, lookup-remove, int_eq_iff)

pub chats-measured : (d : ℤ) (r : Ref) (p : Player) → (measured d r p).chats ≡ p.chats
unfolding measured
chats-measured d r p = ground arith

pub cell-decremented :
    (chat_id loop : ℤ) (r s : Ref) (q : List Ref) (p : Player)
    → queue_at chat_id p ≡ r ∷ q
    → loop_of s (decremented loop chat_id p) ≡ (if nat_eq s r then loop -ℤ pos 1 else loop_of s p)
unfolding decremented get_queue set_loop_count write
cell-decremented chat_id loop r s q p e = ground arith

-- The three ways in which `PlayNext` goes on.
pub data Choice (chat_id : ℤ) (p : Player) : Type 0 where
  repeated :
      (r : Ref) (q : List Ref)
      → queue_at chat_id p ≡ r ∷ q
      → pos 0 <ℤ loop_of r p
      → choose chat_id p ≡ (decremented (loop_of r p) chat_id p, some r)
      → Choice chat_id p
  advanced :
      (r s : Ref) (q : List Ref)
      → queue_at chat_id p ≡ r ∷ s ∷ q
      → choose chat_id p ≡ (dropped chat_id p, some s)
      → Choice chat_id p
  ended :
      queue_at chat_id (dropped chat_id p) ≡ []
      → choose chat_id p ≡ (dropped chat_id p, none)
      → Choice chat_id p

Choice-of : (chat_id : ℤ) (p : Player) (q : List Ref) → queue_at chat_id p ≡ q → Choice chat_id p
Choice-of chat_id p [] e = ended (queue_at-dropped_empty chat_id p e) (choose_empty chat_id p e)
Choice-of chat_id p (r ∷ []) e = elim (Bool-cases (ltb_ℤ (pos 0) (loop_of r p))) [
  | inl more ↦
      let h : pos 0 <ℤ loop_of r p = ground arith in
      repeated r [] e h (choose_loop chat_id r [] p e h)
  | inr no_more ↦
      ended (queue_at-dropped chat_id r [] p e) (choose_last chat_id r p e (ground arith))
]
Choice-of chat_id p (r ∷ s ∷ q) e = elim (Bool-cases (ltb_ℤ (pos 0) (loop_of r p))) [
  | inl more ↦
      let h : pos 0 <ℤ loop_of r p = ground arith in
      repeated r (s ∷ q) e h (choose_loop chat_id r (s ∷ q) p e h)
  | inr no_more ↦ advanced r s q e (choose_next chat_id r s q p e (ground arith))
]

pub choice : (chat_id : ℤ) (p : Player) → Choice chat_id p
choice chat_id p = Choice-of chat_id p (queue_at chat_id p) refl

-- One round of `PlayNext`, with the choice made.
module _ (env : Env) (fuel n : ℕ) (chat_id : ℤ) (p : Player) {p' : Player} where
  pub play_next_song :
      {r : Ref}
      → choose chat_id p ≡ (p', some r)
      → play_next env (suc fuel) n chat_id p
        ≡ play_song env (play_next env fuel (suc n) chat_id) n chat_id r p'
  unfolding play_next
  play_next_song e = ap (chosen env (play_next env fuel (suc n) chat_id) n chat_id) e

  pub play_next_over :
      choose chat_id p ≡ (p', none)
      → play_next env (suc fuel) n chat_id p
        ≡ some (Outcome.queue_finished, handle_no_song (env.can_stop n) chat_id p')
  unfolding play_next
  play_next_over e = ap (chosen env (play_next env fuel (suc n) chat_id) n chat_id) e
