-- ===== src/Playback/Current.antt =====
-- What `PlayNext` leaves behind: the queue of the chat, its current track, and the other chats.
use yes.Prelude.{
  ℕ, zero, suc, ◌≡◌, refl, Bool, true, false, List, [], ◌∷◌, Option, none, some, ℤ, drop, ◌∙◌, ◌⊎◌,
  inl, inr, arith, Bool-cases,
}
use yes.Track.{Ref}
use yes.ChatCache.{chat_at, get_queue, get_playing_track}
use yes.Playback.{
  Player, Download, Env, Outcome, playing, queue_finished, message_failed, media_failed,
  download_and_prepare_song, play_media, play_song, play_next, cleared, decremented, dropped,
  reported, measured, handle_no_song,
}
use yes.Playback.Effects.{
  queue_at, loop_of, chats-download_and_prepare_song, repeated, advanced, ended, choice,
  play_next_song, play_next_over, queue_at-dropped, queue_at-cleared, chats-measured,
}

-- A statement about the outcome, if there is one.
abbrev pub Then : (Outcome → Player → Type 0) → Option (Outcome × Player) → Type 0
Then P none = Unit
Then P (some (o, p')) = P o p'

pub of_Then :
    (P : Outcome → Player → Type 0) (x : Option (Outcome × Player)) {o : Outcome} {p' : Player}
    → Then P x
    → x ≡ some (o, p')
    → P o p'
of_Then P x h e = rw e at h

-- The queue is what is left of `q` from some place on.
abbrev pub IsRest : ℤ → List Ref → Player → Type 0
IsRest chat_id q p = (k : ℕ) × (queue_at chat_id p ≡ drop k q)

-- How the queue of a chat, `q` before, may look after each outcome.
abbrev pub Follows : ℤ → List Ref → Outcome → Player → Type 0
Follows chat_id q (playing r) p = IsRest chat_id q p × (get_playing_track chat_id p.chats ≡ some r)
Follows chat_id q queue_finished p = queue_at chat_id p ≡ []
Follows chat_id q message_failed p = IsRest chat_id q p
Follows chat_id q media_failed p = IsRest chat_id q p ⊎ (chat_at chat_id p.chats ≡ none)

queue_at_absent :
    (chat_id : ℤ) (p : Player) → chat_at chat_id p.chats ≡ none → queue_at chat_id p ≡ []
unfolding get_queue
queue_at_absent chat_id p e = rw e

Follows-cons :
    (chat_id : ℤ) (r : Ref) (q : List Ref) (o : Outcome) (p : Player)
    → Follows chat_id q o p
    → Follows chat_id (r ∷ q) o p
Follows-cons chat_id r q (playing s) p ((k, e), c) = ((suc k, e), c)
Follows-cons chat_id r q queue_finished p e = e
Follows-cons chat_id r q message_failed p (k, e) = (suc k, e)
Follows-cons chat_id r q media_failed p (inl (k, e)) = inl (suc k, e)
Follows-cons chat_id r q media_failed p (inr e) = inr e

current_of_queue :
    (chat_id : ℤ) (r : Ref) (q : List Ref) (p : Player)
    → queue_at chat_id p ≡ r ∷ q
    → get_playing_track chat_id p.chats ≡ some r
unfolding get_queue get_playing_track
current_of_queue chat_id r q p e = rw e

-- What `PlayMedia` leaves: the player as it was, or the chat cleared after an error.
pub play_media-cases :
    (found joined streamed : Bool) (chat_id : ℤ) (p : Player)
    → (play_media found joined streamed chat_id p ≡ (p, true))
      ⊎ ((play_media found joined streamed chat_id p ≡ (p, false))
          ⊎ (play_media found joined streamed chat_id p ≡ (cleared chat_id p, false)))
unfolding play_media
play_media-cases false joined streamed chat_id p = inr (inl refl)
play_media-cases true true true chat_id p = ground arith
play_media-cases true true false chat_id p = ground arith
play_media-cases true false true chat_id p = ground arith
play_media-cases true false false chat_id p = ground arith

queue_at-measured :
    (chat_id d : ℤ) (r : Ref) (p : Player) → queue_at chat_id (measured d r p) ≡ queue_at chat_id p
queue_at-measured chat_id d r p = rw chats-measured

reported-Follows :
    (found joined streamed : Bool) (d chat_id : ℤ) (r : Ref) (q : List Ref) (p : Player)
    → queue_at chat_id p ≡ r ∷ q
    → Then (Follows chat_id (r ∷ q)) (reported d r (play_media found joined streamed chat_id p))
unfolding reported
reported-Follows found joined streamed d chat_id r q p e =
    elim (play_media-cases found joined streamed chat_id p) [
      | inl ok ↦ rw ok (
        (0, queue_at-measured chat_id d r p ∙ e),
        current_of_queue chat_id r q (measured d r p) (queue_at-measured chat_id d r p ∙ e),
      )
      | inr (inl missing) ↦ rw missing (inl (0, e))
      | inr (inr gone) ↦ rw gone (inr (queue_at-cleared chat_id p))
    ]

queue_at-prepared :
    (answer : Download) (chat_id : ℤ) (r : Ref) (p : Player)
    → queue_at chat_id (download_and_prepare_song answer r p).0 ≡ queue_at chat_id p
queue_at-prepared answer chat_id r p = rw chats-download_and_prepare_song

play_song-Follows :
    (env : Env) (again : Player → Option (Outcome × Player)) (n : ℕ) (chat_id : ℤ) (r : Ref)
    (q : List Ref) (p : Player)
    → queue_at chat_id p ≡ r ∷ q
    → Then (Follows chat_id (r ∷ q)) (again (download_and_prepare_song (env.downloads n) r p).0)
    → Then (Follows chat_id (r ∷ q)) (play_song env again n chat_id r p)
unfolding play_song
play_song-Follows env again n chat_id r q p e h =
    let p' = (download_and_prepare_song (env.downloads n) r p).0 in
    elim (Bool-cases (env.sends n)) [
      | inr unsent ↦ rw unsent (0, e)
      | inl sent ↦ elim (Bool-cases (download_and_prepare_song (env.downloads n) r p).1) [
        | inr unready ↦ rw (sent, unready) h
        | inl ready ↦
            rw (sent, ready)
              (reported-Follows (env.has_assistant n) (env.joins n) (env.streams n)
                (env.durations n) chat_id r q p'
                (queue_at-prepared (env.downloads n) chat_id r p ∙ e))
      ]
    ]

Then-map :
    (P Q : Outcome → Player → Type 0) (x : Option (Outcome × Player))
    → ((o : Outcome) (p' : Player) → P o p' → Q o p')
    → Then P x
    → Then Q x
Then-map P Q none f h = tt
Then-map P Q (some (o, p')) f h = f o p' h

next_round :
    (env : Env) (fuel n : ℕ) (chat_id : ℤ) (r : Ref) (q : List Ref) (p : Player)
    → queue_at chat_id p ≡ r ∷ q
    → ((p' : Player)
        → Then (Follows chat_id (queue_at chat_id p')) (play_next env fuel (suc n) chat_id p'))
    → Then
        (Follows chat_id (r ∷ q))
        (play_song env (play_next env fuel (suc n) chat_id) n chat_id r p)
next_round env fuel n chat_id r q p e ih =
    play_song-Follows env (play_next env fuel (suc n) chat_id) n chat_id r q p e
      (rw (queue_at-prepared, e) at (ih (download_and_prepare_song (env.downloads n) r p).0))

queue_at-decremented :
    (chat_id loop : ℤ) (p : Player)
    → queue_at chat_id (decremented loop chat_id p) ≡ queue_at chat_id p
unfolding decremented
queue_at-decremented chat_id loop p = refl

queue_at-handle_no_song :
    (found : Bool) (chat_id : ℤ) (p : Player)
    → queue_at chat_id p ≡ []
    → queue_at chat_id (handle_no_song found chat_id p) ≡ []
unfolding handle_no_song
queue_at-handle_no_song true chat_id p e =
    queue_at_absent chat_id (cleared chat_id p) (queue_at-cleared chat_id p)
queue_at-handle_no_song false chat_id p e = e

play_next-Then :
    (env : Env) (fuel n : ℕ) (chat_id : ℤ) (p : Player)
    → Then (Follows chat_id (queue_at chat_id p)) (play_next env fuel n chat_id p)
play_next-Then env zero n chat_id p = unfold play_next in tt
play_next-Then env (suc fuel) n chat_id p = elim (choice chat_id p) [
  | repeated r q e more chosen ↦
      rw (play_next_song env fuel n chat_id p chosen, e)
        (next_round env fuel n chat_id r q (decremented (loop_of r p) chat_id p)
          (queue_at-decremented chat_id (loop_of r p) p ∙ e)
          (play_next-Then env fuel (suc n) chat_id))
  | advanced r s q e chosen ↦
      rw (play_next_song env fuel n chat_id p chosen, e)
        (Then-map (Follows chat_id (s ∷ q)) (Follows chat_id (r ∷ s ∷ q)) _
          (Follows-cons chat_id r (s ∷ q))
          (next_round env fuel n chat_id s q (dropped chat_id p)
            (queue_at-dropped chat_id r (s ∷ q) p e) (play_next-Then env fuel (suc n) chat_id)))
  | ended empty chosen ↦
      rw (play_next_over env fuel n chat_id p chosen)
        (queue_at-handle_no_song (env.can_stop n) chat_id (dropped chat_id p) empty)
]

-- How `PlayNext` ends decides the queue of the chat. If a track plays, it is the current track, and the
-- queue is the old one from some place on: no track was reordered or added. If the queue is finished
-- it is empty. If the message could not be sent the queue is the old one from some place on; and if
-- the stream did not start it is that, or the chat was cleared.
pub play_next-Follows :
    (env : Env) (fuel n : ℕ) (chat_id : ℤ) (p : Player) {o : Outcome} {p' : Player}
    → play_next env fuel n chat_id p ≡ some (o, p')
    → Follows chat_id (queue_at chat_id p) o p'
play_next-Follows env fuel n chat_id p =
    of_Then (Follows chat_id (queue_at chat_id p)) (play_next env fuel n chat_id p)
      (play_next-Then env fuel n chat_id p)
