-- ===== src/Playback/Loops.antt =====
-- The order in which the tracks of a queue are started when nothing fails.
use yes.Prelude.{
  ℕ, zero, suc, ◌≡◌, refl, ap, sym, ◌∙◌, Bool, true, false, not, List, [], ◌∷◌, ◌++◌, Option, some,
  ℤ, pos, negsuc, pos_part, ◌-ℤ◌, ◌≤ℤ◌, ◌<ℤ◌, All, str_eq, nat_eq, nat_eq_iff, arith,
}
use yes.Track.{Ref, write}
use yes.Playback.{
  Player, Download, failed, fetched, Env, Outcome, playing, download_and_prepare_song, play_media,
  measured, reported, play_song, play_next, decremented,
}
use yes.Playback.Effects.{
  queue_at, loop_of, chats-download_and_prepare_song, loop-download_and_prepare_song,
  chats-measured, cell-decremented,
}
use yes.Playback.Termination.{rounds_left, pred_part}

abbrev pub is_fetched : Download → Bool
is_fetched failed = false
is_fetched (fetched path info) = not (str_eq path "")

-- In every round the message is sent, the download gives a path, and the stream starts.
abbrev pub AllWorks : Env → Type 0
AllWorks env =
    (n : ℕ)
    → (env.sends n ≡ true)
      × (is_fetched (env.downloads n) ≡ true)
      × (env.has_assistant n ≡ true)
      × (env.joins n ≡ true)
      × (env.streams n ≡ true)

unfoldable pub continued : (Player → List Ref) → Option (Outcome × Player) → List Ref
continued next (some (playing r, p)) = r ∷ next p
continued next _ = []

-- `PlayNext`, once for each track that has ended, `k` times: the tracks that it starts.
unfoldable pub started_tracks : Env → ℤ → ℕ → Player → List Ref
unfolding continued
started_tracks env chat_id zero p = []
started_tracks env chat_id (suc k) p =
    continued (started_tracks env chat_id k)
      (play_next env (suc (rounds_left chat_id p)) 0 chat_id p)

abbrev pub times : ℕ → Ref → List Ref
times zero r = []
times (suc n) r = r ∷ times n r

-- Each track as often as its loops say, and once more.
unfoldable pub whole : (Ref → ℤ) → List Ref → List Ref
whole loop [] = []
whole loop (r ∷ q) = r ∷ times (pos_part (loop r)) r ++ whole loop q

-- What is still to be started of a queue whose first track plays.
unfoldable pub upcoming : (Ref → ℤ) → List Ref → List Ref
unfolding whole
upcoming loop [] = []
upcoming loop (r ∷ q) = times (pos_part (loop r)) r ++ whole loop q

-- No track stands in the queue twice.
abbrev pub Distinct : List Ref → Type 0
Distinct [] = Unit
Distinct (r ∷ q) = All (λ s. nat_eq s r ≡ false) q × Distinct q

ready-download :
    (answer : Download) (r : Ref) (p : Player)
    → is_fetched answer ≡ true
    → (download_and_prepare_song answer r p).1 ≡ true
unfolding download_and_prepare_song
ready-download failed r p h = cc
ready-download (fetched path info) r p h = ground arith

-- The player after a track was prepared, started and measured.
abbrev pub played : Env → ℕ → Ref → Player → Player
played env n r p = measured (env.durations n) r (download_and_prepare_song (env.downloads n) r p).0

pub chats-played : (env : Env) (n : ℕ) (r : Ref) (p : Player) → (played env n r p).chats ≡ p.chats
chats-played env n r p =
    chats-measured (env.durations n) r (download_and_prepare_song (env.downloads n) r p).0
    ∙ chats-download_and_prepare_song (env.downloads n) r p

loop-measured : (d : ℤ) (r s : Ref) (p : Player) → loop_of s (measured d r p) ≡ loop_of s p
unfolding measured write
loop-measured d r s p = ground (arith, nat_eq_iff s r)

pub loop-played :
    (env : Env) (n : ℕ) (r s : Ref) (p : Player) → loop_of s (played env n r p) ≡ loop_of s p
loop-played env n r s p =
    loop-measured (env.durations n) r s (download_and_prepare_song (env.downloads n) r p).0
    ∙ loop-download_and_prepare_song (env.downloads n) r s p

play_media_works : (chat_id : ℤ) (p : Player) → play_media true true true chat_id p ≡ (p, true)
unfolding play_media
play_media_works chat_id p = ground arith

pub play_song_works :
    (env : Env) (again : Player → Option (Outcome × Player)) (n : ℕ) (chat_id : ℤ) (r : Ref)
    (p : Player)
    → AllWorks env
    → play_song env again n chat_id r p ≡ some (playing r, played env n r p)
unfolding play_song reported
play_song_works env again n chat_id r p works =
    let (sent, fetches, found, joins, streams) = works n in
    rw (sent, ready-download (env.downloads n) r p fetches, found, joins, streams, play_media_works)
      refl

whole_cong :
    (loop loop' : Ref → ℤ) (q : List Ref)
    → All (λ s. loop' s ≡ loop s) q
    → whole loop' q ≡ whole loop q
unfolding whole
whole_cong loop loop' [] h = refl
whole_cong loop loop' (r ∷ q) h = rw (h.0, whole_cong loop loop' q h.1) refl

-- A round that repeats the current track.
pub upcoming_repeat :
    (loop loop' : Ref → ℤ) (r : Ref) (q : List Ref)
    → pos 0 <ℤ loop r
    → loop' r ≡ loop r -ℤ pos 1
    → All (λ s. loop' s ≡ loop s) q
    → upcoming loop (r ∷ q) ≡ r ∷ upcoming loop' (r ∷ q)
unfolding upcoming
upcoming_repeat loop loop' r q more less same =
    let parts : suc (pos_part (loop' r)) ≡ pos_part (loop r) =
      ap (λ z. suc (pos_part z)) less ∙ pred_part (loop r) more in
    rw (sym parts, whole_cong loop loop' q same) refl

none_part : (z : ℤ) → z ≤ℤ pos 0 → pos_part z ≡ 0
none_part (pos n) h = omega arith
none_part (negsuc n) h = refl

-- A round that goes on to the next track.
pub upcoming_next :
    (loop loop' : Ref → ℤ) (r s : Ref) (q : List Ref)
    → loop r ≤ℤ pos 0
    → All (λ t. loop' t ≡ loop t) (s ∷ q)
    → upcoming loop (r ∷ s ∷ q) ≡ s ∷ upcoming loop' (s ∷ q)
unfolding upcoming whole
upcoming_next loop loop' r s q no_more same =
    let none_left : pos_part (loop r) ≡ 0 = none_part (loop r) no_more in
    rw (none_left, same.0, whole_cong loop loop' q same.1) refl

pub upcoming_last : (loop : Ref → ℤ) (r : Ref) → loop r ≤ℤ pos 0 → upcoming loop (r ∷ []) ≡ []
unfolding upcoming whole
upcoming_last loop r no_more =
    let none_left : pos_part (loop r) ≡ 0 = none_part (loop r) no_more in rw none_left refl

pub All-of : {P : Ref → Type 0} → ((r : Ref) → P r) → (q : List Ref) → All P q
All-of h [] = tt
All-of h (r ∷ q) = (h r, All-of h q)

pub loop-decremented_others :
    (chat_id : ℤ) (r : Ref) (q rest : List Ref) (p : Player)
    → queue_at chat_id p ≡ r ∷ q
    → All (λ s. nat_eq s r ≡ false) rest
    → All (λ s. loop_of s (decremented (loop_of r p) chat_id p) ≡ loop_of s p) rest
loop-decremented_others chat_id r q [] p e h = tt
loop-decremented_others chat_id r q (s ∷ rest) p e h = (
  ground (arith, cell-decremented chat_id (loop_of r p) r s q p e),
  loop-decremented_others chat_id r q rest p e h.1,
)

pub same_loops :
    (f g h : Ref → ℤ) (q : List Ref)
    → ((s : Ref) → f s ≡ g s)
    → All (λ s. g s ≡ h s) q
    → All (λ s. f s ≡ h s) q
same_loops f g h [] e a = tt
same_loops f g h (s ∷ q) e a = (e s ∙ a.0, same_loops f g h q e a.1)
