-- ===== src/Playback/Frame.antt =====
-- `PlayNext` in one chat leaves the other chats alone.
use yes.Prelude.{
  ℕ, zero, suc, ◌≡◌, refl, ap, Bool, true, false, Option, some, ℤ, ◌∙◌, inl, inr, Bool-cases,
  int_eq,
}
use yes.Track.{Ref}
use yes.ChatCache.{ChatData, chat_at}
use yes.Playback.{
  Player, Env, Outcome, download_and_prepare_song, play_song, play_next, play_media, decremented,
  dropped, reported, handle_no_song,
}
use yes.Playback.Effects.{
  chats-download_and_prepare_song, repeated, advanced, ended, choice, chat_at-dropped,
  chat_at-cleared, chats-measured, play_next_song, play_next_over, loop_of,
}
use yes.Playback.Current.{Then, of_Then, play_media-cases}

module _ (chat_id j : ℤ) (other : int_eq chat_id j ≡ false) where
  -- The entry of chat `j` is `s`.
  abbrev Kept : Option ChatData → Outcome → Player → Type 0
  Kept s o p = chat_at j p.chats ≡ s

  reported-Kept :
      (found joined streamed : Bool) (d : ℤ) (r : Ref) (p : Player)
      → Then (Kept (chat_at j p.chats)) (reported d r (play_media found joined streamed chat_id p))
  unfolding reported
  reported-Kept found joined streamed d r p =
      elim (play_media-cases found joined streamed chat_id p) [
        | inl ok ↦ rw ok (ap (chat_at j) (chats-measured d r p))
        | inr (inl missing) ↦ rw missing refl
        | inr (inr gone) ↦ rw gone (chat_at-cleared chat_id j p other)
      ]

  play_song-Kept :
      (env : Env) (again : Player → Option (Outcome × Player)) (n : ℕ) (r : Ref) (p : Player)
      → ((p' : Player) → Then (Kept (chat_at j p'.chats)) (again p'))
      → Then (Kept (chat_at j p.chats)) (play_song env again n chat_id r p)
  unfolding play_song
  play_song-Kept env again n r p h =
      let p' = (download_and_prepare_song (env.downloads n) r p).0 in
      let same : chat_at j p'.chats ≡ chat_at j p.chats =
        ap (chat_at j) (chats-download_and_prepare_song (env.downloads n) r p) in
      elim (Bool-cases (env.sends n)) [
        | inr unsent ↦ rw unsent refl
        | inl sent ↦ elim (Bool-cases (download_and_prepare_song (env.downloads n) r p).1) [
          | inr unready ↦ rw (sent, unready) (rw same at (h p'))
          | inl ready ↦
              rw (sent, ready)
                (rw same at (
                  reported-Kept (env.has_assistant n) (env.joins n) (env.streams n)
                    (env.durations n) r p'))
        ]
      ]

  pub handle_no_song-Kept :
      (found : Bool) (p : Player)
      → chat_at j (handle_no_song found chat_id p).chats ≡ chat_at j p.chats
  unfolding handle_no_song
  handle_no_song-Kept true p = chat_at-cleared chat_id j p other
  handle_no_song-Kept false p = refl

  play_next-Kept :
      (env : Env) (fuel n : ℕ) (p : Player)
      → Then (Kept (chat_at j p.chats)) (play_next env fuel n chat_id p)
  unfolding decremented
  play_next-Kept env zero n p = unfold play_next in tt
  play_next-Kept env (suc fuel) n p = elim (choice chat_id p) [
    | repeated r q e more chosen ↦ rw (play_next_song env fuel n chat_id p chosen) (
        play_song-Kept env (play_next env fuel (suc n) chat_id) n r
          (decremented (loop_of r p) chat_id p) (play_next-Kept env fuel (suc n)))
    | advanced r s q e chosen ↦ rw (play_next_song env fuel n chat_id p chosen) (
        rw (chat_at-dropped chat_id j p other) at (
          play_song-Kept env (play_next env fuel (suc n) chat_id) n s (dropped chat_id p)
            (play_next-Kept env fuel (suc n))))
    | ended empty chosen ↦ rw (play_next_over env fuel n chat_id p chosen) (
        handle_no_song-Kept (env.can_stop n) (dropped chat_id p)
        ∙ chat_at-dropped chat_id j p other)
  ]

-- However `PlayNext` ends in one chat, every other chat keeps its entry: its flag and its queue.
pub chat_at-play_next :
    (env : Env) (fuel n : ℕ) (chat_id j : ℤ) (p : Player) {o : Outcome} {p' : Player}
    → int_eq chat_id j ≡ false
    → play_next env fuel n chat_id p ≡ some (o, p')
    → chat_at j p'.chats ≡ chat_at j p.chats
chat_at-play_next env fuel n chat_id j p other =
    of_Then (Kept chat_id j other (chat_at j p.chats)) (play_next env fuel n chat_id p)
      (play_next-Kept chat_id j other env fuel n p)
