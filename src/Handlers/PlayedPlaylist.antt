-- ===== src/Handlers/PlayedPlaylist.antt =====
-- What /play with the id of a playlist puts into the queue.
use mathlib.Core.Option
use yes.Prelude.{
  ℕ, suc, ◌≡◌, refl, ap, ◌∙◌, Bool, true, false, List, [], ◌∷◌, ◌++◌, some, pos, ltb, ltb_ℤ, length,
  if◌then◌else◌, Bool-cases, inl, inr, arith,
}
use yes.Track.{CachedTrack}
use yes.ChatCache.{is_active, get_queue}
use yes.Database.Playlists.{Song, Playlist, Collection, get_playlist}
use yes.Handlers.Enqueue.{contents, fitting, fitting_one, IsAllocated, contents-enqueue}
use yes.Handlers.Play.{Request, listed_track, enqueue, handle_multiple_tracks}
use yes.Handlers.PlayCommand.{
  PlayRequest, coalesce, has_prefix, playlist_tracks, handle_play, play_playlist, ended,
}
use yes.Playback.{Player}

if_true {ℓ} : {A : Type ℓ} {b : Bool} {x : A} (y : A) → b ≡ true → (if b then x else y) ≡ x
if_true {x = x} y e = ap (λ b. if b then x else y) e

if_false {ℓ} : {A : Type ℓ} {b : Bool} (x : A) {y : A} → b ≡ false → (if b then x else y) ≡ y
if_false x {y = y} e = ap (λ b. if b then x else y) e

-- The songs that are not longer than the limit, in order, as the queue holds them.
unfoldable pub queued_songs : Request → List Song → List CachedTrack
queued_songs q [] = []
queued_songs q (song ∷ songs) =
    let rest = queued_songs q songs in
    if ltb_ℤ q.song_duration_limit song.duration
    then rest
    else record {
      url = song.url;
      name = song.name;
      loop = pos 0;
      user = q.user;
      file_path = "";
      thumbnail = "";
      track_id = song.track_id;
      duration = song.duration;
      lyrics = "";
      is_video = q.is_video;
      platform = song.platform;
    }
      ∷ rest

fitting-playlist_tracks :
    (q : Request) (i : ℕ) (songs : List Song)
    → fitting q true i (playlist_tracks songs) ≡ queued_songs q songs
unfolding fitting fitting_one listed_track playlist_tracks queued_songs
fitting-playlist_tracks q i [] = refl
fitting-playlist_tracks q i (song ∷ songs) =
    elim (Bool-cases (ltb_ℤ q.song_duration_limit song.duration)) [
      | inl long ↦ rw long (fitting-playlist_tracks q (suc i) songs)
      | inr fits ↦ ground (arith, fits, fitting-playlist_tracks q (suc i) songs)
    ]

-- If the queue of an active chat holds at most ten tracks, the input is the id of a playlist that is found, and
-- the reply that the bot searches is sent, then /play ends, and the queue holds what it held and
-- behind that the songs of the playlist that are not longer than the limit, in the order of the playlist:
-- each with its url, name, id, duration and platform, for the user who asked, without loops, a file or a
-- picture.
pub contents-handle_play :
    {S : Type 0} (c : Collection S) (s : S) (q : PlayRequest) (playlist : Playlist) (p : Player)
    → ltb 10 (length (get_queue q.request.chat_id p.chats)) ≡ false
    → has_prefix (coalesce q.url q.args) "tgpl_" ≡ true
    → get_playlist c (coalesce q.url q.args) s ≡ some playlist
    → is_active q.request.chat_id p.chats ≡ true
    → q.updates ≡ true
    → IsAllocated q.request.chat_id p
    → Option.map (λ x. contents q.request.chat_id x.0) (handle_play c s q p)
      ≡ some (contents q.request.chat_id p ++ queued_songs q.request playlist.songs)
unfolding handle_play play_playlist handle_multiple_tracks ended
contents-handle_play c s q playlist p few id found active updates allocated =
    let tracks = playlist_tracks playlist.songs in
    ap (Option.map (λ x. contents q.request.chat_id x.0)) (
      if_false _ few
      ∙ if_true _ id
      ∙ ap (play_playlist q p) found
      ∙ if_true _ updates
      ∙ ap ended (if_true _ active))
    ∙ ap (λ b. some (contents q.request.chat_id (enqueue q.request b 0 tracks p))) active
    ∙ ap some (
        contents-enqueue q.request true 0 tracks p allocated
        ∙ ap (λ l. contents q.request.chat_id p ++ l)
            (fitting-playlist_tracks q.request 0 playlist.songs))
