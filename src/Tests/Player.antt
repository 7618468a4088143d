-- ===== src/Tests/Player.antt =====
-- Playing and queueing on concrete inputs.
use mathlib.Core.Option
use yes.Prelude.{◌≡◌, ◌-ℤ◌, refl, false, [], ◌∷◌, some, pos, arith, eq_ℤ}
use yes.Prelude.Assoc.{lookup}
use yes.ChatCache.{get_queue, get_playing_track, get_loop_count, set_loop_count}
use yes.Track.{write}
use yes.Playback.{
  Player, play_next, play_song, choose, download_and_prepare_song, play_media, playing,
}
use yes.Playback.Current.{Follows, play_next-Follows}
use yes.Playback.Effects.{queue_at}
use yes.Playback.Termination.{Ends, rounds, play_next-Ends}
use yes.Handlers.Enqueue.{fitting, fitting_one}
use yes.Handlers.FirstTrack.{first_track_dropped}
use yes.Handlers.Play.{enqueue, listed_track}
use yes.Playback.Loops.{started_tracks, upcoming, whole}
use yes.Playback.Starts.{started_tracks-upcoming}
use yes.Tests.Data.{
  sound_env, room, player, idle_player, env, broken_env, request, song, tracks, track,
}

play_next-Ends_example : Ends (play_next broken_env 5 0 room player)
unfolding rounds get_queue lookup
play_next-Ends_example = play_next-Ends broken_env 5 0 room player (omega arith)

-- Track 0, which plays, is started twice more, and then track 1.
started_tracks-upcoming_example : started_tracks sound_env room 5 player ≡ 0 ∷ 0 ∷ 1 ∷ []
unfolding upcoming whole get_queue lookup
started_tracks-upcoming_example =
    started_tracks-upcoming sound_env room 5 player (λ n. (refl, refl, refl, refl, refl))
      ((refl, tt), (tt, tt))

-- The first download fails and the second works: track 0, with no loops left, plays.
abbrev played : Player
played = record player {
  heap =
      write 0 (record (track "a" (pos 0)) { file_path = "song.m4a" })
        (write 0 (track "a" (pos 0)) (write 0 (track "a" (pos 1)) tracks));
}

play_next-env : play_next env 5 0 room player ≡ some (playing 0, played)
unfolding play_next play_song choose download_and_prepare_song play_media write get_queue lookup
    get_playing_track get_loop_count set_loop_count ◌-ℤ◌
play_next-env = refl

play_next-Follows_example : Follows room (queue_at room player) (playing 0) played
play_next-Follows_example = play_next-Follows env 5 0 room player play_next-env

-- The list d, e, f, of which d is too long: f is played, and e is not.
first_track_dropped_example :
    Option.map
      (enqueue request false 0
        (song "d" (pos 4000) ∷ song "e" (pos 100) ∷ song "f" (pos 200) ∷ [])
        idle_player).heap.cell
      (choose room (
        enqueue request false 0
          (song "d" (pos 4000) ∷ song "e" (pos 100) ∷ song "f" (pos 200) ∷ [])
          idle_player)).1
    ≡ some (listed_track request false (song "f" (pos 200)))
unfolding lookup fitting fitting_one
first_track_dropped_example =
    first_track_dropped request (song "d" (pos 4000)) (song "e" (pos 100) ∷ song "f" (pos 200) ∷ [])
      idle_player refl refl
