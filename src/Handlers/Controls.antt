-- ===== src/Handlers/Controls.antt =====
-- src/handlers/remove.go, loop.go, seek.go, skip.go, stop.go, pause.go, mute.go: the commands that act on the
-- queue and the stream of a chat that is active.
use mathlib.Core.Option
use yes.Playback.Termination.{rounds_left}
use yes.Prelude.{
  int_of_bits, wrap, ℕ, suc, Bool, true, false, not, ◌||◌, [], ◌∷◌, Option, none, some, String, ℤ,
  pos, ◌+ℤ◌, ltb_ℤ, leb_ℤ, int_eq, str_eq, length, if◌then◌else◌,
}
use yes.Prelude.Decimal.{atoi}
use yes.ChatCache.{is_active, get_queue, get_playing_track, set_loop_count, remove_track}
use yes.Handlers.{Reply, says, says_with}
use yes.Playback.{Player, Env, play_media, stop, play_next, Outcome}

-- `removeHandler` once the argument is a number.
remove_number : ℤ → Option ℤ → Player → Player × Reply
remove_number chat_id none p = (p, says "remove_invalid_number")
remove_number chat_id (some track_num) p =
    let size = length (get_queue chat_id p.chats) in
    if leb_ℤ track_num (pos 0) || ltb_ℤ (pos size) track_num
    then (p, says_with "remove_out_of_range" (pos size ∷ []))
    else (
      record p { chats = (remove_track chat_id track_num p.chats).0 },
      says_with "remove_success" (track_num ∷ []),
    )

unfoldable pub remove_handler : ℤ → String → Player → Player × Reply
unfolding remove_number
remove_handler chat_id args p =
    if not (is_active chat_id p.chats)
    then (p, says "no_track_playing")
    else if int_eq (pos (length (get_queue chat_id p.chats))) (pos 0)
    then (p, says "queue_empty")
    else if str_eq args ""
    then (p, says "remove_usage")
    else remove_number chat_id (atoi args) p

loop_number : ℤ → Option ℤ → Player → Player × Reply
loop_number chat_id none p = (p, says "loop_invalid_count")
loop_number chat_id (some count) p =
    if ltb_ℤ count (pos 0) || ltb_ℤ (pos 10) count then (p, says "loop_out_of_range") else (
      record p { heap = (set_loop_count chat_id count p.chats p.heap).0 },
      if int_eq count (pos 0) then says "loop_disabled" else says_with "loop_set" (count ∷ []),
    )

unfoldable pub loop_handler : ℤ → String → Player → Player × Reply
unfolding loop_number
loop_handler chat_id args p =
    if not (is_active chat_id p.chats)
    then (p, says "no_track_playing")
    else if str_eq args ""
    then (p, says "loop_usage")
    else loop_number chat_id (atoi args) p

-- `SeekStream`: the interval of the stream that `PlayMedia` is asked for, or no call of it.
unfoldable pub seek_stream : ℤ → ℤ → Option (ℤ × ℤ)
seek_stream to_seek duration =
    if ltb_ℤ to_seek (pos 0) || leb_ℤ duration (pos 0) then none else some (to_seek, duration)

-- The outcome of `/seek`: a reply, or a call of `PlayMedia` for an interval.
pub data Seek : Type 0 where
  refused : Reply → Seek
  from_to : ℤ → ℤ → Seek

seek_target : ℤ → ℤ → Seek
seek_target to_seek duration =
    if leb_ℤ duration to_seek
    then refused (says_with "seek_beyond_duration" (duration ∷ []))
    else elim (seek_stream to_seek duration) [
      | none ↦ refused (says "seek_error")
      | some (from, to) ↦ from_to from to
    ]

seek_number : Option ℕ → ℤ → Option ℤ → Seek
seek_number played duration none = refused (says "seek_invalid_time")
seek_number played duration (some seek_time) =
    if ltb_ℤ seek_time (pos 0) || ltb_ℤ seek_time (pos 20)
    then refused (says "seek_min_time")
    else elim played [
      | none ↦ refused (says "seek_fetch_duration_error")
      | some curr_dur ↦ seek_target (wrap (int_of_bits curr_dur +ℤ seek_time)) duration
    ]

-- `seekHandler` up to its call of `PlayMedia`; `played` is the answer of `PlayedTime`.
unfoldable pub seek_request : Option ℕ → ℤ → String → Player → Seek
unfolding seek_number seek_target seek_stream
seek_request played chat_id args p =
    if not (is_active chat_id p.chats)
    then refused (says "no_track_playing")
    else elim (get_playing_track chat_id p.chats) [
      | none ↦ refused (says "no_track_playing")
      | some r ↦
          if str_eq args ""
          then refused (says "seek_usage")
          else seek_number played (p.heap.cell r).duration (atoi args)
    ]

sought : ℤ → Player × Bool → Player × Reply
sought to_seek (p, true) = (p, says_with "seek_success" (to_seek ∷ []))
sought to_seek (p, false) = (p, says "seek_error")

unfoldable pub seek_handler : Option ℕ → Bool → Bool → Bool → ℤ → String → Player → Player × Reply
unfolding sought seek_request
seek_handler played found joined streamed chat_id args p =
    elim (seek_request played chat_id args p) [
      | refused r ↦ (p, r)
      | from_to to_seek duration ↦ sought to_seek (play_media found joined streamed chat_id p)
    ]

-- `PlayNext` with enough fuel for the rounds that the chat has left.
abbrev pub play_next_full : Env → ℤ → Player → Option (Outcome × Player)
play_next_full env chat_id p = play_next env (suc (rounds_left chat_id p)) 0 chat_id p

-- `skipHandler`; how `PlayNext` ends is not reported.
unfoldable pub skip_handler : Env → ℤ → Player → Option (Player × Option Reply)
skip_handler env chat_id p =
    if not (is_active chat_id p.chats)
    then some (p, some (says "no_track_playing"))
    else Option.map (λ x. (x.1, none)) (play_next_full env chat_id p)

stopped : Player × Bool → Player × Reply
stopped (p, true) = (p, says "stop_success")
stopped (p, false) = (p, says "stop_error")

unfoldable pub stop_handler : Bool → ℤ → Player → Player × Reply
unfolding stopped
stop_handler found chat_id p =
    if not (is_active chat_id p.chats)
    then (p, says "no_track_playing")
    else stopped (stop found chat_id p)

-- `pauseHandler`, given whether `Pause` ends without an error; the player does not change.
unfoldable pub pause_handler : Bool → ℤ → Player → Reply
pause_handler paused chat_id p =
    if not (is_active chat_id p.chats)
    then says "no_track_playing"
    else if paused
    then says "pause_success"
    else says "pause_error"

unfoldable pub resume_handler : Bool → ℤ → Player → Reply
resume_handler resumed chat_id p =
    if ltb_ℤ (pos 0) chat_id
    then says "supergroup_command_only"
    else if not (is_active chat_id p.chats)
    then says "no_track_playing"
    else if resumed
    then says "resume_success"
    else says "resume_error"

unfoldable pub mute_handler : Bool → ℤ → Player → Reply
mute_handler muted chat_id p =
    if not (is_active chat_id p.chats)
    then says "no_track_playing"
    else if muted
    then says "mute_success"
    else says "mute_error"

unfoldable pub unmute_handler : Bool → ℤ → Player → Reply
unmute_handler unmuted chat_id p =
    if not (is_active chat_id p.chats)
    then says "no_track_playing"
    else if unmuted
    then says "unmute_success"
    else says "unmute_error"
