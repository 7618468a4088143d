-- ===== src/Handlers/Speed.antt =====
-- /speed, src/handlers/speed.go. `parse_float` is `strconv.ParseFloat`, which accepts "NaN" and "Inf".
use yes.Prelude.{Bool, not, ◌||◌, Option, none, some, String, ℤ, str_eq, if◌then◌else◌}
use yes.ChatCache.{is_active, get_playing_track}
use yes.Playback.{Player}
use yes.Playback.Speed.{
  Float, Floats, SpeedChange, speed_error, plays_at, does_not_end, is_below_half, is_above_four,
  change_speed,
}
use yes.Handlers.{Reply, says}

-- The reply, and the player after `PlayMedia`, which says whether it fails.
unfoldable pub speed_changed :
    (Player → Player × Bool) → Player → SpeedChange → Option (Player × Reply)
speed_changed play p does_not_end = none
speed_changed play p (speed_error key) = some (p, says "speed_error")
speed_changed play p (plays_at path is_video pts filters) =
    let (after, is_played) = play p in
    if is_played then some (after, says "speed_success") else some (after, says "speed_error")

unfoldable pub speed_number :
    Floats → (Player → Player × Bool) → ℤ → Option Float → Player → Option (Player × Reply)
unfolding speed_changed change_speed is_below_half is_above_four
speed_number f play chat_id none p = some (p, says "speed_invalid_value")
speed_number f play chat_id (some speed) p =
    if is_below_half speed || is_above_four speed
    then some (p, says "speed_out_of_range")
    else speed_changed play p (change_speed f chat_id speed p)

-- `speedHandler`; `none` is a handler that does not end.
unfoldable pub speed_handler :
    Floats
    → (String → Option Float)
    → (Player → Player × Bool)
    → ℤ
    → String
    → Player
    → Option (Player × Reply)
unfolding speed_number
speed_handler f parse_float play chat_id args p =
    if not (is_active chat_id p.chats)
    then some (p, says "no_track_playing")
    else elim (get_playing_track chat_id p.chats) [
      | none ↦ some (p, says "no_track_playing")
      | some r ↦
          if str_eq args ""
          then some (p, says "speed_usage")
          else speed_number f play chat_id (parse_float args) p
    ]
