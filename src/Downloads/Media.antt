-- ===== src/Downloads/Media.antt =====
-- src/vc/helpers.go: the file of a song, and the commands of ffmpeg that play it. `int(x / ratio)` and
-- `int(x * ratio)` on `float64` are parameters, as is the text that ffprobe prints.
use Prim.Native.String.{◌++◌ as str_append}
use yes.Prelude.{
  ℕ, ◌-◌, ◌%◌, Bool, ◌&&◌, List, [], ◌∷◌, Option, none, some, String, ℤ, pos, negsuc, ltb, nat_eq,
  str_eq, int_eq, if◌then◌else◌,
}
use yes.Prelude.Decimal.{atoi, format}
use yes.Track.{CachedTrack, TrackInfo, telegram}
use yes.Downloads.{Got, got, failed}
use yes.Downloads.Durations.{split_at}
use yes.Downloads.Fetching.{download_track}
use yes.Downloads.Youtube.{
  Config, Services, Service, is_valid_service, new_downloader_wrapper, get_track,
}

-- `strconv.Atoi` with its error ignored; a number that is too large does not occur.
unfoldable pub number_or_zero : String → ℤ
number_or_zero s = elim (atoi s) [ none ↦ pos 0 | some n ↦ n ]

unfoldable pub dimensions_of : List String → ℤ × ℤ
unfolding number_or_zero
dimensions_of [] = (pos 0, pos 0)
dimensions_of (w ∷ []) = (pos 0, pos 0)
dimensions_of (w ∷ h ∷ []) = (number_or_zero w, number_or_zero h)
dimensions_of (w ∷ h ∷ x ∷ rest) = (pos 0, pos 0)

-- `getVideoDimensions`, for the trimmed output of ffprobe; `none` is its error.
unfoldable pub get_video_dimensions : Option String → ℤ × ℤ
unfolding dimensions_of
get_video_dimensions none = (pos 0, pos 0)
get_video_dimensions (some out) = dimensions_of (split_at 120 out)

-- The conversions of one ratio, that of the original size.
pub record Scaling : Type 0 where
  -- `int(float64(newW) / ratio)`
  pub height_for : ℕ → ℕ
  -- `int(float64(newH) * ratio)`
  pub width_for : ℕ → ℕ

unfoldable pub even_below : ℕ → ℕ
even_below n = if nat_eq (n % 2) 0 then n else n - 1

-- The size for a width that is at most 1280.
unfoldable pub fit_to : Scaling → ℕ → ℕ × ℕ
unfolding even_below
fit_to s new_w =
    if ltb 720 (s.height_for new_w)
    then (even_below (s.width_for 720), even_below 720)
    else (even_below new_w, even_below (s.height_for new_w))

unfoldable pub video_size : Scaling → ℤ × ℤ → ℕ × ℕ
unfolding fit_to
video_size s (pos w, pos h) =
    if ltb 0 w && ltb 0 h then fit_to s (if ltb w 1280 then w else 1280) else (1280, 720)
video_size s (pos w, negsuc h) = (1280, 720)
video_size s (negsuc w, h) = (1280, 720)

unfoldable pub seek_flags : (String → Bool) → String → String
seek_flags is_filter parameters = if is_filter parameters then "" else parameters

unfoldable pub filter_flags : (String → Bool) → String → String
filter_flags is_filter parameters = if is_filter parameters then parameters else ""

unfoldable pub spaced : String → String
spaced flags = if str_eq flags "" then "" else str_append flags " "

-- The part of both commands up to the output; `is_filter` is whether the flags contain "filter:".
unfoldable pub input_command : (String → Bool) → Bool → String → String → String
unfolding seek_flags filter_flags spaced
input_command is_filter is_url file_path parameters = str_append "ffmpeg " (
    str_append
      (if is_url
        then "-reconnect 1 -reconnect_at_eof 1 -reconnect_streamed 1 -reconnect_delay_max 2 "
        else "")
      (str_append (spaced (seek_flags is_filter parameters)) (
        str_append "-i \""
          (str_append file_path (str_append "\" " (spaced (filter_flags is_filter parameters)))))))

pub record Video : Type 0 where
  pub input : String
  pub width : ℕ
  pub height : ℕ

pub record MediaCommands : Type 0 where
  pub microphone : String
  pub camera : Option Video

unfoldable pub get_media_description :
    (String → Bool) → Bool → Scaling → Option String → String → Bool → String → MediaCommands
unfolding input_command video_size get_video_dimensions
get_media_description is_filter is_url s probed file_path is_video parameters =
    let input = input_command is_filter is_url file_path parameters in
    let size = video_size s (get_video_dimensions probed) in
    record {
      microphone = str_append input "-f s16le -ac 2 -ar 96000 -v quiet pipe:1";
      camera =
          if is_video
          then some (record {
            input = str_append input (
                str_append "-f rawvideo -r 30 -pix_fmt yuv420p -vf scale=" (
                  str_append (format (pos size.0))
                    (str_append ":" (str_append (format (pos size.1)) " -v quiet pipe:1"))));
            width = size.0;
            height = size.1;
          })
          else none;
    }

-- What Telegram answers for a song: the file of its id, and a message with its file and its duration.
pub record Telegram : Type 0 where
  pub bot_file : String → Got String
  pub is_message : String → Bool
  pub message_file : String → Got (String × ℤ)

-- The last step: a path to a message is followed, and the track gets the duration of its file.
unfoldable pub from_message : TrackInfo → Got (String × ℤ) → Got String × Option TrackInfo
from_message info (failed why) = (failed "failed to get the message", some info)
from_message info (got (path, duration)) =
    if int_eq info.duration (pos 0)
    then (got path, some (record info { duration = duration }))
    else (got path, some info)

unfoldable pub followed : Telegram → TrackInfo → Got String → Got String × Option TrackInfo
unfolding from_message
followed t info (failed why) = (failed why, some info)
followed t info (got path) =
    if t.is_message path then from_message info (t.message_file path) else (got path, some info)

unfoldable pub with_info :
    Config → Services → Telegram → Service → Bool → Got TrackInfo → Got String × Option TrackInfo
unfolding followed
with_info conf s t service is_video (failed why) = (failed why, none)
with_info conf s t service is_video (got info) =
    followed t info (download_track conf s service info is_video)

-- `DownloadSong`
unfoldable pub download_song :
    Config → Services → Telegram → CachedTrack → Got String × Option TrackInfo
unfolding with_info
download_song conf s t song =
    let service = new_downloader_wrapper conf s song.url in
    if str_eq song.platform telegram
    then (t.bot_file song.track_id, none)
    else if is_valid_service conf s service
    then with_info conf s t service song.is_video (get_track conf s service)
    else (failed "the provided song URL is invalid", none)
