-- ===== src/Downloads/Fetching.antt =====
-- The downloads of src/core/dl/youtube.go, api.go and helpers.go, over what yt-dlp, the API and the network
-- answer.
use yes.Prelude.{
  Bool, ◌&&◌, not, List, [], ◌∷◌, ◌++◌, none, some, String, str_eq, if◌then◌else◌, get_elem?,
}
use yes.Track.{TrackInfo}
use yes.Downloads.{Got, got, failed}
use yes.Downloads.Links.{joined}
use yes.Downloads.Youtube.{Config, Services, Service, youtube, api, or_else, has_api}

-- `NewDownload` and `Process`.
unfoldable pub process_download : Services → TrackInfo → Got String
process_download s track =
    if str_eq track.cdn_url ""
    then failed "the CDN URL is missing"
    else if s.equal_fold track.platform "spotify"
    then s.process_spotify track
    else if s.is_telegram_url track.cdn_url
    then got track.cdn_url
    else s.download_file track.cdn_url

-- `rand.Int` gives a number below the number of paths, or an error.
unfoldable pub get_cookie_file : Config → Services → String
get_cookie_file conf s = elim conf.cookies_path [
  | [] ↦ ""
  | first ∷ rest ↦
      if s.random_fails
      then first
      else elim (get_elem? (first ∷ rest) s.random_cookie) [ none ↦ "" | some cookie ↦ cookie ]
]

unfoldable pub cookie_params : Config → String → List String
cookie_params conf cookie =
    if not (str_eq cookie "")
    then "--cookies" ∷ cookie ∷ []
    else if not (str_eq conf.proxy "")
    then "--proxy" ∷ conf.proxy ∷ []
    else []

abbrev fixed_params : List String
fixed_params =
    "yt-dlp" ∷ "--no-warnings" ∷ "--quiet" ∷ "--geo-bypass" ∷ "--retries" ∷ "2" ∷ "--continue"
    ∷ "--no-part" ∷ "--concurrent-fragments" ∷ "3" ∷ "--socket-timeout" ∷ "10" ∷ "--throttled-rate"
    ∷ "100K" ∷ "--retry-sleep" ∷ "1" ∷ "--no-write-thumbnail" ∷ "--no-write-info-json"
    ∷ "--no-embed-metadata" ∷ "--no-embed-chapters" ∷ "--no-embed-subs" ∷ "--extractor-args"
    ∷ "youtube:player_js_version=actual" ∷ "-o" ∷ []

-- `filepath.Join` of the clean directory and the template.
unfoldable pub build_ytdlp_params : Config → Services → String → Bool → List String
unfolding get_cookie_file cookie_params
build_ytdlp_params conf s video_id video =
    fixed_params
    ++ joined conf.downloads_dir "/%(id)s.%(ext)s"
      ∷ (if video
          then "--merge-output-format" ∷ "mp4" ∷ "-f"
            ∷ "bestvideo[ext=mp4][height<=1080]+bestaudio[ext=m4a]/best[ext=mp4][height<=1080]" ∷ []
          else "-f" ∷ "bestaudio[ext=m4a]/bestaudio[ext=mp4]/bestaudio[ext=webm]/bestaudio/best"
            ∷ [])
    ++ cookie_params conf (get_cookie_file conf s)
    ++ joined "https://www.youtube.com/watch?v=" video_id ∷ "--print" ∷ "after_move:filepath" ∷ []

unfoldable pub checked_path : Services → Got String → Got String
checked_path s (failed why) = failed why
checked_path s (got path) =
    if str_eq path ""
    then failed "no output path was returned"
    else if s.is_missing path
    then failed "the file was not found at the reported path"
    else got path

unfoldable pub download_with_yt_dlp : Config → Services → String → Bool → Got String
unfolding checked_path build_ytdlp_params
download_with_yt_dlp conf s video_id video =
    checked_path s (s.yt_dlp (build_ytdlp_params conf s video_id video))

unfoldable pub processed : Services → Got TrackInfo → Got String
unfolding process_download
processed s (failed why) = failed why
processed s (got track) = process_download s track

unfoldable pub download_with_api : Services → String → Got String
unfolding processed
download_with_api s video_id =
    processed s (s.api_track (joined "https://www.youtube.com/watch?v=" video_id))

-- `YouTubeData.downloadTrack`
unfoldable pub download_youtube : Config → Services → TrackInfo → Bool → Got String
unfolding or_else has_api download_with_api download_with_yt_dlp
download_youtube conf s info video =
    if not video && has_api conf
    then or_else (download_with_api s info.tc) (download_with_yt_dlp conf s info.tc video)
    else download_with_yt_dlp conf s info.tc video

unfoldable pub or_youtube : Config → Services → TrackInfo → Bool → Got String → Got String
unfolding download_youtube
or_youtube conf s info video (got path) = got path
or_youtube conf s info video (failed why) =
    if str_eq info.platform "youtube"
    then download_youtube conf s info video
    else failed "the download process failed"

-- `downloadTrack` of a service.
unfoldable pub download_track : Config → Services → Service → TrackInfo → Bool → Got String
unfolding or_youtube process_download download_youtube
download_track conf s (youtube query) info video = download_youtube conf s info video
download_track conf s (api query) info video =
    if str_eq info.platform "youtube" && video
    then download_youtube conf s info video
    else if str_eq info.cdn_url ""
    then failed "failed to initialize the download"
    else or_youtube conf s info video (process_download s info)
