-- ===== src/Downloads/Youtube.antt =====
-- src/core/dl/youtube.go, api.go and service.go: which service handles a query, and what its calls give. What the API, the search page, yt-dlp and the network answer are parameters; a query of the
-- API is valid if one of its patterns matches, which is a parameter too.
use yes.Prelude.{
  ℕ, Bool, ◌&&◌, not, List, [], ◌∷◌, Option, none, some, String, str_eq, if◌then◌else◌,
}
use yes.Track.{TrackInfo, MusicTrack}
use yes.Downloads.{Got, got, failed}
use yes.Downloads.Links.{clear_query, is_valid_query, normalize_youtube_url, extract_video_id}

-- `config.Conf`, as far as the downloaders read it; `api_url` without its last slashes.
pub record Config : Type 0 where
  pub api_url : String
  pub api_key : String
  pub default_service : String
  pub downloads_dir : String
  pub cookies_path : List String
  pub proxy : String

-- What the outside answers. A list of tracks or a track is the decoded answer of the API.
pub record Services : Type 0 where
  pub trim_space : String → String
  pub api_matches : String → Bool
  pub search_youtube : String → Got (List MusicTrack)
  pub api_get_url : String → Got (List MusicTrack)
  pub api_search : String → Got (List MusicTrack)
  pub api_track : String → Got TrackInfo
  pub is_telegram_url : String → Bool
  pub equal_fold : String → String → Bool
  pub process_spotify : TrackInfo → Got String
  pub download_file : String → Got String
  -- the answer of yt-dlp to its parameters: its output, trimmed
  pub yt_dlp : List String → Got String
  pub is_missing : String → Bool
  pub random_cookie : ℕ
  pub random_fails : Bool

-- `NewApiData(query).IsValid()`, for a query without space around it.
unfoldable pub api_is_valid : Config → Services → String → Bool
api_is_valid conf s query =
    (not (str_eq query "") && (not (str_eq conf.api_url "") && not (str_eq conf.api_key "")))
    && s.api_matches query

pub data Service : Type 0 where
  youtube : String → Service
  api : String → Service

-- `NewDownloaderWrapper`
unfoldable pub new_downloader_wrapper : Config → Services → String → Service
unfolding api_is_valid
new_downloader_wrapper conf s query =
    let yt = clear_query s.trim_space query in
    let trimmed = s.trim_space query in
    if is_valid_query yt
    then youtube yt
    else if api_is_valid conf s trimmed
    then api trimmed
    else if str_eq conf.default_service "spotify"
    then api trimmed
    else youtube yt

-- `IsValid` of the wrapper.
unfoldable pub is_valid_service : Config → Services → Service → Bool
unfolding api_is_valid
is_valid_service conf s (youtube query) = is_valid_query query
is_valid_service conf s (api query) = api_is_valid conf s query

-- The first track with an id.
unfoldable pub with_id : String → List MusicTrack → Option MusicTrack
with_id id [] = none
with_id id (track ∷ tracks) =
    let rest = with_id id tracks in if str_eq track.id id then some track else rest

unfoldable pub found_video : String → Got (List MusicTrack) → Got (List MusicTrack)
unfolding with_id
found_video id (failed why) = failed why
found_video id (got tracks) = elim (with_id id tracks) [
  | none ↦ failed "no video results were found"
  | some track ↦ got (track ∷ [])
]

-- `YouTubeData.GetInfo`; it also replaces the query of its receiver by the normal link.
unfoldable pub youtube_info : Services → String → Got (List MusicTrack)
unfolding found_video
youtube_info s query =
    let url = normalize_youtube_url query in
    let id = extract_video_id url in
    if not (is_valid_query query)
    then failed "the provided URL is invalid or the platform is not supported"
    else if str_eq id ""
    then failed "unable to extract the video ID"
    else found_video id (s.search_youtube url)

unfoldable pub some_tracks : Got (List MusicTrack) → Got (List MusicTrack)
some_tracks (failed why) = failed why
some_tracks (got []) = failed "no video results were found"
some_tracks (got (track ∷ tracks)) = got (track ∷ tracks)

-- `GetInfo` of a service.
unfoldable pub get_info : Config → Services → Service → Got (List MusicTrack)
unfolding youtube_info api_is_valid
get_info conf s (youtube query) = youtube_info s query
get_info conf s (api query) =
    if api_is_valid conf s query
    then s.api_get_url query
    else failed "the provided URL is invalid or the platform is not supported"

-- `Search` of a service.
unfoldable pub search_tracks : Config → Services → Service → Got (List MusicTrack)
unfolding some_tracks api_is_valid
search_tracks conf s (youtube query) = some_tracks (s.search_youtube query)
search_tracks conf s (api query) =
    if api_is_valid conf s query then s.api_get_url query else s.api_search query

unfoldable pub youtube_track : MusicTrack → TrackInfo
youtube_track track = record {
  url = track.url;
  cdn_url = "None";
  key = "None";
  name = track.name;
  tc = track.id;
  cover = track.cover;
  duration = track.duration;
  lyrics = "";
  platform = "youtube";
}

unfoldable pub track_of : Got (List MusicTrack) → Got TrackInfo
unfolding youtube_track
track_of (failed why) = failed why
track_of (got []) = failed "no video results were found"
track_of (got (track ∷ tracks)) = got (youtube_track track)

unfoldable pub or_else : {A : Type 0} → Got A → Got A → Got A
or_else (got x) later = got x
or_else (failed why) later = later

unfoldable pub has_api : Config → Bool
has_api conf = not (str_eq conf.api_url "") && not (str_eq conf.api_key "")

-- `GetTrack` of a service.
unfoldable pub get_track : Config → Services → Service → Got TrackInfo
unfolding track_of or_else has_api youtube_info
get_track conf s (api query) = s.api_track query
get_track conf s (youtube query) =
    let searched = track_of (youtube_info s query) in
    if str_eq query ""
    then failed "the query is empty"
    else if not (is_valid_query query)
    then failed "the provided URL is invalid or the platform is not supported"
    else if has_api conf
    then or_else (s.api_track (s.trim_space query)) searched
    else searched
