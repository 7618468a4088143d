-- ===== src/Handlers/PlayCommand.antt =====
-- handlePlay in src/handlers/play.go, and coalesce in helpers.go: what /play and /vplay do with their message. The language
-- of a reply is left out.
use Prim.Native.Char.{code}
use yes.Prelude.{
  Bool, true, false, not, ◌&&◌, List, [], ◌∷◌, Option, none, some, String, ℤ, ltb, nat_eq, str_eq,
  length, if◌then◌else◌,
}
use yes.Track.{MusicTrack}
use yes.ChatCache.{get_queue}
use yes.Database.Playlists.{Song, Playlist, Collection, get_playlist}
use yes.Handlers.{Reply, says}
use yes.Handlers.Play.{
  Request, Media, MediaFile, handle_media, handle_text_search, handle_url, handle_multiple_tracks,
}
use yes.Handlers.Playlists.{Info, info_failed, no_results, results}
use yes.Playback.{Player, Env, Download}

-- The message, and what is answered while it is handled. `link` is whether the input is a link to a message of Telegram, a
-- `Option (Option MediaFile)` is an error, a message without a file to play, or one with it, and
-- `updates` is whether the reply that says that the bot searches is sent.
pub record PlayRequest : Type 0 where
  pub request : Request
  pub is_reply : Bool
  pub url : String
  pub args : String
  pub link : Bool
  pub linked : Option (Option MediaFile)
  pub replied : Option (Option MediaFile)
  pub own : Option MediaFile
  pub updates : Bool
  pub is_valid : Bool
  pub info : Info
  pub search : Option (List MusicTrack)
  pub env : Env
  pub answer : Download
  pub media : Media
  pub path : Option String
  pub measured : ℤ

abbrev pub coalesce : String → String → String
coalesce a b = if not (str_eq a "") then a else b

-- `strings.HasPrefix(input, prefix)`
unfoldable pub has_prefix : String → String → Bool
has_prefix s String.[] = true
has_prefix String.[] (String.◌∷◌ c prefix) = false
has_prefix (String.◌∷◌ d s) (String.◌∷◌ c prefix) = nat_eq (code d) (code c) && has_prefix s prefix

unfoldable pub playlist_tracks : List Song → List MusicTrack
playlist_tracks [] = []
playlist_tracks (song ∷ songs) =
    record {
      url = song.url;
      name = song.name;
      id = song.track_id;
      cover = "";
      duration = song.duration;
      platform = song.platform;
    }
    ∷ playlist_tracks songs

-- The end of a handler: no reply, a reply, or that of the handler of the tracks.
abbrev pub Played : Type 0
Played = Option (Player × Option Reply)

abbrev pub replied_with : String → Player → Played
replied_with key p = some (p, some (says key))

unfoldable pub ended : Option (Player × Reply) → Played
ended none = none
ended (some (p, r)) = some (p, some r)

unfoldable pub play_playlist : PlayRequest → Player → Option Playlist → Played
unfolding ended playlist_tracks
play_playlist q p none = replied_with "playlist_not_found" p
play_playlist q p (some playlist) =
    if q.updates
    then ended (handle_multiple_tracks q.request q.env (playlist_tracks playlist.songs) p)
    else some (p, none)

play_info : PlayRequest → Player → Info → Played
play_info q p info_failed = replied_with "play_fetch_error" p
play_info q p no_results = replied_with "play_no_tracks_found" p
play_info q p (results tracks) = ended (handle_url q.request q.env q.answer q.media tracks p)

play_text : PlayRequest → Player → Played
play_text q p =
    if not (str_eq q.url "")
    then (if not q.is_valid then replied_with "play_invalid_url" p else play_info q p q.info)
    else ended (handle_text_search q.request q.answer q.media q.search p)

-- The message to play from, which has a file or not.
play_message : PlayRequest → Player → Option MediaFile → Played
play_message q p none =
    if str_eq q.url "" && str_eq q.args ""
    then replied_with "play_usage" p
    else if q.updates
    then play_text q p
    else some (p, none)
play_message q p (some file) =
    if q.updates
    then ended (some (handle_media q.request q.path q.measured q.answer q.media file p))
    else some (p, none)

play_from : PlayRequest → String → Player → Option (Option MediaFile) → Played
play_from q error p none = replied_with error p
play_from q error p (some file) = play_message q p file

play_input : PlayRequest → Player → Played
play_input q p =
    if q.link
    then play_from q "play_invalid_tg_link" p q.linked
    else if q.is_reply
    then play_from q "play_invalid_reply" p q.replied
    else play_message q p q.own

unfoldable pub handle_play : {S : Type 0} → Collection S → S → PlayRequest → Player → Played
unfolding has_prefix playlist_tracks ended play_playlist play_info play_text play_message play_from
    play_input
handle_play c s q p =
    if ltb 10 (length (get_queue q.request.chat_id p.chats))
    then replied_with "play_queue_full" p
    else if has_prefix (coalesce q.url q.args) "tgpl_"
    then play_playlist q p (get_playlist c (coalesce q.url q.args) s)
    else play_input q p
