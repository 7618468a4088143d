-- ===== src/Handlers/Play.antt =====
-- src/handlers/play.go: adding tracks to the queue of a chat, and starting to play.
use yes.Prelude.{
  ℕ, suc, ◌+◌, Bool, true, false, not, ◌&&◌, List, [], ◌∷◌, ◌++◌, Option, none, some, String, ℤ,
  pos, ltb_ℤ, int_eq, str_eq, nat_eq, length, if◌then◌else◌,
}
use yes.Track.{CachedTrack, TrackInfo, MusicTrack, alloc, telegram}
use yes.ChatCache.{is_active, set_active, get_queue, add_song, get_track_if_exists}
use yes.Handlers.{Reply, says, says_with}
use yes.Handlers.Controls.{play_next_full}
use yes.Playback.{Player, Env, Outcome, Download, failed, fetched, play_media}

-- The parts of the configuration and of the message that the handlers use.
pub record Request : Type 0 where
  pub chat_id : ℤ
  pub user : String
  pub is_video : Bool
  pub song_duration_limit : ℤ
  pub max_file_size : ℤ

-- What `PlayMedia` answers: is there an assistant, does it join, does the stream start.
pub record Media : Type 0 where
  pub found : Bool
  pub joined : Bool
  pub streamed : Bool

-- `AddSong(chatID, &track)`
unfoldable pub add_track : ℤ → CachedTrack → Player → Player
add_track chat_id t p = record {
  heap = alloc t p.heap;
  chats = add_song chat_id p.heap.next p.chats;
}

unfoldable pub single_track : Request → MusicTrack → String → CachedTrack
single_track q song file_path = record {
  url = song.url;
  name = song.name;
  loop = pos 0;
  user = q.user;
  file_path = file_path;
  thumbnail = song.cover;
  track_id = song.id;
  duration = song.duration;
  lyrics = "";
  is_video = q.is_video;
  platform = song.platform;
}

-- The track after its download.
downloaded : MusicTrack → String → Option TrackInfo → CachedTrack → CachedTrack
downloaded song path none t = record t { file_path = path }
downloaded song path (some info) t = record t {
  file_path = path;
  lyrics = info.lyrics;
  duration = if int_eq song.duration (pos 0) then info.duration else t.duration;
}

-- The download of `handleSingleTrack`; `none` is its error.
fetch_single : MusicTrack → Download → CachedTrack → Option CachedTrack
fetch_single song answer t =
    if not (str_eq t.file_path "")
    then some t
    else elim answer [ failed ↦ none | fetched path info ↦ some (downloaded song path info t) ]

started_playing : Player × Bool → Player × Reply
started_playing (p, true) = (p, says "play_now_playing")
started_playing (p, false) = (p, says "play_media_error")

play_at_once : Request → Media → Player → Option CachedTrack → Player × Reply
play_at_once q media p none = (p, says "play_song_download_failed")
play_at_once q media p (some t) = started_playing (
    play_media media.found media.joined media.streamed q.chat_id
      (add_track q.chat_id t (record p { chats = set_active q.chat_id true p.chats })))

unfoldable pub handle_single_track :
    Request → Download → Media → MusicTrack → String → Player → Player × Reply
unfolding add_track single_track downloaded fetch_single started_playing play_at_once
handle_single_track q answer media song file_path p =
    let t = single_track q song file_path in
    if ltb_ℤ q.song_duration_limit song.duration
    then (p, says "play_song_too_long")
    else if is_active q.chat_id p.chats
    then (
      add_track q.chat_id t p,
      says_with "play_added_to_queue"
          (pos (length (get_queue q.chat_id p.chats)) ∷ song.duration ∷ []),
    )
    else play_at_once q media p (fetch_single song answer t)

-- The track of one entry of a list; `first` says that it is to be played first.
unfoldable pub listed_track : Request → Bool → MusicTrack → CachedTrack
listed_track q first track = record {
  url = track.url;
  name = track.name;
  loop = if first then pos 1 else pos 0;
  user = q.user;
  file_path = "";
  thumbnail = track.cover;
  track_id = track.id;
  duration = track.duration;
  lyrics = "";
  is_video = q.is_video;
  platform = track.platform;
}

-- One round of the loop of `handleMultipleTracks`, at index `i`. A track that is too long is skipped.
unfoldable pub enqueue_one : Request → Bool → ℕ → MusicTrack → Player → Player
unfolding add_track
enqueue_one q was_active i track p =
    if ltb_ℤ q.song_duration_limit track.duration
    then p
    else add_track q.chat_id (listed_track q (not was_active && nat_eq i 0) track) p

unfoldable pub enqueue : Request → Bool → ℕ → List MusicTrack → Player → Player
enqueue q was_active i [] p = p
enqueue q was_active i (track ∷ tracks) p =
    enqueue q was_active (suc i) tracks (enqueue_one q was_active i track p)

-- The positions that the reply shows for the tracks that were added.
unfoldable pub positions : Request → ℕ → ℕ → List MusicTrack → List ℤ
positions q queued i [] = []
positions q queued i (track ∷ tracks) =
    let rest = positions q queued (suc i) tracks in
    if ltb_ℤ q.song_duration_limit track.duration then rest else pos (queued + i) ∷ rest

shown : Request → List MusicTrack → Player → Player → Reply
shown q tracks before after = says_with "play_queue_summary" (
    positions q (length (get_queue q.chat_id before.chats)) 0 tracks
    ++ pos (length (get_queue q.chat_id after.chats)) ∷ [])

finish : Reply → Option (Outcome × Player) → Option (Player × Reply)
finish r none = none
finish r (some (o, p)) = some (p, r)

unfoldable pub handle_multiple_tracks :
    Request → Env → List MusicTrack → Player → Option (Player × Reply)
unfolding enqueue shown finish
handle_multiple_tracks q env tracks p =
    let p' = enqueue q (is_active q.chat_id p.chats) 0 tracks p in
    if is_active q.chat_id p.chats
    then some (p', shown q tracks p p')
    else finish (shown q tracks p p') (play_next_full env q.chat_id p')

answered : Player × Reply → Option (Player × Reply)
answered x = some x

unless_queued : Request → MusicTrack → Player → Player × Reply → Option (Player × Reply)
unless_queued q song p go = elim (get_track_if_exists q.chat_id song.id p.chats p.heap) [
  | some _ ↦ some (p, says "play_track_already_in_queue")
  | none ↦ some go
]

-- `handleUrl`: one result is one track; none, or several, are a list.
unfoldable pub handle_url :
    Request → Env → Download → Media → List MusicTrack → Player → Option (Player × Reply)
unfolding unless_queued
handle_url q env answer media (song ∷ []) p =
    unless_queued q song p (handle_single_track q answer media song "" p)
handle_url q env answer media [] p = handle_multiple_tracks q env [] p
handle_url q env answer media (song ∷ song' ∷ songs) p =
    handle_multiple_tracks q env (song ∷ song' ∷ songs) p

-- `handleTextSearch`; `none` is the error of the search.
unfoldable pub handle_text_search :
    Request → Download → Media → Option (List MusicTrack) → Player → Option (Player × Reply)
unfolding unless_queued
handle_text_search q answer media none p = some (p, says "play_search_failed")
handle_text_search q answer media (some []) p = some (p, says "play_no_results")
handle_text_search q answer media (some (song ∷ songs)) p =
    unless_queued q song p (handle_single_track q answer media song "" p)

-- The file of a message, as far as `handleMedia` reads it.
pub record MediaFile : Type 0 where
  pub size : ℤ
  pub name : String
  pub file_id : String
  pub link : String
  pub duration : ℤ

media_track : Request → MediaFile → CachedTrack
media_track q f = record {
  url = f.link;
  name = f.name;
  loop = pos 0;
  user = q.user;
  file_path = "";
  thumbnail = "";
  track_id = f.file_id;
  duration = f.duration;
  lyrics = "";
  is_video = q.is_video;
  platform = telegram;
}

media_song : MediaFile → ℤ → MusicTrack
media_song f measured = record {
  url = f.link;
  name = f.name;
  id = f.file_id;
  cover = "";
  duration = if int_eq f.duration (pos 0) then measured else f.duration;
  platform = telegram;
}

-- `handleMedia`; the download gives a path or an error, and `measured` is the answer of `ffprobe`.
unfoldable pub handle_media :
    Request → Option String → ℤ → Download → Media → MediaFile → Player → Player × Reply
unfolding media_track media_song add_track
handle_media q path measured answer media f p =
    if ltb_ℤ q.max_file_size f.size
    then (p, says "play_file_too_large")
    else elim (get_track_if_exists q.chat_id f.file_id p.chats p.heap) [
      | some _ ↦ (p, says "play_track_already_in_queue")
      | none ↦
          if is_active q.chat_id p.chats
          then (
            add_track q.chat_id (media_track q f) p,
            says_with "play_added_to_queue"
                (pos (length (get_queue q.chat_id p.chats)) ∷ f.duration ∷ []),
          )
          else elim path [
            | none ↦ (p, says "play_download_failed")
            | some file_path ↦
                handle_single_track q answer media (media_song f measured) file_path p
          ]
    ]
