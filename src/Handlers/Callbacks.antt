-- ===== src/Handlers/Callbacks.antt =====
-- src/handlers/callbacks.go: the buttons under the message of a track that plays. The language of an answer is left out.
use yes.Prelude.{
  Bool, true, false, not, List, [], ◌∷◌, Option, none, some, String, ℤ, has_text, if◌then◌else◌,
}
use yes.Track.{CachedTrack, Ref}
use yes.ChatCache.{is_active, get_playing_track}
use yes.Database.Playlists.{
  Song, Playlist, Collection, create_playlist, get_playlist, add_song_to_playlist,
  get_user_playlists,
}
use yes.Handlers.Controls.{play_next_full}
use yes.Playback.{Player, Env, Outcome, playing, queue_finished, message_failed, media_failed, stop}

-- A press of a button, and the answers: whether `Stop` finds the assistant, whether `Pause`, `Resume`, `Mute` and `Unmute`
-- end without an error, the playlists of the user, and the id that is generated.
pub record Press : Type 0 where
  pub chat_id : ℤ
  pub user_id : ℤ
  pub text : String
  pub env : Env
  pub can_stop : Bool
  pub paused : Bool
  pub resumed : Bool
  pub muted : Bool
  pub unmuted : Bool
  pub cursor : Option (List (Option Playlist))
  pub id : String

unfoldable pub song_from : CachedTrack → Song
song_from t = record {
  url = t.url;
  name = t.name;
  track_id = t.track_id;
  duration = t.duration;
  platform = t.platform;
}

-- `PlayNext` returns an error when the message or the media fails.
unfoldable pub skip_key : Outcome → String
skip_key message_failed = "skip_fail"
skip_key media_failed = "skip_fail"
skip_key (playing r) = "track_skipped"
skip_key queue_finished = "track_skipped"

abbrev pub by_result : Bool → String → String → String
by_result done key error = if done then key else error

module _ {S : Type 0} (c : Collection S) where
  -- The state, and the key of the text of the answer.
  abbrev pub Pressed : Type 0
  Pressed = Option ((Player × S) × String)

  unfoldable pub skipped : S → Option (Outcome × Player) → Pressed
  unfolding skip_key
  skipped s none = none
  skipped s (some (o, p)) = some ((p, s), skip_key o)

  unfoldable pub stopped_by : S → Player × Bool → Pressed
  stopped_by s (p, true) = some ((p, s), "track_stopped")
  stopped_by s (p, false) = some ((p, s), "stop_fail")

  unfoldable pub shown_in : String → S → Option Playlist → S × String
  shown_in id s none = (s, "playlist_not_found")
  shown_in id s (some playlist) = (s, "playlist_song_added")

  unfoldable pub added_song : String → S → Option S → S × String
  unfolding shown_in
  added_song id s none = (s, "playlist_add_error")
  added_song id s (some s') = shown_in id s' (get_playlist c id s')

  unfoldable pub add_to : String → Song → S → S × String
  unfolding added_song
  add_to id song s = added_song id s (add_song_to_playlist c id song s)

  unfoldable pub add_created : Song → S → Option (S × String) → S × String
  unfolding add_to
  add_created song s none = (s, "playlist_create_error")
  add_created song s (some (s', id)) = add_to id song s'

  -- The first playlist of the user, or a new one.
  unfoldable pub add_to_list : Press → Song → S → Option (List Playlist) → S × String
  unfolding add_created
  add_to_list b song s none = (s, "playlist_fetch_error")
  add_to_list b song s (some []) =
      add_created song s (create_playlist c b.id "My Playlist (TgMusic)" b.user_id s)
  add_to_list b song s (some (playlist ∷ playlists)) = add_to playlist.id song s

  unfoldable pub listed_in : Player → S × String → Pressed
  listed_in p (s, key) = some ((p, s), key)

  unfoldable pub on_button : Press → Ref → Player → S → Pressed
  unfolding skipped stopped_by listed_in add_to_list song_from
  on_button b r p s =
      if has_text b.text "play_skip"
      then skipped s (play_next_full b.env b.chat_id p)
      else if has_text b.text "play_stop"
      then stopped_by s (stop b.can_stop b.chat_id p)
      else if has_text b.text "play_pause"
      then some ((p, s), by_result b.paused "track_paused" "pause_fail")
      else if has_text b.text "play_resume"
      then some ((p, s), by_result b.resumed "track_resumed" "resume_fail")
      else if has_text b.text "play_mute"
      then some ((p, s), by_result b.muted "track_muted" "mute_fail")
      else if has_text b.text "play_unmute"
      then some ((p, s), by_result b.unmuted "track_unmuted" "unmute_fail")
      else if has_text b.text "play_add_to_list"
      then listed_in p (add_to_list b (song_from (p.heap.cell r)) s (get_user_playlists b.cursor))
      else some ((p, s), "now_playing")

  unfoldable pub with_track : Press → Player → S → Option Ref → Pressed
  unfolding on_button
  with_track b p s none = some ((p, s), "no_track_playing")
  with_track b p s (some r) = on_button b r p s

  unfoldable pub play_callback_handler : Press → Player → S → Pressed
  unfolding song_from skip_key skipped stopped_by shown_in added_song add_to add_created add_to_list
      listed_in on_button with_track
  play_callback_handler b p s =
      if has_text b.text "settings_"
      then some ((p, s), "")
      else if not (is_active b.chat_id p.chats)
      then some ((p, s), "no_track_playing")
      else with_track b p s (get_playing_track b.chat_id p.chats)
