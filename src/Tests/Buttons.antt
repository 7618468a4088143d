-- ===== src/Tests/Buttons.antt =====
-- /play with a playlist, and the buttons of a track, on concrete inputs.
use mathlib.Core.Option
use yes.Prelude.{◌≡◌, refl, true, false, [], ◌∷◌, ◌++◌, none, some, pos, arith, eq_String}
use yes.Prelude.Assoc.{lookup}
use yes.ChatCache.{chat_at, get_queue, is_active, get_playing_track}
use yes.Database.Playlists.{get_playlist}
use yes.Handlers.CallbackFrame.{chat_at-play_callback_handler}
use yes.Handlers.Callbacks.{Press, play_callback_handler}
use yes.Handlers.Enqueue.{contents}
use yes.Handlers.PlayCommand.{PlayRequest, handle_play, has_prefix}
use yes.Handlers.PlayedPlaylist.{queued_songs, contents-handle_play}
use yes.Handlers.Playlists.{no_results}
use yes.Playback.{failed, stop}
use yes.Tests.Data.{room, other_room, player, env, request}
use yes.Tests.Playlists.{table, before, favourites, song}

abbrev play_list : PlayRequest
play_list = record {
  request = request;
  is_reply = false;
  url = "";
  args = "tgpl_1";
  link = false;
  linked = none;
  replied = none;
  own = none;
  updates = true;
  is_valid = false;
  info = no_results;
  search = none;
  env = env;
  answer = failed;
  media = record { found = false; joined = false; streamed = false };
  path = none;
  measured = pos 0;
}

contents-handle_play_example :
    Option.map (λ x. contents room x.0) (handle_play table before play_list player)
    ≡ some (contents room player ++ queued_songs request (song "a" ∷ song "b" ∷ []))
unfolding get_queue lookup has_prefix get_playlist is_active
contents-handle_play_example =
    contents-handle_play table before play_list (favourites (song "a" ∷ song "b" ∷ [])) player refl
      refl refl refl refl (omega arith, (omega arith, tt))

abbrev stop_button : Press
stop_button = record {
  chat_id = room;
  user_id = pos 7;
  text = "play_stop";
  env = env;
  can_stop = true;
  paused = false;
  resumed = false;
  muted = false;
  unmuted = false;
  cursor = none;
  id = "";
}

chat_at-play_callback_handler_example :
    chat_at other_room (stop true room player).0.chats ≡ chat_at other_room player.chats
unfolding play_callback_handler lookup is_active stop get_playing_track
chat_at-play_callback_handler_example =
    chat_at-play_callback_handler table stop_button other_room player before refl refl
