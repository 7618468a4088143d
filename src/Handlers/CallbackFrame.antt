-- ===== src/Handlers/CallbackFrame.antt =====
-- The buttons of one chat leave the queues of the other chats alone.
use yes.Prelude.{
  ◌≡◌, refl, Bool, true, false, not, Option, none, some, String, ℤ, int_eq, has_text, if◌then◌else◌,
}
use std.Path.{subst}
use yes.Track.{Ref}
use yes.ChatCache.{chat_at, is_active, get_playing_track}
use yes.Database.Playlists.{Collection, get_user_playlists}
use yes.Handlers.Controls.{play_next_full}
use yes.Handlers.Callbacks.{
  Press, song_from, skipped, stopped_by, add_to_list, listed_in, on_button, with_track,
  play_callback_handler,
}
use yes.Playback.{Player, Outcome, stop, handle_no_song}
use yes.Playback.Frame.{handle_no_song-Kept, chat_at-play_next}

module _ {S : Type 0} (c : Collection S) (b : Press) (j : ℤ) (p : Player)
    (other : int_eq b.chat_id j ≡ false) where
  -- What is left keeps the entry of the chat `j`.
  abbrev Keeps : Option ((Player × S) × String) → Type 0
  Keeps none = Unit
  Keeps (some ((p', s), key)) = chat_at j p'.chats ≡ chat_at j p.chats

  if-Keeps :
      (test : Bool) (x y : Option ((Player × S) × String))
      → Keeps x
      → Keeps y
      → Keeps (if test then x else y)
  if-Keeps true x y h k = h
  if-Keeps false x y h k = k

  skipped-Keeps :
      (s : S) (o : Option (Outcome × Player))
      → play_next_full b.env b.chat_id p ≡ o
      → Keeps (skipped c s o)
  unfolding skipped
  skipped-Keeps s none e = tt
  skipped-Keeps s (some (o, p')) e = chat_at-play_next b.env _ 0 b.chat_id j p other e

  stopped-Keeps : (s : S) (found : Bool) → Keeps (stopped_by c s (stop found b.chat_id p))
  unfolding stopped_by stop handle_no_song
  stopped-Keeps s true = handle_no_song-Kept b.chat_id j other true p
  stopped-Keeps s false = refl

  listed-Keeps : (r : S × String) → Keeps (listed_in c p r)
  unfolding listed_in
  listed-Keeps (s, key) = refl

  on_button-Keeps : (r : Ref) (s : S) → Keeps (on_button c b r p s)
  unfolding on_button
  on_button-Keeps r s =
      if-Keeps (has_text b.text "play_skip") _ _
        (skipped-Keeps s (play_next_full b.env b.chat_id p) refl)
        (if-Keeps (has_text b.text "play_stop") _ _ (stopped-Keeps s b.can_stop) (
          if-Keeps (has_text b.text "play_pause") _ _ refl (
            if-Keeps (has_text b.text "play_resume") _ _ refl (
              if-Keeps (has_text b.text "play_mute") _ _ refl (
                if-Keeps (has_text b.text "play_unmute") _ _ refl (
                  if-Keeps (has_text b.text "play_add_to_list") _ _
                    (listed-Keeps
                      (add_to_list c b (song_from (p.heap.cell r)) s (get_user_playlists b.cursor)))
                    refl))))))

  with_track-Keeps : (s : S) (o : Option Ref) → Keeps (with_track c b p s o)
  unfolding with_track
  with_track-Keeps s none = refl
  with_track-Keeps s (some r) = on_button-Keeps r s

  handler-Keeps : (s : S) → Keeps (play_callback_handler c b p s)
  unfolding play_callback_handler
  handler-Keeps s = if-Keeps (has_text b.text "settings_") _ _ refl (
      if-Keeps (not (is_active b.chat_id p.chats)) _ _ refl
        (with_track-Keeps s (get_playing_track b.chat_id p.chats)))

-- Whatever button is pressed in one chat, every other chat keeps its entry: its flag and its queue.
pub chat_at-play_callback_handler :
    {S : Type 0} (c : Collection S) (b : Press) (j : ℤ) (p : Player) (s : S) {p' : Player} {s' : S}
    {key : String}
    → int_eq b.chat_id j ≡ false
    → play_callback_handler c b p s ≡ some ((p', s'), key)
    → chat_at j p'.chats ≡ chat_at j p.chats
chat_at-play_callback_handler c b j p s other e =
    subst (Keeps c b j p other) e (handler-Keeps c b j p other s)
