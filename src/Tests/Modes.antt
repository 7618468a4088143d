-- ===== src/Tests/Modes.antt =====
-- The buttons of the settings.
use yes.Prelude.{◌≡◌, refl, true, false, List, [], ◌∷◌, none, some, pos, arith}
use yes.Prelude.Assoc.{lookup}
use yes.Prelude.Decimal.{format}
use yes.TtlCache.{get, new_cache}
use yes.AdminCache.{Participant, get_admins, find_admin}
use yes.Database.{new_database, no_documents}
use yes.Database.Chats.{get_play_mode, get_chat, get_chat_lang}
use yes.Database.Users.{get_lang}
use yes.Downloads.Durations.{split_at}
use yes.Handlers.Settings.{SettingsRequest, settings_callback_handler, has_perms, is_setting_value}
use yes.Handlers.SettingsChange.{play_mode_by_button}
use yes.Tests.Data.{room}

abbrev creator : List Participant
creator = record { user_id = pos 7; status = "creator"; rights = none } ∷ []

-- The creator presses the button for the administrators.
abbrev pressed_button : SettingsRequest
pressed_button = record {
  now = 10;
  chat_id = room;
  sender_id = pos 7;
  is_private = false;
  button = "settings_play_admins";
  administrators = some creator;
  found = no_documents;
  is_written = true;
  is_shown = true;
}

play_mode_by_button_example :
    (get_play_mode 20 no_documents room
      (settings_callback_handler pressed_button (new_cache 100, new_database)).0.1).1
    ≡ "admins"
unfolding split_at get_admins get_lang get_chat_lang get_chat get lookup format has_perms find_admin
    is_setting_value
play_mode_by_button_example =
    play_mode_by_button pressed_button "settings" "admins" [] creator (new_cache 100) new_database
      20 no_documents refl refl refl (omega arith)
