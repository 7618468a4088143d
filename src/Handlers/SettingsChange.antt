-- ===== src/Handlers/SettingsChange.antt =====
-- Who changes the modes of a chat by its buttons, and to what (src/handlers/settings.go).
use yes.Prelude.{
  ℕ, ◌+◌, ◌≤◌, ◌≡◌, refl, ap, ◌∙◌, true, false, ◌&&◌, List, ◌∷◌, some, String, if◌then◌else◌, arith,
  eq_String,
}
use yes.Prelude.Assoc.{insert}
use yes.AdminCache.{AdminCache, Participant, find_admin, get_admins}
use yes.Database.{Database, Found, Document, text}
use yes.Database.Chats.{get_play_mode, set_play_mode, get_admin_mode, copied}
use yes.Database.Users.{get_lang}
use yes.Database.Settings.{cached_chat, get_chat_hit, cached-update_chat_field, settings_read_back}
use yes.Downloads.Durations.{split_at}
use yes.Handlers.Settings.{
  SettingsRequest, has_perms, is_setting_value, modes_shown, set_setting, pressed_parts, pressed_by,
  settings_callback_handler,
}

-- With a document in the cache, a reader of a mode leaves the database as it is.
modes_shown-cached :
    (q : SettingsRequest) (key : String) (chat : Document) (db : Database)
    → cached_chat q.now q.chat_id db ≡ some chat
    → (modes_shown q key db).0 ≡ db
unfolding modes_shown get_admin_mode get_play_mode
modes_shown-cached q key chat db e =
    rw
      (
        get_chat_hit q.now q.found q.chat_id chat db e,
        get_chat_hit q.now q.found q.chat_id chat db e,
      )
      refl

play_mode_set :
    (q : SettingsRequest) (value : String) (db : Database)
    → q.is_written ≡ true
    → (set_setting q "play" value db).0 ≡ (set_play_mode q.now true q.chat_id value db).0
unfolding set_setting set_play_mode
play_mode_set q value db w =
    ap (λ b. (modes_shown q "settings_updated" (set_play_mode q.now b q.chat_id value db).0).0) w
    ∙ modes_shown-cached q "settings_updated"
        (insert "play_mode" (text value) (copied (cached_chat q.now q.chat_id db)))
        (set_play_mode q.now true q.chat_id value db).0
        (cached-update_chat_field q.now q.now q.chat_id "play_mode" (text value) db (omega arith))

pressed_play :
    (q : SettingsRequest) (a value : String) (rest : List String) (list : List Participant)
    (db : Database)
    → q.is_written ≡ true
    → split_at 95 q.button ≡ a ∷ "play" ∷ value ∷ rest
    → (pressed_by q (some list) db).0 ≡ (
        if has_perms (find_admin q.sender_id list) && is_setting_value value
        then (set_play_mode q.now true q.chat_id value db).0
        else db)
unfolding pressed_by pressed_parts
pressed_play q a value rest list db w parts = ground (arith, parts, play_mode_set q value db w)

-- A button `…_play_value` of the settings, when the administrators are known and MongoDB makes the change,
-- gives the chat the mode for playing `value`, until the cached document expires, if the sender is the
-- creator or an administrator who may manage calls, and `value` is one of the three modes. Otherwise the
-- mode for playing stays what it was when the language had been read.
pub play_mode_by_button :
    (q : SettingsRequest) (a value : String) (rest : List String) (list : List Participant)
    (cache : AdminCache) (db : Database) (later : ℕ) (answer : Found)
    → q.is_written ≡ true
    → split_at 95 q.button ≡ a ∷ "play" ∷ value ∷ rest
    → (get_admins q.now q.administrators q.chat_id false cache).1 ≡ some list
    → later ≤ q.now + (get_lang q.now q.found q.chat_id db).0.chat_cache.ttl
    → (get_play_mode later answer q.chat_id (settings_callback_handler q (cache, db)).0.1).1 ≡ (
        if has_perms (find_admin q.sender_id list) && is_setting_value value
        then value
        else (get_play_mode later answer q.chat_id (get_lang q.now q.found q.chat_id db).0).1)
unfolding settings_callback_handler
play_mode_by_button q a value rest list cache db later answer w parts listed soon =
    let read = (get_lang q.now q.found q.chat_id db).0 in
    let back = settings_read_back q.now later answer q.chat_id value read soon in
    ground (arith, listed, pressed_play q a value rest list read w parts, back.0)
