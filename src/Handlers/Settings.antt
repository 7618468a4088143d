-- ===== src/Handlers/Settings.antt =====
-- The settings of a chat and its language: settings.go and language.go of src/handlers. What MongoDB and
-- the API answer is in the request.
use yes.Prelude.{
  ℕ, Bool, true, false, not, ◌||◌, List, [], ◌∷◌, Option, none, some, String, ℤ, str_eq,
  if◌then◌else◌,
}
use yes.Track.{admins, auth, everyone}
use yes.AdminCache.{
  AdminCache, Participant, Rights, Lookup, admin, not_administrator, api_error, find_admin,
  get_admins,
}
use yes.Database.{Database, Found}
use yes.Database.Chats.{get_play_mode, set_play_mode, get_admin_mode, set_admin_mode, set_chat_lang}
use yes.Database.Users.{get_lang, set_user_lang}
use yes.Downloads.Durations.{split_at}
use yes.Handlers.{Reply, says}

-- A command or a pressed button. `is_shown` is whether the new message can be shown.
pub record SettingsRequest : Type 0 where
  pub now : ℕ
  pub chat_id : ℤ
  pub sender_id : ℤ
  pub is_private : Bool
  pub button : String
  pub administrators : Option (List Participant)
  pub found : Found
  pub is_written : Bool
  pub is_shown : Bool

abbrev pub Settings : Type 0
Settings = AdminCache × Database

-- `admin.Rights != nil && admin.Rights.ManageCall`
unfoldable pub may_manage_call : Option Rights → Bool
may_manage_call none = false
may_manage_call (some rights) = rights.manage_call

unfoldable pub has_perms : Lookup → Bool
unfolding may_manage_call
has_perms (admin a) = may_manage_call a.rights || str_eq a.status "creator"
has_perms not_administrator = false
has_perms api_error = false

unfoldable pub is_listed : Lookup → Bool
is_listed (admin a) = true
is_listed not_administrator = false
is_listed api_error = false

unfoldable pub is_setting_value : String → Bool
is_setting_value value = (str_eq value admins || str_eq value auth) || str_eq value everyone

-- The modes are read for the message, which is shown or not.
unfoldable pub modes_shown : SettingsRequest → String → Database → Database × Option Reply
modes_shown q key db =
    let after =
      (get_admin_mode q.now q.found q.chat_id (get_play_mode q.now q.found q.chat_id db).0).0 in
    (after, if q.is_shown then some (says key) else none)

-- The switch over the type of the setting.
unfoldable pub set_setting : SettingsRequest → String → String → Database → Database × Option Reply
unfolding modes_shown
set_setting q kind value db =
    if str_eq kind "play"
    then modes_shown q "settings_updated" (set_play_mode q.now q.is_written q.chat_id value db).0
    else if str_eq kind "admin"
    then modes_shown q "settings_updated" (set_admin_mode q.now q.is_written q.chat_id value db).0
    else (db, some (says "settings_update_prompt"))

unfoldable pub pressed_parts : SettingsRequest → List String → Database → Database × Option Reply
unfolding is_setting_value set_setting
pressed_parts q [] db = (db, none)
pressed_parts q (a ∷ []) db = (db, none)
pressed_parts q (a ∷ kind ∷ []) db = (db, none)
pressed_parts q (a ∷ kind ∷ value ∷ rest) db =
    if not (is_setting_value value)
    then (db, some (says "settings_update_invalid"))
    else set_setting q kind value db

unfoldable pub pressed_by :
    SettingsRequest → Option (List Participant) → Database → Database × Option Reply
unfolding has_perms pressed_parts
pressed_by q none db = (db, none)
pressed_by q (some list) db =
    if not (has_perms (find_admin q.sender_id list))
    then (db, some (says "settings_no_permission"))
    else pressed_parts q (split_at 95 q.button) db

-- `settingsCallbackHandler`
unfoldable pub settings_callback_handler : SettingsRequest → Settings → Settings × Option Reply
unfolding pressed_by
settings_callback_handler q (cache, db) =
    let (read, code) = get_lang q.now q.found q.chat_id db in
    let (cache', list) = get_admins q.now q.administrators q.chat_id false cache in
    let (after, reply) = pressed_by q list read in ((cache', after), reply)

unfoldable pub shown_to :
    SettingsRequest → Option (List Participant) → Database → Database × Option Reply
unfolding is_listed modes_shown
shown_to q none db = (db, none)
shown_to q (some list) db =
    if is_listed (find_admin q.sender_id list)
    then modes_shown q "settings_header" (get_lang q.now q.found q.chat_id db).0
    else (db, none)

-- `settingsHandler`
unfoldable pub settings_handler : SettingsRequest → Settings → Settings × Option Reply
unfolding shown_to
settings_handler q (cache, db) =
    let (cache', list) = get_admins q.now q.administrators q.chat_id false cache in
    let (after, reply) = shown_to q list db in
    if q.is_private then ((cache, db), none) else ((cache', after), reply)

unfoldable pub is_available_lang : String → List String → Bool
is_available_lang code [] = false
is_available_lang code (l ∷ langs) = str_eq l code || is_available_lang code langs

unfoldable pub chat_lang_set :
    SettingsRequest → String → Option (List Participant) → Database → Database × Option Reply
unfolding is_listed
chat_lang_set q code none db = (db, none)
chat_lang_set q code (some list) db =
    if is_listed (find_admin q.sender_id list)
    then ((set_chat_lang q.now q.is_written q.chat_id code db).0, some (says "lang_changed"))
    else (db, some (says "lang_no_permission"))

-- `setLangCallbackHandler`, for the code behind the first `_` of the button, if there is one.
unfoldable pub set_lang_callback_handler :
    List String → SettingsRequest → Option String → Settings → Settings × Option Reply
unfolding is_available_lang chat_lang_set
set_lang_callback_handler langs q none s = (s, none)
set_lang_callback_handler langs q (some code) (cache, db) =
    let (cache', list) = get_admins q.now q.administrators q.chat_id false cache in
    let (after, reply) = chat_lang_set q code list db in
    if not (is_available_lang code langs)
    then ((cache, db), some (says "unsupported_language"))
    else if q.is_private
    then (
      (cache, (set_user_lang q.now q.is_written q.chat_id code db).0),
      some (says "lang_changed"),
    )
    else ((cache', after), reply)
