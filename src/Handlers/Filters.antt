-- ===== src/Handlers/Filters.antt =====
-- src/handlers/filters.go: who may use a command. A filter reads the cache of administrators and the
-- settings of the chat, which the reads may change; all its calls are made at one time.
use yes.Prelude.{
  ℕ, Bool, true, false, not, ◌&&◌, List, [], ◌∷◌, Option, none, some, String, ℤ, int_eq, str_eq,
  has_text, if◌then◌else◌,
}
use yes.AdminCache.{
  Rights, Participant, AdminCache, Lookup, admin, not_administrator, api_error, get_admins,
  get_user_admin, not_administrator_text,
}
use yes.Database.{Database, Found}
use yes.Database.Authorized.{is_admin, is_auth_user}
use yes.Database.Chats.{get_play_mode, get_admin_mode}
use yes.Database.Users.{get_lang}
use yes.Handlers.{Reply, says}
use yes.Track.{admins, everyone, auth}

-- `isDev`, given the list of developers.
unfoldable pub is_dev : List ℤ → ℤ → Bool
is_dev [] user_id = false
is_dev (dev ∷ devs) user_id = if int_eq dev user_id then true else is_dev devs user_id

-- The state that the filters read.
pub record Access : Type 0 where
  pub admin_cache : AdminCache
  pub db : Database

-- A message or a callback, the library's names of the two statuses, and what the API and MongoDB answer
-- to the calls of one filter, should it make them.
pub record Asked : Type 0 where
  pub chat_id : ℤ
  pub bot_id : ℤ
  pub user_id : ℤ
  pub is_private : Bool
  pub now : ℕ
  pub admin_status : String
  pub creator_status : String
  pub members : Option (List Participant)
  pub members_again : Option (List Participant)
  pub api_text : String
  pub lang_answer : Found
  pub mode_answer : Found
  pub auth_answer : Found

pub data Verdict : Type 0 where
  allowed : Verdict
  denied : Option Reply → Verdict

lookup_failed : String → Verdict
lookup_failed error =
    if has_text error "is not an admin in chat"
    then denied (some (says "filter_bot_not_admin"))
    else denied (some (says "filter_bot_admin_status_failed"))

may_invite : Option Rights → Bool
may_invite none = true
may_invite (some rights) = rights.invite_users

-- The checks of the bot itself, which the filters share.
unfoldable pub bot_status : Asked → Lookup → Verdict
unfolding lookup_failed may_invite
bot_status q api_error = lookup_failed q.api_text
bot_status q not_administrator = lookup_failed (not_administrator_text q.bot_id q.chat_id)
bot_status q (admin bot) =
    if not (str_eq bot.status q.admin_status) && not (str_eq bot.status q.creator_status)
    then denied (some (says "filter_bot_not_admin_reload"))
    else if may_invite bot.rights
    then allowed
    else denied (some (says "filter_bot_no_invite_permission"))

-- `GetLang` and `GetUserAdmin` for the bot.
asked_bot : Asked → Access → Access × Lookup
asked_bot q a =
    let (db, lang) = get_lang q.now q.lang_answer q.chat_id a.db in
    let (c, bot) = get_user_admin q.now q.members q.chat_id q.bot_id false a.admin_cache in
    (record { admin_cache = c; db = db }, bot)

unfoldable pub by_admin_mode : Asked → Access → String → Access × Verdict
by_admin_mode q a mode =
    if str_eq mode everyone
    then (a, allowed)
    else if str_eq mode admins
    then (
      a,
      if is_admin q.now q.chat_id q.user_id a.admin_cache
          then allowed
          else denied (some (says "filter_not_admin")),
    )
    else if str_eq mode auth
    then (let (db, listed) =
          is_auth_user q.now q.auth_answer q.chat_id q.user_id a.admin_cache a.db in
        (
          record a { db = db },
          if listed then allowed else denied (some (says "filter_not_authorized")),
        ))
    else (a, denied (some (says "filter_not_authorized")))

unfoldable pub admin_mode_cb : Asked → Access → Access × Verdict
unfolding asked_bot bot_status by_admin_mode
admin_mode_cb q a =
    let (a', bot) = asked_bot q a in
    elim (bot_status q bot) [
      | denied r ↦ (a', denied r)
      | allowed ↦
          let (db, mode) = get_admin_mode q.now q.mode_answer q.chat_id a'.db in
          by_admin_mode q (record a' { db = db }) mode
    ]

unfoldable pub admin_mode : Asked → Access → Access × Verdict
unfolding admin_mode_cb
admin_mode q a = if q.is_private then (a, denied none) else admin_mode_cb q a

-- The loop of `playMode` over the administrators.
unfoldable pub among : ℤ → List Participant → Bool
among user_id [] = false
among user_id (member ∷ members) =
    if int_eq member.user_id user_id then true else among user_id members

unlisted : Asked → Access → String → Access × Verdict
unlisted q a mode =
    if str_eq mode auth
    then (let (db, listed) =
          is_auth_user q.now q.auth_answer q.chat_id q.user_id a.admin_cache a.db in
        (
          record a { db = db },
          if listed then allowed else denied (some (says "filter_not_authorized_command")),
        ))
    else (a, denied (some (says "filter_not_authorized_command")))

by_members : Asked → Access → String → AdminCache × Option (List Participant) → Access × Verdict
by_members q a mode (c, none) = (record a { admin_cache = c }, denied none)
by_members q a mode (c, some members) =
    if among q.user_id members
    then (record a { admin_cache = c }, allowed)
    else unlisted q (record a { admin_cache = c }) mode

unfoldable pub by_play_mode : Asked → Access → String → Access × Verdict
unfolding by_members unlisted among
by_play_mode q a mode =
    if str_eq mode everyone
    then (a, allowed)
    else by_members q a mode (get_admins q.now q.members_again q.chat_id false a.admin_cache)

unfoldable pub play_mode : Asked → Access → Access × Verdict
unfolding asked_bot bot_status by_play_mode
play_mode q a =
    if q.is_private
    then (a, denied none)
    else (let (a', bot) = asked_bot q a in
        elim (bot_status q bot) [
          | denied r ↦ (a', denied r)
          | allowed ↦
              let (db, mode) = get_play_mode q.now q.mode_answer q.chat_id a'.db in
              by_play_mode q (record a' { db = db }) mode
        ])
