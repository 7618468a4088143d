-- ===== src/Handlers/Permissions.antt =====
-- Who passes the filters of the commands.
use yes.Prelude.{
  ◌≡◌, refl, Bool, true, false, not, ◌&&◌, ◌||◌, List, Option, none, some, String, ℤ, str_eq,
  eq_iff, arith, Bool-cases, inl, inr,
}
use yes.AdminCache.{
  AdminCache, Rights, Participant, Lookup, admin, not_administrator, api_error, get_admins,
  get_user_admin,
}
use yes.Database.{Database}
use yes.Database.Access.{users_at, is_auth_user_lem}
use yes.Database.Authorized.{is_admin, is_auth_user}
use yes.Database.Chats.{get_play_mode, get_admin_mode}
use yes.Database.Users.{get_lang}
use yes.Database.Utilities.{contains}
use yes.Handlers.Filters.{
  by_admin_mode, by_play_mode, Access, Asked, Verdict, allowed, denied, bot_status, admin_mode_cb,
  admin_mode, play_mode, among,
}
use yes.Track.{admins, everyone, auth}

abbrev pub allows : Verdict → Bool
allows allowed = true
allows (denied r) = false

abbrev can_invite : Option Rights → Bool
can_invite none = true
can_invite (some rights) = rights.invite_users

-- The bot is an administrator or the creator, and may invite users.
abbrev pub bot_serves : Asked → Lookup → Bool
bot_serves q (admin bot) =
    (str_eq bot.status q.admin_status || str_eq bot.status q.creator_status)
    && can_invite bot.rights
bot_serves q not_administrator = false
bot_serves q api_error = false

allows-bot_status : (q : Asked) (bot : Lookup) → allows (bot_status q bot) ≡ bot_serves q bot
unfolding bot_status
allows-bot_status q (admin bot) = ground arith
allows-bot_status q not_administrator = ground arith
allows-bot_status q api_error = ground arith

-- The state and the bot's rank, as a filter finds them.
module _ (q : Asked) (a : Access) where
  abbrev pub bot_rank : Lookup
  bot_rank = (get_user_admin q.now q.members q.chat_id q.bot_id false a.admin_cache).1

  abbrev db_asked : Database
  db_asked = (get_lang q.now q.lang_answer q.chat_id a.db).0

  abbrev pub cache_asked : AdminCache
  cache_asked = (get_user_admin q.now q.members q.chat_id q.bot_id false a.admin_cache).0

  -- Whether the user is in the list of administrators that the bot's look-up left in the cache.
  abbrev pub user_is_admin : Bool
  user_is_admin = is_admin q.now q.chat_id q.user_id cache_asked

  abbrev pub admin_mode_read : String
  admin_mode_read = (get_admin_mode q.now q.mode_answer q.chat_id db_asked).1

  -- Whether the user is in the chat's list of authorized users.
  abbrev pub user_is_listed : Bool
  user_is_listed =
      contains
        (users_at q.now q.auth_answer q.chat_id
          (get_admin_mode q.now q.mode_answer q.chat_id db_asked).0)
        q.user_id

-- Who may use a command in a mode: everyone, the administrators, or these and the authorized users. Any
-- other text lets nobody in.
abbrev pub permitted : String → Bool → Bool → Bool
permitted mode is_administrator is_listed =
    str_eq mode everyone
    || (str_eq mode admins && is_administrator)
    || (str_eq mode auth && (is_administrator || is_listed))

-- No mode is two modes.
admins_or_auth : (mode : String) → (str_eq mode admins && str_eq mode auth) ≡ false
admins_or_auth mode = elim (Bool-cases (str_eq mode admins)) [
  | inl same ↦ rw ((eq_iff mode admins).0 same) refl
  | inr other ↦ rw other refl
]

allows-by_admin_mode :
    (q : Asked) (a : Access) (mode : String)
    → allows (by_admin_mode q a mode).1
      ≡ permitted mode
          (is_admin q.now q.chat_id q.user_id a.admin_cache)
          (contains (users_at q.now q.auth_answer q.chat_id a.db) q.user_id)
unfolding by_admin_mode
allows-by_admin_mode q a mode = ground (
  arith,
  admins_or_auth mode,
  is_auth_user_lem q.now q.auth_answer q.chat_id q.user_id a.admin_cache a.db,
)

-- `adminMode` lets a message pass exactly when it is not private, the bot is an administrator or the
-- creator who may invite users, and the chat's mode permits the sender. `adminModeCB` asks the same, but
-- not whether the chat is private.
pub allows-admin_mode :
    (q : Asked) (a : Access)
    → (allows (admin_mode_cb q a).1 ≡ (
        bot_serves q (bot_rank q a)
        && permitted (admin_mode_read q a) (user_is_admin q a) (user_is_listed q a)))
      × (allows (admin_mode q a).1 ≡ (not q.is_private && allows (admin_mode_cb q a).1))
unfolding admin_mode_cb admin_mode
allows-admin_mode q a =
    let a' : Access = record {
      admin_cache = cache_asked q a;
      db = (get_admin_mode q.now q.mode_answer q.chat_id (db_asked q a)).0;
    } in
    (
      ground (
        arith,
        allows-bot_status q (bot_rank q a),
        allows-by_admin_mode q a' (admin_mode_read q a),
      ),
      ground arith,
    )

-- Who may start tracks: everyone, the members of the list of administrators, and in the mode `auth` also
-- the authorized users. Without the list only the mode `everyone` lets a user in.
abbrev pub may_play : String → ℤ → Option (List Participant) → Bool → Bool
may_play mode user_id none is_listed = str_eq mode everyone
may_play mode user_id (some members) is_listed =
    str_eq mode everyone || among user_id members || (str_eq mode auth && is_listed)

allows-by_play_mode :
    (q : Asked) (a : Access) (mode : String)
    → allows (by_play_mode q a mode).1
      ≡ may_play mode q.user_id
          (get_admins q.now q.members_again q.chat_id false a.admin_cache).1
          (is_auth_user q.now q.auth_answer q.chat_id q.user_id
            (get_admins q.now q.members_again q.chat_id false a.admin_cache).0
            a.db).1
unfolding by_play_mode
allows-by_play_mode q a mode = ground arith

module _ (q : Asked) (a : Access) where
  abbrev pub play_mode_read : String
  play_mode_read = (get_play_mode q.now q.mode_answer q.chat_id (db_asked q a)).1

  -- The list of administrators that `playMode` gets for the sender.
  abbrev pub members_read : AdminCache × Option (List Participant)
  members_read = get_admins q.now q.members_again q.chat_id false (cache_asked q a)

  -- Whether `IsAuthUser` would say that the sender is authorized.
  abbrev pub user_is_authorized : Bool
  user_is_authorized =
      (is_auth_user q.now q.auth_answer q.chat_id q.user_id (members_read).0
        (get_play_mode q.now q.mode_answer q.chat_id (db_asked q a)).0).1

-- `playMode` lets a message pass exactly when it is not private, the bot is an administrator or the
-- creator who may invite users, and the chat's mode for playing lets the sender in.
pub allows-play_mode :
    (q : Asked) (a : Access)
    → allows (play_mode q a).1 ≡ (
        not q.is_private
        && bot_serves q (bot_rank q a)
        && may_play (play_mode_read q a) q.user_id (members_read q a).1 (user_is_authorized q a))
unfolding play_mode
allows-play_mode q a =
    let a' : Access = record {
      admin_cache = cache_asked q a;
      db = (get_play_mode q.now q.mode_answer q.chat_id (db_asked q a)).0;
    } in
    ground
      (arith, allows-bot_status q (bot_rank q a), allows-by_play_mode q a' (play_mode_read q a))
