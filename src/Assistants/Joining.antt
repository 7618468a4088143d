-- ===== src/Assistants/Joining.antt =====
-- src/vc/userbot.go: how the assistant of a chat gets into the chat. What the Telegram API answers to the
-- calls of one `joinAssistant` is a parameter, `Chat`; all its calls are made at one time.
use Prim.Native.String.{◌++◌ as str_append}
use yes.Prelude.{
  ℕ, Bool, true, false, not, ◌||◌, Option, none, some, String, ℤ, str_eq, has_text, if◌then◌else◌,
}
use yes.Prelude.Decimal.{format}
use yes.AdminCache.{
  Rights, Participant, AdminCache, Lookup, admin, not_administrator, api_error, get_user_admin,
  not_administrator_text,
}
use yes.Assistants.{Clients, get_group_assistant}
use yes.Database.{Database, Found}
use yes.Database.Users.{get_lang}
use yes.TtlCache.{Cache, get, set}
use mathlib.Core.List.{List}

-- The state that the functions read and write.
pub record Joiner : Type 0 where
  pub clients : Clients
  pub status_cache : Cache String
  pub invite_cache : Cache String
  pub admin_cache : AdminCache
  pub db : Database

-- What MongoDB and `rand.Int` answer to one `GetGroupAssistant`.
pub record Pick : Type 0 where
  pub answer : Found
  pub updated : Bool
  pub random : Option ℕ

-- The answer of `GetChatInviteLink`.
pub data Invite : Type 0 where
  no_link : Invite
  other_link : Invite
  exported : String → Invite

-- What resolving the assistant's peer gives.
pub data Peer : Type 0 where
  unresolved : Peer
  other_peer : Peer
  input_user : Peer

-- The library's names of the statuses.
pub record Statuses : Type 0 where
  pub member : String
  pub administrator : String
  pub creator : String
  pub left : String
  pub kicked : String
  pub restricted : String

-- One call of `joinAssistant`: the chat, the bot, the user id of each context, and the answers. An
-- `Option String` that is an error has its text, and `none` is success.
pub record Chat : Type 0 where
  pub now : ℕ
  pub chat_id : ℤ
  pub bot_id : ℤ
  pub user_of : ℕ → ℤ
  pub status : Statuses
  pub lang_answer : Found
  pub check_pick : Pick
  pub member : Option String
  pub admins : Option (List Participant)
  pub admins_text : String
  pub unbans : Bool
  pub join_lang_answer : Found
  pub join_pick : Pick
  pub invite : Invite
  pub join_error : Option String
  pub resolves_chat : Bool
  pub resolves_user : Peer
  pub approves : Bool

-- `nil`, or the key of the error's text.
pub data Joined : Type 0 where
  joined : Joined
  join_failed : String → Joined

abbrev pub status_key : ℤ → ℤ → String
status_key chat_id user_id = str_append (format chat_id) (str_append ":" (format user_id))

-- `UpdateMembership`
unfoldable pub update_membership : ℕ → ℤ → ℤ → String → Joiner → Joiner
update_membership now chat_id user_id status s = record s {
  status_cache = set now (status_key chat_id user_id) status s.status_cache;
}

-- `UpdateInviteLink`
unfoldable pub update_invite_link : ℕ → ℤ → String → Joiner → Joiner
update_invite_link now chat_id link s = record s {
  invite_cache = set now (format chat_id) link s.invite_cache;
}

-- `GetGroupAssistant`
unfoldable pub assistant_of : Chat → Pick → Joiner → Joiner × Option ℕ
assistant_of q pick s =
    let (db, context) =
      get_group_assistant q.now pick.answer pick.updated pick.random q.chat_id s.clients s.db in
    (record s { db = db }, context)

unfoldable pub fetched_status : Chat → ℤ → Option String → Joiner → Joiner × Option String
unfolding update_membership
fetched_status q user_id none s =
    (update_membership q.now q.chat_id user_id q.status.left s, some q.status.left)
fetched_status q user_id (some status) s =
    (update_membership q.now q.chat_id user_id status s, some status)

unfoldable pub status_of : Chat → ℤ → Joiner → Joiner × Option String
unfolding fetched_status
status_of q user_id s = elim (get q.now (status_key q.chat_id user_id) s.status_cache) [
  | some cached ↦ (s, some cached)
  | none ↦ fetched_status q user_id q.member s
]

-- `none` is an error.
unfoldable pub checking : Chat → Option ℕ → Joiner → Joiner × Option String
unfolding status_of
checking q none s = (s, none)
checking q (some n) s = status_of q (q.user_of n) s

unfoldable pub check_user_stats : Chat → Joiner → Joiner × Option String
unfolding assistant_of checking
check_user_stats q s = let (s', context) = assistant_of q q.check_pick s in checking q context s'

-- The request to join that Telegram has taken down instead of letting the assistant in.
unfoldable pub approved : Chat → Joined
approved q = if not q.resolves_chat then join_failed "resolve_peer" else elim q.resolves_user [
  | unresolved ↦ join_failed "resolve_peer"
  | other_peer ↦ join_failed "invalid_user_peer"
  | input_user ↦ if q.approves then joined else join_failed "join_request_already_sent"
]

-- The end of `joinUb`: the answer of `JoinChannel`.
unfoldable pub entered : Chat → ℤ → Option String → Joiner → Joiner × Joined
unfolding update_membership approved
entered q user_id none s = (update_membership q.now q.chat_id user_id q.status.member s, joined)
entered q user_id (some error) s =
    if has_text error "INVITE_REQUEST_SENT"
    then (s, approved q)
    else if has_text error "USER_ALREADY_PARTICIPANT"
    then (update_membership q.now q.chat_id user_id q.status.member s, joined)
    else if has_text error "INVITE_HASH_EXPIRED"
    then (s, join_failed "invite_link_expired")
    else (s, join_failed "join_channel")

unfoldable pub with_link : Chat → ℤ → Invite → Joiner → Joiner × Joined
unfolding entered update_invite_link
with_link q user_id no_link s = (s, join_failed "get_invite_link_fail")
with_link q user_id other_link s = (s, join_failed "invalid_invite_link_type")
with_link q user_id (exported link) s =
    entered q user_id q.join_error (update_invite_link q.now q.chat_id link s)

unfoldable pub by_link : Chat → ℤ → Joiner → Joiner × Joined
unfolding entered with_link
by_link q user_id s = elim (get q.now (format q.chat_id) s.invite_cache) [
  | some cached ↦ entered q user_id q.join_error s
  | none ↦ with_link q user_id q.invite s
]

unfoldable pub joining : Chat → Option ℕ → Joiner → Joiner × Joined
joining q none s = (s, join_failed "no_assistant")
joining q (some n) s = by_link q (q.user_of n) s

unfoldable pub join_ub : Chat → Joiner → Joiner × Joined
unfolding assistant_of joining
join_ub q s =
    let (db, lang) = get_lang q.now q.join_lang_answer q.chat_id s.db in
    let (s', context) = assistant_of q q.join_pick (record s { db = db }) in joining q context s'

may_ban : Option Rights → Bool
may_ban none = true
may_ban (some rights) = rights.ban_users

lookup_error : String → String
lookup_error error =
    if has_text error "is not an admin in chat"
    then "unban_fail_no_admin"
    else "check_admin_status_fail"

-- The checks of the bot before it unbans the assistant, and the unbanning: `none` if it worked.
unfoldable pub unban_error : Chat → Lookup → Option String
unfolding lookup_error may_ban
unban_error q api_error = some (lookup_error q.admins_text)
unban_error q not_administrator = some (lookup_error (not_administrator_text q.bot_id q.chat_id))
unban_error q (admin bot) =
    if not (str_eq bot.status q.status.administrator)
    then some "unban_fail_bot_not_admin"
    else if not (may_ban bot.rights)
    then some "unban_fail_no_perm"
    else if q.unbans
    then none
    else some "unban_fail"

unbanned : Chat → Bool → Joiner → Option String → Joiner × Joined
unbanned q banned s (some error) = (s, join_failed error)
unbanned q banned s none = if banned then join_ub q s else (s, joined)

unfoldable pub unban : Chat → Bool → Joiner → Joiner × Joined
unfolding unbanned
unban q banned s =
    let (c, bot) = get_user_admin q.now q.admins q.chat_id q.bot_id false s.admin_cache in
    unbanned q banned (record s { admin_cache = c }) (unban_error q bot)

-- The `switch` of `joinAssistant`.
unfoldable pub by_status : Chat → Joiner → String → Joiner × Joined
unfolding unban
by_status q s status =
    if str_eq status q.status.member
      || str_eq status q.status.administrator
      || str_eq status q.status.creator
    then (s, joined)
    else if str_eq status q.status.left
    then join_ub q s
    else if str_eq status q.status.kicked || str_eq status q.status.restricted
    then unban q (str_eq status q.status.kicked) s
    else join_ub q s

unfoldable pub switched : Chat → Joiner → Option String → Joiner × Joined
unfolding by_status
switched q s none = (s, join_failed "check_user_status_fail")
switched q s (some status) = by_status q s status

unfoldable pub join_assistant : Chat → Joiner → Joiner × Joined
unfolding check_user_stats switched
join_assistant q s =
    let (db, lang) = get_lang q.now q.lang_answer q.chat_id s.db in
    let (s', status) = check_user_stats q (record s { db = db }) in
    elim status [ none ↦ (s', join_failed "check_user_status_fail") | some t ↦ by_status q s' t ]
