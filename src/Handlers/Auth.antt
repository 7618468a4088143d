-- ===== src/Handlers/Auth.antt =====
-- src/handlers/auth.go: the commands on the authorized users of a chat.
use yes.Prelude.{
  ℕ, Bool, true, false, not, [], ◌∷◌, Option, none, some, String, ℤ, pos, int_eq, str_eq,
  if◌then◌else◌,
}
use yes.AdminCache.{AdminCache}
use yes.Database.{Database, Found, Status, done, db_error, panicked}
use yes.Database.Authorized.{add_auth_user, remove_auth_user, get_auth_users, is_auth_user}
use yes.Database.Users.{get_lang}
use yes.Handlers.{Reply, says, says_with}

-- A message with a command, and what Telegram and MongoDB answer while it is handled. `reply_sender` is the sender of
-- the message that it replies to, and `resolved` whom the argument names, a user or something else;
-- `none` is an error.
pub record AuthRequest : Type 0 where
  pub now : ℕ
  pub chat_id : ℤ
  pub sender_id : ℤ
  pub is_private : Bool
  pub is_reply : Bool
  pub reply_sender : Option ℤ
  pub args : String
  pub resolved : Option (Option ℤ)
  pub lang_answer : Found
  pub auth_answer : Found
  pub change_answer : Found
  pub updated : Bool

pub data Target : Type 0 where
  target : ℤ → Target
  refused : String → Target

pub data Answer : Type 0 where
  answers : Reply → Answer
  silent panics : Answer

checked_target : AuthRequest → ℤ → Target
checked_target q user_id =
    if int_eq user_id (pos 0)
    then refused "auth_no_user_specified"
    else if int_eq q.sender_id user_id
    then refused "auth_action_on_self"
    else target user_id

replied_target : AuthRequest → Option ℤ → Target
replied_target q none = refused "reply"
replied_target q (some user_id) = checked_target q user_id

named_target : AuthRequest → Option (Option ℤ) → Target
named_target q none = refused "resolve"
named_target q (some none) = refused "auth_user_not_found"
named_target q (some (some user_id)) = checked_target q user_id

unfoldable pub get_target_user_id : AuthRequest → Target
unfolding checked_target replied_target named_target
get_target_user_id q =
    if q.is_reply
    then replied_target q q.reply_sender
    else if not (str_eq q.args "")
    then named_target q q.resolved
    else checked_target q (pos 0)

unfoldable pub auth_list_handler : AuthRequest → Database → Database × Answer
auth_list_handler q db =
    if q.is_private
    then (db, silent)
    else (let (db', users) =
          get_auth_users q.now q.auth_answer q.chat_id
            (get_lang q.now q.lang_answer q.chat_id db).0 in
        (
          db',
          elim users [
            | [] ↦ answers (says "no_auth_users")
            | user_id ∷ more ↦ answers (says_with "auth_users_list" (user_id ∷ more))
          ],
        ))

-- The reply to a change of the list.
unfoldable pub changed : String → String → ℤ → Database × Status → Database × Answer
changed key error user_id (db, done) = (db, answers (says_with key (user_id ∷ [])))
changed key error user_id (db, db_error) = (db, answers (says error))
changed key error user_id (db, panicked) = (db, panics)

-- The list is changed unless the user is authorized, or unless not.
unfoldable pub add_unless : AuthRequest → ℤ → Database × Bool → Database × Answer
unfolding changed
add_unless q user_id (db, true) = (db, answers (says "user_already_authed"))
add_unless q user_id (db, false) =
    changed "user_authed" "add_auth_error" user_id
      (add_auth_user q.now q.updated q.change_answer q.chat_id user_id db)

unfoldable pub remove_if : AuthRequest → ℤ → Database × Bool → Database × Answer
unfolding changed
remove_if q user_id (db, false) = (db, answers (says "user_not_authed"))
remove_if q user_id (db, true) =
    changed "user_unauthed" "remove_auth_error" user_id
      (remove_auth_user q.now q.updated q.change_answer q.chat_id user_id db)

unfoldable pub add_target : AuthRequest → AdminCache → Database → Target → Database × Answer
unfolding add_unless
add_target q c db (refused error) = (db, answers (says error))
add_target q c db (target user_id) =
    add_unless q user_id (is_auth_user q.now q.auth_answer q.chat_id user_id c db)

unfoldable pub remove_target : AuthRequest → AdminCache → Database → Target → Database × Answer
unfolding remove_if
remove_target q c db (refused error) = (db, answers (says error))
remove_target q c db (target user_id) =
    remove_if q user_id (is_auth_user q.now q.auth_answer q.chat_id user_id c db)

unfoldable pub add_auth_handler : AuthRequest → AdminCache → Database → Database × Answer
unfolding changed add_unless add_target
add_auth_handler q c db =
    if q.is_private
    then (db, silent)
    else add_target q c (get_lang q.now q.lang_answer q.chat_id db).0 (get_target_user_id q)

unfoldable pub remove_auth_handler : AuthRequest → AdminCache → Database → Database × Answer
unfolding changed remove_if remove_target
remove_auth_handler q c db =
    if q.is_private
    then (db, silent)
    else remove_target q c (get_lang q.now q.lang_answer q.chat_id db).0 (get_target_user_id q)
