-- ===== src/Database/Authorized.antt =====
-- src/core/db/mongo.go: the authorized users of a chat.
use yes.Prelude.{
  ℕ, Bool, true, false, List, [], ◌∷◌, ◌++◌, Option, none, some, ℤ, eq_String, if◌then◌else◌,
}
use yes.Prelude.Assoc.{lookup, insert}
use yes.AdminCache.{AdminCache, get_chat_admins}
use yes.Database.{Database, Document, Found, Status, done, db_error, panicked, ids, to_key}
use yes.Database.Chats.{get_chat}
use yes.Database.Utilities.{contains, remove, get_int_slice}
use yes.TtlCache.{set}

-- `chat["auth_users"] = users`, which panics on a nil map, and the caching of the document.
unfoldable pub store_users : ℕ → ℤ → List ℤ → Database × Option Document → Database × Status
store_users now chat_id users (db, none) = (db, panicked)
store_users now chat_id users (db, some chat) = (
  record db {
    chat_cache = set now (to_key chat_id) (insert "auth_users" (ids users) chat) db.chat_cache;
  },
  done,
)

-- `getIntSlice(chat["auth_users"])`
unfoldable pub users_of : Option Document → List ℤ
users_of none = []
users_of (some chat) = get_int_slice (lookup "auth_users" chat)

unfoldable pub with_user : ℤ → List ℤ → List ℤ
with_user user_id users = if contains users user_id then users else users ++ user_id ∷ []

unfoldable pub add_auth_user : ℕ → Bool → Found → ℤ → ℤ → Database → Database × Status
unfolding store_users users_of with_user
add_auth_user now false answer chat_id user_id db = (db, db_error)
add_auth_user now true answer chat_id user_id db =
    let (db', chat) = get_chat now answer chat_id db in
    store_users now chat_id (with_user user_id (users_of chat)) (db', chat)

unfoldable pub remove_auth_user : ℕ → Bool → Found → ℤ → ℤ → Database → Database × Status
unfolding store_users users_of
remove_auth_user now false answer chat_id user_id db = (db, db_error)
remove_auth_user now true answer chat_id user_id db =
    let (db', chat) = get_chat now answer chat_id db in
    store_users now chat_id (remove (users_of chat) user_id) (db', chat)

unfoldable pub get_auth_users : ℕ → Found → ℤ → Database → Database × List ℤ
unfolding users_of
get_auth_users now answer chat_id db =
    let (db', chat) = get_chat now answer chat_id db in (db', users_of chat)

admin_ids : Option (List ℤ) → List ℤ
admin_ids none = []
admin_ids (some admins) = admins

unfoldable pub is_admin : ℕ → ℤ → ℤ → AdminCache → Bool
unfolding admin_ids
is_admin now chat_id user_id c = contains (admin_ids (get_chat_admins now chat_id c)) user_id

unfoldable pub is_auth_user : ℕ → Found → ℤ → ℤ → AdminCache → Database → Database × Bool
unfolding admin_ids
is_auth_user now answer chat_id user_id c db =
    if contains (admin_ids (get_chat_admins now chat_id c)) user_id
    then (db, true)
    else (let (db', users) = get_auth_users now answer chat_id db in (db', contains users user_id))
