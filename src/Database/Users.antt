-- ===== src/Database/Users.antt =====
-- src/core/db/mongo.go: the documents of users, and the language of a chat or user.
use yes.Prelude.{
  ℕ, Bool, true, false, List, [], Option, none, some, String, ℤ, pos, ltb_ℤ, eq_String,
  if◌then◌else◌,
}
use yes.Prelude.Assoc.{lookup}
use yes.Database.{
  Database, Document, Found, document, no_documents, find_failed, Status, done, db_error, text,
  to_key,
}
use yes.Database.Chats.{update_user_field, get_chat_lang, Listing, cache_empty}
use yes.TtlCache.{get, set, delete}

unfoldable pub set_user_lang : ℕ → Bool → ℤ → String → Database → Database × Status
unfolding update_user_field
set_user_lang now updated user_id lang =
    update_user_field now updated user_id "language" (text lang)

unfoldable pub language : Option Document → Option String
language none = none
language (some user) = elim (lookup "language" user) [ some (text t) ↦ some t | _ ↦ none ]

found_language : Found → String
found_language (document user) = elim (language (some user)) [ some t ↦ t | none ↦ "en" ]
found_language no_documents = "en"
found_language find_failed = "en"

-- `getUserLang`: a document that is read from MongoDB is not cached.
unfoldable pub get_user_lang : ℕ → Found → ℤ → Database → String
unfolding language found_language
get_user_lang now answer user_id db = elim (language (get now (to_key user_id) db.user_cache)) [
  | some t ↦ t
  | none ↦ found_language answer
]

unfoldable pub get_lang : ℕ → Found → ℤ → Database → Database × String
get_lang now answer chat_id db =
    if ltb_ℤ (pos 0) chat_id
    then (db, get_user_lang now answer chat_id db)
    else get_chat_lang now answer chat_id db

-- `AddUser`
unfoldable pub add_user : ℕ → Bool → ℤ → Database → Database × Status
add_user now updated user_id db = elim (get now (to_key user_id) db.user_cache) [
  | some _ ↦ (db, done)
  | none ↦
      if updated
      then (record db { user_cache = set now (to_key user_id) [] db.user_cache }, done)
      else (db, db_error)
]

-- `RemoveUser`
unfoldable pub remove_user : Bool → ℤ → Database → Database × Status
remove_user true user_id db =
    (record db { user_cache = delete (to_key user_id) db.user_cache }, done)
remove_user false user_id db = (db, db_error)

found_user : ℕ → Found → ℤ → Database → Database × Option Bool
found_user now (document user) user_id db =
    (record db { user_cache = set now (to_key user_id) [] db.user_cache }, some true)
found_user now no_documents user_id db = (db, some false)
found_user now find_failed user_id db = (db, none)

-- `IsUserExist`; `none` is the error.
unfoldable pub is_user_exist : ℕ → Found → ℤ → Database → Database × Option Bool
unfolding found_user
is_user_exist now answer user_id db = elim (get now (to_key user_id) db.user_cache) [
  | some _ ↦ (db, some true)
  | none ↦ found_user now answer user_id db
]

-- `GetAllUsers`
unfoldable pub get_all_users : ℕ → Option Listing → Database → Database × Option (List ℤ)
unfolding cache_empty
get_all_users now none db = (db, none)
get_all_users now (some l) db = (
  record db { user_cache = cache_empty now l.decoded db.user_cache },
  if l.complete then some l.decoded else none,
)
