-- ===== src/Database/Access.antt =====
-- Who counts as authorized in a chat after a change of its list, and when a change panics.
use yes.Prelude.{
  ℕ, ◌+◌, ◌≤◌, ◌≡◌, Bool, true, false, not, ◌&&◌, ◌||◌, List, [], ◌∷◌, ◌++◌, Option, none, some, ℤ,
  int_eq, int_eq_iff, eq_String, str_eq_refl, arith, if◌then◌else◌,
}
use yes.Prelude.Assoc.{insert, lookup-insert}
use yes.AdminCache.{AdminCache}
use yes.Database.{
  Database, Document, Found, document, no_documents, find_failed, done, panicked, ids, to_key,
}
use yes.Database.Authorized.{
  users_of, with_user, store_users, add_auth_user, remove_auth_user, get_auth_users, is_admin,
  is_auth_user,
}
use yes.Database.Chats.{get_chat}
use yes.Database.Settings.{cached_chat, get_chat_hit, get-set_soon}
use yes.Database.Utilities.{contains, remove, get_int_slice, contains-remove}
use yes.TtlCache.{set, ttl-set}

contains-append_one :
    (l : List ℤ) (id j : ℤ) → contains (l ++ id ∷ []) j ≡ (contains l j || int_eq id j)
unfolding contains
contains-append_one [] id j = ground arith
contains-append_one (v ∷ l) id j = ground (arith, contains-append_one l id j)

contains-with_user :
    (id j : ℤ) (l : List ℤ) → contains (with_user id l) j ≡ (contains l j || int_eq id j)
unfolding with_user
contains-with_user id j l = ground (arith, contains-append_one l id j, int_eq_iff id j)

pub ttl-get_chat :
    (now : ℕ) (answer : Found) (chat_id : ℤ) (db : Database)
    → (get_chat now answer chat_id db).0.chat_cache.ttl ≡ db.chat_cache.ttl
unfolding get_chat
ttl-get_chat now (document chat) chat_id db =
    ground (arith, ttl-set now (to_key chat_id) chat db.chat_cache)
ttl-get_chat now no_documents chat_id db = ground arith
ttl-get_chat now find_failed chat_id db = ground arith

users_of-insert :
    (l : List ℤ) (chat : Document) → users_of (some (insert "auth_users" (ids l) chat)) ≡ l
unfolding users_of get_int_slice
users_of-insert l chat =
    ground (arith, lookup-insert "auth_users" "auth_users" (ids l) chat, str_eq_refl "auth_users")

-- The users of a chat, as far as `getChat` knows them at the moment of a call.
abbrev pub users_at : ℕ → Found → ℤ → Database → List ℤ
users_at now answer chat_id db = users_of (get_chat now answer chat_id db).1

-- A stored list is read back until it expires, if the store did not panic.
users-store_users :
    (now later : ℕ) (again : Found) (chat_id : ℤ) (l : List ℤ) (db : Database)
    (chat : Option Document)
    → (store_users now chat_id l (db, chat)).1 ≡ done
    → later ≤ now + db.chat_cache.ttl
    → (get_auth_users later again chat_id (store_users now chat_id l (db, chat)).0).1 ≡ l
unfolding store_users get_auth_users
users-store_users now later again chat_id l db none ok soon = cc
users-store_users now later again chat_id l db (some chat) ok soon =
    let chat' = insert "auth_users" (ids l) chat in
    let c = set now (to_key chat_id) chat' db.chat_cache in
    rw
      (get_chat_hit later again chat_id chat' (record db { chat_cache = c })
        (get-set_soon now later chat_id chat' db.chat_cache soon))
      (users_of-insert l chat)

-- After `AddAuthUser` has ended without an error, the authorized users are those of before and the
-- added one, until the cached document expires.
pub contains-add_auth_user :
    (now later : ℕ) (answer again : Found) (chat_id user_id j : ℤ) (db : Database)
    → (add_auth_user now true answer chat_id user_id db).1 ≡ done
    → later ≤ now + db.chat_cache.ttl
    → contains
        (get_auth_users later again chat_id (add_auth_user now true answer chat_id user_id db).0).1
        j
      ≡ (contains (users_at now answer chat_id db) j || int_eq user_id j)
unfolding add_auth_user
contains-add_auth_user now later answer again chat_id user_id j db ok soon =
    let l = with_user user_id (users_at now answer chat_id db) in
    rw
      (users-store_users now later again chat_id l (get_chat now answer chat_id db).0
        (get_chat now answer chat_id db).1 ok (omega (arith, ttl-get_chat now answer chat_id db)))
      (contains-with_user user_id j (users_at now answer chat_id db))

-- After `RemoveAuthUser` has ended without an error, the authorized users are those of before without
-- the removed one, until the cached document expires.
pub contains-remove_auth_user :
    (now later : ℕ) (answer again : Found) (chat_id user_id j : ℤ) (db : Database)
    → (remove_auth_user now true answer chat_id user_id db).1 ≡ done
    → later ≤ now + db.chat_cache.ttl
    → contains
        (get_auth_users later again chat_id
          (remove_auth_user now true answer chat_id user_id db).0).1
        j
      ≡ (not (int_eq user_id j) && contains (users_at now answer chat_id db) j)
unfolding remove_auth_user
contains-remove_auth_user now later answer again chat_id user_id j db ok soon =
    let l = remove (users_at now answer chat_id db) user_id in
    rw
      (users-store_users now later again chat_id l (get_chat now answer chat_id db).0
        (get_chat now answer chat_id db).1 ok (omega (arith, ttl-get_chat now answer chat_id db)))
      (contains-remove (users_at now answer chat_id db) user_id j)

abbrev pub is_document : Found → Bool
is_document (document chat) = true
is_document no_documents = false
is_document find_failed = false

abbrev pub has_document : Option Document → Bool
has_document none = false
has_document (some chat) = true

abbrev pub is_failed : Found → Bool
is_failed find_failed = true
is_failed _ = false

-- Whether there is no document of the chat.
abbrev pub is_absent : Found → Bool
is_absent no_documents = true
is_absent _ = false

-- When MongoDB has made the change, `RemoveAuthUser`, which creates no document, panics exactly when the
-- chat's document is not cached and is not found in MongoDB afterwards, be it that there is none or that the
-- question fails. `AddAuthUser` has created the document, so that it is not absent afterwards: it panics
-- exactly when the document is not cached and the question for it fails. Otherwise both end without an error.
pub auth_user_panics :
    (now : ℕ) (answer created : Found) (chat_id user_id : ℤ) (db : Database)
    → is_absent created ≡ false
    → ((remove_auth_user now true answer chat_id user_id db).1 ≡ (
        if has_document (cached_chat now chat_id db) || is_document answer then done else panicked))
      × ((add_auth_user now true created chat_id user_id db).1 ≡ (
          if has_document (cached_chat now chat_id db) || not (is_failed created)
          then done
          else panicked))
unfolding add_auth_user remove_auth_user get_chat
auth_user_panics now answer (document chat) chat_id user_id db present = ground arith
auth_user_panics now answer no_documents chat_id user_id db present = ground (arith, present)
auth_user_panics now answer find_failed chat_id user_id db present = ground arith

-- A user whom the cache of administrators lists is an authorized user; any other is one exactly when
-- the chat's list holds the user.
pub is_auth_user_lem :
    (now : ℕ) (answer : Found) (chat_id user_id : ℤ) (c : AdminCache) (db : Database)
    → (is_auth_user now answer chat_id user_id c db).1
      ≡ (is_admin now chat_id user_id c || contains (users_at now answer chat_id db) user_id)
unfolding is_auth_user is_admin get_auth_users
is_auth_user_lem now answer chat_id user_id c db = ground arith
