-- ===== src/Handlers/Authorization.antt =====
-- Who is authorized after the commands on the authorized users.
use yes.Prelude.{
  ℕ, ◌+◌, ◌≤◌, ◌≡◌, refl, ap, sym, ◌∙◌, Bool, true, false, ◌||◌, List, Option, none, some, String,
  ℤ, int_eq_iff, str_eq, arith, if◌then◌else◌,
}
use yes.AdminCache.{AdminCache}
use yes.Database.{Database, Document, Found, Status, done, db_error, panicked, to_key}
use yes.Database.Authorized.{
  add_auth_user, remove_auth_user, get_auth_users, is_admin, is_auth_user, store_users, with_user,
}
use yes.Database.Access.{
  contains-add_auth_user, contains-remove_auth_user, is_auth_user_lem, ttl-get_chat, users_at,
}
use yes.Database.Chats.{get_chat}
use yes.Database.Users.{get_lang}
use yes.Database.Utilities.{remove}
use yes.TtlCache.{ttl-set}
use yes.Handlers.Auth.{
  AuthRequest, target, Answer, answers, silent, get_target_user_id, add_auth_handler,
  remove_auth_handler, changed, add_unless, remove_if, add_target, remove_target,
}

-- Whether an answer says that the list has changed.
abbrev pub reports_change : Answer → Bool
reports_change (answers r) = str_eq r.key "user_authed" || str_eq r.key "user_unauthed"
reports_change _ = false

-- A report of a change comes from a change without an error.
changed-done :
    (key error : String) (user_id : ℤ) (r : Database × Status)
    → str_eq error "user_authed" ≡ false
    → str_eq error "user_unauthed" ≡ false
    → reports_change (changed key error user_id r).1 ≡ true
    → (r.1 ≡ done) × ((changed key error user_id r).0 ≡ r.0)
unfolding changed
changed-done key error user_id (db, done) a b h = (refl, refl)
changed-done key error user_id (db, db_error) a b h = absurd (ground (arith, a, b, h))
changed-done key error user_id (db, panicked) a b h = absurd (ground (arith, h))

ttl-store_users :
    (now : ℕ) (chat_id : ℤ) (l : List ℤ) (r : Database × Option Document)
    → (store_users now chat_id l r).0.chat_cache.ttl ≡ r.0.chat_cache.ttl
unfolding store_users
ttl-store_users now chat_id l (db, none) = refl
ttl-store_users now chat_id l (db, some chat) = ttl-set now (to_key chat_id) _ db.chat_cache

module _ (now later : ℕ) (answer again : Found) (chat_id user_id : ℤ) (c : AdminCache) where
  authorized-add :
      (updated : Bool) (db : Database)
      → (add_auth_user now updated answer chat_id user_id db).1 ≡ done
      → later ≤ now + (add_auth_user now updated answer chat_id user_id db).0.chat_cache.ttl
      → (is_auth_user later again chat_id user_id c
          (add_auth_user now updated answer chat_id user_id db).0).1
        ≡ true
  unfolding add_auth_user get_auth_users
  authorized-add false db ok soon = absurd (ground (arith, ok))
  authorized-add true db ok soon =
      let db' = (add_auth_user now true answer chat_id user_id db).0 in
      let same =
        ttl-store_users now chat_id (with_user user_id (users_at now answer chat_id db))
          (get_chat now answer chat_id db)
        ∙ ttl-get_chat now answer chat_id db in
      let listed =
        contains-add_auth_user now later answer again chat_id user_id user_id db ok
          (omega (arith, soon, same)) in
      is_auth_user_lem later again chat_id user_id c db'
      ∙ ap (λ x. is_admin later chat_id user_id c || x) listed
      ∙ ground (arith, int_eq_iff user_id user_id)

  authorized-remove :
      (updated : Bool) (db : Database)
      → (remove_auth_user now updated answer chat_id user_id db).1 ≡ done
      → later ≤ now + (remove_auth_user now updated answer chat_id user_id db).0.chat_cache.ttl
      → (is_auth_user later again chat_id user_id c
          (remove_auth_user now updated answer chat_id user_id db).0).1
        ≡ is_admin later chat_id user_id c
  unfolding remove_auth_user get_auth_users
  authorized-remove false db ok soon = absurd (ground (arith, ok))
  authorized-remove true db ok soon =
      let db' = (remove_auth_user now true answer chat_id user_id db).0 in
      let same =
        ttl-store_users now chat_id (remove (users_at now answer chat_id db) user_id)
          (get_chat now answer chat_id db)
        ∙ ttl-get_chat now answer chat_id db in
      let listed =
        contains-remove_auth_user now later answer again chat_id user_id user_id db ok
          (omega (arith, soon, same)) in
      is_auth_user_lem later again chat_id user_id c db'
      ∙ ap (λ x. is_admin later chat_id user_id c || x) listed
      ∙ ground (arith, int_eq_iff user_id user_id)

module _ (q : AuthRequest) (c : AdminCache) (later : ℕ) (again : Found) (user_id : ℤ) where
  -- Whether the user is authorized in the chat at a later time.
  abbrev pub is_authorized : Database → Bool
  is_authorized db = (is_auth_user later again q.chat_id user_id c db).1

  authorized-add_unless :
      (known : Bool) (db : Database)
      → let r = add_unless q user_id (db, known) in
        reports_change r.1 ≡ true → later ≤ q.now + r.0.chat_cache.ttl → is_authorized r.0 ≡ true
  unfolding add_unless
  authorized-add_unless true db h soon = absurd (ground (arith, h))
  authorized-add_unless false db h soon =
      let r = add_auth_user q.now q.updated q.change_answer q.chat_id user_id db in
      let d = changed-done "user_authed" "add_auth_error" user_id r refl refl h in
      ap is_authorized d.1
      ∙ authorized-add q.now later q.change_answer again q.chat_id user_id c q.updated db d.0
          (omega (arith, soon, ap (λ x. x.chat_cache.ttl) d.1))

  authorized-remove_if :
      (known : Bool) (db : Database)
      → let r = remove_if q user_id (db, known) in
        reports_change r.1 ≡ true
        → later ≤ q.now + r.0.chat_cache.ttl
        → is_authorized r.0 ≡ is_admin later q.chat_id user_id c
  unfolding remove_if
  authorized-remove_if false db h soon = absurd (ground (arith, h))
  authorized-remove_if true db h soon =
      let r = remove_auth_user q.now q.updated q.change_answer q.chat_id user_id db in
      let d = changed-done "user_unauthed" "remove_auth_error" user_id r refl refl h in
      ap is_authorized d.1
      ∙ authorized-remove q.now later q.change_answer again q.chat_id user_id c q.updated db d.0
          (omega (arith, soon, ap (λ x. x.chat_cache.ttl) d.1))

if_public :
    (is_private : Bool) (db : Database) (x : Database × Answer)
    → reports_change (if is_private then (db, silent) else x).1 ≡ true
    → (if is_private then (db, silent) else x) ≡ x
if_public true db x h = absurd (ground (arith, h))
if_public false db x h = refl

-- If /addauth for a user reports that the list has changed, then the user is authorized in the chat until the
-- cached document expires.
pub authorized-add_auth_handler :
    (q : AuthRequest) (c : AdminCache) (later : ℕ) (again : Found) (user_id : ℤ) (db : Database)
    → get_target_user_id q ≡ target user_id
    → reports_change (add_auth_handler q c db).1 ≡ true
    → later ≤ q.now + (add_auth_handler q c db).0.chat_cache.ttl
    → is_authorized q c later again user_id (add_auth_handler q c db).0 ≡ true
unfolding add_auth_handler add_target
authorized-add_auth_handler q c later again user_id db e h soon =
    let db' = (get_lang q.now q.lang_answer q.chat_id db).0 in
    let (d, known) = is_auth_user q.now q.auth_answer q.chat_id user_id c db' in
    let same =
      if_public q.is_private db (add_target q c db' (get_target_user_id q)) h
      ∙ ap (add_target q c db') e in
    ap (λ r. is_authorized q c later again user_id r.0) same
    ∙ authorized-add_unless q c later again user_id known d
        (sym (ap (λ r. reports_change r.1) same) ∙ h)
        (omega (arith, soon, ap (λ r. r.0.chat_cache.ttl) same))

-- If /removeauth for a user reports that the list has changed, then until the cached document expires the user is
-- authorized in the chat exactly if the cache of administrators lists the user: an administrator stays
-- authorized.
pub authorized-remove_auth_handler :
    (q : AuthRequest) (c : AdminCache) (later : ℕ) (again : Found) (user_id : ℤ) (db : Database)
    → get_target_user_id q ≡ target user_id
    → reports_change (remove_auth_handler q c db).1 ≡ true
    → later ≤ q.now + (remove_auth_handler q c db).0.chat_cache.ttl
    → is_authorized q c later again user_id (remove_auth_handler q c db).0
      ≡ is_admin later q.chat_id user_id c
unfolding remove_auth_handler remove_target
authorized-remove_auth_handler q c later again user_id db e h soon =
    let db' = (get_lang q.now q.lang_answer q.chat_id db).0 in
    let (d, known) = is_auth_user q.now q.auth_answer q.chat_id user_id c db' in
    let same =
      if_public q.is_private db (remove_target q c db' (get_target_user_id q)) h
      ∙ ap (remove_target q c db') e in
    ap (λ r. is_authorized q c later again user_id r.0) same
    ∙ authorized-remove_if q c later again user_id known d
        (sym (ap (λ r. reports_change r.1) same) ∙ h)
        (omega (arith, soon, ap (λ r. r.0.chat_cache.ttl) same))
