-- ===== src/Database/Language.antt =====
-- The language of a chat or a user, and the existence of a user, after a write.
use yes.Prelude.{
  ℕ, ◌+◌, ◌≤◌, ◌≡◌, true, some, String, ℤ, pos, ltb_ℤ, eq_String, str_eq_refl, arith, if◌then◌else◌,
}
use yes.Prelude.Assoc.{insert, lookup-insert}
use yes.Database.{Database, Document, Found, text, to_key}
use yes.Database.Chats.{copied, set_chat_lang}
use yes.Database.Settings.{get-set_soon, settings_read_back}
use yes.Database.Users.{set_user_lang, get_user_lang, get_lang, language}
use yes.TtlCache.{get}

-- The language that the bot sets for an id: of a user if the id is positive, and of a chat otherwise.
abbrev pub set_lang : ℕ → ℤ → String → Database → Database
set_lang now id lang db =
    if ltb_ℤ (pos 0) id
    then (set_user_lang now true id lang db).0
    else (set_chat_lang now true id lang db).0

language-insert :
    (t : String) (d : Document) → language (some (insert "language" (text t) d)) ≡ some t
unfolding language
language-insert t d =
    ground (arith, lookup-insert "language" "language" (text t) d, str_eq_refl "language")

get_user_lang-set_user_lang :
    (now later : ℕ) (answer : Found) (id : ℤ) (lang : String) (db : Database)
    → later ≤ now + db.user_cache.ttl
    → get_user_lang later answer id (set_user_lang now true id lang db).0 ≡ lang
unfolding get_user_lang set_user_lang
get_user_lang-set_user_lang now later answer id lang db soon =
    let d = copied (get now (to_key id) db.user_cache) in
    ground (
      arith,
      get-set_soon now later id (insert "language" (text lang) d) db.user_cache soon,
      language-insert lang d,
    )

-- `GetLang` returns the language that was set, for a user as for a chat, until the cached document
-- expires, whatever MongoDB answers.
pub get_lang-set_lang :
    (now later : ℕ) (answer : Found) (id : ℤ) (lang : String) (db : Database)
    → later ≤ now + db.user_cache.ttl
    → later ≤ now + db.chat_cache.ttl
    → (get_lang later answer id (set_lang now id lang db)).1 ≡ lang
unfolding get_lang
get_lang-set_lang now later answer id lang db soon soon' = ground (
  arith,
  get_user_lang-set_user_lang now later answer id lang db soon,
  (settings_read_back now later answer id lang db soon').3,
)
