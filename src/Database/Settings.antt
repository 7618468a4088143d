-- ===== src/Database/Settings.antt =====
-- What a reader of a chat's settings sees after a write, and which writes make it see the defaults.
use yes.Prelude.{
  str_eq_refl, ℕ, ◌+◌, ◌≤◌, ◌≡◌, refl, true, List, [], ◌∷◌, Option, none, some, String, ℤ, pos,
  eq_String, eq_iff, arith, if◌then◌else◌,
}
use yes.Prelude.Assoc.{lookup, insert, lookup-insert}
use yes.Prelude.Decimal.{eq-format}
use yes.Track.{everyone}
use yes.Database.{Database, Document, Found, Value, text, go_int_value, to_key}
use yes.Database.Chats.{
  get_chat, copied, update_chat_field, text_field, get_play_type, set_play_type, get_play_mode,
  set_play_mode, get_admin_mode, set_admin_mode, get_assistant, set_assistant, get_chat_lang,
  set_chat_lang, Listing, cache_empty, get_all_chats,
}
use yes.Database.Authorized.{get_auth_users}
use yes.Database.Utilities.{contains, get_int_slice}
use yes.TtlCache.{Cache, get, set, get-set, ttl-set}

-- The chat's document in the cache, if it has not expired.
abbrev pub cached_chat : ℕ → ℤ → Database → Option Document
cached_chat now chat_id db = get now (to_key chat_id) db.chat_cache

pub get_chat_hit :
    (now : ℕ) (answer : Found) (chat_id : ℤ) (chat : Document) (db : Database)
    → cached_chat now chat_id db ≡ some chat
    → get_chat now answer chat_id db ≡ (db, some chat)
unfolding get_chat
get_chat_hit now answer chat_id chat db e = ground arith

-- An entry is read back until it expires.
pub get-set_soon :
    (now later : ℕ) (id : ℤ) (chat : Document) (c : Cache Document)
    → later ≤ now + c.ttl
    → get later (to_key id) (set now (to_key id) chat c) ≡ some chat
get-set_soon now later id chat c soon = ground (
  arith,
  get-set now later (to_key id) (to_key id) chat c,
  eq_iff (to_key id) (to_key id),
  str_eq_refl (to_key id),
)

-- The document that is cached after a successful write of a field.
abbrev written : ℕ → ℤ → String → Value → Database → Document
written now chat_id key value db = insert key value (copied (cached_chat now chat_id db))

pub cached-update_chat_field :
    (now later : ℕ) (chat_id : ℤ) (key : String) (value : Value) (db : Database)
    → later ≤ now + db.chat_cache.ttl
    → cached_chat later chat_id (update_chat_field now true chat_id key value db).0
      ≡ some (written now chat_id key value db)
unfolding update_chat_field
cached-update_chat_field now later chat_id key value db soon =
    get-set_soon now later chat_id (written now chat_id key value db) db.chat_cache soon

lookup-insert_self :
    (key : String) (value : Value) (chat : Document)
    → lookup key (insert key value chat) ≡ some value
lookup-insert_self key value chat = rw (lookup-insert, str_eq_refl)

-- A text field that was written is read back.
text_field-written :
    (now : ℕ) (chat_id : ℤ) (key default t : String) (db : Database)
    → text_field key default (some (written now chat_id key (text t) db)) ≡ t
unfolding text_field
text_field-written now chat_id key default t db =
    ground (arith, lookup-insert_self key (text t) (copied (cached_chat now chat_id db)))

read_text :
    (now later : ℕ) (answer : Found) (chat_id : ℤ) (key default t : String) (db : Database)
    → later ≤ now + db.chat_cache.ttl
    → text_field key default
        (get_chat later answer chat_id (update_chat_field now true chat_id key (text t) db).0).1
      ≡ t
read_text now later answer chat_id key default t db soon =
    rw
      (get_chat_hit later answer chat_id (written now chat_id key (text t) db)
        (update_chat_field now true chat_id key (text t) db).0
        (cached-update_chat_field now later chat_id key (text t) db soon))
      (text_field-written now chat_id key default t db)

-- A mode, an assistant or a language that a chat is given is what the chat's readers return until the
-- cached document expires, whatever MongoDB answers.
pub settings_read_back :
    (now later : ℕ) (answer : Found) (chat_id : ℤ) (t : String) (db : Database)
    → later ≤ now + db.chat_cache.ttl
    → ((get_play_mode later answer chat_id (set_play_mode now true chat_id t db).0).1 ≡ t)
      × ((get_admin_mode later answer chat_id (set_admin_mode now true chat_id t db).0).1 ≡ t)
      × ((get_assistant later answer chat_id (set_assistant now true chat_id t db).0).1 ≡ t)
      × ((get_chat_lang later answer chat_id (set_chat_lang now true chat_id t db).0).1 ≡ t)
unfolding set_play_mode get_play_mode set_admin_mode get_admin_mode set_assistant get_assistant
    set_chat_lang get_chat_lang
settings_read_back now later answer chat_id t db soon = (
  read_text now later answer chat_id "play_mode" everyone t db soon,
  read_text now later answer chat_id "admin_mode" everyone t db soon,
  read_text now later answer chat_id "assistant" "" t db soon,
  read_text now later answer chat_id "language" "en" t db soon,
)

-- The play type that a chat is given is not what its reader returns: until the cached document expires
-- `GetPlayType` returns 0, because the cache holds an `int` where the reader asserts an `int32`.
pub get_play_type-set_play_type :
    (now later : ℕ) (answer : Found) (chat_id play_type : ℤ) (db : Database)
    → later ≤ now + db.chat_cache.ttl
    → (get_play_type later answer chat_id (set_play_type now true chat_id play_type db).0).1 ≡ pos 0
unfolding get_play_type set_play_type
get_play_type-set_play_type now later answer chat_id play_type db soon = ground (
  arith,
  get_chat_hit later answer chat_id (written now chat_id "play_type" (go_int_value play_type) db)
      (update_chat_field now true chat_id "play_type" (go_int_value play_type) db).0
      (cached-update_chat_field now later chat_id "play_type" (go_int_value play_type) db soon),
  lookup-insert_self "play_type" (go_int_value play_type) (copied (cached_chat now chat_id db)),
)

-- A SetPlayType on a chat whose document is not cached makes the play mode, the admin mode, the assistant, the
-- language and the authorized users of the chat read as their defaults until the new document expires, whatever
-- MongoDB holds.
pub settings_lost :
    (now later : ℕ) (answer : Found) (chat_id play_type : ℤ) (db : Database)
    → cached_chat now chat_id db ≡ none
    → later ≤ now + db.chat_cache.ttl
    → ((get_play_mode later answer chat_id (set_play_type now true chat_id play_type db).0).1
        ≡ everyone)
      × ((get_admin_mode later answer chat_id (set_play_type now true chat_id play_type db).0).1
          ≡ everyone)
      × ((get_assistant later answer chat_id (set_play_type now true chat_id play_type db).0).1
          ≡ "")
      × ((get_chat_lang later answer chat_id (set_play_type now true chat_id play_type db).0).1
          ≡ "en")
      × ((get_auth_users later answer chat_id (set_play_type now true chat_id play_type db).0).1
          ≡ [])
unfolding get_play_mode get_admin_mode get_assistant get_chat_lang get_auth_users set_play_type
    copied lookup insert get_int_slice
settings_lost now later answer chat_id play_type db miss soon = ground (
  arith,
  get_chat_hit later answer chat_id (written now chat_id "play_type" (go_int_value play_type) db)
      (update_chat_field now true chat_id "play_type" (go_int_value play_type) db).0
      (cached-update_chat_field now later chat_id "play_type" (go_int_value play_type) db soon),
)

-- The chats that a listing has decoded are cached with an empty document.
cached-cache_empty :
    (now later : ℕ) (ids : List ℤ) (j : ℤ) (c : Cache Document)
    → later ≤ now + c.ttl
    → get later (to_key j) (cache_empty now ids c)
      ≡ (if contains ids j then some [] else get later (to_key j) c)
unfolding cache_empty contains
cached-cache_empty now later [] j c soon = refl
cached-cache_empty now later (id ∷ ids) j c soon = ground (
  arith,
  eq-format id j,
  ttl-set now (to_key id) [] c,
  get-set now later (to_key id) (to_key j) [] c,
  cached-cache_empty now later ids j (set now (to_key id) [] c),
)

-- After `GetAllChats` every chat of its listing has default settings and no authorized users until the
-- cached empty document expires, whatever MongoDB holds.
pub settings_reset :
    (now later : ℕ) (answer : Found) (l : Listing) (chat_id : ℤ) (db : Database)
    → contains l.decoded chat_id ≡ true
    → later ≤ now + db.chat_cache.ttl
    → ((get_play_mode later answer chat_id (get_all_chats now (some l) db).0).1 ≡ everyone)
      × ((get_admin_mode later answer chat_id (get_all_chats now (some l) db).0).1 ≡ everyone)
      × ((get_chat_lang later answer chat_id (get_all_chats now (some l) db).0).1 ≡ "en")
      × ((get_auth_users later answer chat_id (get_all_chats now (some l) db).0).1 ≡ [])
unfolding get_play_mode get_admin_mode get_chat_lang get_auth_users get_all_chats lookup
    get_int_slice
settings_reset now later answer l chat_id db listed soon = ground (
  arith,
  get_chat_hit later answer chat_id [] (get_all_chats now (some l) db).0,
  cached-cache_empty now later l.decoded chat_id db.chat_cache soon,
)
