-- ===== src/Database/Chats.antt =====
-- src/core/db/mongo.go: the documents of chats and the methods that read and write one field.
use Prim.Native.Nat.{ℕ}
use yes.Prelude.{
  Bool, true, false, List, [], ◌∷◌, Option, none, some, String, ℤ, pos, eq_String, if◌then◌else◌,
}
use yes.Prelude.Assoc.{lookup, insert}
use yes.Database.{
  Database, Document, Found, document, no_documents, find_failed, Status, done, db_error, Value,
  text, int_32_value, go_int_value, to_key,
}
use yes.TtlCache.{Cache, get, set, delete}
use yes.Track.{everyone}

-- `getChat` after a miss in the cache. The `nil` map is `none`, with or without an error.
fetch_chat : ℕ → Found → ℤ → Database → Database × Option Document
fetch_chat now (document chat) chat_id db =
    (record db { chat_cache = set now (to_key chat_id) chat db.chat_cache }, some chat)
fetch_chat now no_documents chat_id db = (db, none)
fetch_chat now find_failed chat_id db = (db, none)

unfoldable pub get_chat : ℕ → Found → ℤ → Database → Database × Option Document
unfolding fetch_chat
get_chat now answer chat_id db = elim (get now (to_key chat_id) db.chat_cache) [
  | some cached ↦ (db, some cached)
  | none ↦ fetch_chat now answer chat_id db
]

unfoldable pub add_chat : ℕ → Found → Bool → ℤ → Database → Database × Status
unfolding get_chat
add_chat now answer updated chat_id db =
    let (db', chat) = get_chat now answer chat_id db in
    elim chat [ some _ ↦ (db', done) | none ↦ (db', if updated then done else db_error) ]

-- A copy of the cached document, or an empty one.
unfoldable pub copied : Option Document → Document
copied none = []
copied (some cached) = cached

-- The cache after `updateChatField` or `updateUserField`, which are one code on two caches.
unfoldable pub updated_cache : ℕ → ℤ → String → Value → Cache Document → Cache Document
updated_cache now id key value c =
    set now (to_key id) (insert key value (copied (get now (to_key id) c))) c

unfoldable pub update_chat_field : ℕ → Bool → ℤ → String → Value → Database → Database × Status
unfolding updated_cache copied
update_chat_field now false chat_id key value db = (db, db_error)
update_chat_field now true chat_id key value db =
    (record db { chat_cache = updated_cache now chat_id key value db.chat_cache }, done)

unfoldable pub update_user_field : ℕ → Bool → ℤ → String → Value → Database → Database × Status
unfolding updated_cache copied
update_user_field now false user_id key value db = (db, db_error)
update_user_field now true user_id key value db =
    (record db { user_cache = updated_cache now user_id key value db.user_cache }, done)

-- The field of a document, asserted to be an `int32`, or 0.
unfoldable pub int_32_field : String → Option Document → ℤ
int_32_field key none = pos 0
int_32_field key (some chat) = elim (lookup key chat) [ some (int_32_value n) ↦ n | _ ↦ pos 0 ]

-- The field of a document, asserted to be a text, or a default.
unfoldable pub text_field : String → String → Option Document → String
text_field key default none = default
text_field key default (some chat) = elim (lookup key chat) [ some (text t) ↦ t | _ ↦ default ]

-- The methods that set a field and their readers, which go through `getChat`.
unfoldable pub get_play_type : ℕ → Found → ℤ → Database → Database × ℤ
unfolding int_32_field
get_play_type now answer chat_id db =
    let (db', chat) = get_chat now answer chat_id db in (db', int_32_field "play_type" chat)

unfoldable pub set_play_type : ℕ → Bool → ℤ → ℤ → Database → Database × Status
unfolding update_chat_field
set_play_type now updated chat_id play_type =
    update_chat_field now updated chat_id "play_type" (go_int_value play_type)

unfoldable pub get_play_mode : ℕ → Found → ℤ → Database → Database × String
unfolding text_field
get_play_mode now answer chat_id db =
    let (db', chat) = get_chat now answer chat_id db in (db', text_field "play_mode" everyone chat)

unfoldable pub set_play_mode : ℕ → Bool → ℤ → String → Database → Database × Status
unfolding update_chat_field
set_play_mode now updated chat_id play_mode =
    update_chat_field now updated chat_id "play_mode" (text play_mode)

unfoldable pub get_admin_mode : ℕ → Found → ℤ → Database → Database × String
unfolding text_field
get_admin_mode now answer chat_id db =
    let (db', chat) = get_chat now answer chat_id db in (db', text_field "admin_mode" everyone chat)

unfoldable pub set_admin_mode : ℕ → Bool → ℤ → String → Database → Database × Status
unfolding update_chat_field
set_admin_mode now updated chat_id admin_mode =
    update_chat_field now updated chat_id "admin_mode" (text admin_mode)

unfoldable pub get_assistant : ℕ → Found → ℤ → Database → Database × String
unfolding text_field
get_assistant now answer chat_id db =
    let (db', chat) = get_chat now answer chat_id db in (db', text_field "assistant" "" chat)

unfoldable pub set_assistant : ℕ → Bool → ℤ → String → Database → Database × Status
unfolding update_chat_field
set_assistant now updated chat_id assistant =
    update_chat_field now updated chat_id "assistant" (text assistant)

unfoldable pub remove_assistant : ℕ → Bool → ℤ → Database → Database × Status
unfolding update_chat_field
remove_assistant now updated chat_id = update_chat_field now updated chat_id "assistant" (text "")

unfoldable pub set_chat_lang : ℕ → Bool → ℤ → String → Database → Database × Status
unfolding update_chat_field
set_chat_lang now updated chat_id lang =
    update_chat_field now updated chat_id "language" (text lang)

unfoldable pub get_chat_lang : ℕ → Found → ℤ → Database → Database × String
unfolding text_field
get_chat_lang now answer chat_id db =
    let (db', chat) = get_chat now answer chat_id db in (db', text_field "language" "en" chat)

-- The loop of `ClearAllAssistants` that drops the cached documents.
delete_all : List ℤ → Cache Document → Cache Document
delete_all [] c = c
delete_all (chat_id ∷ chat_ids) c = delete_all chat_ids (delete (to_key chat_id) c)

-- `ClearAllAssistants`: the ids of the chats that have the field, if `Find` succeeds, and the number of
-- chats that `UpdateMany` changed, if it does.
unfoldable pub clear_all_assistants : Option (List ℤ) → Option ℕ → Database → Database × Option ℕ
unfolding delete_all
clear_all_assistants none modified db = (db, none)
clear_all_assistants (some chat_ids) none db = (db, none)
clear_all_assistants (some chat_ids) (some modified) db =
    (record db { chat_cache = delete_all chat_ids db.chat_cache }, some modified)

-- What a cursor yields: the ids that it decodes before it ends, and whether it ends without an error.
pub record Listing : Type 0 where
  pub decoded : List ℤ
  pub complete : Bool

-- The loop of `GetAllChats` and of `GetAllUsers`: each id is cached with an empty document.
unfoldable pub cache_empty : ℕ → List ℤ → Cache Document → Cache Document
cache_empty now [] c = c
cache_empty now (id ∷ ids) c = cache_empty now ids (set now (to_key id) [] c)

unfoldable pub get_all_chats : ℕ → Option Listing → Database → Database × Option (List ℤ)
unfolding cache_empty
get_all_chats now none db = (db, none)
get_all_chats now (some l) db = (
  record db { chat_cache = cache_empty now l.decoded db.chat_cache },
  if l.complete then some l.decoded else none,
)
