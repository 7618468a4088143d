-- ===== src/Database/Logger.antt =====
-- src/core/db/mongo.go: whether the bot logs what it plays.
use yes.Prelude.{
  ℕ, ◌+◌, ◌≤◌, ◌≡◌, Bool, true, false, [], Option, none, some, ℤ, eq_String, str_eq_refl, arith,
}
use yes.Prelude.Assoc.{lookup, insert, lookup-insert}
use yes.Database.{
  Database, Document, Found, document, no_documents, find_failed, Status, done, db_error, boolean,
  to_key,
}
use yes.Database.Chats.{copied}
use yes.Database.Settings.{get-set_soon}
use yes.TtlCache.{get, set}

-- `cached["logger"].(bool)`
logger_field : Option Document → Option Bool
logger_field none = none
logger_field (some d) = elim (lookup "logger" d) [ some (boolean b) ↦ some b | _ ↦ none ]

found_document : Found → Option Document
found_document (document d) = some d
found_document no_documents = none
found_document find_failed = none

or_false : Option Bool → Bool
or_false none = false
or_false (some b) = b

unfoldable pub get_logger_status : ℕ → Found → ℤ → Database → Database × Bool
unfolding logger_field found_document or_false
get_logger_status now answer bot_id db =
    elim (logger_field (get now (to_key bot_id) db.bot_cache)) [
      | some v ↦ (db, v)
      | none ↦
          let status = or_false (logger_field (found_document answer)) in
          (
            record db {
              bot_cache =
                  set now (to_key bot_id) (insert "logger" (boolean status) []) db.bot_cache;
            },
            status,
          )
    ]

unfoldable pub set_logger_status : ℕ → Bool → ℤ → Bool → Database → Database × Status
unfolding copied
set_logger_status now false bot_id status db = (db, db_error)
set_logger_status now true bot_id status db = (
  record db {
    bot_cache =
        set now (to_key bot_id)
          (insert "logger" (boolean status) (copied (get now (to_key bot_id) db.bot_cache)))
          db.bot_cache;
  },
  done,
)

logger_field-insert :
    (b : Bool) (d : Document) → logger_field (some (insert "logger" (boolean b) d)) ≡ some b
unfolding logger_field
logger_field-insert b d =
    ground (arith, lookup-insert "logger" "logger" (boolean b) d, str_eq_refl "logger")

-- The status that was set is what every read returns until the cached document expires.
pub get_logger_status-set_logger_status :
    (now later : ℕ) (answer : Found) (bot_id : ℤ) (status : Bool) (db : Database)
    → later ≤ now + db.bot_cache.ttl
    → (get_logger_status later answer bot_id (set_logger_status now true bot_id status db).0).1
      ≡ status
unfolding get_logger_status set_logger_status
get_logger_status-set_logger_status now later answer bot_id status db soon =
    let d = copied (get now (to_key bot_id) db.bot_cache) in
    ground (
      arith,
      get-set_soon now later bot_id (insert "logger" (boolean status) d) db.bot_cache soon,
      logger_field-insert status d,
    )
