-- ===== src/Database.antt =====
-- src/core/db: the settings of chats, users and the bot, kept in MongoDB and cached for twenty minutes.
-- What MongoDB answers to a call is an argument of the method that makes it; the caches are the state.
pub mod Utilities
pub mod Chats
pub mod Users
pub mod Settings
pub mod Authorized
pub mod Logger
pub mod Access
pub mod Language
pub mod Playlists
pub mod Songs
use yes.Prelude.{ℕ, ◌*◌, Bool, List, Option, String, ℤ}
use yes.Prelude.Assoc.{Assoc}
use yes.Prelude.Decimal.{format}
use yes.TtlCache.{Cache, new_cache, minute}

-- An element of a BSON array, as `convertInterfaceSlice` tells them apart. A float is the integer that
-- it equals, if any.
pub data Element : Type 0 where
  go_int int_32 int_64 : ℤ → Element
  float_64 : Option ℤ → Element
  other_element : Element

-- A value of a document: `interface{}` with the dynamic types that the code asserts.
pub data Value : Type 0 where
  go_int_value int_32_value : ℤ → Value
  text : String → Value
  boolean : Bool → Value
  ids : List ℤ → Value
  array : List Element → Value
  other_value : Value

-- `map[string]interface{}`
abbrev pub Document : Type 0
Document = Assoc String Value

-- The answer of `FindOne(…).Decode(…)`.
pub data Found : Type 0 where
  document : Document → Found
  no_documents : Found
  find_failed : Found

pub record Database : Type 0 where
  pub chat_cache : Cache Document
  pub bot_cache : Cache Document
  pub user_cache : Cache Document

abbrev pub new_database : Database
new_database = record {
  chat_cache = new_cache (20 * minute);
  bot_cache = new_cache (20 * minute);
  user_cache = new_cache (20 * minute);
}

abbrev pub to_key : ℤ → String
to_key id = format id

-- How a method that writes ends: with no error, with MongoDB's error, or in a panic, which is what an
-- assignment to an entry of a nil map does.
pub data Status : Type 0 where
  done db_error panicked : Status
