-- ===== src/Assistants.antt =====
-- src/vc/calls.go, src/vc/types.go: the assistants, which are the user accounts that join the calls, and which of
-- them serves a chat. A client of the Telegram library and a context of the call library are numbers.
use Prim.Native.String.{◌++◌ as str_append}
use yes.Prelude.{
  ℕ, ◌+◌, Bool, true, false, not, ◌&&◌, ◌||◌, List, [], ◌∷◌, ◌++◌, Option, none, some, String, ℤ,
  pos, str_eq, length, get_elem?, eq_String, if◌then◌else◌,
}
use yes.Prelude.Assoc.{Assoc, lookup, insert}
use yes.Prelude.Decimal.{format}
use yes.Database.{Database, Found}
use yes.Database.Chats.{get_assistant, set_assistant}
pub mod Service
pub mod Joining
pub mod Leaving
pub mod Membership

-- The part of `TelegramCalls` that knows the assistants.
pub record Clients : Type 0 where
  pub contexts : Assoc String ℕ
  pub clients : Assoc String ℕ
  pub available : List String
  pub counter : ℕ

-- `getCalls`
abbrev pub no_clients : Clients
no_clients = record { contexts = []; clients = []; available = []; counter = 1 }

-- What the libraries answer to one `StartClient`, and the configured type of session: does the string of
-- the session decode, is there a client and does it start, is it a bot, and is there a context.
pub record Start : Type 0 where
  pub session_type : String
  pub decodes : Bool
  pub client : Option ℕ
  pub starts : Bool
  pub is_bot : Bool
  pub context : Option ℕ

unfoldable pub session_ready : Start → Bool
session_ready s =
    if str_eq s.session_type "telethon"
    then s.decodes
    else if str_eq s.session_type "pyrogram"
    then s.decodes
    else str_eq s.session_type "gogram"

unfoldable pub client_name : Clients → String
client_name c = str_append "client" (format (pos c.counter))

-- The writes of `StartClient`, once a client and its context are there.
unfoldable pub registered : ℕ → ℕ → Clients → Clients
unfolding client_name
registered client context c = record {
  contexts = insert (client_name c) context c.contexts;
  clients = insert (client_name c) client c.clients;
  available = c.available ++ client_name c ∷ [];
  counter = c.counter + 1;
}

unfoldable pub with_context : ℕ → Option ℕ → Clients → Clients × Option ℕ
unfolding registered
with_context client none c = (c, none)
with_context client (some context) c = (registered client context c, some context)

unfoldable pub with_client : Start → Option ℕ → Clients → Clients × Option ℕ
unfolding with_context
with_client s none c = (c, none)
with_client s (some client) c =
    if not s.starts
    then (c, none)
    else if s.is_bot
    then (c, none)
    else with_context client s.context c

-- `none` is an error.
unfoldable pub start_client : Start → Clients → Clients × Option ℕ
unfolding session_ready with_client
start_client s c = if not (session_ready s) then (c, none) else with_client s s.client c

-- Which assistant `getClientName` gives. `rand.Int` gives a number below its bound.
pub data Chosen : Type 0 where
  no_client : Chosen
  chosen : String → Chosen
  out_of_range : Chosen

unfoldable pub is_available : String → List String → Bool
is_available assistant [] = false
is_available assistant (name ∷ names) =
    if str_eq name assistant then true else is_available assistant names

unfoldable pub first_name : List String → Chosen
first_name [] = no_client
first_name (name ∷ names) = chosen name

-- The random choice; `updated` says whether MongoDB makes the update of `SetAssistant`.
unfoldable pub at_random : ℕ → Bool → Option ℕ → ℤ → List String → Database → Database × Chosen
unfolding first_name
at_random now updated none chat_id names db = (db, first_name names)
at_random now updated (some n) chat_id names db = elim (get_elem? names n) [
  | none ↦ (db, out_of_range)
  | some name ↦ ((set_assistant now updated chat_id name db).0, chosen name)
]

unfoldable pub get_client_name :
    ℕ → Found → Bool → Option ℕ → ℤ → List String → Database → Database × Chosen
unfolding is_available at_random
get_client_name now answer updated random chat_id [] db = (db, no_client)
get_client_name now answer updated random chat_id (name ∷ names) db =
    let (db', assistant) = get_assistant now answer chat_id db in
    if not (str_eq assistant "") && is_available assistant (name ∷ names)
    then (db', chosen assistant)
    else at_random now updated random chat_id (name ∷ names) db'

unfoldable pub context_of : Clients → Chosen → Option ℕ
context_of c no_client = none
context_of c out_of_range = none
context_of c (chosen name) = lookup name c.contexts

unfoldable pub get_group_assistant :
    ℕ → Found → Bool → Option ℕ → ℤ → Clients → Database → Database × Option ℕ
unfolding context_of
get_group_assistant now answer updated random chat_id c db =
    let (db', name) = get_client_name now answer updated random chat_id c.available db in
    (db', context_of c name)
