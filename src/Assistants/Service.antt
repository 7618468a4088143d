-- ===== src/Assistants/Service.antt =====
-- Every chat is served by an assistant that has started, and keeps it.
use yes.Prelude.{
  ℕ, zero, suc, ◌+◌, ◌≤◌, ◌<◌, ◌≡◌, ◌≢◌, refl, Bool, true, false, not, ◌&&◌, List, [], ◌∷◌, ◌++◌,
  Option, none, some, String, ℤ, str_eq, str_eq_refl, eq_iff, length, get_elem?, All, eq_String,
  arith, Bool-cases, inl, inr,
}
use yes.Prelude.Assoc.{Assoc, lookup, insert, lookup-insert}
use yes.Database.{Database, Found}
use yes.Database.Access.{ttl-get_chat}
use yes.Database.Chats.{get_assistant, set_assistant}
use yes.Database.Settings.{settings_read_back}
use yes.Assistants.{
  Clients, Start, start_client, chosen, is_available, get_client_name, get_group_assistant,
  no_clients, client_name, registered, with_client, with_context, at_random, context_of,
  session_ready,
}

-- `StartClient` for each account of a list.
unfoldable pub start_all : List Start → Clients → Clients
start_all [] c = c
start_all (s ∷ starts) c = start_all starts (start_client s c).0

-- Every name has a context.
abbrev HasContexts : Assoc String ℕ → List String → Type 0
HasContexts contexts = All (λ name. lookup name contexts ≢ none)

insert-HasContexts :
    (k : String) (v : ℕ) (contexts : Assoc String ℕ) (names : List String)
    → HasContexts contexts names
    → HasContexts (insert k v contexts) names
insert-HasContexts k v contexts [] h = tt
insert-HasContexts k v contexts (name ∷ names) h =
    (ground (arith, lookup-insert k name v contexts), insert-HasContexts k v contexts names h.1)

append_one-HasContexts :
    (k : String) (contexts : Assoc String ℕ) (names : List String)
    → HasContexts contexts names
    → lookup k contexts ≢ none
    → HasContexts contexts (names ++ k ∷ [])
append_one-HasContexts k contexts [] h found = (found, tt)
append_one-HasContexts k contexts (name ∷ names) h found =
    (h.0, append_one-HasContexts k contexts names h.1 found)

abbrev Serves : Clients → Type 0
Serves c = HasContexts c.contexts c.available

registered-Serves :
    (client context : ℕ) (c : Clients) → Serves c → Serves (registered client context c)
unfolding registered
registered-Serves client context c h =
    append_one-HasContexts (client_name c) _ c.available
      (insert-HasContexts (client_name c) context c.contexts c.available h)
      (ground (
        arith,
        lookup-insert (client_name c) (client_name c) context c.contexts,
        str_eq_refl (client_name c),
      ))

with_context-Serves :
    (client : ℕ) (context : Option ℕ) (c : Clients)
    → Serves c
    → Serves (with_context client context c).0
unfolding with_context
with_context-Serves client none c h = h
with_context-Serves client (some context) c h = registered-Serves client context c h

with_client-Serves :
    (s : Start) (client : Option ℕ) (c : Clients) → Serves c → Serves (with_client s client c).0
unfolding with_client
with_client-Serves s none c h = h
with_client-Serves s (some client) c h = elim (Bool-cases s.starts) [
  | inr stuck ↦ rw stuck h
  | inl starts ↦ elim (Bool-cases s.is_bot) [
    | inl bot ↦ rw (starts, bot) h
    | inr user ↦ rw (starts, user) (with_context-Serves client s.context c h)
  ]
]

start_client-Serves : (s : Start) (c : Clients) → Serves c → Serves (start_client s c).0
unfolding start_client
start_client-Serves s c h = elim (Bool-cases (session_ready s)) [
  | inl ready ↦ rw ready (with_client-Serves s s.client c h)
  | inr unready ↦ rw unready h
]

start_all-Serves : (starts : List Start) (c : Clients) → Serves c → Serves (start_all starts c)
unfolding start_all
start_all-Serves [] c h = h
start_all-Serves (s ∷ starts) c h =
    start_all-Serves starts (start_client s c).0 (start_client-Serves s c h)

is_available-HasContexts :
    (assistant : String) (contexts : Assoc String ℕ) (names : List String)
    → HasContexts contexts names
    → is_available assistant names ≡ true
    → lookup assistant contexts ≢ none
unfolding is_available
is_available-HasContexts assistant contexts [] h e = ground arith
is_available-HasContexts assistant contexts (name ∷ names) h e =
    elim (Bool-cases (str_eq name assistant)) [
      | inl same ↦ rw ((eq_iff name assistant).0 same) at h.0
      | inr other ↦ is_available-HasContexts assistant contexts names h.1 (ground arith)
    ]

get_elem?-HasContexts :
    (n : ℕ) (contexts : Assoc String ℕ) (names : List String)
    → HasContexts contexts names
    → n < length names
    → (name : String) × (get_elem? names n ≡ some name) × (lookup name contexts ≢ none)
get_elem?-HasContexts n contexts [] h small = elim small [ ]
get_elem?-HasContexts zero contexts (name ∷ names) h small = (name, refl, h.0)
get_elem?-HasContexts (suc n) contexts (name ∷ names) h small =
    get_elem?-HasContexts n contexts names h.1 (omega arith)

get_elem?-is_available :
    (n : ℕ) (name : String) (names : List String)
    → get_elem? names n ≡ some name
    → is_available name names ≡ true
unfolding is_available
get_elem?-is_available n name [] e = cc
get_elem?-is_available zero name (other ∷ names) e = ground (arith, eq_iff other name)
get_elem?-is_available (suc n) name (other ∷ names) e =
    ground (arith, get_elem?-is_available n name names e)

-- The bound of `rand.Int`, if it gives a number.
abbrev pub InRange : Option ℕ → ℕ → Type 0
InRange none size = Unit
InRange (some n) size = n < size

at_random-HasContexts :
    (now : ℕ) (updated : Bool) (random : Option ℕ) (chat_id : ℤ) (contexts : Assoc String ℕ)
    (name : String) (names : List String) (db : Database)
    → HasContexts contexts (name ∷ names)
    → InRange random (suc (length names))
    → (other : String) × ((at_random now updated random chat_id (name ∷ names) db).1 ≡ chosen other)
      × (lookup other contexts ≢ none)
unfolding at_random
at_random-HasContexts now updated none chat_id contexts name names db h small = (name, refl, h.0)
at_random-HasContexts now updated (some n) chat_id contexts name names db h small =
    let (other, at, found) = get_elem?-HasContexts n contexts (name ∷ names) h small in
    (other, ground arith, found)

get_client_name-HasContexts :
    (now : ℕ) (answer : Found) (updated : Bool) (random : Option ℕ) (chat_id : ℤ)
    (contexts : Assoc String ℕ) (names : List String) (db : Database)
    → HasContexts contexts names
    → names ≢ []
    → InRange random (length names)
    → (other : String) × ((get_client_name now answer updated random chat_id names db).1
        ≡ chosen other)
      × (lookup other contexts ≢ none)
unfolding get_client_name
get_client_name-HasContexts now answer updated random chat_id contexts [] db h some_name small =
    absurd (some_name refl)
get_client_name-HasContexts now answer updated random chat_id contexts (name ∷ names) db h some_name
      small =
    let (db', assistant) = get_assistant now answer chat_id db in
    elim (Bool-cases (not (str_eq assistant "") && is_available assistant (name ∷ names))) [
      | inl kept ↦ (
        assistant,
        rw kept refl,
        is_available-HasContexts assistant contexts (name ∷ names) h (ground arith),
      )
      | inr unkept ↦
          rw unkept
            (at_random-HasContexts now updated random chat_id contexts name names db' h small)
    ]

-- Once an account has started, `GetGroupAssistant` gives every chat the context of an assistant: whatever
-- accounts failed to start, whatever MongoDB answers, and whatever number below the bound was drawn.
pub get_group_assistant-start_all :
    (starts : List Start) (now : ℕ) (answer : Found) (updated : Bool) (random : Option ℕ)
    (chat_id : ℤ) (db : Database)
    → (start_all starts no_clients).available ≢ []
    → InRange random (length (start_all starts no_clients).available)
    → (get_group_assistant now answer updated random chat_id (start_all starts no_clients) db).1
      ≢ none
unfolding get_group_assistant context_of
get_group_assistant-start_all starts now answer updated random chat_id db started small =
    let c = start_all starts no_clients in
    let (other, given, found) =
      get_client_name-HasContexts now answer updated random chat_id c.contexts c.available db
        (start_all-Serves starts no_clients tt) started small in
    rw given found

ttl-get_assistant :
    (now : ℕ) (answer : Found) (chat_id : ℤ) (db : Database)
    → (get_assistant now answer chat_id db).0.chat_cache.ttl ≡ db.chat_cache.ttl
unfolding get_assistant
ttl-get_assistant now answer chat_id db = ttl-get_chat now answer chat_id db

-- A chat keeps its assistant: if the one that MongoDB or the cache named is not available, the one that
-- is drawn and stored is given again while the cached document lasts, whatever MongoDB answers and
-- whatever is drawn then.
pub get_client_name_again :
    (now later : ℕ) (answer again : Found) (updated : Bool) (n : ℕ) (random : Option ℕ)
    (chat_id : ℤ) (name : String) (names : List String) (db : Database)
    → is_available (get_assistant now answer chat_id db).1 names ≡ false
    → get_elem? names n ≡ some name
    → str_eq name "" ≡ false
    → later ≤ now + db.chat_cache.ttl
    → ((get_client_name now answer true (some n) chat_id names db).1 ≡ chosen name)
      × ((get_client_name later again updated random chat_id names
            (get_client_name now answer true (some n) chat_id names db).0).1
          ≡ chosen name)
unfolding get_client_name at_random
get_client_name_again now later answer again updated n random chat_id name [] db gone at named
      soon =
    cc
get_client_name_again now later answer again updated n random chat_id name (first ∷ names) db gone
      at named soon =
    let db' = (get_assistant now answer chat_id db).0 in
    let stored : (get_assistant later again chat_id (set_assistant now true chat_id name db').0).1
        ≡ name =
      (settings_read_back now later again chat_id name db'
        (omega (arith, ttl-get_assistant now answer chat_id db))).2 in
    (ground arith, ground (arith, stored, get_elem?-is_available n name (first ∷ names) at))
