-- ===== src/UserBot.antt =====
-- src/vc/ubot/context.go and src/vc/ubot/types: the state of one assistant's voice calls. What Telegram and the call
-- library answer is a parameter; the calls of the library that the code makes are kept in order, in `log`.
pub mod Ids
pub mod GroupCalls
pub mod Participants
pub mod Sources
pub mod Streams
pub mod Roster
pub mod Phone
pub mod Connect
pub mod Dial
pub mod Presentation
pub mod Calling
pub mod Unblocked
pub mod Cleanup
pub mod Announced
pub mod Changes
pub mod Stops
pub mod Outcome
pub mod Muted
use yes.Prelude.{
  ℕ, ◌<◌, Bool, true, false, List, [], ◌∷◌, ◌++◌, Option, none, some, String, ℤ, ltb, length,
  if◌then◌else◌,
}
use yes.Prelude.Assoc.{Assoc}

-- What is streamed: the description, and whether it has a camera and a screen.
pub record MediaDescription : Type 0 where
  pub description : String
  pub camera : Bool
  pub screen : Bool

-- `tg.InputGroupCallObj` and `tg.InputPhoneCall`.
pub record CallRef : Type 0 where
  pub id : ℤ
  pub access_hash : ℤ

-- A call of the call library or of Telegram that acts on the call of a chat.
pub data Command : Type 0 where
  create_call create_p2p_call stop_call leave_call stop_presentation init_presentation
        join_presentation_call leave_presentation :
      ℤ → Command
  set_sources record_sources : ℤ → MediaDescription → Command
  join_call : ℤ → Command
  connect : ℤ → String → Bool → Command
  connect_p2p : ℤ → Command
  add_video remove_video : ℤ → String → Command
  edit_status : ℤ → Command
  request_phone_call : ℤ → Bool → Command
  accept_phone_call confirm_phone_call : ℤ → Option CallRef → Command

-- The connected call, `tg.PhoneCallObj`.
pub record PhoneCall : Type 0 where
  pub g_a_or_b : List ℕ
  pub key_fingerprint : ℤ

-- `types.P2PConfig`; the channel `WaitData` is the wait itself.
pub record P2pConfig : Type 0 where
  pub phone_call : Option PhoneCall
  pub is_outgoing : Bool
  pub key_fingerprint : ℤ
  pub g_a_or_b : Option (List ℕ)

-- `tg.GroupCallParticipant`, by the id of its peer. A stream is its endpoint.
pub record CallParticipant : Type 0 where
  pub id : ℤ
  pub is_user : Bool
  pub left : Bool
  pub can_self_unmute : Bool
  pub video : Option String
  pub presentation : Option String

-- `types.CallParticipantsCache`
pub record ParticipantsCache : Type 0 where
  pub participants : Assoc ℤ CallParticipant
  pub last_update : ℕ

-- `types.CallSources`
pub record CallSources : Type 0 where
  pub camera_sources : Assoc ℤ String
  pub screen_sources : Assoc ℤ String

-- `types.PendingConnection`
pub record Pending : Type 0 where
  pub media : MediaDescription
  pub payload : String
  pub presentation : Bool

-- How a connection changes, as far as it ends a wait.
pub data Change : Type 0 where
  connected closed timed_out other_change : Change

-- A channel of errors: what it holds, and how much it can hold.
pub record Channel : Type 0 where
  pub capacity : ℕ
  pub held : List Change

pub record Context : Type 0 where
  pub self_id : ℤ
  pub muted_by_admin : List ℤ
  pub presentations : List ℤ
  pub p2p_configs : Assoc ℤ P2pConfig
  pub input_calls : Assoc ℤ CallRef
  pub input_group_calls : Assoc ℤ (Option CallRef)
  pub call_participants : Assoc ℤ ParticipantsCache
  pub pending_connections : Assoc ℤ Pending
  pub call_sources : Assoc ℤ CallSources
  pub wait_connect : Assoc ℤ Channel
  pub log : List Command

-- `NewInstance`
abbrev pub new_instance : ℤ → Context
new_instance self_id = record {
  self_id = self_id;
  muted_by_admin = [];
  presentations = [];
  p2p_configs = [];
  input_calls = [];
  input_group_calls = [];
  call_participants = [];
  pending_connections = [];
  call_sources = [];
  wait_connect = [];
  log = [];
}

abbrev pub does : Command → Context → Context
does command c = record c { log = c.log ++ command ∷ [] }

-- How a method ends; `waiting` when it waits for what does not come.
pub data Ended : Type 0 where
  ok : Ended
  failed : String → Ended
  panicked waiting : Ended

-- The next step of a method, if a call had no error, or gave a value.
abbrev pub if_done : Bool → String → (Context → Context × Ended) → Context → Context × Ended
if_done true error next c = next c
if_done false error next c = (c, failed error)

abbrev pub if_some {ℓ} :
    {A : Type ℓ} → Option A → String → (A → Context → Context × Ended) → Context → Context × Ended
if_some none error next c = (c, failed error)
if_some (some a) error next c = next a c
