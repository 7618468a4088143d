-- ===== src/Handlers/Broadcast.antt =====
-- /broadcast and /cancelbroadcast, src/handlers/broadcast.go. Twenty workers take the targets from a
-- channel; what each of them does next is an event, and a run is a list of events in any order.
use yes.Prelude.{
  ℕ, zero, suc, ◌+◌, ◌%◌, ◌^◌, Bool, true, false, ◌||◌, ◌&&◌, List, [], ◌∷◌, ◌++◌, Option, none,
  some, String, ℤ, pos, length, get_elem?, take, ltb, if◌then◌else◌, str_eq,
}
use yes.Prelude.Decimal.{atoi}
use yes.Handlers.PlayCommand.{has_prefix}

pub record Flags : Type 0 where
  pub copy_mode : Bool
  pub no_chats : Bool
  pub no_users : Bool
  pub limit : ℕ
  pub delay : ℤ

pub data Parsed : Type 0 where
  flags : Flags → Parsed
  invalid_limit : Parsed
  invalid_delay : Parsed

abbrev pub no_flags : Flags
no_flags = record {
  copy_mode = false;
  no_chats = false;
  no_users = false;
  limit = 0;
  delay = pos 0;
}

-- `strings.TrimPrefix` for a prefix of that many characters that the text has.
unfoldable pub without_first : ℕ → String → String
without_first zero s = s
without_first (suc n) String.[] = ""
without_first (suc n) (String.◌∷◌ c s) = without_first n s

-- What one field changes; `parse_delay` is `time.ParseDuration`. A field holds no space, so that
-- `strings.TrimSpace` leaves it as it is.
unfoldable pub read_field : (String → Option ℤ) → String → Flags → Parsed
unfolding without_first
read_field parse_delay a f =
    if str_eq a "-copy"
    then flags (record f { copy_mode = true })
    else if str_eq a "-nochat" || str_eq a "-nochats"
    then flags (record f { no_chats = true })
    else if str_eq a "-nouser" || str_eq a "-nousers"
    then flags (record f { no_users = true })
    else if has_prefix a "-limit"
    then elim (atoi (without_first 6 a)) [
      | some (pos (suc n)) ↦ flags (record f { limit = suc n })
      | _ ↦ invalid_limit
    ]
    else if has_prefix a "-delay"
    then elim (parse_delay (without_first 6 a)) [
      | some d ↦ flags (record f { delay = d })
      | none ↦ invalid_delay
    ]
    else flags f

unfoldable pub read_fields : (String → Option ℤ) → List String → Parsed → Parsed
unfolding read_field
read_fields parse_delay [] parsed = parsed
read_fields parse_delay (a ∷ args) invalid_limit = invalid_limit
read_fields parse_delay (a ∷ args) invalid_delay = invalid_delay
read_fields parse_delay (a ∷ args) (flags f) =
    read_fields parse_delay args (read_field parse_delay a f)

-- The chats and the users that get the message.
unfoldable pub targets_of : Flags → List ℤ → List ℤ → List ℤ
targets_of f chats users =
    let all_targets = (if f.no_chats then [] else chats) ++ (if f.no_users then [] else users) in
    if ltb 0 f.limit && ltb f.limit (length all_targets)
    then take f.limit all_targets
    else all_targets

abbrev pub workers : ℕ
workers = 20

pub data Worker : Type 0 where
  idle : Worker
  -- it has taken a target and has yet to look at the flag
  holding : ℤ → Worker
  -- it has seen that the broadcast goes on
  sending : ℤ → Worker
  -- it sleeps for the delay, which may be none
  resting : Worker

-- `success` and `failed` count on 32 bits. `delivered` are the targets that Telegram has taken the
-- message for, `missed` the others that are done with.
pub record Broadcast : Type 0 where
  pub unsent : List ℤ
  pub channel : List ℤ
  pub team : List Worker
  pub success : ℕ
  pub failed : ℕ
  pub cancelled : Bool
  pub delivered : List ℤ
  pub missed : List ℤ

unfoldable pub idle_team : ℕ → List Worker
idle_team zero = []
idle_team (suc n) = idle ∷ idle_team n

unfoldable pub broadcast_started : List ℤ → Broadcast
unfolding idle_team
broadcast_started targets = record {
  unsent = targets;
  channel = [];
  team = idle_team workers;
  success = 0;
  failed = 0;
  cancelled = false;
  delivered = [];
  missed = [];
}

-- What Telegram answers to a forwarded message.
pub data Answered : Type 0 where
  taken : Answered
  flood_wait : Answered
  refused : Answered

-- `jobs <- id`; the events of the worker with a number; /cancelbroadcast.
pub data Event : Type 0 where
  feed : Event
  receive : ℕ → Event
  look : ℕ → Event
  forward : ℕ → Answered → Event
  wake : ℕ → Event
  cancel : Event

abbrev one_more : ℕ → ℕ
one_more n = (n + 1) % 2 ^ 32

unfoldable pub set_worker : ℕ → Worker → List Worker → List Worker
set_worker i v [] = []
set_worker zero v (x ∷ team) = v ∷ team
set_worker (suc i) v (x ∷ team) = x ∷ set_worker i v team

unfoldable pub miss : ℕ → Worker → ℤ → Broadcast → Broadcast
unfolding set_worker
miss i v id b = record b {
  team = set_worker i v b.team;
  failed = one_more b.failed;
  missed = id ∷ b.missed;
}

unfoldable pub forward_answered : ℕ → ℤ → Answered → Broadcast → Broadcast
unfolding miss set_worker
forward_answered i id flood_wait b = b
forward_answered i id refused b = miss i resting id b
forward_answered i id taken b = record b {
  team = set_worker i resting b.team;
  success = one_more b.success;
  delivered = id ∷ b.delivered;
}

unfoldable pub fed : List ℤ → Broadcast → Broadcast
fed [] b = b
fed (id ∷ ids) b =
    if ltb (length b.channel) workers
    then record b { unsent = ids; channel = b.channel ++ id ∷ [] }
    else b

unfoldable pub job_received : ℕ → Option Worker → List ℤ → Broadcast → Broadcast
unfolding set_worker
job_received i (some idle) (id ∷ ids) b = record b {
  channel = ids;
  team = set_worker i (holding id) b.team;
}
job_received i worker ids b = b

unfoldable pub looked : ℕ → Option Worker → Broadcast → Broadcast
unfolding miss set_worker
looked i (some (holding id)) b =
    if b.cancelled then miss i idle id b else record b { team = set_worker i (sending id) b.team }
looked i worker b = b

unfoldable pub forwarded : ℕ → Answered → Option Worker → Broadcast → Broadcast
unfolding forward_answered
forwarded i a (some (sending id)) b = forward_answered i id a b
forwarded i a worker b = b

unfoldable pub woken : ℕ → Option Worker → Broadcast → Broadcast
unfolding set_worker
woken i (some resting) b = record b { team = set_worker i idle b.team }
woken i worker b = b

-- An event that cannot happen in a state leaves the state as it is.
unfoldable pub step : Event → Broadcast → Broadcast
unfolding fed job_received looked forwarded woken
step feed b = fed b.unsent b
step (receive i) b = job_received i (get_elem? b.team i) b.channel b
step (look i) b = looked i (get_elem? b.team i) b
step (forward i a) b = forwarded i a (get_elem? b.team i) b
step (wake i) b = woken i (get_elem? b.team i) b
step cancel b = record b { cancelled = true }

unfoldable pub run : List Event → Broadcast → Broadcast
unfolding step
run [] b = b
run (e ∷ events) b = run events (step e b)
