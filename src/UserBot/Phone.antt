-- ===== src/UserBot/Phone.antt =====
-- The calls with one user: getP2PConfigs in src/vc/ubot/get_p2p_configs.go and the handler of UpdatePhoneCall in
-- handle_updates.go. What is sent on a channel `WaitData`, which holds nothing, is returned beside the
-- context: the handler ends once connectCall takes it.
use yes.Prelude.{
  ℕ, zero, suc, Bool, true, false, List, [], ◌∷◌, ◌++◌, Option, none, some, String, ℤ, eq_ℤ,
}
use yes.Prelude.Assoc.{lookup, insert, remove}
use yes.UserBot.{Context, CallRef, PhoneCall, P2pConfig, stop_call, does, Ended, ok, failed}
use yes.UserBot.GroupCalls.{convert_call_id}

pub data Reason : Type 0 where
  busy hangup other_reason : Reason

-- `tg.PhoneCall`, with the fields that the handler reads.
pub data PhoneUpdate : Type 0 where
  phone_accepted : (participant_id : ℤ) → CallRef → (g_b : List ℕ) → PhoneUpdate
  phone_waiting : (participant_id : ℤ) → CallRef → PhoneUpdate
  phone_requested : (admin_id : ℤ) → CallRef → (g_a_hash : List ℕ) → PhoneUpdate
  phone_connected : (admin_id : ℤ) → PhoneCall → PhoneUpdate
  phone_discarded : (id : ℤ) → Reason → PhoneUpdate
  other_phone_call : PhoneUpdate

-- `getP2PConfigs`, given whether Telegram gives the configuration of the exchange.
abbrev pub get_p2p_configs : Bool → Option (List ℕ) → Option P2pConfig
get_p2p_configs false g_a_or_b = none
get_p2p_configs true none =
    some
      (record { phone_call = none; is_outgoing = true; key_fingerprint = ℤ.pos 0; g_a_or_b = none })
get_p2p_configs true (some g) = some (record {
  phone_call = none;
  is_outgoing = false;
  key_fingerprint = ℤ.pos 0;
  g_a_or_b = some g;
})

-- What goes to the channel of a user: `none` is no error.
pub record Sent : Type 0 where
  pub user_id : ℤ
  pub error : Option String

-- A request for a call for which `getP2PConfigs` asks Telegram: the user and the hash.
abbrev pub Request : Type 0
Request = ℤ × List ℕ

-- What the handler leaves: the context, what it sends, the user whose incoming call is announced, the request for which it
-- now waits for Telegram, and how it ends if it does not.
pub record Handled : Type 0 where
  pub context : Context
  pub sent : Option Sent
  pub announced : Option ℤ
  pub asking : Option Request
  pub ended : Ended

abbrev quiet : Context → Handled
quiet c = record { context = c; sent = none; announced = none; asking = none; ended = ok }

unfoldable pub with_input_call : ℤ → CallRef → Context → Context
with_input_call user_id call c = record c { input_calls = insert user_id call c.input_calls }

-- A change to the configuration of a user, if there is one, and what is sent to its channel.
unfoldable pub signalled :
    ℤ → (P2pConfig → P2pConfig) → Option String → Context → Option P2pConfig → Handled
signalled user_id change error c none = quiet c
signalled user_id change error c (some config) = record {
  context = record c { p2p_configs = insert user_id (change config) c.p2p_configs };
  sent = some (record { user_id = user_id; error = error });
  announced = none;
  asking = none;
  ended = ok;
}

unfoldable pub signal : ℤ → (P2pConfig → P2pConfig) → Option String → Context → Handled
signal user_id change error c = signalled user_id change error c (lookup user_id c.p2p_configs)

-- The configuration is stored if the user still has none.
unfoldable pub store_new : ℤ → P2pConfig → Context → Option P2pConfig → Context
store_new user_id config c (some old) = c
store_new user_id config c none = record c { p2p_configs = insert user_id config c.p2p_configs }

-- The handler behind its call of `getP2PConfigs`, with the context of then.
unfoldable pub requested : ℤ → Context → Option P2pConfig → Handled
unfolding store_new
requested user_id c none = record {
  context = c;
  sent = none;
  announced = none;
  asking = none;
  ended = failed "dh_config";
}
requested user_id c (some config) = record {
  context = store_new user_id config c (lookup user_id c.p2p_configs);
  sent = none;
  announced = some user_id;
  asking = none;
  ended = ok;
}

-- The handler up to its call of `getP2PConfigs`.
unfoldable pub on_request : ℤ → List ℕ → Context → Option P2pConfig → Handled
on_request user_id g_a_hash c (some config) = quiet c
on_request user_id g_a_hash c none = record {
  context = c;
  sent = none;
  announced = none;
  asking = some (user_id, g_a_hash);
  ended = ok;
}

unfoldable pub reason_message : Reason → String
reason_message busy = "busy"
reason_message hangup = "declined"
reason_message other_reason = ""

-- The id 0 of a user stands for a call that is not known.
unfoldable pub id_or_zero : Option ℤ → ℤ
id_or_zero none = ℤ.pos 0
id_or_zero (some user_id) = user_id

-- The deletion and the stop after the send.
unfoldable pub discarded : ℤ → Handled → Handled
discarded user_id h = record h {
  context =
      does (stop_call user_id)
        (record h.context { input_calls = remove user_id h.context.input_calls });
}

unfoldable pub discard : ℤ → Reason → Context → Handled
discard user_id reason c =
    discarded user_id (signal user_id (λ config. config) (some (reason_message reason)) c)

unfoldable pub on_phone_call : PhoneUpdate → Context → Handled
unfolding with_input_call signalled signal on_request reason_message id_or_zero discarded discard
on_phone_call (phone_accepted user_id call g_b) c =
    signal user_id (λ config. record config { g_a_or_b = some g_b }) none
      (with_input_call user_id call c)
on_phone_call (phone_waiting user_id call) c = quiet (with_input_call user_id call c)
on_phone_call (phone_requested user_id call g_a_hash) c =
    on_request user_id g_a_hash (with_input_call user_id call c) (lookup user_id c.p2p_configs)
on_phone_call (phone_connected user_id call) c =
    signal user_id
      (λ config. record config {
        g_a_or_b = some call.g_a_or_b;
        key_fingerprint = call.key_fingerprint;
        phone_call = some call;
      })
      none c
on_phone_call (phone_discarded id reason) c = discard (id_or_zero (convert_call_id id c)) reason c
on_phone_call other_phone_call c = quiet c

-- What happens in the handlers: an update arrives, or Telegram answers, with the configuration of the exchange or not,
-- for one of the requests that wait for it.
pub data PhoneEvent : Type 0 where
  arrives : PhoneUpdate → PhoneEvent
  answered : Bool → ℕ → PhoneEvent

-- One of the waiting requests, and the others.
unfoldable pub taken : ℕ → List Request → Option Request × List Request
taken i [] = (none, [])
taken zero (r ∷ asked) = (some r, asked)
taken (suc i) (r ∷ asked) = let rest = taken i asked in (rest.0, r ∷ rest.1)

unfoldable pub with_asking : Option Request → List Request → List Request
with_asking none asked = asked
with_asking (some r) asked = asked ++ r ∷ []

unfoldable pub on_answer : Bool → Context → Option Request → Handled
unfolding requested
on_answer dh c none = quiet c
on_answer dh c (some (user_id, g_a_hash)) = requested user_id c (get_p2p_configs dh (some g_a_hash))

unfoldable pub on_event : PhoneEvent → Context → List Request → Handled × List Request
unfolding on_phone_call taken with_asking on_answer
on_event (arrives update) c asked =
    let h = on_phone_call update c in (h, with_asking h.asking asked)
on_event (answered dh i) c asked =
    let (request, others) = taken i asked in (on_answer dh c request, others)
