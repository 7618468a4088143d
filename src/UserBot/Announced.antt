-- ===== src/UserBot/Announced.antt =====
-- Which incoming calls the handlers of updates on phone calls announce while a call is being set up.
use yes.Prelude.{
  ℕ, zero, suc, ◌≡◌, ◌≤◌, refl, ap, ◌∙◌, Bool, true, false, List, [], ◌∷◌, ◌++◌, Option, none, some,
  String, ℤ, int_eq, int_eq_iff, eq_ℤ, arith, Bool-cases, inl, inr, if◌then◌else◌,
}
use yes.Prelude.Assoc.{lookup, lookup-insert}
use yes.UserBot.{Context, P2pConfig}
use yes.UserBot.GroupCalls.{convert_call_id}
use yes.UserBot.Phone.{
  PhoneUpdate, phone_accepted, phone_waiting, phone_requested, phone_connected, phone_discarded,
  other_phone_call, Handled, Request, PhoneEvent, arrives, answered, on_event, taken, with_asking,
  on_answer, on_phone_call, get_p2p_configs, signal, signalled, on_request, requested, store_new,
  with_input_call, id_or_zero, discard, discarded, reason_message,
}

abbrev pub is_some : Option P2pConfig → Bool
is_some none = false
is_some (some config) = true

-- Whether a call with the user is being set up.
abbrev pub has_config : ℤ → Context → Bool
has_config user_id c = is_some (lookup user_id c.p2p_configs)

abbrev is_announced : ℤ → Option ℤ → Bool
is_announced id none = false
is_announced id (some user_id) = int_eq user_id id

abbrev is_for : ℤ → Option Request → Bool
is_for id none = false
is_for id (some (user_id, g)) = int_eq user_id id

-- How many of the requests are of the user.
unfoldable pub requests_of : ℤ → List Request → ℕ
requests_of id [] = 0
requests_of id ((user_id, g) ∷ asked) =
    let rest = requests_of id asked in if int_eq user_id id then suc rest else rest

-- How often the incoming call of a user is announced, when requests wait for Telegram and events happen in order.
unfoldable pub announcements : ℤ → List PhoneEvent → List Request → Context → ℕ
announcements id [] asked c = 0
announcements id (event ∷ events) asked c =
    let (h, asked') = on_event event c asked in
    let rest = announcements id events asked' h.context in
    if is_announced id h.announced then suc rest else rest

-- A handler keeps the configuration of the user, does not announce the user and does not begin to.
Keeps : ℤ → Handled → Type 0
Keeps id h =
    (has_config id h.context ≡ true)
    × (is_announced id h.announced ≡ false)
    × (is_for id h.asking ≡ false)

signalled-Keeps :
    (id user_id : ℤ) (change : P2pConfig → P2pConfig) (error : Option String) (c : Context)
    (o : Option P2pConfig)
    → has_config id c ≡ true
    → Keeps id (signalled user_id change error c o)
unfolding signalled Keeps
signalled-Keeps id user_id change error c none h = (h, refl, refl)
signalled-Keeps id user_id change error c (some config) h = (
  ap is_some (lookup-insert user_id id (change config) c.p2p_configs) ∙ ground (arith, h),
  refl,
  refl,
)

on_request-Keeps :
    (id user_id : ℤ) (g : List ℕ) (c : Context) (o : Option P2pConfig)
    → has_config id c ≡ true
    → lookup user_id c.p2p_configs ≡ o
    → Keeps id (on_request user_id g c o)
unfolding on_request Keeps
on_request-Keeps id user_id g c (some config) h own = (h, refl, refl)
on_request-Keeps id user_id g c none h own = (
  h,
  refl,
  elim (Bool-cases (int_eq user_id id)) [
    | inr other ↦ other
    | inl same ↦ ground (arith, own, h, int_eq_iff user_id id, same)
  ],
)

on_phone_call-Keeps :
    (id : ℤ) (update : PhoneUpdate) (c : Context)
    → has_config id c ≡ true
    → Keeps id (on_phone_call update c)
unfolding on_phone_call with_input_call signal discard discarded Keeps
on_phone_call-Keeps id (phone_accepted user_id call g_b) c h =
    signalled-Keeps id user_id (λ config. record config { g_a_or_b = some g_b }) none
      (with_input_call user_id call c) (lookup user_id c.p2p_configs) h
on_phone_call-Keeps id (phone_waiting user_id call) c h = (h, refl, refl)
on_phone_call-Keeps id (phone_requested user_id call g) c h =
    on_request-Keeps id user_id g (with_input_call user_id call c) (lookup user_id c.p2p_configs) h
      refl
on_phone_call-Keeps id (phone_connected user_id call) c h =
    signalled-Keeps id user_id
      (λ config. record config {
        g_a_or_b = some call.g_a_or_b;
        key_fingerprint = call.key_fingerprint;
        phone_call = some call;
      })
      none c (lookup user_id c.p2p_configs) h
on_phone_call-Keeps id (phone_discarded call_id reason) c h =
    let user_id = id_or_zero (convert_call_id call_id c) in
    signalled-Keeps id user_id (λ config. config) (some (reason_message reason)) c
      (lookup user_id c.p2p_configs) h
on_phone_call-Keeps id other_phone_call c h = (h, refl, refl)

has_config-store_new :
    (id user_id : ℤ) (config : P2pConfig) (c : Context) (o : Option P2pConfig)
    → has_config id c ≡ true
    → has_config id (store_new user_id config c o) ≡ true
unfolding store_new
has_config-store_new id user_id config c (some old) h = h
has_config-store_new id user_id config c none h =
    ap is_some (lookup-insert user_id id config c.p2p_configs) ∙ ground (arith, h)

-- An answer keeps the configuration of the user and announces the user at most if the request was of the user.
IsQuietFor : ℤ → Option Request → Handled → Type 0
IsQuietFor id request h =
    (has_config id h.context ≡ true)
    × (is_for id request ≡ false → is_announced id h.announced ≡ false)

requested-IsQuietFor :
    (id user_id : ℤ) (g : List ℕ) (c : Context) (o : Option P2pConfig)
    → has_config id c ≡ true
    → IsQuietFor id (some (user_id, g)) (requested user_id c o)
unfolding requested IsQuietFor
requested-IsQuietFor id user_id g c none h = (h, λ _. refl)
requested-IsQuietFor id user_id g c (some config) h =
    (has_config-store_new id user_id config c (lookup user_id c.p2p_configs) h, λ other. other)

on_answer-IsQuietFor :
    (id : ℤ) (dh : Bool) (c : Context) (request : Option Request)
    → has_config id c ≡ true
    → IsQuietFor id request (on_answer dh c request)
unfolding on_answer IsQuietFor
on_answer-IsQuietFor id dh c none h = (h, λ _. refl)
on_answer-IsQuietFor id dh c (some (user_id, g)) h =
    requested-IsQuietFor id user_id g c (get_p2p_configs dh (some g)) h

requests_of-snoc :
    (id : ℤ) (r : Request) (asked : List Request)
    → is_for id (some r) ≡ false
    → requests_of id (asked ++ r ∷ []) ≡ requests_of id asked
unfolding requests_of
requests_of-snoc id r [] other = ground (arith, other)
requests_of-snoc id r (first ∷ asked) other = ground (arith, requests_of-snoc id r asked other)

requests_of-with_asking :
    (id : ℤ) (request : Option Request) (asked : List Request)
    → is_for id request ≡ false
    → requests_of id (with_asking request asked) ≡ requests_of id asked
unfolding with_asking
requests_of-with_asking id none asked other = refl
requests_of-with_asking id (some r) asked other = requests_of-snoc id r asked other

requests_of-taken :
    (id : ℤ) (i : ℕ) (asked : List Request)
    → requests_of id asked ≡ (
        if is_for id (taken i asked).0
        then suc (requests_of id (taken i asked).1)
        else requests_of id (taken i asked).1)
unfolding requests_of taken
requests_of-taken id i [] = refl
requests_of-taken id zero (r ∷ asked) = refl
requests_of-taken id (suc i) (r ∷ asked) = ground (arith, requests_of-taken id i asked)

-- An event keeps the configuration of the user.
pub has_config-on_event :
    (id : ℤ) (event : PhoneEvent) (c : Context) (asked : List Request)
    → has_config id c ≡ true
    → has_config id (on_event event c asked).0.context ≡ true
unfolding on_event Keeps IsQuietFor
has_config-on_event id (arrives update) c asked h = (on_phone_call-Keeps id update c h).0
has_config-on_event id (answered dh i) c asked h =
    (on_answer-IsQuietFor id dh c (taken i asked).0 h).0

-- While a call with a user is being set up, each announcement uses up one of the user's requests that wait.
event_bound :
    (id : ℤ) (event : PhoneEvent) (c : Context) (asked : List Request) (n : ℕ)
    → has_config id c ≡ true
    → n ≤ requests_of id (on_event event c asked).1
    → (if is_announced id (on_event event c asked).0.announced then suc n else n)
      ≤ requests_of id asked
unfolding on_event Keeps IsQuietFor
event_bound id (arrives update) c asked n h below =
    let kept = on_phone_call-Keeps id update c h in
    rw (kept.1) (
      omega
        (arith, below, requests_of-with_asking id (on_phone_call update c).asking asked (kept.2)))
event_bound id (answered dh i) c asked n h below =
    let none_of = (on_answer-IsQuietFor id dh c (taken i asked).0 h).1 in
    elim (Bool-cases (is_for id (taken i asked).0)) [
      | inl own ↦ ground (arith, below, own, requests_of-taken id i asked)
      | inr other ↦ rw (none_of other) (ground (arith, below, other, requests_of-taken id i asked))
    ]

-- While a call with a user is being set up, the incoming calls of the user are announced at most as often as
-- requests of the user wait for the configuration from Telegram, which were looked at before: whatever
-- updates and answers come in whatever order, requests that arrive in this time add no announcement.
pub announcements-bound :
    (id : ℤ) (events : List PhoneEvent) (asked : List Request) (c : Context)
    → has_config id c ≡ true
    → announcements id events asked c ≤ requests_of id asked
unfolding announcements
announcements-bound id [] asked c h = omega arith
announcements-bound id (event ∷ events) asked c h =
    let (handled, asked') = on_event event c asked in
    event_bound id event c asked (announcements id events asked' handled.context) h (
      announcements-bound id events asked' handled.context (has_config-on_event id event c asked h))
