-- ===== src/UserBot/Unblocked.antt =====
-- Whether the steps of a call with one user wait forever for the mutex of connectCall.
use yes.Prelude.{
  ℕ, ◌≡◌, refl, ap, ◌∙◌, Bool, true, false, List, [], ◌∷◌, Option, none, some, String, ℤ,
  int_eq_iff, eq_ℤ, arith,
}
use yes.Prelude.Assoc.{lookup, lookup-insert}
use yes.UserBot.{
  Context, PhoneCall, P2pConfig, MediaDescription, create_p2p_call, set_sources, confirm_phone_call,
  does, Ended, waiting,
}
use yes.UserBot.Announced.{is_some, has_config, has_config-on_event}
use yes.UserBot.Phone.{Request, PhoneEvent, on_event, get_p2p_configs}
use yes.UserBot.Connect.{PhoneAnswers, ConfirmAnswer, confirm_failed, other_answer, confirmed_with}
use yes.UserBot.Dial.{
  with_config, at_config, put_config, after_connect_p2p, connect_to, connect_config, after_confirm,
  confirm, after_keys, wait_data, after_wait, after_offer, offer, after_user, after_exchange,
  after_p2p_sources, after_create_p2p, create_p2p, configured, dial_with,
}

abbrev pub is_waiting : Ended → Bool
is_waiting waiting = true
is_waiting _ = false

-- Telegram answers a confirmation with another constructor of `tg.PhoneCall`.
abbrev pub is_other_answer : ConfirmAnswer → Bool
is_other_answer other_answer = true
is_other_answer _ = false

-- A method that does not end with such a wait.
unfoldable pub IsUnblocked : Context × Ended → Type 0
IsUnblocked r = is_waiting r.1 ≡ false

with_config-IsUnblocked :
    (id : ℤ) (next : P2pConfig → Context → Context × Ended) (c : Context) (o : Option P2pConfig)
    → is_some o ≡ true
    → ((config : P2pConfig) → IsUnblocked (next config c))
    → IsUnblocked (with_config id next c o)
unfolding with_config
with_config-IsUnblocked id next c none h next_ends = ground (arith, h)
with_config-IsUnblocked id next c (some config) h next_ends = next_ends config

at_config-IsUnblocked :
    (id : ℤ) (next : P2pConfig → Context → Context × Ended) (c : Context)
    → has_config id c ≡ true
    → ((config : P2pConfig) → IsUnblocked (next config c))
    → IsUnblocked (at_config id next c)
unfolding at_config
at_config-IsUnblocked id next c h next_ends =
    with_config-IsUnblocked id next c (lookup id c.p2p_configs) h next_ends

has_config-put_config :
    (id : ℤ) (config : P2pConfig) (c : Context) → has_config id (put_config id config c) ≡ true
unfolding put_config
has_config-put_config id config c =
    ap is_some (lookup-insert id id config c.p2p_configs) ∙ ground (arith, int_eq_iff id id)

connect_to-IsUnblocked :
    (a : PhoneAnswers) (id : ℤ) (call : Option PhoneCall) (c : Context)
    → IsUnblocked (connect_to a id call c)
unfolding connect_to after_connect_p2p IsUnblocked
connect_to-IsUnblocked a id call c = ground arith

connect_config-IsUnblocked :
    (a : PhoneAnswers) (id : ℤ) (c : Context)
    → has_config id c ≡ true
    → IsUnblocked (connect_config a id c)
unfolding connect_config
connect_config-IsUnblocked a id c h =
    at_config-IsUnblocked id _ c h (λ config. connect_to-IsUnblocked a id config.phone_call c)

after_confirm-IsUnblocked :
    (a : PhoneAnswers) (id : ℤ) (answer : ConfirmAnswer) (c : Context)
    → is_other_answer answer ≡ false
    → has_config id c ≡ true
    → IsUnblocked (after_confirm a id answer c)
unfolding after_confirm IsUnblocked
after_confirm-IsUnblocked a id confirm_failed c usual h = refl
after_confirm-IsUnblocked a id other_answer c usual h = ground (arith, usual)
after_confirm-IsUnblocked a id (confirmed_with call) c usual h =
    at_config-IsUnblocked id _ c h (λ config.
      connect_config-IsUnblocked a id (put_config id (record config { phone_call = some call }) c)
        (has_config-put_config id (record config { phone_call = some call }) c))

has_config-wait_data :
    (id : ℤ) (events : List PhoneEvent) (asked : List Request) (c : Context)
    → has_config id c ≡ true
    → has_config id (wait_data id events asked c).0 ≡ true
unfolding wait_data
has_config-wait_data id [] asked c h = h
has_config-wait_data id (event ∷ events) asked c h =
    let (handled, asked') = on_event event c asked in
    let kept = has_config-on_event id event c asked h in
    ground (arith, kept, has_config-wait_data id events asked' handled.context kept)

-- With usual answers no step blocks.
module _ (a : PhoneAnswers) (id : ℤ) (usual : is_other_answer a.confirmed ≡ false) where
  confirm-IsUnblocked :
      (outgoing : Bool) (c : Context)
      → has_config id c ≡ true
      → IsUnblocked (confirm a id outgoing c)
  unfolding confirm
  confirm-IsUnblocked false c h = connect_config-IsUnblocked a id c h
  confirm-IsUnblocked true c h =
      after_confirm-IsUnblocked a id a.confirmed
        (does (confirm_phone_call id (lookup id c.input_calls)) c) usual h

  after_keys-IsUnblocked :
      (done : Bool) (c : Context) → has_config id c ≡ true → IsUnblocked (after_keys a id done c)
  unfolding after_keys IsUnblocked
  after_keys-IsUnblocked false c h = refl
  after_keys-IsUnblocked true c h =
      at_config-IsUnblocked id _ c h (λ config. confirm-IsUnblocked config.is_outgoing c h)

  after_wait-IsUnblocked :
      (r : Context × Option (Option String))
      → has_config id r.0 ≡ true
      → IsUnblocked (after_wait a id r)
  unfolding after_wait IsUnblocked
  after_wait-IsUnblocked (c, none) h = refl
  after_wait-IsUnblocked (c, some (some error)) h = refl
  after_wait-IsUnblocked (c, some none) h =
      at_config-IsUnblocked id _ c h (λ config. after_keys-IsUnblocked a.keys c h)

  after_offer-IsUnblocked :
      (done : Bool) (c : Context) → has_config id c ≡ true → IsUnblocked (after_offer a id done c)
  unfolding after_offer IsUnblocked
  after_offer-IsUnblocked false c h = refl
  after_offer-IsUnblocked true c h =
      after_wait-IsUnblocked (wait_data id a.arriving a.asked c)
        (has_config-wait_data id a.arriving a.asked c h)

  offer-IsUnblocked :
      (media : MediaDescription) (outgoing : Bool) (c : Context)
      → has_config id c ≡ true
      → IsUnblocked (offer a id media outgoing c)
  unfolding offer
  offer-IsUnblocked media true c h = after_offer-IsUnblocked a.taken (does _ c) h
  offer-IsUnblocked media false c h = after_offer-IsUnblocked a.taken (does _ c) h

  after_user-IsUnblocked :
      (media : MediaDescription) (done : Bool) (c : Context)
      → has_config id c ≡ true
      → IsUnblocked (after_user a id media done c)
  unfolding after_user IsUnblocked
  after_user-IsUnblocked media false c h = refl
  after_user-IsUnblocked media true c h =
      at_config-IsUnblocked id _ c h (λ config. offer-IsUnblocked media config.is_outgoing c h)

  after_exchange-IsUnblocked :
      (media : MediaDescription) (exchanged : Option (List ℕ)) (c : Context)
      → has_config id c ≡ true
      → IsUnblocked (after_exchange a id media exchanged c)
  unfolding after_exchange IsUnblocked
  after_exchange-IsUnblocked media none c h = refl
  after_exchange-IsUnblocked media (some g) c h = at_config-IsUnblocked id _ c h (λ config.
      after_user-IsUnblocked media a.user (put_config id (record config { g_a_or_b = some g }) c)
        (has_config-put_config id (record config { g_a_or_b = some g }) c))

  after_p2p_sources-IsUnblocked :
      (media : MediaDescription) (done : Bool) (c : Context)
      → has_config id c ≡ true
      → IsUnblocked (after_p2p_sources a id media done c)
  unfolding after_p2p_sources IsUnblocked
  after_p2p_sources-IsUnblocked media false c h = refl
  after_p2p_sources-IsUnblocked media true c h =
      at_config-IsUnblocked id _ c h (λ config. after_exchange-IsUnblocked media a.exchanged c h)

  create_p2p-IsUnblocked :
      (media : MediaDescription) (c : Context)
      → has_config id c ≡ true
      → IsUnblocked (create_p2p a id media c)
  unfolding create_p2p after_create_p2p IsUnblocked
  create_p2p-IsUnblocked media c h =
      let d = does (set_sources id media) (does (create_p2p_call id) c) in
      ground (arith, after_p2p_sources-IsUnblocked media a.sources_set d h)

  configured-IsUnblocked :
      (media : MediaDescription) (o : Option P2pConfig) (c : Context)
      → IsUnblocked (configured a id media o c)
  unfolding configured IsUnblocked
  configured-IsUnblocked media none c = refl
  configured-IsUnblocked media (some config) c =
      create_p2p-IsUnblocked media (put_config id config c) (has_config-put_config id config c)

  pub dial_with-IsUnblocked :
      (media : MediaDescription) (o : Option P2pConfig) (c : Context)
      → lookup id c.p2p_configs ≡ o
      → IsUnblocked (dial_with a id media o c)
  unfolding dial_with
  dial_with-IsUnblocked media (some config) c own = create_p2p-IsUnblocked media c (ap is_some own)
  dial_with-IsUnblocked media none c own =
      configured-IsUnblocked media (get_p2p_configs a.dh none) c
