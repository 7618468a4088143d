-- ===== src/UserBot/Dial.antt =====
-- The branch of connectCall in src/vc/ubot/connect_call.go that calls one user, each function a step with the answer
-- before it.
use yes.Prelude.{
  ℕ, Bool, true, false, ◌||◌, List, [], ◌∷◌, Option, none, some, String, ℤ, int_eq, eq_ℤ,
  if◌then◌else◌,
}
use yes.Prelude.Assoc.{lookup, insert}
use yes.UserBot.{
  Context, PhoneCall, P2pConfig, MediaDescription, create_p2p_call, set_sources, connect_p2p,
  request_phone_call, accept_phone_call, confirm_phone_call, does, Ended, ok, failed, panicked,
  waiting,
}
use yes.UserBot.Phone.{Request, PhoneEvent, Sent, get_p2p_configs, on_event}
use yes.UserBot.Connect.{PhoneAnswers, ConfirmAnswer, confirm_failed, other_answer, confirmed_with}

-- The next step with the configuration of the user. Without one the program panics while it holds `p2pMutex`, which the
-- deferred function then waits for.
unfoldable pub with_config :
    ℤ → (P2pConfig → Context → Context × Ended) → Context → Option P2pConfig → Context × Ended
with_config chat_id next c none = (c, waiting)
with_config chat_id next c (some config) = next config c

unfoldable pub at_config : ℤ → (P2pConfig → Context → Context × Ended) → Context → Context × Ended
at_config chat_id next c = with_config chat_id next c (lookup chat_id c.p2p_configs)

unfoldable pub put_config : ℤ → P2pConfig → Context → Context
put_config chat_id config c = record c { p2p_configs = insert chat_id config c.p2p_configs }

unfoldable pub after_connect_p2p : Bool → Context → Context × Ended
after_connect_p2p false c = (c, failed "connect_p2p")
after_connect_p2p true c = (c, ok)

unfoldable pub connect_to : PhoneAnswers → ℤ → Option PhoneCall → Context → Context × Ended
connect_to a chat_id none c = (c, panicked)
connect_to a chat_id (some call) c = after_connect_p2p a.is_connected (does (connect_p2p chat_id) c)

unfoldable pub connect_config : PhoneAnswers → ℤ → Context → Context × Ended
connect_config a chat_id c = at_config chat_id (λ config. connect_to a chat_id config.phone_call) c

-- Another answer panics while the method holds `p2pMutex`.
unfoldable pub after_confirm : PhoneAnswers → ℤ → ConfirmAnswer → Context → Context × Ended
after_confirm a chat_id confirm_failed c = (c, failed "confirm")
after_confirm a chat_id other_answer c = (c, waiting)
after_confirm a chat_id (confirmed_with call) c =
    at_config chat_id
      (λ config d.
        connect_config a chat_id (put_config chat_id (record config { phone_call = some call }) d))
      c

unfoldable pub confirm : PhoneAnswers → ℤ → Bool → Context → Context × Ended
confirm a chat_id false c = connect_config a chat_id c
confirm a chat_id true c =
    after_confirm a chat_id a.confirmed
      (does (confirm_phone_call chat_id (lookup chat_id c.input_calls)) c)

unfoldable pub after_keys : PhoneAnswers → ℤ → Bool → Context → Context × Ended
after_keys a chat_id false c = (c, failed "keys")
after_keys a chat_id true c = at_config chat_id (λ config. confirm a chat_id config.is_outgoing) c

-- The receive from `WaitData`: the first send to it of the updates that arrive in ten seconds.
sent_to : ℤ → Option Sent → Option (Option String)
sent_to chat_id none = none
sent_to chat_id (some sent) = if int_eq sent.user_id chat_id then some sent.error else none

unfoldable pub wait_data :
    ℤ → List PhoneEvent → List Request → Context → Context × Option (Option String)
unfolding sent_to
wait_data chat_id [] asked c = (c, none)
wait_data chat_id (event ∷ events) asked c =
    let (h, asked') = on_event event c asked in
    let rest = wait_data chat_id events asked' h.context in
    elim (sent_to chat_id h.sent) [ none ↦ rest | some error ↦ (h.context, some error) ]

unfoldable pub after_wait : PhoneAnswers → ℤ → Context × Option (Option String) → Context × Ended
after_wait a chat_id (c, none) = (c, failed "timed out waiting for an answer")
after_wait a chat_id (c, some (some error)) = (c, failed error)
after_wait a chat_id (c, some none) =
    at_config chat_id (λ config d. after_keys a chat_id a.keys d) c

-- `PhoneRequestCall` or `PhoneAcceptCall`.
unfoldable pub after_offer : PhoneAnswers → ℤ → Bool → Context → Context × Ended
after_offer a chat_id false c = (c, failed "offer")
after_offer a chat_id true c = after_wait a chat_id (wait_data chat_id a.arriving a.asked c)

unfoldable pub offer : PhoneAnswers → ℤ → MediaDescription → Bool → Context → Context × Ended
offer a chat_id media true c =
    after_offer a chat_id a.taken
      (does (request_phone_call chat_id (media.camera || media.screen)) c)
offer a chat_id media false c =
    after_offer a chat_id a.taken
      (does (accept_phone_call chat_id (lookup chat_id c.input_calls)) c)

unfoldable pub after_user : PhoneAnswers → ℤ → MediaDescription → Bool → Context → Context × Ended
after_user a chat_id media false c = (c, failed "user")
after_user a chat_id media true c =
    at_config chat_id (λ config. offer a chat_id media config.is_outgoing) c

unfoldable pub after_exchange :
    PhoneAnswers → ℤ → MediaDescription → Option (List ℕ) → Context → Context × Ended
after_exchange a chat_id media none c = (c, failed "exchange")
after_exchange a chat_id media (some g_a_or_b) c =
    at_config chat_id
      (λ config d.
        after_user a chat_id media a.user
          (put_config chat_id (record config { g_a_or_b = some g_a_or_b }) d))
      c

unfoldable pub after_p2p_sources :
    PhoneAnswers → ℤ → MediaDescription → Bool → Context → Context × Ended
after_p2p_sources a chat_id media false c = (c, failed "sources")
after_p2p_sources a chat_id media true c =
    at_config chat_id (λ config. after_exchange a chat_id media a.exchanged) c

unfoldable pub after_create_p2p :
    PhoneAnswers → ℤ → MediaDescription → Bool → Context → Context × Ended
after_create_p2p a chat_id media false c = (c, failed "create")
after_create_p2p a chat_id media true c =
    after_p2p_sources a chat_id media a.sources_set (does (set_sources chat_id media) c)

unfoldable pub create_p2p : PhoneAnswers → ℤ → MediaDescription → Context → Context × Ended
create_p2p a chat_id media c =
    after_create_p2p a chat_id media a.created (does (create_p2p_call chat_id) c)

unfoldable pub configured :
    PhoneAnswers → ℤ → MediaDescription → Option P2pConfig → Context → Context × Ended
configured a chat_id media none c = (c, failed "dh_config")
configured a chat_id media (some config) c =
    create_p2p a chat_id media (put_config chat_id config c)

unfoldable pub dial_with :
    PhoneAnswers → ℤ → MediaDescription → Option P2pConfig → Context → Context × Ended
dial_with a chat_id media (some config) c = create_p2p a chat_id media c
dial_with a chat_id media none c = configured a chat_id media (get_p2p_configs a.dh none) c

unfoldable pub connect_user : PhoneAnswers → ℤ → MediaDescription → Context → Context × Ended
unfolding with_config at_config put_config after_connect_p2p connect_to connect_config after_confirm
    confirm after_keys after_wait after_offer offer after_user after_exchange after_p2p_sources
    after_create_p2p create_p2p configured dial_with wait_data
connect_user a chat_id media c = dial_with a chat_id media (lookup chat_id c.p2p_configs) c
