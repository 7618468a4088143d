-- ===== src/UserBot/Connect.antt =====
-- connectCall in src/vc/ubot/connect_call.go, and the handler of OnConnectionChange in handle_updates.go. What Telegram
-- and the call library answer, and what arrives while the method waits, is a record of answers.
use yes.Prelude.{
  ℕ, Bool, true, false, List, [], ◌∷◌, ◌++◌, Option, none, some, String, ℤ, ltb, length, str_eq,
  eq_ℤ, if◌then◌else◌,
}
use yes.Prelude.Assoc.{lookup, insert}
use yes.UserBot.{
  Context, CallRef, PhoneCall, MediaDescription, Change, connected, timed_out, other_change,
  Channel, create_call, stop_call, set_sources, join_call, connect, does, Ended, ok, failed,
  panicked,
}
use yes.UserBot.GroupCalls.{FullChat, get_input_group_call}
use yes.UserBot.Phone.{Request, PhoneEvent}

pub data Mode : Type 0 where
  stream_connection rtc_connection other_connection : Mode

-- The answer to a join: an error, updates, of which those on the connection give its parameters, or another
-- constructor of `tg.Updates`.
pub data JoinAnswer : Type 0 where
  join_failed other_updates : JoinAnswer
  joined_with : List (Option String) → JoinAnswer

-- The answer to a confirmation: an error, the connected call, or another constructor of `tg.PhoneCall`.
pub data ConfirmAnswer : Type 0 where
  confirm_failed other_answer : ConfirmAnswer
  confirmed_with : PhoneCall → ConfirmAnswer

pub record GroupAnswers : Type 0 where
  pub created : Option String
  pub sources_set : Bool
  pub full : FullChat
  pub joined : JoinAnswer
  pub is_connected : Bool
  pub mode : Option Mode

-- `asked` and `arriving` are the requests for which the handlers wait, and what happens in the handlers then.
pub record PhoneAnswers : Type 0 where
  pub dh : Bool
  pub created : Bool
  pub sources_set : Bool
  pub exchanged : Option (List ℕ)
  pub user : Bool
  pub taken : Bool
  pub asked : List Request
  pub arriving : List PhoneEvent
  pub keys : Bool
  pub confirmed : ConfirmAnswer
  pub is_connected : Bool

pub record Answers : Type 0 where
  pub group : GroupAnswers
  pub phone : PhoneAnswers
  pub changes : List (ℤ × Change)

-- A send on a channel; `false` blocks.
unfoldable pub send : Change → Channel → Channel × Bool
send change ch =
    if ltb (length ch.held) ch.capacity
    then (record ch { held = ch.held ++ change ∷ [] }, true)
    else (ch, false)

unfoldable pub send_to : ℤ → Change → Context → Option Channel → Context × Bool
send_to chat_id change c none = (c, true)
send_to chat_id other_change c (some ch) = (c, true)
send_to chat_id change c (some ch) = (
  record c { wait_connect = insert chat_id (send change ch).0 c.wait_connect },
  (send change ch).1,
)

-- `false` if the handler blocks.
unfoldable pub on_connection_change : ℤ → Change → Context → Context × Bool
unfolding send send_to
on_connection_change chat_id change c = send_to chat_id change c (lookup chat_id c.wait_connect)

unfoldable pub after_changes : List (ℤ × Change) → Context → Context
after_changes [] c = c
after_changes ((chat_id, change) ∷ changes) c =
    after_changes changes (on_connection_change chat_id change c).0

-- The receive that ends connectCall.
unfoldable pub received : Option Channel → Ended
received none = failed "timed out waiting for connection"
received (some ch) = elim (ch.held) [
  | [] ↦ failed "timed out waiting for connection"
  | connected ∷ _ ↦ ok
  | timed_out ∷ _ ↦ failed "connection timeout"
  | _ ∷ _ ↦ failed "connection failed"
]

unfoldable pub wait_connection : List (ℤ × Change) → ℤ → Context × Ended → Context × Ended
unfolding received
wait_connection changes chat_id (c, ok) =
    let c' = after_changes changes c in (c', received (lookup chat_id c'.wait_connect))
wait_connection changes chat_id (c, e) = (c, e)

-- The branch of a group, each function a step with the answer before it.
unfoldable pub stopped_with : ℤ → String → Context → Context × Ended
stopped_with chat_id error c = (does (stop_call chat_id) c, failed error)

-- The last of the updates on the connection.
unfoldable pub result_params : String → List (Option String) → String
result_params params [] = params
result_params params (none ∷ updates) = result_params params updates
result_params params (some data_json ∷ updates) = result_params data_json updates

unfoldable pub after_mode : ℤ → MediaDescription → String → Option Mode → Context → Context × Ended
after_mode chat_id media params none c = (c, failed "connection_mode")
after_mode chat_id media params (some stream_connection) c = if str_eq params "" then (c, ok) else (
  record c {
    pending_connections =
        insert chat_id (record { media = media; payload = params; presentation = false })
          c.pending_connections;
  },
  ok,
)
after_mode chat_id media params (some _) c = (c, ok)

unfoldable pub after_connect :
    GroupAnswers → ℤ → MediaDescription → String → Bool → Context → Context × Ended
after_connect a chat_id media params false c = (c, failed "connect")
after_connect a chat_id media params true c = after_mode chat_id media params a.mode c

unfoldable pub after_join :
    GroupAnswers → ℤ → MediaDescription → String → JoinAnswer → Context → Context × Ended
after_join a chat_id media params join_failed c = (c, failed "join")
after_join a chat_id media params other_updates c = (c, panicked)
after_join a chat_id media params (joined_with updates) c =
    after_connect a chat_id media params a.is_connected
      (does (connect chat_id (result_params "{\"transport\": null}" updates) false) c)

unfoldable pub after_input_call :
    GroupAnswers → ℤ → MediaDescription → String → Context × Option CallRef → Context × Ended
after_input_call a chat_id media params (c, none) = stopped_with chat_id "input_group_call" c
after_input_call a chat_id media params (c, some call) =
    after_join a chat_id media params a.joined (does (join_call chat_id) c)

unfoldable pub after_sources :
    GroupAnswers → ℤ → MediaDescription → String → Bool → Context → Context × Ended
after_sources a chat_id media params false c = stopped_with chat_id "sources" c
after_sources a chat_id media params true c =
    after_input_call a chat_id media params (get_input_group_call a.full chat_id c)

unfoldable pub after_create :
    GroupAnswers → ℤ → MediaDescription → Option String → Context → Context × Ended
after_create a chat_id media none c = stopped_with chat_id "create" c
after_create a chat_id media (some params) c =
    after_sources a chat_id media params a.sources_set (does (set_sources chat_id media) c)

unfoldable pub connect_group : GroupAnswers → ℤ → MediaDescription → Context → Context × Ended
unfolding stopped_with result_params after_mode after_connect after_join after_input_call
    after_sources after_create
connect_group a chat_id media c =
    after_create a chat_id media a.created (does (create_call chat_id) c)
