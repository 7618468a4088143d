-- ===== src/UserBot/GroupCalls.antt =====
-- src/vc/ubot/convert_group_call_id.go, convert_call_id.go, get_input_group_call.go, set_call_status.go, stop.go,
-- and the handler of UpdateGroupCall in handle_updates.go: the group call of each chat.
use yes.Prelude.{Bool, [], ◌∷◌, Option, none, some, ℤ, int_eq, eq_ℤ, if◌then◌else◌}
use yes.Prelude.Assoc.{Assoc, lookup, insert, remove}
use yes.UserBot.{Context, CallRef, stop_call, leave_call, edit_status, does, Ended, ok, if_done}
use yes.UserBot.Ids.{TgPeer, peer_chat, peer_channel, chat_of_peer, std_remove}

-- The loop of `convertGroupCallId`; a call that is nil is no `InputGroupCallObj`.
unfoldable pub find_group_call : ℤ → Assoc ℤ (Option CallRef) → Option ℤ
find_group_call call_id [] = none
find_group_call call_id ((chat_id, none) ∷ calls) = find_group_call call_id calls
find_group_call call_id ((chat_id, some call) ∷ calls) =
    if int_eq call.id call_id then some chat_id else find_group_call call_id calls

unfoldable pub convert_group_call_id : ℤ → Context → Option ℤ
unfolding find_group_call
convert_group_call_id call_id c = find_group_call call_id c.input_group_calls

-- The loop of `convertCallId`.
unfoldable pub find_call : ℤ → Assoc ℤ CallRef → Option ℤ
find_call call_id [] = none
find_call call_id ((chat_id, call) ∷ calls) =
    if int_eq call.id call_id then some chat_id else find_call call_id calls

unfoldable pub convert_call_id : ℤ → Context → Option ℤ
unfolding find_call
convert_call_id call_id c = find_call call_id c.input_calls

-- The answers of `ResolvePeer` and then of `ChannelsGetFullChannel` or `MessagesGetFullChat`, whose call
-- may be nil.
pub record FullChat : Type 0 where
  pub peer : Option TgPeer
  pub call : Option (Option CallRef)

unfoldable pub stored_call : ℤ → Option CallRef → Context → Context × Option CallRef
stored_call chat_id call c =
    (record c { input_group_calls = insert chat_id call c.input_group_calls }, call)

unfoldable pub full_call : ℤ → Option (Option CallRef) → Context → Context × Option CallRef
full_call chat_id none c = (c, none)
full_call chat_id (some call) c = stored_call chat_id call c

unfoldable pub fetched_call : ℤ → FullChat → Option TgPeer → Context → Context × Option CallRef
fetched_call chat_id full (some (peer_channel id)) c = full_call chat_id full.call c
fetched_call chat_id full (some (peer_chat id)) c = full_call chat_id full.call c
fetched_call chat_id full _ c = (c, none)

-- `none` is an error: the call is closed, or Telegram does not answer, or the chat is no group.
unfoldable pub get_input_group_call : FullChat → ℤ → Context → Context × Option CallRef
unfolding stored_call full_call fetched_call
get_input_group_call full chat_id c = elim (lookup chat_id c.input_group_calls) [
  | some call ↦ (c, call)
  | none ↦ fetched_call chat_id full full.peer c
]

-- `UpdateGroupCall` with its call.
pub data GroupCall : Type 0 where
  group_call : CallRef → GroupCall
  group_call_discarded : GroupCall
  other_group_call : GroupCall

unfoldable pub on_group_call : TgPeer → Option GroupCall → Context → Context
on_group_call peer none c = c
on_group_call peer (some (group_call call)) c = record c {
  input_group_calls = insert (chat_of_peer (ℤ.pos 0) peer) (some call) c.input_group_calls;
}
on_group_call peer (some group_call_discarded) c =
    does (stop_call (chat_of_peer (ℤ.pos 0) peer))
      (record c { input_group_calls = remove (chat_of_peer (ℤ.pos 0) peer) c.input_group_calls })
on_group_call peer (some other_group_call) c = c

-- `setCallStatus`, given whether Telegram takes the change.
unfoldable pub set_call_status : Bool → ℤ → Context → Context × Ended
set_call_status edited chat_id c =
    if_done edited "edit" (λ c'. (c', ok)) (does (edit_status chat_id) c)

-- `Stop`, given whether the call library stops the call and Telegram lets the assistant leave.
unfoldable pub stop_call_of : Bool → Bool → ℤ → Context → Context × Ended
stop_call_of done left chat_id c =
    if_done done "stop" (λ c'. if_done left "leave" (λ d. (d, ok)) (does (leave_call chat_id) c'))
      (does (stop_call chat_id) (record c {
        presentations = std_remove c.presentations chat_id;
        call_sources = remove chat_id c.call_sources;
      }))
