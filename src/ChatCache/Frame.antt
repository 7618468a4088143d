-- ===== src/ChatCache/Frame.antt =====
-- The chat cache, chat by chat: an abstract cache that gives each chat an optional state of its own,
-- and the proof that the methods that write implement it.
use yes.Prelude.{
  ◌≡◌, Bool, true, ◌&&◌, List, [], ◌∷◌, ◌++◌, Option, none, some, ℤ, pos, ltb_ℤ, leb_ℤ, pos_part,
  length, arith, eq_ℤ, int_eq_iff, ◌==◌, if◌then◌else◌,
}
use yes.Prelude.Assoc.{lookup-insert, lookup-remove}
use yes.Track.{Ref}
use yes.ChatCache.{
  ChatData, ChatCacher, chat_at, add_song, remove_current_song, set_active, clear_chat, remove_at,
  remove_track,
}

-- A call of a method that writes to the cache, without its chat.
pub data Call : Type 0 where
  append : Ref → Call
  pop : Call
  activate : Bool → Call
  forget : Call
  drop_at : ℤ → Call

-- The call on the cache of all chats.
unfoldable pub perform : ℤ → Call → ChatCacher → ChatCacher
perform chat_id (append r) c = add_song chat_id r c
perform chat_id pop c = (remove_current_song chat_id c).0
perform chat_id (activate active) c = set_active chat_id active c
perform chat_id forget c = clear_chat chat_id c
perform chat_id (drop_at index) c = (remove_track chat_id index c).0

-- The state of one chat: absent, or its flag and its queue.
abbrev pub ChatState : Type 0
ChatState = Option ChatData

without_head : List Ref → List Ref
without_head [] = []
without_head (r ∷ q) = q

in_queue : ℤ → List Ref → Bool
in_queue index q = leb_ℤ (pos 0) index && ltb_ℤ index (pos (length q))

-- What the call means for the one chat that it names.
unfoldable pub meaning : Call → ChatState → ChatState
unfolding without_head in_queue
meaning (append r) none = some (record { is_active = true; queue = r ∷ [] })
meaning (append r) (some d) = some (record d { queue = d.queue ++ r ∷ [] })
meaning pop none = none
meaning pop (some d) = some (record d { queue = without_head d.queue })
meaning (activate active) none = some (record { is_active = active; queue = [] })
meaning (activate active) (some d) = some (record d { is_active = active })
meaning forget s = none
meaning (drop_at index) none = none
meaning (drop_at index) (some d) =
    if in_queue index d.queue
    then some (record d { queue = remove_at (pos_part index) d.queue })
    else some d

-- A call changes the state of its chat as `meaning` says, and no other chat.
pub chat_at-perform :
    (chat_id j : ℤ) (call : Call) (c : ChatCacher)
    → chat_at j (perform chat_id call c)
      ≡ (if chat_id == j then meaning call (chat_at chat_id c) else chat_at j c)
unfolding perform meaning add_song remove_current_song set_active clear_chat remove_track
chat_at-perform chat_id j (append r) c = rw lookup-insert (ground (arith, int_eq_iff chat_id j))
chat_at-perform chat_id j pop c = grind (arith, lookup-insert, lookup-remove, int_eq_iff)
chat_at-perform chat_id j (activate active) c =
    rw lookup-insert (ground (arith, int_eq_iff chat_id j))
chat_at-perform chat_id j forget c = grind (arith, lookup-insert, lookup-remove, int_eq_iff)
chat_at-perform chat_id j (drop_at index) c =
    grind (arith, lookup-insert, lookup-remove, int_eq_iff)
