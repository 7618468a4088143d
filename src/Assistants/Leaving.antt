-- ===== src/Assistants/Leaving.antt =====
-- LeaveAll of src/vc/leave_all.go: the assistants leave the chats that are not active.
use yes.Prelude.{
  ℕ, suc, ◌≡◌, refl, Bool, true, false, ◌||◌, List, [], ◌∷◌, ◌++◌, Option, none, some, ℤ, pos, ◌<ℤ◌,
  ◌≤ℤ◌, int_eq, int_eq_iff, if◌then◌else◌, All, arith,
}
use yes.ChatCache.{ChatCacher, get_active_chats, new_chat_cacher}
use yes.Database.Utilities.{contains}
use yes.UserBot.Ids.{TgPeer, peer_user, peer_chat, peer_channel, other_peer}

-- The id by which a dialog is left.
unfoldable pub dialog_id : TgPeer → ℤ
dialog_id (peer_channel id) = id
dialog_id (peer_chat id) = id
dialog_id (peer_user id) = pos 0
dialog_id other_peer = pos 0

-- The calls of `LeaveChannel` for the dialogs of one assistant, in order.
unfoldable pub leave_dialogs : List ℤ → List TgPeer → List ℤ
unfolding dialog_id
leave_dialogs active [] = []
leave_dialogs active (d ∷ dialogs) =
    let later = leave_dialogs active dialogs in
    if int_eq (dialog_id d) (pos 0) || contains active (dialog_id d)
    then later
    else dialog_id d ∷ later

-- How many of the calls succeed; `leaves` is the answer of Telegram.
unfoldable pub left_count : (ℤ → Bool) → List ℤ → ℕ
left_count leaves [] = 0
left_count leaves (id ∷ ids) =
    let later = left_count leaves ids in if leaves id then suc later else later

-- The loop over the assistants, each with its dialogs or an error: the calls that are made, and whether
-- the loop ends without an error.
unfoldable pub leave_each : List ℤ → List (Option (List TgPeer)) → List ℤ × Bool
unfolding leave_dialogs
leave_each active [] = ([], true)
leave_each active (none ∷ calls) = ([], false)
leave_each active (some dialogs ∷ calls) =
    let (later, is_done) = leave_each active calls in
    (leave_dialogs active dialogs ++ later, is_done)

-- The calls of `LeaveChannel`, the number that is returned, and whether there is no error.
unfoldable pub leave_all : (ℤ → Bool) → List (Option (List TgPeer)) → ChatCacher → List ℤ × ℕ × Bool
unfolding leave_each left_count
leave_all leaves calls c =
    let (asked, is_done) = leave_each (get_active_chats c) calls in
    (asked, left_count leaves asked, is_done)

-- The ids of Telegram's peers are positive.
unfoldable pub IsPeerId : TgPeer → Type 0
unfolding dialog_id
IsPeerId d = (pos 0 ≤ℤ dialog_id d)

contains-positive :
    (active : List ℤ) (id : ℤ)
    → All (λ a. a <ℤ pos 0) active
    → pos 0 ≤ℤ id
    → contains active id ≡ false
unfolding contains
contains-positive [] id h k = refl
contains-positive (a ∷ active) id (h, hs) k =
    ground (arith, int_eq_iff a id, h, k, contains-positive active id hs k)

leave_dialogs-negative :
    (active : List ℤ) (dialogs : List TgPeer)
    → All (λ a. a <ℤ pos 0) active
    → All IsPeerId dialogs
    → leave_dialogs active dialogs ≡ leave_dialogs [] dialogs
unfolding leave_dialogs contains IsPeerId
leave_dialogs-negative active [] h k = refl
leave_dialogs-negative active (d ∷ dialogs) h (k, ks) =
    ground (
      arith,
      contains-positive active (dialog_id d) h k,
      leave_dialogs-negative active dialogs h ks,
    )

-- The dialogs of one assistant, if they were read.
unfoldable pub ArePeers : Option (List TgPeer) → Type 0
ArePeers none = Unit
ArePeers (some dialogs) = All IsPeerId dialogs

leave_each-negative :
    (active : List ℤ) (calls : List (Option (List TgPeer)))
    → All (λ a. a <ℤ pos 0) active
    → All ArePeers calls
    → leave_each active calls ≡ leave_each [] calls
unfolding leave_each ArePeers
leave_each-negative active [] h k = refl
leave_each-negative active (none ∷ calls) h k = refl
leave_each-negative active (some dialogs ∷ calls) h (k, ks) = λ i.
    let (later, is_done) = leave_each-negative active calls h ks i in
    (leave_dialogs-negative active dialogs h k i ++ later, is_done)

-- If the active chats have negative ids, as groups and channels have them in the cache, and the ids of the
-- peers are not negative, then LeaveAll leaves the active chats too: it does what it would do if no chat
-- were active.
pub leave_all_active :
    (leaves : ℤ → Bool) (calls : List (Option (List TgPeer))) (c : ChatCacher)
    → All (λ a. a <ℤ pos 0) (get_active_chats c)
    → All ArePeers calls
    → leave_all leaves calls c ≡ leave_all leaves calls new_chat_cacher
unfolding leave_all get_active_chats
leave_all_active leaves calls c h k = λ i.
    let (asked, is_done) = leave_each-negative (get_active_chats c) calls h k i in
    (asked, left_count leaves asked, is_done)
