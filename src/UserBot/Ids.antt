-- ===== src/UserBot/Ids.antt =====
-- src/vc/ubot/parse_chat_id.go, get_participant_id.go, std_remove.go: the ids of peers and chats.
use yes.Prelude.{
  ℕ, ◌+◌, ◌≤◌, ◌≡◌, ap, pos_part, neg_part, not, ◌&&◌, List, [], ◌∷◌, Option, none, some, ℤ, pos,
  negsuc, ◌-ℤ◌, ◌<ℤ◌, int_eq, int_eq_iff, arith, if◌then◌else◌,
}
use yes.Database.Utilities.{contains}

-- `tg.TgPeer`, and `tg.InputPeer` and the answer of `ResolveUsername` with their ids.
pub data TgPeer : Type 0 where
  peer_user peer_chat peer_channel : ℤ → TgPeer
  other_peer : TgPeer

-- The argument of `parseChatId`.
pub data ChatId : Type 0 where
  of_peer : TgPeer → ChatId
  of_int : ℤ → ChatId
  of_text : ChatId
  of_other : ChatId

-- The three switches on a peer. A channel's id stands behind the prefix -100.
unfoldable pub chat_of_peer : ℤ → TgPeer → ℤ
chat_of_peer default (peer_user id) = id
chat_of_peer default (peer_chat id) = pos 0 -ℤ id
chat_of_peer default (peer_channel id) = negsuc 999999999999 -ℤ id
chat_of_peer default other_peer = default

-- `resolved` is the answer of `ResolveUsername` or `GetInputPeer`; `none` is an error.
unfoldable pub parse_chat_id : Option TgPeer → ChatId → Option ℤ
unfolding chat_of_peer
parse_chat_id resolved (of_peer peer) = some (chat_of_peer (pos 0) peer)
parse_chat_id resolved (of_int id) = elim resolved [
  | none ↦ none
  | some peer ↦ some (chat_of_peer id peer)
]
parse_chat_id resolved of_text = elim resolved [
  | none ↦ none
  | some peer ↦ some (chat_of_peer (pos 0) peer)
]
parse_chat_id resolved of_other = none

unfoldable pub get_participant_id : TgPeer → ℤ
get_participant_id (peer_user id) = id
get_participant_id (peer_channel id) = id
get_participant_id (peer_chat id) = id
get_participant_id other_peer = pos 0

unfoldable pub std_remove : List ℤ → ℤ → List ℤ
std_remove [] value = []
std_remove (v ∷ slice) value =
    let rest = std_remove slice value in if not (int_eq v value) then v ∷ rest else rest

-- The ids that Telegram gives: positive, and those of basic groups below the prefix of channels.
abbrev pub IsTelegram : TgPeer → Type 0
IsTelegram (peer_user id) = pos 0 <ℤ id
IsTelegram (peer_chat id) = (pos 0 <ℤ id) × (id <ℤ pos 1000000000000)
IsTelegram (peer_channel id) = pos 0 <ℤ id
IsTelegram other_peer = 1 ≤ 0

-- A number by its parts.
parts : ℤ → ℕ × ℕ
parts a = (pos_part a, neg_part a)

eq_of_parts :
    (a b : ℤ) → pos 0 <ℤ a → pos 0 <ℤ b → pos_part a + neg_part b ≡ pos_part b + neg_part a → a ≡ b
eq_of_parts (pos a) (pos b) h k e = ap pos (omega arith)
eq_of_parts (pos a) (negsuc b) h k e = absurd (omega arith)
eq_of_parts (negsuc a) b h k e = absurd (omega arith)

-- Peers of Telegram have different chat ids, whatever their kinds are.
pub chat_of_peer-injective :
    (default : ℤ) (a b : TgPeer)
    → IsTelegram a
    → IsTelegram b
    → chat_of_peer default a ≡ chat_of_peer default b
    → a ≡ b
unfolding chat_of_peer ◌-ℤ◌ parts
chat_of_peer-injective default (peer_user a) (peer_user b) h k e = ap peer_user e
chat_of_peer-injective default (peer_user a) (peer_chat b) h k e =
    absurd (ground (arith, ap parts e))
chat_of_peer-injective default (peer_user a) (peer_channel b) h k e =
    absurd (ground (arith, ap parts e))
chat_of_peer-injective default (peer_chat a) (peer_user b) h k e =
    absurd (ground (arith, ap parts e))
chat_of_peer-injective default (peer_chat a) (peer_chat b) h k e =
    ap peer_chat (eq_of_parts a b h.0 k.0 (ground (arith, ap parts e)))
chat_of_peer-injective default (peer_chat a) (peer_channel b) h k e =
    absurd (ground (arith, ap parts e))
chat_of_peer-injective default (peer_channel a) (peer_user b) h k e =
    absurd (ground (arith, ap parts e))
chat_of_peer-injective default (peer_channel a) (peer_chat b) h k e =
    absurd (ground (arith, ap parts e))
chat_of_peer-injective default (peer_channel a) (peer_channel b) h k e =
    ap peer_channel (eq_of_parts a b h k (ground (arith, ap parts e)))
chat_of_peer-injective default other_peer b h k e = absurd (omega arith)
chat_of_peer-injective default (peer_user a) other_peer h k e = absurd (omega arith)
chat_of_peer-injective default (peer_chat a) other_peer h k e = absurd (omega arith)
chat_of_peer-injective default (peer_channel a) other_peer h k e = absurd (omega arith)

pub contains-std_remove :
    (slice : List ℤ) (value j : ℤ)
    → contains (std_remove slice value) j ≡ (not (int_eq value j) && contains slice j)
unfolding contains std_remove
contains-std_remove [] value j = ground arith
contains-std_remove (v ∷ slice) value j = ground (
  arith,
  int_eq_iff v value,
  int_eq_iff v j,
  int_eq_iff value j,
  contains-std_remove slice value j,
)
