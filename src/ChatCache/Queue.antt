-- ===== src/ChatCache/Queue.antt =====
-- Sequences of calls on the chat cache: many chats at once, and the order of a queue.
use yes.Prelude.{
  ℕ, zero, suc, ◌≡◌, refl, List, [], ◌∷◌, ◌++◌, none, some, ℤ, length, arith, eq_ℤ, int_eq_iff,
  ◌==◌, if◌then◌else◌,
}
use mathlib.Core.List.{append_assoc, append-nil}
use yes.Prelude.Assoc.{lookup-insert}
use yes.Track.{Ref}
use yes.ChatCache.{ChatCacher, chat_at, add_song, remove_current_song, get_queue}
use yes.ChatCache.Frame.{Call, ChatState, perform, meaning, chat_at-perform}

-- Calls by any chats, one after the other.
unfoldable pub perform_all : List (ℤ × Call) → ChatCacher → ChatCacher
perform_all [] c = c
perform_all ((chat_id, call) ∷ calls) c = perform_all calls (perform chat_id call c)

-- The calls of one chat.
unfoldable pub calls_of : ℤ → List (ℤ × Call) → List Call
calls_of j [] = []
calls_of j ((chat_id, call) ∷ calls) =
    let rest = calls_of j calls in if chat_id == j then call ∷ rest else rest

unfoldable pub replay : ChatState → List Call → ChatState
replay s [] = s
replay s (call ∷ calls) = replay (meaning call s) calls

-- Whatever all chats do, in any interleaving, the state of a chat is that of its own calls alone,
-- made in their order on its own optional flag and queue.
pub chat_at-perform_all :
    (j : ℤ) (calls : List (ℤ × Call)) (c : ChatCacher)
    → chat_at j (perform_all calls c) ≡ replay (chat_at j c) (calls_of j calls)
unfolding perform_all calls_of replay
chat_at-perform_all j [] c = refl
chat_at-perform_all j ((chat_id, call) ∷ calls) c = ground (
  arith,
  chat_at-perform_all j calls (perform chat_id call c),
  chat_at-perform chat_id j call c,
  int_eq_iff chat_id j,
)

-- `AddSong` for each track of a list.
unfoldable pub add_all : ℤ → List Ref → ChatCacher → ChatCacher
add_all chat_id [] c = c
add_all chat_id (r ∷ rs) c = add_all chat_id rs (add_song chat_id r c)

-- `RemoveCurrentSong`, `n` times: the tracks that it returned.
unfoldable pub drain : ℕ → ℤ → ChatCacher → List Ref
drain zero chat_id c = []
drain (suc n) chat_id c =
    let (c', removed) = remove_current_song chat_id c in
    elim removed [ none ↦ [] | some r ↦ r ∷ drain n chat_id c' ]

pub queue-add_song :
    (chat_id : ℤ) (r : Ref) (c : ChatCacher)
    → get_queue chat_id (add_song chat_id r c) ≡ get_queue chat_id c ++ r ∷ []
unfolding get_queue add_song
queue-add_song chat_id r c = rw lookup-insert (ground (arith, int_eq_iff chat_id chat_id))

queue-add_all :
    (chat_id : ℤ) (rs : List Ref) (c : ChatCacher)
    → get_queue chat_id (add_all chat_id rs c) ≡ get_queue chat_id c ++ rs
unfolding add_all
queue-add_all chat_id [] c = rw append-nil
queue-add_all chat_id (r ∷ rs) c =
    rw (queue-add_all chat_id rs (add_song chat_id r c), queue-add_song, append_assoc)

remove_current_song-cons :
    (chat_id : ℤ) (r : Ref) (q : List Ref) (c : ChatCacher)
    → get_queue chat_id c ≡ r ∷ q
    → ((remove_current_song chat_id c).1 ≡ some r)
      × (get_queue chat_id (remove_current_song chat_id c).0 ≡ q)
unfolding get_queue remove_current_song
remove_current_song-cons chat_id r q c h = grind (arith, lookup-insert, int_eq_iff)

drain-queue :
    (chat_id : ℤ) (q : List Ref) (c : ChatCacher)
    → get_queue chat_id c ≡ q
    → drain (length q) chat_id c ≡ q
unfolding drain
drain-queue chat_id [] c h = refl
drain-queue chat_id (r ∷ q) c h = ground (
  arith,
  remove_current_song-cons chat_id r q c h,
  drain-queue chat_id q (remove_current_song chat_id c).0,
)

-- First in, first out: tracks added to a chat leave its queue in the order in which they were added,
-- behind the tracks that the queue held before.
pub drain-add_all :
    (chat_id : ℤ) (rs : List Ref) (c : ChatCacher)
    → drain (length (get_queue chat_id c ++ rs)) chat_id (add_all chat_id rs c)
      ≡ get_queue chat_id c ++ rs
drain-add_all chat_id rs c =
    drain-queue chat_id (get_queue chat_id c ++ rs) (add_all chat_id rs c)
      (queue-add_all chat_id rs c)
