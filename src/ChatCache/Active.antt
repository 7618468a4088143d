-- ===== src/ChatCache/Active.antt =====
-- `GetActiveChats` lists the chats that `IsActive` says are active: every cache that the methods build
-- has at most one entry for a chat.
use yes.Prelude.{
  ◌≡◌, refl, Bool, false, ◌||◌, List, [], ◌∷◌, Option, none, some, ℤ, arith, eq_ℤ, int_eq_iff, ◌==◌,
}
use yes.Prelude.Assoc.{Assoc, lookup, insert, remove, lookup-insert, lookup-remove}
use yes.ChatCache.{
  ChatData, ChatCacher, add_song, remove_current_song, set_active, clear_chat, remove_track,
  new_chat_cacher, active_ids, get_active_chats, is_active,
}
use yes.ChatCache.Frame.{Call, perform, append, pop, activate, forget, drop_at}
use yes.ChatCache.Queue.{perform_all}

abbrev pub listed : ℤ → List ℤ → Bool
listed j [] = false
listed j (i ∷ is) = i == j || listed j is

-- No chat has two entries.
abbrev HasOneEach : Assoc ℤ ChatData → Type 0
HasOneEach [] = Unit
HasOneEach ((k, d) ∷ m) = (lookup k m ≡ none) × HasOneEach m

insert-HasOneEach :
    (k : ℤ) (d : ChatData) (m : Assoc ℤ ChatData) → HasOneEach m → HasOneEach (insert k d m)
unfolding insert lookup
insert-HasOneEach k d [] h = (refl, tt)
insert-HasOneEach k d ((j, w) ∷ m) h =
    ground
      (arith, int_eq_iff j k, int_eq_iff k j, lookup-insert k j d m, insert-HasOneEach k d m h.1)

remove-HasOneEach : (k : ℤ) (m : Assoc ℤ ChatData) → HasOneEach m → HasOneEach (remove k m)
unfolding remove
remove-HasOneEach k [] h = tt
remove-HasOneEach k ((j, w) ∷ m) h =
    ground (arith, int_eq_iff j k, int_eq_iff k j, lookup-remove k j m, remove-HasOneEach k m h.1)

perform-HasOneEach :
    (chat_id : ℤ) (call : Call) (c : ChatCacher)
    → HasOneEach c.chat_cache
    → HasOneEach (perform chat_id call c).chat_cache
unfolding perform add_song remove_current_song set_active clear_chat remove_track
perform-HasOneEach chat_id (append r) c h = insert-HasOneEach chat_id _ c.chat_cache h
perform-HasOneEach chat_id pop c h = grind (arith, insert-HasOneEach)
perform-HasOneEach chat_id (activate active) c h = insert-HasOneEach chat_id _ c.chat_cache h
perform-HasOneEach chat_id forget c h = grind (arith, remove-HasOneEach)
perform-HasOneEach chat_id (drop_at index) c h = grind (arith, insert-HasOneEach)

perform_all-HasOneEach :
    (calls : List (ℤ × Call)) (c : ChatCacher)
    → HasOneEach c.chat_cache
    → HasOneEach (perform_all calls c).chat_cache
unfolding perform_all
perform_all-HasOneEach [] c h = h
perform_all-HasOneEach ((chat_id, call) ∷ calls) c h =
    perform_all-HasOneEach calls (perform chat_id call c) (perform-HasOneEach chat_id call c h)

active_at : Option ChatData → Bool
active_at none = false
active_at (some d) = d.is_active

listed-active_ids :
    (j : ℤ) (m : Assoc ℤ ChatData) → HasOneEach m → listed j (active_ids m) ≡ active_at (lookup j m)
unfolding active_ids active_at lookup
listed-active_ids j [] h = refl
listed-active_ids j ((k, d) ∷ m) h = ground (arith, int_eq_iff k j, listed-active_ids j m h.1)

-- After any calls by any chats, the list of `GetActiveChats` holds a chat exactly when `IsActive` says
-- that the chat is active.
pub listed-get_active_chats :
    (j : ℤ) (calls : List (ℤ × Call))
    → listed j (get_active_chats (perform_all calls new_chat_cacher))
      ≡ is_active j (perform_all calls new_chat_cacher)
unfolding get_active_chats is_active active_at
listed-get_active_chats j calls =
    listed-active_ids j (perform_all calls new_chat_cacher).chat_cache
      (perform_all-HasOneEach calls new_chat_cacher tt)
