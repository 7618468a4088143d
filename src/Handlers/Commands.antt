-- ===== src/Handlers/Commands.antt =====
-- What the commands on the queue and the stream of a chat do.
use yes.Prelude.{
  ℕ, suc, ◌<◌, ◌≤◌, ◌≡◌, Bool, true, false, [], ◌∷◌, Option, some, String, ℤ, pos, ◌≤ℤ◌, ◌<ℤ◌,
  length, arith, if◌then◌else◌, Option-cases, inl, inr, get_elem?, ltb,
}
use yes.Prelude.Decimal.{atoi, atoi-ne-empty}
use yes.Track.{Ref}
use yes.ChatCache.{is_active, get_queue, get_playing_track, get_loop_count}
use yes.ChatCache.Tracks.{remove_track_in_range, remove_track_out_of_range, set_loop_count_lem}
use yes.Handlers.{says, says_with}
use yes.Handlers.Controls.{
  remove_handler, loop_handler, from_to, seek_request, seek_handler, skip_handler, stop_handler,
}
use yes.Playback.{Player, Env}

-- `/remove n` in an active chat with a number below the length of the queue takes out the track that
-- `/queue` shows under that number: the queue gets one shorter, keeps the tracks before place n and has
-- those behind it one place further up.
pub remove_handler_in_range :
    (chat_id : ℤ) (args : String) (n : ℕ) (p : Player)
    → is_active chat_id p.chats ≡ true
    → atoi args ≡ some (pos (suc n))
    → suc n < length (get_queue chat_id p.chats)
    → ((remove_handler chat_id args p).1 ≡ says_with "remove_success" (pos (suc n) ∷ []))
      × ((j : ℕ)
          → get_elem? (get_queue chat_id (remove_handler chat_id args p).0.chats) j ≡ (
              if ltb j (suc n)
              then get_elem? (get_queue chat_id p.chats) j
              else get_elem? (get_queue chat_id p.chats) (suc j)))
unfolding remove_handler
remove_handler_in_range chat_id args n p on number h =
    let (done, size, moved) = remove_track_in_range chat_id (suc n) p.chats h in
    (
      ground (arith, atoi-ne-empty args number),
      λ j. ground (arith, atoi-ne-empty args number, moved j),
    )

-- `/remove n` with n the length of the queue reports that track n was removed, and changes nothing.
pub remove_handler_last :
    (chat_id : ℤ) (args : String) (n : ℕ) (p : Player)
    → is_active chat_id p.chats ≡ true
    → atoi args ≡ some (pos (suc n))
    → suc n ≡ length (get_queue chat_id p.chats)
    → remove_handler chat_id args p ≡ (p, says_with "remove_success" (pos (suc n) ∷ []))
unfolding remove_handler
remove_handler_last chat_id args n p on number h = ground (
  arith,
  atoi-ne-empty args number,
  remove_track_out_of_range chat_id (pos (suc n)) p.chats (inr (omega arith)),
)

-- `/loop n` in an active chat with n from 0 to 10 gives the current track that loop count.
pub loop_handler_lem :
    (chat_id : ℤ) (args : String) (n : ℕ) (r : Ref) (p : Player)
    → is_active chat_id p.chats ≡ true
    → get_playing_track chat_id p.chats ≡ some r
    → atoi args ≡ some (pos n)
    → n ≤ 10
    → (get_loop_count chat_id p.chats (loop_handler chat_id args p).0.heap ≡ pos n)
      × ((loop_handler chat_id args p).0.chats ≡ p.chats)
unfolding loop_handler
loop_handler_lem chat_id args n r p on current number h =
    ground (
      arith,
      atoi-ne-empty args number,
      set_loop_count_lem chat_id (pos n) r p.chats p.heap current,
    )

-- A seek is only asked for inside the current track: from a place that is not negative and lies before
-- the end of the track, up to its end.
pub seek_request_in_track :
    (played : Option ℕ) (chat_id to_seek duration : ℤ) (args : String) (p : Player)
    → seek_request played chat_id args p ≡ from_to to_seek duration
    → (pos 0 ≤ℤ to_seek)
      × (to_seek <ℤ duration)
      × ((r : Ref) × (get_playing_track chat_id p.chats ≡ some r)
          × ((p.heap.cell r).duration ≡ duration))
unfolding seek_request
seek_request_in_track played chat_id to_seek duration args p e =
    elim (Option-cases (get_playing_track chat_id p.chats)) [
      | inl idle ↦ absurd (ground arith)
      | inr (r, current) ↦ (ground arith, ground arith, (r, current, ground arith))
    ]

-- In a chat that is not active every command answers so and changes nothing.
pub inactive_commands :
    (env : Env) (played : Option ℕ) (found joined streamed : Bool) (chat_id : ℤ) (args : String)
    (p : Player)
    → is_active chat_id p.chats ≡ false
    → (remove_handler chat_id args p ≡ (p, says "no_track_playing"))
      × (loop_handler chat_id args p ≡ (p, says "no_track_playing"))
      × (seek_handler played found joined streamed chat_id args p ≡ (p, says "no_track_playing"))
      × (skip_handler env chat_id p ≡ some (p, some (says "no_track_playing")))
      × (stop_handler found chat_id p ≡ (p, says "no_track_playing"))
unfolding remove_handler loop_handler seek_handler skip_handler stop_handler
inactive_commands env played found joined streamed chat_id args p off = ground arith
