-- ===== src/Tests/Cache.antt =====
-- The caches on concrete inputs.
use yes.Prelude.{◌≡◌, refl, true, false, List, [], ◌∷◌, none, some, pos, arith, eq_ℤ}
use yes.Prelude.Assoc.{lookup}
use yes.AdminCache.{Participant, AdminCache, api_error, get_chat_admins, get_user_admin}
use yes.AdminCache.Reads.{get_user_admin_failure}
use yes.ChatCache.{new_chat_cacher, chat_at}
use yes.ChatCache.Frame.{append, pop, forget, meaning}
use yes.ChatCache.Queue.{perform_all, calls_of, replay, chat_at-perform_all}
use yes.TtlCache.{get, new_cache}
use yes.Tests.Data.{room, other_room}

chat_at-perform_all_example :
    chat_at room (
      perform_all
        ((room, append 0)
          ∷ (other_room, append 2)
          ∷ (room, append 1)
          ∷ (other_room, forget)
          ∷ (room, pop)
          ∷ [])
        new_chat_cacher)
    ≡ some (record { is_active = true; queue = 1 ∷ [] })
unfolding calls_of replay meaning lookup
chat_at-perform_all_example =
    chat_at-perform_all room
      ((room, append 0)
        ∷ (other_room, append 2)
        ∷ (room, append 1)
        ∷ (other_room, forget)
        ∷ (room, pop)
        ∷ [])
      new_chat_cacher

-- Two participants, the creator with id 7.
abbrev participants : List Participant
participants =
    record { user_id = pos 7; status = "creator"; rights = none }
    ∷ record { user_id = pos 8; status = "admin"; rights = none }
    ∷ []

abbrev no_admins : AdminCache
no_admins = new_cache 100

get_user_admin_failure_example :
    ((get_user_admin 10 none room (pos 7) false no_admins).1 ≡ api_error)
    × (get_chat_admins 11 room (get_user_admin 10 none room (pos 7) false no_admins).0 ≡ some [])
unfolding get lookup
get_user_admin_failure_example =
    get_user_admin_failure 10 11 room (pos 7) no_admins refl (omega arith)
