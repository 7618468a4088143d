-- ===== src/Handlers/Reload.antt =====
-- /reload, src/handlers/admins.go: the administrators of a chat are read again, at most every three
-- minutes.
use Prim.Native.String.{◌++◌ as str_append}
use yes.Prelude.{
  ℕ, ◌+◌, ◌-◌, ◌*◌, ◌/◌, ◌≤◌, ◌≡◌, refl, Bool, true, false, not, List, [], ◌∷◌, Option, none, some,
  String, ℤ, pos, ltb, if◌then◌else◌, str_eq_refl, arith,
}
use yes.Prelude.Decimal.{format}
use yes.TtlCache.{Cache, get, set, get-set, second, minute}
use yes.AdminCache.{AdminCache, Participant, get_admins, clear_admin_cache}
use yes.Handlers.{Reply, says, says_with}

abbrev pub reload_cooldown : ℕ
reload_cooldown = 3 * minute

pub record ReloadRequest : Type 0 where
  pub now : ℕ
  pub chat_id : ℤ
  pub is_private : Bool
  -- whether the first reply is sent
  pub is_sent : Bool
  pub answer : Option (List Participant)

-- The times of the reloads, and the cache of administrators.
pub record Reloads : Type 0 where
  pub rate_limit : Cache ℕ
  pub admins : AdminCache

unfoldable pub reload_key : ℤ → String
reload_key chat_id = str_append "reload:" (format chat_id)

unfoldable pub reload_reply : AdminCache × Option (List Participant) → AdminCache × Option Reply
reload_reply (admins, none) = (admins, some (says "reload_error"))
reload_reply (admins, some list) = (admins, some (says "reload_success"))

unfoldable pub reload : ReloadRequest → Reloads → Reloads × Option Reply
unfolding reload_key reload_reply
reload q s =
    let noted = set q.now (reload_key q.chat_id) q.now s.rate_limit in
    let (admins, reply) =
      reload_reply
        (get_admins q.now q.answer q.chat_id true (clear_admin_cache q.chat_id s.admins)) in
    if not q.is_sent
    then (record s { rate_limit = noted }, none)
    else (record { rate_limit = noted; admins = admins }, reply)

-- The answer to a request at `now` after a reload at `last_used`, if one is known.
unfoldable pub unless_cooling : ReloadRequest → Reloads → Option ℕ → Reloads × Option Reply
unfolding reload
unless_cooling q s none = reload q s
unless_cooling q s (some last_used) =
    if ltb (q.now - last_used) reload_cooldown
    then (
      s,
      some (
          says_with "reload_cooldown"
            (pos ((reload_cooldown - (q.now - last_used)) / second) ∷ [])),
    )
    else reload q s

unfoldable pub reload_admin_cache_handler : ReloadRequest → Reloads → Reloads × Option Reply
unfolding unless_cooling reload_key
reload_admin_cache_handler q s =
    if q.is_private
    then (s, none)
    else unless_cooling q s (get q.now (reload_key q.chat_id) s.rate_limit)

reload-rate_limit :
    (q : ReloadRequest) (s : Reloads)
    → (reload q s).0.rate_limit ≡ set q.now (reload_key q.chat_id) q.now s.rate_limit
unfolding reload
reload-rate_limit q s = ground arith

first_reload :
    (q : ReloadRequest) (s : Reloads)
    → q.is_private ≡ false
    → get q.now (reload_key q.chat_id) s.rate_limit ≡ none
    → reload_admin_cache_handler q s ≡ reload q s
unfolding reload_admin_cache_handler unless_cooling
first_reload q s qp first = ground (arith, qp, first)

last_reload :
    (q : ReloadRequest) (s : Reloads) (now : ℕ) (chat_id : ℤ)
    → s.rate_limit.ttl ≡ reload_cooldown
    → chat_id ≡ q.chat_id
    → get now (reload_key chat_id) (reload q s).0.rate_limit
      ≡ (if ltb (q.now + reload_cooldown) now then none else some q.now)
last_reload q s now chat_id ttl same = rw (reload-rate_limit, get-set, same, ttl, str_eq_refl) refl

-- After a reload in a chat, a second request in this chat is refused, with the seconds that are left, and
-- changes nothing, exactly until three minutes have passed: then it reloads again.
pub reload_again :
    (q r : ReloadRequest) (s : Reloads)
    → s.rate_limit.ttl ≡ reload_cooldown
    → q.is_private ≡ false
    → r.is_private ≡ false
    → r.chat_id ≡ q.chat_id
    → q.now ≤ r.now
    → get q.now (reload_key q.chat_id) s.rate_limit ≡ none
    → reload_admin_cache_handler r (reload_admin_cache_handler q s).0 ≡ (
        if ltb r.now (q.now + reload_cooldown)
        then (
          (reload q s).0,
          some (
              says_with "reload_cooldown"
                (pos ((reload_cooldown - (r.now - q.now)) / second) ∷ [])),
        )
        else reload r (reload q s).0)
unfolding reload_admin_cache_handler unless_cooling
reload_again q r s ttl qp rp same later first =
    ground (arith, first_reload q s qp first, rp, last_reload q s r.now r.chat_id ttl same, later)
