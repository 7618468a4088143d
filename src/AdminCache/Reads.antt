-- ===== src/AdminCache/Reads.antt =====
-- What the cache of administrators answers after each of its methods.
use yes.Prelude.{
  ℕ, ◌+◌, ◌*◌, ◌≤◌, ◌≡◌, ◌≢◌, ◌↔◌, ◌||◌, All, refl, true, false, List, [], ◌∷◌, none, some, ℤ, pos,
  map, int_eq, int_eq_iff, ltb, str_eq, arith, if◌then◌else◌,
}
use yes.Prelude.Decimal.{format, eq-format, eq-append_left}
use yes.TtlCache.{get, get-set, get-set_with_ttl, get-delete, get-clear, minute}
use yes.AdminCache.{
  Participant, AdminCache, not_administrator, api_error, admins_key, get_chat_admins, get_admins,
  find_admin, get_user_admin, clear_admin_cache,
}

-- Two chats share no key.
eq-admins_key : (a b : ℤ) → str_eq (admins_key a) (admins_key b) ≡ int_eq a b
eq-admins_key a b = rw (eq-append_left "admins:" (format a) (format b)) (eq-format a b)

-- The ids that the cache answers for a chat after a successful reload: those of the fetched list while
-- its time to live lasts, and for every other chat what it answered before.
pub get_chat_admins-get_admins :
    (now later : ℕ) (chat_id j : ℤ) (admins : List Participant) (c : AdminCache)
    → get_chat_admins later j (get_admins now (some admins) chat_id true c).0 ≡ (
        if int_eq chat_id j
        then (if ltb (now + c.ttl) later then none else some (map (λ a. a.user_id) admins))
        else get_chat_admins later j c)
unfolding get_chat_admins get_admins
get_chat_admins-get_admins now later chat_id j admins c =
    ground (
      arith,
      eq-admins_key chat_id j,
      get-set now later (admins_key chat_id) (admins_key j) admins c,
    )

-- When the API fails and the cache holds no list, the user is not found, and for the next twenty
-- minutes the cache answers that the chat has no administrators at all.
pub get_user_admin_failure :
    (now later : ℕ) (chat_id user_id : ℤ) (c : AdminCache)
    → get now (admins_key chat_id) c ≡ none
    → later ≤ now + 20 * minute
    → ((get_user_admin now none chat_id user_id false c).1 ≡ api_error)
      × (get_chat_admins later chat_id (get_user_admin now none chat_id user_id false c).0
          ≡ some [])
unfolding get_user_admin get_chat_admins
get_user_admin_failure now later chat_id user_id c miss soon = ground (
  arith,
  eq-admins_key chat_id chat_id,
  int_eq_iff chat_id chat_id,
  get-set_with_ttl now later (20 * minute) (admins_key chat_id) (admins_key chat_id) [] c,
)

-- `GetUserAdmin` on a list from the API returns a participant with the id, and says that the user is
-- no administrator exactly when no participant has it.
pub find_admin-not_administrator :
    (user_id : ℤ) (admins : List Participant)
    → (find_admin user_id admins ≡ not_administrator) ↔ All (λ a. a.user_id ≢ user_id) admins
unfolding find_admin
find_admin-not_administrator user_id [] = (λ e. tt, λ a. refl)
find_admin-not_administrator user_id (t ∷ admins) =
    let (all, missed) = find_admin-not_administrator user_id admins in
    (
      λ e. (
        λ p. ground (arith, int_eq_iff t.user_id user_id),
        all (ground (arith, int_eq_iff t.user_id user_id)),
      ),
      λ a. ground (arith, int_eq_iff t.user_id user_id, missed a.1),
    )

-- After `ClearAdminCache` the cache knows no administrators of the chat, and with chat 0 of no chat;
-- what it knows of the chats that were not cleared stays.
pub get_chat_admins-clear_admin_cache :
    (later : ℕ) (chat_id j : ℤ) (c : AdminCache)
    → get_chat_admins later j (clear_admin_cache chat_id c)
      ≡ (if int_eq chat_id (pos 0) || int_eq chat_id j then none else get_chat_admins later j c)
unfolding get_chat_admins clear_admin_cache
get_chat_admins-clear_admin_cache later chat_id j c = ground (
  arith,
  eq-admins_key chat_id j,
  get-delete later (admins_key chat_id) (admins_key j) c,
  get-clear later (admins_key j) c,
)
