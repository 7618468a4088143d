-- ===== src/Assistants/Membership.antt =====
-- What is true once an assistant has got into a chat, and when it cannot.
use yes.Prelude.{
  ℕ, ◌+◌, ◌≤◌, ◌≡◌, refl, ap, ◌∙◌, Bool, true, false, not, ◌&&◌, ◌||◌, Option, none, some, String,
  ℤ, str_eq, str_eq_refl, has_text, arith, Option-cases, ◌⊎◌, inl, inr,
}
use yes.Prelude.Decimal.{format}
use yes.AdminCache.{Rights, Lookup, admin, not_administrator, api_error, get_user_admin}
use yes.Assistants.Joining.{
  joining, checking, switched, Joiner, Chat, joined, join_failed, status_key, check_user_stats,
  status_of, join_ub, unban_error, unban, by_status, join_assistant, entered, by_link, with_link,
  Invite, no_link, other_link, exported, update_membership, update_invite_link, assistant_of,
}
use yes.Database.Users.{get_lang}
use yes.TtlCache.{get, get-set}

abbrev bans : Option Rights → Bool
bans none = true
bans (some rights) = rights.ban_users

-- The bot is an administrator who may ban, and so unban, users.
abbrev pub can_unban : Chat → Lookup → Bool
can_unban q (admin bot) = str_eq bot.status q.status.administrator && bans bot.rights
can_unban q not_administrator = false
can_unban q api_error = false

abbrev is_nothing : Option String → Bool
is_nothing none = true
is_nothing (some error) = false

is_nothing-unban_error :
    (q : Chat) (bot : Lookup) → is_nothing (unban_error q bot) ≡ (can_unban q bot && q.unbans)
unfolding unban_error
is_nothing-unban_error q (admin bot) = ground arith
is_nothing-unban_error q not_administrator = refl
is_nothing-unban_error q api_error = refl

-- The bot's rank, as `joinAssistant` finds it.
abbrev pub bot_of : Chat → Joiner → Lookup
bot_of q s = (get_user_admin q.now q.admins q.chat_id q.bot_id false s.admin_cache).1

unban-joined :
    (q : Chat) (banned : Bool) (s : Joiner)
    → (unban q banned s).1 ≡ joined
    → (can_unban q (bot_of q s) && q.unbans) ≡ true
unfolding unban
unban-joined q banned s e = ground (arith, is_nothing-unban_error q (bot_of q s))

-- The end of the switch, for a status that means that the assistant was removed or muted.
abbrev pub is_removed : Chat → String → Bool
is_removed q status =
    (str_eq status q.status.kicked || str_eq status q.status.restricted)
    && not (str_eq status q.status.left)
    && not (
        str_eq status q.status.member
        || str_eq status q.status.administrator
        || str_eq status q.status.creator)

-- An assistant that was kicked or restricted only gets in if the bot is an administrator who may ban
-- users and Telegram has lifted the ban.
pub by_status-removed :
    (q : Chat) (s : Joiner) (status : String)
    → is_removed q status ≡ true
    → (by_status q s status).1 ≡ joined
    → (can_unban q (bot_of q s) && q.unbans) ≡ true
unfolding by_status
by_status-removed q s status removed e =
    unban-joined q (str_eq status q.status.kicked) s (ground arith)

-- The assistant of the chat, and the state in which `joinUb` goes on with it.
abbrev pub ready_to_join : Chat → Joiner → Joiner
ready_to_join q s =
    (assistant_of q q.join_pick
      (record s { db = (get_lang q.now q.join_lang_answer q.chat_id s.db).0 })).0

abbrev pub joining_assistant : Chat → Joiner → Option ℕ
joining_assistant q s =
    (assistant_of q q.join_pick
      (record s { db = (get_lang q.now q.join_lang_answer q.chat_id s.db).0 })).1

join_ub-by_link :
    (q : Chat) (n : ℕ) (s : Joiner)
    → joining_assistant q s ≡ some n
    → join_ub q s ≡ by_link q (q.user_of n) (ready_to_join q s)
unfolding join_ub joining
join_ub-by_link q n s e = ap (λ c. joining q c (ready_to_join q s)) e

-- With an expired link in the cache `joinUb` fails, and leaves the link there for the next time.
pub expired_link_stays :
    (q : Chat) (n : ℕ) (link error : String) (s : Joiner)
    → joining_assistant q s ≡ some n
    → get q.now (format q.chat_id) s.invite_cache ≡ some link
    → q.join_error ≡ some error
    → has_text error "INVITE_HASH_EXPIRED" ≡ true
    → (has_text error "INVITE_REQUEST_SENT" || has_text error "USER_ALREADY_PARTICIPANT") ≡ false
    → ((join_ub q s).1 ≡ join_failed "invite_link_expired")
      × ((join_ub q s).0.invite_cache ≡ s.invite_cache)
unfolding by_link entered assistant_of
expired_link_stays q n link error s assistant cached failed expired others =
    rw (join_ub-by_link q n s assistant) (ground arith)

-- The assistant that `checkUserStats` asks about, and the state in which it goes on.
abbrev pub ready_to_check : Chat → Joiner → Joiner
ready_to_check q s =
    (assistant_of q q.check_pick
      (record s { db = (get_lang q.now q.lang_answer q.chat_id s.db).0 })).0

abbrev pub checked_assistant : Chat → Joiner → Option ℕ
checked_assistant q s =
    (assistant_of q q.check_pick
      (record s { db = (get_lang q.now q.lang_answer q.chat_id s.db).0 })).1

join_assistant-status_of :
    (q : Chat) (n : ℕ) (s : Joiner)
    → checked_assistant q s ≡ some n
    → join_assistant q s
      ≡ (let (s', status) = status_of q (q.user_of n) (ready_to_check q s) in switched q s' status)
unfolding join_assistant check_user_stats checking
join_assistant-status_of q n s e =
    ap (λ c. let (s', status) = checking q c (ready_to_check q s) in switched q s' status) e

-- An assistant whose cached status is that of a member is in the chat, and nothing is asked.
member_is_in :
    (q : Chat) (n : ℕ) (s : Joiner)
    → checked_assistant q s ≡ some n
    → get q.now (status_key q.chat_id (q.user_of n)) s.status_cache ≡ some q.status.member
    → join_assistant q s ≡ (ready_to_check q s, joined)
unfolding status_of switched by_status assistant_of
member_is_in q n s assistant cached =
    rw (join_assistant-status_of q n s assistant) (ground (arith, str_eq_refl q.status.member))

entered-member :
    (q : Chat) (later : ℕ) (user_id : ℤ) (s : Joiner)
    → later ≤ q.now + s.status_cache.ttl
    → get later (status_key q.chat_id user_id) (entered q user_id none s).0.status_cache
      ≡ some q.status.member
unfolding entered update_membership
entered-member q later user_id s soon =
    let key = status_key q.chat_id user_id in
    ground (arith, get-set q.now later key key q.status.member s.status_cache, str_eq_refl key)

invite-cases :
    (i : Invite) → ((i ≡ no_link) ⊎ (i ≡ other_link)) ⊎ ((link : String) × (i ≡ exported link))
invite-cases no_link = inl (inl refl)
invite-cases other_link = inl (inr refl)
invite-cases (exported link) = inr (link, refl)

by_link-status :
    (q : Chat) (user_id : ℤ) (s : Joiner)
    → q.join_error ≡ none
    → (by_link q user_id s).1 ≡ joined
    → (t : Joiner) × (by_link q user_id s ≡ entered q user_id none t)
      × (t.status_cache ≡ s.status_cache)
unfolding by_link with_link update_invite_link
by_link-status q user_id s no_error e =
    elim (Option-cases (get q.now (format q.chat_id) s.invite_cache)) [
      | inr (link, cached) ↦ (s, ground arith, refl)
      | inl missing ↦ elim (invite-cases q.invite) [
        | inr (link, invited) ↦ (update_invite_link q.now q.chat_id link s, ground arith, refl)
        | inl refused ↦ absurd (ground arith)
      ]
    ]

status-ready_to_join : (q : Chat) (s : Joiner) → (ready_to_join q s).status_cache ≡ s.status_cache
unfolding assistant_of
status-ready_to_join q s = refl

join_ub-member :
    (q : Chat) (later n : ℕ) (s : Joiner)
    → joining_assistant q s ≡ some n
    → q.join_error ≡ none
    → (join_ub q s).1 ≡ joined
    → later ≤ q.now + s.status_cache.ttl
    → get later (status_key q.chat_id (q.user_of n)) (join_ub q s).0.status_cache
      ≡ some q.status.member
join_ub-member q later n s assistant no_error ok soon =
    let same = join_ub-by_link q n s assistant in
    let (t, end, kept) =
      by_link-status q (q.user_of n) (ready_to_join q s) no_error (rw same at ok) in
    let ttl : t.status_cache.ttl ≡ s.status_cache.ttl =
      ap (λ c. c.ttl) (kept ∙ status-ready_to_join q s) in
    rw (same, end) (entered-member q later (q.user_of n) t (rw ttl soon))

-- Once `joinUb` has let an assistant in by a link, `joinAssistant` finds it in the chat without a call of
-- the API, until the cached status expires.
pub joined_again :
    (q again : Chat) (n m : ℕ) (s : Joiner)
    → joining_assistant q s ≡ some n
    → q.join_error ≡ none
    → (join_ub q s).1 ≡ joined
    → again.chat_id ≡ q.chat_id
    → again.status ≡ q.status
    → checked_assistant again (join_ub q s).0 ≡ some m
    → again.user_of m ≡ q.user_of n
    → again.now ≤ q.now + s.status_cache.ttl
    → join_assistant again (join_ub q s).0 ≡ (ready_to_check again (join_ub q s).0, joined)
joined_again q again n m s assistant no_error ok same_chat same_status checked same_user soon =
    member_is_in again m (join_ub q s).0 checked (
      rw (same_chat, same_user, same_status)
        (join_ub-member q again.now n s assistant no_error ok soon))
