-- ===== src/Handlers/Watching.antt =====
-- When the queue of a chat is dropped because its assistant leaves.
use yes.Prelude.{
  ℕ, ◌≡◌, refl, ap, ◌∙◌, Bool, true, false, not, ◌&&◌, ◌||◌, none, String, ℤ, int_eq, int_eq_iff,
  str_eq, nat_eq, arith, if◌then◌else◌,
}
use yes.Assistants.Joining.{Statuses}
use yes.ChatCache.{chat_at}
use yes.ChatCache.Frame.{forget, perform, meaning, chat_at-perform}
use yes.Handlers.Watcher.{
  Watch, Update, Kind, creator_kind, admin_kind, self_kind, member_kind, left_kind, banned_kind,
  no_participant, other_kind, get_status_from_participant, assistant_id, noted_status,
  update_ub_status_cache, chat_cleared, stop_if, handle_join, handle_leave_or_kick, handle_ban,
  banned, with_lang, handle_unban, handle_promotion_demotion, handle_participant_status_change,
  admins_reloaded,
}

-- A status as a number.
unfoldable pub status_number : Kind → ℕ
status_number creator_kind = 0
status_number admin_kind = 1
status_number self_kind = 2
status_number member_kind = 2
status_number left_kind = 3
status_number no_participant = 3
status_number banned_kind = 4
status_number other_kind = 5

-- The library's names of the statuses are different texts.
unfoldable pub IsDistinct : Statuses → Type 0
unfolding status_number
IsDistinct st =
    (a b : Kind)
    → str_eq (get_status_from_participant st a) (get_status_from_participant st b)
      ≡ nat_eq (status_number a) (status_number b)

abbrev pub is_member : Kind → Bool
is_member admin_kind = true
is_member self_kind = true
is_member member_kind = true
is_member _ = false

abbrev pub is_out : Kind → Bool
is_out left_kind = true
is_out no_participant = true
is_out _ = false

-- Whether a change from one type to another is a leave or a ban.
abbrev pub is_banned : Kind → Bool
is_banned banned_kind = true
is_banned _ = false

abbrev pub is_exit : Kind → Kind → Bool
is_exit old new = (is_member old && is_out new) || is_banned new

player-update_ub_status_cache :
    (u : Update) (status : String) (w : Watch)
    → (update_ub_status_cache u status w).player ≡ w.player
unfolding update_ub_status_cache noted_status assistant_id
player-update_ub_status_cache u status w = ground arith

int_eq_self : (id : ℤ) → int_eq id id ≡ true
int_eq_self id = ground (arith, int_eq_iff id id)

module _ (u : Update) (w : Watch) (other : int_eq u.user_id u.bot_id ≡ false) where
  player-handle_leave_or_kick :
      (handle_leave_or_kick u u.user_id w).player ≡ (chat_cleared u w).player
  unfolding handle_leave_or_kick stop_if
  player-handle_leave_or_kick =
      rw (int_eq_self u.user_id)
        (rw other (player-update_ub_status_cache u u.status.left (chat_cleared u w)))

  player-banned : (sends : Bool) (x : Watch) → (if sends then banned u x else x).player ≡ x.player
  unfolding banned stop_if
  player-banned true x = rw other (player-update_ub_status_cache u u.status.kicked x)
  player-banned false x = refl

  player-handle_ban : (handle_ban u u.user_id w).player ≡ (chat_cleared u w).player
  unfolding handle_ban
  player-handle_ban =
      rw (int_eq_self u.user_id) (player-banned u.sends (chat_cleared u (with_lang u w)))

  player-handle_promotion_demotion :
      (old new : String) → (handle_promotion_demotion u old new w).player ≡ w.player
  unfolding handle_promotion_demotion admins_reloaded
  player-handle_promotion_demotion old new = ground (arith, other)

  -- By the conditions of the `switch`.
  player-switch :
      (old new : String) (joins leaves bans unbans : Bool)
      → (if joins
          then handle_join u w
          else if leaves
          then handle_leave_or_kick u u.user_id w
          else if bans
          then handle_ban u u.user_id w
          else if unbans
          then handle_unban u w
          else handle_promotion_demotion u old new w).player
        ≡ (if not joins && (leaves || bans) then (chat_cleared u w).player else w.player)
  unfolding handle_join handle_unban
  player-switch old new true leaves bans unbans = player-update_ub_status_cache u u.status.member w
  player-switch old new false true bans unbans = player-handle_leave_or_kick
  player-switch old new false false true unbans = player-handle_ban
  player-switch old new false false false true = player-update_ub_status_cache u u.status.left w
  player-switch old new false false false false = player-handle_promotion_demotion old new

-- The conditions of the `switch`, by types.
exits_by : Kind → Kind → Bool
exits_by a b =
    not (nat_eq (status_number a) 3 && (nat_eq (status_number b) 2 || nat_eq (status_number b) 1))
    && (((nat_eq (status_number a) 2 || nat_eq (status_number a) 1) && nat_eq (status_number b) 3)
        || nat_eq (status_number b) 4)

exits_by-is_exit : (a b : Kind) → exits_by a b ≡ is_exit a b
unfolding exits_by status_number
exits_by-is_exit a b = ground arith

player-by_kinds :
    (u : Update) (w : Watch)
    → int_eq u.user_id u.bot_id ≡ false
    → IsDistinct u.status
    → (handle_participant_status_change u u.user_id
        (get_status_from_participant u.status u.old_kind)
        (get_status_from_participant u.status u.new_kind)
        w).player
      ≡ (if is_exit u.old_kind u.new_kind then (chat_cleared u w).player else w.player)
unfolding handle_participant_status_change get_status_from_participant exits_by IsDistinct
    status_number
player-by_kinds u w other d =
    let old = get_status_from_participant u.status u.old_kind in
    let new = get_status_from_participant u.status u.new_kind in
    let st = u.status in
    let a = u.old_kind in
    let b = u.new_kind in
    player-switch u w other old new
      (str_eq old st.left && (str_eq new st.member || str_eq new st.administrator))
      ((str_eq old st.member || str_eq old st.administrator) && str_eq new st.left)
      (str_eq new st.kicked) (str_eq old st.kicked && str_eq new st.left)
    ∙ (λ i.
        if not (d a left_kind i && (d b member_kind i || d b admin_kind i))
          && (((d a member_kind i || d a admin_kind i) && d b left_kind i) || d b banned_kind i)
        then (chat_cleared u w).player
        else w.player)
    ∙ ap (λ x. if x then (chat_cleared u w).player else w.player) (exits_by-is_exit a b)

cleared_if :
    (exits : Bool) (u : Update) (j : ℤ) (w : Watch)
    → chat_at j (if exits then (chat_cleared u w).player else w.player).chats
      ≡ (if exits && int_eq u.chat_id j then none else chat_at j w.player.chats)
unfolding perform meaning
cleared_if true u j w = chat_at-perform u.chat_id j forget w.player.chats
cleared_if false u j w = refl

-- If the library's names of the statuses are different, then a change of the status of the chat's assistant,
-- who is not the bot, drops the queue of the chat exactly when the assistant, a member or an
-- administrator before, is out of the chat now, or is banned now. Every other chat stays as it is.
pub chat_at-status_change :
    (u : Update) (j : ℤ) (w : Watch)
    → int_eq u.user_id u.bot_id ≡ false
    → IsDistinct u.status
    → chat_at j
        (handle_participant_status_change u u.user_id
          (get_status_from_participant u.status u.old_kind)
          (get_status_from_participant u.status u.new_kind)
          w).player.chats
      ≡ (if is_exit u.old_kind u.new_kind && int_eq u.chat_id j
          then none
          else chat_at j w.player.chats)
chat_at-status_change u j w other d =
    ap (λ p. chat_at j p.chats) (player-by_kinds u w other d)
    ∙ cleared_if (is_exit u.old_kind u.new_kind) u j w
