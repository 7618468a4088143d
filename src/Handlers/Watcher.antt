-- ===== src/Handlers/Watcher.antt =====
-- src/handlers/watcher.go: what the bot does when a voice chat starts or ends, and when it or the assistant of a chat
-- changes its status in the chat.
use Prim.Native.String.{◌++◌ as str_append}
use yes.Prelude.{
  ℕ, Bool, true, false, not, ◌&&◌, ◌||◌, List, Option, none, some, String, ℤ, pos, ltb_ℤ, int_eq,
  str_eq, if◌then◌else◌,
}
use yes.AdminCache.{Participant, get_admins, clear_admin_cache}
use yes.Assistants.{get_group_assistant}
use yes.Assistants.Joining.{Joiner, Pick, Statuses, update_membership, update_invite_link}
use yes.ChatCache.{clear_chat}
use yes.Database.{Found}
use yes.Database.Chats.{add_chat}
use yes.Database.Users.{get_lang}
use yes.Playback.{Player, stop}

-- The state: the caches and clients, and the player.
pub record Watch : Type 0 where
  pub joiner : Joiner
  pub player : Player

-- `handleVoiceChatMessage`, without the language of its message: the duration of the action on the group's call, if the message has one.
unfoldable pub handle_voice_chat_message : ℤ → Option ℤ → Player → Player
handle_voice_chat_message chat_id none p = p
handle_voice_chat_message chat_id (some duration) p = record p {
  chats = clear_chat chat_id p.chats;
}

-- The types of a participant; `no_participant` is nil.
pub data Kind : Type 0 where
  creator_kind admin_kind self_kind member_kind left_kind banned_kind no_participant other_kind :
      Kind

unfoldable pub get_status_from_participant : Statuses → Kind → String
get_status_from_participant st creator_kind = st.creator
get_status_from_participant st admin_kind = st.administrator
get_status_from_participant st self_kind = st.member
get_status_from_participant st member_kind = st.member
get_status_from_participant st left_kind = st.left
get_status_from_participant st banned_kind = st.kicked
get_status_from_participant st no_participant = st.left
get_status_from_participant st other_kind = st.restricted

-- An update on a participant, and what Telegram and MongoDB answer while it is handled: `sends` is whether the
-- message that the assistant was banned is sent.
pub record Update : Type 0 where
  pub now : ℕ
  pub chat_id : ℤ
  pub user_id : ℤ
  pub bot_id : ℤ
  pub user_of : ℕ → ℤ
  pub status : Statuses
  pub username : String
  pub old_kind : Kind
  pub new_kind : Kind
  pub lang_answer : Found
  pub chat_answer : Found
  pub chat_updated : Bool
  pub pick : Pick
  pub ban_lang_answer : Found
  pub stop_pick : Pick
  pub status_pick : Pick
  pub sends : Bool
  pub admins : Option (List Participant)

-- `GetGroupAssistant`, as the id of the user that its context belongs to.
unfoldable pub assistant_id : Update → Pick → Watch → Watch × Option ℤ
assistant_id u pick w =
    let (db, context) =
      get_group_assistant u.now pick.answer pick.updated pick.random u.chat_id w.joiner.clients
        w.joiner.db in
    (
      record w { joiner = record (w.joiner) { db = db } },
      elim context [ none ↦ none | some n ↦ some (u.user_of n) ],
    )

abbrev pub with_membership : Update → ℤ → String → Watch → Watch
with_membership u user_id status w = record w {
  joiner = update_membership u.now u.chat_id user_id status w.joiner;
}

unfoldable pub noted_status : Update → String → Watch × Option ℤ → Watch
noted_status u status (w, none) = w
noted_status u status (w, some ub_id) =
    if int_eq u.user_id ub_id then with_membership u u.user_id status w else w

unfoldable pub update_ub_status_cache : Update → String → Watch → Watch
unfolding noted_status
update_ub_status_cache u status w = noted_status u status (assistant_id u u.status_pick w)

abbrev pub chat_cleared : Update → Watch → Watch
chat_cleared u w = record w {
  player = record (w.player) { chats = clear_chat u.chat_id w.player.chats };
}

-- `vc.Calls.Stop`
unfoldable pub stopped_if_found : Update → Watch × Option ℤ → Watch
stopped_if_found u (w, none) = w
stopped_if_found u (w, some ub_id) = record w { player = (stop true u.chat_id w.player).0 }

unfoldable pub stop_if : Bool → Update → Watch → Watch
stop_if false u w = w
stop_if true u w = stopped_if_found u (assistant_id u u.stop_pick w)

unfoldable pub handle_join : Update → Watch → Watch
handle_join u w = update_ub_status_cache u u.status.member w

unfoldable pub handle_leave_or_kick : Update → ℤ → Watch → Watch
unfolding stopped_if_found stop_if
handle_leave_or_kick u ub_id w =
    let w' = if int_eq u.user_id ub_id then chat_cleared u w else w in
    update_ub_status_cache u u.status.left (stop_if (int_eq u.user_id u.bot_id) u w')

abbrev pub with_lang : Update → Watch → Watch
with_lang u w = record w {
  joiner = record (w.joiner) { db = (get_lang u.now u.ban_lang_answer u.chat_id w.joiner.db).0 };
}

unfoldable pub banned : Update → Watch → Watch
banned u w = update_ub_status_cache u u.status.kicked (stop_if (int_eq u.user_id u.bot_id) u w)

-- An error of the message ends the handler.
unfoldable pub handle_ban : Update → ℤ → Watch → Watch
unfolding stopped_if_found stop_if banned
handle_ban u ub_id w =
    if int_eq u.user_id ub_id
    then (if u.sends
        then banned u (chat_cleared u (with_lang u w))
        else chat_cleared u (with_lang u w))
    else banned u (with_lang u w)

unfoldable pub handle_unban : Update → Watch → Watch
handle_unban u w = update_ub_status_cache u u.status.left w

-- The cache of administrators of the chat, if the bot is the user, by whether it was promoted.
unfoldable pub admins_reloaded : Update → Bool → Watch → Watch
admins_reloaded u true w = record w {
  joiner = record (w.joiner) {
    admin_cache = (get_admins u.now u.admins u.chat_id true w.joiner.admin_cache).0;
  };
}
admins_reloaded u false w = record w {
  joiner = record (w.joiner) { admin_cache = clear_admin_cache u.chat_id w.joiner.admin_cache };
}

unfoldable pub handle_promotion_demotion : Update → String → String → Watch → Watch
unfolding admins_reloaded
handle_promotion_demotion u old new w =
    let is_promoted =
      not (str_eq old u.status.administrator) && str_eq new u.status.administrator in
    let is_demoted = str_eq old u.status.administrator && not (str_eq new u.status.administrator) in
    if not is_promoted && not is_demoted
    then w
    else with_membership u u.user_id new
        (if int_eq u.user_id u.bot_id then admins_reloaded u is_promoted w else w)

unfoldable pub handle_participant_status_change : Update → ℤ → String → String → Watch → Watch
handle_participant_status_change u ub_id old new w =
    let st = u.status in
    if str_eq old st.left && (str_eq new st.member || str_eq new st.administrator)
    then handle_join u w
    else if (str_eq old st.member || str_eq old st.administrator) && str_eq new st.left
    then handle_leave_or_kick u ub_id w
    else if str_eq new st.kicked
    then handle_ban u ub_id w
    else if str_eq old st.kicked && str_eq new st.left
    then handle_unban u w
    else handle_promotion_demotion u old new w

by_assistant : Update → Watch × Option ℤ → Watch
by_assistant u (w, none) = w
by_assistant u (w, some ub_id) =
    if not (int_eq u.user_id ub_id) && not (int_eq u.user_id u.bot_id)
    then w
    else handle_participant_status_change u ub_id (get_status_from_participant u.status u.old_kind)
        (get_status_from_participant u.status u.new_kind) w

-- A chat is stored in a goroutine of its own; here it is stored at once.
opened : Update → Watch → Watch
opened u w =
    let s = w.joiner in
    let s' : Joiner = record s {
      db = (add_chat u.now u.chat_answer u.chat_updated u.chat_id s.db).0;
    } in
    record w {
      joiner =
          if str_eq u.username ""
          then s'
          else update_invite_link u.now u.chat_id (str_append "https://t.me/" u.username) s';
    }

-- The bot leaves a chat that is no supergroup, which changes nothing that it keeps.
unfoldable pub handle_participant : Update → Watch → Watch
unfolding by_assistant opened
handle_participant u w =
    let s = w.joiner in
    let w' : Watch = record w {
      joiner = record s { db = (get_lang u.now u.lang_answer u.chat_id s.db).0 };
    } in
    if ltb_ℤ (pos 0) u.chat_id then w' else by_assistant u (assistant_id u u.pick (opened u w'))
