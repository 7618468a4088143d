-- ===== src/Tests/Watching.antt =====
-- A participant's change of status, on concrete inputs.
use yes.Prelude.{ℕ, String, ◌≡◌, refl, true, false, none, pos, nat_eq, str_eq}
use yes.ChatCache.{chat_at}
use yes.Database.{no_documents}
use yes.Handlers.Watcher.{
  Watch, Update, Kind, creator_kind, admin_kind, self_kind, member_kind, left_kind, banned_kind,
  no_participant, other_kind, get_status_from_participant, handle_participant_status_change,
}
use yes.Handlers.Watching.{IsDistinct, status_number, chat_at-status_change}
use yes.Tests.Data.{room, player}
use yes.Tests.Joining.{pick, joiner, going}

-- The assistant, 70, is banned from `room`; the bot is 5 and cannot send messages there.
abbrev ban : Update
ban = record {
  now = 10;
  chat_id = room;
  user_id = pos 70;
  bot_id = pos 5;
  user_of = λ n. pos 70;
  status = (going none).status;
  username = "";
  old_kind = member_kind;
  new_kind = banned_kind;
  lang_answer = no_documents;
  chat_answer = no_documents;
  chat_updated = true;
  pick = pick;
  ban_lang_answer = no_documents;
  stop_pick = pick;
  status_pick = pick;
  sends = false;
  admins = none;
}

abbrev watch : Watch
watch = record { joiner = joiner; player = player }

-- A name against those of all types.
against :
    (s : String) (n : ℕ)
    → str_eq s "creator" ≡ nat_eq n 0
    → str_eq s "admin" ≡ nat_eq n 1
    → str_eq s "member" ≡ nat_eq n 2
    → str_eq s "left" ≡ nat_eq n 3
    → str_eq s "kicked" ≡ nat_eq n 4
    → str_eq s "restricted" ≡ nat_eq n 5
    → (b : Kind)
    → str_eq s (get_status_from_participant (ban.status) b) ≡ nat_eq n (status_number b)
unfolding get_status_from_participant status_number
against s n h0 h1 h2 h3 h4 h5 creator_kind = h0
against s n h0 h1 h2 h3 h4 h5 admin_kind = h1
against s n h0 h1 h2 h3 h4 h5 self_kind = h2
against s n h0 h1 h2 h3 h4 h5 member_kind = h2
against s n h0 h1 h2 h3 h4 h5 left_kind = h3
against s n h0 h1 h2 h3 h4 h5 banned_kind = h4
against s n h0 h1 h2 h3 h4 h5 no_participant = h3
against s n h0 h1 h2 h3 h4 h5 other_kind = h5

names_differ : IsDistinct (ban.status)
unfolding IsDistinct get_status_from_participant status_number
names_differ creator_kind b = against "creator" 0 refl refl refl refl refl refl b
names_differ admin_kind b = against "admin" 1 refl refl refl refl refl refl b
names_differ self_kind b = against "member" 2 refl refl refl refl refl refl b
names_differ member_kind b = against "member" 2 refl refl refl refl refl refl b
names_differ left_kind b = against "left" 3 refl refl refl refl refl refl b
names_differ banned_kind b = against "kicked" 4 refl refl refl refl refl refl b
names_differ no_participant b = against "left" 3 refl refl refl refl refl refl b
names_differ other_kind b = against "restricted" 5 refl refl refl refl refl refl b

chat_at-status_change_example :
    chat_at room
      (handle_participant_status_change ban (pos 70) "member" "kicked" watch).player.chats
    ≡ none
unfolding get_status_from_participant
chat_at-status_change_example = chat_at-status_change ban room watch refl names_differ
