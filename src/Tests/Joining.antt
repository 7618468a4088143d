-- ===== src/Tests/Joining.antt =====
-- Assistants that join chats, on concrete inputs.
use yes.Prelude.{◌≡◌, refl, true, ◌&&◌, [], ◌∷◌, Option, none, some, String, pos, eq_String}
use yes.Prelude.Assoc.{lookup, insert}
use yes.Prelude.Decimal.{format}
use yes.AdminCache.{get_user_admin, get_admins, find_admin}
use yes.Assistants.{get_group_assistant, get_client_name, is_available}
use yes.Assistants.Joining.{
  Joiner, Pick, Chat, exported, input_user, by_status, join_ub, assistant_of, unban, unban_error,
  joining, by_link, with_link, entered, update_invite_link,
}
use yes.Assistants.Membership.{by_status-removed, can_unban, bot_of}
use yes.Database.{no_documents, new_database}
use yes.Database.Chats.{get_chat, get_assistant, set_assistant, get_chat_lang}
use yes.Database.Users.{get_lang}
use yes.TtlCache.{new_cache, get, set}
use yes.Tests.Data.{room}

abbrev pub pick : Pick
pick = record { answer = no_documents; updated = true; random = some 0 }

-- The assistant with id 70 was kicked from `room`, where the bot, 5, is an administrator. Telegram
-- answers `join_error` to the attempt to join.
abbrev pub going : Option String → Chat
going join_error = record {
  now = 10;
  chat_id = room;
  bot_id = pos 5;
  user_of = λ n. pos 70;
  status = record {
    member = "member";
    administrator = "admin";
    creator = "creator";
    left = "left";
    kicked = "kicked";
    restricted = "restricted";
  };
  lang_answer = no_documents;
  check_pick = pick;
  member = some "kicked";
  admins = some (record { user_id = pos 5; status = "admin"; rights = none } ∷ []);
  admins_text = "";
  unbans = true;
  join_lang_answer = no_documents;
  join_pick = pick;
  invite = exported "t.me/+link";
  join_error = join_error;
  resolves_chat = true;
  resolves_user = input_user;
  approves = true;
}

abbrev pub joiner : Joiner
joiner = record {
  clients = record {
    contexts = ("client1", 2) ∷ [];
    clients = ("client1", 1) ∷ [];
    available = "client1" ∷ [];
    counter = 2;
  };
  status_cache = new_cache 100;
  invite_cache = new_cache 100;
  admin_cache = new_cache 100;
  db = new_database;
}

-- The link of `room` is in the cache.
abbrev with_old_link : Joiner
with_old_link = record joiner { invite_cache = set 5 (format room) "t.me/+old" (new_cache 100) }

by_status-removed_example : (can_unban (going none) (bot_of (going none) joiner) && true) ≡ true
unfolding by_status unban unban_error joining join_ub assistant_of by_link with_link entered
    update_invite_link get_group_assistant get_client_name is_available get_user_admin get_admins
    find_admin get set lookup insert get_lang get_chat_lang get_chat get_assistant set_assistant
by_status-removed_example = by_status-removed (going none) joiner "kicked" refl refl
