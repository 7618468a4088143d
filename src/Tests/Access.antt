-- ===== src/Tests/Access.antt =====
-- The filters and the assistants on concrete inputs.
use yes.Prelude.{
  ◌≡◌, ◌≢◌, refl, true, false, ◌&&◌, List, [], ◌∷◌, none, some, ℤ, pos, arith, eq_String,
}
use yes.Prelude.Assoc.{lookup, insert}
use yes.Prelude.Decimal.{format}
use yes.AdminCache.{get_admins, get_user_admin, find_admin, get_chat_admins}
use yes.Assistants.{Start, get_group_assistant, no_clients, start_client}
use yes.Assistants.Service.{start_all, get_group_assistant-start_all}
use yes.Database.{text, document, no_documents, new_database}
use yes.Database.Authorized.{is_admin}
use yes.Database.Users.{get_lang}
use yes.Database.Utilities.{contains}
use yes.Database.Chats.{get_chat_lang, get_chat, get_admin_mode, get_play_mode}
use yes.Handlers.Filters.{Access, Asked, admin_mode_cb, admin_mode, play_mode, among}
use yes.Handlers.Permissions.{
  allows, bot_serves, bot_rank, permitted, admin_mode_read, user_is_admin, user_is_listed,
  allows-admin_mode, allows-play_mode,
}
use yes.TtlCache.{new_cache, get, set}
use yes.Tests.Data.{room}

-- The bot, 5, and user 7 are administrators of `room`, where only administrators may use commands.
abbrev asked : ℤ → Asked
asked user_id = record {
  chat_id = room;
  bot_id = pos 5;
  user_id = user_id;
  is_private = false;
  now = 10;
  admin_status = "admin";
  creator_status = "creator";
  members = some (
      record { user_id = pos 5; status = "admin"; rights = none }
      ∷ record { user_id = pos 7; status = "creator"; rights = none }
      ∷ []);
  members_again = none;
  api_text = "";
  lang_answer = no_documents;
  mode_answer = document (("admin_mode", text "admins") ∷ ("play_mode", text "admins") ∷ []);
  auth_answer = no_documents;
}

abbrev access : Access
access = record { admin_cache = new_cache 100; db = new_database }

allows-admin_mode_example :
    (allows (admin_mode_cb (asked (pos 7)) access).1 ≡ (
      bot_serves (asked (pos 7)) (bot_rank (asked (pos 7)) access)
      && permitted
          (admin_mode_read (asked (pos 7)) access)
          (user_is_admin (asked (pos 7)) access)
          (user_is_listed (asked (pos 7)) access)))
    × (allows (admin_mode (asked (pos 7)) access).1
        ≡ allows (admin_mode_cb (asked (pos 7)) access).1)
allows-admin_mode_example = allows-admin_mode (asked (pos 7)) access

allows-play_mode_example : allows (play_mode (asked (pos 8)) access).1 ≡ false
unfolding get_user_admin get_admins find_admin get_play_mode get set lookup insert among get_chat
    get_lang get_chat_lang format
allows-play_mode_example = allows-play_mode (asked (pos 8)) access

-- The first account does not start, and the second does.
abbrev accounts : List Start
accounts =
    record {
      session_type = "pyrogram";
      decodes = true;
      client = some 1;
      starts = false;
      is_bot = false;
      context = some 1;
    }
    ∷ record {
      session_type = "pyrogram";
      decodes = true;
      client = some 2;
      starts = true;
      is_bot = false;
      context = some 2;
    }
    ∷ []

get_group_assistant-start_all_example :
    (get_group_assistant 10 no_documents true
      (some 0)
      room
      (start_all accounts no_clients)
      new_database).1
    ≢ none
unfolding start_all start_client
get_group_assistant-start_all_example =
    get_group_assistant-start_all accounts 10 no_documents true (some 0) room new_database (λ e. cc)
      (omega arith)

-- A run of the filter: user 7 passes, and user 8 does not.
admin_mode-asked :
    (allows (admin_mode (asked (pos 7)) access).1 ≡ true)
    × (allows (admin_mode (asked (pos 8)) access).1 ≡ false)
unfolding admin_mode admin_mode_cb get_user_admin get_admins find_admin is_admin get_chat_admins
    get_admin_mode get set lookup insert get_chat get_lang get_chat_lang contains format
admin_mode-asked = (refl, refl)
