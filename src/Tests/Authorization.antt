-- ===== src/Tests/Authorization.antt =====
-- The commands on authorized users, on concrete inputs.
use yes.Prelude.{◌≡◌, refl, true, false, [], ◌∷◌, none, some, ℤ, pos, arith, eq_String}
use yes.Prelude.Assoc.{lookup, insert}
use yes.Prelude.Decimal.{format}
use yes.AdminCache.{AdminCache, get_chat_admins}
use yes.Database.{Document, int_64, document, no_documents, new_database, array}
use yes.Database.Authorized.{
  add_auth_user, remove_auth_user, is_admin, is_auth_user, get_auth_users,
}
use yes.Database.Chats.{get_chat, get_chat_lang}
use yes.Database.Users.{get_lang}
use yes.Database.Utilities.{contains, get_int_slice, convert_interface_slice}
use yes.Handlers.Auth.{AuthRequest, get_target_user_id, add_auth_handler, remove_auth_handler}
use yes.Handlers.Authorization.{
  is_authorized, authorized-add_auth_handler, authorized-remove_auth_handler,
}
use yes.TtlCache.{new_cache, get, set}
use yes.Tests.Data.{room}

-- The user 8 is authorized.
abbrev stored : Document
stored = ("auth_users", array (int_64 (pos 8) ∷ [])) ∷ []

-- A reply to a message of the user.
abbrev about : ℤ → AuthRequest
about user_id = record {
  now = 10;
  chat_id = room;
  sender_id = pos 7;
  is_private = false;
  is_reply = true;
  reply_sender = some user_id;
  args = "";
  resolved = none;
  lang_answer = document stored;
  auth_answer = document stored;
  change_answer = document stored;
  updated = true;
}

abbrev no_admins : AdminCache
no_admins = new_cache 100

authorized-add_auth_handler_example :
    is_authorized
      (about (pos 9))
      no_admins
      20
      no_documents
      (pos 9)
      (add_auth_handler (about (pos 9)) no_admins new_database).0
    ≡ true
unfolding get_target_user_id add_auth_handler is_auth_user get_auth_users contains get_chat lookup
    insert get set get_lang get_chat_lang get_chat_admins get_int_slice convert_interface_slice
    format add_auth_user
authorized-add_auth_handler_example =
    authorized-add_auth_handler (about (pos 9)) no_admins 20 no_documents (pos 9) new_database refl
      refl (omega arith)

authorized-remove_auth_handler_example :
    is_authorized
      (about (pos 8))
      no_admins
      20
      no_documents
      (pos 8)
      (remove_auth_handler (about (pos 8)) no_admins new_database).0
    ≡ false
unfolding get_target_user_id remove_auth_handler is_auth_user get_auth_users contains get_chat
    lookup insert get set get_lang get_chat_lang get_chat_admins get_int_slice
    convert_interface_slice format remove_auth_user is_admin
authorized-remove_auth_handler_example =
    authorized-remove_auth_handler (about (pos 8)) no_admins 20 no_documents (pos 8) new_database
      refl refl (omega arith)
