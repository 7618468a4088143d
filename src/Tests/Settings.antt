-- ===== src/Tests/Settings.antt =====
-- The settings of chats and users on concrete inputs.
use yes.Prelude.{◌≡◌, refl, true, [], ◌∷◌, some, pos, arith, eq_String}
use yes.Prelude.Assoc.{lookup}
use yes.Database.{
  Document, int_64, float_64, document, no_documents, new_database, done, panicked, text, array,
}
use yes.Database.Access.{auth_user_panics}
use yes.Database.Authorized.{add_auth_user, remove_auth_user, get_auth_users}
use yes.Database.Chats.{
  get_play_type, set_play_type, get_play_mode, get_admin_mode, get_assistant, get_chat_lang,
  get_all_chats,
}
use yes.Database.Settings.{get_play_type-set_play_type, settings_lost, settings_reset}
use yes.Database.Utilities.{contains}
use yes.TtlCache.{get}
use yes.Track.{everyone, admins}
use yes.Tests.Data.{room}

-- MongoDB's document of `room`.
abbrev stored : Document
stored =
    ("play_mode", text admins)
    ∷ ("auth_users", array (int_64 (pos 7) ∷ float_64 (some (pos 8)) ∷ []))
    ∷ []

get_play_type-set_play_type_example :
    (get_play_type 11 no_documents room (set_play_type 10 true room (pos 1) new_database).0).1
    ≡ pos 0
get_play_type-set_play_type_example =
    get_play_type-set_play_type 10 11 no_documents room (pos 1) new_database (omega arith)

settings_lost_example :
    ((get_play_mode 11 (document stored) room (set_play_type 10 true room (pos 1) new_database).0).1
      ≡ everyone)
    × ((get_admin_mode 11
          (document stored)
          room
          (set_play_type 10 true room (pos 1) new_database).0).1
        ≡ everyone)
    × ((get_assistant 11
          (document stored)
          room
          (set_play_type 10 true room (pos 1) new_database).0).1
        ≡ "")
    × ((get_chat_lang 11
          (document stored)
          room
          (set_play_type 10 true room (pos 1) new_database).0).1
        ≡ "en")
    × ((get_auth_users 11
          (document stored)
          room
          (set_play_type 10 true room (pos 1) new_database).0).1
        ≡ [])
unfolding get lookup
settings_lost_example =
    settings_lost 10 11 (document stored) room (pos 1) new_database refl (omega arith)

settings_reset_example :
    ((get_play_mode 11
        (document stored)
        room
        (get_all_chats 10
          (some (record { decoded = room ∷ []; complete = true }))
          new_database).0).1
      ≡ everyone)
    × ((get_admin_mode 11
          (document stored)
          room
          (get_all_chats 10
            (some (record { decoded = room ∷ []; complete = true }))
            new_database).0).1
        ≡ everyone)
    × ((get_chat_lang 11
          (document stored)
          room
          (get_all_chats 10
            (some (record { decoded = room ∷ []; complete = true }))
            new_database).0).1
        ≡ "en")
    × ((get_auth_users 11
          (document stored)
          room
          (get_all_chats 10
            (some (record { decoded = room ∷ []; complete = true }))
            new_database).0).1
        ≡ [])
unfolding contains
settings_reset_example =
    settings_reset 10 11 (document stored) (record { decoded = room ∷ []; complete = true }) room
      new_database refl (omega arith)

auth_user_panics_example :
    ((remove_auth_user 10 true no_documents room (pos 9) new_database).1 ≡ panicked)
    × ((add_auth_user 10 true (document stored) room (pos 9) new_database).1 ≡ done)
unfolding get lookup
auth_user_panics_example =
    auth_user_panics 10 no_documents (document stored) room (pos 9) new_database refl
