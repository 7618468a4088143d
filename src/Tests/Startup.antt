-- ===== src/Tests/Startup.antt =====
-- The configuration, /reload, and leaving all chats.
use yes.Prelude.{◌≡◌, refl, true, false, [], ◌∷◌, some, pos, str_eq, if◌then◌else◌, arith}
use yes.Prelude.Assoc.{lookup}
use yes.Prelude.Decimal.{atoi, format}
use yes.ChatCache.{get_active_chats, new_chat_cacher}
use yes.TtlCache.{new_cache, get, minute}
use yes.UserBot.Ids.{peer_channel}
use yes.Assistants.Leaving.{ArePeers, IsPeerId, leave_all, leave_all_active}
use yes.Handlers.{says_with}
use yes.Handlers.Reload.{
  ReloadRequest, Reloads, reload_cooldown, reload, reload_admin_cache_handler, reload_again,
}
use yes.Config.{Environment, read_config, load_config, config}
use yes.Config.Valid.{IsValid, load_config-IsValid}
use yes.Tests.Data.{room, chats}

-- Everything that is required, and one session string.
abbrev environment : Environment
environment = record {
  get_env = λ key.
      if str_eq key "API_ID"
      then "6"
      else if str_eq key "API_HASH"
      then "hash"
      else if str_eq key "TOKEN"
      then "token"
      else if str_eq key "MONGO_URI"
      then "mongodb://"
      else if str_eq key "STRING2"
      then "session"
      else "";
  fields = λ s. [];
  to_lower = λ s. s;
  trim_space = λ s. s;
  mkdir_fails = λ path. false;
}

loaded : load_config environment (λ s. s) ≡ config (read_config environment (λ s. s))
unfolding load_config atoi format
loaded = refl

load_config-IsValid_example : IsValid (read_config environment (λ s. s))
load_config-IsValid_example =
    load_config-IsValid environment (λ s. s) (read_config environment (λ s. s)) loaded

-- A request at the start, and one a minute later.
abbrev first_request : ReloadRequest
first_request = record {
  now = 0;
  chat_id = room;
  is_private = false;
  is_sent = true;
  answer = some [];
}

abbrev second_request : ReloadRequest
second_request = record first_request { now = minute }

abbrev no_reloads : Reloads
no_reloads = record { rate_limit = new_cache reload_cooldown; admins = new_cache minute }

reload_again_example :
    reload_admin_cache_handler second_request
      (reload_admin_cache_handler first_request no_reloads).0
    ≡ ((reload first_request no_reloads).0, some (says_with "reload_cooldown" (pos 120 ∷ [])))
unfolding get lookup
reload_again_example =
    reload_again first_request second_request no_reloads refl refl refl refl (omega arith) refl

-- The room is active, and its channel is left.
leave_all_active_example :
    leave_all (λ id. true) (some (peer_channel (pos 5) ∷ []) ∷ []) chats
    ≡ leave_all (λ id. true) (some (peer_channel (pos 5) ∷ []) ∷ []) new_chat_cacher
unfolding get_active_chats ArePeers IsPeerId
leave_all_active_example =
    leave_all_active (λ id. true) (some (peer_channel (pos 5) ∷ []) ∷ []) chats (omega arith, tt)
      ((omega arith, tt), tt)
