-- ===== src/AdminCache.antt =====
-- src/core/cache/admin_cache.go: the administrators of a chat, cached for an hour. What the Telegram
-- API would answer to `GetChatMembers` at the moment of the call is an argument: `none` is an error.
pub mod Reads
use Prim.Native.String.{◌++◌ as str_append}
use yes.Prelude.{
  ℕ, ◌*◌, Bool, true, false, List, [], ◌∷◌, Option, none, some, String, ℤ, pos, map, int_eq,
  if◌then◌else◌,
}
use yes.Prelude.Decimal.{format}
use yes.TtlCache.{Cache, get, set, set_with_ttl, delete, clear, minute}

pub record Rights : Type 0 where
  pub invite_users : Bool
  pub ban_users : Bool
  pub manage_call : Bool

-- `telegram.Participant`, with `User.ID` as `user_id`; `rights` is a pointer.
pub record Participant : Type 0 where
  pub user_id : ℤ
  pub status : String
  pub rights : Option Rights

abbrev pub AdminCache : Type 0
AdminCache = Cache (List Participant)

abbrev pub admins_key : ℤ → String
admins_key chat_id = str_append "admins:" (format chat_id)

unfoldable pub get_chat_admins : ℕ → ℤ → AdminCache → Option (List ℤ)
get_chat_admins now chat_id c = elim (get now (admins_key chat_id) c) [
  | none ↦ none
  | some admins ↦ some (map (λ admin. admin.user_id) admins)
]

fetch_admins :
    ℕ → Option (List Participant) → ℤ → AdminCache → AdminCache × Option (List Participant)
fetch_admins now none chat_id c = (c, none)
fetch_admins now (some admins) chat_id c = (set now (admins_key chat_id) admins c, some admins)

cached_admins : ℕ → ℤ → Bool → AdminCache → Option (List Participant)
cached_admins now chat_id true c = none
cached_admins now chat_id false c = get now (admins_key chat_id) c

unfoldable pub get_admins :
    ℕ → Option (List Participant) → ℤ → Bool → AdminCache → AdminCache × Option (List Participant)
unfolding fetch_admins cached_admins
get_admins now answer chat_id force_reload c = elim (cached_admins now chat_id force_reload c) [
  | some admins ↦ (c, some admins)
  | none ↦ fetch_admins now answer chat_id c
]

-- The text of the error of `GetUserAdmin` for a user who is no administrator.
unfoldable pub not_administrator_text : ℤ → ℤ → String
not_administrator_text user_id chat_id =
    str_append "user " (
      str_append (format user_id) (str_append " is not an administrator in chat " (format chat_id)))

pub data Lookup : Type 0 where
  admin : Participant → Lookup
  not_administrator : Lookup
  api_error : Lookup

unfoldable pub find_admin : ℤ → List Participant → Lookup
find_admin user_id [] = not_administrator
find_admin user_id (a ∷ admins) =
    if int_eq a.user_id user_id then admin a else find_admin user_id admins

looked_up : ℕ → ℤ → ℤ → AdminCache × Option (List Participant) → AdminCache × Lookup
looked_up now chat_id user_id (c, none) =
    (set_with_ttl now (admins_key chat_id) [] (20 * minute) c, api_error)
looked_up now chat_id user_id (c, some admins) = (c, find_admin user_id admins)

unfoldable pub get_user_admin :
    ℕ → Option (List Participant) → ℤ → ℤ → Bool → AdminCache → AdminCache × Lookup
unfolding looked_up get_admins find_admin
get_user_admin now answer chat_id user_id force_reload c =
    looked_up now chat_id user_id (get_admins now answer chat_id force_reload c)

unfoldable pub clear_admin_cache : ℤ → AdminCache → AdminCache
clear_admin_cache chat_id c =
    if int_eq chat_id (pos 0) then clear c else delete (admins_key chat_id) c
