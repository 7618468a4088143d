-- ===== src/Config.antt =====
-- src/config: the configuration that LoadConfig reads and checks (config.go, helpers.go). The variables of
-- the environment, `strings.Fields`, `strings.ToLower` and `strings.TrimSpace` are parameters.
use Prim.Native.String.{◌++◌ as str_append}
pub mod Valid
use yes.Prelude.{
  nat_eq, ℕ, zero, suc, ◌+◌, ◌-◌, ◌*◌, ◌^◌, ◌≤◌, ◌<◌, ◌≡◌, ◌≢◌, ◌⊎◌, inl, inr, refl, Bool, true,
  false, ◌||◌, ◌&&◌, not, List, [], ◌∷◌, ◌++◌, Option, none, some, String, ℤ, pos, negsuc, leb_ℤ,
  int_eq, int_eq_iff, length, if◌then◌else◌, str_eq, All, arith, Bool-cases,
}
use yes.Prelude.Decimal.{atoi, format}

pub record Environment : Type 0 where
  pub get_env : String → String
  pub fields : String → List String
  pub to_lower : String → String
  pub trim_space : String → String
  pub mkdir_fails : String → Bool

pub record BotConfig : Type 0 where
  pub api_id : ℤ
  pub api_hash : String
  pub token : String
  pub session_strings : List String
  pub session_type : String
  pub mongo_uri : String
  pub db_name : String
  pub api_url : String
  pub api_key : String
  pub owner_id : ℤ
  pub logger_id : ℤ
  pub proxy : String
  pub default_service : String
  pub max_file_size : ℤ
  pub song_duration_limit : ℤ
  pub downloads_dir : String
  pub support_group : String
  pub support_channel : String
  pub devs : List ℤ
  pub cookies_url : List String

unfoldable pub get_env_str : Environment → String → String → String
get_env_str env key default = if str_eq (env.get_env key) "" then default else env.get_env key

-- `strconv.ParseInt(val, 10, 64)` reads what `strconv.Atoi` reads.
unfoldable pub get_env_int_64 : Environment → String → ℤ → ℤ
get_env_int_64 env key default = elim (atoi (env.get_env key)) [ none ↦ default | some i ↦ i ]

unfoldable pub get_env_int_32 : Environment → String → ℤ → ℤ
get_env_int_32 env key default = elim (atoi (env.get_env key)) [
  | none ↦ default
  | some i ↦ if leb_ℤ (negsuc (2 ^ 31 - 1)) i && leb_ℤ i (pos (2 ^ 31 - 1)) then i else default
]

-- The variables from number `i` on, `count` of them.
unfoldable pub sessions_from : Environment → String → ℕ → ℕ → List String
sessions_from env prefix i zero = []
sessions_from env prefix i (suc count) =
    let later = sessions_from env prefix (suc i) count in
    let s = env.trim_space (env.get_env (str_append prefix (format (pos i)))) in
    if str_eq s "" then later else s ∷ later

unfoldable pub get_session_strings : Environment → String → ℕ → List String
unfolding sessions_from
get_session_strings env prefix count = sessions_from env prefix 1 count

unfoldable pub trimmed_all : (String → String) → List String → List String
trimmed_all trim [] = []
trimmed_all trim (u ∷ parts) =
    let later = trimmed_all trim parts in if str_eq u "" then later else trim u ∷ later

-- `commas_spaced` is `strings.ReplaceAll(value, ",", " ")`.
unfoldable pub process_cookie_urls : Environment → (String → String) → String → List String
unfolding trimmed_all
process_cookie_urls env commas_spaced value =
    if str_eq value "" then [] else trimmed_all env.trim_space (env.fields (commas_spaced value))

unfoldable pub contains_int : List ℤ → ℤ → Bool
contains_int [] x = false
contains_int (v ∷ list) x = int_eq v x || contains_int list x

-- The numbers among the fields.
unfoldable pub parsed_ids : List String → List ℤ
parsed_ids [] = []
parsed_ids (s ∷ parts) =
    let later = parsed_ids parts in elim (atoi s) [ none ↦ later | some id ↦ id ∷ later ]

unfoldable pub listed_devs : Environment → List ℤ
unfolding parsed_ids
listed_devs env =
    if str_eq (env.get_env "DEVS") "" then [] else parsed_ids (env.fields (env.get_env "DEVS"))

unfoldable pub with_owner : ℤ → List ℤ → List ℤ
unfolding contains_int
with_owner owner_id devs =
    if not (int_eq owner_id (pos 0)) && not (contains_int devs owner_id)
    then devs ++ owner_id ∷ []
    else devs

unfoldable pub read_config : Environment → (String → String) → BotConfig
unfolding get_env_str get_env_int_64 get_env_int_32 get_session_strings process_cookie_urls
    listed_devs with_owner
read_config env commas_spaced =
    let owner_id = get_env_int_64 env "OWNER_ID" (pos 5938660179) in
    record {
      api_id = get_env_int_32 env "API_ID" (pos 0);
      api_hash = env.get_env "API_HASH";
      token = env.get_env "TOKEN";
      session_strings = get_session_strings env "STRING" 10;
      session_type = get_env_str env "SESSION_TYPE" "pyrogram";
      mongo_uri = env.get_env "MONGO_URI";
      db_name = get_env_str env "DB_NAME" "MusicBot";
      api_url = get_env_str env "API_URL" "https://tgmusic.fallenapi.fun";
      api_key = env.get_env "API_KEY";
      owner_id = owner_id;
      logger_id = get_env_int_64 env "LOGGER_ID" (negsuc 1002166934877);
      proxy = env.get_env "PROXY";
      default_service = env.to_lower (get_env_str env "DEFAULT_SERVICE" "youtube");
      max_file_size = get_env_int_64 env "MAX_FILE_SIZE" (pos (500 * 1024 * 1024));
      song_duration_limit = get_env_int_64 env "SONG_DURATION_LIMIT" (pos 3600);
      downloads_dir = get_env_str env "DOWNLOADS_DIR" "downloads";
      support_group = get_env_str env "SUPPORT_GROUP" "https://t.me/GuardxSupport";
      support_channel = get_env_str env "SUPPORT_CHANNEL" "https://t.me/FallenProjects";
      devs = with_owner owner_id (listed_devs env);
      cookies_url = process_cookie_urls env commas_spaced (env.get_env "COOKIES_URL");
    }

unfoldable pub named_if : Bool → String → List String
named_if true name = name ∷ []
named_if false name = []

unfoldable pub missing : BotConfig → List String
unfolding named_if
missing c =
    named_if (int_eq c.api_id (pos 0)) "API_ID"
    ++ named_if (str_eq c.api_hash "") "API_HASH"
    ++ named_if (str_eq c.token "") "TOKEN"
    ++ named_if (str_eq c.mongo_uri "") "MONGO_URI"
    ++ named_if (int_eq c.logger_id (pos 0)) "LOGGER_ID"
    ++ named_if (str_eq c.db_name "") "DB_NAME"

unfoldable pub is_session_type : String → Bool
is_session_type t = (str_eq t "pyrogram" || str_eq t "telethon") || str_eq t "gogram"

pub data Checked : Type 0 where
  config : BotConfig → Checked
  missing_config : List String → Checked
  no_session : Checked
  invalid_session_type : String → Checked
  no_directory : Checked

unfoldable pub validate_sessions : Environment → BotConfig → List String → Checked
unfolding is_session_type
validate_sessions env c [] = no_session
validate_sessions env c (s ∷ sessions) =
    let t = env.to_lower (env.trim_space c.session_type) in
    if not (is_session_type t)
    then invalid_session_type t
    else if env.mkdir_fails c.downloads_dir
    then no_directory
    else config (record c { session_type = t })

unfoldable pub validate : Environment → BotConfig → List String → Checked
unfolding validate_sessions
validate env c [] = validate_sessions env c c.session_strings
validate env c (name ∷ names) = missing_config (name ∷ names)

-- The directory of the cookies.
unfoldable pub with_cookies_dir : Environment → Checked → Checked
with_cookies_dir env (config c) =
    if not (nat_eq (length c.cookies_url) 0) && env.mkdir_fails "src/cookies"
    then no_directory
    else config c
with_cookies_dir env (missing_config names) = missing_config names
with_cookies_dir env no_session = no_session
with_cookies_dir env (invalid_session_type t) = invalid_session_type t
with_cookies_dir env no_directory = no_directory

-- `LoadConfig`; the download of the cookies goes on by itself.
unfoldable pub load_config : Environment → (String → String) → Checked
unfolding read_config missing validate with_cookies_dir
load_config env commas_spaced =
    let c = read_config env commas_spaced in with_cookies_dir env (validate env c (missing c))
