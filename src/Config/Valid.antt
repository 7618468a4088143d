-- ===== src/Config/Valid.antt =====
-- What holds of every configuration that LoadConfig accepts (src/config).
use mathlib.Core.Path.{subst}
use yes.Prelude.{
  Bool-cases, inl, inr, not, ◌&&◌, nat_eq, ℕ, zero, suc, ◌≤◌, ◌≡◌, refl, true, false, ◌||◌, List,
  [], ◌∷◌, ◌++◌, String, ℤ, pos, int_eq, int_eq_iff, length, str_eq, All, arith,
}
use yes.Config.{
  Environment, BotConfig, sessions_from, get_session_strings, contains_int, listed_devs, with_owner,
  read_config, missing, named_if, is_session_type, Checked, config, missing_config, no_session,
  invalid_session_type, no_directory, validate, validate_sessions, with_cookies_dir, load_config,
}

-- The required settings are there, there are one to ten session strings of a known type, and the owner, if
-- there is one, is a developer.
unfoldable pub IsValid : BotConfig → Type 0
IsValid c =
    (int_eq c.api_id (pos 0) ≡ false)
    × (str_eq c.api_hash "" ≡ false)
    × (str_eq c.token "" ≡ false)
    × (str_eq c.mongo_uri "" ≡ false)
    × (int_eq c.logger_id (pos 0) ≡ false)
    × (1 ≤ length c.session_strings)
    × (length c.session_strings ≤ 10)
    × All (λ s. str_eq s "" ≡ false) c.session_strings
    × (is_session_type c.session_type ≡ true)
    × ((int_eq c.owner_id (pos 0) || contains_int c.devs c.owner_id) ≡ true)

length-sessions_from :
    (env : Environment) (prefix : String) (i count : ℕ)
    → length (sessions_from env prefix i count) ≤ count
unfolding sessions_from
length-sessions_from env prefix i zero = omega arith
length-sessions_from env prefix i (suc count) =
    ground (arith, length-sessions_from env prefix (suc i) count)

sessions_from-All :
    (env : Environment) (prefix : String) (i count : ℕ)
    → All (λ s. str_eq s "" ≡ false) (sessions_from env prefix i count)
unfolding sessions_from
sessions_from-All env prefix i zero = tt
sessions_from-All env prefix i (suc count) =
    ground (arith, sessions_from-All env prefix (suc i) count)

contains_int-append : (xs : List ℤ) (x : ℤ) → contains_int (xs ++ x ∷ []) x ≡ true
unfolding contains_int
contains_int-append [] x = ground (arith, int_eq_iff x x)
contains_int-append (y ∷ xs) x = ground (arith, contains_int-append xs x)

owner_is_dev :
    (owner_id : ℤ) (devs : List ℤ)
    → (int_eq owner_id (pos 0) || contains_int (with_owner owner_id devs) owner_id) ≡ true
unfolding with_owner
owner_is_dev owner_id devs = ground (arith, contains_int-append devs owner_id)

-- All of `IsValid` but the session type, which the check replaces.
IsComplete : BotConfig → Type 0
IsComplete c =
    (int_eq c.api_id (pos 0) ≡ false)
    × (str_eq c.api_hash "" ≡ false)
    × (str_eq c.token "" ≡ false)
    × (str_eq c.mongo_uri "" ≡ false)
    × (int_eq c.logger_id (pos 0) ≡ false)

-- What the reading of the environment alone gives.
IsRead : BotConfig → Type 0
IsRead c =
    (length c.session_strings ≤ 10)
    × All (λ s. str_eq s "" ≡ false) c.session_strings
    × ((int_eq c.owner_id (pos 0) || contains_int c.devs c.owner_id) ≡ true)

read_config-IsRead :
    (env : Environment) (commas_spaced : String → String) → IsRead (read_config env commas_spaced)
unfolding read_config IsRead get_session_strings
read_config-IsRead env commas_spaced = (
  length-sessions_from env "STRING" 1 10,
  sessions_from-All env "STRING" 1 10,
  owner_is_dev (read_config env commas_spaced).owner_id (listed_devs env),
)

missing-IsComplete : (c : BotConfig) → missing c ≡ [] → IsComplete c
unfolding missing named_if IsComplete
missing-IsComplete c h = ground (arith, h)

-- An accepted configuration is valid.
AcceptsValid : Checked → Type 0
AcceptsValid (config c) = IsValid c
AcceptsValid (missing_config names) = Unit
AcceptsValid no_session = Unit
AcceptsValid (invalid_session_type t) = Unit
AcceptsValid no_directory = Unit

with_cookies_dir-AcceptsValid :
    (env : Environment) (r : Checked) → AcceptsValid r → AcceptsValid (with_cookies_dir env r)
unfolding with_cookies_dir AcceptsValid
with_cookies_dir-AcceptsValid env (config c) h =
    elim (Bool-cases (not (nat_eq (length c.cookies_url) 0) && env.mkdir_fails "src/cookies")) [
      | inl e ↦ rw e tt
      | inr e ↦ rw e h
    ]
with_cookies_dir-AcceptsValid env (missing_config names) h = tt
with_cookies_dir-AcceptsValid env no_session h = tt
with_cookies_dir-AcceptsValid env (invalid_session_type t) h = tt
with_cookies_dir-AcceptsValid env no_directory h = tt

validate_sessions-AcceptsValid :
    (env : Environment) (c : BotConfig) (sessions : List String)
    → c.session_strings ≡ sessions
    → IsComplete c
    → IsRead c
    → AcceptsValid (validate_sessions env c sessions)
unfolding validate_sessions AcceptsValid IsValid IsComplete IsRead
validate_sessions-AcceptsValid env c [] same (a, h, t, m, l) (n, s, o) = tt
validate_sessions-AcceptsValid env c (x ∷ sessions) same (a, h, t, m, l) (n, s, o) =
    elim (Bool-cases (is_session_type (env.to_lower (env.trim_space c.session_type)))) [
      | inr e ↦ rw e tt
      | inl e ↦ elim (Bool-cases (env.mkdir_fails c.downloads_dir)) [
        | inl f ↦ rw (e, f) tt
        | inr f ↦ rw (e, f) (a, h, t, m, l, ground (arith, same), n, s, e, o)
      ]
    ]

validate-AcceptsValid :
    (env : Environment) (c : BotConfig) (names : List String)
    → missing c ≡ names
    → IsRead c
    → AcceptsValid (validate env c names)
unfolding validate AcceptsValid
validate-AcceptsValid env c [] same read =
    validate_sessions-AcceptsValid env c c.session_strings refl (missing-IsComplete c same) read
validate-AcceptsValid env c (name ∷ names) same read = tt

load_config-AcceptsValid :
    (env : Environment) (commas_spaced : String → String)
    → AcceptsValid (load_config env commas_spaced)
unfolding load_config
load_config-AcceptsValid env commas_spaced =
    let c = read_config env commas_spaced in
    with_cookies_dir-AcceptsValid env (validate env c (missing c))
      (validate-AcceptsValid env c (missing c) refl (read_config-IsRead env commas_spaced))

-- A configuration that LoadConfig accepts has an id, a hash and a token for Telegram, an address for MongoDB
-- and a chat for the log, one to ten session strings, none of them empty, a type of session strings that
-- is known, and its owner, if it has one, is among the developers.
pub load_config-IsValid :
    (env : Environment) (commas_spaced : String → String) (c : BotConfig)
    → load_config env commas_spaced ≡ config c
    → IsValid c
unfolding AcceptsValid
load_config-IsValid env commas_spaced c h =
    subst AcceptsValid h (load_config-AcceptsValid env commas_spaced)
