-- ===== src/TtlCache.antt =====
-- src/core/cache/cache.go: a cache with an expiry time for each entry. Times are nanoseconds, and the
-- time of `time.Now()` is an argument. The zero value with `false` is `none`.
use yes.Prelude.{
  ℕ, ◌+◌, ◌*◌, ◌≡◌, refl, [], Option, none, some, String, arith, ltb, eq_String, eq_iff, str_eq,
  if◌then◌else◌,
}
use yes.Prelude.Assoc.{Assoc, lookup, insert, remove, lookup-insert, lookup-remove}

abbrev pub second : ℕ
second = 1000000000

abbrev pub minute : ℕ
minute = 60 * second

abbrev pub hour : ℕ
hour = 60 * minute

pub record Item {ℓ} (T : Type ℓ) : Type ℓ where
  pub value : T
  pub expiration : ℕ

pub record Cache {ℓ} (T : Type ℓ) : Type ℓ where
  pub items : Assoc String (Item T)
  pub ttl : ℕ

module _ {ℓ} {T : Type ℓ} where
  abbrev pub new_cache : ℕ → Cache T
  new_cache ttl = record { items = []; ttl = ttl }

  fresh : ℕ → Option (Item T) → Option T
  fresh now none = none
  fresh now (some item) = if ltb item.expiration now then none else some item.value

  unfoldable pub get : ℕ → String → Cache T → Option T
  unfolding fresh
  get now key c = fresh now (lookup key c.items)

  unfoldable pub set_with_ttl : ℕ → String → T → ℕ → Cache T → Cache T
  set_with_ttl now key value ttl c = record c {
    items = insert key (record { value = value; expiration = now + ttl }) c.items;
  }

  unfoldable pub set : ℕ → String → T → Cache T → Cache T
  unfolding set_with_ttl
  set now key value c = set_with_ttl now key value c.ttl c

  unfoldable pub delete : String → Cache T → Cache T
  delete key c = record c { items = remove key c.items }

  unfoldable pub clear : Cache T → Cache T
  clear c = record c { items = [] }

  -- An entry written at `now` is read until its time to live has passed, and not after; the entries of
  -- all other keys read as before.
  pub get-set_with_ttl :
      (now later ttl : ℕ) (key j : String) (value : T) (c : Cache T)
      → get later j (set_with_ttl now key value ttl c) ≡ (
          if str_eq key j
          then (if ltb (now + ttl) later then none else some value)
          else get later j c)
  unfolding get set_with_ttl
  get-set_with_ttl now later ttl key j value c = rw lookup-insert (ground (arith, eq_iff key j))

  pub get-set :
      (now later : ℕ) (key j : String) (value : T) (c : Cache T)
      → get later j (set now key value c) ≡ (
          if str_eq key j
          then (if ltb (now + c.ttl) later then none else some value)
          else get later j c)
  unfolding set
  get-set now later key j value c = get-set_with_ttl now later c.ttl key j value c

  pub get-delete :
      (later : ℕ) (key j : String) (c : Cache T)
      → get later j (delete key c) ≡ (if str_eq key j then none else get later j c)
  unfolding get delete
  get-delete later key j c = rw lookup-remove (ground (arith, eq_iff key j))

  pub get-clear : (later : ℕ) (j : String) (c : Cache T) → get later j (clear c) ≡ none
  unfolding get clear lookup
  get-clear later j c = refl

  pub ttl-set :
      (now : ℕ) (key : String) (value : T) (c : Cache T) → (set now key value c).ttl ≡ c.ttl
  unfolding set
  ttl-set now key value c = refl
