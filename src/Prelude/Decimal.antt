-- ===== src/Prelude/Decimal.antt =====
-- Decimal text: `fmt.Sprintf("%d", n)`, which builds the keys of the caches, and `strconv.Atoi`, which
-- reads the argument of a command.
use Prim.Native.Nat.{ℕ, zero, suc, ◌+◌, ◌-◌, ◌*◌, ◌/◌, ◌%◌, ◌^◌, ◌<◌}
use Prim.Native.Char.{Char, code}
use Prim.Native.String.{String, ◌++◌ as str_append}
use mathlib.Core.Bool.{Bool, false, ◌&&◌}
use mathlib.Core.Option.{Option, none, some}
use mathlib.Core.Path.{◌≡◌, refl, ap}
use native.Mathlib.Omega.{arith}
use yes.Prelude.Int.{ℤ, pos, negsuc, int_eq, int_eq_iff}
use text.Mathlib.Text.{◌==◌ as str_eq}
use text.Mathlib.TextEquality.{eq_iff}
use text.Mathlib.TextLemmas.{tail-eq_of_cons-eq, append_cancel_left, cons≢nil}
use yes.Prelude.Tests.{leb, ltb, nat_eq, if◌then◌else◌}

-- The character of a digit.
unfoldable pub digit : ℕ → Char
digit zero = "0"
digit (suc zero) = "1"
digit (suc (suc zero)) = "2"
digit (suc (suc (suc zero))) = "3"
digit (suc (suc (suc (suc zero)))) = "4"
digit (suc (suc (suc (suc (suc zero))))) = "5"
digit (suc (suc (suc (suc (suc (suc zero)))))) = "6"
digit (suc (suc (suc (suc (suc (suc (suc zero))))))) = "7"
digit (suc (suc (suc (suc (suc (suc (suc (suc zero)))))))) = "8"
digit (suc (suc (suc (suc (suc (suc (suc (suc (suc n))))))))) = "9"

pub code-digit : (d : ℕ) → d < 10 → code (digit d) ≡ 48 + d
unfolding digit
code-digit zero h = refl
code-digit (suc zero) h = refl
code-digit (suc (suc zero)) h = refl
code-digit (suc (suc (suc zero))) h = refl
code-digit (suc (suc (suc (suc zero)))) h = refl
code-digit (suc (suc (suc (suc (suc zero))))) h = refl
code-digit (suc (suc (suc (suc (suc (suc zero)))))) h = refl
code-digit (suc (suc (suc (suc (suc (suc (suc zero))))))) h = refl
code-digit (suc (suc (suc (suc (suc (suc (suc (suc zero)))))))) h = refl
code-digit (suc (suc (suc (suc (suc (suc (suc (suc (suc n))))))))) h = omega arith

-- The digits of `n` in front of a text; `n < fuel` is enough fuel.
unfoldable pub digits_onto : ℕ → ℕ → String → String
unfolding digit
digits_onto zero n s = s
digits_onto (suc fuel) n s =
    let more = digits_onto fuel (n / 10) (String.◌∷◌ (digit (n % 10)) s) in
    if ltb n 10 then String.◌∷◌ (digit n) s else more

-- `fmt.Sprintf("%d", n)`.
unfoldable pub format : ℤ → String
unfolding digit digits_onto
format (pos n) = digits_onto (suc n) n ""
format (negsuc n) = String.◌∷◌ "-" (digits_onto (suc (suc n)) (suc n) "")

is_digit : Char → Bool
is_digit c = leb 48 (code c) && leb (code c) 57

scan : String → ℕ → Option ℕ
scan String.[] n = some n
scan (String.◌∷◌ c s) n = if is_digit c then scan s (n * 10 + (code c - 48)) else none

number : String → Option ℕ
number String.[] = none
number (String.◌∷◌ c s) = scan (String.◌∷◌ c s) 0

positive : Option ℕ → Option ℤ
positive none = none
positive (some n) = if ltb n (2 ^ 63) then some (pos n) else none

negative : Option ℕ → Option ℤ
negative none = none
negative (some zero) = some (pos 0)
negative (some (suc n)) = if ltb n (2 ^ 63) then some (negsuc n) else none

-- `strconv.Atoi`: an optional sign and at least one digit, within 64 bits.
unfoldable pub atoi : String → Option ℤ
unfolding is_digit scan number positive negative
atoi String.[] = none
atoi (String.◌∷◌ c s) =
    if nat_eq (code c) 45
    then negative (number s)
    else if nat_eq (code c) 43
    then positive (number s)
    else positive (number (String.◌∷◌ c s))

scan-digit : (d m : ℕ) (s : String) → d < 10 → scan (String.◌∷◌ (digit d) s) m ≡ scan s (m * 10 + d)
unfolding scan is_digit
scan-digit d m s h = ground (arith, code-digit d h)

-- Reading the printed digits gives the number back, and reads on.
scan-digits_onto : (fuel n : ℕ) (s : String) → n < fuel → scan (digits_onto fuel n s) 0 ≡ scan s n
unfolding digits_onto
scan-digits_onto zero n s h = elim h [ ]
scan-digits_onto (suc fuel) n s h = ground (
  arith,
  scan-digit n 0 s,
  scan-digits_onto fuel (n / 10) (String.◌∷◌ (digit (n % 10)) s),
  scan-digit (n % 10) (n / 10) s,
)

-- The two printed texts differ when the numbers do.
pub format-injective : (a b : ℤ) → format a ≡ format b → a ≡ b
unfolding format scan is_digit
format-injective (pos n) (pos m) h = ground (
  arith,
  ap (λ (s : String). scan s 0) h,
  scan-digits_onto (suc n) n "",
  scan-digits_onto (suc m) m "",
)
format-injective (pos n) (negsuc m) h =
    ground (arith, ap (λ (s : String). scan s 0) h, scan-digits_onto (suc n) n "")
format-injective (negsuc n) (pos m) h =
    ground (arith, ap (λ (s : String). scan s 0) h, scan-digits_onto (suc m) m "")
format-injective (negsuc n) (negsuc m) h = ground (
  arith,
  ap (λ (s : String). scan s 0) (tail-eq_of_cons-eq h),
  scan-digits_onto (suc (suc n)) (suc n) "",
  scan-digits_onto (suc (suc m)) (suc m) "",
)

format_cong : (a b : ℤ) → a ≡ b → format a ≡ format b
format_cong a b h = ap format h

-- Two keys are equal texts exactly when their ids are equal.
pub eq-format : (a b : ℤ) → str_eq (format a) (format b) ≡ int_eq a b
eq-format a b =
    ground
      (arith, eq_iff (format a) (format b), int_eq_iff a b, format-injective a b, format_cong a b)

append_cong : (p s t : String) → s ≡ t → str_append p s ≡ str_append p t
append_cong p s t h = ap (str_append p) h

-- A common prefix does not change whether two texts are equal.
pub eq-append_left : (p s t : String) → str_eq (str_append p s) (str_append p t) ≡ str_eq s t
eq-append_left p s t = ground (
  arith,
  eq_iff (str_append p s) (str_append p t),
  eq_iff s t,
  append_cancel_left p s t,
  append_cong p s t,
)

-- What reads as a number is not empty.
pub atoi-ne-empty : (s : String) {z : ℤ} → atoi s ≡ some z → str_eq s "" ≡ false
unfolding atoi
atoi-ne-empty String.[] h = cc
atoi-ne-empty (String.◌∷◌ c s) h =
    ground (arith, eq_iff (String.◌∷◌ c s) "", cons≢nil {x = c} {xs = s})
