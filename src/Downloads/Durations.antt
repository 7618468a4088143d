-- ===== src/Downloads/Durations.antt =====
-- Durations as text: SecToMin of src/core/cache/helpers.go, parseDuration and atoi of
-- src/core/dl/youtube_search.go. The sums of parseDuration wrap at 64 bits.
use Prim.Native.Char.{Char, code}
use mathlib.Core.List.{reverse}
use text.Mathlib.TextLemmas.{cons≢nil}
use yes.Prelude.{
  eq_iff, ℕ, zero, suc, ◌+◌, ◌-◌, ◌*◌, ◌/◌, ◌%◌, ◌^◌, ◌<◌, ◌≡◌, refl, ap, ◌∙◌, ◌&&◌, List, [], ◌∷◌,
  String, ℤ, pos, negsuc, ltb, leb, nat_eq, if◌then◌else◌, int_of_bits, str_eq, arith,
}
use yes.Prelude.Decimal.{digit, code-digit, digits_onto}

-- `fmt.Sprintf("%02d", n)` for a number with at most two digits, in front of a text.
unfoldable pub two_digits_onto : ℕ → String → String
unfolding digits_onto
two_digits_onto n s =
    if ltb n 10 then String.◌∷◌ "0" (digits_onto (suc n) n s) else digits_onto (suc n) n s

-- The two formats of SecToMin, without its hours and with them.
unfoldable pub minutes_text : ℕ → ℕ → String
unfolding digits_onto two_digits_onto
minutes_text minutes secs =
    digits_onto (suc minutes) minutes (String.◌∷◌ ":" (two_digits_onto secs ""))

unfoldable pub hours_text : ℕ → ℕ → ℕ → String
unfolding digits_onto two_digits_onto
hours_text hours minutes secs =
    digits_onto (suc hours) hours
      (String.◌∷◌ ":" (two_digits_onto minutes (String.◌∷◌ ":" (two_digits_onto secs ""))))

unfoldable pub sec_to_min : ℤ → String
unfolding minutes_text hours_text
sec_to_min (negsuc n) = "0:00"
sec_to_min (pos seconds) =
    let hours = seconds / 3600 in
    let minutes = (seconds % 3600) / 60 in
    let secs = seconds % 60 in
    if ltb 0 hours then hours_text hours minutes secs else minutes_text minutes secs

-- A character in front of the first of the parts.
abbrev onto_first : Char → List String → List String
onto_first c [] = String.◌∷◌ c "" ∷ []
onto_first c (p ∷ ps) = String.◌∷◌ c p ∷ ps

-- `strings.Split(s, sep)` for a separator of one character.
unfoldable pub split_at : ℕ → String → List String
split_at sep String.[] = "" ∷ []
split_at sep (String.◌∷◌ c s) =
    let later = split_at sep s in if nat_eq (code c) sep then "" ∷ later else onto_first c later

-- The loop of `atoi`, which skips what is no digit.
unfoldable pub digits_value : String → ℕ → ℕ
digits_value String.[] n = n
digits_value (String.◌∷◌ c s) n =
    if leb 48 (code c) && leb (code c) 57
    then digits_value s ((n * 10 + (code c - 48)) % 2 ^ 64)
    else digits_value s n

-- The loop of `parseDuration` over the parts from the last to the first.
unfoldable pub add_parts : List String → ℕ → ℕ → ℕ
unfolding digits_value
add_parts [] multiplier total = total
add_parts (p ∷ ps) multiplier total =
    add_parts ps (multiplier * 60 % 2 ^ 64) ((total + digits_value p 0 * multiplier) % 2 ^ 64)

unfoldable pub parse_duration : String → ℤ
unfolding split_at add_parts
parse_duration s =
    if str_eq s "" then pos 0 else int_of_bits (add_parts (reverse (split_at 58 s)) 1 0)

digits_value-digit :
    (d m : ℕ) (s : String)
    → d < 10
    → digits_value (String.◌∷◌ (digit d) s) m ≡ digits_value s ((m * 10 + d) % 2 ^ 64)
unfolding digits_value
digits_value-digit d m s h = ground (arith, code-digit d h)

-- Printed digits have their number as their value, if it needs 63 bits at most.
digits_value-digits_onto :
    (fuel n : ℕ) (s : String)
    → n < fuel
    → n < 2 ^ 63
    → digits_value (digits_onto fuel n s) 0 ≡ digits_value s n
unfolding digits_onto
digits_value-digits_onto zero n s h b = elim h [ ]
digits_value-digits_onto (suc fuel) n s h b = ground (
  arith,
  digits_value-digit n 0 s,
  digits_value-digits_onto fuel (n / 10) (String.◌∷◌ (digit (n % 10)) s),
  digits_value-digit (n % 10) (n / 10) s,
)

digits_value-two_digits_onto :
    (n : ℕ) (s : String) → n < 60 → digits_value (two_digits_onto n s) 0 ≡ digits_value s n
unfolding two_digits_onto
digits_value-two_digits_onto n s h =
    ground (
      arith,
      digits_value-digit 0 0 (digits_onto (suc n) n s),
      digits_value-digits_onto (suc n) n s,
    )

split_at-digit :
    (d : ℕ) (s : String) {p : String} {ps : List String}
    → d < 10
    → split_at 58 s ≡ p ∷ ps
    → split_at 58 (String.◌∷◌ (digit d) s) ≡ String.◌∷◌ (digit d) p ∷ ps
unfolding split_at
split_at-digit d s h e = ground (arith, code-digit d h)

-- Digits in front of a text go to its first part.
split_at-digits_onto :
    (fuel n : ℕ) (s : String) {p : String} {ps : List String}
    → split_at 58 s ≡ p ∷ ps
    → split_at 58 (digits_onto fuel n s) ≡ digits_onto fuel n p ∷ ps
unfolding digits_onto
split_at-digits_onto zero n s e = e
split_at-digits_onto (suc fuel) n s e = ground (
  arith,
  λ (h : n < 10). split_at-digit n s h e,
  split_at-digits_onto fuel (n / 10) (String.◌∷◌ (digit (n % 10)) s)
      (split_at-digit (n % 10) s (omega arith) e),
)

split_at-two_digits_onto :
    (n : ℕ) (s : String) {p : String} {ps : List String}
    → split_at 58 s ≡ p ∷ ps
    → split_at 58 (two_digits_onto n s) ≡ two_digits_onto n p ∷ ps
unfolding two_digits_onto digit
split_at-two_digits_onto n s e = ground (
  arith,
  split_at-digits_onto (suc n) n s e,
  split_at-digit 0 (digits_onto (suc n) n s) (omega arith) (split_at-digits_onto (suc n) n s e),
)

split_at-colon : (s : String) → split_at 58 (String.◌∷◌ ":" s) ≡ "" ∷ split_at 58 s
unfolding split_at
split_at-colon s = refl

-- A text with a colon is not empty.
parse_duration-parts :
    (s : String) {p q : String} {ps : List String}
    → split_at 58 s ≡ p ∷ q ∷ ps
    → parse_duration s ≡ int_of_bits (add_parts (reverse (p ∷ q ∷ ps)) 1 0)
unfolding parse_duration split_at
parse_duration-parts String.[] e = ground (arith, e)
parse_duration-parts (String.◌∷◌ c s) e = ground (
  arith,
  eq_iff (String.◌∷◌ c s) "",
  cons≢nil {x = c} {xs = s},
  ap (λ ps. int_of_bits (add_parts (reverse ps) 1 0)) e,
)

sum_of_two :
    (p q : String) (m s : ℕ)
    → digits_value p 0 ≡ m
    → digits_value q 0 ≡ s
    → m < 2 ^ 48
    → s < 60
    → int_of_bits (add_parts (q ∷ p ∷ []) 1 0) ≡ pos (m * 60 + s)
unfolding add_parts
sum_of_two p q m s hm hs bm bs = ground arith

sum_of_three :
    (o p q : String) (h m s : ℕ)
    → digits_value o 0 ≡ h
    → digits_value p 0 ≡ m
    → digits_value q 0 ≡ s
    → h * 3600 + m * 60 + s < 2 ^ 63
    → int_of_bits (add_parts (q ∷ p ∷ o ∷ []) 1 0) ≡ pos (h * 3600 + m * 60 + s)
unfolding add_parts
sum_of_three o p q h m s ho hm hs b = ground arith

parse_duration-minutes_text :
    (m s : ℕ) → m < 60 → s < 60 → parse_duration (minutes_text m s) ≡ pos (m * 60 + s)
unfolding minutes_text digits_value split_at
parse_duration-minutes_text m s hm hs =
    let last = two_digits_onto s "" in
    parse_duration-parts (minutes_text m s) (
      split_at-digits_onto (suc m) m (String.◌∷◌ ":" last)
        (split_at-colon last ∙ ap (λ ps. "" ∷ ps) (split_at-two_digits_onto s "" refl)))
    ∙ sum_of_two (digits_onto (suc m) m "") last m s
        (digits_value-digits_onto (suc m) m "" (omega arith) (omega arith))
        (digits_value-two_digits_onto s "" hs) (omega arith) hs

parse_duration-hours_text :
    (h m s : ℕ)
    → h * 3600 + m * 60 + s < 2 ^ 63
    → m < 60
    → s < 60
    → parse_duration (hours_text h m s) ≡ pos (h * 3600 + m * 60 + s)
unfolding hours_text digits_value split_at
parse_duration-hours_text h m s b hm hs =
    let last = two_digits_onto s "" in
    let later = two_digits_onto m (String.◌∷◌ ":" last) in
    parse_duration-parts (hours_text h m s) (
      split_at-digits_onto (suc h) h (String.◌∷◌ ":" later) (
        split_at-colon later
        ∙ ap (λ ps. "" ∷ ps)
            (split_at-two_digits_onto m (String.◌∷◌ ":" last)
              (split_at-colon last ∙ ap (λ ps. "" ∷ ps) (split_at-two_digits_onto s "" refl)))))
    ∙ sum_of_three (digits_onto (suc h) h "") (two_digits_onto m "") last h m s
        (digits_value-digits_onto (suc h) h "" (omega arith) (omega arith))
        (digits_value-two_digits_onto m "" hm) (digits_value-two_digits_onto s "" hs) b

-- The text that SecToMin gives for a duration in seconds, of 63 bits, is read back by parseDuration as
-- that duration.
pub parse_duration-sec_to_min : (n : ℕ) → n < 2 ^ 63 → parse_duration (sec_to_min (pos n)) ≡ pos n
unfolding sec_to_min
parse_duration-sec_to_min n h = ground (
  arith,
  parse_duration-minutes_text ((n % 3600) / 60) (n % 60),
  parse_duration-hours_text (n / 3600) ((n % 3600) / 60) (n % 60),
)
