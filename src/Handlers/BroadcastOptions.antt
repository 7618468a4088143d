-- ===== src/Handlers/BroadcastOptions.antt =====
-- The options of /broadcast (src/handlers/broadcast.go).
use mathlib.Core.Path.{subst}
use yes.Handlers.PlayCommand.{has_prefix}
use yes.Prelude.{
  ◌≡◌, ◌⊎◌, inl, inr, refl, sym, Bool, true, false, List, [], ◌∷◌, ◌++◌, Option, none, String, ℤ,
  arith,
}
use yes.Prelude.Decimal.{atoi}
use yes.Handlers.Broadcast.{
  Flags, Parsed, flags, invalid_limit, invalid_delay, read_fields, read_field, without_first,
}

unfoldable pub is_parsed : Parsed → Bool
is_parsed (flags f) = true
is_parsed invalid_limit = false
is_parsed invalid_delay = false

read_fields-refused :
    (parse_delay : String → Option ℤ) (args : List String) (p : Parsed)
    → is_parsed p ≡ false
    → is_parsed (read_fields parse_delay args p) ≡ false
unfolding read_fields is_parsed
read_fields-refused parse_delay [] p h = h
read_fields-refused parse_delay (a ∷ args) invalid_limit h = refl
read_fields-refused parse_delay (a ∷ args) invalid_delay h = refl
read_fields-refused parse_delay (a ∷ args) (flags f) h = ground (arith, h)

delay_refused :
    (parse_delay : String → Option ℤ) (f : Flags)
    → parse_delay "" ≡ none
    → is_parsed (read_field parse_delay "-delay" f) ≡ false
unfolding read_field is_parsed without_first has_prefix
delay_refused parse_delay f h = ground (arith, h)

-- If time.ParseDuration refuses an empty text, then /broadcast refuses every message in which `-limit`
-- or `-delay` is followed by a space, as in the examples that it answers with: the value after the
-- space is another field.
pub value_apart_refused :
    (parse_delay : String → Option ℤ) (before after : List String) (name : String) (p : Parsed)
    → parse_delay "" ≡ none
    → (name ≡ "-limit") ⊎ (name ≡ "-delay")
    → is_parsed (read_fields parse_delay (before ++ name ∷ after) p) ≡ false
unfolding read_fields read_field is_parsed without_first has_prefix atoi
value_apart_refused parse_delay [] after name invalid_limit none_empty which = refl
value_apart_refused parse_delay [] after name invalid_delay none_empty which = refl
value_apart_refused parse_delay [] after name (flags f) none_empty (inl e) =
    subst (λ a. is_parsed (read_fields parse_delay (a ∷ after) (flags f)) ≡ false) (sym e)
      (read_fields-refused parse_delay after invalid_limit refl)
value_apart_refused parse_delay [] after name (flags f) none_empty (inr e) =
    subst (λ a. is_parsed (read_fields parse_delay (a ∷ after) (flags f)) ≡ false) (sym e)
      (read_fields-refused parse_delay after (read_field parse_delay "-delay" f)
        (delay_refused parse_delay f none_empty))
value_apart_refused parse_delay (a ∷ before) after name invalid_limit none_empty which = refl
value_apart_refused parse_delay (a ∷ before) after name invalid_delay none_empty which = refl
value_apart_refused parse_delay (a ∷ before) after name (flags f) none_empty which =
    value_apart_refused parse_delay before after name (read_field parse_delay a f) none_empty which
