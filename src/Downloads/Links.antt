-- ===== src/Downloads/Links.antt =====
-- Links of YouTube: clearQuery, normalizeYouTubeURL, extractVideoID, IsValid and the patterns of
-- src/core/dl/youtube.go. The patterns are read off their regular expressions; their literals exclude
-- each other, so that it does not matter in which order Go ranges over them.
use Prim.Native.Char.{Char, code}
use yes.Prelude.{
  ℕ, zero, suc, Bool, true, false, ◌&&◌, ◌||◌, not, Option, none, some, String, nat_eq, leb,
  if◌then◌else◌, str_eq,
}

-- `s + t`
unfoldable pub joined : String → String → String
joined String.[] t = t
joined (String.◌∷◌ c s) t = String.◌∷◌ c (joined s t)

-- `strings.TrimPrefix`, if the text has the prefix.
unfoldable pub without_prefix : String → String → Option String
without_prefix String.[] s = some s
without_prefix (String.◌∷◌ c p) String.[] = none
without_prefix (String.◌∷◌ c p) (String.◌∷◌ d s) =
    let rest = without_prefix p s in if nat_eq (code c) (code d) then rest else none

unfoldable pub or_text : Option String → Option String → Option String
or_text none later = later
or_text (some s) later = some s

-- What follows the first place of a text in another: `strings.SplitN(s, part, 2)[1]`, if there is one.
unfoldable pub after_text : String → String → Option String
unfolding without_prefix or_text
after_text part String.[] = without_prefix part ""
after_text part (String.◌∷◌ c s) =
    or_text (without_prefix part (String.◌∷◌ c s)) (after_text part s)

-- `strings.SplitN(s, c, 2)[0]` for one character.
unfoldable pub before_char : ℕ → String → String
before_char sep String.[] = ""
before_char sep (String.◌∷◌ c s) =
    let rest = before_char sep s in if nat_eq (code c) sep then "" else String.◌∷◌ c rest

-- `trim_space` is `strings.TrimSpace`.
unfoldable pub clear_query : (String → String) → String → String
unfolding before_char
clear_query trim_space query = trim_space (before_char 38 (before_char 35 query))

-- The text without a prefix, where it has it: `(?:…)?` before a literal that does not begin like it.
unfoldable pub skip_prefix : String → String → String
unfolding without_prefix
skip_prefix p s = elim (without_prefix p s) [ none ↦ s | some rest ↦ rest ]

-- `(?:https?://)?`
unfoldable pub skip_scheme : String → String
unfolding skip_prefix without_prefix
skip_scheme s = elim (without_prefix "https://" s) [
  | some rest ↦ rest
  | none ↦ skip_prefix "http://" s
]

-- `[\w-]`
unfoldable pub is_id_char : Char → Bool
is_id_char c =
    ((leb 48 (code c) && leb (code c) 57) || (leb 65 (code c) && leb (code c) 90))
    || ((leb 97 (code c) && leb (code c) 122) || (nat_eq (code c) 95 || nat_eq (code c) 45))

unfoldable pub prepended : Char → Option (String × String) → Option (String × String)
prepended c none = none
prepended c (some (id, rest)) = some (String.◌∷◌ c id, rest)

-- `([\w-]{n})` and what follows it.
unfoldable pub id_of : ℕ → String → Option (String × String)
unfolding is_id_char prepended
id_of zero s = some ("", s)
id_of (suc n) String.[] = none
id_of (suc n) (String.◌∷◌ c s) =
    let rest = id_of n s in if is_id_char c then prepended c rest else none

unfoldable pub is_one_line : String → Bool
is_one_line String.[] = true
is_one_line (String.◌∷◌ c s) = not (nat_eq (code c) 10) && is_one_line s

-- `(?:[…].*)?$`, for `&`, `#` and `?`, or the last two only.
unfoldable pub is_tail : Bool → String → Bool
unfolding is_one_line
is_tail with_ampersand String.[] = true
is_tail with_ampersand (String.◌∷◌ c s) =
    ((nat_eq (code c) 35 || nat_eq (code c) 63) || (with_ampersand && nat_eq (code c) 38))
    && is_one_line s

unfoldable pub id_before_tail : Bool → Option (String × String) → Option String
unfolding is_tail
id_before_tail with_ampersand none = none
id_before_tail with_ampersand (some (id, rest)) =
    if is_tail with_ampersand rest then some id else none

-- A pattern: an optional scheme, an optional `www.` where it has one, a literal, an id and a tail.
unfoldable pub match_pattern : String → Bool → String → Option String
unfolding skip_prefix skip_scheme id_of id_before_tail without_prefix
match_pattern literal with_ampersand url =
    let host = skip_prefix "www." (skip_scheme url) in
    elim (without_prefix literal host) [
      | none ↦ none
      | some rest ↦ id_before_tail with_ampersand (id_of 11 rest)
    ]

-- The patterns `youtube`, `youtu_be` and `yt_shorts`: the first submatch of the one that matches.
unfoldable pub matched : String → Option String
unfolding match_pattern or_text
matched url =
    or_text (match_pattern "youtube.com/watch?v=" true url) (
      or_text (match_pattern "youtu.be/" false url) (match_pattern "youtube.com/shorts/" false url))

unfoldable pub is_valid_query : String → Bool
unfolding matched
is_valid_query query =
    if str_eq query "" then false else elim (matched query) [ none ↦ false | some id ↦ true ]

unfoldable pub watch_url : String → String
unfolding before_char joined
watch_url rest = joined "https://www.youtube.com/watch?v=" (before_char 35 (before_char 63 rest))

unfoldable pub normalize_youtube_url : String → String
unfolding after_text watch_url
normalize_youtube_url url = elim (after_text "youtu.be/" url) [
  | some rest ↦ watch_url rest
  | none ↦ elim (after_text "youtube.com/shorts/" url) [ some rest ↦ watch_url rest | none ↦ url ]
]

unfoldable pub extract_video_id : String → String
unfolding normalize_youtube_url matched
extract_video_id url = elim (matched (normalize_youtube_url url)) [ none ↦ "" | some id ↦ id ]
