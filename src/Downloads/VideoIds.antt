-- ===== src/Downloads/VideoIds.antt =====
-- The id of a video and its links (src/core/dl/youtube.go).
use Prim.Native.Char.{code}
use text.Mathlib.TextLemmas.{cons≢nil}
use yes.Prelude.{
  eq_iff, str_eq, Bool-cases, nat_eq, not, ◌||◌, ℕ, zero, suc, Bool, true, false, ◌&&◌, ◌≡◌, refl,
  sym, ap, ◌∙◌, none, some, String, arith, ◌⊎◌, inl, inr,
}
use yes.Downloads.Links.{
  joined, before_char, is_id_char, prepended, id_of, is_tail, is_valid_query, extract_video_id,
  watch_url, normalize_youtube_url, matched, match_pattern, skip_prefix, skip_scheme,
  without_prefix, id_before_tail, or_text, after_text,
}

-- A text of that many characters, letters, digits, `_` and `-`.
unfoldable pub is_id : ℕ → String → Bool
is_id zero String.[] = true
is_id zero (String.◌∷◌ c s) = false
is_id (suc n) String.[] = false
is_id (suc n) (String.◌∷◌ c s) = is_id_char c && is_id n s

id_of-joined : (n : ℕ) (id t : String) → is_id n id ≡ true → id_of n (joined id t) ≡ some (id, t)
unfolding is_id id_of joined prepended
id_of-joined zero String.[] t h = refl
id_of-joined zero (String.◌∷◌ c id) t h = ground (arith, h)
id_of-joined (suc n) String.[] t h = ground (arith, h)
id_of-joined (suc n) (String.◌∷◌ c id) t h = ground (arith, h, id_of-joined n id t)

before_char-joined :
    (sep n : ℕ) (id t : String)
    → (sep ≡ 35) ⊎ (sep ≡ 63)
    → is_id n id ≡ true
    → before_char sep (joined id t) ≡ joined id (before_char sep t)
unfolding is_id before_char joined is_id_char
before_char-joined sep zero String.[] t e h = refl
before_char-joined sep zero (String.◌∷◌ c id) t e h = ground (arith, h)
before_char-joined sep (suc n) String.[] t e h = ground (arith, h)
before_char-joined sep (suc n) (String.◌∷◌ c id) t e h =
    ground (arith, e, h, before_char-joined sep n id t e)

before_tail : (t : String) → is_tail false t ≡ true → before_char 35 (before_char 63 t) ≡ ""
unfolding is_tail before_char
before_tail String.[] h = refl
before_tail (String.◌∷◌ c t) h = elim (Bool-cases (nat_eq (code c) 63)) [
  | inl e ↦ rw e refl
  | inr e ↦ rw e (ground (arith, e, h))
]

joined-nil : (s : String) → joined s "" ≡ s
unfolding joined
joined-nil String.[] = refl
joined-nil (String.◌∷◌ c s) = ap (λ t. String.◌∷◌ c t) (joined-nil s)

before_id_tail :
    (id t : String)
    → is_id 11 id ≡ true
    → is_tail false t ≡ true
    → before_char 35 (before_char 63 (joined id t)) ≡ id
before_id_tail id t h k =
    ap (before_char 35) (before_char-joined 63 11 id t (inr refl) h)
    ∙ (before_char-joined 35 11 id (before_char 63 t) (inl refl) h
        ∙ (ap (joined id) (before_tail t k) ∙ joined-nil id))

id_of_id : (id : String) → is_id 11 id ≡ true → id_of 11 id ≡ some (id, "")
id_of_id id h = ap (id_of 11) (sym (joined-nil id)) ∙ id_of-joined 11 id "" h

matched-watch :
    (id : String)
    → is_id 11 id ≡ true
    → matched (joined "https://www.youtube.com/watch?v=" id) ≡ some id
unfolding matched match_pattern skip_prefix skip_scheme without_prefix joined id_before_tail or_text
    is_tail
matched-watch id h = ap (λ r. or_text (id_before_tail true r) none) (id_of_id id h)

-- A link of the short form: https://youtu.be/, the id and a tail.
unfoldable pub short_link : String → String → String
unfolding joined
short_link id t = joined "https://youtu.be/" (joined id t)

matched-short :
    (id t : String)
    → is_id 11 id ≡ true
    → is_tail false t ≡ true
    → matched (short_link id t) ≡ some id
unfolding matched match_pattern skip_prefix skip_scheme without_prefix joined id_before_tail or_text
    short_link
matched-short id t h k =
    ap (λ r. or_text (id_before_tail false r) none) (id_of-joined 11 id t h) ∙ ground (arith, k)

pub normalized_short :
    (id t : String)
    → is_id 11 id ≡ true
    → is_tail false t ≡ true
    → normalize_youtube_url (short_link id t) ≡ joined "https://www.youtube.com/watch?v=" id
unfolding normalize_youtube_url after_text without_prefix joined or_text watch_url short_link
normalized_short id t h k = ap (joined "https://www.youtube.com/watch?v=") (before_id_tail id t h k)

short_link-ne-empty : (id t : String) → str_eq (short_link id t) "" ≡ false
unfolding short_link joined
short_link-ne-empty id t = ground (
  arith,
  eq_iff (short_link id t) "",
  cons≢nil {x = "h"} {xs = joined "ttps://youtu.be/" (joined id t)},
)

-- Some character of the text cannot stand in an id.
has_other : String → Bool
has_other String.[] = false
has_other (String.◌∷◌ c s) = not (is_id_char c) || has_other s

without_prefix-id :
    (p : String) (n : ℕ) (id : String)
    → has_other p ≡ true
    → is_id n id ≡ true
    → without_prefix p id ≡ none
unfolding has_other is_id without_prefix is_id_char
without_prefix-id String.[] n id h k = ground (arith, h)
without_prefix-id (String.◌∷◌ c p) n String.[] h k = refl
without_prefix-id (String.◌∷◌ c p) zero (String.◌∷◌ d id) h k = ground (arith, k)
without_prefix-id (String.◌∷◌ c p) (suc n) (String.◌∷◌ d id) h k =
    ground (arith, h, k, without_prefix-id p n id)

after_text-id :
    (p : String) (n : ℕ) (id : String)
    → has_other p ≡ true
    → is_id n id ≡ true
    → after_text p id ≡ none
unfolding after_text or_text is_id
after_text-id p n String.[] h k = without_prefix-id p 0 "" h refl
after_text-id p zero (String.◌∷◌ c id) h k = ground (arith, k)
after_text-id p (suc n) (String.◌∷◌ c id) h k =
    ground (arith, k, without_prefix-id p (suc n) (String.◌∷◌ c id) h k, after_text-id p n id h)

normalized_watch :
    (id : String)
    → is_id 11 id ≡ true
    → normalize_youtube_url (joined "https://www.youtube.com/watch?v=" id)
      ≡ joined "https://www.youtube.com/watch?v=" id
unfolding normalize_youtube_url after_text without_prefix joined or_text has_other is_id_char
normalized_watch id h = ground (
  arith,
  after_text-id "youtu.be/" 11 id refl h,
  after_text-id "youtube.com/shorts/" 11 id refl h,
)

-- The short link of a video is valid, whatever follows the id behind `?` or `#` on the same line, and
-- extractVideoID gives its id, as it does for the link that normalizeYouTubeURL makes of it.
pub video_id_of_link :
    (id t : String)
    → is_id 11 id ≡ true
    → is_tail false t ≡ true
    → (is_valid_query (short_link id t) ≡ true)
      × (extract_video_id (short_link id t) ≡ id)
      × (extract_video_id (normalize_youtube_url (short_link id t)) ≡ id)
unfolding is_valid_query extract_video_id
video_id_of_link id t h k = (
  ground (arith, matched-short id t h k, short_link-ne-empty id t),
  ground (arith, normalized_short id t h k, matched-watch id h),
  ground (arith, normalized_short id t h k, normalized_watch id h, matched-watch id h),
)

pub id-ne-empty : (id : String) → is_id 11 id ≡ true → str_eq id "" ≡ false
unfolding is_id
id-ne-empty String.[] h = ground (arith, h)
id-ne-empty (String.◌∷◌ c s) h =
    ground (arith, eq_iff (String.◌∷◌ c s) "", cons≢nil {x = c} {xs = s})
