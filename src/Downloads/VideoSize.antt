-- ===== src/Downloads/VideoSize.antt =====
-- The size of a video in its description (getMediaDescription of src/vc/helpers.go).
use yes.Prelude.{
  ℕ, ◌%◌, ◌≤◌, ◌<◌, ◌≡◌, refl, ◌&&◌, ℤ, pos, negsuc, ltb, if◌then◌else◌, arith, Bool-cases, inl,
  inr,
}
use yes.Downloads.Media.{Scaling, even_below, fit_to, video_size}

even_below_le : (n : ℕ) → even_below n ≤ n
unfolding even_below
even_below_le n = ground arith

even_below_mod : (n : ℕ) → even_below n % 2 ≡ 0
unfolding even_below
even_below_mod n = ground arith

-- At most 1280 by 720, in pairs of pixels.
unfoldable pub IsFitting : ℕ × ℕ → Type 0
IsFitting size = (size.0 ≤ 1280) × (size.1 ≤ 720) × (size.0 % 2 ≡ 0) × (size.1 % 2 ≡ 0)

even_pair : (a b : ℕ) → a ≤ 1280 → b ≤ 720 → IsFitting (even_below a, even_below b)
unfolding IsFitting
even_pair a b h k = (
  omega (arith, even_below_le a, h),
  omega (arith, even_below_le b, k),
  even_below_mod a,
  even_below_mod b,
)

fit_to-IsFitting :
    (s : Scaling) (w : ℕ)
    → ((n h : ℕ) → h < s.height_for n → s.width_for h ≤ n)
    → w ≤ 1280
    → IsFitting (fit_to s w)
unfolding fit_to
fit_to-IsFitting s w rounding h = elim (Bool-cases (ltb 720 (s.height_for w))) [
  | inl e ↦
      rw e (even_pair (s.width_for 720) 720 (ground (arith, h, rounding w 720, e)) (omega arith))
  | inr e ↦ rw e (even_pair w (s.height_for w) h (ground (arith, e)))
]

size_limit : (w : ℕ) → (if ltb w 1280 then w else 1280) ≤ 1280
size_limit w = ground arith

default-IsFitting : IsFitting (1280, 720)
unfolding IsFitting
default-IsFitting = (omega arith, omega arith, refl, refl)

-- If a width whose height for the ratio is above a number is not below the width for that number, then the
-- size of a video is at most 1280 by 720, and both numbers are even.
pub video_size-IsFitting :
    (s : Scaling) (dimensions : ℤ × ℤ)
    → ((n h : ℕ) → h < s.height_for n → s.width_for h ≤ n)
    → IsFitting (video_size s dimensions)
unfolding video_size
video_size-IsFitting s (negsuc w, h) rounding = default-IsFitting
video_size-IsFitting s (pos w, negsuc h) rounding = default-IsFitting
video_size-IsFitting s (pos w, pos h) rounding = elim (Bool-cases (ltb 0 w && ltb 0 h)) [
  | inl e ↦ rw e (fit_to-IsFitting s (if ltb w 1280 then w else 1280) rounding (size_limit w))
  | inr e ↦ rw e default-IsFitting
]
