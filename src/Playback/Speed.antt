-- ===== src/Playback/Speed.antt =====
-- ChangeSpeed of src/vc/calls.go, up to its call of PlayMedia. A `float64` is NaN, negative, or the exact
-- quotient of two numbers: comparisons and the divisions by 2 and by 0.5 are exact on it. `1 / speed`, which
-- is rounded, and the printing of a number by `%f` are parameters.
use mathlib.Core.Option as Option
use native.Mathlib.Nat.{mul_comm, mul_assoc}
use yes.Prelude.{
  ◌++◌, ℕ, zero, suc, ◌*◌, ◌≤◌, ◌≡◌, Bool, true, false, ◌||◌, List, [], ◌∷◌, Option, none, some,
  String, ℤ, ltb, if◌then◌else◌, arith, Bool-cases, inl, inr, refl,
}
use Prim.Native.String.{◌++◌ as str_append}
use yes.ChatCache.{get_playing_track}
use yes.Track.{Ref}
use yes.Playback.{Player}

-- The quotient by 0 is the infinity.
pub data Float : Type 0 where
  nan : Float
  below_zero : Float
  ratio : ℕ → ℕ → Float

-- `x < 0.5`
unfoldable pub is_below_half : Float → Bool
is_below_half nan = false
is_below_half below_zero = true
is_below_half (ratio n d) = ltb (2 * n) d

-- `x > 4.0`
unfoldable pub is_above_four : Float → Bool
is_above_four nan = false
is_above_four below_zero = false
is_above_four (ratio n d) = ltb (4 * d) n

-- The loop while `remaining > 2.0`: the filters, and what remains; `none` when the fuel is used up.
unfoldable pub halvings : ℕ → Float → Option (List String × Float)
halvings zero x = none
halvings (suc fuel) nan = some ([], nan)
halvings (suc fuel) below_zero = some ([], below_zero)
halvings (suc fuel) (ratio n d) =
    let rest = halvings fuel (ratio n (2 * d)) in
    if ltb (2 * d) n then Option.map (λ r. ("atempo=2.0" ∷ r.0, r.1)) rest else some ([], ratio n d)

-- The loop while `remaining < 0.5`, behind the filters so far, and what remains.
unfoldable pub doublings : ℕ → List String × Float → Option (List String × Float)
doublings zero r = none
doublings (suc fuel) (filters, nan) = some (filters, nan)
doublings (suc fuel) (filters, below_zero) = none
doublings (suc fuel) (filters, ratio n d) =
    let rest = doublings fuel (filters ++ "atempo=0.5" ∷ [], ratio (2 * n) d) in
    if ltb (2 * n) d then rest else some (filters, ratio n d)

-- What the package `fmt` and the division of floats give: `%f` of a number, and `1 / x`.
pub record Floats : Type 0 where
  pub sprintf_f : Float → String
  pub one_over : Float → Float

-- The filters of `atempo`. Speeds between 0.5 and 4 take one round at most; both loops get three.
unfoldable pub audio_filters : Floats → Float → Option (List String)
unfolding halvings doublings
audio_filters f speed = elim (halvings 3 speed) [
  | none ↦ none
  | some r ↦ Option.map (λ x. x.0 ++ str_append "atempo=" (f.sprintf_f x.1) ∷ []) (doublings 3 r)
]

-- An error, or what `PlayMedia` is called with: the file, whether it is a video, and of the parameters of ffmpeg
-- the number of `setpts`, printed, and the filters, which are joined by commas.
pub data SpeedChange : Type 0 where
  speed_error : String → SpeedChange
  plays_at : String → Bool → String → List String → SpeedChange
  does_not_end : SpeedChange

unfoldable pub change_speed : Floats → ℤ → Float → Player → SpeedChange
unfolding is_below_half is_above_four audio_filters
change_speed f chat_id speed p =
    if is_below_half speed || is_above_four speed
    then speed_error "invalid_speed"
    else elim (get_playing_track chat_id p.chats) [
      | none ↦ speed_error "no_song_playing"
      | some r ↦ elim (audio_filters f speed) [
        | none ↦ does_not_end
        | some filters ↦
            let song = p.heap.cell r in
            plays_at song.file_path song.is_video (f.sprintf_f (f.one_over speed)) filters
      ]
    ]

-- `2 ^ k`
power_of_two : ℕ → ℕ
power_of_two zero = 1
power_of_two (suc k) = 2 * power_of_two k

doubled : ℕ → List String
doubled zero = []
doubled (suc k) = "atempo=2.0" ∷ doubled k

-- Filters that together have the speed n / d: some that double it, and one more with a number from 0.5 to 2 that
-- is multiplied to the speed by the doublings, exactly, and printed.
unfoldable pub HaveSpeed : Floats → ℕ → ℕ → List String → Type 0
unfolding power_of_two doubled
HaveSpeed f n d filters =
    (k : ℕ) × (m : ℕ) × (e : ℕ) × (filters
      ≡ doubled k ++ str_append "atempo=" (f.sprintf_f (ratio m e)) ∷ [])
    × (power_of_two k * m * d ≡ n * e)
    × (e ≤ 2 * m)
    × (m ≤ 2 * e)

halves : (n d : ℕ) → 2 * 1 * n * d ≡ n * (2 * d)
halves n d = grind (arith, mul_comm, mul_assoc)

one_factor : (n d : ℕ) → 1 * n * d ≡ n * d
one_factor n d = grind (arith, mul_comm, mul_assoc)

-- A speed from 0.5 to 4 gives one filter, or one that doubles and half of the speed.
audio_filters_lem :
    (f : Floats) (n d : ℕ)
    → d ≤ 2 * n
    → n ≤ 4 * d
    → (filters : List String) × (audio_filters f (ratio n d) ≡ some filters)
      × HaveSpeed f n d filters
unfolding audio_filters halvings doublings HaveSpeed power_of_two doubled
audio_filters_lem f n d low high = elim (Bool-cases (ltb (2 * d) n)) [
  | inl e ↦ (
    "atempo=2.0" ∷ str_append "atempo=" (f.sprintf_f (ratio n (2 * d))) ∷ [],
    ground (arith, e),
    (1, n, 2 * d, refl, halves n d, ground (arith, e), omega arith),
  )
  | inr e ↦ (
    str_append "atempo=" (f.sprintf_f (ratio n d)) ∷ [],
    ground (arith, e),
    (0, n, d, refl, one_factor n d, omega arith, ground (arith, e)),
  )
]

-- For a speed n / d from 0.5 to 4 in a chat with a current track, ChangeSpeed plays the file of the track
-- again, with `1 / speed` printed for the times of the pictures, and for the sound some filters that double the
-- speed and one more with a number from 0.5 to 2, which the doublings multiply to the speed exactly; this
-- number is then printed. Its loops end.
pub change_speed_lem :
    (f : Floats) (chat_id : ℤ) (n d : ℕ) (p : Player) {r : Ref}
    → get_playing_track chat_id p.chats ≡ some r
    → d ≤ 2 * n
    → n ≤ 4 * d
    → (filters : List String) × (change_speed f chat_id (ratio n d) p
        ≡ plays_at
            (p.heap.cell r).file_path
            (p.heap.cell r).is_video
            (f.sprintf_f (f.one_over (ratio n d)))
            filters)
      × HaveSpeed f n d filters
unfolding change_speed is_below_half is_above_four
change_speed_lem f chat_id n d p playing low high =
    let (filters, e, have_speed) = audio_filters_lem f n d low high in
    (filters, ground (arith, playing, e, low, high), have_speed)
