-- ===== src/Database/Utilities.antt =====
-- src/core/db/utilities.go: lists of ids.
use yes.Prelude.{
  ◌≡◌, refl, Bool, true, false, not, ◌&&◌, ◌||◌, List, [], ◌∷◌, Option, none, some, ℤ, int_eq,
  int_eq_iff, arith, map, if◌then◌else◌,
}
use yes.Database.{Element, go_int, int_32, int_64, float_64, other_element, Value, ids, array}

unfoldable pub contains : List ℤ → ℤ → Bool
contains [] id = false
contains (v ∷ list) id = int_eq v id || contains list id

unfoldable pub remove : List ℤ → ℤ → List ℤ
remove [] id = []
remove (v ∷ list) id = let rest = remove list id in if int_eq v id then rest else v ∷ rest

-- What the loop of `convertInterfaceSlice` does with one element, given the result for the others.
prepend : Element → Option (List ℤ) → Option (List ℤ)
prepend e none = none
prepend (go_int n) (some out) = some (n ∷ out)
prepend (int_32 n) (some out) = some (n ∷ out)
prepend (int_64 n) (some out) = some (n ∷ out)
prepend (float_64 (some n)) (some out) = some (n ∷ out)
prepend (float_64 none) (some out) = some out
prepend other_element (some out) = none

-- `none` is `nil, false`.
unfoldable pub convert_interface_slice : List Element → Option (List ℤ)
unfolding prepend
convert_interface_slice [] = some []
convert_interface_slice (e ∷ arr) = prepend e (convert_interface_slice arr)

ids_or_none : Option (List ℤ) → List ℤ
ids_or_none none = []
ids_or_none (some out) = out

-- The list of `getIntSlice(v)`, whose flag no caller reads; a missing entry of a map is nil.
unfoldable pub get_int_slice : Option Value → List ℤ
unfolding convert_interface_slice ids_or_none
get_int_slice none = []
get_int_slice (some (ids l)) = l
get_int_slice (some (array arr)) = ids_or_none (convert_interface_slice arr)
get_int_slice (some _) = []

-- `remove` takes every occurrence of the id out, and keeps the membership of all others.
pub contains-remove :
    (list : List ℤ) (id j : ℤ)
    → contains (remove list id) j ≡ (not (int_eq id j) && contains list j)
unfolding contains remove
contains-remove [] id j = ground arith
contains-remove (v ∷ list) id j =
    ground (arith, int_eq_iff v id, int_eq_iff v j, int_eq_iff id j, contains-remove list id j)

-- The number that an element stands for, if it stands for one.
abbrev pub number_of : Element → Option ℤ
number_of (go_int n) = some n
number_of (int_32 n) = some n
number_of (int_64 n) = some n
number_of (float_64 n) = n
number_of other_element = none

abbrev pub numbers_of : List Element → List ℤ
numbers_of [] = []
numbers_of (e ∷ arr) = elim (number_of e) [ none ↦ numbers_of arr | some n ↦ n ∷ numbers_of arr ]

abbrev pub all_known : List Element → Bool
all_known [] = true
all_known (other_element ∷ arr) = false
all_known (e ∷ arr) = all_known arr

-- The conversion gives the numbers of an array in order, without the floats that are no integers, and
-- fails if an element is of any other type.
pub convert_interface_slice_lem :
    (arr : List Element)
    → convert_interface_slice arr ≡ (if all_known arr then some (numbers_of arr) else none)
unfolding convert_interface_slice
convert_interface_slice_lem [] = refl
convert_interface_slice_lem (go_int n ∷ arr) = ground (arith, convert_interface_slice_lem arr)
convert_interface_slice_lem (int_32 n ∷ arr) = ground (arith, convert_interface_slice_lem arr)
convert_interface_slice_lem (int_64 n ∷ arr) = ground (arith, convert_interface_slice_lem arr)
convert_interface_slice_lem (float_64 none ∷ arr) = ground (arith, convert_interface_slice_lem arr)
convert_interface_slice_lem (float_64 (some n) ∷ arr) =
    ground (arith, convert_interface_slice_lem arr)
convert_interface_slice_lem (other_element ∷ arr) = ground (arith, convert_interface_slice_lem arr)

-- A list of ids that MongoDB stored as an array of 64-bit numbers is read back as it was.
pub get_int_slice-array : (l : List ℤ) → get_int_slice (some (array (map int_64 l))) ≡ l
unfolding get_int_slice
get_int_slice-array [] = refl
get_int_slice-array (n ∷ l) = ground (arith, get_int_slice-array l)
