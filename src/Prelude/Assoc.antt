-- ===== src/Prelude/Assoc.antt =====
-- A Go map as an association list. A Go map is iterated in no fixed order: what ranges over one
-- goes through the list here, and no theorem depends on the order of its entries.
use yes.Prelude.Tests.{if◌then◌else◌}
use yes.Prelude.Eq.{Key, ◌==◌}
use mathlib.Core.List.{List, [], ◌∷◌}
use mathlib.Core.Option.{Option, none, some}
use mathlib.Core.Path.{◌≡◌, refl}
use native.Mathlib.Omega.{arith}

abbrev pub Assoc {ℓ κ} : Type ℓ → Type κ → Type (ℓ ⊔ κ)
Assoc K V = List (K × V)

module _ {ℓ κ} {K : Type ℓ} {V : Type κ} ⦃key : Key K⦄ where
  -- `v, ok := m[k]`
  unfoldable pub lookup : K → Assoc K V → Option V
  lookup k [] = none
  lookup k ((first, value) ∷ rest) = if first == k then some value else lookup k rest

  -- `m[k] = v`
  unfoldable pub insert : K → V → Assoc K V → Assoc K V
  insert k v [] = (k, v) ∷ []
  insert k v ((first, value) ∷ rest) =
      if first == k then (k, v) ∷ rest else (first, value) ∷ insert k v rest

  -- `delete(m, k)`
  unfoldable pub remove : K → Assoc K V → Assoc K V
  remove k [] = []
  remove k ((first, value) ∷ rest) =
      if first == k then remove k rest else (first, value) ∷ remove k rest

  -- An entry that was written is read under its own key, and hides no other.
  pub lookup-insert :
      (written asked : K) (v : V) (m : Assoc K V)
      → lookup asked (insert written v m) ≡ (if written == asked then some v else lookup asked m)
  unfolding insert lookup
  lookup-insert written asked v [] = refl
  lookup-insert written asked v ((first, value) ∷ rest) =
      let others = lookup-insert written asked v rest in
      ground (
        arith,
        others,
        key.same_iff first written,
        key.same_iff first asked,
        key.same_iff written asked,
      )

  -- An entry that was deleted is not found, and every other one still is.
  pub lookup-remove :
      (deleted asked : K) (m : Assoc K V)
      → lookup asked (remove deleted m) ≡ (if deleted == asked then none else lookup asked m)
  unfolding remove lookup
  lookup-remove deleted asked [] = ground arith
  lookup-remove deleted asked ((first, value) ∷ rest) =
      let others = lookup-remove deleted asked rest in
      ground (
        arith,
        others,
        key.same_iff first deleted,
        key.same_iff first asked,
        key.same_iff deleted asked,
      )
