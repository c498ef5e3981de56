-- ===== src/Base/Maps.antt =====
-- Go maps as association lists with one entry for each key. `for range` runs over the list in its
-- own order, where Go leaves the order open. A read of a missing key is `none`; callers put in the
-- zero value.
use Prim.Native.Nat.{ℕ}
use mathlib.Core.Path.{◌≡◌, refl}
use mathlib.Core.Logic.{◌↔◌}
use mathlib.Core.Bool.{Bool, true}
use mathlib.Core.Option.{Option, none, some}
use mathlib.Core.List.{List, [], ◌∷◌}
use native.Mathlib.Omega.{arith}
use part_ii_project.Base.Tests.{◌==◌, ==_iff, if◌then◌else◌}

-- Keys that the program compares by `==`.
pub record Key {ℓ} (K : Type ℓ) : Type ℓ where
  pub same : K → K → Bool
  pub same_iff : (a b : K) → (same a b ≡ true) ↔ (a ≡ b)

instance abbrev pub nat_key : Key ℕ
nat_key = record { same = ◌==◌; same_iff = ==_iff }

module _ {ℓ κ} {K : Type ℓ} {V : Type κ} ⦃e : Key K⦄ where
  -- m[k]
  unfoldable pub lookup : K → List (K × V) → Option V
  lookup k [] = none
  lookup k ((j, v) ∷ m) = if e.same j k then some v else lookup k m

  -- m[k] = v
  unfoldable pub insert : K → V → List (K × V) → List (K × V)
  insert k v [] = (k, v) ∷ []
  insert k v ((j, w) ∷ m) = if e.same j k then (k, v) ∷ m else (j, w) ∷ insert k v m

  -- delete(m, k)
  unfoldable pub erase : K → List (K × V) → List (K × V)
  erase k [] = []
  erase k ((j, w) ∷ m) = if e.same j k then erase k m else (j, w) ∷ erase k m

  pub lookup-insert :
      (new at : K) (value : V) (rows : List (K × V))
      → lookup at (insert new value rows) ≡ (if e.same new at then some value else lookup at rows)
  unfolding lookup insert
  lookup-insert new at value [] = refl
  lookup-insert new at value ((key, old) ∷ rows) = ground (
    arith,
    e.same_iff new at,
    e.same_iff key new,
    e.same_iff key at,
    lookup-insert new at value rows,
  )

  pub lookup-erase :
      (gone at : K) (rows : List (K × V))
      → lookup at (erase gone rows) ≡ (if e.same gone at then none else lookup at rows)
  unfolding lookup erase
  lookup-erase gone at [] = ground arith
  lookup-erase gone at ((key, old) ∷ rows) =
      ground (
        arith,
        e.same_iff gone at,
        e.same_iff key gone,
        e.same_iff key at,
        lookup-erase gone at rows,
      )
