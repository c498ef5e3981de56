-- ===== src/Base/Safety.antt =====
-- Code that does not write to a nil map: it returns a value with a property, or stops otherwise.
use mathlib.Core.Path.{◌≡◌, refl}
use mathlib.Core.Logic.{◌≢◌}
use mathlib.Core.Bool.{Bool, true, false}
use mathlib.Core.Option.{Option, none, some}
use part_ii_project.Base.Tests.{if◌then◌else◌}
use part_ii_project.Base.Results.{
  Outcome, ok, fault, Fault, log_fatal, nil_map_write, out_of_range, nil_dereference, ◌>>=◌,
}

pub data Safe {ℓ κ} {A : Type ℓ} (P : A → Type κ) : Outcome A → Type (ℓ ⊔ κ) where
  returns : {a : A} → P a → Safe P (ok a)
  stops : {e : Fault} → e ≢ nil_map_write → Safe P (fault e)

module _ {ℓ κ} {A : Type ℓ} {P : A → Type κ} where
  pub if-Safe :
      (b : Bool) {x y : Outcome A}
      → (b ≡ true → Safe P x)
      → (b ≡ false → Safe P y)
      → Safe P (if b then x else y)
  if-Safe true h k = h refl
  if-Safe false h k = k refl

  pub option-Safe {μ} :
      {B : Type μ} (o : Option B) {x : Outcome A} {f : B → Outcome A}
      → (o ≡ none → Safe P x)
      → ((b : B) → o ≡ some b → Safe P (f b))
      → Safe P (elim o [ none ↦ x | some b ↦ f b ])
  option-Safe none h k = h refl
  option-Safe (some b) h k = k b refl

  pub >>=-Safe {μ ν} :
      {B : Type μ} {Q : B → Type ν} {m : Outcome B} {f : B → Outcome A}
      → Safe Q m
      → ((b : B) → m ≡ ok b → Q b → Safe P (f b))
      → Safe P (m >>= f)
  >>=-Safe (returns q) k = k _ refl q
  >>=-Safe (stops n) k = stops n

  pub Safe-value : {a : A} → Safe P (ok a) → P a
  Safe-value (returns p) = p

  pub log_fatal-Safe : Safe P (fault log_fatal)
  log_fatal-Safe = stops (λ e. cc)

  pub out_of_range-Safe : Safe P (fault out_of_range)
  out_of_range-Safe = stops (λ e. cc)

  pub nil_dereference-Safe : Safe P (fault nil_dereference)
  nil_dereference-Safe = stops (λ e. cc)

  pub Safe-map {μ} : {Q : A → Type μ} {m : Outcome A} → ((a : A) → P a → Q a) → Safe P m → Safe Q m
  Safe-map f (returns p) = returns (f _ p)
  Safe-map f (stops n) = stops n
