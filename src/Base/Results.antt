-- ===== src/Base/Results.antt =====
-- The outcome of code that may call log.Fatal or panic, and the chain of such steps.
use mathlib.Core.Path.{◌≡◌, refl}
use mathlib.Core.Logic.{◌⊎◌, inl, inr}
use mathlib.Core.Bool.{Bool, true, false}
use mathlib.Core.Option.{Option, none, some}
use part_ii_project.Base.Tests.{if◌then◌else◌}

-- `log_fatal` ends the process with a message; `nil_map_write` is a write to a nil map,
-- `nil_dereference` a use of a nil pointer, `out_of_range` a slice bound outside the slice.
-- `out_of_fuel` is no fault of the code: it marks a loop of the model that was cut short.
pub data Fault : Type 0 where
  log_fatal nil_map_write nil_dereference out_of_range out_of_fuel : Fault

pub data Outcome {ℓ} (A : Type ℓ) : Type ℓ where
  ok : A → Outcome A
  fault : Fault → Outcome A

infixl 5 ◌>>=◌
abbrev pub ◌>>=◌ {ℓ κ} : {A : Type ℓ} {B : Type κ} → Outcome A → (A → Outcome B) → Outcome B
ok a >>= f = f a
fault e >>= f = fault e

pub Outcome-cases {ℓ} :
    {A : Type ℓ} (run : Outcome A)
    → ((value : A) × (run ≡ ok value)) ⊎ ((why : Fault) × (run ≡ fault why))
Outcome-cases (ok value) = inl (value, refl)
Outcome-cases (fault why) = inr (why, refl)

-- A property of the value, if there is one.
pub data Returns {ℓ κ} {A : Type ℓ} (P : A → Type κ) : Outcome A → Type (ℓ ⊔ κ) where
  returned : {a : A} → P a → Returns P (ok a)
  faulted : {e : Fault} → Returns P (fault e)

module _ {ℓ κ} {A : Type ℓ} {P : A → Type κ} where
  pub Returns-value : {a : A} → Returns P (ok a) → P a
  Returns-value (returned p) = p

  pub >>=-Returns {μ} :
      {B : Type μ} {m : Outcome B} {f : B → Outcome A}
      → ((b : B) → m ≡ ok b → Returns P (f b))
      → Returns P (m >>= f)
  >>=-Returns {m = ok b} h = h b refl
  >>=-Returns {m = fault e} h = faulted

  pub if-Returns :
      (b : Bool) {x y : Outcome A}
      → (b ≡ true → Returns P x)
      → (b ≡ false → Returns P y)
      → Returns P (if b then x else y)
  if-Returns true h k = h refl
  if-Returns false h k = k refl

  pub option-Returns {μ} :
      {B : Type μ} (o : Option B) {x : Outcome A} {f : B → Outcome A}
      → (o ≡ none → Returns P x)
      → ((b : B) → o ≡ some b → Returns P (f b))
      → Returns P (elim o [ none ↦ x | some b ↦ f b ])
  option-Returns none h k = h refl
  option-Returns (some b) h k = k b refl

  -- The same, with a property of the first value.
  pub >>=-Returns_with {μ ν} :
      {B : Type μ} {Q : B → Type ν} {m : Outcome B} {f : B → Outcome A}
      → Returns Q m
      → ((b : B) → Q b → Returns P (f b))
      → Returns P (m >>= f)
  >>=-Returns_with (returned q) h = h _ q
  >>=-Returns_with faulted h = faulted

-- Two continuations that agree on the value, if there is one.
pub >>=-cong {ℓ κ} :
    {A : Type ℓ} {B : Type κ} (m : Outcome A) {f g : A → Outcome B}
    → ((a : A) → m ≡ ok a → f a ≡ g a)
    → (m >>= f) ≡ (m >>= g)
>>=-cong (ok a) h = h a refl
>>=-cong (fault e) h = refl
