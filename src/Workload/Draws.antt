-- ===== src/Workload/Draws.antt =====
-- net/manager.go: what holds of a value that is made of random bytes.
use part_ii_project.Base.{Bytes, ◌≡◌, refl, subst, Option, none, some}
use part_ii_project.Workload.{Draw, pure, ◌>>=◌}

-- The value has the property, if the random bytes suffice.
pub record Yields {A : Type 0} (P : A → Type 0) (m : Draw A) : Type 0 where
  pub holds : (ds : Bytes) (a : A) (rest : Bytes) → m ds ≡ some (a, rest) → P a

module _ {A : Type 0} {P : A → Type 0} where
  pub pure-Yields : (a : A) → P a → Yields P (pure a)
  unfolding pure
  pure-Yields a p = record { holds = λ ds b rest e. subst P (cc) p }

  then_value :
      {B : Type 0} {Q : B → Type 0} (r : Option (B × Bytes)) (f : B → Draw A)
      → ((b : B) (rest : Bytes) → r ≡ some (b, rest) → Q b)
      → ((b : B) → Q b → Yields P (f b))
      → (a : A) (end : Bytes) → (elim r [ none ↦ none | some (b, rest) ↦ f b rest ]) ≡ some (a, end)
      → P a
  then_value none f h k a end e = absurd (cc)
  then_value (some (b, rest)) f h k a end e = (k b (h b rest refl)).holds rest a end e

  pub >>=-Yields :
      {B : Type 0} {Q : B → Type 0} {m : Draw B} {f : B → Draw A}
      → Yields Q m
      → ((b : B) → Q b → Yields P (f b))
      → Yields P (m >>= f)
  unfolding ◌>>=◌
  >>=-Yields {Q = Q} {m = m} {f = f} h k = record {
    holds = λ ds a rest. then_value {Q = Q} (m ds) f (h.holds ds) k a rest;
  }
