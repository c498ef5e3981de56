-- ===== src/Workload.antt =====
-- net/manager.go: the random requests of a simulation. The bytes that `rand.Read` gives in turn are an
-- argument, as is the outcome of the comparison with `proportionWrites`; `none` says that the bytes do
-- not suffice. The pauses between requests are left out: requests of goroutines come in any order.
pub mod Draws
pub mod Keys
pub mod Termination
use part_ii_project.Base.{
  Bytes, ℕ, zero, suc, ◌+◌, Bool, true, false, Option, none, some, List, [], ◌∷◌, ◌++◌,
}

-- Code that takes random bytes from those that are left.
abbrev pub Draw : Type 0 → Type 0
Draw A = Bytes → Option (A × Bytes)

unfoldable pub pure : {A : Type 0} → A → Draw A
pure a ds = some (a, ds)

infixl 5 ◌>>=◌
unfoldable pub ◌>>=◌ : {A B : Type 0} → Draw A → (A → Draw B) → Draw B
(m >>= f) ds = elim (m ds) [ none ↦ none | some (a, rest) ↦ f a rest ]

unfoldable pub draw : Draw ℕ
draw [] = none
draw (d ∷ ds) = some (d, ds)

-- rand.Read of a slice of the length.
unfoldable pub read_random : ℕ → Draw Bytes
unfolding pure ◌>>=◌ draw
read_random zero = pure []
read_random (suc n) = do d ← draw; bs ← read_random n; pure (d ∷ bs)

-- The inner loop of `removeZeroBytes`.
unfoldable pub redraw : ℕ → Draw ℕ
redraw zero [] = none
redraw zero (d ∷ ds) = redraw d ds
redraw (suc b) ds = some (suc b, ds)

unfoldable pub remove_zero_bytes : Bytes → Draw Bytes
unfolding pure ◌>>=◌ redraw
remove_zero_bytes [] = pure []
remove_zero_bytes (b ∷ bs) = do c ← redraw b; cs ← remove_zero_bytes bs; pure (c ∷ cs)

-- `writeRequest` and `readRequest`, without their logs.
pub data Request : Type 0 where
  write_request : Bytes → Bytes → Request
  read_request : Bytes → Request

-- A round of the loop of `sendTests`.
unfoldable pub next_request : Bool → Draw Request
unfolding pure ◌>>=◌ read_random remove_zero_bytes
next_request writes = do
  random ← read_random 1
  key ← remove_zero_bytes random
  elim writes [
    | false ↦ pure (read_request key)
    | true ↦ do val ← read_random 8; pure (write_request key val)
  ]

-- `sendTests`, with one choice for each transaction.
unfoldable pub send_tests : List Bool → Draw (List Request)
unfolding pure ◌>>=◌ next_request
send_tests [] = pure []
send_tests (writes ∷ choices) = do r ← next_request writes; rs ← send_tests choices; pure (r ∷ rs)

-- The key of all convergence tests.
abbrev pub convergence_key : Bytes
convergence_key = 0 ∷ []

unfoldable pub inner_reads : ℕ → List Request
inner_reads zero = []
inner_reads (suc n) = read_request convergence_key ∷ inner_reads n

-- A round of the loop of `sendConvergenceTests`: the reads of its inner loop and the one behind it are
-- alike.
unfoldable pub convergence_round : Bytes → Bytes → List Request
unfolding inner_reads
convergence_round old_val new_val =
    write_request convergence_key old_val
    ∷ read_request convergence_key
    ∷ write_request convergence_key new_val
    ∷ inner_reads (249 + 1)

unfoldable pub send_convergence_tests : ℕ → Draw (List Request)
unfolding pure ◌>>=◌ convergence_round read_random
send_convergence_tests zero = pure []
send_convergence_tests (suc n) = do
  old_val ← read_random 8
  new_val ← read_random 8
  rs ← send_convergence_tests n
  pure (convergence_round old_val new_val ++ rs)
