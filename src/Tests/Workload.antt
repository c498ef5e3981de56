-- ===== src/Tests/Workload.antt =====
-- The requests of a simulation from concrete bytes.
use part_ii_project.Base.{All, Bytes, refl, ◌≢◌, true, false, List, [], ◌∷◌}
use part_ii_project.Workload.{
  Request, write_request, read_request, read_random, redraw, draw, remove_zero_bytes, next_request,
  send_tests, send_convergence_tests, convergence_round, pure, ◌>>=◌,
}
use part_ii_project.Workload.Keys.{key_of, tests_apart}

-- The first byte of the second key is replaced.
abbrev tests : List Request
tests = write_request (7 ∷ []) (1 ∷ 2 ∷ 3 ∷ 4 ∷ 5 ∷ 6 ∷ 7 ∷ 8 ∷ []) ∷ read_request (9 ∷ []) ∷ []

abbrev bytes : Bytes
bytes = 7 ∷ 1 ∷ 2 ∷ 3 ∷ 4 ∷ 5 ∷ 6 ∷ 7 ∷ 8 ∷ 0 ∷ 0 ∷ 9 ∷ []

abbrev old_bytes : Bytes
old_bytes = 1 ∷ 2 ∷ 3 ∷ 4 ∷ 5 ∷ 6 ∷ 7 ∷ 8 ∷ []

abbrev new_bytes : Bytes
new_bytes = 0 ∷ 2 ∷ 3 ∷ 4 ∷ 5 ∷ 6 ∷ 7 ∷ 8 ∷ []

abbrev both_values : Bytes
both_values = 1 ∷ 2 ∷ 3 ∷ 4 ∷ 5 ∷ 6 ∷ 7 ∷ 8 ∷ 0 ∷ 2 ∷ 3 ∷ 4 ∷ 5 ∷ 6 ∷ 7 ∷ 8 ∷ []

tests_apart_example :
    All (λ r. All (λ c. key_of r ≢ key_of c) (convergence_round old_bytes new_bytes)) tests
unfolding send_tests next_request read_random remove_zero_bytes redraw draw pure ◌>>=◌
    send_convergence_tests convergence_round
tests_apart_example =
    tests_apart (true ∷ false ∷ []) 1 bytes both_values [] [] tests
      (convergence_round old_bytes new_bytes) refl refl
