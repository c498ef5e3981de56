-- ===== src/Workload/Keys.antt =====
-- net/manager.go: the keys of the random requests.
use part_ii_project.Base.{
  length, All, Bytes, ℕ, zero, suc, ◌+◌, ◌≡◌, refl, ap, subst, ◌∙◌, ◌≢◌, Bool, true, false, some,
  List, [], ◌∷◌, ◌++◌, arith,
}
use part_ii_project.Workload.{
  Request, write_request, read_request, redraw, remove_zero_bytes, next_request, send_tests,
  convergence_key, convergence_round, send_convergence_tests, inner_reads, read_random, draw,
}
use part_ii_project.Workload.Draws.{Yields, pure-Yields, >>=-Yields}

redraw_nonzero : (b : ℕ) (ds : Bytes) (c : ℕ) (rest : Bytes) → redraw b ds ≡ some (c, rest) → c ≢ 0
unfolding redraw
redraw_nonzero zero [] c rest e = absurd (cc)
redraw_nonzero zero (d ∷ ds) c rest e = redraw_nonzero d ds c rest e
redraw_nonzero (suc b) ds c rest e = ground (arith, e)

redraw-Yields : (b : ℕ) → Yields (λ c. c ≢ 0) (redraw b)
redraw-Yields b = record { holds = redraw_nonzero b }

-- A key of the length without a zero byte.
abbrev Nonzero : ℕ → Bytes → Type 0
Nonzero n key = (length key ≡ n) × All (λ c. c ≢ 0) key

-- The bytes that replace zeros are no zeros, and there are as many bytes as before.
remove_zero_bytes-Nonzero : (bs : Bytes) → Yields (Nonzero (length bs)) (remove_zero_bytes bs)
unfolding remove_zero_bytes
remove_zero_bytes-Nonzero [] = pure-Yields [] (refl, tt)
remove_zero_bytes-Nonzero (b ∷ bs) = >>=-Yields (redraw-Yields b) (λ c hc.
    >>=-Yields (remove_zero_bytes-Nonzero bs)
      (λ cs h. pure-Yields {P = Nonzero (suc (length bs))} (c ∷ cs) (ap suc h.0, (hc, h.1))))

draw-Yields : Yields (λ d. Unit) draw
draw-Yields = record { holds = λ ds d rest e. tt }

read_random-length : (n : ℕ) → Yields (λ bs. length bs ≡ n) (read_random n)
unfolding read_random
read_random-length zero = pure-Yields [] refl
read_random-length (suc n) =
    >>=-Yields draw-Yields
      (λ d u. >>=-Yields (read_random-length n) (λ bs h. pure-Yields (d ∷ bs) (ap suc h)))

-- The key of a request.
pub key_of : Request → Bytes
key_of (write_request key val) = key
key_of (read_request key) = key

-- The key is one byte, which is not zero.
abbrev pub IsTest : Request → Type 0
IsTest r = Nonzero 1 (key_of r)

next_request-IsTest : (writes : Bool) → Yields IsTest (next_request writes)
unfolding next_request key_of
next_request-IsTest false = >>=-Yields (read_random-length 1) (λ random n.
    >>=-Yields (remove_zero_bytes-Nonzero random)
      (λ key h. pure-Yields {P = IsTest} (read_request key) (h.0 ∙ n, h.1)))
next_request-IsTest true = >>=-Yields (read_random-length 1) (λ random n.
    >>=-Yields (remove_zero_bytes-Nonzero random) (λ key h.
      >>=-Yields (read_random-length 8)
        (λ val l. pure-Yields {P = IsTest} (write_request key val) (h.0 ∙ n, h.1))))

send_tests-IsTest : (choices : List Bool) → Yields (All IsTest) (send_tests choices)
unfolding send_tests
send_tests-IsTest [] = pure-Yields {P = All IsTest} [] tt
send_tests-IsTest (writes ∷ choices) = >>=-Yields (next_request-IsTest writes) (λ r h.
    >>=-Yields (send_tests-IsTest choices) (λ rs hs. pure-Yields {P = All IsTest} (r ∷ rs) (h, hs)))

-- All requests of convergence tests are for one key.
abbrev pub IsConvergence : Request → Type 0
IsConvergence r = key_of r ≡ convergence_key

inner_reads-IsConvergence :
    (n : ℕ) (rs : List Request) → All IsConvergence rs → All IsConvergence (inner_reads n ++ rs)
unfolding inner_reads key_of
inner_reads-IsConvergence zero rs h = h
inner_reads-IsConvergence (suc n) rs h = (refl, inner_reads-IsConvergence n rs h)

send_convergence_tests-IsConvergence :
    (n : ℕ) → Yields (All IsConvergence) (send_convergence_tests n)
unfolding send_convergence_tests convergence_round key_of
send_convergence_tests-IsConvergence zero = pure-Yields {P = All IsConvergence} [] tt
send_convergence_tests-IsConvergence (suc n) = >>=-Yields (read_random-length 8) (λ old_val lo.
    >>=-Yields (read_random-length 8) (λ new_val ln.
      >>=-Yields (send_convergence_tests-IsConvergence n) (λ rs h.
        pure-Yields {P = All IsConvergence} (convergence_round old_val new_val ++ rs)
          (refl, (refl, (refl, inner_reads-IsConvergence (249 + 1) rs h))))))

IsTest-ne-IsConvergence : (r c : Request) → IsTest r → IsConvergence c → key_of r ≢ key_of c
IsTest-ne-IsConvergence r c t h e = (subst (All (λ b. b ≢ 0)) (e ∙ h) t.1).0 refl

All-apart :
    (r : Request) (cs : List Request)
    → IsTest r
    → All IsConvergence cs
    → All (λ c. key_of r ≢ key_of c) cs
All-apart r [] t h = tt
All-apart r (c ∷ cs) t h = (IsTest-ne-IsConvergence r c t h.0, All-apart r cs t h.1)

apart :
    (rs cs : List Request)
    → All IsTest rs
    → All IsConvergence cs
    → All (λ r. All (λ c. key_of r ≢ key_of c) cs) rs
apart [] cs t h = tt
apart (r ∷ rs) cs t h = (All-apart r cs t.0 h, apart rs cs t.1 h)

-- Whatever the random bytes, no request of `sendTests` is for a key of the convergence tests, which run
-- at the same time.
pub tests_apart :
    (choices : List Bool) (n : ℕ) (ds es ds1 es1 : Bytes) (rs cs : List Request)
    → send_tests choices ds ≡ some (rs, ds1)
    → send_convergence_tests n es ≡ some (cs, es1)
    → All (λ r. All (λ c. key_of r ≢ key_of c) cs) rs
tests_apart choices n ds es ds1 es1 rs cs e f =
    apart rs cs ((send_tests-IsTest choices).holds ds rs ds1 e)
      ((send_convergence_tests-IsConvergence n).holds es cs es1 f)
