-- ===== src/Workload/Termination.antt =====
-- net/manager.go: the loops of `removeZeroBytes` end once enough random bytes are not zero.
use part_ii_project.Base.{Bytes, ℕ, zero, suc, ◌+◌, ◌≤◌, ◌≡◌, refl, some, [], ◌∷◌, arith}
use part_ii_project.Workload.{redraw, remove_zero_bytes, pure, ◌>>=◌}

-- The number of bytes that are not zero, and of those that are.
pub nonzeros : Bytes → ℕ
nonzeros [] = 0
nonzeros (zero ∷ bs) = nonzeros bs
nonzeros (suc b ∷ bs) = suc (nonzeros bs)

pub zeros : Bytes → ℕ
zeros [] = 0
zeros (zero ∷ bs) = suc (zeros bs)
zeros (suc b ∷ bs) = zeros bs

redraw-ends :
    (ds : Bytes)
    → 1 ≤ nonzeros ds
    → (c : ℕ) × (rest : Bytes) × (redraw 0 ds ≡ some (c, rest)) × (nonzeros ds ≡ 1 + nonzeros rest)
unfolding redraw nonzeros
redraw-ends [] h = absurd (omega arith)
redraw-ends (zero ∷ ds) h = redraw-ends ds h
redraw-ends (suc d ∷ ds) h = (suc d, ds, refl, omega arith)

remove_zero_bytes-cons :
    (b c : ℕ) (bs cs ds ds1 rest : Bytes)
    → redraw b ds ≡ some (c, ds1)
    → remove_zero_bytes bs ds1 ≡ some (cs, rest)
    → remove_zero_bytes (b ∷ bs) ds ≡ some (c ∷ cs, rest)
unfolding remove_zero_bytes pure ◌>>=◌
remove_zero_bytes-cons b c bs cs ds ds1 rest e f = rw (e, ◌>>=◌) (rw (f, ◌>>=◌) refl)

-- Bytes of which as many are not zero as there are zeros to replace suffice.
pub remove_zero_bytes-ends :
    (bs ds : Bytes)
    → zeros bs ≤ nonzeros ds
    → (cs : Bytes) × (rest : Bytes) × (remove_zero_bytes bs ds ≡ some (cs, rest))
      × (nonzeros ds ≡ zeros bs + nonzeros rest)
unfolding remove_zero_bytes redraw zeros pure ◌>>=◌
remove_zero_bytes-ends [] ds h = ([], ds, refl, omega arith)
remove_zero_bytes-ends (zero ∷ bs) ds h =
    let (c, ds1, e, n) = redraw-ends ds (omega arith) in
    let (cs, rest, f, k) = remove_zero_bytes-ends bs ds1 (omega arith) in
    (c ∷ cs, rest, remove_zero_bytes-cons 0 c bs cs ds ds1 rest e f, omega arith)
remove_zero_bytes-ends (suc b ∷ bs) ds h =
    let (cs, rest, f, k) = remove_zero_bytes-ends bs ds h in
    (suc b ∷ cs, rest, remove_zero_bytes-cons (suc b) (suc b) bs cs ds ds rest refl f, k)
