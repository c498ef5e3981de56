-- ===== src/Repeater/Rounds.antt =====
-- How often a sender sends: `rs` are the states in which the rounds of one sender find the repeater.
use part_ii_project.Base.{
  length, replicate, ℕ, ◌+◌, ◌≤◌, ◌<◌, max, ◌≡◌, refl, true, false, none, some, List, [], ◌∷◌, ◌++◌,
  arith,
}
use part_ii_project.Packet.{Message}
use part_ii_project.Repeater.{Repeater, Sender, is_unacked, attempt}

-- What a sender sends in its successive rounds, until it returns.
pub sends : List Repeater → Sender → List Message
sends [] s = []
sends (r ∷ rs) s = (attempt r s).1 ++ elim (attempt r s).0 [ none ↦ [] | some s' ↦ sends rs s' ]

-- Every state has the number of retries that `New` was given.
abbrev pub Retries : ℕ → List Repeater → Type 0
Retries n [] = Unit {0}
Retries n (r ∷ rs) = (r.num_retries ≡ n) × Retries n rs

-- The repeater runs, and the request of the sender has no answer yet.
abbrev pub IsWaiting : Sender → Repeater → Type 0
IsWaiting s r =
    (r.disabled ≡ false) × (is_unacked r.unacked_reqs s.msg.dest s.msg.id s.awaits ≡ true)

abbrev pub AllWaiting : Sender → List Repeater → Type 0
AllWaiting s [] = Unit {0}
AllWaiting s (r ∷ rs) = IsWaiting s r × AllWaiting s rs

-- A limited sender sends at most `n` times, however failures and answers fall between its rounds.
pub length-sends-le :
    (n : ℕ) (rs : List Repeater) (s : Sender)
    → Retries n rs
    → s.unlimited ≡ false
    → length (sends rs s) + s.i ≤ max n s.i
unfolding sends attempt
length-sends-le n [] s all limited = omega arith
length-sends-le n (r ∷ rs) s all limited =
    ground (arith, length-sends-le n rs (record s { i = s.i + 1 }) all.1 limited)

-- An unlimited sender sends in every round in which the repeater runs and the answer is missing, and
-- is there for the next one.
pub unlimited_sends :
    (n : ℕ) (rs : List Repeater) (s : Sender)
    → Retries n rs
    → s.i < n
    → s.unlimited ≡ true
    → AllWaiting s rs
    → sends rs s ≡ replicate (length rs) s.msg
unfolding sends attempt
unlimited_sends n [] s all lt unlimited w = refl
unlimited_sends n (r ∷ rs) s all lt unlimited w =
    ground (arith, unlimited_sends n rs s all.1 lt unlimited w.1)
