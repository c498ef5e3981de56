-- ===== src/Tests/Locks.antt =====
-- The lock of programs in concrete runs: one gets it, or its daemon does not see that it did.
use mathlib.Core.Path.{fun_ext}
use part_ii_project.Base.{
  increment, itoa, atoi_value, ℕ, ◌≡◌, refl, sym, ◌≢◌, true, false, [], ◌∷◌, arith,
}
use part_ii_project.Client.{PutResponse, success, unknown}
use part_ii_project.Locker.{new_locker, lock, check, answer, node_of, acquire}
use part_ii_project.Locker.System.{
  System, start, set_party, phase_after, return_from, Register, Call, Phase, Party, Move, Reach,
  outside, locking, holding, watching, wrote, call_lock, reads, checks, writes, answers, moves,
  here, next,
}
use part_ii_project.Locker.Exclusion.{mutual_exclusion, Owns}
use part_ii_project.Locker.Deadlock.{lock_lost}

-- The system with another register and another party 0.
abbrev with_first : Register → Party → System
with_first r p = record { register = r; party = set_party 0 p (System.party start) }

abbrev empty : Register
empty = record { value = []; timestamp = 0 }

abbrev locked : Register
locked = record { value = 48 ∷ []; timestamp = 1 }

abbrev in_lock : Phase → Party
in_lock p = record { locker = lock (new_locker 0); call = locking; phase = p }

abbrev holder : Party
holder = record {
  locker = record (lock (new_locker 0)) { have_lock = true; lock_waits = false };
  call = holding;
  phase = watching;
}

asks : Reach start (with_first empty (in_lock watching))
unfolding set_party
asks = next here (moves 0 (omega arith) (call_lock refl refl refl) refl)

overwritten :
    (r : Register) (p q : Party) → set_party 0 q (with_first r p).party ≡ set_party 0 q start.party
unfolding set_party
overwritten r p q = fun_ext (λ j. ground arith)

-- One more move of the first party.
and_then :
    {r r' : Register} {p p' : Party}
    → Reach start (with_first r p)
    → Move r p r' p'
    → Reach start (with_first r' p')
unfolding set_party
and_then {r} {r'} {p} {p'} h m = next h (moves 0 (omega arith) m (sym (overwritten r p p')))

writes_lock : (res : PutResponse) → Reach start (with_first locked (in_lock (wrote acquire res)))
unfolding check phase_after increment lock new_locker itoa
writes_lock res =
    and_then (and_then (and_then asks (reads refl refl refl)) (checks [] 0 refl refl refl))
      (writes acquire (48 ∷ []) 1 res refl refl refl refl)

gets_lock : Reach start (with_first locked holder)
unfolding answer return_from lock
gets_lock = and_then (writes_lock success) (answers acquire success refl refl refl)

mutual_exclusion_example : ◌≡◌ {A = ℕ} 0 0
unfolding set_party
mutual_exclusion_example = mutual_exclusion (with_first locked holder) 0 0 gets_lock refl refl

owns_unseen : Owns 0 locked
unfolding node_of atoi_value
owns_unseen = record { odd = refl; named = refl }

lock_lost_example : (◌≡◌ {A = Call} locking locking) × (◌≢◌ {A = Call} outside holding)
unfolding set_party
lock_lost_example =
    lock_lost (with_first locked (in_lock (wrote acquire unknown)))
      (with_first locked (in_lock (wrote acquire unknown))) 0 1 unknown (writes_lock unknown) refl
      refl (λ e. cc) owns_unseen here
