-- ===== src/Dbnode/RequestQueue/Order.antt =====
-- The queue is first in, first out, holds a pointer at most once, and `remove` takes out one pointer.
use part_ii_project.Base.{
  ◌==◌, Bool-cases, length, ◌>>=◌, Outcome, ok, ℕ, zero, suc, ◌≡◌, refl, inl, inr, false, ◌&&◌,
  ◌||◌, not, List, [], ◌∷◌, ◌++◌, arith,
}
use part_ii_project.Dbnode.RequestQueue.{Queue, contains, enqueue, dequeue, remove}

-- No pointer stands twice.
abbrev pub IsDistinct : Queue → Type 0
IsDistinct [] = Unit {0}
IsDistinct (m ∷ q) = (contains q m ≡ false) × IsDistinct q

pub contains-append : (q r : Queue) (m : ℕ) → contains (q ++ r) m ≡ (contains q m || contains r m)
unfolding contains
contains-append [] r m = refl
contains-append (x ∷ q) r m = ground (arith, contains-append q r m)

IsDistinct-snoc :
    (q : Queue) (m : ℕ) → contains q m ≡ false → IsDistinct q → IsDistinct (q ++ m ∷ [])
unfolding contains
IsDistinct-snoc [] m h d = (refl, tt)
IsDistinct-snoc (x ∷ q) m h d =
    (ground (arith, contains-append q (m ∷ []) x), IsDistinct-snoc q m (ground arith) d.1)

-- Adding a pointer keeps the queue free of duplicates, makes the pointer a member and no other.
pub enqueue_lem :
    (q : Queue) (m : ℕ)
    → IsDistinct q
    → IsDistinct (enqueue q m) × ((j : ℕ) → contains (enqueue q m) j ≡ (contains q j || m == j))
unfolding enqueue contains
enqueue_lem q m d = elim (Bool-cases (contains q m)) [
  | inl old ↦ (rw old d, λ j. ground arith)
  | inr new ↦
      (rw new (IsDistinct-snoc q m new d), λ j. ground (arith, contains-append q (m ∷ []) j))
]

remove_absent : (q : Queue) (m j : ℕ) → contains q m ≡ false → contains (remove q j).0 m ≡ false
unfolding contains remove
remove_absent [] m j h = refl
remove_absent (x ∷ q) m j h = ground (arith, remove_absent q m j)

-- Removing a pointer says whether it was there, leaves the others, and leaves it out.
pub remove_lem :
    (q : Queue) (m : ℕ)
    → IsDistinct q
    → ((remove q m).1 ≡ contains q m)
      × IsDistinct (remove q m).0
      × ((j : ℕ) → contains (remove q m).0 j ≡ (contains q j && not (m == j)))
unfolding contains remove
remove_lem [] m d = (refl, tt, λ j. refl)
remove_lem (x ∷ q) m d =
    let (r, e, c) = remove_lem q m d.1 in
    (ground arith, ground (arith, remove_absent q x m), λ j. ground (arith, c j))

-- Adding a pointer to a queue without duplicates keeps it free of them, and makes the pointer a member
-- and no other; removing one says whether it was there, leaves the others and no duplicate, and leaves
-- it out.
pub queue_membership :
    (q : Queue) (m j : ℕ)
    → IsDistinct q
    → IsDistinct (enqueue q m)
      × (contains (enqueue q m) j ≡ (contains q j || m == j))
      × ((remove q m).1 ≡ contains q m)
      × IsDistinct (remove q m).0
      × (contains (remove q m).0 j ≡ (contains q j && not (m == j)))
queue_membership q m j d =
    let (a, b) = enqueue_lem q m d in let (r, e, c) = remove_lem q m d in (a, b j, r, e, c j)

-- `k` dequeues give the `k` oldest pointers, oldest first.
pub dequeues : ℕ → Queue → Outcome (List ℕ × Queue)
dequeues zero q = ok ([], q)
dequeues (suc k) q = do (m, rest) ← dequeue q; (ms, end) ← dequeues k rest; ok (m ∷ ms, end)

-- As many dequeues as there are pointers in front give those, in the order in which they were added.
pub dequeues-append : (q r : Queue) → dequeues (length q) (q ++ r) ≡ ok (q, r)
unfolding dequeues dequeue
dequeues-append [] r = refl
dequeues-append (m ∷ q) r = rw (dequeues-append q r)
