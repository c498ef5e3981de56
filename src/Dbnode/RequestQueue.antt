-- ===== src/Dbnode/RequestQueue.antt =====
-- dbnode/requestQueue.go: the queue of lock requests. It holds pointers to messages, and compares
-- pointers; a pointer is a number, and what it points to stands in the node's memory.
pub mod Order
use part_ii_project.Base.{
  ◌==◌, if◌then◌else◌, Outcome, out_of_range, ok, fault, ℕ, Bool, true, false, ◌||◌, not, List, [],
  ◌∷◌, ◌++◌,
}

abbrev pub Queue : Type 0
Queue = List ℕ

unfoldable pub contains : Queue → ℕ → Bool
contains [] msg = false
contains (m ∷ q) msg = m == msg || contains q msg

unfoldable pub enqueue : Queue → ℕ → Queue
enqueue q msg = if not (contains q msg) then q ++ msg ∷ [] else q

-- The oldest request and the rest. An empty queue has no first element to read.
unfoldable pub dequeue : Queue → Outcome (ℕ × Queue)
dequeue [] = fault out_of_range
dequeue (m ∷ q) = ok (m, q)

-- The queue without the first occurrence, and whether there was one.
unfoldable pub remove : Queue → ℕ → Queue × Bool
remove [] msg = ([], false)
remove (m ∷ q) msg = let rest = remove q msg in if m == msg then (q, true) else (m ∷ rest.0, rest.1)

unfoldable pub is_empty : Queue → Bool
is_empty [] = true
is_empty (m ∷ q) = false
