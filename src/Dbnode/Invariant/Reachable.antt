-- ===== src/Dbnode/Invariant/Reachable.antt =====
-- dbnode/dbnode.go: the states that a node comes to, from `New` on.
use part_ii_project.Base.{Safe-value, Safe, ok, ℕ, ◌≤◌, ◌<◌, ◌≡◌, subst, Bool, true, List}
use part_ii_project.Packet.{Message}
use part_ii_project.Datastore.{Store}
use part_ii_project.Elector.{Elector}
use part_ii_project.Dbnode.Loop.{on_incoming, on_timed_out}
use part_ii_project.Dbnode.Startup.{new_node}
use part_ii_project.Dbnode.State.{Dbnode}
use part_ii_project.Dbnode.Invariant.{IsWf}
use part_ii_project.Dbnode.Invariant.Rounds.{on_incoming-Safe, on_timed_out-Safe, is_answer}
use part_ii_project.Dbnode.Invariant.Initial.{new_node-IsWf}
use part_ii_project.Dbnode.Invariant.Steps.{Bounded}

module _ {S E : Type 0} (st : Store S) (el : Elector E) where
  -- A round of a node that does not stop: one for a message, in which an answer to a coordinator comes
  -- from a node of the system, with the permutations that are drawn in it, or one for the end of a
  -- request's time.
  pub data Round (n : Dbnode S E) (b : Dbnode S E) : Type 0 where
    incoming :
        (perm next_perm : ℕ → List ℕ) (m : Message)
        → Bounded perm
        → Bounded next_perm
        → (is_answer m.demux_key ≡ true → m.src ≤ n.num_peers)
        → on_incoming st el perm next_perm m n ≡ ok b
        → Round n b
    timed_out : (p : ℕ) → on_timed_out st p n ≡ ok b → Round n b

  pub data Reach (n : Dbnode S E) : Dbnode S E → Type 0 where
    here : Reach n n
    next : {b c : Dbnode S E} → Reach n b → Round b c → Reach n c

  Round-IsWf : {n b : Dbnode S E} → Round n b → IsWf n → IsWf b
  Round-IsWf (incoming perm next_perm m a a' from e) w =
      Safe-value (subst (Safe IsWf) e (on_incoming-Safe st el perm next_perm m _ a a' from w))
  Round-IsWf (timed_out p e) w = Safe-value (subst (Safe IsWf) e (on_timed_out-Safe st p _ w))

  Reach-IsWf : {n b : Dbnode S E} → IsWf n → Reach n b → IsWf b
  Reach-IsWf w here = w
  Reach-IsWf w (next r s) = Round-IsWf s (Reach-IsWf w r)

  -- Whatever rounds a new node of a system has made, each with permutations of its own, its state has the invariant, and neither the next
  -- message, if an answer to a coordinator comes from a node of the system, nor the end of a request's
  -- time makes it write to a nil map.
  pub reachable-Safe :
      (size id : ℕ) (store : S) (elector : E) (rqs wqs : ℕ) (sloppy : Bool) (b : Dbnode S E)
      (perm next_perm : ℕ → List ℕ) (m : Message) (p : ℕ)
      → Bounded perm
      → Bounded next_perm
      → id < size
      → Reach (new_node size id store elector rqs wqs sloppy) b
      → (is_answer m.demux_key ≡ true → m.src ≤ b.num_peers)
      → IsWf b × Safe IsWf (on_incoming st el perm next_perm m b) × Safe IsWf (on_timed_out st p b)
  reachable-Safe size id store elector rqs wqs sloppy b perm next_perm m p a a' h r from =
      let w = Reach-IsWf (new_node-IsWf size id store elector rqs wqs sloppy h) r in
      (w, on_incoming-Safe st el perm next_perm m b a a' from w, on_timed_out-Safe st p b w)
