-- ===== src/Dbnode/Invariant/Rounds/Handling.antt =====
-- The handlers, and the rounds of the main loop, keep the invariant.
use part_ii_project.Base.{
  ◌==◌, Bool-cases, and_iff, lookup, insert, erase, decrement, if-Safe, >>=-Safe, Safe-map, Safe,
  returns, ℕ, ◌≤◌, ◌≡◌, inl, inr, true, false, not, List, arith, nat_key,
}
use part_ii_project.Base.{nat_key}
use part_ii_project.Datastore.{Store}
use part_ii_project.Packet.{type_key, Message, same_type, node_unlock_request}
use part_ii_project.Repeater.{Repeater, ack, unmark, is_unacked, or_nil}
use part_ii_project.Dbnode.State.{Dbnode, acknowledge, member, Mode}
use part_ii_project.Dbnode.Handlers.{
  count_answer, handle_lock_res, handle_get_res, handle_put_res, handle_unlock_ack, counts_locks,
  counts_gets, counts_puts, reply, awaits,
}
use part_ii_project.Dbnode.Invariant.{HasRows, IsWf, has_members, IsReady-of-IsWf, HasRows-insert}
use part_ii_project.Dbnode.Invariant.Steps.{
  request-Safe, abort_processing-Safe, set_member-Safe, Bounded,
}
use part_ii_project.Dbnode.Invariant.Rounds.Reading.{continue_processing-Safe}

HasRows-ack :
    (num : ℕ) (r : Repeater) (m : Message)
    → HasRows num r.unacked_reqs
    → HasRows num (ack r m).unacked_reqs
unfolding ack unmark
HasRows-ack num r m h = elim (Bool-cases (is_unacked r.unacked_reqs m.src m.id m.demux_key)) [
  | inl e ↦
      rw (e, ack)
        (HasRows-insert num m.src
          (insert m.id
            (erase m.demux_key (or_nil (lookup m.id (or_nil (lookup m.src r.unacked_reqs)))))
            (or_nil (lookup m.src r.unacked_reqs)))
          r.unacked_reqs h)
  | inr e ↦ rw (e, ack) h
]

-- The modes in which answers are counted have members.
counts_locks-members : (m : Mode) → counts_locks m ≡ true → has_members m ≡ true
counts_locks-members m e = ground arith

counts_gets-members : (m : Mode) → counts_gets m ≡ true → has_members m ≡ true
counts_gets-members m e = ground arith

counts_puts-members : (m : Mode) → counts_puts m ≡ true → has_members m ≡ true
counts_puts-members m e = ground arith

module _ {S E : Type 0} (st : Store S) (perm : ℕ → List ℕ) where
  acknowledge-IsWf : (n : Dbnode S E) (m : Message) → IsWf n → IsWf (acknowledge n m)
  unfolding acknowledge
  acknowledge-IsWf n m w = record {
    self = w.self;
    rows = HasRows-ack n.num_peers n.request_repeater m w.rows;
    nodes = w.nodes;
    members = w.members;
  }

  count_answer-Safe :
      (n : Dbnode S E) (m : Message)
      → Bounded perm
      → m.src ≤ n.num_peers
      → has_members n.current_mode ≡ true
      → IsWf n
      → Safe IsWf (count_answer st perm n m)
  unfolding count_answer
  count_answer-Safe n m a le h w =
      if-Safe (not m.ok) (λ _. abort_processing-Safe st n w)
        λ _.
          if-Safe (not (same_type (member n m.src).demux_key m.demux_key))
            (λ _. >>=-Safe (set_member-Safe n m.src m le (w.members h) w) λ b e f.
              if-Safe (decrement b.num_waiting_nodes == 0)
                (λ _.
                  continue_processing-Safe st perm
                    (record b { num_waiting_nodes = decrement b.num_waiting_nodes }) a
                    (IsReady-of-IsWf b f.wf) (λ _. f.there))
                (λ _. returns f.wf))
            λ _. returns w

  pub handle_lock_res-Safe :
      (n : Dbnode S E) (m : Message)
      → Bounded perm
      → m.src ≤ n.num_peers
      → IsWf n
      → Safe IsWf (handle_lock_res st perm n m)
  unfolding handle_lock_res
  handle_lock_res-Safe n m a le w =
      let n1 = acknowledge n m in
      let w1 = acknowledge-IsWf n m w in
      if-Safe (awaits counts_locks n1 m)
        (λ e. count_answer-Safe n1 m a le (counts_locks-members n.current_mode (and_iff.0 e).1) w1)
        λ _.
          if-Safe m.ok
            (λ _.
              Safe-map (λ b f. f.wf)
                (request-Safe n1 (record (reply n1 m node_unlock_request) { ok = false }) true le
                  w1))
            (λ _. returns w1)

  pub handle_get_res-Safe :
      (n : Dbnode S E) (m : Message)
      → Bounded perm
      → m.src ≤ n.num_peers
      → IsWf n
      → Safe IsWf (handle_get_res st perm n m)
  unfolding handle_get_res
  handle_get_res-Safe n m a le w =
      let n1 = acknowledge n m in
      let w1 = acknowledge-IsWf n m w in
      if-Safe (awaits counts_gets n1 m)
        (λ e. count_answer-Safe n1 m a le (counts_gets-members n.current_mode (and_iff.0 e).1) w1)
        (λ _. returns w1)

  pub handle_put_res-Safe :
      (n : Dbnode S E) (m : Message)
      → Bounded perm
      → m.src ≤ n.num_peers
      → IsWf n
      → Safe IsWf (handle_put_res st perm n m)
  unfolding handle_put_res
  handle_put_res-Safe n m a le w =
      let n1 = acknowledge n m in
      let w1 = acknowledge-IsWf n m w in
      if-Safe (awaits counts_puts n1 m)
        (λ e. count_answer-Safe n1 m a le (counts_puts-members n.current_mode (and_iff.0 e).1) w1)
        (λ _. returns w1)

  pub handle_unlock_ack-IsWf :
      (n : Dbnode S E) (m : Message) → IsWf n → IsWf (handle_unlock_ack n m)
  unfolding handle_unlock_ack
  handle_unlock_ack-IsWf n m w = acknowledge-IsWf n m w
