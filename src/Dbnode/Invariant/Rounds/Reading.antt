-- ===== src/Dbnode/Invariant/Rounds/Reading.antt =====
-- The steps of a read, and `continueProcessing`, keep the invariant.
use part_ii_project.Base.{
  ltb, ◌==◌, if◌then◌else◌, decrement, if-Safe, option-Safe, >>=-Safe, log_fatal-Safe, Safe,
  returns, Bytes, ℕ, ◌≡◌, refl, sym, ap, subst, ◌∙◌, ◌≢◌, true, false, none, List, [], ◌∷◌,
}
use part_ii_project.Datastore.{Store}
use part_ii_project.Packet.{
  Message, Messagetype, no_message, node_unlock_request, node_get_request, node_lock_request,
  node_lock_request_no_timeout,
}
use part_ii_project.Dbnode.State.{
  Dbnode, emit, marker, members_or_empty, key_request, idle, member, Mode, coordinating_write,
  assembling_quorum, coordinating_read, processing_read, processing_write, coordinating_fast_read,
}
use mathlib.Core.Bool.{false≢true}
use part_ii_project.Dbnode.Read.{
  latest, collect_and_unlock, continue_fast_read, finish_read, read_step, continue_read,
  read_response,
}
use part_ii_project.Dbnode.Write.{continue_write}
use part_ii_project.Dbnode.Process.{continue_assembly, continue_in, continue_processing}
use part_ii_project.Dbnode.Invariant.{AllNodes, has_members, IsWf, IsReady, IsWf-of-IsReady}
use part_ii_project.Dbnode.Invariant.Steps.{
  request-Safe, request_members-Safe, go_idle-IsWf, abort_processing-Safe, Bounded,
  assemble_quorum-Safe,
}
use part_ii_project.Dbnode.Invariant.Rounds.Writing.{
  decode-Safe, emit-IsWf, mark-Safe, write_step-Safe,
}

module _ {S E : Type 0} (st : Store S) where
  collect_and_unlock-Safe :
      (q : List (ℕ × Message)) (t : ℕ) (v : Bytes) (n : Dbnode S E)
      → AllNodes n.num_peers q
      → IsWf n
      → Safe (λ r. IsWf r.1) (collect_and_unlock q t v n)
  unfolding collect_and_unlock
  collect_and_unlock-Safe [] t v n a w = returns w
  collect_and_unlock-Safe ((d, m) ∷ q) t v n a w =
      if-Safe (d == n.id) (λ _. collect_and_unlock-Safe q t v n a.1 w)
        λ _. >>=-Safe (decode-Safe m.value) λ r _ _.
          >>=-Safe
            (request-Safe n
              (record no_message {
                id = m.id;
                src = n.id;
                dest = d;
                demux_key = node_unlock_request;
                ok = true;
              })
              true a.0 w)
            λ b e f.
              collect_and_unlock-Safe q (if ltb t r.0 then r.0 else t)
                (if ltb t r.0 then r.1 else v) b (subst (λ k. AllNodes k q) (sym f.num) a.1) f.wf

  finish_read-Safe :
      (perm : ℕ → List ℕ) (q : List (ℕ × Message)) (n : Dbnode S E)
      → AllNodes n.num_peers q
      → IsWf n
      → Safe IsWf (finish_read st perm q n)
  unfolding finish_read
  finish_read-Safe perm q n a w =
      option-Safe (st.get n.store n.client_request.key) (λ _. abort_processing-Safe st n w)
        λ stored _. >>=-Safe (decode-Safe stored) λ r _ _.
          >>=-Safe (collect_and_unlock-Safe q r.0 r.1 n a w) λ c _ w'. returns (
            go_idle-IsWf (emit c.1 (read_response c.1 c.0.0 c.0.1))
              (emit-IsWf c.1 (read_response c.1 c.0.0 c.0.1) w'))

  read_step-Safe :
      (perm : ℕ → List ℕ) (t : Messagetype) (q : List (ℕ × Message)) (n : Dbnode S E)
      → n.quorum_members ≢ none
      → AllNodes n.num_peers q
      → IsWf n
      → Safe IsWf (read_step st perm t q n)
  unfolding read_step
  read_step-Safe perm node_get_request q n there a w =
      >>=-Safe
        (request_members-Safe (key_request n n.current_txid node_get_request) false q n (λ d. refl)
          a w)
        λ b e f.
          mark-Safe n b (marker node_unlock_request 0) (decrement n.read_quorum_size) w.self there f
  read_step-Safe perm node_unlock_request q n there a w = finish_read-Safe perm q n a w
  read_step-Safe perm _ q n there a w = log_fatal-Safe

module _ {S E : Type 0} (st : Store S) (perm : ℕ → List ℕ) where
  continue_fast_read-Safe :
      (n : Dbnode S E) → Bounded perm → IsReady n → Safe IsWf (continue_fast_read st perm n)
  unfolding continue_fast_read
  continue_fast_read-Safe n a w =
      option-Safe n.quorum_members
        (λ _. assemble_quorum-Safe perm n.read_quorum_size node_get_request n a w)
        λ q there.
          option-Safe (st.get n.store n.client_request.key)
            (λ _. abort_processing-Safe st n (IsWf-of-IsReady n (λ e. cc) w))
            λ stored _. >>=-Safe (decode-Safe stored) λ r _ _. returns (
              go_idle-IsWf (emit n (read_response n (latest q r.0 r.1).0 (latest q r.0 r.1).1)) (
                emit-IsWf n (read_response n (latest q r.0 r.1).0 (latest q r.0 r.1).1)
                  (IsWf-of-IsReady n (λ e. cc) w)))

  continue_read-Safe :
      (n : Dbnode S E) → Bounded perm → IsReady n → Safe IsWf (continue_read st perm n)
  unfolding continue_read
  continue_read-Safe n a w =
      option-Safe n.quorum_members
        (λ _. assemble_quorum-Safe perm n.read_quorum_size node_lock_request n a w)
        λ q there.
          read_step-Safe st perm (member n n.id).demux_key q n (λ e. cc)
            (subst (λ o. AllNodes n.num_peers (members_or_empty o)) there w.nodes)
            (IsWf-of-IsReady n (λ e. cc) w)

  continue_assembly-Safe :
      (n : Dbnode S E) → Bounded perm → IsReady n → Safe IsWf (continue_assembly st perm n)
  unfolding continue_assembly continue_write
  continue_assembly-Safe n a w =
      option-Safe n.quorum_members
        (λ _. assemble_quorum-Safe perm n.write_quorum_size node_lock_request_no_timeout n a w)
        λ q there.
          write_step-Safe st (member n n.id).demux_key
            (record n { current_mode = coordinating_write }) (λ e. cc)
            (record { self = w.self; rows = w.rows; nodes = w.nodes; members = λ _ e. cc })

  -- A node that is in neither of the modes with members is well-formed as it is.
  idle-IsWf : (n : Dbnode S E) → has_members n.current_mode ≡ false → IsReady n → IsWf n
  idle-IsWf n e w = record {
    self = w.self;
    rows = w.rows;
    nodes = w.nodes;
    members = λ h. absurd (false≢true (sym e ∙ h));
  }

  continue_in-Safe :
      (m : Mode) (n : Dbnode S E)
      → Bounded perm
      → IsReady n
      → n.current_mode ≡ m
      → (m ≡ coordinating_write → n.quorum_members ≢ none)
      → Safe IsWf (continue_in st perm m n)
  unfolding continue_in continue_write
  continue_in-Safe coordinating_fast_read n a w e there = continue_fast_read-Safe n a w
  continue_in-Safe coordinating_read n a w e there = continue_read-Safe n a w
  continue_in-Safe coordinating_write n a w e there =
      write_step-Safe st (member n n.id).demux_key n (there refl) (IsWf-of-IsReady n (there refl) w)
  continue_in-Safe assembling_quorum n a w e there = continue_assembly-Safe n a w
  continue_in-Safe idle n a w e there = returns (idle-IsWf n (ap has_members e) w)
  continue_in-Safe processing_read n a w e there = returns (idle-IsWf n (ap has_members e) w)
  continue_in-Safe processing_write n a w e there = returns (idle-IsWf n (ap has_members e) w)

  -- The next step of a transaction whose members are there, or are about to be assembled.
  pub continue_processing-Safe :
      (n : Dbnode S E)
      → Bounded perm
      → IsReady n
      → (n.current_mode ≡ coordinating_write → n.quorum_members ≢ none)
      → Safe IsWf (continue_processing st perm n)
  unfolding continue_processing
  continue_processing-Safe n a w there = continue_in-Safe n.current_mode n a w refl there
