-- ===== src/Dbnode/Invariant/Steps.antt =====
-- The invariant through the loops that send requests, the assembly of a quorum and an abort.
use part_ii_project.Base.{
  ltb, ◌==◌, Bool-cases, if_holds, length, All, All-take, is_positive, if-Safe, option-Safe,
  >>=-Safe, out_of_range-Safe, Safe-map, Safe, returns, ℕ, ◌-◌, ◌≤◌, ◌<◌, ◌≡◌, refl, sym, subst,
  ◌∙◌, ◌≢◌, inl, inr, Bool, true, false, ◌||◌, none, some, List, [], ◌∷◌, arith,
}
use part_ii_project.Packet.{
  Message, Messagetype, same_type, node_lock_request, node_lock_request_no_timeout,
  node_get_request, node_timestamp_request,
}
use part_ii_project.Dbnode.State.{
  Dbnode, request, set_member, request_members, members_or_empty, go_idle, Mode, idle, marker,
}
use part_ii_project.Datastore.{Store}
use part_ii_project.Dbnode.Quorum.{
  first_peers, peer_address, ask_peers, mark_next_step, assemble_quorum, quorum_request,
}
use part_ii_project.Dbnode.Abort.{
  report_abort, rollback_uncommited, abort_processing, unlock_request,
}
use part_ii_project.Dbnode.Invariant.{AllNodes, IsWf, AllNodes-insert, send-Safe, IsReady}

-- A random permutation of the numbers below `k` has no other number.
abbrev pub Bounded : (ℕ → List ℕ) → Type 0
Bounded perm = (k : ℕ) → All (λ d. d < k) (perm k)

module _ {S E : Type 0} where
  -- The invariant after a step that sends requests, and what such a step leaves alone.
  pub record Frame (n b : Dbnode S E) : Type 0 where
    pub wf : IsWf b
    pub id : b.id ≡ n.id
    pub num : b.num_peers ≡ n.num_peers
    pub mode : b.current_mode ≡ n.current_mode
    pub same_members : b.quorum_members ≡ n.quorum_members

  pub Frame-refl : (n : Dbnode S E) → IsWf n → Frame n n
  Frame-refl n w = record { wf = w; id = refl; num = refl; mode = refl; same_members = refl }

  Frame-trans : {a b c : Dbnode S E} → Frame a b → Frame b c → Frame a c
  Frame-trans f g = record {
    wf = g.wf;
    id = g.id ∙ f.id;
    num = g.num ∙ f.num;
    mode = g.mode ∙ f.mode;
    same_members = g.same_members ∙ f.same_members;
  }

  pub request-Safe :
      (n : Dbnode S E) (m : Message) (unlimited : Bool)
      → m.dest ≤ n.num_peers
      → IsWf n
      → Safe (Frame n) (request n m unlimited)
  unfolding request
  request-Safe n m unlimited le w =
      >>=-Safe (send-Safe n.num_peers n.request_repeater m unlimited le w.rows) λ r e rows.
        returns (record {
          wf = record { self = w.self; rows = rows; nodes = w.nodes; members = w.members };
          id = refl;
          num = refl;
          mode = refl;
          same_members = refl;
        })

  pub request_members-Safe :
      (req : ℕ → Message) (unlimited : Bool) (q : List (ℕ × Message)) (n : Dbnode S E)
      → ((d : ℕ) → (req d).dest ≡ d)
      → AllNodes n.num_peers q
      → IsWf n
      → Safe (Frame n) (request_members req unlimited q n)
  unfolding request_members
  request_members-Safe req unlimited [] n to a w = returns (Frame-refl n w)
  request_members-Safe req unlimited ((d, m) ∷ q) n to a w =
      if-Safe (d == n.id) (λ _. request_members-Safe req unlimited q n to a.1 w)
        (λ _. >>=-Safe (request-Safe n (req d) unlimited (rw (to d) a.0) w) λ b e f.
          Safe-map (λ c. Frame-trans f)
            (request_members-Safe req unlimited q b to (subst (λ k. AllNodes k q) (sym f.num) a.1)
              f.wf))

  -- The invariant after a step that writes to the members, which are there.
  pub record Kept (n b : Dbnode S E) : Type 0 where
    pub wf : IsWf b
    pub id : b.id ≡ n.id
    pub num : b.num_peers ≡ n.num_peers
    pub mode : b.current_mode ≡ n.current_mode
    pub there : b.quorum_members ≢ none

  Kept-trans : {a b c : Dbnode S E} → Kept a b → Kept b c → Kept a c
  Kept-trans f g = record {
    wf = g.wf;
    id = g.id ∙ f.id;
    num = g.num ∙ f.num;
    mode = g.mode ∙ f.mode;
    there = g.there;
  }

  Kept-Frame : {a b : Dbnode S E} → a.quorum_members ≢ none → Frame a b → Kept a b
  Kept-Frame h f = record {
    wf = f.wf;
    id = f.id;
    num = f.num;
    mode = f.mode;
    there = λ e. h (sym f.same_members ∙ e);
  }

  pub set_member-Safe :
      (n : Dbnode S E) (d : ℕ) (m : Message)
      → d ≤ n.num_peers
      → n.quorum_members ≢ none
      → IsWf n
      → Safe (Kept n) (set_member n d m)
  unfolding set_member
  set_member-Safe n d m le there w =
      option-Safe n.quorum_members (λ e. absurd (there e))
        λ q e. returns (record {
          wf = record {
            self = w.self;
            rows = w.rows;
            nodes =
                AllNodes-insert n.num_peers d m q le
                  (subst (λ o. AllNodes n.num_peers (members_or_empty o)) e w.nodes);
            members = λ _ e. cc;
          };
          id = refl;
          num = refl;
          mode = refl;
          there = λ e. cc;
        })

  ask_peers-Safe :
      (type : Messagetype) (nodes : List ℕ) (n : Dbnode S E)
      → All (λ d. d < n.num_peers) nodes
      → n.quorum_members ≢ none
      → IsWf n
      → Safe (Kept n) (ask_peers type nodes n)
  unfolding ask_peers
  ask_peers-Safe type [] n a there w = returns (Kept-Frame there (Frame-refl n w))
  ask_peers-Safe type (d ∷ nodes) n a there w =
      let to = peer_address n.id n.num_peers d in
      >>=-Safe (set_member-Safe n to (quorum_request n type to) (ground arith) there w) λ b e f.
        >>=-Safe (request-Safe b (quorum_request n type to) false (rw f.num (ground arith)) f.wf)
          λ c e' g.
            let k = Kept-trans f (Kept-Frame f.there g) in
            Safe-map (λ x. Kept-trans k)
              (ask_peers-Safe type nodes c (subst (λ p. All (λ d. d < p) nodes) (sym k.num) a.1)
                k.there g.wf)

  mark_next_step-Safe :
      (type : Messagetype) (n : Dbnode S E)
      → n.quorum_members ≢ none
      → IsWf n
      → Safe (Kept n) (mark_next_step type n)
  unfolding mark_next_step
  mark_next_step-Safe type n there w =
      if-Safe (same_type type node_lock_request)
        (λ _. set_member-Safe n n.id (marker node_get_request 0) w.self there w)
        λ _.
          if-Safe (same_type type node_lock_request_no_timeout)
            (λ _. set_member-Safe n n.id (marker node_timestamp_request 0) w.self there w)
            λ _. returns (Kept-Frame there (Frame-refl n w))

  pub assemble_quorum-Safe :
      (perm : ℕ → List ℕ) (size : ℕ) (type : Messagetype) (n : Dbnode S E)
      → Bounded perm
      → IsReady n
      → Safe IsWf (assemble_quorum perm size type n)
  unfolding assemble_quorum first_peers
  assemble_quorum-Safe perm size type n a w =
      >>=-Safe {Q = All (λ d. d < n.num_peers)}
        (if-Safe (size == 0 || ltb (length (perm n.num_peers)) (size - 1)) (λ _. out_of_range-Safe)
          (λ _.
            returns
              (All-take (λ d. d < n.num_peers) (size - 1) (perm n.num_peers) (a n.num_peers))))
        λ nodes e a'.
          >>=-Safe (ask_peers-Safe type nodes n1 a' (λ e. cc) w1)
            λ b e f. >>=-Safe (mark_next_step-Safe type b f.there f.wf) λ c e g. returns g.wf
    where
      n1 : Dbnode S E
      n1 = record n { quorum_members = some [] }

      w1 : IsWf n1
      w1 = record { self = w.self; rows = w.rows; nodes = tt; members = λ _ e. cc }

  report_abort-IsWf : (m : Mode) (n : Dbnode S E) → IsWf n → IsWf (report_abort m n)
  unfolding report_abort
  report_abort-IsWf idle n w = w
  report_abort-IsWf _ n w = w

  pub go_idle-IsWf : (n : Dbnode S E) → IsWf n → IsWf (go_idle n)
  unfolding go_idle
  go_idle-IsWf n w = record { self = w.self; rows = w.rows; nodes = tt; members = λ e. cc }

  rollback-IsWf : (st : Store S) (n : Dbnode S E) → IsWf n → IsWf (rollback_uncommited st n)
  unfolding rollback_uncommited
  rollback-IsWf st n w = elim (Bool-cases (is_positive n.uncommited_txid)) [
    | inl e ↦ rw e w
    | inr e ↦ rw e w
  ]

  report_abort-num : (m : Mode) (n : Dbnode S E) → (report_abort m n).num_peers ≡ n.num_peers
  unfolding report_abort
  report_abort-num idle n = refl
  report_abort-num _ n = refl

  -- An abort also leaves the number of peers alone.
  pub abort_processing-num :
      (st : Store S) (n : Dbnode S E)
      → IsWf n
      → Safe (λ b. IsWf b × (b.num_peers ≡ n.num_peers)) (abort_processing st n)
  unfolding abort_processing rollback_uncommited go_idle
  abort_processing-num st n w =
      >>=-Safe
        (request_members-Safe (unlock_request n1 false) true (members_or_empty n1.quorum_members) n1
          (λ d. refl) w1.nodes w1)
        λ b e f. returns (
          go_idle-IsWf (report_abort b.current_mode b) (report_abort-IsWf b.current_mode b f.wf),
          report_abort-num b.current_mode b ∙ f.num ∙ rollback-num,
        )
    where
      n1 : Dbnode S E
      n1 = rollback_uncommited st n

      w1 : IsWf n1
      w1 = rollback-IsWf st n w

      rollback-num : n1.num_peers ≡ n.num_peers
      rollback-num =
          if_holds (λ (b : Dbnode S E). b.num_peers ≡ n.num_peers) (is_positive n.uncommited_txid)
            refl refl

  pub abort_processing-Safe :
      (st : Store S) (n : Dbnode S E) → IsWf n → Safe IsWf (abort_processing st n)
  abort_processing-Safe st n w = Safe-map (λ b h. h.0) (abort_processing-num st n w)
