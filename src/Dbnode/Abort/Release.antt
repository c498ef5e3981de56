-- ===== src/Dbnode/Abort/Release.antt =====
-- dbnode/dbnode.go: what an abort leaves behind (`abortProcessing`).
use part_ii_project.Base.{
  ◌==◌, ==_iff, Bool-cases, is_positive, Bytes, ◌>>=◌, ok, ℕ, ◌≡◌, refl, sym, ap, ◌∙◌, ◌≢◌, inl,
  inr, Bool, true, false, none, List, [], ◌∷◌, ◌++◌, arith,
}
use mathlib.Core.List.{append-nil}
use part_ii_project.Datastore.{Store, StoreLaws}
use part_ii_project.Packet.{
  no_message, Message, Messagetype, same_type_iff, node_unlock_ack, type_key, client_read_response,
  client_write_response,
}
use part_ii_project.Repeater.{Repeater, Unacked, response_type, is_unacked}
use part_ii_project.Repeater.Acks.{send_lem}
use part_ii_project.Dbnode.State.{
  Dbnode, Mode, request, request_members, members_or_empty, idle, go_idle, emit, assembling_quorum,
  coordinating_read, coordinating_write, processing_read, processing_write,
}
use part_ii_project.Dbnode.Abort.{
  abort_processing, report_abort, rollback_uncommited, unlock_request,
}
use part_ii_project.Dbnode.Invariant.{HasRows, AllNodes, IsWf}
use part_ii_project.Dbnode.Invariant.Sending.{send_ok}

-- An answer of the type is awaited from each of the members but the node itself.
abbrev pub AllAsked : ℕ → ℕ → Messagetype → Unacked → List (ℕ × Message) → Type 0
AllAsked id txid k u [] = Unit {0}
AllAsked id txid k u ((d, m) ∷ q) = (d ≢ id → is_unacked u d txid k ≡ true) × AllAsked id txid k u q

-- What is awaited in the first table is awaited in the second.
abbrev Extends : Unacked → Unacked → Type 0
Extends u v = (d i : ℕ) (k : Messagetype) → is_unacked u d i k ≡ true → is_unacked v d i k ≡ true

module _ {S E : Type 0} where
  members_asked :
      (req : ℕ → Message) (unlimited : Bool) (txid : ℕ) (k : Messagetype)
      → ((d : ℕ)
          → ((req d).dest ≡ d) × ((req d).id ≡ txid) × (response_type (req d).demux_key ≡ ok k))
      → (q : List (ℕ × Message)) (n : Dbnode S E) → AllNodes n.num_peers q
      → HasRows n.num_peers n.request_repeater.unacked_reqs
      → (r : Repeater) × (request_members req unlimited q n
          ≡ ok (record n { request_repeater = r }))
        × Extends n.request_repeater.unacked_reqs r.unacked_reqs
        × AllAsked n.id txid k r.unacked_reqs q
  unfolding request_members request
  members_asked req unlimited txid k f [] n a h = (n.request_repeater, refl, λ d i k' e. e, tt)
  members_asked req unlimited txid k f ((node, m) ∷ q) n a h = elim (Bool-cases (node == n.id)) [
    | inl own ↦
        let (r, g, more, all) = members_asked req unlimited txid k f q n a.1 h in
        (r, rw own g, more, (λ ne. absurd (ne ((==_iff node n.id).0 own)), all))
    | inr other ↦
        let (r0, sent, h0) =
          send_ok n.num_peers n.request_repeater (req node) unlimited k (f node).2
            (rw (f node).0 a.0) h in
        let asks = (send_lem n.request_repeater r0 (req node) unlimited k (f node).2 sent).0 in
        let (r, g, more, all) =
          members_asked req unlimited txid k f q (record n { request_repeater = r0 }) a.1 h0 in
        (
          r,
          rw other (rw (sent, ◌>>=◌) g),
          λ d i k' e. more d i k' (ground (arith, asks d i k', e)),
          (
            λ _.
                more node txid k
                  (ground (arith, asks node txid k, (f node).0, (f node).1, same_type_iff k k)),
            all,
          ),
        )
  ]

-- The refusal of a client's request, and the release of a lock, by the node with a number.
abbrev pub refusal : ℕ → Message → Messagetype → Message
refusal id req type = record req { src = id; dest = req.src; demux_key = type; ok = false }

abbrev pub release : ℕ → Message → Message
release id req = record no_message {
  id = req.id;
  src = id;
  dest = req.src;
  demux_key = node_unlock_ack;
}

-- Whom an abort in a mode answers: the client of a read or write that this node coordinates under
-- locks, or the coordinator for which it holds a lock.
abbrev pub abort_answers : Mode → ℕ → Message → List Message
abort_answers assembling_quorum id req = refusal id req client_write_response ∷ []
abort_answers coordinating_read id req = refusal id req client_read_response ∷ []
abort_answers coordinating_write id req = refusal id req client_write_response ∷ []
abort_answers processing_read id req = release id req ∷ []
abort_answers processing_write id req = release id req ∷ []
abort_answers _ id req = []

report_abort_lem :
    {S E : Type 0} (m : Mode) (n : Dbnode S E)
    → ((report_abort m n).outgoing ≡ n.outgoing ++ abort_answers m n.id n.client_request)
      × ((report_abort m n).store ≡ n.store)
      × ((report_abort m n).request_repeater ≡ n.request_repeater)
unfolding report_abort emit
report_abort_lem assembling_quorum n = (refl, refl, refl)
report_abort_lem coordinating_read n = (refl, refl, refl)
report_abort_lem coordinating_write n = (refl, refl, refl)
report_abort_lem processing_read n = (refl, refl, refl)
report_abort_lem processing_write n = (refl, refl, refl)
report_abort_lem _ n = (sym (append-nil n.outgoing), refl, refl)

module _ {S E : Type 0} (st : Store S) where
  -- What an abort of `n` leaves.
  pub record IsReleased (n b : Dbnode S E) : Type 0 where
    pub at_rest : b.current_mode ≡ idle
    pub members : b.quorum_members ≡ none
    pub reads : (j : Bytes) → st.get b.store j ≡ st.get n.store j
    pub asked :
        AllAsked n.id n.client_request.id node_unlock_ack b.request_repeater.unacked_reqs
          (members_or_empty n.quorum_members)
    pub answered : b.outgoing ≡ n.outgoing ++ abort_answers n.current_mode n.id n.client_request

  release_rolled_back :
      (n : Dbnode S E)
      → IsWf n
      → (b : Dbnode S E) × ((do
        n2 ← request_members (unlock_request n false) true (members_or_empty n.quorum_members) n
        ok (go_idle (report_abort n2.current_mode n2)))
          ≡ ok b)
        × IsReleased n b
  unfolding go_idle response_type
  release_rolled_back n w =
      let (r, sent, more, all) =
        members_asked (unlock_request n false) true n.client_request.id node_unlock_ack
          (λ d. (refl, refl, refl)) (members_or_empty n.quorum_members) n w.nodes w.rows in
      let n2 : Dbnode S E = record n { request_repeater = r } in
      let (out, store, rep) = report_abort_lem n.current_mode n2 in
      (
        go_idle (report_abort n.current_mode n2),
        rw (sent, ◌>>=◌) refl,
        record {
          at_rest = refl;
          members = refl;
          reads = λ j. ap (λ s. st.get s j) store;
          asked = rw rep all;
          answered = out;
        },
      )

  -- An abort ends: the node is idle and without a quorum, every other member of its quorum has been
  -- asked to unlock the transaction, the answer that its mode calls for has been sent, and no read of
  -- the store has changed.
  pub abort_processing-IsReleased :
      StoreLaws st
      → (n : Dbnode S E) → IsWf n
      → (b : Dbnode S E) × (abort_processing st n ≡ ok b) × IsReleased n b
  unfolding abort_processing rollback_uncommited
  abort_processing-IsReleased laws n w = elim (Bool-cases (is_positive n.uncommited_txid)) [
    | inl there ↦
        let (b, e, r) = release_rolled_back rolled_back w in
        (
          b,
          rw there e,
          record {
            at_rest = r.at_rest;
            members = r.members;
            reads = λ j. r.reads j ∙ laws.get-rollback n.store n.uncommited_txid j;
            asked = r.asked;
            answered = r.answered;
          },
        )
    | inr not_there ↦ let (b, e, r) = release_rolled_back n w in (b, rw not_there e, r)
  ]
    where
      rolled_back : Dbnode S E
      rolled_back = record n {
        store = st.rollback n.store n.uncommited_txid;
        uncommited_txid = 0;
        uncommited_key = none;
      }
