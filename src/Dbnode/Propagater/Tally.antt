-- ===== src/Dbnode/Propagater/Tally.antt =====
-- dbnode/backgroundWriter.go: the count of nodes that have confirmed a background write is the number
-- of those that are marked.
use part_ii_project.Base.{
  leb, ◌==◌, Bool-cases, Option-cases, if_holds, length, All, lookup, insert, erase, lookup-insert,
  Bytes, Returns-value, if-Returns, Returns, ok, returned, faulted, ℕ, ◌+◌, ◌≡◌, refl, sym, subst,
  ◌≢◌, inl, inr, Bool, true, false, not, Option, none, some, List, [], ◌∷◌, arith, nat_key,
}
use part_ii_project.Packet.{Message, same_type, node_background_write_response}
use part_ii_project.Dbnode.Propagater.{
  Transaction, Propagater, has_node, sweep, stream_writes, mark_nodes, propagate_transaction,
  confirm, respond, response,
}

-- Each marked node is counted once, and no node is marked false.
pub record IsTallied (t : Transaction) : Type 0 where
  pub count : t.num_confirmed_nodes ≡ length t.nodes
  pub marks : (node : ℕ) → lookup node t.nodes ≢ some false

abbrev pub AllTallied : List (ℕ × Transaction) → Type 0
AllTallied = All (λ p. IsTallied p.1)

-- No node is twice in a map.
abbrev pub OneEach : List (ℕ × Message) → Type 0
OneEach [] = Unit {0}
OneEach ((node, m) ∷ q) = (lookup node q ≡ none) × OneEach q

length-insert_new :
    (node : ℕ) (rows : List (ℕ × Bool))
    → lookup node rows ≡ none
    → length (insert node true rows) ≡ length rows + 1
unfolding lookup insert
length-insert_new node [] h = refl
length-insert_new node ((d, b) ∷ rows) h = ground (arith, length-insert_new node rows)

All-insert :
    (P : ℕ × Transaction → Type 0) (id : ℕ) (t : Transaction) (ts : List (ℕ × Transaction))
    → P (id, t)
    → All P ts
    → All P (insert id t ts)
unfolding insert
All-insert P id t [] h a = (h, tt)
All-insert P id t ((d, u) ∷ ts) h a =
    if_holds (All P) (d == id) (h, a.1) (a.0, All-insert P id t ts h a.1)

All-erase :
    (P : ℕ × Transaction → Type 0) (id : ℕ) (ts : List (ℕ × Transaction))
    → All P ts
    → All P (erase id ts)
unfolding erase
All-erase P id [] a = tt
All-erase P id ((d, u) ∷ ts) a =
    if_holds (All P) (d == id) (All-erase P id ts a.1) (a.0, All-erase P id ts a.1)

lookup-AllTallied :
    (id : ℕ) (ts : List (ℕ × Transaction)) (t : Transaction)
    → AllTallied ts
    → lookup id ts ≡ some t
    → IsTallied t
unfolding lookup
lookup-AllTallied id [] t a e = absurd (ground (arith, e))
lookup-AllTallied id ((d, u) ∷ ts) t a e = elim (Bool-cases (d == id)) [
  | inl here ↦ subst IsTallied (ground (arith, here, e)) a.0
  | inr there ↦ lookup-AllTallied id ts t a.1 (ground (arith, there, e))
]

sweep-AllTallied :
    (p : Propagater) (ts : List (ℕ × Transaction)) → AllTallied ts → AllTallied (sweep p ts).0
unfolding sweep
sweep-AllTallied p [] a = tt
sweep-AllTallied p ((id, t) ∷ ts) a =
    if_holds (λ (r : List (ℕ × Transaction) × List Message). AllTallied r.0)
      (leb p.critical_size t.num_confirmed_nodes) (sweep-AllTallied p ts a.1)
      (a.0, sweep-AllTallied p ts a.1)

-- A sweep of the transactions keeps every count equal to the number of marked nodes.
pub stream_writes-Tallies :
    (p : Propagater) → AllTallied p.transactions → AllTallied (stream_writes p).0.transactions
unfolding stream_writes
stream_writes-Tallies p a = sweep-AllTallied p p.transactions a

mark_nodes_lem :
    (q : List (ℕ × Message))
    → OneEach q
    → (length (mark_nodes q) ≡ length q)
      × ((node : ℕ) → lookup node q ≡ none → lookup node (mark_nodes q) ≡ none)
      × ((node : ℕ) → lookup node (mark_nodes q) ≢ some false)
unfolding mark_nodes lookup
mark_nodes_lem [] one = (refl, λ node h. refl, λ node e. cc)
mark_nodes_lem ((d, m) ∷ q) one =
    let (l, fresh, marks) = mark_nodes_lem q one.1 in
    (
      omega (arith, length-insert_new d (mark_nodes q) (fresh d one.0), l),
      λ node h. ground (arith, lookup-insert d node true (mark_nodes q), fresh node, h),
      λ node e. ground (arith, lookup-insert d node true (mark_nodes q), marks node, e),
    )

-- A new transaction, for a quorum that names no node twice, has the nodes of the quorum counted.
pub propagate_transaction-Tallies :
    (p : Propagater) (id : ℕ) (q : List (ℕ × Message)) (key value : Bytes) (timestamp : ℕ)
    → OneEach q
    → AllTallied p.transactions
    → AllTallied (propagate_transaction p id q key value timestamp).transactions
unfolding propagate_transaction
propagate_transaction-Tallies p id q key value timestamp one a =
    let (l, fresh, marks) = mark_nodes_lem q one in
    All-insert (λ r. IsTallied r.1) id _ p.transactions (record { count = sym l; marks = marks }) a

confirmed-IsTallied :
    (t : Transaction) (node : ℕ)
    → has_node t.nodes node ≡ false
    → IsTallied t
    → IsTallied (record t {
      nodes = insert node true t.nodes;
      num_confirmed_nodes = t.num_confirmed_nodes + 1;
    })
unfolding has_node
confirmed-IsTallied t node h w = elim (Option-cases (lookup node t.nodes)) [
  | inl new ↦ record {
    count = omega (arith, length-insert_new node t.nodes new, w.count);
    marks = λ d e. ground (arith, lookup-insert node d true t.nodes, w.marks d, e);
  }
  | inr (b, e) ↦ absurd (w.marks node (ground (arith, h, e)))
]

-- The daemon's transactions are tallied.
abbrev pub Tallies : Propagater → Type 0
Tallies p = AllTallied p.transactions

confirm-Tallies :
    (p : Propagater) (m : Message) (t : Transaction)
    → has_node t.nodes m.src ≡ false
    → IsTallied t
    → Tallies p
    → Tallies (confirm p m t)
unfolding confirm
confirm-Tallies p m t new w a =
    if_holds Tallies (leb p.critical_size (t.num_confirmed_nodes + 1))
      (All-erase (λ r. IsTallied r.1) m.id p.transactions a)
      (All-insert (λ r. IsTallied r.1) m.id _ p.transactions (confirmed-IsTallied t m.src new w) a)

respond-Tallies :
    (p : Propagater) (m : Message) (o : Option Transaction)
    → ((t : Transaction) → o ≡ some t → IsTallied t)
    → Tallies p
    → Returns Tallies (respond p m o)
unfolding respond
respond-Tallies p m none w a = returned a
respond-Tallies p m (some t) w a =
    if-Returns m.ok
      (λ _.
        if-Returns (not (has_node t.nodes m.src))
          (λ new. returned (confirm-Tallies p m t (ground (arith, new)) (w t refl) a))
          (λ _. returned a))
      λ _.
        if-Returns (leb m.timestamp t.timestamp) (λ _. faulted)
          (λ _. returned (All-erase (λ r. IsTallied r.1) m.id p.transactions a))

-- An answer that the daemon takes keeps every count equal to the number of marked nodes: a node that
-- answers again is not counted again.
pub response-Tallies :
    (p b : Propagater) (m : Message) → Tallies p → response p m ≡ ok b → Tallies b
unfolding response
response-Tallies p b m a e = Returns-value (
    subst (Returns Tallies) e (
      if-Returns (not (same_type m.demux_key node_background_write_response)) (λ _. faulted)
        (λ _.
          respond-Tallies p m (lookup m.id p.transactions)
            (λ t. lookup-AllTallied m.id p.transactions t a) a)))
