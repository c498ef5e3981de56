-- ===== src/Dbnode/Assembly.antt =====
-- Which nodes `assembleQuorum` asks: with this node they are as many different nodes as the quorum
-- has, and a read quorum meets every write quorum, if the sizes pass the checks of `Simulate`.
pub mod Addresses
pub mod Meeting
use part_ii_project.Base.{
  ◌==◌, Bool-cases, length, take, length-take, length-map, All, All-take, insert, decrement, ◌>>=◌,
  ok, ℕ, suc, ◌-◌, ◌≤◌, ◌<◌, ◌≡◌, refl, sym, ap, ap₂, subst, ◌∙◌, inl, inr, false, ◌||◌, some, List,
  [], ◌∷◌, ◌++◌, arith, nat_key,
}
use mathlib.Core.List.{append-nil, append_assoc}
use part_ii_project.Packet.{
  Message, Messagetype, type_key, same_type, node_lock_request, node_lock_request_no_timeout,
  node_get_request, node_timestamp_request,
}
use part_ii_project.Quorums.{elem, Distinct}
use part_ii_project.Repeater.{response_type}
use part_ii_project.Dbnode.State.{Dbnode, request, set_member, members_or_empty, marker}
use part_ii_project.Dbnode.Quorum.{
  first_peers, peer_address, ask_peers, mark_next_step, assemble_quorum, quorum_request,
}
use part_ii_project.Dbnode.Invariant.{HasRows}
use part_ii_project.Dbnode.Invariant.Sending.{send_ok}
use Addresses.{
  peers_of, addresses, Distinct-take, addresses-Distinct, addresses-other, addresses-below,
  peers_of-insert, peers_of-insert_self,
}

-- A node and its members.
abbrev pub quorum_of : {S E : Type 0} → Dbnode S E → List ℕ
quorum_of n = n.id ∷ peers_of n.id (members_or_empty n.quorum_members)

-- What `rand.Perm` promises.
pub record IsPermutation (perm : ℕ → List ℕ) : Type 0 where
  pub below : (k : ℕ) → All (λ d. d < k) (perm k)
  pub distinct : (k : ℕ) → Distinct (perm k)
  pub full : (k : ℕ) → length (perm k) ≡ k

-- The numbers of the peers that are still to be asked stand for no member.
abbrev Fresh : ℕ → ℕ → List (ℕ × Message) → List ℕ → Type 0
Fresh id num q = All (λ d. elem (peer_address id num d) (peers_of id q) ≡ false)

elem-snoc : (x y : ℕ) (xs : List ℕ) → elem x (xs ++ y ∷ []) ≡ (elem x xs || y == x)
elem-snoc x y [] = ground arith
elem-snoc x y (z ∷ zs) = ground (arith, elem-snoc x y zs)

Fresh-insert :
    (id num x : ℕ) (m : Message) (q : List (ℕ × Message)) (ys : List ℕ)
    → id ≤ num
    → x < num
    → elem (peer_address id num x) (peers_of id q) ≡ false
    → All (λ d. d < num) ys
    → elem x ys ≡ false
    → Fresh id num q ys
    → Fresh id num (insert (peer_address id num x) m q) ys
Fresh-insert id num x m q [] self lt e a d f = tt
Fresh-insert id num x m q (y ∷ ys) self lt e a d f = (
  ground (
    arith,
    peers_of-insert id (peer_address id num x) m q,
    elem-snoc (peer_address id num y) (peer_address id num x) (peers_of id q),
  ),
  Fresh-insert id num x m q ys self lt e a.1 (ground arith) f.1,
)

module _ {S E : Type 0} where
  -- What the loop over the peers leaves: the members that it adds, and the rest of the node.
  record Asked (n b : Dbnode S E) (new : List ℕ) : Type 0 where
    id : b.id ≡ n.id
    num : b.num_peers ≡ n.num_peers
    rows : HasRows b.num_peers b.request_repeater.unacked_reqs
    there : (q : List (ℕ × Message)) × (b.quorum_members ≡ some q)
    peers :
        peers_of n.id (members_or_empty b.quorum_members)
        ≡ peers_of n.id (members_or_empty n.quorum_members) ++ new

  ask_peers_ok :
      (type k : Messagetype) (nodes : List ℕ) (n : Dbnode S E) (q : List (ℕ × Message))
      → response_type type ≡ ok k
      → n.id ≤ n.num_peers
      → HasRows n.num_peers n.request_repeater.unacked_reqs
      → All (λ d. d < n.num_peers) nodes
      → Distinct nodes
      → Fresh n.id n.num_peers q nodes
      → (b : Dbnode S E) × (ask_peers type nodes (record n { quorum_members = some q }) ≡ ok b)
        × Asked (record n { quorum_members = some q }) b (addresses n.id n.num_peers nodes)
  unfolding ask_peers set_member request
  ask_peers_ok type k [] n q e self rows a d fresh = (
    record n { quorum_members = some q },
    refl,
    record {
      id = refl;
      num = refl;
      rows = rows;
      there = (q, refl);
      peers = sym (append-nil (peers_of n.id q));
    },
  )
  ask_peers_ok type k (x ∷ nodes) n q e self rows a d fresh =
      let to = peer_address n.id n.num_peers x in
      let m = quorum_request n type to in
      let (r, sent, rows') =
        send_ok n.num_peers n.request_repeater m false k e (ground arith) rows in
      let (b, asked, rest) =
        ask_peers_ok type k nodes (record n { request_repeater = r }) (insert to m q) e self rows'
          a.1 d.1 (Fresh-insert n.id n.num_peers x m q nodes self a.0 fresh.0 a.1 d.0 fresh.1) in
      (
        b,
        rw (sent, ◌>>=◌) asked,
        record {
          id = rest.id;
          num = rest.num;
          rows = rest.rows;
          there = rest.there;
          peers =
              rest.peers
              ∙ ap (λ l. l ++ addresses n.id n.num_peers nodes)
                  (peers_of-insert n.id to m q (ground arith) fresh.0)
              ∙ append_assoc (peers_of n.id q) (to ∷ []) (addresses n.id n.num_peers nodes);
        },
      )

  mark_next_step_ok :
      (type : Messagetype) (n : Dbnode S E) (q : List (ℕ × Message))
      → n.quorum_members ≡ some q
      → (b : Dbnode S E) × (mark_next_step type n ≡ ok b) × (quorum_of b ≡ quorum_of n)
  unfolding mark_next_step set_member
  mark_next_step_ok type n q there = elim (Bool-cases (same_type type node_lock_request)) [
    | inl e ↦ (marked node_get_request, ground (arith, e, there), same node_get_request)
    | inr e ↦ elim (Bool-cases (same_type type node_lock_request_no_timeout)) [
      | inl e' ↦
          (marked node_timestamp_request, ground (arith, e, e', there), same node_timestamp_request)
      | inr e' ↦ (n, ground (arith, e, e'), refl)
    ]
  ]
    where
      marked : Messagetype → Dbnode S E
      marked t = record n { quorum_members = some (insert n.id (marker t 0) q) }

      same : (t : Messagetype) → quorum_of (marked t) ≡ quorum_of n
      same t =
          ap (λ l. n.id ∷ l)
            (peers_of-insert_self n.id (marker t 0) q
              ∙ ap (λ o. peers_of n.id (members_or_empty o)) (sym there))

-- The members of an assembled quorum of the given size.
pub record IsQuorum (num size : ℕ) (nodes : List ℕ) : Type 0 where
  pub below : All (λ d. d < suc num) nodes
  pub distinct : Distinct nodes
  pub full : length nodes ≡ size

first_peers_ok :
    (peers : List ℕ) (size : ℕ)
    → 0 < size
    → size ≤ suc (length peers)
    → first_peers peers size ≡ ok (take (size - 1) peers)
unfolding first_peers
first_peers_ok peers size pos le = ground arith

Fresh-nil : (id num : ℕ) (nodes : List ℕ) → Fresh id num [] nodes
unfolding peers_of
Fresh-nil id num [] = tt
Fresh-nil id num (x ∷ nodes) = (refl, Fresh-nil id num nodes)

module _ {S E : Type 0} (perm : ℕ → List ℕ) (p : IsPermutation perm) where
  -- A node that asks for a quorum of a size from 1 to the number of nodes gets one of exactly that
  -- size, of different nodes of the system and itself among them.
  pub assemble_quorum-IsQuorum :
      (size : ℕ) (type k : Messagetype) (n : Dbnode S E)
      → response_type type ≡ ok k
      → n.id ≤ n.num_peers
      → HasRows n.num_peers n.request_repeater.unacked_reqs
      → 0 < size
      → size ≤ suc n.num_peers
      → (b : Dbnode S E) × (assemble_quorum perm size type n ≡ ok b)
        × IsQuorum n.num_peers size (quorum_of b)
  unfolding assemble_quorum peers_of
  assemble_quorum-IsQuorum size type k n e self rows pos le =
      let nodes = take (size - 1) (perm n.num_peers) in
      let below =
        All-take (λ d. d < n.num_peers) (size - 1) (perm n.num_peers) (p.below n.num_peers) in
      let distinct = Distinct-take (size - 1) (perm n.num_peers) (p.distinct n.num_peers) in
      let (b, asked, f) =
        ask_peers_ok type k nodes n [] e self rows below distinct
          (Fresh-nil n.id n.num_peers nodes) in
      let (q, there) = f.there in
      let (c, marked, same) = mark_next_step_ok type b q there in
      (
        record c { num_waiting_nodes = decrement size },
        rw (first_peers_ok (perm n.num_peers) size pos (omega (arith, p.full n.num_peers)), ◌>>=◌)
            (rw (asked, ◌>>=◌) (rw marked refl)),
        subst (IsQuorum n.num_peers size)
            (sym (
              same
              ∙ ap₂ (λ i l. i ∷ l) f.id
                  (ap (λ i. peers_of i (members_or_empty b.quorum_members)) f.id ∙ f.peers)))
            (record {
              below = (omega arith, addresses-below n.id n.num_peers nodes below);
              distinct = (
                addresses-other n.id n.num_peers nodes self below,
                addresses-Distinct n.id n.num_peers nodes below distinct,
              );
              full = omega (
                arith,
                length-map (peer_address n.id n.num_peers) nodes,
                length-take (size - 1) (perm n.num_peers) (omega (arith, p.full n.num_peers)),
              );
            }),
      )
