-- ===== src/Dbnode/Assembly/Meeting.antt =====
-- dbnode/dbnode.go and net/manager.go: when the quorums that two nodes assemble share a node.
use part_ii_project.Base.{Outcome, ok, ℕ, suc, ◌+◌, ◌≤◌, ◌<◌, ◌≡◌, subst, true, false, List, arith}
use part_ii_project.Packet.{Messagetype}
use part_ii_project.Quorums.{elem, sets_meet}
use part_ii_project.Options.{Options, is_sloppy, check_options}
use part_ii_project.Repeater.{response_type}
use part_ii_project.Dbnode.State.{Dbnode}
use part_ii_project.Dbnode.Quorum.{assemble_quorum}
use part_ii_project.Dbnode.Invariant.{HasRows}
use part_ii_project.Dbnode.Assembly.{IsPermutation, IsQuorum, quorum_of, assemble_quorum-IsQuorum}

-- The sizes of the quorums of options that `Simulate` accepts.
record Accepted (o : Options) : Type 0 where
  read_le : o.read_quorum_size ≤ o.num_nodes
  write_le : o.write_quorum_size ≤ o.num_nodes
  majority : o.num_nodes < o.write_quorum_size + o.write_quorum_size
  meeting : is_sloppy o ≡ false → o.num_nodes < o.read_quorum_size + o.write_quorum_size

check_options_lem : (o : Options) → check_options o ≡ ok tt → Accepted o
unfolding check_options
check_options_lem o h = record {
  read_le = ground arith;
  write_le = ground arith;
  majority = ground arith;
  meeting = λ e. ground arith;
}

-- A node of a system with the options `o`, before it assembles a quorum.
pub record IsNodeOf {S E : Type 0} (o : Options) (n : Dbnode S E) : Type 0 where
  pub num : suc n.num_peers ≡ o.num_nodes
  pub self : n.id ≤ n.num_peers
  pub reads : n.read_quorum_size ≡ o.read_quorum_size
  pub writes : n.write_quorum_size ≡ o.write_quorum_size
  pub rows : HasRows n.num_peers n.request_repeater.unacked_reqs

module _ {S E : Type 0} where
  -- The quorums of two nodes share a node.
  abbrev pub Meet : Outcome (Dbnode S E) → Outcome (Dbnode S E) → Type 0
  Meet x y =
      (a : Dbnode S E) × (b : Dbnode S E) × (x ≡ ok a)
      × (y ≡ ok b)
      × (d : ℕ) × (elem d (quorum_of a) ≡ true)
      × (elem d (quorum_of b) ≡ true)

  meet :
      (num i j : ℕ) (x y : Outcome (Dbnode S E))
      → (a : Dbnode S E) × (x ≡ ok a) × IsQuorum num i (quorum_of a)
      → (b : Dbnode S E) × (y ≡ ok b) × IsQuorum num j (quorum_of b)
      → suc num < i + j
      → Meet x y
  meet num i j x y (a, e, p) (b, f, q) more =
      let (d, u, v) =
        sets_meet (suc num) (quorum_of a) (quorum_of b) p.below p.distinct q.below q.distinct
          (omega (arith, p.full, q.full)) in
      (a, b, e, f, d, u, v)

-- The permutations that the two nodes draw.
module _ {S E : Type 0} (perm perm' : ℕ → List ℕ) (p : IsPermutation perm)
    (p' : IsPermutation perm') where
  -- If `Simulate` accepts the sizes and quorums are not sloppy, the quorum that any node asks for a
  -- read and the quorum that any node asks for a write are both assembled, and share a node, whichever
  -- permutations the two calls draw.
  pub read_meets_write :
      (o : Options) (r w : Dbnode S E) (t u k l : Messagetype)
      → check_options o ≡ ok tt
      → is_sloppy o ≡ false
      → IsNodeOf o r
      → IsNodeOf o w
      → response_type t ≡ ok k
      → response_type u ≡ ok l
      → Meet
          (assemble_quorum perm r.read_quorum_size t r)
          (assemble_quorum perm' w.write_quorum_size u w)
  read_meets_write o r w t u k l h strict a b e f =
      let c = check_options_lem o h in
      let m = c.meeting strict in
      meet r.num_peers r.read_quorum_size w.write_quorum_size _ _
        (assemble_quorum-IsQuorum perm p r.read_quorum_size t k r e a.self a.rows
          (omega (arith, c.write_le, m, a.reads)) (omega (arith, c.read_le, a.reads, a.num)))
        (subst
          (λ i.
            (b' : Dbnode S E) × (assemble_quorum perm' w.write_quorum_size u w ≡ ok b')
            × IsQuorum i w.write_quorum_size (quorum_of b'))
          (omega (arith, a.num, b.num))
          (assemble_quorum-IsQuorum perm' p' w.write_quorum_size u l w f b.self b.rows
            (omega (arith, c.majority, b.writes)) (omega (arith, c.write_le, b.writes, b.num))))
        (omega (arith, m, a.num, a.reads, b.writes))

  -- If `Simulate` accepts the sizes, the quorums that any two nodes ask for writes are both
  -- assembled, and share a node, whichever permutations they draw, also when quorums are sloppy.
  pub write_meets_write :
      (o : Options) (r w : Dbnode S E) (t u k l : Messagetype)
      → check_options o ≡ ok tt
      → IsNodeOf o r
      → IsNodeOf o w
      → response_type t ≡ ok k
      → response_type u ≡ ok l
      → Meet
          (assemble_quorum perm r.write_quorum_size t r)
          (assemble_quorum perm' w.write_quorum_size u w)
  write_meets_write o r w t u k l h a b e f =
      let c = check_options_lem o h in
      meet r.num_peers r.write_quorum_size w.write_quorum_size _ _
        (assemble_quorum-IsQuorum perm p r.write_quorum_size t k r e a.self a.rows
          (omega (arith, c.majority, a.writes)) (omega (arith, c.write_le, a.writes, a.num)))
        (subst
          (λ i.
            (b' : Dbnode S E) × (assemble_quorum perm' w.write_quorum_size u w ≡ ok b')
            × IsQuorum i w.write_quorum_size (quorum_of b'))
          (omega (arith, a.num, b.num))
          (assemble_quorum-IsQuorum perm' p' w.write_quorum_size u l w f b.self b.rows
            (omega (arith, c.majority, b.writes)) (omega (arith, c.write_le, b.writes, b.num))))
        (omega (arith, c.majority, a.num, a.writes, b.writes))
