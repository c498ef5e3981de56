-- ===== src/Dbnode/Invariant/Sending.antt =====
-- Requests of known types to known nodes are sent: the sending methods of dbnode/repeater.go and the
-- loops of dbnode/dbnode.go over the members, where nothing can fail.
use part_ii_project.Base.{
  ◌==◌, Bool-cases, Option-cases, lookup, insert, ◌>>=◌, ok, ℕ, ◌≤◌, ◌≡◌, refl, inl, inr, Bool,
  true, some, List, [], ◌∷◌, ◌++◌, arith, nat_key,
}
use part_ii_project.Packet.{Message, Messagetype, type_key}
use part_ii_project.Repeater.{Repeater, response_type, send, mark, or_nil}
use part_ii_project.Dbnode.State.{Dbnode, request, request_members, set_member}
use part_ii_project.Dbnode.Invariant.{HasRows, HasRows-insert, AllNodes}

-- The repeater after a request that it can send.
pub send_ok :
    (num : ℕ) (r : Repeater) (m : Message) (unlimited : Bool) (k : Messagetype)
    → response_type m.demux_key ≡ ok k
    → m.dest ≤ num
    → HasRows num r.unacked_reqs
    → (r' : Repeater) × (send r m unlimited ≡ ok r') × HasRows num r'.unacked_reqs
unfolding send mark
send_ok num r m unlimited k e le rows = elim (Option-cases (lookup m.dest r.unacked_reqs)) [
  | inl h ↦ absurd (rows m.dest le h)
  | inr (row, h) ↦
      let u =
        insert m.dest (insert m.id (insert k true (or_nil (lookup m.id row))) row) r.unacked_reqs in
      (
        record r {
          unacked_reqs = u;
          senders = r.senders ++ record { msg = m; awaits = k; unlimited = unlimited; i = 0 } ∷ [];
        },
        ground (arith, e, h),
        HasRows-insert num m.dest (insert m.id (insert k true (or_nil (lookup m.id row))) row)
            r.unacked_reqs rows,
      )
]

module _ {S E : Type 0} where
  -- The loop over the members ends, and changes nothing but the repeater.
  pub request_members_ok :
      (req : ℕ → Message) (unlimited : Bool) (k : Messagetype)
      → ((d : ℕ) → ((req d).dest ≡ d) × (response_type (req d).demux_key ≡ ok k))
      → (q : List (ℕ × Message)) (n : Dbnode S E) → AllNodes n.num_peers q
      → HasRows n.num_peers n.request_repeater.unacked_reqs
      → (r : Repeater) × (request_members req unlimited q n
          ≡ ok (record n { request_repeater = r }))
        × HasRows n.num_peers r.unacked_reqs
  unfolding request_members request
  request_members_ok req unlimited k f [] n a h = (n.request_repeater, refl, h)
  request_members_ok req unlimited k f ((node, m) ∷ q) n a h = elim (Bool-cases (node == n.id)) [
    | inl e ↦ let (r, g, h') = request_members_ok req unlimited k f q n a.1 h in (r, rw e g, h')
    | inr e ↦
        let (r0, sent, h0) =
          send_ok n.num_peers n.request_repeater (req node) unlimited k (f node).1
            (rw (f node).0 a.0) h in
        let (r, g, h') =
          request_members_ok req unlimited k f q (record n { request_repeater = r0 }) a.1 h0 in
        (r, rw e (rw (sent, ◌>>=◌) g), h')
  ]

  -- With a map of members, an entry is written.
  pub set_member_ok :
      (n : Dbnode S E) (d : ℕ) (m : Message) (q : List (ℕ × Message))
      → n.quorum_members ≡ some q
      → set_member n d m ≡ ok (record n { quorum_members = some (insert d m q) })
  unfolding set_member
  set_member_ok n d m q there = rw there refl
