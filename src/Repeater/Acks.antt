-- ===== src/Repeater/Acks.antt =====
-- What `Send` and `Ack` do to the table of requests that wait for an answer.
use part_ii_project.Base.{
  ◌==◌, Option-cases, lookup, insert, erase, lookup-insert, lookup-erase, Outcome-cases, ok, ℕ, ◌≡◌,
  inl, inr, Bool, true, ◌&&◌, ◌||◌, not, [], ◌∷◌, ◌++◌, arith, nat_key,
}
use part_ii_project.Packet.{Messagetype, type_key, same_type, same_type_iff, Message}
use part_ii_project.Repeater.{
  Repeater, Unacked, or_nil, is_unacked, mark, send, unmark, ack, response_type,
}

-- The two entries are one.
abbrev pub same_entry : ℕ → ℕ → Messagetype → ℕ → ℕ → Messagetype → Bool
same_entry d i k d' i' k' = d == d' && (i == i' && same_type k k')

is_unacked-mark :
    (u u' : Unacked) (d i : ℕ) (k : Messagetype) (d' i' : ℕ) (k' : Messagetype)
    → mark u d i k ≡ ok u'
    → is_unacked u' d' i' k' ≡ (same_entry d i k d' i' k' || is_unacked u d' i' k')
unfolding is_unacked mark
is_unacked-mark u u' d i k d' i' k' h = elim (Option-cases (lookup d u)) [
  | inl e ↦ ground (arith, e)
  | inr (row, e) ↦ ground (
    arith,
    e,
    lookup-insert d d' (insert i (insert k true (or_nil (lookup i row))) row) u,
    lookup-insert i i' (insert k true (or_nil (lookup i row))) row,
    lookup-insert k k' true (or_nil (lookup i row)),
  )
]

is_unacked-unmark :
    (u : Unacked) (d i : ℕ) (k : Messagetype) (d' i' : ℕ) (k' : Messagetype)
    → is_unacked (unmark u d i k) d' i' k'
      ≡ (is_unacked u d' i' k' && not (same_entry d i k d' i' k'))
unfolding is_unacked unmark
is_unacked-unmark u d i k d' i' k' =
    let row = or_nil (lookup d u) in
    let inner = or_nil (lookup i row) in
    ground (
      arith,
      lookup-insert d d' (insert i (erase k inner) row) u,
      lookup-insert i i' (erase k inner) row,
      lookup-erase k k' inner,
      same_type_iff k k',
    )

-- A request that is sent waits for the answer that its type asks for, under its destination and its
-- transaction, and starts one more sender; whatever else waits still does, and nothing new.
pub send_lem :
    (r r' : Repeater) (msg : Message) (unlimited : Bool) (k : Messagetype)
    → response_type msg.demux_key ≡ ok k
    → send r msg unlimited ≡ ok r'
    → ((d i : ℕ) (k' : Messagetype)
        → is_unacked r'.unacked_reqs d i k'
          ≡ (same_entry msg.dest msg.id k d i k' || is_unacked r.unacked_reqs d i k'))
      × (r'.senders
          ≡ r.senders ++ record { msg = msg; awaits = k; unlimited = unlimited; i = 0 } ∷ [])
unfolding send
send_lem r r' msg unlimited k e h = elim (Outcome-cases (mark r.unacked_reqs msg.dest msg.id k)) [
  | inl (u, marked) ↦ (
    λ d i k'.
        ground (arith, e, marked, is_unacked-mark r.unacked_reqs u msg.dest msg.id k d i k' marked),
    ground (arith, e, marked),
  )
  | inr (f, failed) ↦ ground (arith, e, failed)
]

-- An acknowledgement ends the wait for its own source, transaction and type, and no other.
pub ack_lem :
    (r : Repeater) (msg : Message) (d i : ℕ) (k : Messagetype)
    → is_unacked (ack r msg).unacked_reqs d i k
      ≡ (is_unacked r.unacked_reqs d i k && not (same_entry msg.src msg.id msg.demux_key d i k))
unfolding ack
ack_lem r msg d i k = ground (
  arith,
  is_unacked-unmark r.unacked_reqs msg.src msg.id msg.demux_key d i k,
  same_type_iff msg.demux_key k,
)
