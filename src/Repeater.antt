-- ===== src/Repeater.antt =====
-- dbnode/repeater/repeater.go: resending requests until they are acknowledged. Each `Send` starts a
-- goroutine, here a `Sender` in the list `senders`; `attempt` is one round of its loop, and the
-- sleep between rounds is the interleaving of such rounds with the other calls. The timeout is left
-- out, and so is the lock, which makes each method and each round one step.
pub mod Acks
pub mod Rounds
use part_ii_project.Base.{
  ltb, if◌then◌else◌, lookup, insert, erase, ◌>>=◌, Outcome, log_fatal, nil_map_write, ok, fault, ℕ,
  zero, suc, ◌+◌, Bool, true, false, Option, none, some, List, [], ◌∷◌, ◌++◌, nat_key,
}
use part_ii_project.Packet.{
  Messagetype, node_lock_request, node_lock_request_no_timeout, node_lock_response,
  node_unlock_request, node_unlock_ack, node_get_request, node_get_response, node_put_request,
  node_put_response, node_timestamp_request, type_key, Message,
}

-- The local variables of a `send` goroutine; `i` is its loop counter.
pub record Sender : Type 0 where
  pub msg : Message
  pub awaits : Messagetype
  pub unlimited : Bool
  pub i : ℕ

-- node → transaction → message type → waiting
abbrev pub Unacked : Type 0
Unacked = List (ℕ × List (ℕ × List (Messagetype × Bool)))

pub record Repeater : Type 0 where
  pub num_retries : ℕ
  pub unacked_reqs : Unacked
  pub disabled : Bool
  pub senders : List Sender

unfoldable pub empty_rows : ℕ → ℕ → Unacked
empty_rows zero i = []
empty_rows (suc k) i = (i, []) ∷ empty_rows k (i + 1)

-- `New`, with a row for each node from 0 to `num_nodes - 1`.
unfoldable pub new_repeater : ℕ → ℕ → Repeater
unfolding empty_rows
new_repeater num_nodes num_retries = record {
  num_retries = num_retries;
  unacked_reqs = empty_rows num_nodes 0;
  disabled = false;
  senders = [];
}

-- The `switch` of `Send`: the type of message that acknowledges a request.
unfoldable pub response_type : Messagetype → Outcome Messagetype
response_type node_lock_request = ok node_lock_response
response_type node_lock_request_no_timeout = ok node_lock_response
response_type node_unlock_request = ok node_unlock_ack
response_type node_get_request = ok node_get_response
response_type node_put_request = ok node_put_response
response_type node_timestamp_request = ok node_get_response
response_type _ = fault log_fatal

-- A read of a map that may be nil or lack the key.
unfoldable pub or_nil {ℓ κ} : {K : Type ℓ} {V : Type κ} → Option (List (K × V)) → List (K × V)
or_nil none = []
or_nil (some m) = m

unfoldable pub or_false : Option Bool → Bool
or_false none = false
or_false (some b) = b

-- r.unackedReqs[dest][id][key]
unfoldable pub is_unacked : Unacked → ℕ → ℕ → Messagetype → Bool
unfolding or_nil or_false
is_unacked u dest id key = or_false (lookup key (or_nil (lookup id (or_nil (lookup dest u)))))

-- The same entry set to true. The row of an unknown node is a nil map.
unfoldable pub mark : Unacked → ℕ → ℕ → Messagetype → Outcome Unacked
unfolding or_nil
mark u dest id key = elim (lookup dest u) [
  | none ↦ fault nil_map_write
  | some row ↦ ok (insert dest (insert id (insert key true (or_nil (lookup id row))) row) u)
]

-- `Send`
unfoldable pub send : Repeater → Message → Bool → Outcome Repeater
send r msg unlimited = do
  key ← response_type msg.demux_key
  u ← mark r.unacked_reqs msg.dest msg.id key
  let s : Sender = record { msg = msg; awaits = key; unlimited = unlimited; i = 0 }
  ok (record r { unacked_reqs = u; senders = r.senders ++ s ∷ [] })

-- `delete` in the innermost map, where the entry is true.
unfoldable pub unmark : Unacked → ℕ → ℕ → Messagetype → Unacked
unfolding or_nil
unmark u src id key =
    insert src
      (insert id (erase key (or_nil (lookup id (or_nil (lookup src u))))) (or_nil (lookup src u))) u

-- `Ack`
unfoldable pub ack : Repeater → Message → Repeater
ack r msg =
    if is_unacked r.unacked_reqs msg.src msg.id msg.demux_key
    then record r { unacked_reqs = unmark r.unacked_reqs msg.src msg.id msg.demux_key }
    else r

-- `Fail` and `Recover`
unfoldable pub fail : Repeater → Repeater
fail r = record r { disabled = true }

unfoldable pub recover : Repeater → Repeater
recover r = record r { disabled = false }

-- The end of a round: `i--` for an unlimited sender, then the `i++` of the loop.
next_round : Sender → Sender
next_round s = record s { i = if s.unlimited then s.i else s.i + 1 }

-- One round of a sender's loop: the sender for the next round, or none where it returns, and what
-- it sends.
unfoldable pub attempt : Repeater → Sender → Option Sender × List Message
unfolding next_round
attempt r s =
    if ltb s.i r.num_retries
    then if r.disabled
      then (some (next_round s), [])
      else if is_unacked r.unacked_reqs s.msg.dest s.msg.id s.awaits
      then (some (next_round s), s.msg ∷ [])
      else (none, [])
    else (none, [])
