-- ===== src/Dbnode/Propagater.antt =====
-- dbnode/backgroundWriter.go: streaming committed writes to the nodes outside their write quorum.
-- The lock makes each method one step. `timer` counts the signals on the channel of that name that
-- the main loop has not taken: that their sender waits for it, with the lock held, is not modelled; `stream_writes` is one iteration of that loop.
pub mod Tally
pub mod Reachable
use part_ii_project.Base.{
  leb, if◌then◌else◌, length, lookup, insert, erase, Bytes, Outcome, log_fatal, ok, fault, ℕ, zero,
  suc, ◌+◌, ◌-◌, Bool, true, false, not, Option, none, some, List, [], ◌∷◌, ◌++◌, nat_key,
}
use part_ii_project.Packet.{
  Message, same_type, node_background_write_request, node_background_write_response,
}

pub record Transaction : Type 0 where
  pub key : Bytes
  pub value : Bytes
  pub timestamp : ℕ
  pub num_confirmed_nodes : ℕ
  pub nodes : List (ℕ × Bool)

-- `transactions` is keyed by the number of the client's transaction.
pub record Propagater : Type 0 where
  pub id : ℕ
  pub n : ℕ
  pub critical_size : ℕ
  pub transactions : List (ℕ × Transaction)
  pub timer : ℕ

-- `newPropagater`. With a read quorum beyond `num_nodes + 1` the difference would be negative; 0
-- compares in the same way with a number of nodes.
unfoldable pub new_propagater : ℕ → ℕ → ℕ → Propagater
new_propagater id num_nodes rqs = record {
  id = id;
  n = num_nodes;
  critical_size = num_nodes + 1 - rqs;
  transactions = [];
  timer = 0;
}

-- t.nodes[node]
unfoldable pub has_node : List (ℕ × Bool) → ℕ → Bool
has_node nodes node = elim (lookup node nodes) [ none ↦ false | some b ↦ b ]

background_request : Propagater → ℕ → Transaction → ℕ → Message
background_request p id t node = record {
  id = id;
  src = p.id;
  dest = node;
  demux_key = node_background_write_request;
  key = t.key;
  value = t.value;
  timestamp = t.timestamp;
  ok = true;
}

-- The inner loop, for the nodes from `node` on; `k` of them are left.
requests_from : Propagater → ℕ → Transaction → ℕ → ℕ → List Message
requests_from p id t node zero = []
requests_from p id t node (suc k) =
    let rest = requests_from p id t (node + 1) k in
    if not (has_node t.nodes node) then background_request p id t node ∷ rest else rest

-- The outer loop: the transactions that stay, and what is sent for them.
sweep : Propagater → List (ℕ × Transaction) → List (ℕ × Transaction) × List Message
sweep p [] = ([], [])
sweep p ((id, t) ∷ ts) =
    let rest = sweep p ts in
    if leb p.critical_size t.num_confirmed_nodes
    then rest
    else ((id, t) ∷ rest.0, requests_from p id t 0 p.n ++ rest.1)

-- One iteration of `streamWrites`, and what goes to `outgoing`.
unfoldable pub stream_writes : Propagater → Propagater × List Message
unfolding sweep requests_from background_request
stream_writes p = (
  record p { transactions = (sweep p p.transactions).0; timer = p.timer - 1 },
  (sweep p p.transactions).1,
)

-- `for node := range quorumMembers { t.nodes[node] = true }`
mark_nodes : List (ℕ × Message) → List (ℕ × Bool)
mark_nodes [] = []
mark_nodes ((node, m) ∷ members) = insert node true (mark_nodes members)

unfoldable pub propagate_transaction :
    Propagater → ℕ → List (ℕ × Message) → Bytes → Bytes → ℕ → Propagater
unfolding mark_nodes
propagate_transaction p id quorum_members key value timestamp =
    let t : Transaction = record {
      key = key;
      value = value;
      timestamp = timestamp;
      num_confirmed_nodes = length quorum_members;
      nodes = mark_nodes quorum_members;
    } in
    record p { transactions = insert id t p.transactions; timer = p.timer + 1 }

-- A confirmation that is not a repetition, and the end of a transaction with enough of them.
unfoldable pub confirm : Propagater → Message → Transaction → Propagater
confirm p msg t =
    let confirmed : Transaction = record t {
      nodes = insert msg.src true t.nodes;
      num_confirmed_nodes = t.num_confirmed_nodes + 1;
    } in
    if leb p.critical_size confirmed.num_confirmed_nodes
    then record p { transactions = erase msg.id p.transactions }
    else record p { transactions = insert msg.id confirmed p.transactions }

unfoldable pub respond : Propagater → Message → Option Transaction → Outcome Propagater
unfolding confirm
respond p msg none = ok p
respond p msg (some t) =
    if msg.ok
    then (if not (has_node t.nodes msg.src) then ok (confirm p msg t) else ok p)
    else if leb msg.timestamp t.timestamp
    then fault log_fatal
    else ok (record p { transactions = erase msg.id p.transactions })

unfoldable pub response : Propagater → Message → Outcome Propagater
unfolding respond
response p msg =
    if not (same_type msg.demux_key node_background_write_response)
    then fault log_fatal
    else respond p msg (lookup msg.id p.transactions)
