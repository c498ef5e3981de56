-- ===== src/Monitor.antt =====
-- net/monitor.go: how many messages of each type were logged, and how many nodes work on each
-- transaction, in each second. `second` and `poll` are the local variables `counter` of the two loops.
-- What `stop` prints is left out.
pub mod Totals
pub mod Nodes
use part_ii_project.Base.{
  lookup, insert, Key, increment, Outcome, nil_map_write, ok, fault, ℕ, Option, none, some, List,
  [], ◌∷◌, nat_key,
}
use part_ii_project.Packet.{Messagetype, type_key}

pub record Monitor : Type 0 where
  pub msg_types : List (ℕ × List (Messagetype × ℕ))
  pub node_states : List (ℕ × List (ℕ × ℕ))
  pub second : ℕ
  pub poll : ℕ

-- `newMonitor`, and the start of its loops.
unfoldable pub new_monitor : Monitor
new_monitor = record { msg_types = (0, []) ∷ []; node_states = []; second = 0; poll = 0 }

-- A missing count reads as 0.
abbrev pub count_or_zero : Option ℕ → ℕ
count_or_zero none = 0
count_or_zero (some count) = count

-- row[k] = row[k] + 1
module _ {K : Type 0} ⦃e : Key K⦄ where
  unfoldable pub count_in : K → List (K × ℕ) → List (K × ℕ)
  count_in k row = insert k (increment (count_or_zero (lookup k row))) row

-- A tick of the clock in `monitorMsgTypes`.
unfoldable pub next_second : Monitor → Monitor
next_second m =
    let s = increment m.second in record m { second = s; msg_types = insert s [] m.msg_types }

-- A message of the type comes from `logMsg`.
unfoldable pub log_type : Messagetype → Monitor → Outcome Monitor
unfolding count_in
log_type t m = elim (lookup m.second m.msg_types) [
  | none ↦ fault nil_map_write
  | some row ↦ ok (record m { msg_types = insert m.second (count_in t row) m.msg_types })
]

-- The loop over the nodes, which answer with their transactions.
unfoldable pub count_states : List ℕ → List (ℕ × ℕ) → List (ℕ × ℕ)
unfolding count_in
count_states [] row = row
count_states (txid ∷ txids) row = count_states txids (count_in txid row)

-- A round of `monitorNodeStates`.
unfoldable pub poll_nodes : List ℕ → Monitor → Monitor
unfolding count_states
poll_nodes txids m = record m {
  node_states = insert m.poll (count_states txids []) m.node_states;
  poll = increment m.poll;
}
