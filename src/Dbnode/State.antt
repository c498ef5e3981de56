-- ===== src/Dbnode/State.antt =====
-- dbnode/dbnode.go: the state of a node, and the small updates that its methods share. `S` is the
-- type of its local store and `E` that of its elector.
use part_ii_project.Base.{
  ◌==◌, if◌then◌else◌, lookup, insert, minus_one, Bytes, ◌>>=◌, Outcome, nil_map_write, ok, fault,
  ℕ, Bool, true, Option, none, some, List, [], ◌∷◌, ◌++◌, nat_key,
}
use part_ii_project.Packet.{Message, Messagetype, no_message}
use part_ii_project.Repeater.{Repeater}
use part_ii_project.Repeater
use part_ii_project.Dbnode.Propagater.{Propagater}
use part_ii_project.Dbnode.RequestQueue.{Queue}

pub data Mode : Type 0 where
  idle : Mode
  assembling_quorum : Mode
  coordinating_read : Mode
  coordinating_write : Mode
  processing_read : Mode
  processing_write : Mode
  coordinating_fast_read : Mode

abbrev mode_iota : Mode → ℕ
mode_iota idle = 0
mode_iota assembling_quorum = 1
mode_iota coordinating_read = 2
mode_iota coordinating_write = 3
mode_iota processing_read = 4
mode_iota processing_write = 5
mode_iota coordinating_fast_read = 6

-- `==` on modes.
abbrev pub same_mode : Mode → Mode → Bool
same_mode a b = mode_iota a == mode_iota b

abbrev pub fast_reads : Bool
fast_reads = true

-- The fields of `Dbnode` but its incoming channel, timeout and log settings. `outgoing` is what has
-- been sent on the channel of that name, oldest first. `timers` are the counters that
-- `setInternalTimer` has taken, `sleeping` the pointers that wait for `timedOutLockRequests`. The
-- pointers of the main loop lead into `memory`, in which `next_cell` is the next free one.
-- `timeout_counter` is the local variable of the main loop.
pub record Dbnode (S E : Type 0) : Type 0 where
  pub id : ℕ
  pub num_peers : ℕ
  pub read_quorum_size : ℕ
  pub write_quorum_size : ℕ
  pub outgoing : List Message
  pub current_mode : Mode
  pub store : S
  pub current_txid : ℕ
  pub lock_requests : Queue
  pub client_request : Message
  pub quorum_members : Option (List (ℕ × Message))
  pub num_waiting_nodes : ℕ
  pub request_repeater : Repeater
  pub background_write_daemon : Option Propagater
  pub uncommited_txid : ℕ
  pub uncommited_key : Option Bytes
  pub unlock_txids : List (ℕ × Bool)
  pub timers : List ℕ
  pub elector : E
  pub disabled : Bool
  pub memory : ℕ → Message
  pub next_cell : ℕ
  pub sleeping : List ℕ
  pub timeout_counter : ℕ

-- A read of `quorumMembers`: a missing member is the zero message.
abbrev pub message_or_zero : Option Message → Message
message_or_zero none = no_message
message_or_zero (some m) = m

abbrev pub members_or_empty : Option (List (ℕ × Message)) → List (ℕ × Message)
members_or_empty none = []
members_or_empty (some q) = q

-- A nil slice as a key has no bytes.
abbrev pub key_or_nil : Option Bytes → Bytes
key_or_nil none = []
key_or_nil (some k) = k

-- The entry of this node in the members, which marks the step that comes next.
abbrev pub marker : Messagetype → ℕ → Message
marker type timestamp = record no_message { demux_key = type; timestamp = timestamp }

module _ {S E : Type 0} where
  -- n.Outgoing <- msg
  unfoldable pub emit : Dbnode S E → Message → Dbnode S E
  emit n msg = record n { outgoing = n.outgoing ++ msg ∷ [] }

  -- n.requestRepeater.Send(msg, unlimited)
  unfoldable pub request : Dbnode S E → Message → Bool → Outcome (Dbnode S E)
  request n msg unlimited = do
    r ← Repeater.send n.request_repeater msg unlimited
    ok (record n { request_repeater = r })

  -- n.requestRepeater.Ack(msg)
  unfoldable pub acknowledge : Dbnode S E → Message → Dbnode S E
  acknowledge n msg = record n { request_repeater = Repeater.ack n.request_repeater msg }

  -- n.quorumMembers[k]
  abbrev pub member : Dbnode S E → ℕ → Message
  member n k = message_or_zero (lookup k (members_or_empty n.quorum_members))

  -- n.quorumMembers[k] = msg
  unfoldable pub set_member : Dbnode S E → ℕ → Message → Outcome (Dbnode S E)
  set_member n k msg = elim n.quorum_members [
    | none ↦ fault nil_map_write
    | some q ↦ ok (record n { quorum_members = some (insert k msg q) })
  ]

  -- The loop `for node := range n.quorumMembers` that sends a request to each member but the node.
  unfoldable pub request_members :
      (ℕ → Message) → Bool → List (ℕ × Message) → Dbnode S E → Outcome (Dbnode S E)
  request_members req unlimited [] n = ok n
  request_members req unlimited ((node, m) ∷ members) n =
      if node == n.id
      then request_members req unlimited members n
      else (do n' ← request n (req node) unlimited; request_members req unlimited members n')

  -- Back to the idle state, at the end of a transaction that this node coordinated.
  unfoldable pub go_idle : Dbnode S E → Dbnode S E
  go_idle n = record n {
    current_mode = idle;
    current_txid = minus_one;
    quorum_members = none;
    num_waiting_nodes = 0;
  }

  -- A request about the key of the client's request.
  abbrev pub key_request : Dbnode S E → ℕ → Messagetype → ℕ → Message
  key_request n id type node = record no_message {
    id = id;
    src = n.id;
    dest = node;
    demux_key = type;
    key = n.client_request.key;
    ok = true;
  }

  -- `QueryState`, and its answer in the main loop.
  unfoldable pub query_state : Dbnode S E → ℕ
  query_state n = n.current_txid
