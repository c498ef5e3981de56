-- ===== src/Dbnode/Invariant.antt =====
-- The invariant behind the map writes of dbnode/dbnode.go: a node that coordinates has a map of
-- members, and the repeater has a row for every node that it may be asked to reach.
pub mod Initial
pub mod Sending
pub mod Steps
pub mod Rounds
pub mod Reachable
use part_ii_project.Base.{
  lookup, insert, lookup-insert, option-Safe, >>=-Safe, log_fatal-Safe, Safe, returns, ℕ, ◌≤◌, ◌≡◌,
  ◌≢◌, Bool, true, false, Option, none, List, [], ◌∷◌, arith, nat_key,
}
use part_ii_project.Packet.{
  Message, Messagetype, node_lock_request, node_lock_request_no_timeout, node_unlock_request,
  node_get_request, node_put_request, node_timestamp_request,
}
use part_ii_project.Repeater.{Unacked, Repeater, mark, response_type, send}
use part_ii_project.Dbnode.State.{
  Dbnode, Mode, members_or_empty, assembling_quorum, coordinating_read, coordinating_write,
  coordinating_fast_read, idle,
}

-- The repeater has a row for each node up to `num`.
abbrev pub HasRows : ℕ → Unacked → Type 0
HasRows num u = (d : ℕ) → d ≤ num → lookup d u ≢ none

-- The keys of a map are addresses of nodes up to `num`.
abbrev pub AllNodes : ℕ → List (ℕ × Message) → Type 0
AllNodes num [] = Unit {0}
AllNodes num ((d, m) ∷ q) = (d ≤ num) × AllNodes num q

-- In these modes a node writes to its members.
abbrev pub has_members : Mode → Bool
has_members assembling_quorum = true
has_members coordinating_read = true
has_members coordinating_write = true
has_members coordinating_fast_read = true
has_members _ = false

pub record Wf (id num : ℕ) (mode : Mode) (q : Option (List (ℕ × Message))) (u : Unacked)
    : Type 0 where
  pub self : id ≤ num
  pub rows : HasRows num u
  pub nodes : AllNodes num (members_or_empty q)
  pub members : has_members mode ≡ true → q ≢ none

abbrev pub IsWf : {S E : Type 0} → Dbnode S E → Type 0
IsWf n = Wf n.id n.num_peers n.current_mode n.quorum_members n.request_repeater.unacked_reqs

-- The same before the first step of a transaction, when the members are not there yet.
abbrev pub IsReady : {S E : Type 0} → Dbnode S E → Type 0
IsReady n = Wf n.id n.num_peers idle n.quorum_members n.request_repeater.unacked_reqs

pub IsReady-of-IsWf : {S E : Type 0} (n : Dbnode S E) → IsWf n → IsReady n
IsReady-of-IsWf n w = record { self = w.self; rows = w.rows; nodes = w.nodes; members = λ e. cc }

pub IsWf-of-IsReady : {S E : Type 0} (n : Dbnode S E) → n.quorum_members ≢ none → IsReady n → IsWf n
IsWf-of-IsReady n h w = record { self = w.self; rows = w.rows; nodes = w.nodes; members = λ _. h }

AllNodes-insert :
    (num d : ℕ) (m : Message) (q : List (ℕ × Message))
    → d ≤ num
    → AllNodes num q
    → AllNodes num (insert d m q)
unfolding insert
AllNodes-insert num d m [] h a = (h, tt)
AllNodes-insert num d m ((c, w) ∷ q) h a = ground (arith, AllNodes-insert num d m q)

pub HasRows-insert :
    (num d : ℕ) (row : List (ℕ × List (Messagetype × Bool))) (u : Unacked)
    → HasRows num u
    → HasRows num (insert d row u)
HasRows-insert num d row u h c le = ground (arith, lookup-insert d c row u, h c le)

response_type-Safe : (t : Messagetype) → Safe (λ k. Unit {0}) (response_type t)
unfolding response_type
response_type-Safe node_lock_request = returns tt
response_type-Safe node_lock_request_no_timeout = returns tt
response_type-Safe node_unlock_request = returns tt
response_type-Safe node_get_request = returns tt
response_type-Safe node_put_request = returns tt
response_type-Safe node_timestamp_request = returns tt
response_type-Safe _ = log_fatal-Safe

send-Safe :
    (num : ℕ) (r : Repeater) (msg : Message) (unlimited : Bool)
    → msg.dest ≤ num
    → HasRows num r.unacked_reqs
    → Safe (λ r'. HasRows num r'.unacked_reqs) (send r msg unlimited)
unfolding send mark
send-Safe num r msg unlimited le h =
    >>=-Safe (response_type-Safe msg.demux_key)
      λ k e _. >>=-Safe {Q = HasRows num} (mark-Safe k) (λ u e' h'. returns h')
  where
    mark-Safe : (k : Messagetype) → Safe (HasRows num) (mark r.unacked_reqs msg.dest msg.id k)
    mark-Safe k =
        option-Safe (lookup msg.dest r.unacked_reqs) (λ e. absurd (h msg.dest le e))
          (λ row e. returns (HasRows-insert num msg.dest _ r.unacked_reqs h))
