-- ===== src/Network.antt =====
-- net/manager.go: the simulated network. A message that a node has sent is routed by `startHelper`, is
-- under way for some time, and is put into the buffer of its destination by `sendAfterDelay`; the
-- delays are open, so that messages under way arrive in any order. The last address is that of clients.
pub mod Random
pub mod Delivery
use part_ii_project.Base.{
  ltb, ◌==◌, if◌then◌else◌, length, lookup, insert, int_ltb, Outcome, out_of_range, ok, fault, ℕ,
  ◌+◌, Bool, true, ◌&&◌, ◌||◌, not, Option, none, some, List, [], ◌∷◌, ◌++◌, nat_key,
}
use part_ii_project.Packet.{
  Message, no_message, control_fail, control_recover, internal_timer_signal,
}
use part_ii_project.Partitions.{Links, link_available, new_partitions}

pub record Network : Type 0 where
  pub num_nodes : ℕ
  pub links : Links
  pub in_flight : List Message
  pub inboxes : ℕ → List Message

-- The link between source and destination is cut, which is named with its lower end first.
unfoldable pub cut_off : Links → Message → Bool
cut_off u m =
    int_ltb m.src m.dest && not (link_available u m.src m.dest)
    || int_ltb m.dest m.src && not (link_available u m.dest m.src)

-- A round of `startHelper`. An address past the last is logged; a negative one is out of range.
unfoldable pub route_message : Message → Network → Outcome Network
unfolding cut_off
route_message m net =
    if not (int_ltb m.dest (net.num_nodes + 1))
    then ok net
    else if cut_off net.links m
    then ok net
    else if int_ltb m.dest 0
    then fault out_of_range
    else ok (record net { in_flight = net.in_flight ++ m ∷ [] })

-- The buffer of an address, as `Simulate` and `New` of a node make it.
unfoldable pub capacity : ℕ → ℕ → ℕ
capacity num_nodes d = if d == num_nodes then 500 else 1000

-- The end of `sendAfterDelay`: the message is discarded if the buffer is full.
unfoldable pub arrive : Message → Network → Network
unfolding capacity
arrive m net = record net {
  inboxes = λ d.
      if m.dest == d && ltb (length (net.inboxes d)) (capacity net.num_nodes d)
      then net.inboxes d ++ m ∷ []
      else net.inboxes d;
}

-- What `triggerNodeFailures` sends to a node, and what the timer of a node (dbnode/dbnode.go) sends to it.
abbrev pub failure_message : Message
failure_message = record no_message { demux_key = control_fail }

abbrev pub recovery_message : Message
recovery_message = record no_message { demux_key = control_recover }

abbrev pub timer_message : ℕ → ℕ → Message
timer_message node count = record no_message {
  id = count;
  src = node;
  dest = node;
  demux_key = internal_timer_signal;
}

-- A message that is put into a buffer without a delay, once there is room.
unfoldable pub post : ℕ → Message → Network → Network
post d m net = record net {
  inboxes = λ j. if d == j then net.inboxes j ++ m ∷ [] else net.inboxes j;
}

-- The network that `Simulate` starts.
unfoldable pub new_network : ℕ → Network
new_network num_nodes = record {
  num_nodes = num_nodes;
  links = new_partitions num_nodes;
  in_flight = [];
  inboxes = λ d. [];
}

-- A row of a partition that is made, which is empty before its first link.
abbrev row_or_empty : Option (List (ℕ × Bool)) → List (ℕ × Bool)
row_or_empty none = []
row_or_empty (some row) = row

-- The links that `triggerNodeFailures` adds for one random pair.
unfoldable pub add_link : ℕ → ℕ → Links → Links
add_link s d links = insert s (insert d true (row_or_empty (lookup s links))) links

unfoldable pub add_pair : ℕ → ℕ → Links → Links
unfolding add_link
add_pair s d links = if ltb s d then add_link s d links else add_link d s links

-- The partition for the random pairs.
unfoldable pub random_partition : List (ℕ × ℕ) → Links → Links
unfolding add_pair
random_partition [] links = links
random_partition ((s, d) ∷ pairs) links = random_partition pairs (add_pair s d links)
