-- ===== src/Network/Random.antt =====
-- net/manager.go: what a random partition of `triggerNodeFailures` does to the routing of messages.
use part_ii_project.Base.{
  ltb, ◌==◌, if◌then◌else◌, Bool-cases, if_holds, All, lookup, insert, int_ltb, ok, ℕ, zero, suc,
  ◌+◌, ◌^◌, ◌≤◌, ◌<◌, ◌≡◌, refl, ap, ◌∙◌, ◌≢◌, inl, inr, Bool, true, false, ◌&&◌, ◌||◌, not, none,
  List, [], ◌∷◌, ◌++◌, arith, nat_key,
}
use part_ii_project.Packet.{Message}
use part_ii_project.Partitions.{Links, link_available, new_partitions, rows_from, create_partition}
use part_ii_project.Partitions.Cuts.{cuts, cuts_to, HasSources, create_partition_lem}
use part_ii_project.Network.{Network, add_link, add_pair, random_partition, cut_off, route_message}

-- One of the pairs joins the two nodes, in either order.
pub joins : List (ℕ × ℕ) → ℕ → ℕ → Bool
joins [] a b = false
joins ((s, d) ∷ pairs) a b = (s == a && d == b || s == b && d == a) || joins pairs a b

cuts_to-insert :
    (d b : ℕ) (row : List (ℕ × Bool)) → cuts_to (insert d true row) b ≡ (cuts_to row b || d == b)
unfolding cuts_to insert
cuts_to-insert d b [] = ground arith
cuts_to-insert d b ((j, w) ∷ row) = ground (arith, cuts_to-insert d b row)

cuts-add_link :
    (s d a b : ℕ) (links : Links)
    → cuts (add_link s d links) a b ≡ (cuts links a b || s == a && d == b)
unfolding cuts add_link insert lookup cuts_to
cuts-add_link s d a b [] = ground arith
cuts-add_link s d a b ((j, row) ∷ links) =
    ground (arith, cuts_to-insert d b row, cuts-add_link s d a b links)

cuts-add_pair :
    (s d a b : ℕ) (links : Links)
    → a < b
    → cuts (add_pair s d links) a b ≡ (cuts links a b || (s == a && d == b || s == b && d == a))
unfolding add_pair
cuts-add_pair s d a b links lt =
    ground (arith, cuts-add_link s d a b links, cuts-add_link d s a b links)

cuts-random_partition :
    (pairs : List (ℕ × ℕ)) (links : Links) (a b : ℕ)
    → a < b
    → cuts (random_partition pairs links) a b ≡ (cuts links a b || joins pairs a b)
unfolding random_partition joins
cuts-random_partition [] links a b lt = ground arith
cuts-random_partition ((s, d) ∷ pairs) links a b lt =
    ground (
      arith,
      cuts-random_partition pairs (add_pair s d links) a b lt,
      cuts-add_pair s d a b links lt,
    )

HasSources-insert :
    (s : ℕ) (row : List (ℕ × Bool)) (links u : Links)
    → lookup s u ≢ none
    → HasSources links u
    → HasSources (insert s row links) u
unfolding insert
HasSources-insert s row [] u here h = (here, tt)
HasSources-insert s row ((j, w) ∷ links) u here h =
    if_holds (λ x. HasSources x u) (j == s) (here, h.1)
      (h.0, HasSources-insert s row links u here h.1)

-- Both ends of each pair have rows.
abbrev HaveRows : Links → List (ℕ × ℕ) → Type 0
HaveRows u = All (λ p. (lookup p.0 u ≢ none) × (lookup p.1 u ≢ none))

HasSources-random_partition :
    (pairs : List (ℕ × ℕ)) (links u : Links)
    → HaveRows u pairs
    → HasSources links u
    → HasSources (random_partition pairs links) u
unfolding random_partition add_pair add_link
HasSources-random_partition [] links u r h = h
HasSources-random_partition ((s, d) ∷ pairs) links u r h =
    HasSources-random_partition pairs (add_pair s d links) u r.1 (
      if_holds (λ x. HasSources x u) (ltb s d) (HasSources-insert s _ links u r.0.0 h)
        (HasSources-insert d _ links u r.0.1 h))

rows_from-lookup : (k i d : ℕ) → i ≤ d → d < k + i → lookup d (rows_from k i) ≢ none
unfolding rows_from lookup
rows_from-lookup zero i d h l e = omega arith
rows_from-lookup (suc k) i d h l e = elim (Bool-cases (i == d)) [
  | inl here ↦ absurd (ground (arith, here, e))
  | inr there ↦
      rows_from-lookup k (i + 1) d (ground (arith, there)) (omega arith) (ground (arith, there, e))
]

joins_comm : (pairs : List (ℕ × ℕ)) (a b : ℕ) → joins pairs a b ≡ joins pairs b a
unfolding joins
joins_comm [] a b = refl
joins_comm ((s, d) ∷ pairs) a b = ground (arith, joins_comm pairs a b)

-- Each address of a network with `n` nodes has a row.
abbrev pub HasAllRows : ℕ → Links → Type 0
HasAllRows n u = (d : ℕ) → d < n + 1 → lookup d u ≢ none

pub new_partitions-HasAllRows : (n : ℕ) → HasAllRows n (new_partitions n)
unfolding new_partitions
new_partitions-HasAllRows n d h = rows_from-lookup (n + 1) 0 d (omega arith) (omega arith)

-- Each end of a pair is an address.
abbrev pub AreAddresses : ℕ → List (ℕ × ℕ) → Type 0
AreAddresses n = All (λ p. (p.0 < n + 1) × (p.1 < n + 1))

AreAddresses-HaveRows :
    (n : ℕ) (u : Links) (pairs : List (ℕ × ℕ))
    → HasAllRows n u
    → AreAddresses n pairs
    → HaveRows u pairs
AreAddresses-HaveRows n u [] r h = tt
AreAddresses-HaveRows n u ((s, d) ∷ pairs) r h =
    ((r s h.0.0, r d h.0.1), AreAddresses-HaveRows n u pairs r h.1)

cuts_nothing : (a b : ℕ) → cuts [] a b ≡ false
unfolding cuts
cuts_nothing a b = refl

-- The messages of two addresses that are cut off after a partition.
cut_off-joins :
    (u v : Links) (pairs : List (ℕ × ℕ)) (m : Message)
    → ((s d : ℕ)
        → link_available v s d
          ≡ (link_available u s d && not (cuts (random_partition pairs []) s d)))
    → m.src < 2 ^ 63
    → m.dest < 2 ^ 63
    → cut_off v m ≡ (cut_off u m || not (m.src == m.dest) && joins pairs m.src m.dest)
unfolding cut_off int_ltb
cut_off-joins u v pairs m c ls ld = ground (
  arith,
  c m.src m.dest,
  c m.dest m.src,
  cuts-random_partition pairs [] m.src m.dest,
  cuts-random_partition pairs [] m.dest m.src,
  cuts_nothing m.src m.dest,
  cuts_nothing m.dest m.src,
  joins_comm pairs m.src m.dest,
)

route_message_lem :
    (m : Message) (net : Network)
    → net.num_nodes + 1 < 2 ^ 63
    → m.dest < net.num_nodes + 1
    → route_message m net
      ≡ ok (if cut_off net.links m then net else record net { in_flight = net.in_flight ++ m ∷ [] })
unfolding route_message int_ltb
route_message_lem m net small there = ground arith

-- A random partition of a network whose addresses have rows is made without a write to a nil map. From
-- then on a message is not sent on if its source and destination are different and one of the random
-- pairs, or if it was not before; every other message between addresses of the network is under way.
pub random_partition_blocks :
    (net : Network) (pairs : List (ℕ × ℕ)) (m : Message)
    → HasAllRows net.num_nodes net.links
    → AreAddresses net.num_nodes pairs
    → net.num_nodes + 1 < 2 ^ 63
    → m.src < net.num_nodes + 1
    → m.dest < net.num_nodes + 1
    → (v : Links) × (create_partition (random_partition pairs []) net.links ≡ ok v)
      × (route_message m (record net { links = v })
          ≡ ok (
              if cut_off net.links m || not (m.src == m.dest) && joins pairs m.src m.dest
              then record net { links = v }
              else record net { links = v; in_flight = net.in_flight ++ m ∷ [] }))
random_partition_blocks net pairs m rows addresses small ls ld =
    let (v, e, c) = create_partition_lem (random_partition pairs []) net.links (
      HasSources-random_partition pairs [] net.links
        (AreAddresses-HaveRows net.num_nodes net.links pairs rows addresses) tt) in
    (
      v,
      e,
      route_message_lem m (record net { links = v }) small ld
          ∙ ap
              (λ (b : Bool). ok (
                if b
                then record net { links = v }
                else record net { links = v; in_flight = net.in_flight ++ m ∷ [] }))
              (cut_off-joins net.links v pairs m c (omega arith) (omega arith)),
    )
