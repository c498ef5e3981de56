-- ===== src/Tests/Network.antt =====
-- A network of three nodes, with partitions that overlap, and its monitor.
use part_ii_project.Base.{
  ◌==◌, if◌then◌else◌, lookup, int_ltb, ok, ℕ, ◌≡◌, refl, true, ◌&&◌, ◌||◌, not, List, [], ◌∷◌,
  arith, nat_key,
}
use part_ii_project.Network.{Network, cut_off, route_message, arrive, new_network, random_partition}
use part_ii_project.Network.Random.{joins, new_partitions-HasAllRows, random_partition_blocks}
use part_ii_project.Network.Delivery.{begins, NetReach-IsHonest, IsHonest, sends, arrives, goes_on}
use part_ii_project.Packet.{Message, type_key, no_message}
use part_ii_project.Partitions.{
  Links, remove_partition, link_available, rows_from, new_partitions, unavailable, create_partition,
}
use part_ii_project.Partitions.Cuts.{cuts, remove_partition_lem}

abbrev first_cut : Links
first_cut = (0, (1, true) ∷ (2, true) ∷ []) ∷ []

abbrev second_cut : Links
second_cut = (0, (1, true) ∷ []) ∷ []

-- The network while both partitions last.
abbrev both_cut : Links
both_cut = (0, (1, true) ∷ (2, true) ∷ []) ∷ (1, []) ∷ (2, []) ∷ (3, []) ∷ []

remove_partition_lem_example :
    link_available (remove_partition second_cut both_cut) 0 1
    ≡ (link_available both_cut 0 1 || cuts second_cut 0 1)
remove_partition_lem_example = remove_partition_lem second_cut both_cut 0 1

abbrev pairs : List (ℕ × ℕ)
pairs = (2, 0) ∷ (1, 1) ∷ []

abbrev to_zero : Message
to_zero = record no_message { src = 2; dest = 0; ok = true }

random_partition_blocks_example :
    (v : Links) × (create_partition (random_partition pairs []) (new_network 3).links ≡ ok v)
    × (route_message to_zero (record (new_network 3) { links = v })
        ≡ ok (
            if cut_off (new_network 3).links to_zero || not (2 == 0) && joins pairs 2 0
            then record (new_network 3) { links = v }
            else record (new_network 3) { links = v; in_flight = to_zero ∷ [] }))
unfolding new_network
random_partition_blocks_example =
    random_partition_blocks (new_network 3) pairs to_zero (new_partitions-HasAllRows 3)
      ((omega arith, omega arith), ((omega arith, omega arith), tt)) (omega arith) (omega arith)
      (omega arith)

abbrev under_way : Network
under_way = record (new_network 3) { in_flight = to_zero ∷ [] }

NetReach-IsHonest_example :
    IsHonest (arrive to_zero (record under_way { in_flight = [] })) (to_zero ∷ [])
unfolding new_network route_message cut_off link_available unavailable new_partitions rows_from
    lookup int_ltb
NetReach-IsHonest_example =
    NetReach-IsHonest 3
      (goes_on (goes_on begins (sends to_zero refl refl)) (arrives [] [] to_zero refl refl refl))
