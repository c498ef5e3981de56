-- ===== src/Elector/Dummy.antt =====
-- dbnode/elector/dummy.go: the elector of a system without elections, in which each node leads.
use part_ii_project.Base.{ℕ, List, [], ◌∷◌, ◌++◌}
use part_ii_project.Packet.{Message}
use part_ii_project.Elector.{Elector}

pub record Dummy : Type 0 where
  pub id : ℕ
  pub outgoing : List Message

-- `newDummy`
unfoldable pub new_dummy : ℕ → List Message → Dummy
new_dummy id outgoing = record { id = id; outgoing = outgoing }

-- `Leader`
unfoldable pub dummy_leader : Dummy → ℕ
dummy_leader d = d.id

-- `ForwardToLeader`
unfoldable pub dummy_forward : Dummy → Message → Dummy
dummy_forward d m = record d { outgoing = d.outgoing ++ record m { dest = d.id } ∷ [] }

-- `ProcessMsg`
unfoldable pub dummy_process : Dummy → Message → Dummy
dummy_process d m = d

instance abbrev pub dummy_elector : Elector Dummy
dummy_elector = record {
  leader = λ d. (d, dummy_leader d);
  forward_to_leader = dummy_forward;
  process_msg = dummy_process;
}
