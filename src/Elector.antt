-- ===== src/Elector.antt =====
-- dbnode/elector/elector.go: the interface of a leadership election, as a node uses it.
pub mod Ring
pub mod Bully
pub mod Dummy
use part_ii_project.Base.{ℕ}
use part_ii_project.Packet.{Message}

-- The methods of an elector of type `E`. `leader` answers -1 while an election is in progress; an
-- elector may do work of its own before it answers.
pub record Elector (E : Type 0) : Type 0 where
  pub leader : E → E × ℕ
  pub forward_to_leader : E → Message → E
  pub process_msg : E → Message → E
