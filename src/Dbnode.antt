-- ===== src/Dbnode.antt =====
-- dbnode: a node of the database. `State` has the fields of `Dbnode`; `Quorum`, `Abort`, `Read`,
-- `Write`, `Process`, `Local`, `Handlers` and `Background` have its methods, `Startup` its constructor
-- and its failures, `Requests` and `Loop` its main loop.
pub mod Coordinator
pub mod RequestQueue
pub mod Propagater
pub mod State
pub mod Quorum
pub mod Abort
pub mod Read
pub mod Write
pub mod Process
pub mod Local
pub mod Handlers
pub mod Background
pub mod Startup
pub mod Requests
pub mod Loop
pub mod Invariant
pub mod Assembly
