-- ===== src/Tests.antt =====
-- Runs of the code, and the theorems at concrete inputs.
pub mod Runs
mod Rounds
mod Agreement
mod Writes
mod Stores
mod Messages
mod Daemon
mod Elections
mod Network
mod Workload
mod Locks
mod Clients
mod Files
