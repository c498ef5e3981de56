-- ===== src/Options.antt =====
-- net/manager.go: the checks of `Simulate` on the sizes of the system and of its quorums, and the
-- sizes that main.go starts with.
use part_ii_project.Base.{
  ltb, leb, if◌then◌else◌, Outcome, log_fatal, ok, fault, ℕ, ◌+◌, ◌/◌, Bool, false, ◌&&◌, ◌||◌, not,
}

-- `no_rate` is the test `TransactionRate <= 0` on a floating-point option.
pub record Options : Type 0 where
  pub num_nodes : ℕ
  pub read_quorum_size : ℕ
  pub write_quorum_size : ℕ
  pub sloppy_quorum : Bool
  pub convergence_test : Bool
  pub no_rate : Bool

-- A convergence test implies a sloppy quorum.
unfoldable pub is_sloppy : Options → Bool
is_sloppy o = o.sloppy_quorum || o.convergence_test

-- The guards of `Simulate`: each failure is fatal.
unfoldable pub check_options : Options → Outcome (Unit {0})
unfolding is_sloppy
check_options o =
    if ltb o.num_nodes o.read_quorum_size
    then fault log_fatal
    else if ltb o.num_nodes o.write_quorum_size
    then fault log_fatal
    else if leb o.write_quorum_size (o.num_nodes / 2)
    then fault log_fatal
    else if not (is_sloppy o) && leb (o.read_quorum_size + o.write_quorum_size) o.num_nodes
    then fault log_fatal
    else if o.no_rate
    then fault log_fatal
    else ok tt

-- The default flags.
abbrev pub default_options : Options
default_options = record {
  num_nodes = 5;
  read_quorum_size = 3;
  write_quorum_size = 3;
  sloppy_quorum = false;
  convergence_test = false;
  no_rate = false;
}
