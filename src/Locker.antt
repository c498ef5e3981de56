-- ===== src/Locker.antt =====
-- net/locker.go: a lock among programs, kept under one key of the database. `lock_waits` and
-- `unlock_waits` tell that `lockResChan` and `unlockResChan` are not nil. The results of the client's
-- calls are arguments: a round of `daemon` is `check` after its read, and `answer` after its write.
pub mod System
pub mod Deadlock
pub mod Exclusion
use part_ii_project.Base.{
  ◌==◌, if◌then◌else◌, increment, Bytes, itoa, atoi_value, ℕ, ◌%◌, Bool, true, false, ◌&&◌, not,
  Option, none, some, [], ◌∷◌,
}
use part_ii_project.Client.{PutResponse, success}

pub record ClientLocker : Type 0 where
  pub key : Bytes
  pub id : ℕ
  pub want_lock : Bool
  pub have_lock : Bool
  pub lock_waits : Bool
  pub unlock_waits : Bool

-- `NewClientLocker`
unfoldable pub new_locker : ℕ → ClientLocker
new_locker id = record {
  key = 1 ∷ 0 ∷ [];
  id = id;
  want_lock = false;
  have_lock = false;
  lock_waits = false;
  unlock_waits = false;
}

-- The number of the node that a value names; the error of strconv.Atoi is not looked at.
unfoldable pub node_of : Bytes → ℕ
unfolding atoi_value
node_of val = atoi_value val

-- Which `if` of a round is taken, if one is.
pub data Mode : Type 0 where
  release acquire : Mode

-- The tests of a round on what the client has read, and the write that it then asks for.
unfoldable pub check : Bytes → ℕ → ClientLocker → ClientLocker × Option (Mode × Bytes × ℕ)
unfolding node_of
check val ts cl =
    if ts % 2 == 1 && (node_of val == cl.id && not cl.want_lock)
    then (record cl { have_lock = true }, some (release, val, increment ts))
    else if ts % 2 == 0 && cl.want_lock
    then (cl, some (acquire, itoa cl.id, increment ts))
    else (cl, none)

-- The rest of the `if`. The result says whether a call of `Lock` or `Unlock` is let go on.
unfoldable pub answer : Mode → PutResponse → ClientLocker → ClientLocker × Bool
answer release success cl = (record cl { have_lock = false; unlock_waits = false }, cl.unlock_waits)
answer acquire success cl = (record cl { have_lock = true; lock_waits = false }, cl.lock_waits)
answer mode res cl = (cl, false)

-- `Lock`, up to its wait.
unfoldable pub lock : ClientLocker → ClientLocker
lock cl = record cl { lock_waits = true; want_lock = true }

-- `Unlock`, up to its wait.
unfoldable pub unlock : ClientLocker → ClientLocker
unlock cl = record cl { unlock_waits = true; want_lock = false }
