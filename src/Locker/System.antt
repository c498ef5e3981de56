-- ===== src/Locker/System.antt =====
-- net/locker.go: programs that share the lock, as interleaved steps. The database is a register of a
-- value and its timestamp: a read answers what it holds at a moment of the call, and a strong write
-- at the next timestamp takes effect at a moment of the call or not at all, and is reported as a
-- success only if it took effect. The locker with number `i` has the client number `i`.
use part_ii_project.Base.{
  ◌==◌, if◌then◌else◌, increment, Bytes, ℕ, ◌^◌, ◌<◌, ◌≡◌, ◌≢◌, Bool, true, false, Option, none,
  some, [],
}
use part_ii_project.Client.{PutResponse, success}
use part_ii_project.Locker.{
  ClientLocker, Mode, new_locker, check, answer, lock, unlock, release, acquire,
}

pub record Register : Type 0 where
  pub value : Bytes
  pub timestamp : ℕ

-- Where a program is that uses the lock: outside, in `Lock`, between `Lock` and `Unlock`, in `Unlock`.
pub data Call : Type 0 where
  outside locking holding unlocking : Call

-- Where the daemon is in its round: before its read, after it, in a strong write, after that.
pub data Phase : Type 0 where
  watching : Phase
  has_read : Bytes → ℕ → Phase
  writing : Mode → Bytes → ℕ → Phase
  wrote : Mode → PutResponse → Phase

pub record Party : Type 0 where
  pub locker : ClientLocker
  pub call : Call
  pub phase : Phase

-- The phase after the tests of a round.
unfoldable pub phase_after : Option (Mode × Bytes × ℕ) → Phase
phase_after none = watching
phase_after (some (mode, val, ts)) = writing mode val ts

-- A call that is let go on.
unfoldable pub return_from : Mode → Bool → Call → Call
return_from mode false c = c
return_from release true c = outside
return_from acquire true c = holding

-- The steps of one party on the register. A program calls `Lock` outside and `Unlock` while it holds
-- the lock, as their comments ask.
pub data Move (r : Register) (p : Party) (r' : Register) (p' : Party) : Type 0 where
  call_lock :
      p.call ≡ outside
      → r' ≡ r
      → p' ≡ record p { locker = lock p.locker; call = locking }
      → Move r p r' p'
  call_unlock :
      p.call ≡ holding
      → r' ≡ r
      → p' ≡ record p { locker = unlock p.locker; call = unlocking }
      → Move r p r' p'
  reads :
      p.phase ≡ watching
      → r' ≡ r
      → p' ≡ record p { phase = has_read r.value r.timestamp }
      → Move r p r' p'
  checks :
      (val : Bytes) (ts : ℕ)
      → p.phase ≡ has_read val ts
      → r' ≡ r
      → p' ≡ record p {
        locker = (check val ts p.locker).0;
        phase = phase_after (check val ts p.locker).1;
      }
      → Move r p r' p'
  fails :
      (mode : Mode) (val : Bytes) (ts : ℕ) (res : PutResponse)
      → p.phase ≡ writing mode val ts
      → res ≢ success
      → r' ≡ r
      → p' ≡ record p { phase = wrote mode res }
      → Move r p r' p'
  writes :
      (mode : Mode) (val : Bytes) (ts : ℕ) (res : PutResponse)
      → p.phase ≡ writing mode val ts
      → increment r.timestamp ≡ ts
      → r' ≡ record r { value = val; timestamp = ts }
      → p' ≡ record p { phase = wrote mode res }
      → Move r p r' p'
  answers :
      (mode : Mode) (res : PutResponse)
      → p.phase ≡ wrote mode res
      → r' ≡ r
      → p' ≡ record p {
        locker = (answer mode res p.locker).0;
        call = return_from mode (answer mode res p.locker).1 p.call;
        phase = watching;
      }
      → Move r p r' p'

pub record System : Type 0 where
  pub register : Register
  pub party : ℕ → Party

-- One party of another state.
unfoldable pub set_party : ℕ → Party → (ℕ → Party) → ℕ → Party
set_party i p f j = if i == j then p else f j

-- A step of the system is a move of one of its parties, whose number is an `int`.
pub data Step (s : System) (t : System) : Type 0 where
  moves :
      (i : ℕ)
      → i < 2 ^ 63
      → Move s.register (s.party i) t.register (t.party i)
      → t.party ≡ set_party i (t.party i) s.party
      → Step s t

pub data Reach (s : System) : System → Type 0 where
  here : Reach s s
  next : {t u : System} → Reach s t → Step t u → Reach s u

-- No value is stored, and no program has asked for the lock.
abbrev pub start : System
start = record {
  register = record { value = []; timestamp = 0 };
  party = λ i. record { locker = new_locker i; call = outside; phase = watching };
}
