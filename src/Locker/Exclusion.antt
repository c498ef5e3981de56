-- ===== src/Locker/Exclusion.antt =====
-- net/locker.go: at most one program holds the lock.
use part_ii_project.Base.{
  ◌==◌, ==_iff, Bool-cases, increment, Bytes, itoa, atoi_value-itoa, ℕ, ◌%◌, ◌^◌, ◌<◌, ◌≡◌, refl,
  sym, ap, subst, ◌∙◌, ◌≢◌, ◌⊎◌, inl, inr, Bool, true, false, ◌&&◌, not, Option, some, [], arith,
}
use part_ii_project.Client.{PutResponse, success, error, unknown}
use part_ii_project.Locker.{
  ClientLocker, Mode, node_of, release, acquire, check, answer, lock, unlock, new_locker,
}
use part_ii_project.Locker.System.{
  Register, Party, Move, locking, holding, unlocking, has_read, writing, wrote, call_lock,
  call_unlock, checks, fails, writes, answers, phase_after, return_from, outside, watching, reads,
  Phase, set_party, start, System, Step, Reach, moves, here, next,
}

-- The register names the party as the owner of the lock.
pub record Owns (i : ℕ) (r : Register) : Type 0 where
  pub odd : r.timestamp % 2 ≡ 1
  pub named : node_of r.value ≡ i

-- What holds of the party with number `i` beside the register, however steps are interleaved.
pub record IsSound (i : ℕ) (r : Register) (p : Party) : Type 0 where
  pub numbered : p.locker.id ≡ i
  pub wanted : p.call ≡ locking → p.locker.want_lock ≡ true
  pub kept : p.call ≡ holding → p.locker.want_lock ≡ true
  pub awaited : p.locker.lock_waits ≡ true → p.call ≡ locking
  pub released : p.locker.unlock_waits ≡ true → p.call ≡ unlocking
  pub holds : p.call ≡ holding → Owns i r
  pub fresh :
      (val : Bytes) (ts : ℕ) → p.phase ≡ has_read val ts → ts % 2 ≡ 1 → node_of val ≡ i → Owns i r
  pub releases :
      (val : Bytes) (ts : ℕ) → p.phase ≡ writing release val ts → Owns i r × (p.call ≢ holding)
  pub acquires :
      (val : Bytes) (ts : ℕ) → p.phase ≡ writing acquire val ts → (node_of val ≡ i) × (ts % 2 ≡ 1)
  pub acquired : p.phase ≡ wrote acquire success → Owns i r

node_of-itoa : (i : ℕ) → i < 2 ^ 63 → node_of (itoa i) ≡ i
unfolding node_of
node_of-itoa i h = atoi_value-itoa i h

-- The register may change in any way as long as the party does not own the lock.
IsSound-other :
    {i : ℕ} {r : Register} (r' : Register) {p : Party} → IsSound i r p → ¬ Owns i r → IsSound i r' p
IsSound-other r' s n = record {
  numbered = s.numbered;
  wanted = s.wanted;
  kept = s.kept;
  awaited = s.awaited;
  released = s.released;
  holds = λ h. absurd (n (s.holds h));
  fresh = λ val ts h o e. absurd (n (s.fresh val ts h o e));
  releases = λ val ts h. absurd (n (s.releases val ts h).0);
  acquires = s.acquires;
  acquired = λ h. absurd (n (s.acquired h));
}

-- The parity of a timestamp and that of the next one differ, also where it wraps around.
next_parity : (ts : ℕ) → ts % 2 ≡ 1 → ¬ (increment ts % 2 ≡ 1)
unfolding increment
next_parity ts odd e = omega arith

-- A move of another party leaves the register, or happens while this party does not own the lock.
pub Move-register :
    {i j : ℕ} {r r' : Register} {p p' : Party}
    → IsSound i r p
    → Move r p r' p'
    → i ≢ j
    → (r' ≡ r) ⊎ (¬ Owns j r)
Move-register s (call_lock a b c) ne = inl b
Move-register s (call_unlock a b c) ne = inl b
Move-register s (reads a b c) ne = inl b
Move-register s (checks val ts a b c) ne = inl b
Move-register s (fails mode val ts res a b c d) ne = inl c
Move-register s (answers mode res a b c) ne = inl b
Move-register s (writes release val ts res a b c d) ne =
    inr (λ o. ne (sym (s.releases val ts a).0.named ∙ o.named))
Move-register {r} s (writes acquire val ts res a b c d) ne =
    let (n, odd) = s.acquires val ts a in
    inr (λ o. next_parity r.timestamp o.odd (ap (λ t. t % 2) b ∙ odd))

IsSound-moved :
    {i : ℕ} {r r' : Register} {p q : Party} → r' ≡ r → p ≡ q → IsSound i r q → IsSound i r' p
IsSound-moved {i} {r} {r'} {p} {q} a b s =
    subst (λ x. IsSound i x p) (sym a) (subst (IsSound i r) (sym b) s)

locked-IsSound :
    {i : ℕ} {r : Register} {p : Party}
    → IsSound i r p
    → p.call ≡ outside
    → IsSound i r (record p { locker = lock p.locker; call = locking })
unfolding lock
locked-IsSound s e = record {
  numbered = s.numbered;
  wanted = λ h. refl;
  kept = λ h. refl;
  awaited = λ h. refl;
  released = λ h. absurd (cc (s.released h));
  holds = λ h. absurd (cc);
  fresh = s.fresh;
  releases = λ val ts h. ((s.releases val ts h).0, λ x. cc);
  acquires = s.acquires;
  acquired = s.acquired;
}

unlocked-IsSound :
    {i : ℕ} {r : Register} {p : Party}
    → IsSound i r p
    → p.call ≡ holding
    → IsSound i r (record p { locker = unlock p.locker; call = unlocking })
unfolding unlock
unlocked-IsSound s e = record {
  numbered = s.numbered;
  wanted = λ h. absurd (cc);
  kept = λ h. absurd (cc);
  awaited = λ h. absurd (cc (s.awaited h));
  released = λ h. refl;
  holds = λ h. absurd (cc);
  fresh = s.fresh;
  releases = λ val ts h. ((s.releases val ts h).0, λ x. cc);
  acquires = s.acquires;
  acquired = s.acquired;
}

read-IsSound :
    {i : ℕ} {r : Register} {p : Party}
    → IsSound i r p
    → IsSound i r (record p { phase = has_read r.value r.timestamp })
read-IsSound s = record {
  numbered = s.numbered;
  wanted = s.wanted;
  kept = s.kept;
  awaited = s.awaited;
  released = s.released;
  holds = s.holds;
  fresh = λ val ts h odd e. record { odd = ground (arith, h, odd); named = ground (arith, h, e) };
  releases = λ val ts h. absurd (cc);
  acquires = λ val ts h. absurd (cc);
  acquired = λ h. absurd (cc);
}

failed-IsSound :
    {i : ℕ} {r : Register} {p : Party}
    → IsSound i r p
    → (mode : Mode) (res : PutResponse) → (mode ≡ acquire → res ≡ success → Owns i r)
    → IsSound i r (record p { phase = wrote mode res })
failed-IsSound s mode res h = record {
  numbered = s.numbered;
  wanted = s.wanted;
  kept = s.kept;
  awaited = s.awaited;
  released = s.released;
  holds = s.holds;
  fresh = λ val ts e. absurd (cc);
  releases = λ val ts e. absurd (cc);
  acquires = λ val ts e. absurd (cc);
  acquired = λ e. h (cc) (cc);
}

-- A write that takes effect.
written-IsSound :
    {i : ℕ} {r : Register} {p : Party}
    → IsSound i r p
    → (mode : Mode) (res : PutResponse) (r' : Register) → (p.call ≡ holding → Owns i r')
    → (mode ≡ acquire → Owns i r')
    → IsSound i r' (record p { phase = wrote mode res })
written-IsSound s mode res r' free h = record {
  numbered = s.numbered;
  wanted = s.wanted;
  kept = s.kept;
  awaited = s.awaited;
  released = s.released;
  holds = free;
  fresh = λ val ts e. absurd (cc);
  releases = λ val ts e. absurd (cc);
  acquires = λ val ts e. absurd (cc);
  acquired = λ e. h (cc);
}

-- What a phase with a write is about.
phase_value : Phase → Bytes
phase_value (writing mode val ts) = val
phase_value other = []

phase_timestamp : Phase → ℕ
phase_timestamp (writing mode val ts) = ts
phase_timestamp other = 0

-- The locker after the tests of a round, and the write that it asks for.
abbrev after_check : Party → ClientLocker × Option (Mode × Bytes × ℕ) → Party
after_check p out = record p { locker = out.0; phase = phase_after out.1 }

releasing-IsSound :
    {i : ℕ} {r : Register} {p : Party}
    → IsSound i r p
    → (val : Bytes) (ts : ℕ) → Owns i r
    → p.locker.want_lock ≡ false
    → IsSound i r (after_check p (record (p.locker) { have_lock = true }, some (release, val, ts)))
unfolding phase_after
releasing-IsSound s val ts o unwanted = record {
  numbered = s.numbered;
  wanted = s.wanted;
  kept = s.kept;
  awaited = s.awaited;
  released = s.released;
  holds = s.holds;
  fresh = λ v t e. absurd (cc);
  releases = λ v t e. (o, λ h. absurd (cc (s.kept h)));
  acquires = λ v t e. absurd (cc);
  acquired = λ e. absurd (cc);
}

acquiring-IsSound :
    {i : ℕ} {r : Register} {p : Party}
    → i < 2 ^ 63
    → IsSound i r p
    → (ts : ℕ) → ts % 2 ≡ 0
    → IsSound i r (after_check p (p.locker, some (acquire, itoa p.locker.id, increment ts)))
unfolding phase_after increment phase_value phase_timestamp
acquiring-IsSound {i} {r} {p} small s ts even = record {
  numbered = s.numbered;
  wanted = s.wanted;
  kept = s.kept;
  awaited = s.awaited;
  released = s.released;
  holds = s.holds;
  fresh = λ v t e. absurd (cc);
  releases = λ v t e. absurd (cc);
  acquires = λ v t e. (
    subst (λ x. node_of x ≡ i) (ap phase_value e)
        (subst (λ x. node_of (itoa x) ≡ i) (sym s.numbered) (node_of-itoa i small)),
    subst (λ x. x % 2 ≡ 1) (ap phase_timestamp e) (omega arith),
  );
  acquired = λ e. absurd (cc);
}

resting-IsSound :
    {i : ℕ} {r : Register} {p : Party} → IsSound i r p → IsSound i r (record p { phase = watching })
resting-IsSound s = record {
  numbered = s.numbered;
  wanted = s.wanted;
  kept = s.kept;
  awaited = s.awaited;
  released = s.released;
  holds = s.holds;
  fresh = λ v t e. absurd (cc);
  releases = λ v t e. absurd (cc);
  acquires = λ v t e. absurd (cc);
  acquired = λ e. absurd (cc);
}

checked-IsSound :
    {i : ℕ} {r : Register} {p : Party}
    → i < 2 ^ 63
    → IsSound i r p
    → (val : Bytes) (ts : ℕ) → p.phase ≡ has_read val ts
    → IsSound i r (after_check p (check val ts p.locker))
unfolding check phase_after
checked-IsSound {i} {r} {p} small s val ts e =
    elim (Bool-cases (ts % 2 == 1 && (node_of val == p.locker.id && not p.locker.want_lock))) [
      | inl go ↦ rw go (
          releasing-IsSound s val (increment ts)
            (s.fresh val ts e (ground arith) (ground (arith, s.numbered))) (ground arith))
      | inr no_release ↦ rw no_release (elim (Bool-cases (ts % 2 == 0 && p.locker.want_lock)) [
        | inl go ↦ rw go (acquiring-IsSound small s ts (ground arith))
        | inr stay ↦ rw (stay, phase_after) (resting-IsSound s)
      ])
    ]

freed-IsSound :
    {i : ℕ} {r : Register} {p : Party}
    → IsSound i r p
    → (b : Bool) → p.locker.unlock_waits ≡ b
    → IsSound i r (record p {
      locker = record (p.locker) { have_lock = false; unlock_waits = false };
      call = return_from release b p.call;
      phase = watching;
    })
unfolding return_from
freed-IsSound s false w = record {
  numbered = s.numbered;
  wanted = s.wanted;
  kept = s.kept;
  awaited = s.awaited;
  released = λ h. absurd (cc);
  holds = s.holds;
  fresh = λ v t e. absurd (cc);
  releases = λ v t e. absurd (cc);
  acquires = λ v t e. absurd (cc);
  acquired = λ e. absurd (cc);
}
freed-IsSound s true w = record {
  numbered = s.numbered;
  wanted = λ h. absurd (cc);
  kept = λ h. absurd (cc);
  awaited = λ h. absurd (cc (s.awaited h, s.released w));
  released = λ h. absurd (cc);
  holds = λ h. absurd (cc);
  fresh = λ v t e. absurd (cc);
  releases = λ v t e. absurd (cc);
  acquires = λ v t e. absurd (cc);
  acquired = λ e. absurd (cc);
}

granted-IsSound :
    {i : ℕ} {r : Register} {p : Party}
    → IsSound i r p
    → Owns i r
    → (b : Bool) → p.locker.lock_waits ≡ b
    → IsSound i r (record p {
      locker = record (p.locker) { have_lock = true; lock_waits = false };
      call = return_from acquire b p.call;
      phase = watching;
    })
unfolding return_from
granted-IsSound s o false w = record {
  numbered = s.numbered;
  wanted = s.wanted;
  kept = s.kept;
  awaited = λ h. absurd (cc);
  released = s.released;
  holds = s.holds;
  fresh = λ v t e. absurd (cc);
  releases = λ v t e. absurd (cc);
  acquires = λ v t e. absurd (cc);
  acquired = λ e. absurd (cc);
}
granted-IsSound s o true w = record {
  numbered = s.numbered;
  wanted = λ h. absurd (cc);
  kept = λ h. s.wanted (s.awaited w);
  awaited = λ h. absurd (cc);
  released = λ h. absurd (cc (s.awaited w, s.released h));
  holds = λ h. o;
  fresh = λ v t e. absurd (cc);
  releases = λ v t e. absurd (cc);
  acquires = λ v t e. absurd (cc);
  acquired = λ e. absurd (cc);
}

answered-IsSound :
    {i : ℕ} {r : Register} {p : Party}
    → IsSound i r p
    → (mode : Mode) (res : PutResponse) → p.phase ≡ wrote mode res
    → IsSound i r (record p {
      locker = (answer mode res p.locker).0;
      call = return_from mode (answer mode res p.locker).1 p.call;
      phase = watching;
    })
unfolding answer return_from
answered-IsSound {p = p} s release success e = freed-IsSound s p.locker.unlock_waits refl
answered-IsSound {p = p} s acquire success e =
    granted-IsSound s (s.acquired e) p.locker.lock_waits refl
answered-IsSound s release error e = resting-IsSound s
answered-IsSound s release unknown e = resting-IsSound s
answered-IsSound s acquire error e = resting-IsSound s
answered-IsSound s acquire unknown e = resting-IsSound s

Move-IsSound :
    {i : ℕ} {r r' : Register} {p p' : Party}
    → i < 2 ^ 63
    → IsSound i r p
    → Move r p r' p'
    → IsSound i r' p'
Move-IsSound small s (call_lock a b c) = IsSound-moved b c (locked-IsSound s a)
Move-IsSound small s (call_unlock a b c) = IsSound-moved b c (unlocked-IsSound s a)
Move-IsSound small s (reads a b c) = IsSound-moved b c (read-IsSound s)
Move-IsSound small s (checks val ts a b c) = IsSound-moved b c (checked-IsSound small s val ts a)
Move-IsSound small s (fails mode val ts res a b c d) =
    IsSound-moved c d (failed-IsSound s mode res (λ x y. absurd (b y)))
Move-IsSound {r} small s (writes release val ts res a b c d) =
    let r2 : Register = record { value = val; timestamp = ts } in
    IsSound-moved c d (
      written-IsSound s release res r2 (λ h. absurd ((s.releases val ts a).1 h)) (λ e. absurd (cc)))
Move-IsSound {r} small s (writes acquire val ts res a b c d) =
    let r2 : Register = record { value = val; timestamp = ts } in
    let o = s.acquires val ts a in
    let owned : Owns _ r2 = record { odd = o.1; named = o.0 } in
    IsSound-moved c d (written-IsSound s acquire res r2 (λ h. owned) (λ e. owned))
Move-IsSound small s (answers mode res a b c) = IsSound-moved b c (answered-IsSound s mode res a)

-- Every party is sound.
abbrev pub Inv : System → Type 0
Inv s = (j : ℕ) → IsSound j s.register (s.party j)

pub Step-Inv : {s t : System} → Step s t → Inv s → Inv t
unfolding set_party
Step-Inv {s} {t} (moves i small m e) inv j = elim (Bool-cases (i == j)) [
  | inl same ↦
      subst (λ k. IsSound k t.register (t.party k)) ((==_iff i j).0 same)
        (Move-IsSound small (inv i) m)
  | inr other ↦
      let stays : t.party j ≡ s.party j = ap (λ f. f j) e ∙ ground (arith, other) in
      IsSound-moved refl stays (elim (Move-register (inv i) m (ground (arith, other))) [
        | inl kept ↦ IsSound-moved kept refl (inv j)
        | inr free ↦ IsSound-other t.register (inv j) free
      ])
]

pub start-Inv : Inv start
unfolding new_locker
start-Inv j = record {
  numbered = refl;
  wanted = λ h. absurd (cc);
  kept = λ h. absurd (cc);
  awaited = λ h. absurd (cc);
  released = λ h. absurd (cc);
  holds = λ h. absurd (cc);
  fresh = λ v t e. absurd (cc);
  releases = λ v t e. absurd (cc);
  acquires = λ v t e. absurd (cc);
  acquired = λ e. absurd (cc);
}

pub Reach-Inv : {s t : System} → Inv s → Reach s t → Inv t
Reach-Inv h here = h
Reach-Inv h (next r st) = Step-Inv st (Reach-Inv h r)

-- However the steps of the programs and their daemons interleave, and whichever strong writes fail or
-- take effect without being reported as a success, no two programs hold the lock at once.
pub mutual_exclusion :
    (t : System) (i j : ℕ)
    → Reach start t
    → (t.party i).call ≡ holding
    → (t.party j).call ≡ holding
    → i ≡ j
mutual_exclusion t i j r a b =
    let inv = Reach-Inv start-Inv r in sym ((inv i).holds a).named ∙ ((inv j).holds b).named
