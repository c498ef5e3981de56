-- ===== src/Locker/Deadlock.antt =====
-- net/locker.go: a strong write for the lock that took effect, and whose success the client did not
-- see, as after lost answers.
use part_ii_project.Base.{
  ◌==◌, ==_iff, Bool-cases, Bytes, ℕ, ◌%◌, ◌≡◌, refl, sym, ap, subst, ◌∙◌, ◌≢◌, inl, inr, true,
  arith,
}
use part_ii_project.Client.{PutResponse, success, error, unknown}
use part_ii_project.Locker.{Mode, check, answer, release, acquire}
use part_ii_project.Locker.System.{
  Register, Party, Move, locking, watching, has_read, call_lock, call_unlock, reads, checks, fails,
  writes, answers, phase_after, return_from, set_party, start, Phase, System, Step, Reach, holding,
  writing, wrote, moves, here, next,
}
use part_ii_project.Locker.Exclusion.{Owns, Inv, start-Inv, Reach-Inv, Move-register}

-- A phase from which the daemon asks for no write while the party wants a lock that it owns.
abbrev Rests : Phase → Type 0
Rests watching = Unit {0}
Rests (has_read val ts) = ts % 2 ≡ 1
Rests (writing mode val ts) = ⊥
Rests (wrote release res) = ⊥
Rests (wrote acquire res) = res ≢ success

-- A party that waits in `Lock` while the register names it.
record IsStuck (i : ℕ) (r : Register) (p : Party) : Type 0 where
  owns : Owns i r
  waits : p.call ≡ locking
  wants : p.locker.want_lock ≡ true
  rests : Rests p.phase

IsStuck-moved :
    {i : ℕ} {r r' : Register} {p q : Party} → r' ≡ r → p ≡ q → IsStuck i r q → IsStuck i r' p
IsStuck-moved {i} {r} {r'} {p} {q} a b s =
    subst (λ x. IsStuck i x p) (sym a) (subst (IsStuck i r) (sym b) s)

resting :
    {i : ℕ} {r : Register} {p : Party} → IsStuck i r p → IsStuck i r (record p { phase = watching })
resting s = record { owns = s.owns; waits = s.waits; wants = s.wants; rests = tt }

-- A round that reads an odd timestamp asks for no write.
check-odd :
    (val : Bytes) (ts : ℕ) (p : Party)
    → ts % 2 ≡ 1
    → p.locker.want_lock ≡ true
    → record p { locker = (check val ts p.locker).0; phase = phase_after (check val ts p.locker).1 }
      ≡ record p { phase = watching }
unfolding check phase_after
check-odd val ts p odd want = ground (arith, want)

answer-IsStuck :
    {i : ℕ} {r : Register} {p : Party}
    → IsStuck i r p
    → (mode : Mode) (res : PutResponse) → Rests (wrote mode res)
    → IsStuck i r (record p {
      locker = (answer mode res p.locker).0;
      call = return_from mode (answer mode res p.locker).1 p.call;
      phase = watching;
    })
unfolding answer return_from
answer-IsStuck s release res h = elim h [ ]
answer-IsStuck s acquire success h = absurd (h refl)
answer-IsStuck s acquire error h = resting s
answer-IsStuck s acquire unknown h = resting s

Move-IsStuck :
    {i : ℕ} {r r' : Register} {p p' : Party} → IsStuck i r p → Move r p r' p' → IsStuck i r' p'
Move-IsStuck s (call_lock a b c) = absurd (cc (s.waits))
Move-IsStuck s (call_unlock a b c) = absurd (cc (s.waits))
Move-IsStuck {r = r} s (reads a b c) =
    IsStuck-moved b c
      (record { owns = s.owns; waits = s.waits; wants = s.wants; rests = s.owns.odd })
Move-IsStuck {p = p} s (checks val ts a b c) =
    IsStuck-moved b (c ∙ check-odd val ts p (subst Rests a s.rests) s.wants) (resting s)
Move-IsStuck s (fails mode val ts res a b c d) = absurd (subst Rests a s.rests)
Move-IsStuck s (writes mode val ts res a b c d) = absurd (subst Rests a s.rests)
Move-IsStuck s (answers mode res a b c) =
    IsStuck-moved b c (answer-IsStuck s mode res (subst Rests a s.rests))

Step-IsStuck :
    {s t : System} (i : ℕ)
    → Inv s
    → Step s t
    → IsStuck i s.register (s.party i)
    → IsStuck i t.register (t.party i)
unfolding set_party
Step-IsStuck {s} {t} i inv (moves j small m e) stuck = elim (Bool-cases (j == i)) [
  | inl same ↦
      let k : j ≡ i = (==_iff j i).0 same in
      subst (λ n. IsStuck n t.register (t.party n)) k
        (Move-IsStuck (subst (λ n. IsStuck n s.register (s.party n)) (sym k) stuck) m)
  | inr other ↦
      let stays : t.party i ≡ s.party i = ap (λ f. f i) e ∙ ground (arith, other) in
      elim (Move-register (inv j) m (ground (arith, other))) [
        | inl kept ↦ IsStuck-moved kept stays stuck
        | inr free ↦ absurd (free stuck.owns)
      ]
]

Reach-IsStuck :
    {s t : System} (i : ℕ)
    → Inv s
    → IsStuck i s.register (s.party i)
    → Reach s t
    → IsStuck i t.register (t.party i)
Reach-IsStuck i inv stuck here = stuck
Reach-IsStuck i inv stuck (next r st) =
    Step-IsStuck i (Reach-Inv inv r) st (Reach-IsStuck i inv stuck r)

other_call :
    (t : System) (i j : ℕ) → (t.party i).call ≡ locking → j ≡ i → ¬ ((t.party j).call ≡ holding)
other_call t i j a e b = cc (ap (λ k. (t.party k).call) e)

-- If a call of `Lock` is waiting, and the strong write of its daemon took effect but was reported as an
-- error or as unknown, then whatever steps follow, the call never returns and no program ever holds
-- the lock.
pub lock_lost :
    (s t : System) (i j : ℕ) (res : PutResponse)
    → Reach start s
    → (s.party i).call ≡ locking
    → (s.party i).phase ≡ wrote acquire res
    → res ≢ success
    → Owns i s.register
    → Reach s t
    → ((t.party i).call ≡ locking) × ((t.party j).call ≢ holding)
lock_lost s t i j res reached waits phase lost owns later =
    let inv = Reach-Inv start-Inv reached in
    let stuck : IsStuck i s.register (s.party i) = record {
      owns = owns;
      waits = waits;
      wants = (inv i).wanted waits;
      rests = subst Rests (sym phase) lost;
    } in
    let after = Reach-IsStuck i inv stuck later in
    let other = Reach-Inv inv later in
    (
      after.waits,
      λ h. other_call t i j after.waits (sym ((other j).holds h).named ∙ after.owns.named) h,
    )
