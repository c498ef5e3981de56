-- ===== src/Datastore/Persistent/Termination.antt =====
-- datastore/persistent.go: the loops of `Get` and `Put` end on any page.
use part_ii_project.Base.{
  leb, if◌then◌else◌, Bool-cases, length, take, drop, length-take, Bytes, bytes_equal, ◌>>=◌,
  >>=-cong, Outcome, out_of_fuel, ok, fault, ℕ, zero, suc, ◌+◌, ◌-◌, ◌≤◌, ◌≡◌, refl, sym, ap, ◌∙◌,
  ◌≢◌, inl, inr, Bool, true, false, ◌&&◌, ◌||◌, not, [], ◌∷◌, arith,
}
use part_ii_project.Datastore.Persistent.{
  Io, slice, find_loop, slice_from, field_end, copy_loop, write, value_record,
}

-- A slice is as long as its bounds say, and a bound after its start is in the slice.
length-drop : (n : ℕ) (bs : Bytes) → length (drop n bs) ≡ length bs - n
length-drop zero bs = omega arith
length-drop (suc n) [] = omega arith
length-drop (suc n) (b ∷ bs) = omega (arith, length-drop n bs)

slice_bounds :
    (lo hi : ℕ) (bs r : Bytes)
    → slice lo hi bs ≡ ok r
    → (lo ≤ hi) × (hi ≤ length bs) × (length r ≡ hi - lo)
unfolding slice
slice_bounds lo hi bs r e = elim (Bool-cases (leb lo hi && leb hi (length bs))) [
  | inl good ↦
      let same : take (hi - lo) (drop lo bs) ≡ r = ground (arith, e, good) in
      let a : lo ≤ hi = ground (arith, good) in
      let b : hi ≤ length bs = ground (arith, good) in
      (
        a,
        b,
        ap length (sym same)
            ∙ length-take (hi - lo) (drop lo bs) (omega (arith, length-drop lo bs)),
      )
  | inr bad ↦ absurd (ground (arith, e, bad))
]

slice_from-length : (lo : ℕ) (bs r : Bytes) → slice_from lo bs ≡ ok r → length r ≡ length bs - lo
unfolding slice_from
slice_from-length lo bs r e = (slice_bounds lo (length bs) bs r e).2

find_loop-fuel :
    (f g : ℕ) (key bs : Bytes)
    → length bs ≤ f
    → length bs ≤ g
    → find_loop f key bs ≡ find_loop g key bs
unfolding find_loop
find_loop-fuel zero zero key bs hf hg = refl
find_loop-fuel (suc f) zero key [] hf hg = refl
find_loop-fuel zero (suc g) key [] hf hg = refl
find_loop-fuel (suc f) (suc g) key [] hf hg = refl
find_loop-fuel (suc f) zero key (b ∷ bs) hf hg = absurd (omega arith)
find_loop-fuel zero (suc g) key (b ∷ bs) hf hg = absurd (omega arith)
find_loop-fuel (suc f) (suc g) key (b ∷ bs) hf hg = >>=-cong (field_end (b ∷ bs)) (λ e he.
    >>=-cong (slice 4 e (b ∷ bs)) (λ k hk. >>=-cong (slice_from e (b ∷ bs)) (λ page hp.
      >>=-cong (field_end page) (λ d hd.
        let n = slice_bounds 4 e (b ∷ bs) k hk in
        let m = slice_from-length e (b ∷ bs) page hp in
        elim (Bool-cases (bytes_equal k key)) [
          | inl same ↦ rw same refl
          | inr other ↦ rw other (
              >>=-cong (slice_from d page) (λ rest hr.
                let o = slice_from-length d page rest hr in
                find_loop-fuel f g key rest (omega arith) (omega arith)))
        ]))))

copy_loop-fuel :
    (f g : ℕ) (io : Io) (key val : Bytes) (i : ℕ) (out : Bytes) (written : Bool) (bs : Bytes)
    → length bs ≤ f
    → length bs ≤ g
    → copy_loop f io key val i out written bs ≡ copy_loop g io key val i out written bs
unfolding copy_loop
copy_loop-fuel zero zero io key val i out written bs hf hg = refl
copy_loop-fuel (suc f) zero io key val i out written [] hf hg = refl
copy_loop-fuel zero (suc g) io key val i out written [] hf hg = refl
copy_loop-fuel (suc f) (suc g) io key val i out written [] hf hg = refl
copy_loop-fuel (suc f) zero io key val i out written (b ∷ bs) hf hg = absurd (omega arith)
copy_loop-fuel zero (suc g) io key val i out written (b ∷ bs) hf hg = absurd (omega arith)
copy_loop-fuel (suc f) (suc g) io key val i out written (b ∷ bs) hf hg =
    >>=-cong (field_end (b ∷ bs)) (λ e he. >>=-cong (slice 4 e (b ∷ bs)) (λ k hk.
      >>=-cong (slice 0 e (b ∷ bs)) (λ head hh. elim (Bool-cases (write io i out head).1) [
        | inr failed ↦ rw failed refl
        | inl good ↦ rw good (
            >>=-cong (slice_from e (b ∷ bs)) (λ page hp. >>=-cong (field_end page) (λ d hd.
              >>=-cong (if bytes_equal k key then ok (value_record val) else slice 0 d page)
                (λ new hn.
                  let w2 = write io (i + 1) (write io i out head).0 new in
                  elim (Bool-cases (bytes_equal k key && not w2.1)) [
                    | inl stop ↦ rw stop refl
                    | inr go ↦ rw go (
                        >>=-cong (slice_from d page) (λ rest hr.
                          let n = slice_bounds 4 e (b ∷ bs) k hk in
                          let m = slice_from-length e (b ∷ bs) page hp in
                          let o = slice_from-length d page rest hr in
                          copy_loop-fuel f g io key val (i + 2) w2.0 (written || bytes_equal k key)
                            rest (omega arith) (omega arith)))
                  ]))))
      ])))

-- The run is not cut short for lack of fuel: it ends with a value, or with a fault of the code.
abbrev pub Ends {ℓ} : {A : Type ℓ} → Outcome A → Type ℓ
Ends {A = A} m = m ≢ fault out_of_fuel

>>=-Ends :
    {A B : Type 0} (m : Outcome A) {f : A → Outcome B}
    → Ends m
    → ((a : A) → m ≡ ok a → Ends (f a))
    → Ends (m >>= f)
>>=-Ends (ok a) e h = h a refl
>>=-Ends (fault why) e h = λ same. e (ap fault (cc))

slice-Ends : (lo hi : ℕ) (bs : Bytes) → Ends (slice lo hi bs)
unfolding slice
slice-Ends lo hi bs = λ e. absurd (ground (arith, e))

slice_from-Ends : (lo : ℕ) (bs : Bytes) → Ends (slice_from lo bs)
unfolding slice_from
slice_from-Ends lo bs = slice-Ends lo (length bs) bs

field_end-Ends : (bs : Bytes) → Ends (field_end bs)
unfolding field_end
field_end-Ends bs = >>=-Ends (slice 0 4 bs) (slice-Ends 0 4 bs) (λ head e. λ f. absurd (cc))

find_loop-Ends : (fuel : ℕ) (key bs : Bytes) → length bs ≤ fuel → Ends (find_loop fuel key bs)
unfolding find_loop
find_loop-Ends zero key [] h = λ e. absurd (cc)
find_loop-Ends (suc fuel) key [] h = λ e. absurd (cc)
find_loop-Ends zero key (b ∷ bs) h = absurd (omega arith)
find_loop-Ends (suc fuel) key (b ∷ bs) h =
    >>=-Ends (field_end (b ∷ bs)) (field_end-Ends (b ∷ bs)) (λ e he.
      >>=-Ends (slice 4 e (b ∷ bs)) (slice-Ends 4 e (b ∷ bs)) (λ k hk.
        >>=-Ends (slice_from e (b ∷ bs)) (slice_from-Ends e (b ∷ bs)) (λ page hp.
          >>=-Ends (field_end page) (field_end-Ends page) (λ d hd.
            let n = slice_bounds 4 e (b ∷ bs) k hk in
            let m = slice_from-length e (b ∷ bs) page hp in
            elim (Bool-cases (bytes_equal k key)) [
              | inl same ↦ rw same (slice-Ends 4 d page)
              | inr other ↦ rw other (
                  >>=-Ends (slice_from d page) (slice_from-Ends d page) (λ rest hr.
                    let o = slice_from-length d page rest hr in
                    find_loop-Ends fuel key rest (omega arith)))
            ]))))

new_value-Ends :
    (found : Bool) (val : Bytes) (d : ℕ) (page : Bytes)
    → Ends (if found then ok (value_record val) else slice 0 d page)
new_value-Ends true val d page = λ e. absurd (cc)
new_value-Ends false val d page = slice-Ends 0 d page

copy_loop-Ends :
    (fuel : ℕ) (io : Io) (key val : Bytes) (i : ℕ) (out : Bytes) (written : Bool) (bs : Bytes)
    → length bs ≤ fuel
    → Ends (copy_loop fuel io key val i out written bs)
unfolding copy_loop
copy_loop-Ends zero io key val i out written [] h = λ e. absurd (cc)
copy_loop-Ends (suc fuel) io key val i out written [] h = λ e. absurd (cc)
copy_loop-Ends zero io key val i out written (b ∷ bs) h = absurd (omega arith)
copy_loop-Ends (suc fuel) io key val i out written (b ∷ bs) h =
    >>=-Ends (field_end (b ∷ bs)) (field_end-Ends (b ∷ bs)) (λ e he.
      >>=-Ends (slice 4 e (b ∷ bs)) (slice-Ends 4 e (b ∷ bs)) (λ k hk.
        >>=-Ends (slice 0 e (b ∷ bs)) (slice-Ends 0 e (b ∷ bs)) (λ head hh.
          elim (Bool-cases (write io i out head).1) [
            | inr failed ↦ rw failed (λ x. absurd (cc))
            | inl good ↦ rw good (
                >>=-Ends (slice_from e (b ∷ bs)) (slice_from-Ends e (b ∷ bs)) (λ page hp.
                  >>=-Ends (field_end page) (field_end-Ends page) (λ d hd.
                    >>=-Ends (if bytes_equal k key then ok (value_record val) else slice 0 d page)
                      (new_value-Ends (bytes_equal k key) val d page)
                      (λ new hn.
                        let w2 = write io (i + 1) (write io i out head).0 new in
                        elim (Bool-cases (bytes_equal k key && not w2.1)) [
                          | inl stop ↦ rw stop (λ x. absurd (cc))
                          | inr go ↦ rw go (
                              >>=-Ends (slice_from d page) (slice_from-Ends d page) (λ rest hr.
                                let n = slice_bounds 4 e (b ∷ bs) k hk in
                                let m = slice_from-length e (b ∷ bs) page hp in
                                let o = slice_from-length d page rest hr in
                                copy_loop-Ends fuel io key val (i + 2) w2.0
                                  (written || bytes_equal k key) rest (omega arith)))
                        ]))))
          ])))

-- The loops of `Get` and `Put` end on any page, within as many rounds as the page has bytes, with a result
-- or a fault of the code: they do not run out of fuel, and with more of it the result is the same, also
-- where the page is no sequence of records, and whatever the operating system refuses.
pub page_loops-end :
    (f g : ℕ) (io : Io) (key val : Bytes) (i : ℕ) (out : Bytes) (written : Bool) (bs : Bytes)
    → length bs ≤ f
    → length bs ≤ g
    → Ends (find_loop f key bs)
      × Ends (copy_loop f io key val i out written bs)
      × (find_loop f key bs ≡ find_loop g key bs)
      × (copy_loop f io key val i out written bs ≡ copy_loop g io key val i out written bs)
page_loops-end f g io key val i out written bs hf hg = (
  find_loop-Ends f key bs hf,
  copy_loop-Ends f io key val i out written bs hf,
  find_loop-fuel f g key bs hf hg,
  copy_loop-fuel f g io key val i out written bs hf hg,
)
