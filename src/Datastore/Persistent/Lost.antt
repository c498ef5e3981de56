-- ===== src/Datastore/Persistent/Lost.antt =====
-- datastore/persistent.go: the error of a write that is not looked at.
use part_ii_project.Base.{
  if◌then◌else◌, Bool-cases, length, take, lookup, insert, lookup-insert, Bytes, bytes_equal,
  bytes_equal_iff, put_uint32, ◌>>=◌, >>=-cong, ok, ℕ, zero, suc, ◌+◌, ◌≤◌, ◌≡◌, refl, ap, ◌∙◌, inl,
  inr, Bool, true, false, ◌||◌, none, some, List, [], ◌∷◌, ◌++◌, arith, bytes_key, nat_key, nat_key,
}
use part_ii_project.Datastore.Persistent.{
  Io, reliable, write, value_record, finish_page, copy_loop, put, put_page, slice, slice_from,
  field_end, advance_txid, Persistent, page_name, tx_name,
}
use part_ii_project.Datastore.Persistent.Pages.{
  encode, Starts, Starts-record, AllFit, length-encode,
}
use part_ii_project.Datastore.Persistent.Termination.{page_loops-end}
use part_ii_project.Datastore.Persistent.Updates.{update, copy_loop-encode}

-- From the write with number `i` on nothing is refused.
abbrev WritesFrom : ℕ → Io → Type 0
WritesFrom i io = (j : ℕ) → i ≤ j → io.write_error j ≡ none

WritesFrom-write :
    (io : Io) (i : ℕ) (out bs : Bytes)
    → WritesFrom i io
    → write io i out bs ≡ write reliable i out bs
unfolding write
WritesFrom-write io i out bs h = rw (h i (omega arith), write) refl

written_in_full :
    (io : Io) (i : ℕ) (out b : Bytes) → io.write_error i ≡ none → (write io i out b).0 ≡ out ++ b
unfolding write
written_in_full io i out b e = rw (e, write) refl

-- What two writes add, the second of which may stop.
written_twice :
    (io : Io) (i : ℕ) (out a b : Bytes)
    → io.write_error i ≡ none
    → (write io (i + 1) (write io i out a).0 b).0 ≡ (write io (i + 1) (out ++ a) b).0
written_twice io i out a b e = ap (λ o. (write io (i + 1) o b).0) (written_in_full io i out a e)

written_short :
    (io : Io) (i n : ℕ) (out b : Bytes)
    → io.write_error i ≡ some n
    → (write io i out b).0 ≡ out ++ take n b
unfolding write
written_short io i n out b e = rw (e, write) refl

copy_loop-WritesFrom :
    (f : ℕ) (io : Io) (key val : Bytes) (i : ℕ) (out : Bytes) (written : Bool) (bs : Bytes)
    → WritesFrom i io
    → copy_loop f io key val i out written bs ≡ copy_loop f reliable key val i out written bs
unfolding copy_loop finish_page write
copy_loop-WritesFrom zero io key val i out true [] h = refl
copy_loop-WritesFrom zero io key val i out false [] h = ap ok (WritesFrom-write io i out _ h)
copy_loop-WritesFrom (suc f) io key val i out true [] h = refl
copy_loop-WritesFrom (suc f) io key val i out false [] h = ap ok (WritesFrom-write io i out _ h)
copy_loop-WritesFrom zero io key val i out written (b ∷ bs) h = refl
copy_loop-WritesFrom (suc f) io key val i out written (b ∷ bs) h =
    let next : (head new : Bytes) (found : Bool) (rest : Bytes)
        → copy_loop f io key val (i + 2) (write io (i + 1) (write io i out head).0 new).0
            (written || found) rest
          ≡ copy_loop f reliable key val (i + 2) ((out ++ head) ++ new) (written || found) rest =
      λ head new found rest.
        ap (λ o. copy_loop f io key val (i + 2) o (written || found) rest)
          (written_twice io i out head new (h i (omega arith))
            ∙ written_in_full io (i + 1) (out ++ head) new (h (i + 1) (omega arith)))
        ∙ copy_loop-WritesFrom f io key val (i + 2) ((out ++ head) ++ new) (written || found) rest
            (λ j le. h j (omega arith)) in
    >>=-cong (field_end (b ∷ bs)) (λ e he. >>=-cong (slice 4 e (b ∷ bs)) (λ k hk.
      >>=-cong (slice 0 e (b ∷ bs)) (λ head hh.
        rw (h i (omega arith), write)
          (>>=-cong (slice_from e (b ∷ bs)) (λ page hp. >>=-cong (field_end page) (λ d hd.
            >>=-cong (if bytes_equal k key then ok (value_record val) else slice 0 d page)
              (λ new hn.
                rw (h (i + 1) (omega arith), write)
                  (elim (Bool-cases (bytes_equal k key)) [
                    | inl found ↦ rw found (
                        >>=-cong (slice_from d page)
                          (λ rest hr. next head new (bytes_equal k key) rest))
                    | inr other ↦ rw other (
                        >>=-cong (slice_from d page)
                          (λ rest hr. next head new (bytes_equal k key) rest))
                  ]))))))))

-- The first write of a page is done, the second stops after `n` bytes, and the others are done.
pub record Stops (n : ℕ) (io : Io) : Type 0 where
  pub first : io.write_error 0 ≡ none
  pub second : io.write_error 1 ≡ some n
  pub others : WritesFrom 2 io

copy_loop-Stops :
    (fuel : ℕ) (io : Io) (n : ℕ) (key val k v rest bs : Bytes) (b : ℕ)
    → Starts k v rest (b ∷ bs)
    → Stops n io
    → bytes_equal k key ≡ false
    → copy_loop (suc fuel) io key val 0 [] false (b ∷ bs)
      ≡ copy_loop fuel io key val 2
          ((put_uint32 (length k) ++ k) ++ take n (value_record v))
          false
          rest
unfolding copy_loop write
copy_loop-Stops fuel io n key val k v rest bs b s w other =
    rw (s.key_end, ◌>>=◌)
      (rw (s.key_slice, ◌>>=◌)
        (rw (s.key_head, ◌>>=◌)
          (rw (w.first, write)
            (rw (s.key_rest, ◌>>=◌)
              (rw (s.value_end, ◌>>=◌)
                (rw other (
                  rw (s.value_head, ◌>>=◌)
                    (rw (s.value_rest, ◌>>=◌)
                      (ap (λ o. copy_loop fuel io key val 2 o (false || bytes_equal k key) rest)
                          (written_twice io 0 [] (put_uint32 (length k) ++ k) (value_record v)
                              w.first
                            ∙ written_short io 1 n (put_uint32 (length k) ++ k) (value_record v)
                                w.second)
                        ∙ ap
                            (λ x.
                              copy_loop fuel io key val 2
                                ((put_uint32 (length k) ++ k) ++ take n (value_record v)) x rest)
                            other)))))))))

copy_loop-lost :
    (io : Io) (n : ℕ) (key val k v : Bytes) (rs : List (Bytes × Bytes))
    → AllFit ((k, v) ∷ rs)
    → Stops n io
    → bytes_equal k key ≡ false
    → copy_loop (suc (length (encode ((k, v) ∷ rs)))) io key val 0 [] false (encode ((k, v) ∷ rs))
      ≡ ok (
        ((put_uint32 (length k) ++ k) ++ take n (value_record v)) ++ encode (update key val rs),
        true,
      )
unfolding encode put_uint32 update
copy_loop-lost io n key val k v rs fit w other =
    let fuel = length (encode ((k, v) ∷ rs)) in
    let out = (put_uint32 (length k) ++ k) ++ take n (value_record v) in
    copy_loop-Stops fuel io n key val k v (encode rs) _ _
      (Starts-record k v (encode rs) fit.0.0 fit.0.1) w other
    ∙ copy_loop-WritesFrom fuel io key val 2 out false (encode rs) w.others
    ∙ copy_loop-encode fuel key val 2 out false rs fit.1
        (omega (arith, length-encode k v rs fit.0.0 fit.0.1))

-- A put to a page whose first record is of another key, where the write of the value of that record stops
-- after `n` bytes and all else is done: it is reported as a success, and the page of its transaction has
-- these bytes in place of the value and its length.
pub lost_write :
    (md5 : Bytes → Bytes) (io : Io) (n : ℕ) (s : Persistent) (key val k v : Bytes)
    (rs : List (Bytes × Bytes))
    → AllFit ((k, v) ∷ rs)
    → Stops n io
    → bytes_equal k key ≡ false
    → io.read_error ≡ false
    → io.create_error ≡ false
    → lookup (page_name md5 key) s.files ≡ some (encode ((k, v) ∷ rs))
    → (t : Persistent) × (put md5 io s key val ≡ ok (t, advance_txid s.txid))
      × (lookup (tx_name (advance_txid s.txid)) t.files
          ≡ some (
              ((put_uint32 (length k) ++ k) ++ take n (value_record v))
              ++ encode (update key val rs)))
unfolding put put_page
lost_write md5 io n s key val k v rs fit w other reads creates there =
    let id = advance_txid s.txid in
    let page = encode ((k, v) ∷ rs) in
    let content =
      ((put_uint32 (length k) ++ k) ++ take n (value_record v)) ++ encode (update key val rs) in
    (
      record s { files = insert (tx_name id) content s.files; txid = id },
      rw reads (
          rw there (
            rw
              (
                (page_loops-end (length page) (suc (length page)) io key val 0 [] false page
                      (omega arith) (omega arith)).3
                    ∙ copy_loop-lost io n key val k v rs fit w other,
                ◌>>=◌,
              )
              (rw creates refl))),
      lookup-insert (tx_name id) (tx_name id) content s.files
          ∙ rw ((bytes_equal_iff (tx_name id) (tx_name id)).1 refl) refl,
    )
