-- ===== src/Tests/Files.antt =====
-- The store in files at concrete pages.
use part_ii_project.Base.{
  ◌==◌, if◌then◌else◌, take, lookup, insert, increment, Bytes, bytes_equal, put_uint32, ok, ℕ, ◌≡◌,
  refl, ◌≢◌, true, false, none, some, [], ◌∷◌, ◌++◌, arith, bytes_key, nat_key,
}
use part_ii_project.Datastore.Persistent.{
  Io, Persistent, get, put, commit, rollback, reliable, hex, tx_name, advance_txid, find_loop,
  write, value_record, new_record, page_name, put_new, copy_loop,
}
use part_ii_project.Datastore.Persistent.Laws.{IsWf}
use part_ii_project.Datastore.Persistent.Commits.{put_committed, Rereads}
use part_ii_project.Datastore.Persistent.Lost.{lost_write}
use part_ii_project.Datastore.Persistent.Pages.{encode}
use part_ii_project.Datastore.Persistent.Updates.{update}
use part_ii_project.Datastore.Persistent.Failures.{put_invisible}
use part_ii_project.Datastore.Persistent.Termination.{page_loops-end, Ends}

-- A hash under which all keys collide.
abbrev one_page : Bytes → Bytes
one_page key = 171 ∷ []

abbrev new_store : Persistent
new_store = record { files = []; txid = 0 }

empty-IsWf : IsWf one_page new_store
unfolding lookup
empty-IsWf k page e = absurd (cc)

put_committed_example :
    (t : Persistent) × (u : Persistent) × (id : ℕ) × (put one_page reliable new_store
        (1 ∷ [])
        (5 ∷ [])
      ≡ ok (t, id))
    × (id ≢ 0)
    × (get one_page reliable t (2 ∷ []) ≡ get one_page reliable new_store (2 ∷ []))
    × (commit one_page reliable t (1 ∷ []) id ≡ (u, true))
    × IsWf one_page u
    × Rereads one_page (1 ∷ []) (5 ∷ []) (2 ∷ []) new_store u
put_committed_example =
    put_committed one_page new_store (1 ∷ []) (5 ∷ []) (2 ∷ []) empty-IsWf (omega arith)
      (omega arith)

-- The first write of a put stops after three bytes.
abbrev full_disk : Io
full_disk = record reliable { write_error = λ i. some 3 }

abbrev partly_written : Persistent
partly_written = record { files = (tx_name 1, 0 ∷ 0 ∷ 0 ∷ []) ∷ []; txid = 1 }

put_invisible_example :
    (get one_page reliable partly_written (1 ∷ []) ≡ get one_page reliable new_store (1 ∷ []))
    × (get one_page reliable (rollback reliable partly_written 1) (1 ∷ [])
        ≡ get one_page reliable new_store (1 ∷ []))
unfolding put put_new write new_record value_record put_uint32 page_name hex advance_txid increment
    lookup insert
put_invisible_example =
    put_invisible one_page full_disk reliable new_store partly_written (1 ∷ []) (5 ∷ []) (1 ∷ []) 0
      1 refl

-- A page that is too short for its first record.
abbrev short_page : Bytes
short_page = 0 ∷ 0 ∷ 0 ∷ 7 ∷ 1 ∷ []

page_loops-end_example :
    Ends (find_loop 9 (1 ∷ []) short_page)
    × Ends (copy_loop 9 full_disk (1 ∷ []) (2 ∷ []) 0 [] false short_page)
    × (find_loop 9 (1 ∷ []) short_page ≡ find_loop 5 (1 ∷ []) short_page)
    × (copy_loop 9 full_disk (1 ∷ []) (2 ∷ []) 0 [] false short_page
        ≡ copy_loop 5 full_disk (1 ∷ []) (2 ∷ []) 0 [] false short_page)
page_loops-end_example =
    page_loops-end 9 5 full_disk (1 ∷ []) (2 ∷ []) 0 [] false short_page (omega arith) (omega arith)

-- The second write of a put stops after two bytes.
abbrev disk_error : Io
disk_error = record reliable { write_error = λ i. if i == 1 then some 2 else none }

-- A page with a key that has the hash of all keys.
abbrev other_key : Persistent
other_key = record {
  files = (page_name one_page (2 ∷ []), encode ((2 ∷ [], 9 ∷ []) ∷ [])) ∷ [];
  txid = 0;
}

lost_write_example :
    (t : Persistent) × (put one_page disk_error other_key (1 ∷ []) (5 ∷ []) ≡ ok (t, 1))
    × (lookup (tx_name 1) t.files
        ≡ some (
            ((put_uint32 1 ++ (2 ∷ [])) ++ take 2 (value_record (9 ∷ [])))
            ++ encode (update (1 ∷ []) (5 ∷ []) [])))
unfolding page_name hex lookup advance_txid increment bytes_equal
lost_write_example =
    lost_write one_page disk_error 2 other_key (1 ∷ []) (5 ∷ []) (2 ∷ []) (9 ∷ []) []
      ((omega arith, omega arith), tt)
      (record { first = refl; second = refl; others = λ j le. ground arith }) refl refl refl refl
