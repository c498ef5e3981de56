-- ===== src/Datastore/Persistent/Failures.antt =====
-- datastore/persistent.go: what may fail, and pages that are no sequences of records.
use part_ii_project.Base.{
  if_holds, length, lookup, insert, lookup-insert, lookup-erase, Bytes, Returns-value, >>=-Returns,
  if-Returns, option-Returns, Outcome, Returns, ok, returned, ℕ, ◌≡◌, refl, subst, ◌∙◌, Bool, false,
  [], arith, bytes_key, nat_key,
}
use part_ii_project.Datastore.Persistent.{
  Io, Persistent, get, put, rollback, tx_name, advance_txid, write, new_record, page_name, put_new,
  put_page, copy_loop, tx_or_zero,
}
use part_ii_project.Datastore.Persistent.Laws.{page_name-ne-tx_name}

module _ (md5 : Bytes → Bytes) where
  -- The files of all pages are the same.
  abbrev pub SamePages : Persistent → Persistent → Type 0
  SamePages s t = (j : Bytes) → lookup (page_name md5 j) t.files ≡ lookup (page_name md5 j) s.files

  inserted-SamePages :
      (s : Persistent) (id txid : ℕ) (page : Bytes)
      → SamePages s (record s { txid = txid; files = insert (tx_name id) page s.files })
  inserted-SamePages s id txid page j = ground (
    arith,
    lookup-insert (tx_name id) (page_name md5 j) page s.files,
    page_name-ne-tx_name md5 j id,
  )

  -- The state of a put changes no page.
  abbrev Keeps : Persistent → Persistent × ℕ → Type 0
  Keeps s r = SamePages s r.0

  put_new-Keeps :
      (io : Io) (s : Persistent) (txid : ℕ) (key val : Bytes)
      → Keeps s (put_new md5 io (record s { txid = txid }) key val)
  unfolding put_new
  put_new-Keeps io s txid key val =
      if_holds (Keeps s) io.create_error (λ j. refl)
        (inserted-SamePages s txid txid (write io 0 [] (new_record key val)).0)

  put_page-Keeps :
      (io : Io) (s : Persistent) (txid : ℕ) (key val page : Bytes)
      → Returns (Keeps s) (put_page md5 io (record s { txid = txid }) key val page)
  unfolding put_page
  put_page-Keeps io s txid key val page =
      if-Returns io.create_error (λ e. returned (λ j. refl))
        (λ e.
          let run = copy_loop (length page) io key val 0 [] false page in
          let next : Bytes × Bool → Outcome (Persistent × ℕ) = λ w. ok (
            record s { txid = txid; files = insert (tx_name txid) w.0 s.files },
            tx_or_zero txid w.1,
          ) in
          >>=-Returns {B = Bytes × Bool} {m = run} {f = next}
            (λ w h. returned (inserted-SamePages s txid txid w.0)))

  put-Keeps :
      (io : Io) (s : Persistent) (key val : Bytes) → Returns (Keeps s) (put md5 io s key val)
  unfolding put
  put-Keeps io s key val =
      if-Returns io.read_error (λ e. returned (λ j. refl))
        (λ e.
          option-Returns (lookup (page_name md5 key) s.files)
            (λ h. returned (put_new-Keeps io s (advance_txid s.txid) key val))
            (λ page h. put_page-Keeps io s (advance_txid s.txid) key val page))

  rollback_pages : (io : Io) (s : Persistent) (id : ℕ) → SamePages s (rollback io s id)
  unfolding rollback
  rollback_pages io s id j =
      ground
        (arith, lookup-erase (tx_name id) (page_name md5 j) s.files, page_name-ne-tx_name md5 j id)

  get-SamePages :
      (io : Io) (s t : Persistent) (j : Bytes) → SamePages s t → get md5 io t j ≡ get md5 io s j
  unfolding get
  get-SamePages io s t j h = rw (h j, get) refl

  -- Whatever the operating system refuses during a put, and whatever the pages hold: if the put ends,
  -- then every read is as before, and so it is after a rollback of any transaction.
  pub put_invisible :
      (io then_io : Io) (s t : Persistent) (key val j : Bytes) (id other : ℕ)
      → put md5 io s key val ≡ ok (t, id)
      → (get md5 then_io t j ≡ get md5 then_io s j)
        × (get md5 then_io (rollback then_io t other) j ≡ get md5 then_io s j)
  put_invisible io then_io s t key val j id other e =
      let kept : Keeps s (t, id) =
        Returns-value (subst (Returns (Keeps s)) e (put-Keeps io s key val)) in
      (
        get-SamePages then_io s t j kept,
        get-SamePages then_io t (rollback then_io t other) j (rollback_pages then_io t other)
            ∙ get-SamePages then_io s t j kept,
      )
