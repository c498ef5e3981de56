-- ===== src/Datastore/Persistent/Commits.antt =====
-- datastore/persistent.go: what a put and its commit do to the values that are read.
use part_ii_project.Base.{
  if◌then◌else◌, Bool-cases, Option-cases, lookup, Bytes, bytes_equal, bytes_equal_iff, ok, ℕ, ◌≡◌,
  refl, sym, ap, ◌∙◌, ◌≢◌, inl, inr, Bool, true, false, some, List, [], arith, bytes_key, nat_key,
}
use part_ii_project.Datastore.Persistent.{
  Persistent, get, put, commit, reliable, page_name, advance_txid,
}
use part_ii_project.Datastore.Persistent.Pages.{encode, Fits, AllFit, first_value}
use part_ii_project.Datastore.Persistent.Updates.{update, has_key, first_value-update}
use part_ii_project.Datastore.Persistent.Laws.{
  put_lem, HasRecords, AllFit-update, IsWf, get-page, none_first, committed, lookup-commit,
  advance_txid-ne-zero, with_page, lookup-put, commit_lem,
}

module _ (md5 : Bytes → Bytes) where
  get-IsWf :
      (s : Persistent) (j : Bytes)
      → IsWf md5 s
      → (old : Bytes) × (get md5 reliable s j ≡ ok (some old))
  get-IsWf s j wf = elim (Option-cases (lookup (page_name md5 j) s.files)) [
    | inl e ↦ (first_value j [], none_first md5 s j e)
    | inr (page, e) ↦
        let (rs, same, fit) = wf j page e in
        (first_value j rs, get-page md5 s j rs fit (e ∙ ap some same))
  ]

  get-cong :
      (s t : Persistent) (j : Bytes)
      → lookup (page_name md5 j) s.files ≡ lookup (page_name md5 j) t.files
      → get md5 reliable s j ≡ get md5 reliable t j
  unfolding get
  get-cong s t j e = rw (e, get) refl

  committed-IsWf :
      (s : Persistent) (key val : Bytes) (rs : List (Bytes × Bytes))
      → IsWf md5 s
      → AllFit rs
      → Fits key
      → Fits val
      → IsWf md5 (committed md5 s key (encode (update key val rs)))
  unfolding update
  committed-IsWf s key val rs wf fit fk fv j page e =
      let l = lookup-commit md5 s key (encode (update key val rs)) j in
      elim (Bool-cases (bytes_equal (page_name md5 key) (page_name md5 j))) [
        | inl same ↦ (
          update key val rs,
          ground (arith, l, e, same),
          AllFit-update key val (has_key key rs) rs fk fv fit,
        )
        | inr other ↦ wf j page (ground (arith, l, e, other))
      ]

  -- What the key `j` reads before a put of `key` and after its commit.
  pub record Rereads (key val j : Bytes) (s u : Persistent) : Type 0 where
    pub old : Bytes
    pub before : get md5 reliable s j ≡ ok (some old)
    pub after : get md5 reliable u j ≡ ok (some (if bytes_equal key j then val else old))

  other_key :
      (key j : Bytes)
      → bytes_equal (page_name md5 key) (page_name md5 j) ≡ false
      → bytes_equal key j ≡ false
  other_key key j other = elim (Bool-cases (bytes_equal key j)) [
    | inl same ↦ absurd (
        cc (
          other,
          (bytes_equal_iff (page_name md5 key) (page_name md5 j)).1
              (ap (page_name md5) ((bytes_equal_iff key j).0 same)),
        ))
    | inr e ↦ e
  ]

  committed-Rereads :
      (s : Persistent) (key val j : Bytes) (rs : List (Bytes × Bytes))
      → IsWf md5 s
      → HasRecords md5 s key rs
      → Fits key
      → Fits val
      → Rereads key val j s (committed md5 s key (encode (update key val rs)))
  unfolding update
  committed-Rereads s key val j rs wf h fk fv =
      let u = committed md5 s key (encode (update key val rs)) in
      let l = lookup-commit md5 s key (encode (update key val rs)) j in
      elim (Bool-cases (bytes_equal (page_name md5 key) (page_name md5 j))) [
        | inl same ↦ record {
          old = first_value j rs;
          before = h.read j (sym ((bytes_equal_iff _ _).0 same));
          after =
              get-page md5 u j (update key val rs)
                (AllFit-update key val (has_key key rs) rs fk fv h.fit) (ground (arith, l, same))
              ∙ ap (λ v. ok (some v)) (first_value-update key val j rs);
        }
        | inr other ↦
            let (old, e) = get-IsWf s j wf in
            record {
              old = old;
              before = e;
              after =
                  get-cong u s j (ground (arith, l, other))
                  ∙ e
                  ∙ ap (λ (b : Bool). ok (some (if b then val else old)))
                      (sym (other_key key j other));
            }
      ]

  -- A put and its commit, of a store whose pages are sequences of records, while the operating system
  -- refuses nothing: the transaction has a number that is not 0, no read shows the put, the commit
  -- succeeds, and then the key reads as the value, every other key as before, also one whose hash is
  -- the same, and the pages are sequences of records again.
  pub put_committed :
      (s : Persistent) (key val j : Bytes)
      → IsWf md5 s
      → Fits key
      → Fits val
      → (t : Persistent) × (u : Persistent) × (id : ℕ) × (put md5 reliable s key val ≡ ok (t, id))
        × (id ≢ 0)
        × (get md5 reliable t j ≡ get md5 reliable s j)
        × (commit md5 reliable t key id ≡ (u, true))
        × IsWf md5 u
        × Rereads key val j s u
  put_committed s key val j wf fk fv =
      let (rs, h, e) = put_lem md5 s key val wf in
      let page = encode (update key val rs) in
      (
        with_page md5 s page,
        committed md5 s key page,
        advance_txid s.txid,
        e,
        advance_txid-ne-zero s.txid,
        get-cong (with_page md5 s page) s j (lookup-put md5 s page j),
        commit_lem md5 s key page,
        committed-IsWf s key val rs wf h.fit fk fv,
        committed-Rereads s key val j rs wf h fk fv,
      )
