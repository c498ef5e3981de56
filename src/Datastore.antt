-- ===== src/Datastore.antt =====
-- datastore/store.go: the interface of a local key-value store, whose writes must be committed
-- before they can be read. Its clients take a `Store` and its laws as parameters; the module
-- Memstore (datastore/memory.go) implements both.
pub mod Memstore
pub mod Persistent
use part_ii_project.Base.{if◌then◌else◌, Bytes, bytes_equal, ℕ, ◌≡◌, ◌≢◌, Bool, true, Option, some}

-- The methods of a store of type `S`. `get` is `none` for an error, and `some []` for no value.
-- A transaction number is a 64-bit word. `DeleteStore` ends the use of a store and has no result.
pub record Store (S : Type 0) : Type 0 where
  pub get : S → Bytes → Option Bytes
  pub put : S → Bytes → Bytes → S × ℕ
  pub commit : S → Bytes → ℕ → S × Bool
  pub rollback : S → ℕ → S

-- What the interface promises. `pending s i` is the uncommitted write with number `i`.
pub record StoreLaws {S : Type 0} (st : Store S) : Type 0 where
  pub pending : S → ℕ → Option (Bytes × Bytes)
  pub get-put : (s : S) (k v j : Bytes) → st.get (st.put s k v).0 j ≡ st.get s j
  pub pending-put :
      (s : S) (k v : Bytes)
      → (st.put s k v).1 ≢ 0
      → pending (st.put s k v).0 (st.put s k v).1 ≡ some (k, v)
  pub get-commit :
      (s : S) (k v j : Bytes) (i : ℕ)
      → pending s i ≡ some (k, v)
      → (st.commit s k i).1 ≡ true
      → st.get (st.commit s k i).0 j ≡ (if bytes_equal k j then some v else st.get s j)
  pub get-rollback : (s : S) (i : ℕ) (j : Bytes) → st.get (st.rollback s i) j ≡ st.get s j
