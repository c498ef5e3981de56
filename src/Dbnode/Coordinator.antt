-- ===== src/Dbnode/Coordinator.antt =====
-- dbnode/coordinator.go: a stored value is a 64-bit Lamport timestamp followed by the value.
use part_ii_project.Base.{
  ltb, ◌==◌, if◌then◌else◌, length, take, drop, Bytes, put_uint64, uint64, uint64-put_uint64,
  Outcome, log_fatal, ok, fault, ℕ, ◌^◌, ◌<◌, ◌≡◌, [], ◌++◌, arith,
}

unfoldable pub decode_timestamp_val : Bytes → Outcome (ℕ × Bytes)
decode_timestamp_val encoded =
    if length encoded == 0
    then ok (0, [])
    else if ltb (length encoded) 8
    then fault log_fatal
    else ok (uint64 (take 8 encoded), drop 8 encoded)

unfoldable pub encode_timestamp_val : ℕ → Bytes → Bytes
encode_timestamp_val timestamp value = put_uint64 timestamp ++ value

-- A stored value reads back as the timestamp and value that were written.
pub decode-encode :
    (t : ℕ) (v : Bytes) → t < 2 ^ 64 → decode_timestamp_val (encode_timestamp_val t v) ≡ ok (t, v)
unfolding decode_timestamp_val encode_timestamp_val put_uint64
decode-encode t v h = rw (uint64-put_uint64 t h) (ground arith)
