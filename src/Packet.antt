-- ===== src/Packet.antt =====
-- net/packet/message.go: the messages of the simulated network.
pub mod Names
use part_ii_project.Base.{
  ◌==◌, ==_iff, and_iff, Key, Bytes, bytes_equal, bytes_equal_iff, ℕ, zero, suc, ◌≡◌, refl, sym, ap,
  ◌∙◌, ◌↔◌, Bool, true, false, ◌&&◌, List, [], ◌∷◌,
}

-- The enum `Messagetype`; `unset` is its zero value, which no constant names.
pub data Messagetype : Type 0 where
  unset : Messagetype
  client_read_request : Messagetype
  client_write_request : Messagetype
  client_strong_write_request : Messagetype
  client_read_response : Messagetype
  client_write_response : Messagetype
  node_lock_request : Messagetype
  node_lock_request_no_timeout : Messagetype
  node_lock_response : Messagetype
  node_unlock_request : Messagetype
  node_unlock_ack : Messagetype
  node_get_request : Messagetype
  node_get_response : Messagetype
  node_put_request : Messagetype
  node_put_response : Messagetype
  node_timestamp_request : Messagetype
  node_background_write_request : Messagetype
  node_background_write_response : Messagetype
  internal_timer_signal : Messagetype
  internal_heartbeat : Messagetype
  internal_leader_query : Messagetype
  election_elect : Messagetype
  election_coordinator : Messagetype
  election_ack : Messagetype
  control_fail : Messagetype
  control_recover : Messagetype

-- The value that `iota` gives each constant.
unfoldable pub iota : Messagetype → ℕ
iota unset = 0
iota client_read_request = 1
iota client_write_request = 2
iota client_strong_write_request = 3
iota client_read_response = 4
iota client_write_response = 5
iota node_lock_request = 6
iota node_lock_request_no_timeout = 7
iota node_lock_response = 8
iota node_unlock_request = 9
iota node_unlock_ack = 10
iota node_get_request = 11
iota node_get_response = 12
iota node_put_request = 13
iota node_put_response = 14
iota node_timestamp_request = 15
iota node_background_write_request = 16
iota node_background_write_response = 17
iota internal_timer_signal = 18
iota internal_heartbeat = 19
iota internal_leader_query = 20
iota election_elect = 21
iota election_coordinator = 22
iota election_ack = 23
iota control_fail = 24
iota control_recover = 25

-- `==` on message types compares the underlying numbers.
unfoldable pub same_type : Messagetype → Messagetype → Bool
same_type a b = iota a == iota b

-- The constants in the order of `iota`.
abbrev constants : List Messagetype
constants =
    unset ∷ client_read_request ∷ client_write_request ∷ client_strong_write_request
    ∷ client_read_response ∷ client_write_response ∷ node_lock_request
    ∷ node_lock_request_no_timeout ∷ node_lock_response ∷ node_unlock_request ∷ node_unlock_ack
    ∷ node_get_request ∷ node_get_response ∷ node_put_request ∷ node_put_response
    ∷ node_timestamp_request ∷ node_background_write_request ∷ node_background_write_response
    ∷ internal_timer_signal ∷ internal_heartbeat ∷ internal_leader_query ∷ election_elect
    ∷ election_coordinator ∷ election_ack ∷ control_fail ∷ control_recover ∷ []

nth_type : List Messagetype → ℕ → Messagetype
nth_type [] i = unset
nth_type (t ∷ ts) zero = t
nth_type (t ∷ ts) (suc i) = nth_type ts i

iota-nth_type : (a : Messagetype) → nth_type constants (iota a) ≡ a
unfolding iota nth_type
iota-nth_type unset = refl
iota-nth_type client_read_request = refl
iota-nth_type client_write_request = refl
iota-nth_type client_strong_write_request = refl
iota-nth_type client_read_response = refl
iota-nth_type client_write_response = refl
iota-nth_type node_lock_request = refl
iota-nth_type node_lock_request_no_timeout = refl
iota-nth_type node_lock_response = refl
iota-nth_type node_unlock_request = refl
iota-nth_type node_unlock_ack = refl
iota-nth_type node_get_request = refl
iota-nth_type node_get_response = refl
iota-nth_type node_put_request = refl
iota-nth_type node_put_response = refl
iota-nth_type node_timestamp_request = refl
iota-nth_type node_background_write_request = refl
iota-nth_type node_background_write_response = refl
iota-nth_type internal_timer_signal = refl
iota-nth_type internal_heartbeat = refl
iota-nth_type internal_leader_query = refl
iota-nth_type election_elect = refl
iota-nth_type election_coordinator = refl
iota-nth_type election_ack = refl
iota-nth_type control_fail = refl
iota-nth_type control_recover = refl

pub same_type_iff : (a b : Messagetype) → (same_type a b ≡ true) ↔ (a ≡ b)
unfolding same_type
same_type_iff a b = (
  λ e. sym (iota-nth_type a) ∙ ap (nth_type constants) ((==_iff _ _).0 e) ∙ iota-nth_type b,
  λ e. (==_iff _ _).1 (ap iota e),
)

instance abbrev pub type_key : Key Messagetype
type_key = record { same = same_type; same_iff = same_type_iff }

-- `id` is the transaction, `src` and `dest` are addresses; `ok` is false if an error has occurred.
pub record Message : Type 0 where
  pub id : ℕ
  pub src : ℕ
  pub dest : ℕ
  pub demux_key : Messagetype
  pub key : Bytes
  pub value : Bytes
  pub timestamp : ℕ
  pub ok : Bool

-- `Message{}`
abbrev pub no_message : Message
no_message = record {
  id = 0;
  src = 0;
  dest = 0;
  demux_key = unset;
  key = [];
  value = [];
  timestamp = 0;
  ok = false;
}

unfoldable pub messages_equal : Message → Message → Bool
messages_equal m1 m2 =
    m1.id == m2.id
    && (m1.src == m2.src
        && (m1.dest == m2.dest
            && (same_type m1.demux_key m2.demux_key
                && (bytes_equal m1.key m2.key && bytes_equal m1.value m2.value))))

equal_but_clock :
    (m1 m2 : Message)
    → m1.id ≡ m2.id
    → m1.src ≡ m2.src
    → m1.dest ≡ m2.dest
    → m1.demux_key ≡ m2.demux_key
    → m1.key ≡ m2.key
    → m1.value ≡ m2.value
    → record m1 { timestamp = m2.timestamp; ok = m2.ok } ≡ m2
equal_but_clock m1 m2 a b c d e f = cc

-- `messages_equal` is equality of all fields but `timestamp` and `ok`.
pub messages_equal_iff :
    (m1 m2 : Message)
    → (messages_equal m1 m2 ≡ true) ↔ (record m1 { timestamp = m2.timestamp; ok = m2.ok } ≡ m2)
unfolding messages_equal
messages_equal_iff m1 m2 = (
  λ e.
      let (i, e1) = and_iff.0 e in
      let (s, e2) = and_iff.0 e1 in
      let (d, e3) = and_iff.0 e2 in
      let (t, e4) = and_iff.0 e3 in
      let (k, v) = and_iff.0 e4 in
      equal_but_clock m1 m2 ((==_iff m1.id m2.id).0 i) ((==_iff m1.src m2.src).0 s)
        ((==_iff m1.dest m2.dest).0 d) ((same_type_iff m1.demux_key m2.demux_key).0 t)
        ((bytes_equal_iff m1.key m2.key).0 k) ((bytes_equal_iff m1.value m2.value).0 v),
  λ e. and_iff.1 (
    (==_iff _ _).1 (ap (λ m. m.id) e),
    and_iff.1 (
      (==_iff _ _).1 (ap (λ m. m.src) e),
      and_iff.1 (
        (==_iff _ _).1 (ap (λ m. m.dest) e),
        and_iff.1 (
          (same_type_iff _ _).1 (ap (λ m. m.demux_key) e),
          and_iff.1 (
            (bytes_equal_iff _ _).1 (ap (λ m. m.key) e),
            (bytes_equal_iff _ _).1 (ap (λ m. m.value) e),
          ),
        ),
      ),
    ),
  ),
)
