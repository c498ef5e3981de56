-- ===== src/Packet/Names.antt =====
-- net/packet/message.go: the names of message types, as `String` gives them for the logs.
use Prim.Native.String.{String}
use text.Mathlib.Text.{◌==◌}
use part_ii_project.Base.{
  if◌then◌else◌, Bool-cases, ◌≡◌, refl, sym, ap, ◌∙◌, ◌≢◌, ◌⊎◌, inl, inr, Bool, true, false, List,
  [], ◌∷◌,
}
use part_ii_project.Packet.{
  Messagetype, unset, client_read_request, client_write_request, client_strong_write_request,
  client_read_response, client_write_response, node_lock_request, node_lock_request_no_timeout,
  node_lock_response, node_unlock_request, node_unlock_ack, node_get_request, node_get_response,
  node_put_request, node_put_response, node_timestamp_request, node_background_write_request,
  node_background_write_response, internal_timer_signal, internal_heartbeat, internal_leader_query,
  election_elect, election_coordinator, election_ack, control_fail, control_recover,
}

-- `String`
unfoldable pub type_name : Messagetype → String
type_name client_read_request = "clientReadRequest"
type_name client_write_request = "clientWriteRequest"
type_name client_strong_write_request = "clientStrongWriteRequest"
type_name client_read_response = "clientReadResponse"
type_name client_write_response = "clientWriteResponse"
type_name node_lock_request = "nodeLockRequest"
type_name node_lock_request_no_timeout = "nodeLockRequestNoTimeout"
type_name node_lock_response = "nodeLockResponse"
type_name node_unlock_request = "nodeUnlockRequest"
type_name node_unlock_ack = "nodeUnlockAck"
type_name node_get_request = "nodeGetRequest"
type_name node_get_response = "nodeGetResponse"
type_name node_put_request = "nodePutRequest"
type_name node_put_response = "nodePutResponse"
type_name node_timestamp_request = "nodeTimestampRequest"
type_name election_elect = "electionElect"
type_name election_coordinator = "electionCoordinator"
type_name election_ack = "electionAck"
type_name internal_timer_signal = "internalTimerSignal"
type_name internal_heartbeat = "internalHeartbeat"
type_name _ = "UNKNOWN_MESSAGE_TYPE"

-- The types that have a name of their own.
unfoldable pub is_named : Messagetype → Bool
is_named unset = false
is_named node_background_write_request = false
is_named node_background_write_response = false
is_named internal_leader_query = false
is_named control_fail = false
is_named control_recover = false
is_named _ = true

-- The type that a name stands for.
type_called : String → List Messagetype → Messagetype
type_called s [] = unset
type_called s (t ∷ ts) = if type_name t == s then t else type_called s ts

abbrev named_types : List Messagetype
named_types =
    client_read_request ∷ client_write_request ∷ client_strong_write_request ∷ client_read_response
    ∷ client_write_response ∷ node_lock_request ∷ node_lock_request_no_timeout ∷ node_lock_response
    ∷ node_unlock_request ∷ node_unlock_ack ∷ node_get_request ∷ node_get_response
    ∷ node_put_request ∷ node_put_response ∷ node_timestamp_request ∷ election_elect
    ∷ election_coordinator ∷ election_ack ∷ internal_timer_signal ∷ internal_heartbeat ∷ []

type_called-type_name :
    (t : Messagetype) → is_named t ≡ true → type_called (type_name t) named_types ≡ t
unfolding type_called type_name is_named
type_called-type_name unset h = absurd (cc)
type_called-type_name client_read_request h = refl
type_called-type_name client_write_request h = refl
type_called-type_name client_strong_write_request h = refl
type_called-type_name client_read_response h = refl
type_called-type_name client_write_response h = refl
type_called-type_name node_lock_request h = refl
type_called-type_name node_lock_request_no_timeout h = refl
type_called-type_name node_lock_response h = refl
type_called-type_name node_unlock_request h = refl
type_called-type_name node_unlock_ack h = refl
type_called-type_name node_get_request h = refl
type_called-type_name node_get_response h = refl
type_called-type_name node_put_request h = refl
type_called-type_name node_put_response h = refl
type_called-type_name node_timestamp_request h = refl
type_called-type_name node_background_write_request h = absurd (cc)
type_called-type_name node_background_write_response h = absurd (cc)
type_called-type_name internal_timer_signal h = refl
type_called-type_name internal_heartbeat h = refl
type_called-type_name internal_leader_query h = absurd (cc)
type_called-type_name election_elect h = refl
type_called-type_name election_coordinator h = refl
type_called-type_name election_ack h = refl
type_called-type_name control_fail h = absurd (cc)
type_called-type_name control_recover h = absurd (cc)

unnamed : (t : Messagetype) → is_named t ≡ false → type_name t ≡ "UNKNOWN_MESSAGE_TYPE"
unfolding type_name is_named
unnamed unset h = refl
unnamed client_read_request h = absurd (cc)
unnamed client_write_request h = absurd (cc)
unnamed client_strong_write_request h = absurd (cc)
unnamed client_read_response h = absurd (cc)
unnamed client_write_response h = absurd (cc)
unnamed node_lock_request h = absurd (cc)
unnamed node_lock_request_no_timeout h = absurd (cc)
unnamed node_lock_response h = absurd (cc)
unnamed node_unlock_request h = absurd (cc)
unnamed node_unlock_ack h = absurd (cc)
unnamed node_get_request h = absurd (cc)
unnamed node_get_response h = absurd (cc)
unnamed node_put_request h = absurd (cc)
unnamed node_put_response h = absurd (cc)
unnamed node_timestamp_request h = absurd (cc)
unnamed node_background_write_request h = refl
unnamed node_background_write_response h = refl
unnamed internal_timer_signal h = absurd (cc)
unnamed internal_heartbeat h = absurd (cc)
unnamed internal_leader_query h = refl
unnamed election_elect h = absurd (cc)
unnamed election_coordinator h = absurd (cc)
unnamed election_ack h = absurd (cc)
unnamed control_fail h = refl
unnamed control_recover h = refl

called_unknown : type_called "UNKNOWN_MESSAGE_TYPE" named_types ≡ unset
unfolding type_called type_name
called_unknown = refl

unset-unnamed : is_named unset ≡ false
unfolding is_named
unset-unnamed = refl

apart : (a b : Messagetype) → is_named a ≡ true → is_named b ≡ false → type_name a ≢ type_name b
apart a b na nb e =
    let is_unset : a ≡ unset =
      sym (type_called-type_name a na)
      ∙ ap (λ s. type_called s named_types) (e ∙ unnamed b nb)
      ∙ called_unknown in
    cc (na, ap is_named is_unset, unset-unnamed)

-- The name of a type tells it from every other type, but for the zero value and five constants: these
-- have one name together, which is that of no other type.
pub type_name-eq :
    (a b : Messagetype)
    → type_name a ≡ type_name b
    → (a ≡ b) ⊎ ((is_named a ≡ false) × (is_named b ≡ false))
type_name-eq a b e = elim (Bool-cases (is_named a)) [
  | inl na ↦ elim (Bool-cases (is_named b)) [
    | inl nb ↦ inl (
        sym (type_called-type_name a na)
        ∙ ap (λ s. type_called s named_types) e
        ∙ type_called-type_name b nb)
    | inr nb ↦ absurd (apart a b na nb e)
  ]
  | inr na ↦ elim (Bool-cases (is_named b)) [
    | inl nb ↦ absurd (apart b a nb na (sym e))
    | inr nb ↦ inr (na, nb)
  ]
]
