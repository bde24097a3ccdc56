-- ===== src/Runtime.antt =====
-- The part of internal/models/models.go on what runs under a permit: the envelope of an authorization,
-- the runtime events, and their evaluation. The texts of a violation beside its rule are left out.
use aegis_router.Base.{ℕ, Bool, List, Eq}
use aegis_router.Base.Int.{ℤ}
use aegis_router.Text.{Bytes, Bytes-discrete}
use aegis_router.Time.{Time}
use aegis_router.Permit.Claims.{Class, Obligations}
use aegis_router.Permit.Store.{State}
use aegis_router.Models.{AuthorizationConstraints, Route}

-- RuntimeEventSource: its constants, and any other string.
pub data EventSource : Type 0 where
  gateway_enforced instrumented_adapter agent_self_reported : EventSource
  os_sensor network_sensor simulated_demo : EventSource
  other_source : Bytes → EventSource

unfoldable pub EventSource-discrete : Discrete EventSource
unfolding Bytes-discrete
EventSource-discrete = hlevel Bytes-discrete

instance abbrev pub source_eq : Eq EventSource
source_eq = record { eq_dec = EventSource-discrete }

-- RuntimeTrustLevel
pub data TrustLevel : Type 0 where
  enforced adapter_reported self_reported independent_sensor simulated : TrustLevel
  other_trust : Bytes → TrustLevel

unfoldable pub TrustLevel-discrete : Discrete TrustLevel
unfolding Bytes-discrete
TrustLevel-discrete = hlevel Bytes-discrete

instance abbrev pub trust_eq : Eq TrustLevel
trust_eq = record { eq_dec = TrustLevel-discrete }

-- AuthorizationEnvelope
pub record Envelope : Type 0 where
  pub authority_epoch : ℕ
  pub execution_binding : Bytes
  pub permit_id : Bytes
  pub signing_key_id : Bytes
  pub permit_class : Class
  pub profile_id : Bytes
  pub audience : Bytes
  pub request_id : Bytes
  pub session_id : Bytes
  pub principal_id : Bytes
  pub agent_id : Bytes
  pub workload_id : Bytes
  pub executor_key_id : Bytes
  pub executor_key_thumbprint : Bytes
  pub delegated_credential_fingerprint : Bytes
  pub allowed_capability : Bytes
  pub allowed_tool : Bytes
  pub allowed_resource : Bytes
  pub allowed_operation : Bytes
  pub allowed_operations : List Bytes
  pub action_digest : Bytes
  pub policy_version : Bytes
  pub issuer : Bytes
  pub single_use : Bool
  pub state : State
  pub obligations : Obligations
  pub constraints : AuthorizationConstraints
  pub issued_at : Time
  pub expires_at : Time
  pub route : Route

-- RuntimeEvent
pub record RuntimeEvent : Type 0 where
  pub event_id : Bytes
  pub permit_id : Bytes
  pub request_id : Bytes
  pub session_id : Bytes
  pub agent_id : Bytes
  pub workload_id : Bytes
  pub source : EventSource
  pub trust_level : TrustLevel
  pub capability : Bytes
  pub tool : Bytes
  pub operation : Bytes
  pub resource : Bytes
  pub resource_class : Bytes
  pub destination_class : Bytes
  pub is_external : Bool
  pub secret_access : Bool
  pub side_effect : Bytes
  pub byte_count : ℤ
  pub timestamp : Time

-- The rules of AuthorizationViolation, each by its name in the source
pub data Rule : Type 0 where
  event_id_missing source_unknown source_trust_mismatch permit_binding_mismatch : Rule
  request_binding_mismatch agent_binding_mismatch workload_binding_mismatch permit_expired : Rule
  capability_exceeded tool_exceeded resource_exceeded operation_exceeded : Rule
  network_egress_denied secret_access_denied write_access_denied side_effect_denied : Rule
  max_bytes_exceeded max_duration_exceeded : Rule
  metadata_invalid bytes_invalid permit_unknown completion_expired : Rule

pub data EventVerdict : Type 0 where
  permitted_event rejected_event boundary_violation : EventVerdict

-- RuntimeEventEvaluation
pub record EventEvaluation : Type 0 where
  pub event_id : Bytes
  pub permit_id : Bytes
  pub is_accepted : Bool
  pub is_within : Bool
  pub is_terminated : Bool
  pub verdict : EventVerdict
  pub violations : List Rule
