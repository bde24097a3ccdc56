-- ===== src/Records.antt =====
-- The part of internal/models/models.go on what the router records: verifications, receipts, observations
-- and the audit record. The advisory and the deprecated fields, and the texts of findings, are left out.
use aegis_router.Base.{ℕ, Bool, List, Option, Eq}
use aegis_router.Base.Int.{ℤ}
use aegis_router.Text.{Bytes}
use aegis_router.Time.{Time}
use aegis_router.Permit.Claims.{Class, Obligations}
use aegis_router.Permit.Store.{State}
use aegis_router.Constraints.{Check}
use aegis_router.Verifier.{Outcome}
use aegis_router.Models.{AuthorizationStatus, Request, PolicyDecision}
use aegis_router.Runtime.{EventSource, Envelope, RuntimeEvent, Rule, EventEvaluation}

-- The constants of FinalVerdict
pub data FinalVerdict : Type 0 where
  blocked_before_execution approval_is_required is_authorized_only : FinalVerdict
  permit_verified permit_action_mismatch permit_has_expired permit_replay : FinalVerdict
  permit_revoked permit_invalid_signature permit_class_mismatch : FinalVerdict
  permit_wrong_executor permit_rejected execution_obligation_unsatisfied : FinalVerdict
  execution_redirect_blocked runtime_event_rejected : FinalVerdict
  authorization_boundary_violation executed_with_valid_permit : FinalVerdict
  simulated_execution_with_valid_permit completed_without_boundary_verification : FinalVerdict
  execution_failed execution_terminated : FinalVerdict

unfoldable pub FinalVerdict-discrete : Discrete FinalVerdict
FinalVerdict-discrete = hlevel

instance abbrev pub final_verdict_eq : Eq FinalVerdict
final_verdict_eq = record { eq_dec = FinalVerdict-discrete }

-- PermitCredential
pub record PermitCredential : Type 0 where
  pub authority_epoch : ℕ
  pub execution_binding : Bytes
  pub permit_id : Bytes
  pub signing_key_id : Bytes
  pub permit_class : Class
  pub profile_id : Bytes
  pub audience : Bytes
  pub permit_token : Bytes
  pub issued_at : Time
  pub expires_at : Time
  pub single_use : Bool

-- PermitVerification; the fields that come from claims are `none` without claims.
pub record PermitVerification : Type 0 where
  pub permit_id : Bytes
  pub request_id : Bytes
  pub outcome : Outcome
  pub is_verified : Bool
  pub state : State
  pub permit_class : Option Class
  pub profile_id : Bytes
  pub audience : Bytes
  pub execution_binding : Bytes
  pub authority_epoch : ℕ
  pub obligations : Option Obligations
  pub constraint_checks : List Check
  pub verified_at : Time
  pub evidence_source : EventSource

-- ExecutionReceipt; an empty verification outcome is `none`.
pub record ExecutionReceipt : Type 0 where
  pub authority_epoch : ℕ
  pub execution_binding : Bytes
  pub request_id : Bytes
  pub decision_id : Bytes
  pub permit_id : Bytes
  pub permit_class : Option Class
  pub profile_id : Bytes
  pub audience : Bytes
  pub principal_id : Bytes
  pub agent_id : Bytes
  pub workload_id : Bytes
  pub tool : Bytes
  pub capability : Bytes
  pub resource : Bytes
  pub operation : Bytes
  pub action_digest : Bytes
  pub policy_version : Bytes
  pub decision : AuthorizationStatus
  pub permit_state : State
  pub verification_outcome : Option Outcome
  pub constraint_checks : List Check
  pub upstream_attempted : Bool
  pub execution_outcome : Bytes
  pub timestamp : Time
  pub evidence_source : EventSource

-- RuntimeObservation
pub record RuntimeObservation : Type 0 where
  pub events : List RuntimeEvent
  pub event_evaluations : List EventEvaluation
  pub violations : List Rule

-- ExecutionCompletion
pub record ExecutionCompletion : Type 0 where
  pub request_id : Bytes
  pub permit_id : Bytes
  pub status : Bytes
  pub boundary_outcome : Bytes
  pub upstream_attempted : Bool
  pub completed_at : Time

-- AuditRecord; an attempt without a trusted request has none.
pub record AuditRecord : Type 0 where
  pub request_id : Bytes
  pub decision_id : Bytes
  pub authorization_status : AuthorizationStatus
  pub created_at : Time
  pub completed_at : Option Time
  pub request : Option Request
  pub policy_decision : PolicyDecision
  pub obligations : Option Obligations
  pub envelope : Option Envelope
  pub receipt : Option ExecutionReceipt
  pub observation : RuntimeObservation
  pub findings : List Rule
  pub final_verdict : FinalVerdict
  pub duration_ms : ℤ
