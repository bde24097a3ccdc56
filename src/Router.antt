-- ===== src/Router.antt =====
-- internal/router/router.go: the router over the policy engine, the semantic registry, the permit issuer
-- and store, the verifier, the observer and the audit log. The advisory part (risk and detection), which
-- the source computes after the decision, is left out, and so are the texts of reasons and findings.
pub mod Validation
pub mod Actions
pub mod Permits
pub mod Decision
pub mod Authorizing
pub mod Auditing
pub mod Operations
pub mod Evidence
pub mod Completion
pub mod Reaching
pub mod Leading
pub mod Settling
pub mod Histories
pub mod Ending
use aegis_router.Base.{ℕ, Bool, List, [], Option, Result}
use aegis_router.Base.Int.{ℤ}
use aegis_router.Text.{Bytes}
use aegis_router.Time.{Time}
use aegis_router.Permit.Claims.{Error}
use aegis_router.Permit.Issuer.{Surroundings}
use aegis_router.Permit.Store.{Store}
use aegis_router.Verifier.{Settings, Boundary}
use aegis_router.Models.{PolicyConfig}
use aegis_router.Action.{ActionError}
use aegis_router.Runtime.{Envelope}
use aegis_router.Records.{AuditRecord, PermitCredential}
use aegis_router.Audit.{AuditLog, AuditError}
use aegis_router.Semantic.{Library}
use aegis_router.Semantic.Registry.{PrepareError, Registry as SemanticRegistry}

-- The fields of Router that no method changes. The issuer and the verifier share `settings`; a lifetime is
-- in nanoseconds.
pub record Deployment : Type 0 where
  pub library : Library
  pub policy : PolicyConfig
  pub registry : SemanticRegistry
  pub settings : Settings
  pub issuer_name : Bytes
  pub permit_ttl : ℕ
  pub policy_version : Bytes

-- What its methods change: the boundary of the verifier with the permit store, the audit log, and the
-- envelopes of the map `permits`.
pub record RouterState : Type 0 where
  pub boundary : Boundary
  pub log : AuditLog
  pub live : List (Bytes × Envelope)

-- The errors of the methods
pub data RouterError : Type 0 where
  untrusted_context structured_context_required invalid_request : RouterError
  unresolved : PrepareError → RouterError
  uncanonical : ActionError → RouterError
  lifetime_too_short : RouterError
  unissued : Error → RouterError
  unaudited : AuditError → RouterError
  refused_by_store : Error → RouterError
  token_required invalid_identifiers invalid_status : RouterError
  reserved_outcome unsupported_outcome reserved_attempt : RouterError
  unconsumed_permit unbound_permit : RouterError

-- The readings of the clock during one authorization, what the issuer reads, the identifiers that
-- newIdentifier makes, and whether the audit file takes the record.
pub record Moment : Type 0 where
  pub started : Time
  pub policy_time : Time
  pub recheck_time : Time
  pub finished : Time
  pub withdrawn : Time
  pub issuing : Surroundings
  pub fresh_request_id : Bytes
  pub fresh_decision_id : Bytes
  pub written : Bool

-- ActionAuthorizationResponse
pub record Response : Type 0 where
  pub decision : AuditRecord
  pub permit : Option PermitCredential

abbrev pub with_boundary : RouterState → Boundary → RouterState
with_boundary s b = record s { boundary = b }

abbrev pub with_store : RouterState → Store → RouterState
with_store s store = record s { boundary = record s.boundary { permits = store } }
