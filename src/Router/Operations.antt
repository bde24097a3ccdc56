-- ===== src/Router/Operations.antt =====
-- The methods of internal/router/router.go on permits and authorities: verification, checks, listing,
-- revocation and transitions.
use aegis_router.Base.{
  Bool, not, ◌&&◌, List, [], ◌∷◌, Option, none, some, ltb, ◌==◌, Result, ok, err, if◌then◌else◌,
}
use aegis_router.Text.{Bytes}
use aegis_router.Time.{Time}
use aegis_router.Permit.Claims.{Error}
use aegis_router.Permit.Authority.{AuthorityKey, AuthorityState, authority_key_eq, key_of}
use aegis_router.Permit.Store.{revoked, state_eq, Record, get, revoke, set_authority_enabled, list}
use aegis_router.ExecutionProof.Registry.{RegisterError, register_key}
use aegis_router.Action.{Action}
use aegis_router.Models.{Request}
use aegis_router.Verifier.{
  Presented, Verification, verify_execution_and_consume, verify_simulation_and_consume,
  check_execution,
}
use aegis_router.Runtime.{EventSource, gateway_enforced, simulated_demo, other_source}
use aegis_router.Text.{str}
use aegis_router.Records.{PermitVerification}
use aegis_router.Audit.{AuditError}
use aegis_router.Semantic.Payment.{is_blank}
use aegis_router.Router.{
  Deployment, RouterState, RouterError, invalid_request, unresolved, unaudited, refused_by_store,
  token_required, with_boundary, with_store,
}
use aegis_router.Router.Validation.{is_valid_request}
use aegis_router.Router.Actions.{execution_action, prepare_semantic_action}
use aegis_router.Router.Auditing.{permit_verification, audit_verification, record_revocation}

-- What a verification reads: the clock of the inspection, that of the consume boundary, the identifiers
-- that newIdentifier makes, and whether the audit file takes the line.
pub record Reading : Type 0 where
  pub now : Time
  pub clock : Time
  pub attempt_id : Bytes
  pub decision_id : Bytes
  pub written : Bool

abbrev audited :
    Reading
    → RouterState
    → Verification
    → EventSource
    → RouterState × PermitVerification × Option AuditError
audited t s v source =
    let answer = audit_verification t.written t.attempt_id t.decision_id v source s.log in
    (record s { log = answer.0 }, answer.1, answer.2)

-- Router.VerifyExecutionAndConsume
unfoldable pub verify_execution :
    Deployment
    → Reading
    → Presented
    → RouterState
    → RouterState × PermitVerification × Option AuditError
verify_execution d t p s =
    let answer = verify_execution_and_consume d.settings p t.now t.clock s.boundary in
    audited t (with_boundary s answer.0) answer.1 gateway_enforced

-- VerifySyntheticDemo
unfoldable pub verify_demo :
    Deployment
    → Reading
    → Bytes
    → Action
    → RouterState
    → RouterState × PermitVerification × Option AuditError
verify_demo d t token a s =
    let answer = verify_simulation_and_consume d.settings token a t.now t.clock s.boundary in
    audited t (with_boundary s answer.0) answer.1 simulated_demo

-- VerifySyntheticDemoRequest
unfoldable pub verify_demo_request :
    Deployment
    → Reading
    → Bytes
    → Request
    → RouterState
    → RouterState × Result RouterError (PermitVerification × Option AuditError)
verify_demo_request d t token r s =
    let answer = verify_demo d t token (execution_action d.library r) s in
    if is_blank d.library token
    then (s, err token_required)
    else if not (is_valid_request d.library r)
    then (s, err invalid_request)
    else (answer.0, ok (answer.1, answer.2))

abbrev checked_source : EventSource
checked_source = other_source (str "permit_check_only")

-- CheckExecutionRequest
unfoldable pub check_execution_request :
    Deployment
    → Time
    → Bytes
    → Request
    → RouterState
    → RouterState × Result RouterError PermitVerification
check_execution_request d now token r s =
    if is_blank d.library token
    then (s, err token_required)
    else if not (is_valid_request d.library r)
    then (s, err invalid_request)
    else elim (prepare_semantic_action d r) [
      | err e ↦ (s, err (unresolved e))
      | ok p ↦
          let answer = check_execution d.settings token p.action now s.boundary in
          (with_boundary s answer.0, ok (permit_verification answer.1 checked_source))
    ]

-- RegisterWorkloadPublicKey
unfoldable pub register_workload_key :
    Bytes → Bytes → RouterState → RouterState × Result RegisterError (Unit {0})
register_workload_key key_id key s =
    let answer = register_key key_id key s.boundary.workload_keys in
    (with_boundary s (record s.boundary { workload_keys = answer.0 }), answer.1)

-- ListPermits and GetPermit
unfoldable pub list_permits : Time → RouterState → RouterState × List Record
list_permits now s = let answer = list now s.boundary.permits in (with_store s answer.0, answer.1)

unfoldable pub get_permit : Bytes → Time → RouterState → RouterState × Option Record
get_permit id now s =
    let answer = get id now s.boundary.permits in (with_store s answer.0, answer.1)

abbrev audit_result : {A : Type 0} → A → Option AuditError → Result RouterError A
audit_result a none = ok a
audit_result a (some e) = err (unaudited e)

-- RevokePermit; the record that is returned beside an error is left out.
unfoldable pub revoke_permit :
    Bool → Bytes → Time → RouterState → RouterState × Result RouterError Record
revoke_permit written id now s =
    let answer = revoke id now s.boundary.permits in
    elim answer.2 [
      | err e ↦ (with_store s answer.0, err (refused_by_store e))
      | ok _ ↦
          let done = record_revocation written answer.1 now (with_store s answer.0) in
          (done.0, audit_result answer.1 done.1)
    ]

-- The test of the loop of SetAuthorityEnabled
abbrev pub is_stopped : AuthorityKey → AuthorityState → Record → Bool
is_stopped key st r =
    key_of r.claims == key && ltb r.claims.authority_epoch st.epoch && r.state == revoked

-- The loop: the state and the errors joined
unfoldable pub record_stopped :
    (Bytes → Bool)
    → AuthorityKey
    → AuthorityState
    → Time
    → List Record
    → RouterState
    → RouterState × List AuditError
record_stopped written key st now [] s = (s, [])
record_stopped written key st now (r ∷ rs) s =
    let skipped = record_stopped written key st now rs s in
    let done = record_revocation (written r.claims.permit_id) r now s in
    let later = record_stopped written key st now rs done.0 in
    if is_stopped key st r
    then (later.0, elim done.1 [ none ↦ later.1 | some e ↦ e ∷ later.1 ])
    else skipped

-- Router.SetAuthorityEnabled; whether the audit file takes a line is told by the permit.
unfoldable pub set_authority :
    (Bytes → Bool)
    → AuthorityKey
    → Bool
    → Time
    → RouterState
    → RouterState × Result Error (AuthorityState × List AuditError)
set_authority written key on now s =
    let answer = set_authority_enabled key on now s.boundary.permits in
    elim answer.1 [
      | err e ↦ (with_store s answer.0, err e)
      | ok st ↦
          let listed = list now answer.0 in
          let done = record_stopped written key st now listed.1 (with_store s listed.0) in
          (done.0, ok (st, done.1))
    ]
