-- ===== src/Router/Auditing.antt =====
-- How internal/router/router.go writes verifications, revocations and rejected events into the audit log.
use aegis_router.Base.{
  ℕ, Bool, false, ◌&&◌, [], ◌∷◌, ◌++◌, Option, none, some, leb, ◌==◌, Result, ok, err,
  if◌then◌else◌,
}
use aegis_router.Base.Int.{pos}
use aegis_router.Base.Dict.{remove}
use aegis_router.Text.{Bytes, str, bytes_eq, is_empty}
use aegis_router.Time.{Time, elapsed_milliseconds}
use aegis_router.Permit.Store.{State, unset, Record}
use aegis_router.Models.{deny_route, denied, is_given}
use aegis_router.Verifier.{
  Outcome, verified, expired_permit, invalid_signature, action_mismatch, wrong_principal,
  wrong_agent, wrong_workload, wrong_delegation, wrong_tool, wrong_capability, wrong_resource,
  wrong_operation, wrong_profile, wrong_audience, wrong_execution_binding, replayed_permit,
  revoked_permit, wrong_permit_class, wrong_executor, unsatisfied_obligation, Verification, allowed,
}
use aegis_router.Runtime.{EventSource, Envelope, RuntimeEvent, EventEvaluation}
use aegis_router.Records.{
  FinalVerdict, final_verdict_eq, permit_verified, permit_action_mismatch, permit_has_expired,
  permit_replay, permit_revoked, permit_invalid_signature, permit_class_mismatch,
  permit_wrong_executor, permit_rejected, execution_obligation_unsatisfied, runtime_event_rejected,
  authorization_boundary_violation, PermitVerification, ExecutionReceipt, AuditRecord,
}
use aegis_router.Audit.{AuditLog, AuditError, append, mutate, get_record}
use aegis_router.Intake.{safe_label}
use aegis_router.Router.{RouterState}

-- permitVerification
unfoldable pub permit_verification : Verification → EventSource → PermitVerification
permit_verification v source = record {
  permit_id = v.permit_id;
  request_id = v.request_id;
  outcome = v.outcome;
  is_verified = allowed v;
  state = v.state;
  permit_class = elim v.claims [ none ↦ none | some c ↦ some c.permit_class ];
  profile_id = elim v.claims [ none ↦ [] | some c ↦ c.profile_id ];
  audience = elim v.claims [ none ↦ [] | some c ↦ c.audience ];
  execution_binding = elim v.claims [ none ↦ [] | some c ↦ c.execution_binding ];
  authority_epoch = elim v.claims [ none ↦ 0 | some c ↦ c.authority_epoch ];
  obligations = elim v.claims [ none ↦ none | some c ↦ some c.obligations ];
  constraint_checks = v.constraint_checks;
  verified_at = v.verified_at;
  evidence_source = source;
}

-- permitVerdict
unfoldable pub permit_verdict : Outcome → FinalVerdict
permit_verdict verified = permit_verified
permit_verdict action_mismatch = permit_action_mismatch
permit_verdict wrong_principal = permit_action_mismatch
permit_verdict wrong_agent = permit_action_mismatch
permit_verdict wrong_workload = permit_action_mismatch
permit_verdict wrong_delegation = permit_action_mismatch
permit_verdict wrong_tool = permit_action_mismatch
permit_verdict wrong_capability = permit_action_mismatch
permit_verdict wrong_resource = permit_action_mismatch
permit_verdict wrong_operation = permit_action_mismatch
permit_verdict wrong_profile = permit_action_mismatch
permit_verdict wrong_audience = permit_action_mismatch
permit_verdict wrong_execution_binding = permit_action_mismatch
permit_verdict expired_permit = permit_has_expired
permit_verdict replayed_permit = permit_replay
permit_verdict revoked_permit = permit_revoked
permit_verdict invalid_signature = permit_invalid_signature
permit_verdict wrong_permit_class = permit_class_mismatch
permit_verdict wrong_executor = permit_wrong_executor
permit_verdict unsatisfied_obligation = execution_obligation_unsatisfied
permit_verdict _ = permit_rejected

-- verificationOutcomePriority
unfoldable pub outcome_priority : Option Outcome → ℕ
outcome_priority none = 0
outcome_priority (some verified) = 1
outcome_priority (some _) = 2

abbrev pub recorded_outcome : AuditRecord → Option Outcome
recorded_outcome r = elim r.receipt [ none ↦ none | some q ↦ q.verification_outcome ]

-- Whether the outcome replaces the one of the record
abbrev pub prevails : Outcome → AuditRecord → Bool
prevails outcome r = leb (outcome_priority (recorded_outcome r)) (outcome_priority (some outcome))

unfoldable pub verified_receipt : Verification → EventSource → ExecutionReceipt → ExecutionReceipt
verified_receipt v source q =
    if leb (outcome_priority q.verification_outcome) (outcome_priority (some v.outcome))
    then record q {
      permit_state = v.state;
      verification_outcome = some v.outcome;
      constraint_checks = v.constraint_checks;
      timestamp = v.verified_at;
      evidence_source = source;
    }
    else record q { permit_state = v.state }

abbrev pub with_state : State → Option Envelope → Option Envelope
with_state st none = none
with_state st (some e) = some (record e { state = st })

-- The change that auditPermitVerification makes
unfoldable pub verified_record : Verification → EventSource → AuditRecord → AuditRecord
verified_record v source r = record r {
  envelope = elim r.envelope [
    | none ↦ none
    | some e ↦ if e.permit_id == v.permit_id then some (record e { state = v.state }) else some e
  ];
  receipt = elim r.receipt [ none ↦ none | some q ↦ some (verified_receipt v source q) ];
  final_verdict = if prevails v.outcome r then permit_verdict v.outcome else r.final_verdict;
  duration_ms = elapsed_milliseconds r.created_at v.verified_at;
}

-- The record of auditUnboundVerificationFailure
unfoldable pub unbound_record : Verification → EventSource → Bytes → Bytes → AuditRecord
unbound_record v source attempt_id decision_id = record {
  request_id = attempt_id;
  decision_id = decision_id;
  authorization_status = denied;
  created_at = v.verified_at;
  completed_at = none;
  request = none;
  policy_decision = record {
    is_authorized = false;
    status = denied;
    route = deny_route;
    rules = str "permit.untrusted_credential" ∷ [];
    grant = none;
  };
  obligations = none;
  envelope = none;
  receipt = some (record {
    authority_epoch = 0;
    execution_binding = [];
    request_id = attempt_id;
    decision_id = decision_id;
    permit_id = [];
    permit_class = none;
    profile_id = [];
    audience = [];
    principal_id = [];
    agent_id = [];
    workload_id = [];
    tool = [];
    capability = [];
    resource = [];
    operation = [];
    action_digest = [];
    policy_version = [];
    decision = denied;
    permit_state = unset;
    verification_outcome = some v.outcome;
    constraint_checks = [];
    upstream_attempted = false;
    execution_outcome = [];
    timestamp = v.verified_at;
    evidence_source = source;
  });
  observation = record { events = []; event_evaluations = []; violations = [] };
  findings = [];
  final_verdict = permit_verdict v.outcome;
  duration_ms = pos 0;
}

abbrev pub log_or : {A : Type 0} → AuditLog → Result AuditError A → (A → AuditLog) → AuditLog
log_or log (err e) f = log
log_or log (ok a) f = f a

abbrev pub error_of : {A : Type 0} → Result AuditError A → Option AuditError
error_of (err e) = some e
error_of (ok a) = none

-- auditPermitVerification: the log, the verification that is returned, and the error beside it
unfoldable pub audit_verification :
    Bool
    → Bytes
    → Bytes
    → Verification
    → EventSource
    → AuditLog
    → AuditLog × PermitVerification × Option AuditError
audit_verification written attempt_id decision_id v source log =
    let shown = permit_verification v source in
    if is_empty v.request_id
    then (let added = append written (unbound_record v source attempt_id decision_id) log in
        (log_or log added (λ l. l), record shown { request_id = attempt_id }, error_of added))
    else (let changed = mutate written v.request_id (verified_record v source) log in
        (log_or log changed (λ a. a.1), shown, error_of changed))

-- The change that recordPermitRevocation makes
unfoldable pub revoked_record : State → Time → AuditRecord → AuditRecord
revoked_record st at r = record r {
  envelope = with_state st r.envelope;
  receipt = elim r.receipt [
    | none ↦ none
    | some q ↦
        some (record q {
          permit_state = st;
          verification_outcome = some revoked_permit;
          timestamp = at;
        })
  ];
  final_verdict = permit_revoked;
  duration_ms = elapsed_milliseconds r.created_at at;
}

-- recordPermitRevocation
unfoldable pub record_revocation :
    Bool → Record → Time → RouterState → RouterState × Option AuditError
record_revocation written r now s =
    let at : Time = elim r.revoked_at [ none ↦ now | some t ↦ t ] in
    let live = record s { live = remove r.claims.permit_id s.live } in
    let changed = mutate written r.claims.request_id (revoked_record r.state at) live.log in
    if is_given (get_record r.claims.request_id live.log)
    then (record live { log = log_or live.log changed (λ a. a.1) }, error_of changed)
    else (live, none)

-- The change that auditRejectedEvent makes
unfoldable pub rejected_event_record :
    RuntimeEvent → EventEvaluation → Bool → Time → AuditRecord → AuditRecord
rejected_event_record e v include_event now r = record r {
  observation = record {
    events = if include_event then r.observation.events ++ e ∷ [] else r.observation.events;
    event_evaluations = r.observation.event_evaluations ++ v ∷ [];
    violations = r.observation.violations ++ v.violations;
  };
  findings = r.findings ++ v.violations;
  final_verdict =
      if r.final_verdict == authorization_boundary_violation
      then authorization_boundary_violation
      else runtime_event_rejected;
  duration_ms = elapsed_milliseconds r.created_at now;
}

-- auditRejectedEvent
unfoldable pub audit_rejected_event :
    Bool → RuntimeEvent → EventEvaluation → Bool → Time → AuditLog → AuditLog × Option AuditError
audit_rejected_event written e v include_event now log =
    let changed = mutate written e.request_id (rejected_event_record e v include_event now) log in
    if safe_label e.request_id && is_given (get_record e.request_id log)
    then (log_or log changed (λ a. a.1), error_of changed)
    else (log, none)
