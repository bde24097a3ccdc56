-- ===== src/Router/Completion.antt =====
-- completeExecution of internal/router/router.go.
use aegis_router.Base.{
  Bool, false, not, ◌&&◌, ◌||◌, [], ◌∷◌, ◌++◌, Option, none, some, ◌==◌, ◌!=◌, contains, Result, ok,
  err, ◌>>◌, reject_if, if◌then◌else◌,
}
use aegis_router.Base.Dict.{lookup, remove}
use aegis_router.Text.{str, bytes_eq, is_nonempty}
use aegis_router.Time.{Time, is_zero, after, elapsed_milliseconds}
use aegis_router.Permit.Store.{State, consumed, unset, state_eq, Record, get}
use aegis_router.Verifier.{is_verified_outcome, expired_permit}
use aegis_router.Runtime.{
  EventSource, gateway_enforced, simulated_demo, source_eq, Envelope, completion_expired,
}
use aegis_router.Records.{
  FinalVerdict, final_verdict_eq, permit_has_expired, permit_action_mismatch, permit_replay,
  permit_revoked, permit_invalid_signature, permit_class_mismatch, permit_wrong_executor,
  permit_rejected, execution_obligation_unsatisfied, execution_redirect_blocked,
  runtime_event_rejected, authorization_boundary_violation, executed_with_valid_permit,
  simulated_execution_with_valid_permit, completed_without_boundary_verification, execution_failed,
  execution_terminated, ExecutionReceipt, ExecutionCompletion, AuditRecord,
}
use aegis_router.Audit.{AuditError, AuditLog, mutate}
use aegis_router.Intake.{safe_label}
use aegis_router.Router.{
  RouterState, RouterError, unaudited, invalid_identifiers, invalid_status, reserved_outcome,
  unsupported_outcome, reserved_attempt, unconsumed_permit, unbound_permit, with_store,
}
use aegis_router.Router.Auditing.{with_state}

abbrev pub is_trusted_source : EventSource → Bool
is_trusted_source source = source == gateway_enforced || source == simulated_demo

-- The checks of completeExecution before the store is read
unfoldable pub check_completion : ExecutionCompletion → EventSource → Result RouterError (Unit {0})
check_completion c source = do
  reject_if (not (safe_label c.request_id) || not (safe_label c.permit_id)) invalid_identifiers
  reject_if (not (contains (str "completed" ∷ str "failed" ∷ str "terminated" ∷ []) c.status))
      invalid_status
  reject_if (is_nonempty c.boundary_outcome && not (is_trusted_source source)) reserved_outcome
  reject_if
      (is_nonempty c.boundary_outcome
        && c.boundary_outcome != str "UNSATISFIED_OBLIGATION"
        && c.boundary_outcome != str "UPSTREAM_REDIRECT_BLOCKED")
      unsupported_outcome
  reject_if (c.upstream_attempted && not (is_trusted_source source)) reserved_attempt

abbrev pub state_of : Option Record → State
state_of none = unset
state_of (some r) = r.state

-- The change for a completion after the permit expired
unfoldable pub expired_record : State → EventSource → Time → AuditRecord → AuditRecord
expired_record st source now r = record r {
  observation = record r.observation {
    violations = r.observation.violations ++ completion_expired ∷ [];
  };
  findings = r.findings ++ completion_expired ∷ [];
  completed_at = some now;
  envelope = with_state st r.envelope;
  receipt = elim r.receipt [
    | none ↦ none
    | some q ↦ some (record q {
      permit_state = st;
      verification_outcome = some expired_permit;
      timestamp = now;
      evidence_source = source;
    })
  ];
  final_verdict = permit_has_expired;
  duration_ms = elapsed_milliseconds r.created_at now;
}

-- The verdicts that a completion does not replace; PERMIT_VERIFIED is not among them.
abbrev pub is_settled : FinalVerdict → Bool
is_settled v =
    contains
      (authorization_boundary_violation ∷ runtime_event_rejected ∷ permit_action_mismatch
        ∷ permit_has_expired ∷ permit_replay ∷ permit_revoked ∷ permit_invalid_signature
        ∷ permit_class_mismatch ∷ permit_wrong_executor ∷ permit_rejected ∷ [])
      v

abbrev pub has_verified : Option ExecutionReceipt → Bool
has_verified none = false
has_verified (some q) = elim q.verification_outcome [
  | none ↦ false
  | some o ↦ is_verified_outcome o
]

-- The verdict of the switch on the status
unfoldable pub status_verdict : ExecutionCompletion → EventSource → AuditRecord → FinalVerdict
status_verdict c source r =
    if c.status == str "completed"
    then (if has_verified r.receipt && source == gateway_enforced
        then executed_with_valid_permit
        else if has_verified r.receipt && source == simulated_demo
        then simulated_execution_with_valid_permit
        else completed_without_boundary_verification)
    else if c.status == str "failed"
    then execution_failed
    else execution_terminated

unfoldable pub completion_verdict : ExecutionCompletion → EventSource → AuditRecord → FinalVerdict
completion_verdict c source r =
    if c.boundary_outcome == str "UNSATISFIED_OBLIGATION"
    then execution_obligation_unsatisfied
    else if c.boundary_outcome == str "UPSTREAM_REDIRECT_BLOCKED"
    then execution_redirect_blocked
    else if is_settled r.final_verdict
    then r.final_verdict
    else status_verdict c source r

-- The change for a completion in time
unfoldable pub completed_record :
    ExecutionCompletion → State → EventSource → Time → AuditRecord → AuditRecord
completed_record c st source now r = record r {
  completed_at = some now;
  envelope = with_state st r.envelope;
  receipt = elim r.receipt [
    | none ↦ none
    | some q ↦ some (record q {
      permit_state = st;
      timestamp = now;
      evidence_source = source;
      upstream_attempted = c.upstream_attempted;
      execution_outcome = if is_nonempty c.boundary_outcome then c.boundary_outcome else c.status;
    })
  ];
  final_verdict = completion_verdict c source r;
  duration_ms = elapsed_milliseconds r.created_at now;
}

abbrev pub is_late : Envelope → ExecutionCompletion → Time → Bool
is_late p c now =
    not (after p.expires_at now)
    || (not (is_zero c.completed_at) && not (after p.expires_at c.completed_at))

-- What the answer of the audit log leads to
unfoldable pub answered :
    RouterState
    → Result AuditError (AuditRecord × AuditLog)
    → RouterState × Result RouterError AuditRecord
answered s (err e) = (s, err (unaudited e))
answered s (ok (r, log)) = (record s { log = log }, ok r)

-- The end of completeExecution for a live envelope: the permit is read, the record changed
unfoldable pub finish_execution :
    Bool
    → ExecutionCompletion
    → EventSource
    → Envelope
    → Time
    → RouterState
    → RouterState × Result RouterError AuditRecord
finish_execution written c source p now s =
    let found = get c.permit_id now s.boundary.permits in
    let st = state_of found.1 in
    let s' = record (with_store s found.0) { live = remove c.permit_id s.live } in
    let change =
      if is_late p c now then expired_record st source now else completed_record c st source now in
    answered s' (mutate written c.request_id change s'.log)

-- completeExecution from the search for the live envelope on
unfoldable pub complete_live :
    Bool
    → ExecutionCompletion
    → EventSource
    → Time
    → RouterState
    → RouterState × Result RouterError AuditRecord
complete_live written c source now s = elim (lookup c.permit_id s.live) [
  | none ↦ (s, err unbound_permit)
  | some p ↦
      if p.request_id != c.request_id
      then (s, err unbound_permit)
      else finish_execution written c source p now s
]

-- completeExecution after its checks
unfoldable pub complete_checked :
    Bool
    → ExecutionCompletion
    → EventSource
    → Time
    → RouterState
    → RouterState × Result RouterError AuditRecord
complete_checked written c source now s =
    let found = get c.permit_id now s.boundary.permits in
    let s' = with_store s found.0 in
    if not (is_trusted_source source)
    then complete_live written c source now s
    else if state_of found.1 == consumed
    then complete_live written c source now s'
    else (s', err unconsumed_permit)

-- completeExecution
unfoldable pub complete_execution :
    Bool
    → ExecutionCompletion
    → EventSource
    → Time
    → RouterState
    → RouterState × Result RouterError AuditRecord
complete_execution written c source now s = elim (check_completion c source) [
  | err e ↦ (s, err e)
  | ok _ ↦ complete_checked written c source now s
]
