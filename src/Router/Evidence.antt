-- ===== src/Router/Evidence.antt =====
-- IngestRuntimeEvent of internal/router/router.go.
use aegis_router.Base.{Bool, true, false, not, [], ◌∷◌, ◌++◌, Option, none, some, if◌then◌else◌}
use aegis_router.Base.Dict.{lookup, remove}
use aegis_router.Text.{bytes_eq}
use aegis_router.Time.{Time, is_zero, elapsed_milliseconds}
use aegis_router.Permit.Store.{state_eq, revoke}
use aegis_router.Runtime.{
  source_eq, Envelope, RuntimeEvent, Rule, permit_unknown, rejected_event, EventEvaluation,
}
use aegis_router.Records.{
  final_verdict_eq, runtime_event_rejected, authorization_boundary_violation, AuditRecord,
}
use aegis_router.Audit.{AuditError, mutate}
use aegis_router.Observer.{evaluate_event}
use aegis_router.Router.{Deployment, RouterState, with_store}
use aegis_router.Router.Validation.{runtime_violation}
use aegis_router.Router.Auditing.{log_or, error_of, audit_rejected_event}

-- rejectedEvaluation
unfoldable pub rejected_evaluation : RuntimeEvent → Rule → EventEvaluation
rejected_evaluation e rule = record {
  event_id = e.event_id;
  permit_id = e.permit_id;
  is_accepted = false;
  is_within = false;
  is_terminated = true;
  verdict = rejected_event;
  violations = rule ∷ [];
}

-- The change that IngestRuntimeEvent makes
unfoldable pub ingested_record : RuntimeEvent → EventEvaluation → Time → AuditRecord → AuditRecord
ingested_record e v now r = record r {
  observation = record {
    events = r.observation.events ++ e ∷ [];
    event_evaluations = r.observation.event_evaluations ++ v ∷ [];
    violations = r.observation.violations ++ v.violations;
  };
  findings = r.findings ++ v.violations;
  final_verdict =
      if not v.is_accepted
      then runtime_event_rejected
      else if not v.is_within
      then authorization_boundary_violation
      else r.final_verdict;
  completed_at = if v.is_terminated then some now else r.completed_at;
  duration_ms = elapsed_milliseconds r.created_at now;
}

-- What IngestRuntimeEvent leaves: the state, the evaluation, and the error of the audit
abbrev pub Ingested : Type 0
Ingested = RouterState × EventEvaluation × Option AuditError

-- The rejection of an event without an envelope
unfoldable pub refuse_event : Bool → RuntimeEvent → Rule → Bool → Time → RouterState → Ingested
refuse_event written e rule include_event now s =
    let v = rejected_evaluation e rule in
    let answer = audit_rejected_event written e v include_event now s.log in
    (record s { log = answer.0 }, v, answer.1)

-- The state once a terminated event has ended its permit
unfoldable pub end_permit : EventEvaluation → Envelope → Time → RouterState → RouterState
end_permit v p now s =
    if v.is_terminated
    then record (with_store s (revoke p.permit_id now s.boundary.permits).0) {
      live = remove p.permit_id s.live;
    }
    else s

unfoldable pub ingest_bound :
    Deployment → Bool → RuntimeEvent → Envelope → Time → RouterState → Ingested
ingest_bound d written e p now s =
    let v = evaluate_event d.library.unicode p e now in
    let ended = end_permit v p now s in
    let changed = mutate written p.request_id (ingested_record e v now) ended.log in
    (record ended { log = log_or ended.log changed (λ a. a.1) }, v, error_of changed)

abbrev pub stamped : RuntimeEvent → Time → RuntimeEvent
stamped e now = if is_zero e.timestamp then record e { timestamp = now } else e

-- IngestRuntimeEvent
unfoldable pub ingest_event : Deployment → Bool → RuntimeEvent → Time → RouterState → Ingested
ingest_event d written given now s =
    let e = stamped given now in
    elim (runtime_violation e) [
      | some rule ↦ refuse_event written e rule false now s
      | none ↦ elim (lookup e.permit_id s.live) [
        | none ↦ refuse_event written e permit_unknown true now s
        | some p ↦ ingest_bound d written e p now s
      ]
    ]
