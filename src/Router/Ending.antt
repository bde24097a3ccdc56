-- ===== src/Router/Ending.antt =====
-- How a permit ends in internal/router/router.go: by a runtime event outside its envelope, and by the
-- completion of its execution.
use aegis_router.Base.{
  ◌≡◌, ◌≢◌, refl, ap, Bool, true, false, List, none, some, ok, err, inl, inr, arith, Bool-cases,
  Option-cases, Result-cases, ◌==◌, ◌!=◌,
}
use aegis_router.Base.Dict.{lookup, remove, lookup-remove}
use aegis_router.Text.{Bytes, bytes_eq}
use aegis_router.Time.{Time}
use aegis_router.Permit.Store.{
  Record, Store, state_eq, consumed, get, consume, succeeded, revoke, expire_if_needed,
}
use aegis_router.Permit.Store.Revocation.{revoke_ends}
use aegis_router.Runtime.{EventSource, Envelope, RuntimeEvent, EventEvaluation}
use aegis_router.Records.{ExecutionCompletion, AuditRecord}
use aegis_router.Observer.{evaluate_event}
use aegis_router.Observer.Ends.{Judged-terminated}
use aegis_router.Observer.Verdicts.{evaluate_event-Judged}
use aegis_router.Router.{Deployment, RouterState, with_store}
use aegis_router.Router.Validation.{runtime_violation}
use aegis_router.Router.Evidence.{end_permit, ingest_bound, ingest_event, stamped}
use aegis_router.Router.Completion.{
  is_trusted_source, state_of, answered, finish_execution, complete_live, complete_checked,
  complete_execution, check_completion,
}
use aegis_router.Router.Histories.{RouterCall, all_calls, router_run, router_run_refines}

end_permit-permits :
    (v : EventEvaluation) (p : Envelope) (now : Time) (s : RouterState)
    → v.is_terminated ≡ true
    → (end_permit v p now s).boundary.permits ≡ (revoke p.permit_id now s.boundary.permits).0
unfolding end_permit
end_permit-permits v p now s h = rw (end_permit, h) refl

ingest_event-permits :
    (d : Deployment) (written : Bool) (given : RuntimeEvent) (now : Time) (s : RouterState)
    (p : Envelope)
    → runtime_violation (stamped given now) ≡ none
    → lookup (stamped given now).permit_id s.live ≡ some p
    → (evaluate_event d.library.unicode p (stamped given now) now).is_within ≡ false
    → (ingest_event d written given now s).0.boundary.permits
      ≡ (revoke p.permit_id now s.boundary.permits).0
unfolding ingest_event ingest_bound
ingest_event-permits d written given now s p fit live outside =
    let e = stamped given now in
    let u = d.library.unicode in
    rw (ingest_event, fit, live, ingest_bound)
      (end_permit-permits _ p now s
        (Judged-terminated u p e now _ (evaluate_event-Judged u p e now) outside))

-- A runtime event with fit metadata that names a live permit, and that the observer does not find
-- within its envelope, ends the permit: if the store holds it, no Consume of it succeeds after the
-- event, whatever calls of the router come between.
pub event_ends_permit :
    (d : Deployment) (written : Bool) (given : RuntimeEvent) (now later : Time)
    (calls : List RouterCall) (s : RouterState) (p : Envelope) (r : Record)
    → runtime_violation (stamped given now) ≡ none
    → lookup (stamped given now).permit_id s.live ≡ some p
    → (evaluate_event d.library.unicode p (stamped given now) now).is_within ≡ false
    → lookup p.permit_id s.boundary.permits.records ≡ some r
    → let after_event = (ingest_event d written given now s).0 in
      (consume p.permit_id later (router_run d calls after_event).boundary.permits).1.outcome
      ≢ succeeded
event_ends_permit d written given now later calls s p r fit live outside found =
    let after_event = (ingest_event d written given now s).0 in
    let (css, reached, _) = router_run_refines d calls after_event in
    let ended = ingest_event-permits d written given now s p fit live outside in
    rw (reached, ended)
      (revoke_ends p.permit_id now later (all_calls css) s.boundary.permits r found)

get_consumed :
    (id : Bytes) (now : Time) (s : Store)
    → (state_of (get id now s).1 == consumed) ≡ true
    → (r : Record) × (lookup id s.records ≡ some r) × (r.state ≡ consumed)
unfolding get expire_if_needed
get_consumed id now s h = elim (Option-cases (lookup id s.records)) [
  | inl missing ↦ absurd (ground (arith, rw (get, missing) at h))
  | inr (r, found) ↦ (r, found, ground (arith, rw (get, found) at h))
]

answered-live :
    (s t : RouterState) (x : _) (r : AuditRecord) → answered s x ≡ (t, ok r) → t.live ≡ s.live
unfolding answered
answered-live s t (err e) r h = absurd (ground arith)
answered-live s t (ok (q, log)) r h = ground arith

finish_execution-live :
    (written : Bool) (c : ExecutionCompletion) (source : EventSource) (p : Envelope) (now : Time)
    (s t : RouterState) (r : AuditRecord)
    → finish_execution written c source p now s ≡ (t, ok r)
    → t.live ≡ remove c.permit_id s.live
unfolding finish_execution
finish_execution-live written c source p now s t r h = answered-live _ t _ r h

complete_live_ok :
    (written : Bool) (c : ExecutionCompletion) (source : EventSource) (now : Time)
    (s t : RouterState) (r : AuditRecord)
    → complete_live written c source now s ≡ (t, ok r)
    → (p : Envelope) × (lookup c.permit_id s.live ≡ some p)
      × (p.request_id ≡ c.request_id)
      × (t.live ≡ remove c.permit_id s.live)
unfolding complete_live
complete_live_ok written c source now s t r h = elim (Option-cases (lookup c.permit_id s.live)) [
  | inl unknown ↦ absurd (ground (arith, rw (complete_live, unknown) at h))
  | inr (p, live) ↦ elim (Bool-cases (p.request_id != c.request_id)) [
    | inl other ↦ absurd (ground (arith, rw (complete_live, live, other) at h))
    | inr own ↦ (
      p,
      live,
      ground arith,
      finish_execution-live written c source p now s t r (rw (complete_live, live, own) at h),
    )
  ]
]

complete_checked_ok :
    (written : Bool) (c : ExecutionCompletion) (source : EventSource) (now : Time)
    (s t : RouterState) (r : AuditRecord)
    → is_trusted_source source ≡ true
    → complete_checked written c source now s ≡ (t, ok r)
    → let found = get c.permit_id now s.boundary.permits in
      ((state_of found.1 == consumed) ≡ true)
      × (complete_live written c source now (with_store s found.0) ≡ (t, ok r))
unfolding complete_checked
complete_checked_ok written c source now s t r trusted h =
    elim (Bool-cases (state_of (get c.permit_id now s.boundary.permits).1 == consumed)) [
      | inr unconsumed ↦ absurd (ground (arith, rw (complete_checked, trusted, unconsumed) at h))
      | inl done ↦ (done, rw (complete_checked, trusted, done) at h)
    ]

complete_execution_ok :
    (written : Bool) (c : ExecutionCompletion) (source : EventSource) (now : Time)
    (s t : RouterState) (r : AuditRecord)
    → complete_execution written c source now s ≡ (t, ok r)
    → complete_checked written c source now s ≡ (t, ok r)
unfolding complete_execution
complete_execution_ok written c source now s t r h =
    elim (Result-cases (check_completion c source)) [
      | inr (e, unfit) ↦ absurd (ground (arith, rw (complete_execution, unfit) at h))
      | inl (_, fit) ↦ rw (complete_execution, fit) at h
    ]

-- If a completion from a trusted source succeeds, its permit was stored as consumed, and a live
-- envelope of the permit named the request of the completion; that envelope is no longer live
-- after it.
pub completion_spends :
    (written : Bool) (c : ExecutionCompletion) (source : EventSource) (now : Time)
    (s t : RouterState) (r : AuditRecord)
    → is_trusted_source source ≡ true
    → complete_execution written c source now s ≡ (t, ok r)
    → (q : Record) × (p : Envelope) × (lookup c.permit_id s.boundary.permits.records ≡ some q)
      × (q.state ≡ consumed)
      × (lookup c.permit_id s.live ≡ some p)
      × (p.request_id ≡ c.request_id)
      × (lookup c.permit_id t.live ≡ none)
completion_spends written c source now s t r trusted h =
    let (done, checked) =
      complete_checked_ok written c source now s t r trusted
        (complete_execution_ok written c source now s t r h) in
    let (q, stored, spent) = get_consumed c.permit_id now s.boundary.permits done in
    let (p, live, own, gone) = complete_live_ok written c source now _ t r checked in
    (
      q,
      p,
      stored,
      spent,
      live,
      own,
      ground (
        arith,
        ap (λ m. lookup c.permit_id m) gone,
        lookup-remove c.permit_id c.permit_id s.live,
      ),
    )
