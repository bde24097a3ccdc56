-- ===== src/Router/Settling.antt =====
-- What the other methods of internal/router/router.go do to the permit store.
use aegis_router.Base.{
  ◌≡◌, refl, Bool, ok, err, inl, inr, Option-cases, Result-cases, Bool-cases, ◌!=◌, ◌==◌, ℕ, List,
  [], arith, ◌∷◌, ◌⊎◌, true, false, some, none, subst,
}
use aegis_router.Base.Dict.{lookup}
use aegis_router.Text.{Bytes, bytes_eq}
use aegis_router.Time.{Time}
use aegis_router.Permit.Claims.{simulation}
use aegis_router.Permit.Store.{consumed, state_eq, get}
use aegis_router.Permit.Store.Steps.{Call, gets, revokes, step, run}
use aegis_router.Action.{Action}
use aegis_router.Verifier.{Presented}
use aegis_router.Models.{Request}
use aegis_router.Runtime.{EventSource, Envelope, RuntimeEvent}
use aegis_router.Records.{ExecutionCompletion}
use aegis_router.Observer.{evaluate_event}
use aegis_router.Observer.Ends.{Judged-running, Judged-outside}
use aegis_router.Observer.Verdicts.{evaluate_event-Judged}
use aegis_router.Semantic.Payment.{is_blank}
use aegis_router.Router.{Deployment, RouterState, Moment, with_store}
use aegis_router.Router.Reaching.{
  stay, call, Reaches-trans, IsIssuance, IsPresentation, IsInspection, verify_execution-Reaches,
  verify_simulation-Reaches, check_execution-Reaches,
}
use aegis_router.Router.Leading.{Leads, authorize_resolved-Leads}
use aegis_router.Router.Actions.{prepare_semantic_action}
use aegis_router.Router.Authorizing.{authorize_demo, no_binding}
use aegis_router.Router.Operations.{
  Reading, verify_execution, verify_demo, verify_demo_request, check_execution_request,
}
use aegis_router.Router.Evidence.{refuse_event, end_permit, ingest_bound, ingest_event, stamped}
use aegis_router.Router.Completion.{
  finish_execution, complete_live, complete_checked, complete_execution, check_completion,
  is_trusted_source, state_of, answered,
}
use aegis_router.Router.Validation.{is_valid_request, runtime_violation}

module _ (d : Deployment) where
  pub authorize_demo-Leads :
      (m : Moment) (r : Request) (ttl : ℕ) (s : RouterState)
      → Leads (IsIssuance m.written m.withdrawn simulation) s (authorize_demo d m r ttl s).0
  unfolding authorize_demo
  authorize_demo-Leads m r ttl s = authorize_resolved-Leads d m r no_binding simulation ttl s

  pub verify_execution-Leads :
      (t : Reading) (p : Presented) (s : RouterState)
      → Leads (IsPresentation d.settings p.permit_token t.now) s (verify_execution d t p s).0
  unfolding verify_execution
  verify_execution-Leads t p s = verify_execution-Reaches d.settings p t.now t.clock s.boundary

  pub verify_demo-Leads :
      (t : Reading) (token : Bytes) (a : Action) (s : RouterState)
      → Leads (IsPresentation d.settings token t.now) s (verify_demo d t token a s).0
  unfolding verify_demo
  verify_demo-Leads t token a s =
      verify_simulation-Reaches d.settings token a t.now t.clock s.boundary

  pub verify_demo_request-Leads :
      (t : Reading) (token : Bytes) (r : Request) (s : RouterState)
      → Leads (IsPresentation d.settings token t.now) s (verify_demo_request d t token r s).0
  unfolding verify_demo_request
  verify_demo_request-Leads t token r s = elim (Bool-cases (is_blank d.library token)) [
    | inl blank ↦
        rw (verify_demo_request, blank)
          (stay (IsPresentation d.settings token t.now) s.boundary.permits)
    | inr given ↦ elim (Bool-cases (is_valid_request d.library r)) [
      | inr invalid ↦
          rw (verify_demo_request, given, invalid)
            (stay (IsPresentation d.settings token t.now) s.boundary.permits)
      | inl valid ↦ rw (verify_demo_request, given, valid) (verify_demo-Leads t token _ s)
    ]
  ]

  pub check_execution_request-Leads :
      (now : Time) (token : Bytes) (r : Request) (s : RouterState)
      → Leads (IsInspection d.settings token now) s (check_execution_request d now token r s).0
  unfolding check_execution_request
  check_execution_request-Leads now token r s = elim (Bool-cases (is_blank d.library token)) [
    | inl blank ↦
        rw (check_execution_request, blank)
          (stay (IsInspection d.settings token now) s.boundary.permits)
    | inr given ↦ elim (Bool-cases (is_valid_request d.library r)) [
      | inr invalid ↦
          rw (check_execution_request, given, invalid)
            (stay (IsInspection d.settings token now) s.boundary.permits)
      | inl valid ↦ elim (Result-cases (prepare_semantic_action d r)) [
        | inr (e, unresolved) ↦
            rw (check_execution_request, given, valid, unresolved)
              (stay (IsInspection d.settings token now) s.boundary.permits)
        | inl (p, prepared) ↦
            rw (check_execution_request, given, valid, prepared)
              (check_execution-Reaches d.settings token p.action now s.boundary)
      ]
    ]
  ]

  -- No call, where the event is unfit, names no live envelope or stays within it; otherwise the
  -- call of Revoke for the permit of the envelope
  abbrev pub IsIngestion : RuntimeEvent → Time → RouterState → List Call → Type 0
  IsIngestion e now s cs =
      ((cs ≡ [])
        × ((p : Envelope)
            → runtime_violation e ≡ none
            → lookup e.permit_id s.live ≡ some p
            → (evaluate_event d.library.unicode p e now).is_within ≡ true))
      ⊎ ((p : Envelope) × (runtime_violation e ≡ none)
          × (lookup e.permit_id s.live ≡ some p)
          × ((evaluate_event d.library.unicode p e now).is_within ≡ false)
          × (cs ≡ revokes p.permit_id now ∷ []))

  ingest_bound-Leads :
      (written : Bool) (e : RuntimeEvent) (p : Envelope) (now : Time) (s : RouterState)
      → runtime_violation e ≡ none
      → lookup e.permit_id s.live ≡ some p
      → (cs : List Call) × ((ingest_bound d written e p now s).0.boundary.permits
          ≡ run cs s.boundary.permits)
        × IsIngestion e now s cs
  unfolding ingest_bound end_permit step run
  ingest_bound-Leads written e p now s fit live =
      let u = d.library.unicode in
      let judged = evaluate_event-Judged u p e now in
      elim (Bool-cases (evaluate_event u p e now).is_terminated) [
        | inr running ↦ (
          [],
          rw running refl,
          inl (
            refl,
            λ q _ found.
                subst (λ x. (evaluate_event u x e now).is_within ≡ true) (cc (live, found))
                  (Judged-running u p e now _ judged running),
          ),
        )
        | inl ended ↦ (
          revokes p.permit_id now ∷ [],
          rw ended refl,
          inr (p, fit, live, Judged-outside u p e now _ judged ended, refl),
        )
      ]

  pub ingest_event-Leads :
      (written : Bool) (e : RuntimeEvent) (now : Time) (s : RouterState)
      → (cs : List Call) × ((ingest_event d written e now s).0.boundary.permits
          ≡ run cs s.boundary.permits)
        × IsIngestion (stamped e now) now s cs
  unfolding ingest_event refuse_event run
  ingest_event-Leads written e now s = elim (Option-cases (runtime_violation (stamped e now))) [
    | inr (rule, unfit) ↦ (
      [],
      rw (ingest_event, unfit) refl,
      inl (refl, λ p fit live. absurd (ground (arith, fit, unfit))),
    )
    | inl fit ↦ elim (Option-cases (lookup (stamped e now).permit_id s.live)) [
      | inl unknown ↦ (
        [],
        rw (ingest_event, fit, unknown) refl,
        inl (refl, λ p _ live. absurd (ground (arith, live, unknown))),
      )
      | inr (p, live) ↦
          let (cs, reached, made) = ingest_bound-Leads written (stamped e now) p now s fit live in
          (cs, rw (ingest_event, fit, live) reached, made)
    ]
  ]

-- A call of Get for the permit of a completion
abbrev pub IsReading : Bytes → Time → Call → Type 0
IsReading id now made = made ≡ gets id now

answered-boundary : (s : RouterState) (r : _) → (answered s r).0.boundary ≡ s.boundary
unfolding answered
answered-boundary s (err e) = refl
answered-boundary s (ok (r, log)) = refl

finish_execution-Leads :
    (written : Bool) (c : ExecutionCompletion) (source : EventSource) (p : Envelope) (now : Time)
    (s : RouterState)
    → Leads (IsReading c.permit_id now) s (finish_execution written c source p now s).0
unfolding finish_execution step
finish_execution-Leads written c source p now s =
    rw (answered-boundary _ _)
      (call (IsReading c.permit_id now) (gets c.permit_id now) s.boundary.permits refl)

complete_live-Leads :
    (written : Bool) (c : ExecutionCompletion) (source : EventSource) (now : Time) (s : RouterState)
    → Leads (IsReading c.permit_id now) s (complete_live written c source now s).0
unfolding complete_live
complete_live-Leads written c source now s = elim (Option-cases (lookup c.permit_id s.live)) [
  | inl unknown ↦ rw (complete_live, unknown) (stay (IsReading c.permit_id now) s.boundary.permits)
  | inr (p, live) ↦ elim (Bool-cases (p.request_id != c.request_id)) [
    | inl other ↦
        rw (complete_live, live, other) (stay (IsReading c.permit_id now) s.boundary.permits)
    | inr own ↦ rw (complete_live, live, own) (finish_execution-Leads written c source p now s)
  ]
]

complete_checked-Leads :
    (written : Bool) (c : ExecutionCompletion) (source : EventSource) (now : Time) (s : RouterState)
    → Leads (IsReading c.permit_id now) s (complete_checked written c source now s).0
unfolding complete_checked step
complete_checked-Leads written c source now s =
    let found = get c.permit_id now s.boundary.permits in
    let read = call (IsReading c.permit_id now) (gets c.permit_id now) s.boundary.permits refl in
    elim (Bool-cases (is_trusted_source source)) [
      | inr untrusted ↦
          rw (complete_checked, untrusted) (complete_live-Leads written c source now s)
      | inl trusted ↦ elim (Bool-cases (state_of found.1 == consumed)) [
        | inr unconsumed ↦ rw (complete_checked, trusted, unconsumed) read
        | inl done ↦
            rw (complete_checked, trusted, done)
              (Reaches-trans (IsReading c.permit_id now) s.boundary.permits found.0 _ read
                (complete_live-Leads written c source now (with_store s found.0)))
      ]
    ]

pub complete_execution-Leads :
    (written : Bool) (c : ExecutionCompletion) (source : EventSource) (now : Time) (s : RouterState)
    → Leads (IsReading c.permit_id now) s (complete_execution written c source now s).0
unfolding complete_execution
complete_execution-Leads written c source now s = elim (Result-cases (check_completion c source)) [
  | inr (e, unfit) ↦
      rw (complete_execution, unfit) (stay (IsReading c.permit_id now) s.boundary.permits)
  | inl (_, fit) ↦ rw (complete_execution, fit) (complete_checked-Leads written c source now s)
]
