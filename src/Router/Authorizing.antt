-- ===== src/Router/Authorizing.antt =====
-- AuthorizeTrustedAction, AuthorizeSyntheticDemoAction and authorizeResolvedAction of
-- internal/router/router.go.
pub mod Outcomes
pub mod Issuance
pub mod Refusals
pub mod Withdrawal
use aegis_router.Base.{
  ℕ, Bool, true, false, not, ◌&&◌, List, [], ◌∷◌, Option, none, some, Result, ok, err,
  if◌then◌else◌,
}
use aegis_router.Base.Dict.{insert, remove}
use aegis_router.Text.{Bytes, str, bytes_eq, is_empty}
use aegis_router.Time.{Time, elapsed_milliseconds}
use aegis_router.Permit.Claims.{Class, execution, simulation, Obligations}
use aegis_router.Permit.Authority.{AuthorityState}
use aegis_router.Permit.Issuer.{IssuedPermit}
use aegis_router.Permit.Store.{unset, Store, revoke}
use aegis_router.Models.{
  AuthorizationStatus, authorized, denied, requires_approval, Request, MatchedAuthorizationGrant,
  PolicyDecision, uses_structured_context, effective_principal, effective_agent, effective_action,
  effective_tool,
}
use aegis_router.Action.{Action, digest}
use aegis_router.Runtime.{Envelope, gateway_enforced}
use aegis_router.Records.{
  FinalVerdict, blocked_before_execution, approval_is_required, is_authorized_only,
  ExecutionReceipt, AuditRecord,
}
use aegis_router.Audit.{AuditLog, AuditError, append}
use aegis_router.Semantic.{Library}
use aegis_router.Intake.{WorkloadBinding, Authorization}
use aegis_router.Router.{
  Deployment, RouterState, RouterError, untrusted_context, structured_context_required,
  invalid_request, uncanonical, unaudited, Moment, Response, with_store,
}
use aegis_router.Router.Validation.{is_valid_request}
use aegis_router.Router.Actions.{bind_fingerprint, canonical_action}
use aegis_router.Router.Permits.{dispatch_route, issue_permit, envelope_for, credential_for}
use aegis_router.Router.Decision.{Course, eligible, captured_authority, decide_course}

-- resolvedActionOrDefault
unfoldable pub bound_action : Deployment → Request → Course → MatchedAuthorizationGrant → Action
bound_action d r course grant = elim course.resolved [
  | some a ↦ a
  | none ↦ canonical_action d.library r grant
]

-- The digest of the action, empty without a grant
unfoldable pub course_digest : Deployment → Request → Course → Result RouterError Bytes
course_digest d r course = elim course.decision.grant [
  | none ↦ ok []
  | some grant ↦ elim (digest d.settings.lib d.settings.canonical (bound_action d r course grant)) [
    | err e ↦ err (uncanonical e)
    | ok text ↦ ok text
  ]
]

-- The permit and its envelope
abbrev pub Granted : Type 0
Granted = Option (IssuedPermit × Envelope)

abbrev pub enveloped :
    Request
    → MatchedAuthorizationGrant
    → PolicyDecision
    → Result RouterError IssuedPermit
    → Result RouterError Granted
enveloped r grant decision (err e) = err e
enveloped r grant decision (ok p) =
    ok (some (p, envelope_for p r.session_id grant.constraints (dispatch_route decision)))

unfoldable pub grant_permit :
    Deployment
    → Moment
    → Request
    → WorkloadBinding
    → Class
    → ℕ
    → ℕ
    → Course
    → Bytes
    → Store
    → Store × Result RouterError Granted
grant_permit d m r binding class override epoch course text s = elim (eligible course.decision) [
  | none ↦ (s, ok none)
  | some grant ↦
      let answer =
        issue_permit d m r grant course.obligations (bound_action d r course grant) text binding
          class override epoch s in
      (answer.0, enveloped r grant course.decision answer.1)
]

-- authorizationVerdict
unfoldable pub authorization_verdict : AuthorizationStatus → FinalVerdict
authorization_verdict denied = blocked_before_execution
authorization_verdict requires_approval = approval_is_required
authorization_verdict authorized = is_authorized_only

abbrev pub envelope_in : Granted → Option Envelope
envelope_in none = none
envelope_in (some (p, e)) = some e

-- authorizationReceipt
unfoldable pub authorization_receipt :
    Deployment → Request → Course → Option Envelope → Bytes → Bytes → Time → ExecutionReceipt
authorization_receipt d r course envelope text decision_id at = record {
  authority_epoch = elim envelope [ none ↦ 0 | some e ↦ e.authority_epoch ];
  execution_binding = elim envelope [ none ↦ [] | some e ↦ e.execution_binding ];
  request_id = r.request_id;
  decision_id = decision_id;
  permit_id = elim envelope [ none ↦ [] | some e ↦ e.permit_id ];
  permit_class = elim envelope [ none ↦ none | some e ↦ some e.permit_class ];
  profile_id = elim envelope [ none ↦ [] | some e ↦ e.profile_id ];
  audience = elim envelope [ none ↦ [] | some e ↦ e.audience ];
  principal_id = (effective_principal r).principal_id;
  agent_id = (effective_agent r).agent_id;
  workload_id = (effective_agent r).workload_id;
  tool = elim envelope [ none ↦ (effective_tool r).name | some e ↦ e.allowed_tool ];
  capability = elim envelope [
    | none ↦ (effective_action r).capability
    | some e ↦ e.allowed_capability
  ];
  resource = elim envelope [
    | none ↦ (effective_action r).target_resource
    | some e ↦ e.allowed_resource
  ];
  operation = elim envelope [
    | none ↦ (effective_action r).operation
    | some e ↦ e.allowed_operation
  ];
  action_digest = text;
  policy_version = d.policy_version;
  decision = course.decision.status;
  permit_state = elim envelope [ none ↦ unset | some e ↦ e.state ];
  verification_outcome = none;
  constraint_checks = [];
  upstream_attempted = false;
  execution_outcome = [];
  timestamp = at;
  evidence_source = gateway_enforced;
}

-- privacySafeRequest, on the fields that the model has
unfoldable pub privacy_safe_request : Library → Request → Request
privacy_safe_request lib r = record r {
  action = record r.action { arguments = []; profile_id = []; audience = [] };
  authority = record r.authority {
    credential_fingerprint = elim (bind_fingerprint lib r.authority.credential_fingerprint) [
      | some bound ↦ bound
      | none ↦ []
    ];
  };
}

-- The audit record of a decision
unfoldable pub audit_record :
    Deployment → Moment → Request → Course → Bytes → Option Envelope → AuditRecord
audit_record d m r course text envelope = record {
  request_id = r.request_id;
  decision_id = m.fresh_decision_id;
  authorization_status = course.decision.status;
  created_at = m.started;
  completed_at = none;
  request = some (privacy_safe_request d.library r);
  policy_decision = course.decision;
  obligations = some course.obligations;
  envelope = envelope;
  receipt = some (authorization_receipt d r course envelope text m.fresh_decision_id m.started);
  observation = record { events = []; event_evaluations = []; violations = [] };
  findings = [];
  final_verdict = authorization_verdict course.decision.status;
  duration_ms = elapsed_milliseconds m.started m.finished;
}

-- The live envelopes with the new one
abbrev pub with_live : Granted → RouterState → RouterState
with_live none s = s
with_live (some (p, e)) s = record s { live = insert e.permit_id e s.live }

-- What is taken back when the audit log fails
unfoldable pub withdraw : Moment → Granted → RouterState → RouterState
withdraw m none s = s
withdraw m (some (p, e)) s =
    record (with_store s (revoke e.permit_id m.withdrawn s.boundary.permits).0) {
      live = remove e.permit_id s.live;
    }

abbrev pub response_for : AuditRecord → Granted → Response
response_for entry none = record { decision = entry; permit = none }
response_for entry (some (p, e)) = record { decision = entry; permit = some (credential_for p) }

-- What the answer of the audit log leads to
unfoldable pub settle_audit :
    Moment
    → AuditRecord
    → Granted
    → RouterState
    → Result AuditError AuditLog
    → RouterState × Result RouterError Response
settle_audit m entry granted s (err e) = (withdraw m granted s, err (unaudited e))
settle_audit m entry granted s (ok log) = (record s { log = log }, ok (response_for entry granted))

-- The end of authorizeResolvedAction: the audit
unfoldable pub conclude :
    Deployment
    → Moment
    → Request
    → Course
    → Bytes
    → RouterState
    → Result RouterError Granted
    → RouterState × Result RouterError Response
conclude d m r course text s (err e) = (s, err e)
conclude d m r course text s (ok granted) =
    let entry = audit_record d m r course text (envelope_in granted) in
    settle_audit m entry granted (with_live granted s) (append m.written entry s.log)

-- The part from the digest on
unfoldable pub carry_out :
    Deployment
    → Moment
    → Request
    → WorkloadBinding
    → Class
    → ℕ
    → ℕ
    → Course
    → RouterState
    → Result RouterError Bytes
    → RouterState × Result RouterError Response
carry_out d m r binding class override epoch course s (err e) = (s, err e)
carry_out d m r binding class override epoch course s (ok text) =
    let answer = grant_permit d m r binding class override epoch course text s.boundary.permits in
    conclude d m r course text (with_store s answer.0) answer.1

abbrev pub named : Moment → Request → Request
named m r = if is_empty r.request_id then record r { request_id = m.fresh_request_id } else r

-- authorizeResolvedAction
unfoldable pub authorize_resolved :
    Deployment
    → Moment
    → Request
    → WorkloadBinding
    → Class
    → ℕ
    → RouterState
    → RouterState × Result RouterError Response
authorize_resolved d m r binding class override s =
    if not (is_valid_request d.library r)
    then (s, err invalid_request)
    else (let q = named m r in
        let a = captured_authority class q s.boundary.permits in
        let course = decide_course d m q class a in
        carry_out d m q binding class override a.epoch course s (course_digest d q course))

-- AuthorizeTrustedAction
unfoldable pub authorize_trusted :
    Deployment → Moment → Authorization → RouterState → RouterState × Result RouterError Response
authorize_trusted d m a s =
    if not a.is_resolved
    then (s, err untrusted_context)
    else if not (uses_structured_context a.request)
    then (s, err structured_context_required)
    else authorize_resolved d m a.request a.workload_binding execution 0 s

abbrev pub no_binding : WorkloadBinding
no_binding = record { key_id = []; public_key_thumbprint = [] }

-- AuthorizeSyntheticDemoAction for a lifetime that is not negative
unfoldable pub authorize_demo :
    Deployment → Moment → Request → ℕ → RouterState → RouterState × Result RouterError Response
authorize_demo d m r ttl s = authorize_resolved d m r no_binding simulation ttl s
