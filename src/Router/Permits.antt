-- ===== src/Router/Permits.antt =====
-- The permits of internal/router/router.go: their lifetime, obligations, envelope and credential.
pub mod Lifetime
use aegis_router.Base.{
  ℕ, ◌*◌, ◌-◌, ◌%◌, Bool, true, false, not, ◌&&◌, ◌||◌, List, [], ◌∷◌, Option, none, some, ltb,
  ◌==◌, ◌!=◌, nat_eq, Result, ok, err, if◌then◌else◌,
}
use aegis_router.Base.Int.{ℤ, pos, ◌-ℤ◌, ltb_ℤ, leb_ℤ, pos_part, ◌*ℤ◌}
use aegis_router.Text.{Bytes, str, bytes_eq, is_empty}
use aegis_router.Time.{Time, second, wrap_int64}
use aegis_router.Permit.Claims.{Class, Obligations, issued_time, expires_time}
use aegis_router.Permit.Issuer.{IssueRequest, IssuedPermit, default_ttl, max_ttl, issue}
use aegis_router.Permit.Store.{Store, issued}
use aegis_router.Models.{
  Route, allow, restrict, sandbox, deny_route, escalate, unset_route, route_eq, AuthorizationStatus,
  requires_approval, status_eq, AuthorizationConstraints, Request, MatchedAuthorizationGrant,
  PolicyDecision, effective_authority,
}
use aegis_router.Action.{Action}
use aegis_router.Runtime.{Envelope}
use aegis_router.Records.{PermitCredential}
use aegis_router.Intake.{WorkloadBinding}
use aegis_router.Router.{Deployment, RouterError, lifetime_too_short, unissued, Moment}

-- The lifetime of NewWithClockAndKeyProvider for a number of seconds
unfoldable pub configured_ttl : ℤ → ℕ
configured_ttl seconds =
    let ttl = wrap_int64 (seconds *ℤ second) in
    if leb_ℤ ttl (pos 0)
    then default_ttl
    else if ltb_ℤ (pos max_ttl) ttl
    then max_ttl
    else pos_part ttl

-- policyObligations
unfoldable pub policy_obligations : PolicyDecision → Obligations
policy_obligations decision = record {
  isolation_required = decision.route == sandbox;
  network_egress_denied = elim decision.grant [
    | none ↦ true
    | some g ↦ g.constraints.network_egress != str "allow"
  ];
  read_only = elim decision.grant [
    | none ↦ true
    | some g ↦ g.constraints.write_access != str "allow"
  ];
  human_approval_required = decision.status == requires_approval;
  enhanced_audit_required = decision.route == restrict || decision.route == sandbox;
}

-- The route of compatibilityDispatchFor
unfoldable pub dispatch_route : PolicyDecision → Route
dispatch_route decision =
    if not decision.is_authorized || decision.route == deny_route
    then deny_route
    else if decision.route == unset_route
    then allow
    else decision.route

-- routeProfile
unfoldable pub route_profile : Route → Bytes × Bytes
route_profile allow = (str "standard-route", str "not_applicable")
route_profile restrict = (str "restricted-route", str "policy_constraints_only")
route_profile sandbox = (str "isolation-required", str "obligation_only_not_provided")
route_profile escalate = (str "approval-queue", str "not_applicable")
route_profile _ = (str "none", str "not_applicable")

-- The smaller of a limit and a lifetime, the one asked for, and the one that the grant leaves
unfoldable pub shorter : ℤ → ℤ → ℤ
shorter limit ttl = if ltb_ℤ limit ttl then limit else ttl

unfoldable pub requested_ttl : ℕ → ℕ → ℤ
requested_ttl configured override =
    if ltb 0 override && ltb override configured then pos override else pos configured

unfoldable pub granted_ttl : AuthorizationConstraints → ℤ → ℤ
granted_ttl k ttl =
    if ltb_ℤ (pos 0) k.max_duration_ms
    then shorter (wrap_int64 (k.max_duration_ms *ℤ 1_000_000)) ttl
    else ttl

-- The lifetime that issuePermit computes, before it is truncated. expires.Sub saturates where this
-- difference does not, at values that are cut or kept alike.
unfoldable pub permit_lifetime : ℕ → ℕ → AuthorizationConstraints → Option Time → Time → ℤ
permit_lifetime configured override k none started =
    granted_ttl k (requested_ttl configured override)
permit_lifetime configured override k (some at) started =
    shorter (at -ℤ started) (granted_ttl k (requested_ttl configured override))

-- The request of issuePermit to the issuer
unfoldable pub issue_request :
    Deployment
    → Request
    → Obligations
    → Action
    → Bytes
    → WorkloadBinding
    → Class
    → ℕ
    → ℕ
    → IssueRequest
issue_request d r obligations a digest binding class epoch ttl = record {
  permit_id = [];
  permit_class = class;
  request_id = r.request_id;
  principal_id = a.principal_id;
  agent_id = a.agent_id;
  workload_id = a.workload_id;
  executor_key_id = binding.key_id;
  executor_key_thumbprint = binding.public_key_thumbprint;
  delegated_authority_fingerprint = a.delegated_authority_fingerprint;
  tool = a.tool;
  capability = a.capability;
  resource = a.resource;
  operation = a.operation;
  profile_id = a.profile_id;
  audience = a.audience;
  action_digest = digest;
  execution_binding = a.execution_binding;
  authority_epoch = epoch;
  policy_version = d.policy_version;
  obligations = obligations;
  ttl = ttl;
}

-- The call of the issuer
abbrev pub issue_through :
    Deployment → Moment → IssueRequest → Store → Store × Result RouterError IssuedPermit
issue_through d m q s =
    let answer = issue d.settings.lib d.settings.permit_json d.issuer_name m.issuing q s in
    (answer.0, elim answer.1 [ err e ↦ err (unissued e) | ok p ↦ ok p ])

-- issuePermit
unfoldable pub issue_permit :
    Deployment
    → Moment
    → Request
    → MatchedAuthorizationGrant
    → Obligations
    → Action
    → Bytes
    → WorkloadBinding
    → Class
    → ℕ
    → ℕ
    → Store
    → Store × Result RouterError IssuedPermit
issue_permit d m r grant obligations a digest binding class override epoch s =
    let ttl =
      permit_lifetime d.permit_ttl override grant.constraints (effective_authority r).expires_at
        m.started in
    let whole = pos_part ttl - pos_part ttl % second in
    if ltb whole second
    then (s, err lifetime_too_short)
    else issue_through d m (issue_request d r obligations a digest binding class epoch whole) s

-- envelopeFor
unfoldable pub envelope_for : IssuedPermit → Bytes → AuthorizationConstraints → Route → Envelope
envelope_for p session_id constraints route =
    let c = p.claims in
    record {
      authority_epoch = c.authority_epoch;
      execution_binding = c.execution_binding;
      permit_id = c.permit_id;
      signing_key_id = c.signing_key_id;
      permit_class = c.permit_class;
      profile_id = c.profile_id;
      audience = c.audience;
      request_id = c.request_id;
      session_id = session_id;
      principal_id = c.principal_id;
      agent_id = c.agent_id;
      workload_id = c.workload_id;
      executor_key_id = c.executor_key_id;
      executor_key_thumbprint = c.executor_key_thumbprint;
      delegated_credential_fingerprint = c.delegated_authority_fingerprint;
      allowed_capability = c.capability;
      allowed_tool = c.tool;
      allowed_resource = c.resource;
      allowed_operation = c.operation;
      allowed_operations = c.operation ∷ [];
      action_digest = c.action_digest;
      policy_version = c.policy_version;
      issuer = c.issuer;
      single_use = c.single_use;
      state = issued;
      obligations = c.obligations;
      constraints = constraints;
      issued_at = issued_time c;
      expires_at = expires_time c;
      route = route;
    }

-- The PermitCredential of authorizeResolvedAction
unfoldable pub credential_for : IssuedPermit → PermitCredential
credential_for p =
    let c = p.claims in
    record {
      authority_epoch = c.authority_epoch;
      execution_binding = c.execution_binding;
      permit_id = p.permit_id;
      signing_key_id = c.signing_key_id;
      permit_class = c.permit_class;
      profile_id = c.profile_id;
      audience = c.audience;
      permit_token = p.token;
      issued_at = issued_time c;
      expires_at = expires_time c;
      single_use = c.single_use;
    }
