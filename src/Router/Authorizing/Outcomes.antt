-- ===== src/Router/Authorizing/Outcomes.antt =====
-- What an authorization of internal/router/router.go that returns a permit has done.
use aegis_router.Base.{
  ℕ, ◌≡◌, refl, sym, ap, ◌∙◌, true, none, some, Result, ok, err, inl, inr, arith, Option-cases,
}
use aegis_router.Base.Dict.{lookup}
use aegis_router.Text.{Bytes, bytes_eq}
use aegis_router.Permit.Claims.{Class, execution, Obligations}
use aegis_router.Permit.Issuer.{IssuedPermit, claims_for}
use aegis_router.Permit.Issuer.Registers.{prepare_checks, issue_parts, issue_registers}
use aegis_router.Permit.Store.{Store, fresh_record}
use aegis_router.Models.{Request, MatchedAuthorizationGrant}
use aegis_router.Action.{digest}
use aegis_router.Runtime.{Envelope}
use aegis_router.Records.{AuditRecord, PermitCredential}
use aegis_router.Audit.{AuditLog, AuditError, append, find_latest}
use aegis_router.Audit.Log.{get-append}
use aegis_router.Semantic.Registry.{PreparedExecution}
use aegis_router.Intake.{WorkloadBinding}
use aegis_router.Router.{Deployment, RouterState, RouterError, Moment, Response}
use aegis_router.Router.Permits.{
  dispatch_route, issue_permit, issue_request, envelope_for, credential_for,
}
use aegis_router.Router.Permits.Lifetime.{issue_permit_ok}
use aegis_router.Router.Decision.{Course, eligible}
use aegis_router.Router.Authorizing.{
  bound_action, course_digest, Granted, enveloped, grant_permit, audit_record, with_live,
  response_for, settle_audit, conclude,
}

pub settle_audit_ok :
    (m : Moment) (entry : AuditRecord) (g : Granted) (s t : RouterState) (resp : Response)
    (answer : Result AuditError AuditLog)
    → settle_audit m entry g s answer ≡ (t, ok resp)
    → (answer ≡ ok t.log) × (t.boundary ≡ s.boundary) × (resp ≡ response_for entry g)
unfolding settle_audit
settle_audit_ok m entry g s t resp (err e) h = absurd (ground arith)
settle_audit_ok m entry g s t resp (ok log) h = ground arith

pub with_live-boundary : (g : Granted) (s : RouterState) → (with_live g s).boundary ≡ s.boundary
with_live-boundary none s = refl
with_live-boundary (some (p, e)) s = refl

-- An answer with a permit comes from a permit that was granted and whose record is in the log.
pub conclude_ok :
    (d : Deployment) (m : Moment) (r : Request) (course : Course) (text : Bytes) (s t : RouterState)
    (answer : Result RouterError Granted) (resp : Response) (cred : PermitCredential)
    → conclude d m r course text s answer ≡ (t, ok resp)
    → resp.permit ≡ some cred
    → (p : IssuedPermit) × (e : Envelope) × (answer ≡ ok (some (p, e)))
      × (cred ≡ credential_for p)
      × (resp.decision ≡ audit_record d m r course text (some e))
      × (t.boundary ≡ s.boundary)
      × (find_latest r.request_id t.log ≡ some resp.decision)
unfolding conclude audit_record
conclude_ok d m r course text s t (err e) resp cred h given = absurd (ground arith)
conclude_ok d m r course text s t (ok none) resp cred h given =
    let (_, _, same) = settle_audit_ok m (audit_record d m r course text none) none s t resp _ h in
    absurd (ground (arith, same, given))
conclude_ok d m r course text s t (ok (some (p, e))) resp cred h given =
    let entry = audit_record d m r course text (some e) in
    let (logged, kept, same) =
      settle_audit_ok m entry (some (p, e)) (with_live (some (p, e)) s) t resp
        (append m.written entry s.log) h in
    let (found, _) = get-append m.written entry s.log t.log logged in
    (
      p,
      e,
      refl,
      ground (arith, same, given),
      ap (λ x. x.decision) same,
      kept,
      found ∙ ap (λ x. some x.decision) (sym same),
    )

enveloped_ok :
    (r : Request) (g : MatchedAuthorizationGrant) (decision : _)
    (answer : Result RouterError IssuedPermit) (p : IssuedPermit) (e : Envelope)
    → enveloped r g decision answer ≡ ok (some (p, e))
    → (answer ≡ ok p) × (e ≡ envelope_for p r.session_id g.constraints (dispatch_route decision))
enveloped_ok r g decision (err x) p e h = absurd (ground arith)
enveloped_ok r g decision (ok x) p e h = ground arith

pub grant_permit_ok :
    (d : Deployment) (m : Moment) (r : Request) (binding : WorkloadBinding) (class : Class)
    (override epoch : ℕ) (course : Course) (text : Bytes) (s : Store) (p : IssuedPermit)
    (e : Envelope)
    → (grant_permit d m r binding class override epoch course text s).1 ≡ ok (some (p, e))
    → (g : MatchedAuthorizationGrant) × (eligible course.decision ≡ some g)
      × ((issue_permit d m r g course.obligations
            (bound_action d r course g)
            text
            binding
            class
            override
            epoch
            s).1
          ≡ ok p)
      × ((grant_permit d m r binding class override epoch course text s).0
          ≡ (issue_permit d m r g course.obligations
              (bound_action d r course g)
              text
              binding
              class
              override
              epoch
              s).0)
      × (e ≡ envelope_for p r.session_id g.constraints (dispatch_route course.decision))
unfolding grant_permit
grant_permit_ok d m r binding class override epoch course text s p e h =
    elim (Option-cases (eligible course.decision)) [
      | inl ineligible ↦ absurd (cc (rw (grant_permit, ineligible) at h))
      | inr (g, found) ↦
          let (issued, shaped) =
            enveloped_ok r g course.decision _ p e (rw (grant_permit, found) at h) in
          (g, found, issued, rw (grant_permit, found) refl, shaped)
    ]

-- The permit of a request for a prepared execution: its claims are those of the prepared action, and it is
-- stored as issued.
pub record IsPermitOf (d : Deployment) (r : Request) (binding : WorkloadBinding) (epoch : ℕ)
    (x : PreparedExecution) (s : Store) (p : IssuedPermit) : Type 0 where
  pub class : p.claims.permit_class ≡ execution
  pub request : p.claims.request_id ≡ r.request_id
  pub principal : p.claims.principal_id ≡ x.action.principal_id
  pub agent : p.claims.agent_id ≡ x.action.agent_id
  pub workload : p.claims.workload_id ≡ x.action.workload_id
  pub delegation :
      p.claims.delegated_authority_fingerprint ≡ x.action.delegated_authority_fingerprint
  pub tool : p.claims.tool ≡ x.action.tool
  pub capability : p.claims.capability ≡ x.action.capability
  pub resource : p.claims.resource ≡ x.action.resource
  pub operation : p.claims.operation ≡ x.action.operation
  pub profile : p.claims.profile_id ≡ x.action.profile_id
  pub audience : p.claims.audience ≡ x.action.audience
  pub bound : p.claims.execution_binding ≡ x.action.execution_binding
  pub digested : digest d.settings.lib d.settings.canonical x.action ≡ ok p.claims.action_digest
  pub key : p.claims.executor_key_id ≡ binding.key_id
  pub thumbprint : p.claims.executor_key_thumbprint ≡ binding.public_key_thumbprint
  pub captured : p.claims.authority_epoch ≡ epoch
  pub once : p.claims.single_use ≡ true
  pub stored : lookup p.claims.permit_id s.records ≡ some (fresh_record p.claims)

pub issue_permit-IsPermitOf :
    (d : Deployment) (m : Moment) (r : Request) (grant : MatchedAuthorizationGrant)
    (o : Obligations) (x : PreparedExecution) (text : Bytes) (binding : WorkloadBinding)
    (override epoch : ℕ) (s : Store) (p : IssuedPermit)
    → digest d.settings.lib d.settings.canonical x.action ≡ ok text
    → (issue_permit d m r grant o x.action text binding execution override epoch s).1 ≡ ok p
    → IsPermitOf d r binding epoch x
        (issue_permit d m r grant o x.action text binding execution override epoch s).0
        p
unfolding issue_request claims_for
issue_permit-IsPermitOf d m r grant o x text binding override epoch s p made h =
    let (_, _, done, store) =
      issue_permit_ok d m r grant o x.action text binding execution override epoch s p h in
    let q = issue_request d r o x.action text binding execution epoch _ in
    let (prepared, _, _) =
      issue_parts d.settings.lib d.settings.permit_json d.issuer_name m.issuing q s p done in
    let (key, _, _, _, _, claims, _) =
      prepare_checks d.settings.lib d.settings.permit_json d.issuer_name m.issuing q p prepared in
    let (stored, _, _, _, _) =
      issue_registers d.settings.lib d.settings.permit_json d.issuer_name m.issuing q s p done in
    record {
      class = ap (λ c. c.permit_class) claims;
      request = ap (λ c. c.request_id) claims;
      principal = ap (λ c. c.principal_id) claims;
      agent = ap (λ c. c.agent_id) claims;
      workload = ap (λ c. c.workload_id) claims;
      delegation = ap (λ c. c.delegated_authority_fingerprint) claims;
      tool = ap (λ c. c.tool) claims;
      capability = ap (λ c. c.capability) claims;
      resource = ap (λ c. c.resource) claims;
      operation = ap (λ c. c.operation) claims;
      profile = ap (λ c. c.profile_id) claims;
      audience = ap (λ c. c.audience) claims;
      bound = ap (λ c. c.execution_binding) claims;
      digested = made ∙ ap (λ c. ok c.action_digest) (sym claims);
      key = ap (λ c. c.executor_key_id) claims;
      thumbprint = ap (λ c. c.executor_key_thumbprint) claims;
      captured = ap (λ c. c.authority_epoch) claims;
      once = ap (λ c. c.single_use) claims;
      stored = ap (λ t. lookup p.claims.permit_id t.records) store ∙ stored;
    }

pub course_digest_ok :
    (d : Deployment) (r : Request) (course : Course) (g : MatchedAuthorizationGrant)
    (x : PreparedExecution) (text : Bytes)
    → course.decision.grant ≡ some g
    → course.resolved ≡ some x.action
    → course_digest d r course ≡ ok text
    → (digest d.settings.lib d.settings.canonical x.action ≡ ok text)
      × (bound_action d r course g ≡ x.action)
unfolding course_digest bound_action
course_digest_ok d r course g x text granted resolved h = ground arith
