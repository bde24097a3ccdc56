-- ===== src/Router/Authorizing/Issuance.antt =====
-- When AuthorizeTrustedAction of internal/router/router.go returns a permit.
use aegis_router.Base.{
  ◌≡◌, ◌∙◌, sym, ap, refl, true, some, Result, ok, err, inl, inr, arith, Bool-cases, ℕ, subst,
}
use aegis_router.Text.{Bytes}
use aegis_router.Permit.Claims.{execution}
use aegis_router.Permit.Issuer.{IssuedPermit}
use aegis_router.Models.{Request, MatchedAuthorizationGrant, uses_structured_context}
use aegis_router.Records.{PermitCredential}
use aegis_router.Audit.{find_latest}
use aegis_router.Action.{Action}
use aegis_router.Semantic.Registry.{PreparedExecution}
use aegis_router.Intake.{WorkloadBinding, Authorization}
use aegis_router.Router.{Deployment, RouterState, RouterError, Moment, Response, with_store}
use aegis_router.Router.Validation.{is_valid_request}
use aegis_router.Router.Permits.{credential_for, issue_permit}
use aegis_router.Router.Decision.{captured_authority, decide_course}
use aegis_router.Router.Decision.Grounds.{IsGrounded, eligible_sound, decide_course_sound}
use aegis_router.Router.Authorizing.{
  course_digest, grant_permit, carry_out, named, authorize_resolved, authorize_trusted,
}
use aegis_router.Router.Authorizing.Outcomes.{
  conclude_ok, grant_permit_ok, IsPermitOf, issue_permit-IsPermitOf, course_digest_ok,
}

-- The grounds and the permit of an authorization that returns one.
pub record IsAuthorized (d : Deployment) (m : Moment) (a : Authorization) (s t : RouterState)
    (resp : Response) (x : PreparedExecution) (p : IssuedPermit) : Type 0 where
  pub sealed : a.is_resolved ≡ true
  pub structured : uses_structured_context a.request ≡ true
  pub valid : is_valid_request d.library a.request ≡ true
  pub grounded :
      let r = named m a.request in
      (g : MatchedAuthorizationGrant) × IsGrounded d m r
        (captured_authority execution r s.boundary.permits)
        x
        g
  pub issued :
      let r = named m a.request in
      let epoch = (captured_authority execution r s.boundary.permits).epoch in
      IsPermitOf d r a.workload_binding epoch x t.boundary.permits p
  pub logged : find_latest (named m a.request).request_id t.log ≡ some resp.decision

-- The part from the digest on, for an execution that returns a permit
carry_out_ok :
    (d : Deployment) (m : Moment) (r : Request) (binding : WorkloadBinding) (override : ℕ)
    (s t : RouterState) (resp : Response) (cred : PermitCredential)
    (text : Result RouterError Bytes)
    → let a = captured_authority execution r s.boundary.permits in
      let course = decide_course d m r execution a in
      text ≡ course_digest d r course
      → carry_out d m r binding execution override a.epoch course s text ≡ (t, ok resp)
      → resp.permit ≡ some cred
      → (p : IssuedPermit) × (x : PreparedExecution) × (g : MatchedAuthorizationGrant) × (cred
          ≡ credential_for p)
        × IsGrounded d m r a x g
        × IsPermitOf d r binding a.epoch x t.boundary.permits p
        × (find_latest r.request_id t.log ≡ some resp.decision)
unfolding carry_out
carry_out_ok d m r binding override s t resp cred (err e) made h given = absurd (ground arith)
carry_out_ok d m r binding override s t resp cred (ok text) made h given =
    let a = captured_authority execution r s.boundary.permits in
    let course = decide_course d m r execution a in
    let answer =
      grant_permit d m r binding execution override a.epoch course text s.boundary.permits in
    let (p, e, granted, shown, _, kept, logged) =
      conclude_ok d m r course text (with_store s answer.0) t answer.1 resp cred h given in
    let (g, eligible_there, issued, store, _) =
      grant_permit_ok d m r binding execution override a.epoch course text s.boundary.permits p e
        granted in
    let (x, grounded, resolved) = decide_course_sound d m r a g eligible_there in
    let (_, _, grant_there) = eligible_sound course.decision g eligible_there in
    let (digested, bound) = course_digest_ok d r course g x text grant_there resolved (sym made) in
    let run = λ (action : Action).
      issue_permit d m r g course.obligations action text binding execution override a.epoch
        s.boundary.permits in
    let permit =
      issue_permit-IsPermitOf d m r g course.obligations x text binding override a.epoch
        s.boundary.permits p digested (ap (λ action. (run action).1) (sym bound) ∙ issued) in
    let final = ap (λ b. b.permits) kept ∙ store ∙ ap (λ action. (run action).0) bound in
    (
      p,
      x,
      g,
      shown,
      grounded,
      subst (λ u. IsPermitOf d r binding a.epoch x u p) (sym final) permit,
      logged,
    )

trusted_parts :
    (d : Deployment) (m : Moment) (a : Authorization) (s t : RouterState) (resp : Response)
    → authorize_trusted d m a s ≡ (t, ok resp)
    → (a.is_resolved ≡ true)
      × (uses_structured_context a.request ≡ true)
      × (authorize_resolved d m a.request a.workload_binding execution 0 s ≡ (t, ok resp))
unfolding authorize_trusted
trusted_parts d m a s t resp h = elim (Bool-cases a.is_resolved) [
  | inr loose ↦ absurd (ground (arith, rw (authorize_trusted, loose) at h))
  | inl sealed ↦ elim (Bool-cases (uses_structured_context a.request)) [
    | inr flat ↦ absurd (ground (arith, rw (authorize_trusted, sealed, flat) at h))
    | inl structured ↦ (sealed, structured, rw (authorize_trusted, sealed, structured) at h)
  ]
]

resolved_parts :
    (d : Deployment) (m : Moment) (r : Request) (binding : WorkloadBinding) (s t : RouterState)
    (resp : Response)
    → authorize_resolved d m r binding execution 0 s ≡ (t, ok resp)
    → let q = named m r in
      let a = captured_authority execution q s.boundary.permits in
      let course = decide_course d m q execution a in
      (is_valid_request d.library r ≡ true)
      × (carry_out d m q binding execution 0 a.epoch course s (course_digest d q course)
          ≡ (t, ok resp))
unfolding authorize_resolved
resolved_parts d m r binding s t resp h = elim (Bool-cases (is_valid_request d.library r)) [
  | inr invalid ↦ absurd (ground (arith, rw (authorize_resolved, invalid) at h))
  | inl valid ↦ (valid, rw (authorize_resolved, valid) at h)
]

-- If AuthorizeTrustedAction returns a permit, its context was sealed by the intake and its request
-- is structured and valid; the captured authority is enabled, both evaluations of the policy
-- authorize, the second of them the exact operation that the registry prepared; the permit is a
-- fresh issued record of the store whose claims repeat the prepared action, the digest, the
-- workload key and the captured epoch; the credential shows that permit, and the audit log holds
-- the returned decision under the request.
pub authorize_trusted_sound :
    (d : Deployment) (m : Moment) (a : Authorization) (s t : RouterState) (resp : Response)
    (cred : PermitCredential)
    → authorize_trusted d m a s ≡ (t, ok resp)
    → resp.permit ≡ some cred
    → (p : IssuedPermit) × (x : PreparedExecution) × (cred ≡ credential_for p)
      × IsAuthorized d m a s t resp x p
authorize_trusted_sound d m a s t resp cred h given =
    let (sealed, structured, resolved) = trusted_parts d m a s t resp h in
    let (valid, carried) = resolved_parts d m a.request a.workload_binding s t resp resolved in
    let (p, x, g, shown, grounded, permit, logged) =
      carry_out_ok d m (named m a.request) a.workload_binding 0 s t resp cred _ refl carried
        given in
    (
      p,
      x,
      shown,
      record {
        sealed = sealed;
        structured = structured;
        valid = valid;
        grounded = (g, grounded);
        issued = permit;
        logged = logged;
      },
    )
