-- ===== src/Router/Authorizing/Refusals.antt =====
-- What the issue and the revocation of a permit of internal/router/router.go leave in the store when an
-- authorization fails.
use aegis_router.Base.{
  ℕ, ◌≡◌, ◌≢◌, refl, ap, ◌∙◌, none, some, Result, ok, err, inl, inr, arith, Bool-cases,
  Option-cases, Result-cases,
}
use aegis_router.Text.{Bytes, bytes_eq}
use aegis_router.Permit.Claims.{Claims, Class}
use aegis_router.Permit.Issuer.{IssuedPermit, IssueRequest, Surroundings, prepare, issue}
use aegis_router.Permit.Issuer.Registers.{register_fresh, issue_parts}
use aegis_router.Permit.Store.{state_eq, Store, put, fresh_record, register, register_valid}
use aegis_router.Models.{Request, MatchedAuthorizationGrant}
use aegis_router.Runtime.{Envelope}
use aegis_router.Intake.{WorkloadBinding}
use aegis_router.Router.{Deployment, RouterError, Moment}
use aegis_router.Router.Permits.{
  issue_permit, issue_request, issue_through, permit_lifetime, envelope_for,
}
use aegis_router.Router.Permits.Lifetime.{issue_permit_ok}
use aegis_router.Router.Authorizing.Outcomes.{grant_permit_ok}
use aegis_router.Models.{effective_authority}
use aegis_router.Time.{second}
use aegis_router.Base.Int.{pos_part}
use aegis_router.Base.{ltb, ◌-◌, ◌%◌}
use aegis_router.Router.Decision.{Course, eligible}
use aegis_router.Router.Authorizing.{bound_action, enveloped, grant_permit}

register_refused :
    (c : Claims) (s : Store) (e : _) → (register c s).1 ≡ err e → (register c s).0 ≡ s
unfolding register register_valid
register_refused c s e h = ground arith

issue_refused :
    (d : _) (json : _) (name : Bytes) (around : Surroundings) (q : IssueRequest) (s : Store) (e : _)
    → (issue d json name around q s).1 ≡ err e
    → (issue d json name around q s).0 ≡ s
unfolding issue
issue_refused d json name around q s e h = elim (Result-cases (prepare d json name around q)) [
  | inr (x, failed) ↦ rw (issue, failed) refl
  | inl (p, done) ↦ elim (Result-cases (register p.claims s).1) [
    | inr (x, refused) ↦ rw (issue, done) (register_refused p.claims s x refused)
    | inl (_, good) ↦ absurd (ground (arith, rw (issue, done, good) at h))
  ]
]

issue_through_refused :
    (d : Deployment) (m : Moment) (q : IssueRequest) (s : Store) (e : RouterError)
    → (issue_through d m q s).1 ≡ err e
    → (issue_through d m q s).0 ≡ s
issue_through_refused d m q s e h =
    elim (Result-cases
      ((issue d.settings.lib d.settings.permit_json d.issuer_name m.issuing q s).1)) [
        | inr (x, refused) ↦
            issue_refused d.settings.lib d.settings.permit_json d.issuer_name m.issuing q s x
              refused
        | inl (p, done) ↦ absurd (ground (arith, rw (issue_through, done) at h))
      ]

issue_permit_refused :
    (d : Deployment) (m : Moment) (r : Request) (g : MatchedAuthorizationGrant) (o : _) (a : _)
    (text : Bytes) (binding : WorkloadBinding) (class : Class) (override epoch : ℕ) (s : Store)
    (e : RouterError)
    → (issue_permit d m r g o a text binding class override epoch s).1 ≡ err e
    → (issue_permit d m r g o a text binding class override epoch s).0 ≡ s
unfolding issue_permit
issue_permit_refused d m r g o a text binding class override epoch s e h =
    let t =
      permit_lifetime d.permit_ttl override g.constraints (effective_authority r).expires_at
        m.started in
    let whole = pos_part t - pos_part t % second in
    elim (Bool-cases (ltb whole second)) [
      | inl short ↦ rw (issue_permit, short) refl
      | inr long ↦
          rw (issue_permit, long)
            (issue_through_refused d m (issue_request d r o a text binding class epoch whole) s e
              (rw (issue_permit, long) at h))
    ]

pub grant_permit_refused :
    (d : Deployment) (m : Moment) (r : Request) (binding : WorkloadBinding) (class : Class)
    (override epoch : ℕ) (course : Course) (text : Bytes) (s : Store) (e : RouterError)
    → (grant_permit d m r binding class override epoch course text s).1 ≡ err e
    → (grant_permit d m r binding class override epoch course text s).0 ≡ s
unfolding grant_permit
grant_permit_refused d m r binding class override epoch course text s e h =
    elim (Option-cases (eligible course.decision)) [
      | inl ineligible ↦ rw (grant_permit, ineligible) refl
      | inr (g, found) ↦
          rw (grant_permit, found)
            (issue_permit_refused d m r g course.obligations (bound_action d r course g) text
              binding class override epoch s e
              (enveloped_refused r g course.decision _ e (rw (grant_permit, found) at h)))
    ]
  where
    enveloped_refused :
        (r : Request) (g : MatchedAuthorizationGrant) (decision : _)
        (answer : Result RouterError IssuedPermit) (e : RouterError)
        → enveloped r g decision answer ≡ err e
        → answer ≡ err e
    enveloped_refused r g decision (err x) e h = ground arith
    enveloped_refused r g decision (ok x) e h = absurd (ground arith)

pub grant_permit-none :
    (d : Deployment) (m : Moment) (r : Request) (binding : WorkloadBinding) (class : Class)
    (override epoch : ℕ) (course : Course) (text : Bytes) (s : Store)
    → (grant_permit d m r binding class override epoch course text s).1 ≡ ok none
    → (grant_permit d m r binding class override epoch course text s).0 ≡ s
unfolding grant_permit
grant_permit-none d m r binding class override epoch course text s h =
    elim (Option-cases (eligible course.decision)) [
      | inl ineligible ↦ rw (grant_permit, ineligible) refl
      | inr (g, found) ↦
          absurd (enveloped_some r g course.decision _ (rw (grant_permit, found) at h))
    ]
  where
    enveloped_some :
        (r : Request) (g : MatchedAuthorizationGrant) (decision : _)
        (answer : Result RouterError IssuedPermit)
        → enveloped r g decision answer ≢ ok none
    enveloped_some r g decision (err x) h = ground arith
    enveloped_some r g decision (ok x) h = ground arith

-- The store of a permit that was granted
pub granted_store :
    (d : Deployment) (m : Moment) (r : Request) (binding : WorkloadBinding) (class : Class)
    (override epoch : ℕ) (course : Course) (text : Bytes) (s : Store) (p : IssuedPermit)
    (e : Envelope)
    → (grant_permit d m r binding class override epoch course text s).1 ≡ ok (some (p, e))
    → ((grant_permit d m r binding class override epoch course text s).0
        ≡ put p.claims.permit_id (fresh_record p.claims) s)
      × (e.permit_id ≡ p.claims.permit_id)
unfolding envelope_for
granted_store d m r binding class override epoch course text s p e h =
    let (g, _, issued_there, store, shaped) =
      grant_permit_ok d m r binding class override epoch course text s p e h in
    let (_, _, done, same) =
      issue_permit_ok d m r g course.obligations (bound_action d r course g) text binding class
        override epoch s p issued_there in
    let (_, registered, kept) =
      issue_parts d.settings.lib d.settings.permit_json d.issuer_name m.issuing _ s p done in
    let (written, _, _) = register_fresh p.claims s registered in
    (store ∙ same ∙ kept ∙ written, ap (λ x. x.permit_id) shaped)
