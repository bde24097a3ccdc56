-- ===== src/Router/Decision/Grounds.antt =====
-- What the decision of authorizeResolvedAction of internal/router/router.go rests on.
use aegis_router.Base.{
  ◌≡◌, refl, true, none, some, ok, err, inl, inr, arith, Option-cases, Result-cases, ◌⊎◌, ◌≢◌, ap,
  ◌∙◌, sym,
}
use aegis_router.Permit.Claims.{Class-discrete, execution, class_eq}
use aegis_router.Permit.Authority.{AuthorityState}
use aegis_router.Models.{Request, MatchedAuthorizationGrant, PolicyDecision, authorized, status_eq}
use aegis_router.Action.{Action}
use aegis_router.Semantic.{PolicyFacts}
use aegis_router.Policy.{evaluate_request}
use aegis_router.Semantic.Registry.{PreparedExecution, PrepareError}
use aegis_router.Router.{Deployment, Moment}
use aegis_router.Router.Actions.{prepare_semantic_action, resolve_authorized_action}
use aegis_router.Router.Decision.{
  Course, course_of, under_authority, first_course, eligible, unresolved_course, checked_request,
  resolved_course, decide_course,
}

pub eligible_sound :
    (p : PolicyDecision) (g : MatchedAuthorizationGrant)
    → eligible p ≡ some g
    → (p.is_authorized ≡ true) × (p.status ≡ authorized) × (p.grant ≡ some g)
eligible_sound p g h = ground arith

-- The grounds on which an execution permit may be issued: the policy authorizes the request and, once
-- more, the prepared operation, and the security domain is enabled.
pub record IsGrounded (d : Deployment) (m : Moment) (r : Request) (a : AuthorityState)
    (p : PreparedExecution) (grant : MatchedAuthorizationGrant) : Type 0 where
  pub enabled : a.enabled ≡ true
  pub first : (evaluate_request d.library.unicode d.policy r m.policy_time).is_authorized ≡ true
  pub prepared : prepare_semantic_action d r ≡ ok p
  pub second :
      let checked = checked_request r p.action p.policy_facts in
      (evaluate_request d.library.unicode d.policy checked m.recheck_time).is_authorized ≡ true
  pub granted :
      let checked = checked_request r p.action p.policy_facts in
      (evaluate_request d.library.unicode d.policy checked m.recheck_time).grant ≡ some grant

under_authority-eligible :
    (a : AuthorityState) (p : PolicyDecision) (g : MatchedAuthorizationGrant)
    → eligible (under_authority execution a p) ≡ some g
    → (a.enabled ≡ true) × (p.is_authorized ≡ true)
unfolding under_authority
under_authority-eligible a p g h = ground arith

first_course-eligible :
    (d : Deployment) (m : Moment) (r : Request) (a : AuthorityState) (g : MatchedAuthorizationGrant)
    → eligible (first_course d m r execution a).decision ≡ some g
    → (a.enabled ≡ true)
      × ((evaluate_request d.library.unicode d.policy r m.policy_time).is_authorized ≡ true)
unfolding first_course
first_course-eligible d m r a g h =
    under_authority-eligible a (evaluate_request d.library.unicode d.policy r m.policy_time) g h

resolve_execution :
    (d : Deployment) (r : Request) (g : MatchedAuthorizationGrant)
    → ((p : PreparedExecution) × (prepare_semantic_action d r ≡ ok p)
        × (resolve_authorized_action d r g execution ≡ ok (p.action, p.policy_facts)))
      ⊎ ((e : PrepareError) × (resolve_authorized_action d r g execution ≡ err e))
unfolding resolve_authorized_action Class-discrete
resolve_execution d r g = elim (Result-cases (prepare_semantic_action d r)) [
  | inl (p, prepared) ↦ inl (p, prepared, rw (resolve_authorized_action, prepared) refl)
  | inr (e, failed) ↦ inr (e, rw (resolve_authorized_action, failed) refl)
]

unresolved_ineligible :
    (e : PrepareError) (c : Course) (g : MatchedAuthorizationGrant)
    → eligible (unresolved_course e c).decision ≢ some g
unresolved_ineligible e c g h = absurd (ground arith)

-- The three ways of the decision on an execution.
decide_execution :
    (d : Deployment) (m : Moment) (r : Request) (a : AuthorityState)
    → let course = first_course d m r execution a in
      ((eligible course.decision ≡ none) × (decide_course d m r execution a ≡ course))
      ⊎ ((e : PrepareError) × (decide_course d m r execution a ≡ unresolved_course e course))
      ⊎ ((g : MatchedAuthorizationGrant) × (p : PreparedExecution) × (eligible course.decision
            ≡ some g)
          × (prepare_semantic_action d r ≡ ok p)
          × (decide_course d m r execution a
              ≡ resolved_course d m r execution course p.action p.policy_facts))
unfolding decide_course
decide_execution d m r a =
    elim (Option-cases (eligible (first_course d m r execution a).decision)) [
      | inl ineligible ↦ inl (ineligible, rw (decide_course, ineligible) refl)
      | inr (g, found) ↦ elim (resolve_execution d r g) [
        | inr (e, failed) ↦ inr (inl (e, rw (decide_course, found, failed) refl))
        | inl (p, prepared, done) ↦
            inr (inr (g, p, found, prepared, rw (decide_course, found, done) refl))
      ]
    ]

resolved_execution :
    (d : Deployment) (m : Moment) (r : Request) (c : Course) (x : Action) (facts : PolicyFacts)
    → let checked = checked_request r x facts in
      resolved_course d m r execution c x facts
      ≡ course_of (evaluate_request d.library.unicode d.policy checked m.recheck_time) (some x)
unfolding resolved_course Class-discrete
resolved_execution d m r c x facts = refl

-- A course with a grant for an execution permit rests on two authorizing evaluations, the second of them
-- of the prepared operation, under an enabled authority.
pub decide_course_sound :
    (d : Deployment) (m : Moment) (r : Request) (a : AuthorityState) (g : MatchedAuthorizationGrant)
    → eligible (decide_course d m r execution a).decision ≡ some g
    → (p : PreparedExecution) × IsGrounded d m r a p g
      × ((decide_course d m r execution a).resolved ≡ some p.action)
decide_course_sound d m r a g h = elim (decide_execution d m r a) [
  | inl (ineligible, same) ↦ absurd (cc (sym (ap (λ c. eligible c.decision) same) ∙ h, ineligible))
  | inr (inl (e, same)) ↦
      absurd (unresolved_ineligible e (first_course d m r execution a) g (rw same at h))
  | inr (inr (first, p, found, prepared, same)) ↦
      let again =
        same ∙ resolved_execution d m r (first_course d m r execution a) p.action p.policy_facts in
      let (enabled, fine) = first_course-eligible d m r a first found in
      let (second, _, granted) =
        eligible_sound
          (evaluate_request d.library.unicode d.policy (checked_request r p.action p.policy_facts)
            m.recheck_time)
          g (ap (λ c. eligible c.decision) (sym again) ∙ h) in
      (
        p,
        record {
          enabled = enabled;
          first = fine;
          prepared = prepared;
          second = second;
          granted = granted;
        },
        ap (λ c. c.resolved) again,
      )
]
