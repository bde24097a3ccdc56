-- ===== src/Router/Permits/Lifetime.antt =====
-- How long a permit of issuePermit of internal/router/router.go lasts.
use aegis_router.Base.{
  ℕ, ◌*◌, ◌-◌, ◌/◌, ◌%◌, ◌≤◌, ◌≡◌, refl, false, Option, none, some, ok, inl, inr, ◌⊎◌, arith,
  Bool-cases, ◌==◌, nat_eq, ap, ◌∙◌,
}
use aegis_router.Base.Int.{ℤ, pos, negsuc, ◌+ℤ◌, ◌-ℤ◌, ◌*ℤ◌, ◌≤ℤ◌, ltb_ℤ, pos_part}
use aegis_router.Text.{Bytes}
use aegis_router.Time.{Time, second, wrap_int64}
use aegis_router.Permit.Claims.{Class, Obligations}
use aegis_router.Permit.Issuer.{IssuedPermit, issue, max_ttl}
use aegis_router.Permit.Issuer.Registers.{lifetime, issue_registers}
use aegis_router.Permit.Store.{Store}
use aegis_router.Models.{
  AuthorizationConstraints, Request, MatchedAuthorizationGrant, effective_authority,
}
use aegis_router.Action.{Action}
use aegis_router.Intake.{WorkloadBinding}
use aegis_router.Router.{Deployment, Moment}
use aegis_router.Router.Permits.{
  configured_ttl, shorter, requested_ttl, granted_ttl, permit_lifetime, issue_request, issue_permit,
}

-- The bounds on the lifetime of a permit: the configured one, the one that the grant allows, and what
-- is left of the delegation.
pub record IsWithinLimits (configured : ℕ) (k : AuthorizationConstraints) (expires : Option Time)
    (started : Time) (t : ℤ) : Type 0 where
  pub by_router : t ≤ℤ pos configured
  pub by_grant :
      (ltb_ℤ (pos 0) k.max_duration_ms ≡ false) ⊎ (t ≤ℤ wrap_int64 (k.max_duration_ms *ℤ 1_000_000))
  pub by_delegation :
      (expires ≡ none) ⊎ ((at : Time) × (expires ≡ some at) × (t ≤ℤ (at -ℤ started)))

shorter_bounds : (limit ttl : ℤ) → (shorter limit ttl ≤ℤ limit) × (shorter limit ttl ≤ℤ ttl)
unfolding shorter
shorter_bounds limit ttl = ground arith

requested_bounds : (configured override : ℕ) → requested_ttl configured override ≤ℤ pos configured
unfolding requested_ttl
requested_bounds configured override = ground arith

granted_bounds :
    (k : AuthorizationConstraints) (ttl : ℤ)
    → (granted_ttl k ttl ≤ℤ ttl)
      × ((ltb_ℤ (pos 0) k.max_duration_ms ≡ false)
          ⊎ (granted_ttl k ttl ≤ℤ wrap_int64 (k.max_duration_ms *ℤ 1_000_000)))
unfolding granted_ttl
granted_bounds k ttl = elim (Bool-cases (ltb_ℤ (pos 0) k.max_duration_ms)) [
  | inr unlimited ↦ rw (granted_ttl, unlimited) (omega arith, inl refl)
  | inl limited ↦
      let (least, below) = shorter_bounds (wrap_int64 (k.max_duration_ms *ℤ 1_000_000)) ttl in
      rw (granted_ttl, limited) (below, inr least)
]

-- A lifetime that is cut further stays within the limits.
cut_limits :
    (configured : ℕ) (k : AuthorizationConstraints) (expires : Option Time) (started : Time)
    (t u : ℤ)
    → u ≤ℤ t
    → IsWithinLimits configured k expires started t
    → IsWithinLimits configured k expires started u
cut_limits configured k expires started t u cut h = record {
  by_router = ground (arith, cut, h.by_router);
  by_grant = elim h.by_grant [ inl free ↦ inl free | inr below ↦ inr (omega (arith, cut, below)) ];
  by_delegation = elim h.by_delegation [
    | inl endless ↦ inl endless
    | inr (at, ends, below) ↦ inr (at, ends, omega (arith, cut, below))
  ];
}

granted-IsWithinLimits :
    (configured override : ℕ) (k : AuthorizationConstraints) (started : Time)
    → IsWithinLimits configured k none started (granted_ttl k (requested_ttl configured override))
granted-IsWithinLimits configured override k started =
    let (below, by_grant) = granted_bounds k (requested_ttl configured override) in
    record {
      by_router = omega (arith, below, requested_bounds configured override);
      by_grant = by_grant;
      by_delegation = inl refl;
    }

pub permit_lifetime-IsWithinLimits :
    (configured override : ℕ) (k : AuthorizationConstraints) (expires : Option Time)
    (started : Time)
    → IsWithinLimits configured k expires started
        (permit_lifetime configured override k expires started)
unfolding permit_lifetime
permit_lifetime-IsWithinLimits configured override k none started =
    granted-IsWithinLimits configured override k started
permit_lifetime-IsWithinLimits configured override k (some at) started =
    let (left, below) =
      shorter_bounds (at -ℤ started) (granted_ttl k (requested_ttl configured override)) in
    let h =
      cut_limits configured k none started _ _ below
        (granted-IsWithinLimits configured override k started) in
    record { by_router = h.by_router; by_grant = h.by_grant; by_delegation = inr (at, refl, left) }

-- The lifetime in whole seconds, and the call of the issuer with it
pub issue_permit_ok :
    (d : Deployment) (m : Moment) (r : Request) (grant : MatchedAuthorizationGrant)
    (o : Obligations) (a : Action) (text : Bytes) (binding : WorkloadBinding) (class : Class)
    (override epoch : ℕ) (s : Store) (p : IssuedPermit)
    → (issue_permit d m r grant o a text binding class override epoch s).1 ≡ ok p
    → let t =
        permit_lifetime d.permit_ttl override grant.constraints
          (effective_authority r).expires_at
          m.started in
      let whole = pos_part t - pos_part t % second in
      let q = issue_request d r o a text binding class epoch whole in
      (second ≤ whole)
      × (whole ≤ pos_part t)
      × ((issue d.settings.lib d.settings.permit_json d.issuer_name m.issuing q s).1 ≡ ok p)
      × ((issue_permit d m r grant o a text binding class override epoch s).0
          ≡ (issue d.settings.lib d.settings.permit_json d.issuer_name m.issuing q s).0)
unfolding issue_permit
issue_permit_ok d m r grant o a text binding class override epoch s p h = ground arith

whole_seconds :
    (t : ℤ) (whole : ℕ)
    → second ≤ whole
    → whole ≤ pos_part t
    → (1 ≤ whole / second) × (pos (whole / second * second) ≤ℤ t) × ((whole == 0) ≡ false)
whole_seconds (pos n) whole least most = (omega arith, omega arith, ground arith)
whole_seconds (negsuc n) whole least most = absurd (omega (arith, least, most))

-- A permit that issuePermit returns lives a whole number of seconds, at least one and at most the
-- largest lifetime, and no longer than the router is configured for, than a positive duration of
-- the grant, reduced to 64 bits, and than what is left of the delegation.
pub issue_permit_limits :
    (d : Deployment) (m : Moment) (r : Request) (grant : MatchedAuthorizationGrant)
    (o : Obligations) (a : Action) (text : Bytes) (binding : WorkloadBinding) (class : Class)
    (override epoch : ℕ) (s : Store) (p : IssuedPermit)
    → (issue_permit d m r grant o a text binding class override epoch s).1 ≡ ok p
    → (n : ℕ) × (p.claims.expires_at ≡ p.claims.issued_at +ℤ pos n)
      × (1 ≤ n)
      × (n * second ≤ max_ttl)
      × IsWithinLimits d.permit_ttl grant.constraints
          (effective_authority r).expires_at
          m.started
          (pos (n * second))
unfolding issue_request
issue_permit_limits d m r grant o a text binding class override epoch s p h =
    let k = grant.constraints in
    let expires = (effective_authority r).expires_at in
    let t = permit_lifetime d.permit_ttl override k expires m.started in
    let whole = pos_part t - pos_part t % second in
    let (least, most, done, _) =
      issue_permit_ok d m r grant o a text binding class override epoch s p h in
    let q = issue_request d r o a text binding class epoch whole in
    let (_, _, _, bounded, expires_at) =
      issue_registers d.settings.lib d.settings.permit_json d.issuer_name m.issuing q s p done in
    let (some_seconds, cut, given) = whole_seconds t whole least most in
    let same : lifetime q ≡ whole = rw given refl in
    (
      whole / second,
      expires_at ∙ ap (λ x. p.claims.issued_at +ℤ pos (x / second)) same,
      some_seconds,
      omega (arith, bounded, same),
      cut_limits d.permit_ttl k expires m.started t (pos (whole / second * second)) cut
          (permit_lifetime-IsWithinLimits d.permit_ttl override k expires m.started),
    )

-- The configured lifetime is positive and at most the largest one.
pub configured_ttl_bounds :
    (seconds : ℤ) → (1 ≤ configured_ttl seconds) × (configured_ttl seconds ≤ max_ttl)
unfolding configured_ttl
configured_ttl_bounds seconds = ground arith
