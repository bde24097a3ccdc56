-- ===== src/Verifier/Simulation.antt =====
-- VerifySimulationAndConsume and CheckExecution of internal/verifier/verifier.go.
use aegis_router.Base.{◌≡◌, true, false, arith, ◌⊎◌, ◌↔◌, inl, inr, ok, Bool-cases, subst}
use aegis_router.Text.{Bytes, bytes_eq}
use aegis_router.Base.Dict.{lookup-insert_self}
use aegis_router.Time.{Time, is_zero, before}
use aegis_router.Permit.Claims.{Claims, Class, execution, simulation, expires_time}
use aegis_router.Permit.Store.{issued, Record, Store, put, authority_moved}
use aegis_router.Permit.Store.Lifecycle.{Usable, consume_succeeded}
use aegis_router.Action.{Action}
use aegis_router.Verifier.{
  Settings, Boundary, Presented, verified, is_verified_outcome, allowed, trusted, with_permits,
  consume_time, consume_inspected, inspect_permit, inspect_claims, bind_action, check_execution,
  verify_simulation_and_consume,
}
use aegis_router.Verifier.Binding.{IsBound, bind_action_iff}
use aegis_router.Verifier.Inspection.{IsPresentable, inspect_permit_passes, inspect_permit_verified}
use aegis_router.Verifier.Spending.{consume_inspected_allowed, consume_inspected_succeeds}

-- What the verifier asks of a simulation.
pub record IsSimulable (v : Settings) (token : Bytes) (a : Action) (now clock : Time) (b : Boundary)
    (c : Claims) (r : Record) : Type 0 where
  pub presentable : IsPresentable v token simulation now b.permits c r
  pub bound : IsBound v a c
  pub alive :
      (is_zero (consume_time now clock) ≡ true)
      ⊎ (before (consume_time now clock) (expires_time r.claims) ≡ true)
  pub authorised : authority_moved r.claims b.permits ≡ false

inspect_permit_unused :
    (v : Settings) (token : Bytes) (class : Class) (now : Time) (s : Store)
    → (inspect_permit v token class now s).1.is_verified ≡ false
unfolding inspect_permit inspect_claims
inspect_permit_unused v token class now s = ground arith

simulation_inspected :
    (v : Settings) (token : Bytes) (a : Action) (now clock : Time) (b : Boundary) (c : Claims)
    (s : Store)
    → inspect_permit v token simulation now b.permits ≡ (s, trusted c verified issued now)
    → bind_action v a c ≡ ok tt
    → verify_simulation_and_consume v token a now clock b
      ≡ consume_inspected c (trusted c verified issued now) clock (with_permits b s)
unfolding verify_simulation_and_consume
simulation_inspected v token a now clock b c s h bound = ground arith

simulation_unbound :
    (v : Settings) (token : Bytes) (a : Action) (now clock : Time) (b : Boundary) (c : Claims)
    (s : Store)
    → inspect_permit v token simulation now b.permits ≡ (s, trusted c verified issued now)
    → allowed (verify_simulation_and_consume v token a now clock b).1 ≡ true
    → bind_action v a c ≡ ok tt
unfolding verify_simulation_and_consume
simulation_unbound v token a now clock b c s h passed = ground arith

simulation_uninspected :
    (v : Settings) (token : Bytes) (a : Action) (now clock : Time) (b : Boundary)
    → is_verified_outcome (inspect_permit v token simulation now b.permits).1.outcome ≡ false
    → allowed (verify_simulation_and_consume v token a now clock b).1 ≡ false
unfolding verify_simulation_and_consume
simulation_uninspected v token a now clock b h = ground arith

simulable-Usable :
    (v : Settings) (token : Bytes) (a : Action) (now clock : Time) (b : Boundary) (c : Claims)
    (r : Record)
    → IsSimulable v token a now clock b c r
    → Usable c.permit_id (consume_time now clock) (put c.permit_id r b.permits) r
unfolding authority_moved
simulable-Usable v token a now clock b c r q = record {
  found = lookup-insert_self c.permit_id r b.permits.records;
  active = q.presentable.active;
  alive = q.alive;
  authorised = q.authorised;
}

simulation_passes :
    (v : Settings) (token : Bytes) (a : Action) (now clock : Time) (b : Boundary) (c : Claims)
    (r : Record)
    → IsSimulable v token a now clock b c r
    → allowed (verify_simulation_and_consume v token a now clock b).1 ≡ true
simulation_passes v token a now clock b c r q =
    let opened = put c.permit_id r b.permits in
    let seen = inspect_permit_passes v token simulation now b.permits c r q.presentable in
    rw (
      simulation_inspected v token a now clock b c opened seen ((bind_action_iff v a c).1 q.bound),
      consume_inspected_succeeds c (trusted c verified issued now) r clock (with_permits b opened)
          (simulable-Usable v token a now clock b c r q),
    )

simulation_allowed :
    (v : Settings) (token : Bytes) (a : Action) (now clock : Time) (b : Boundary)
    → allowed (verify_simulation_and_consume v token a now clock b).1 ≡ true
    → (c : Claims) × (r : Record) × IsSimulable v token a now clock b c r
unfolding authority_moved
simulation_allowed v token a now clock b h =
    elim (Bool-cases
      (is_verified_outcome (inspect_permit v token simulation now b.permits).1.outcome)) [
        | inr failed ↦ absurd (cc (simulation_uninspected v token a now clock b failed, h))
        | inl passed ↦
            let (c, r, q) = inspect_permit_verified v token simulation now b.permits passed in
            let opened = put c.permit_id r b.permits in
            let seen = inspect_permit_passes v token simulation now b.permits c r q in
            let bound = simulation_unbound v token a now clock b c opened seen h in
            let done =
              consume_inspected_allowed c (trusted c verified issued now) clock
                (with_permits b opened)
                (rw (simulation_inspected v token a now clock b c opened seen bound) at h) in
            let (x, u) = consume_succeeded c.permit_id (consume_time now clock) opened done in
            let same : x ≡ r =
              ground (arith, u.found, lookup-insert_self c.permit_id r b.permits.records) in
            (
              c,
              r,
              record {
                presentable = q;
                bound = (bind_action_iff v a c).0 bound;
                alive =
                    subst
                      (λ y.
                        (is_zero (consume_time now clock) ≡ true)
                        ⊎ (before (consume_time now clock) (expires_time y.claims) ≡ true))
                      same u.alive;
                authorised =
                    subst (λ y. authority_moved y.claims b.permits ≡ false) same u.authorised;
              },
            )
      ]

-- A simulation is allowed exactly when the permit token verifies to simulation claims of the
-- expected issuer that the store holds as an issued permit inside its time, the action is bound to
-- them, and at the consume time the permit has not expired and its authority has not moved.
pub simulation_allowed_iff :
    (v : Settings) (token : Bytes) (a : Action) (now clock : Time) (b : Boundary)
    → (allowed (verify_simulation_and_consume v token a now clock b).1 ≡ true)
      ↔ ((c : Claims) × (r : Record) × IsSimulable v token a now clock b c r)
simulation_allowed_iff v token a now clock b = (
  simulation_allowed v token a now clock b,
  λ (c, r, q). simulation_passes v token a now clock b c r q,
)

-- CheckExecution never allows, leaves the nonces, and does to the permits what the inspection
-- alone does.
pub check_execution_refuses :
    (v : Settings) (p : Presented) (now : Time) (b : Boundary)
    → (allowed (check_execution v p.permit_token p.action now b).1 ≡ false)
      × ((check_execution v p.permit_token p.action now b).0.permits
          ≡ (inspect_permit v p.permit_token execution now b.permits).0)
      × ((check_execution v p.permit_token p.action now b).0.nonces ≡ b.nonces)
unfolding check_execution
check_execution_refuses v p now b =
    ground (arith, inspect_permit_unused v p.permit_token execution now b.permits)
