-- ===== src/Observer/Verdicts.antt =====
-- The verdicts of internal/observer/observer.go.
use aegis_router.Base.{
  ◌≡◌, refl, ◌≢◌, true, false, List, [], ◌∷◌, ◌++◌, some, ◌↔◌, ◌⊎◌, inl, inr, arith, All, In,
  contains_iff, ◌∙◌,
}
use aegis_router.Base.Int.{pos, ltb_ℤ, ◌-ℤ◌}
use aegis_router.Text.{str, bytes_eq, is_empty, is_nonempty}
use aegis_router.Time.{Time, is_zero, after, milliseconds}
use aegis_router.Models.{Unicode, is_write_operation}
use aegis_router.Runtime.{
  EventSource, gateway_enforced, instrumented_adapter, agent_self_reported, os_sensor,
  network_sensor, simulated_demo, other_source, TrustLevel, enforced, adapter_reported,
  self_reported, independent_sensor, simulated, Envelope, RuntimeEvent, Rule, trust_eq,
  EventEvaluation, rejected_event, boundary_violation,
}
use aegis_router.Observer.{
  Test, trust_for_source, reject, boundary, binding_tests, boundary_tests, granted_effects,
  first_evaluation, judge, evaluate_event,
}

-- No test of the list finds anything.
abbrev pub AllClear : List Test → Type 0
AllClear = All (λ t. t.0 ≡ false)

-- An evaluation without violations, and one that a violation ends.
pub record IsClean (r : EventEvaluation) : Type 0 where
  pub accepted : r.is_accepted ≡ true
  pub within : r.is_within ≡ true
  pub running : r.is_terminated ≡ false
  pub clean : r.violations ≡ []

pub record IsEnded (r : EventEvaluation) : Type 0 where
  pub outside : r.is_within ≡ false
  pub terminated : r.is_terminated ≡ true
  pub reported : r.violations ≢ []

appended : (xs : List Rule) (x : Rule) → (xs ++ x ∷ []) ≢ []
appended [] x = ground arith
appended (y ∷ xs) x = ground arith

reject-IsEnded :
    (ts : List Test) (r : EventEvaluation)
    → r.is_accepted ≡ false
    → IsEnded r
    → ((reject ts r).is_accepted ≡ false) × IsEnded (reject ts r)
unfolding reject
reject-IsEnded [] r h e = (h, e)
reject-IsEnded ((true, rule) ∷ ts) r h e =
    reject-IsEnded ts _ refl
      (record { outside = refl; terminated = refl; reported = appended r.violations rule })
reject-IsEnded ((false, rule) ∷ ts) r h e = reject-IsEnded ts r h e

boundary-IsEnded :
    (ts : List Test) (r : EventEvaluation)
    → IsEnded r
    → ((boundary ts r).is_accepted ≡ r.is_accepted) × IsEnded (boundary ts r)
unfolding boundary
boundary-IsEnded [] r e = (refl, e)
boundary-IsEnded ((true, rule) ∷ ts) r e =
    boundary-IsEnded ts _
      (record { outside = refl; terminated = refl; reported = appended r.violations rule })
boundary-IsEnded ((false, rule) ∷ ts) r e = boundary-IsEnded ts r e

reject_cases :
    (ts : List Test) (r : EventEvaluation)
    → (AllClear ts × (reject ts r ≡ r))
      ⊎ ((¬ AllClear ts) × ((reject ts r).is_accepted ≡ false) × IsEnded (reject ts r))
unfolding reject
reject_cases [] r = inl (tt, refl)
reject_cases ((true, rule) ∷ ts) r =
    let (accepted, ended) =
      reject-IsEnded ts _ refl
        (record { outside = refl; terminated = refl; reported = appended r.violations rule }) in
    inr (λ h. absurd (cc h.0), accepted, ended)
reject_cases ((false, rule) ∷ ts) r = elim (reject_cases ts r) [
  | inl (clear, same) ↦ inl ((refl, clear), same)
  | inr (found, accepted, ended) ↦ inr (λ h. found h.1, accepted, ended)
]

boundary_cases :
    (ts : List Test) (r : EventEvaluation)
    → (AllClear ts × (boundary ts r ≡ r))
      ⊎ ((¬ AllClear ts) × ((boundary ts r).is_accepted ≡ r.is_accepted) × IsEnded (boundary ts r))
unfolding boundary
boundary_cases [] r = inl (tt, refl)
boundary_cases ((true, rule) ∷ ts) r =
    let (accepted, ended) =
      boundary-IsEnded ts _
        (record { outside = refl; terminated = refl; reported = appended r.violations rule }) in
    inr (λ h. absurd (cc h.0), accepted, ended)
boundary_cases ((false, rule) ∷ ts) r = elim (boundary_cases ts r) [
  | inl (clear, same) ↦ inl ((refl, clear), same)
  | inr (found, accepted, ended) ↦ inr (λ h. found h.1, accepted, ended)
]

-- What an event of a permit looks like that is rejected, that crosses the boundary, and that stays
-- within it.
pub data Judged (u : Unicode) (p : Envelope) (e : RuntimeEvent) (now : Time)
    : EventEvaluation → Type 0 where
  rejected :
      {r : EventEvaluation}
      → ¬ AllClear (binding_tests p e now)
      → r.is_accepted ≡ false
      → IsEnded r
      → r.verdict ≡ rejected_event
      → Judged u p e now r
  crossed :
      {r : EventEvaluation}
      → AllClear (binding_tests p e now)
      → ¬ AllClear (boundary_tests u p e)
      → r.is_accepted ≡ true
      → IsEnded r
      → r.verdict ≡ boundary_violation
      → Judged u p e now r
  stayed :
      {r : EventEvaluation}
      → AllClear (binding_tests p e now)
      → AllClear (boundary_tests u p e)
      → r ≡ first_evaluation e
      → Judged u p e now r

judge_clear :
    (ts : List Test) (r : EventEvaluation)
    → (boundary ts r).is_within ≡ true
    → judge ts r ≡ boundary ts r
unfolding judge
judge_clear ts r h = rw (judge, h) refl

judge_crossed :
    (ts : List Test) (r : EventEvaluation)
    → (boundary ts r).is_within ≡ false
    → judge ts r ≡ record (boundary ts r) { verdict = boundary_violation }
unfolding judge
judge_crossed ts r h = rw (judge, h) refl

evaluate_rejected :
    (u : Unicode) (p : Envelope) (e : RuntimeEvent) (now : Time)
    → (reject (binding_tests p e now) (first_evaluation e)).is_accepted ≡ false
    → evaluate_event u p e now
      ≡ record (reject (binding_tests p e now) (first_evaluation e)) { verdict = rejected_event }
unfolding evaluate_event
evaluate_rejected u p e now h = rw (evaluate_event, h) refl

evaluate_accepted :
    (u : Unicode) (p : Envelope) (e : RuntimeEvent) (now : Time)
    → reject (binding_tests p e now) (first_evaluation e) ≡ first_evaluation e
    → evaluate_event u p e now ≡ judge (boundary_tests u p e) (first_evaluation e)
unfolding evaluate_event
evaluate_accepted u p e now h = rw (evaluate_event, h) refl

-- An evaluation is a rejection, a violation of the boundary, or a permission, by the tests that were found.
pub evaluate_event-Judged :
    (u : Unicode) (p : Envelope) (e : RuntimeEvent) (now : Time)
    → Judged u p e now (evaluate_event u p e now)
evaluate_event-Judged u p e now = elim (reject_cases (binding_tests p e now) (first_evaluation e)) [
  | inr (found, refused, ended) ↦ rw (evaluate_rejected u p e now refused) (
      rejected found refused
        (record {
          outside = ended.outside;
          terminated = ended.terminated;
          reported = ended.reported;
        })
        refl)
  | inl (bound, same) ↦ elim (boundary_cases (boundary_tests u p e) (first_evaluation e)) [
    | inr (found, accepted, ended) ↦
        rw
          (
            evaluate_accepted u p e now same,
            judge_crossed (boundary_tests u p e) (first_evaluation e) ended.outside,
          )
          (crossed bound found accepted
            (record {
              outside = ended.outside;
              terminated = ended.terminated;
              reported = ended.reported;
            })
            refl)
    | inl (clear, kept) ↦ stayed bound clear (
        evaluate_accepted u p e now same
        ∙ judge_clear (boundary_tests u p e) (first_evaluation e) (rw kept)
        ∙ kept)
  ]
]

-- The trust level of each source; another source has none.
abbrev pub IsEvidenceOf : EventSource → TrustLevel → Type 0
IsEvidenceOf gateway_enforced t = t ≡ enforced
IsEvidenceOf instrumented_adapter t = t ≡ adapter_reported
IsEvidenceOf agent_self_reported t = t ≡ self_reported
IsEvidenceOf os_sensor t = t ≡ independent_sensor
IsEvidenceOf network_sensor t = t ≡ independent_sensor
IsEvidenceOf simulated_demo t = t ≡ simulated
IsEvidenceOf (other_source s) t = ⊥

trust_for_source_iff :
    (source : EventSource) (t : TrustLevel)
    → (trust_for_source source ≡ some t) ↔ IsEvidenceOf source t
unfolding trust_for_source
trust_for_source_iff gateway_enforced t = ground arith
trust_for_source_iff instrumented_adapter t = ground arith
trust_for_source_iff agent_self_reported t = ground arith
trust_for_source_iff os_sensor t = ground arith
trust_for_source_iff network_sensor t = ground arith
trust_for_source_iff simulated_demo t = ground arith
trust_for_source_iff (other_source s) t = ground arith

-- The event names itself, its evidence has the trust of its source, it is bound to the permit's
-- request, agent and workload, and it falls in the lifetime of the permit.
pub record IsBoundEvent (p : Envelope) (e : RuntimeEvent) (now : Time) : Type 0 where
  pub named : is_empty e.event_id ≡ false
  pub trusted : IsEvidenceOf e.source e.trust_level
  pub known : is_empty p.permit_id ≡ false
  pub permit : e.permit_id ≡ p.permit_id
  pub request : e.request_id ≡ p.request_id
  pub agent : e.agent_id ≡ p.agent_id
  pub workload : (is_nonempty e.workload_id ≡ false) ⊎ (e.workload_id ≡ p.workload_id)
  pub alive : after p.expires_at now ≡ true
  pub timely : (is_zero e.timestamp ≡ true) ⊎ (after e.timestamp p.expires_at ≡ false)

-- It does what the envelope allows.
pub record IsWithinEnvelope (u : Unicode) (p : Envelope) (e : RuntimeEvent) : Type 0 where
  pub capability : e.capability ≡ p.allowed_capability
  pub tool : e.tool ≡ p.allowed_tool
  pub resource : e.resource ≡ p.allowed_resource
  pub operation : In e.operation p.allowed_operations
  pub egress : (e.is_external ≡ false) ⊎ (p.constraints.network_egress ≡ str "allow")
  pub secrets : (e.secret_access ≡ false) ⊎ (p.constraints.secret_access ≡ str "allow")
  pub writes :
      (is_write_operation u e.operation ≡ false) ⊎ (p.constraints.write_access ≡ str "allow")
  pub effects :
      (is_nonempty e.side_effect ≡ false)
      ⊎ (e.side_effect ≡ str "none")
      ⊎ (e.side_effect ≡ str "read_only")
      ⊎ In e.side_effect (granted_effects p.constraints)
  pub size :
      (ltb_ℤ (pos 0) p.constraints.max_bytes ≡ false)
      ⊎ (ltb_ℤ p.constraints.max_bytes e.byte_count ≡ false)
  pub duration :
      (ltb_ℤ (pos 0) p.constraints.max_duration_ms ≡ false)
      ⊎ (is_zero e.timestamp ≡ true)
      ⊎ (ltb_ℤ p.constraints.max_duration_ms (milliseconds (e.timestamp -ℤ p.issued_at)) ≡ false)

binding_clear_iff :
    (p : Envelope) (e : RuntimeEvent) (now : Time)
    → AllClear (binding_tests p e now) ↔ IsBoundEvent p e now
unfolding binding_tests
binding_clear_iff p e now = ground (arith, trust_for_source_iff e.source e.trust_level)

boundary_clear_iff :
    (u : Unicode) (p : Envelope) (e : RuntimeEvent)
    → AllClear (boundary_tests u p e) ↔ IsWithinEnvelope u p e
unfolding boundary_tests
boundary_clear_iff u p e = ground (
  arith,
  contains_iff p.allowed_operations e.operation,
  contains_iff (granted_effects p.constraints) e.side_effect,
)

Judged-permitted :
    (u : Unicode) (p : Envelope) (e : RuntimeEvent) (now : Time) (r : EventEvaluation)
    → Judged u p e now r
    → r.is_within ≡ true
    → AllClear (binding_tests p e now) × AllClear (boundary_tests u p e)
Judged-permitted u p e now r (rejected found refused ended verdict) h =
    absurd (cc (h, ended.outside))
Judged-permitted u p e now r (crossed bound found accepted ended verdict) h =
    absurd (cc (h, ended.outside))
Judged-permitted u p e now r (stayed bound clear same) h = (bound, clear)

Judged-clear :
    (u : Unicode) (p : Envelope) (e : RuntimeEvent) (now : Time) (r : EventEvaluation)
    → Judged u p e now r
    → AllClear (binding_tests p e now)
    → AllClear (boundary_tests u p e)
    → r ≡ first_evaluation e
Judged-clear u p e now r (rejected found refused ended verdict) b w = absurd (found b)
Judged-clear u p e now r (crossed bound found accepted ended verdict) b w = absurd (found w)
Judged-clear u p e now r (stayed bound clear same) b w = same

-- Evaluate finds an event within the envelope exactly when the event has an identifier, evidence
-- at the trust level of its source, the identifiers of the permit, the request, the agent and, if
-- it names one, the workload, and a time in the lifetime of the permit, and stays within the
-- capability, the tool, the resource, the operations, the effects, the bytes and the duration that
-- the envelope grants.
pub evaluate_event_iff :
    (u : Unicode) (p : Envelope) (e : RuntimeEvent) (now : Time)
    → ((evaluate_event u p e now).is_within ≡ true)
      ↔ (IsBoundEvent p e now × IsWithinEnvelope u p e)
evaluate_event_iff u p e now = (
  λ h.
      let (bound, clear) =
        Judged-permitted u p e now (evaluate_event u p e now) (evaluate_event-Judged u p e now) h in
      ((binding_clear_iff p e now).0 bound, (boundary_clear_iff u p e).0 clear),
  λ (b, w). rw (
      Judged-clear u p e now (evaluate_event u p e now) (evaluate_event-Judged u p e now)
        ((binding_clear_iff p e now).1 b) ((boundary_clear_iff u p e).1 w)),
)
