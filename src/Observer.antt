-- ===== src/Observer.antt =====
-- internal/observer/observer.go: a runtime event against the envelope of its permit.
pub mod Ends
pub mod Verdicts
use aegis_router.Base.{
  Bool, true, false, not, ◌&&◌, ◌||◌, List, [], ◌∷◌, ◌++◌, Option, none, some, ◌==◌, ◌!=◌, contains,
  if◌then◌else◌,
}
use aegis_router.Base.Int.{pos, ◌-ℤ◌, ltb_ℤ}
use aegis_router.Text.{Bytes, str, bytes_eq, is_empty, is_nonempty}
use aegis_router.Time.{Time, is_zero, after, milliseconds}
use aegis_router.Models.{Unicode, AuthorizationConstraints, is_write_operation}
use aegis_router.Runtime.{
  EventSource, gateway_enforced, instrumented_adapter, agent_self_reported, os_sensor,
  network_sensor, simulated_demo, TrustLevel, enforced, adapter_reported, self_reported,
  independent_sensor, simulated, trust_eq, Envelope, RuntimeEvent, Rule, event_id_missing,
  source_unknown, source_trust_mismatch, permit_binding_mismatch, request_binding_mismatch,
  agent_binding_mismatch, workload_binding_mismatch, permit_expired, capability_exceeded,
  tool_exceeded, resource_exceeded, operation_exceeded, network_egress_denied, secret_access_denied,
  write_access_denied, side_effect_denied, max_bytes_exceeded, max_duration_exceeded,
  permitted_event, rejected_event, boundary_violation, EventEvaluation,
}

-- trustForSource
unfoldable pub trust_for_source : EventSource → Option TrustLevel
trust_for_source gateway_enforced = some enforced
trust_for_source instrumented_adapter = some adapter_reported
trust_for_source agent_self_reported = some self_reported
trust_for_source os_sensor = some independent_sensor
trust_for_source network_sensor = some independent_sensor
trust_for_source simulated_demo = some simulated
trust_for_source _ = none

-- A test of Evaluate with the rule of its violation.
abbrev pub Test : Type 0
Test = Bool × Rule

-- The closure `reject` under its tests, one after the other
unfoldable pub reject : List Test → EventEvaluation → EventEvaluation
reject [] result = result
reject ((found, rule) ∷ tests) result = reject tests (
    if found
    then record result {
      is_accepted = false;
      is_within = false;
      is_terminated = true;
      violations = result.violations ++ rule ∷ [];
    }
    else result)

-- The closure `boundary` likewise
unfoldable pub boundary : List Test → EventEvaluation → EventEvaluation
boundary [] result = result
boundary ((found, rule) ∷ tests) result = boundary tests (
    if found
    then record result {
      is_within = false;
      is_terminated = true;
      violations = result.violations ++ rule ∷ [];
    }
    else result)

abbrev pub is_unknown : Option TrustLevel → Bool
is_unknown none = true
is_unknown (some t) = false

abbrev pub is_other : Option TrustLevel → TrustLevel → Bool
is_other none given = false
is_other (some t) given = t != given

-- The tests of the binding and of the evidence
unfoldable pub binding_tests : Envelope → RuntimeEvent → Time → List Test
binding_tests p e now =
    (is_empty e.event_id, event_id_missing)
    ∷ (is_unknown (trust_for_source e.source), source_unknown)
    ∷ (is_other (trust_for_source e.source) e.trust_level, source_trust_mismatch)
    ∷ (is_empty p.permit_id || e.permit_id != p.permit_id, permit_binding_mismatch)
    ∷ (e.request_id != p.request_id, request_binding_mismatch)
    ∷ (e.agent_id != p.agent_id, agent_binding_mismatch)
    ∷ (is_nonempty e.workload_id && e.workload_id != p.workload_id, workload_binding_mismatch)
    ∷ (
      not (after p.expires_at now) || (not (is_zero e.timestamp) && after e.timestamp p.expires_at),
      permit_expired,
    )
    ∷ []

abbrev pub granted_effects : AuthorizationConstraints → List Bytes
granted_effects k = elim k.allowed_side_effects [ none ↦ [] | some effects ↦ effects ]

-- The tests of the boundary
unfoldable pub boundary_tests : Unicode → Envelope → RuntimeEvent → List Test
boundary_tests u p e =
    let k = p.constraints in
    (e.capability != p.allowed_capability, capability_exceeded)
    ∷ (e.tool != p.allowed_tool, tool_exceeded)
    ∷ (e.resource != p.allowed_resource, resource_exceeded)
    ∷ (not (contains p.allowed_operations e.operation), operation_exceeded)
    ∷ (e.is_external && k.network_egress != str "allow", network_egress_denied)
    ∷ (e.secret_access && k.secret_access != str "allow", secret_access_denied)
    ∷ (is_write_operation u e.operation && k.write_access != str "allow", write_access_denied)
    ∷ (
      is_nonempty e.side_effect
          && e.side_effect != str "none"
          && e.side_effect != str "read_only"
          && not (contains (granted_effects k) e.side_effect),
      side_effect_denied,
    )
    ∷ (ltb_ℤ (pos 0) k.max_bytes && ltb_ℤ k.max_bytes e.byte_count, max_bytes_exceeded)
    ∷ (
      ltb_ℤ (pos 0) k.max_duration_ms
          && not (is_zero e.timestamp)
          && ltb_ℤ k.max_duration_ms (milliseconds (e.timestamp -ℤ p.issued_at)),
      max_duration_exceeded,
    )
    ∷ []

-- The evaluation that Evaluate starts from
abbrev pub first_evaluation : RuntimeEvent → EventEvaluation
first_evaluation e = record {
  event_id = e.event_id;
  permit_id = e.permit_id;
  is_accepted = true;
  is_within = true;
  is_terminated = false;
  verdict = permitted_event;
  violations = [];
}

-- Evaluate once the evidence is accepted
unfoldable pub judge : List Test → EventEvaluation → EventEvaluation
judge tests bound =
    let result = boundary tests bound in
    if result.is_within then result else record result { verdict = boundary_violation }

-- Evaluate
unfoldable pub evaluate_event : Unicode → Envelope → RuntimeEvent → Time → EventEvaluation
evaluate_event u p e now =
    let bound = reject (binding_tests p e now) (first_evaluation e) in
    if not bound.is_accepted
    then record bound { verdict = rejected_event }
    else judge (boundary_tests u p e) bound
