-- ===== src/Tests/Verifying.antt =====
-- The theorems on the verifier, at one execution.
use aegis_router.Base.{
  ℕ, ◌≡◌, ◌≤◌, refl, ok, err, some, none, List, [], ◌∷◌, ◌++◌, true, false, arith, ◌↔◌, length, All,
}
use aegis_router.Base.Int.{pos, ◌<ℤ◌}
use aegis_router.Base.Dict.{lookup}
use aegis_router.Text.{Bytes, str, bytes_eq}
use aegis_router.Time.{second, to_unix}
use aegis_router.Permit.Claims.{Obligations, Claims, execution}
use aegis_router.Permit.Store.{put, Record, consumed, zero_record, fresh_record}
use aegis_router.Permit.Store.Steps.{Call, lists, run}
use aegis_router.Constraints.{evaluate, no_obligations}
use aegis_router.Constraints.FailClosed.{
  evaluate_accounts, Unsupported, requirements, set_obligations,
}
use aegis_router.ExecutionProof.{ProofClaims}
use aegis_router.Permit.Store.Lifecycle.{spent}
use aegis_router.ExecutionProof.Nonces.{IsAdmitted, Attempt, attempts}
use aegis_router.Verifier.{
  consume_time, Settings, Boundary, allowed, inspect_permit, verified, read_permit, check_proof,
  bind_action, verify_execution_and_consume, verify_simulation_and_consume, check_execution,
  nonce_expiry, is_stale, with_permits,
}
use aegis_router.Verifier.Binding.{IsBound, bind_action_iff}
use aegis_router.Verifier.Inspection.{IsPresentable, inspect_permit_iff}
use aegis_router.Verifier.Proof.{IsProven, check_proof_iff}
use aegis_router.Verifier.Execution.{IsExecutable, execution_allowed_iff, execution_effects}
use aegis_router.Verifier.Replay.{execution_once, proof_once}
use aegis_router.Verifier.Refusal.{refused_spares}
use aegis_router.Verifier.Simulation.{IsSimulable, simulation_allowed_iff, check_execution_refuses}
use aegis_router.Tests.Data.{execution_claims, action, early, soon}
use aegis_router.Tests.Tokens.{token}
use aegis_router.Tests.Boundaries.{settings, presented, altered, boundary, proof}

-- The boundary after the execution and a listing of the permits.
abbrev executed : Boundary
executed = with_permits (verify_execution_and_consume settings presented early early boundary).0 (
    run (lists soon ∷ [])
      (verify_execution_and_consume settings presented early early boundary).0.permits)

-- The nonces after the execution, with the permit as it was before it.
abbrev rewound : Boundary
rewound = record boundary {
  nonces = (verify_execution_and_consume settings presented early early boundary).0.nonces;
}

-- A store whose permit of another identifier is consumed already.
abbrev used : Record
used = record (fresh_record execution_claims) { state = consumed; consumed_at = some early }

abbrev with_used : Boundary
with_used = record boundary {
  permits = record boundary.permits { records = (str "permit-0", used) ∷ boundary.permits.records };
}

-- The obligations of a reading that a person has approved.
abbrev supervised : Obligations
supervised = record no_obligations { read_only = true; human_approval_required = true }

-- What the definitions answer on this data
facts :
    (read_permit settings token ≡ ok execution_claims)
    × (allowed (verify_execution_and_consume settings presented early early boundary).1 ≡ true)
    × (allowed (verify_execution_and_consume settings altered early early boundary).1 ≡ false)
    × (check_proof settings boundary.workload_keys execution_claims presented early
        ≡ ok (str "exec-1", proof))
    × (check_proof settings boundary.workload_keys execution_claims presented soon
        ≡ ok (str "exec-1", proof))
    × (allowed (verify_execution_and_consume settings altered early early with_used).1 ≡ false)
    × (lookup
          (str "permit-0")
          (verify_execution_and_consume settings altered early early with_used).0.permits.records
        ≡ some used)
    × ((inspect_permit settings token execution early boundary.permits).1.outcome ≡ verified)
    × (bind_action settings action execution_claims ≡ ok tt)
    × (is_stale settings proof early ≡ false)
unfolding aegis_router.Base.ℕ_discrete aegis_router.Text.Bytes-discrete aegis_router.Text.utf8_valid
    aegis_router.Text.has_control aegis_router.Text.strip_prefix aegis_router.Text.all_bytes
    aegis_router.Text.is_sha256_digest aegis_router.Text.split_on aegis_router.Text.has_outer_space
    aegis_router.KeyProvider.valid_key_id aegis_router.Time.unix_time aegis_router.Time.to_unix
    aegis_router.Base.Dict.lookup aegis_router.Base.Dict.insert aegis_router.Base.Lists.contains
    aegis_router.Base.Int.◌+ℤ◌ aegis_router.Base.Int.◌-ℤ◌ aegis_router.Base.Int.◌*ℤ◌
    aegis_router.Base.Int.div_floor aegis_router.Base.Int.ℤ-discrete
    aegis_router.Base.Equality.Bool-discrete aegis_router.Text.Labels.is_label_byte
    aegis_router.Action.check_fields aegis_router.Action.check_optional
    aegis_router.Action.validate_action aegis_router.Action.digest
    aegis_router.Constraints.add_check aegis_router.Constraints.mutates
    aegis_router.Constraints.known_checks aegis_router.Constraints.evaluate
    aegis_router.Verifier.read_permit aegis_router.Verifier.record_outcome
    aegis_router.Verifier.inspect_claims aegis_router.Verifier.inspect_permit
    aegis_router.Verifier.bind_action aegis_router.Verifier.is_stale
    aegis_router.Verifier.check_proof aegis_router.Verifier.spend_nonce
    aegis_router.Verifier.prove_execution aegis_router.Verifier.verify_execution_proof
    aegis_router.Verifier.consume_inspected aegis_router.Verifier.verify_execution_and_consume
    aegis_router.Verifier.verify_simulation_and_consume aegis_router.Verifier.check_execution
    aegis_router.ExecutionProof.valid_thumbprint aegis_router.ExecutionProof.is_nonce_byte
    aegis_router.ExecutionProof.validate_proof aegis_router.ExecutionProof.validate_header
    aegis_router.ExecutionProof.three_parts aegis_router.ExecutionProof.split_token
    aegis_router.ExecutionProof.proof_key_id aegis_router.ExecutionProof.verify_proof
    aegis_router.ExecutionProof.hex aegis_router.ExecutionProof.thumbprint
    aegis_router.Base.Dict.retain aegis_router.ExecutionProof.Nonces.use_nonce
    aegis_router.ExecutionProof.Registry.conflicts aegis_router.ExecutionProof.Registry.register_key
    aegis_router.ExecutionProof.Registry.workload_key
    aegis_router.Permit.Authority.AuthorityKey-discrete aegis_router.Permit.Authority.authority_in
    aegis_router.Permit.Issuer.claims_for aegis_router.Permit.Issuer.prepare
    aegis_router.Permit.Issuer.issue aegis_router.Permit.Claims.Class-discrete
    aegis_router.Permit.Claims.valid_class aegis_router.Permit.Claims.Obligations-discrete
    aegis_router.Permit.Claims.Claims-discrete aegis_router.Permit.Claims.issued_time
    aegis_router.Permit.Claims.expires_time aegis_router.Permit.Claims.validate_metadata
    aegis_router.Permit.Claims.validate_fields aegis_router.Permit.Claims.validate_head
    aegis_router.Permit.Claims.validate_executor aegis_router.Permit.Claims.validate_tail
    aegis_router.Permit.Claims.validate aegis_router.Permit.Token.three_parts
    aegis_router.Permit.Token.token_parts aegis_router.Permit.Token.supported
    aegis_router.Permit.Token.sign_token aegis_router.Permit.Token.read_claims
    aegis_router.Permit.Token.verify_token aegis_router.Permit.Token.token_key_id
    aegis_router.Permit.Store.State-discrete aegis_router.Permit.Store.expire_if_needed
    aegis_router.Permit.Store.authority_moved aegis_router.Permit.Store.register_valid
    aegis_router.Permit.Store.register aegis_router.Permit.Store.get
    aegis_router.Permit.Store.consume_found aegis_router.Permit.Store.consume
    aegis_router.Permit.Store.revoke aegis_router.Permit.Store.revoke_for
    aegis_router.Permit.Store.check_transition aegis_router.Permit.Store.transition
    aegis_router.Permit.Store.set_authority_enabled aegis_router.Permit.Store.bytes_ltb
    aegis_router.Permit.Store.listed_before aegis_router.Permit.Store.place
    aegis_router.Permit.Store.sort_records aegis_router.Permit.Store.list
    aegis_router.Permit.Store.Lifecycle.successes aegis_router.Permit.Store.Steps.step
    aegis_router.Permit.Store.Steps.run
facts = (refl, refl, refl, refl, refl, refl, refl, refl, refl, refl)

execution_allowed_iff_example :
    (c : Claims) × (r : Record) × (proof : ProofClaims) × IsExecutable settings presented early
      early boundary c r proof
execution_allowed_iff_example =
    (execution_allowed_iff settings presented early early boundary).0 facts.1

execution_once_example :
    allowed (verify_execution_and_consume settings presented soon soon executed).1 ≡ false
execution_once_example =
    execution_once settings settings presented presented early early soon soon boundary executed
      (lists soon ∷ []) execution_claims execution_claims facts.0 facts.1 refl facts.0 refl

proof_once_example :
    allowed (verify_execution_and_consume settings presented soon soon rewound).1 ≡ false
unfolding aegis_router.ExecutionProof.Nonces.attempts
proof_once_example =
    proof_once settings presented presented early early soon soon boundary rewound []
      execution_claims execution_claims (str "exec-1") proof (omega arith) facts.0 facts.3 facts.1
      attempted tt facts.0 facts.4
  where
    attempted : rewound.nonces ≡ attempts [] rewound.nonces
    attempted = refl

refused_spares_example : lookup (str "permit-0") with_used.permits.records ≡ some used
refused_spares_example =
    refused_spares settings altered early early with_used (str "permit-0") used facts.5 facts.6 refl

simulation_allowed_iff_example :
    (allowed (verify_simulation_and_consume settings token action early early boundary).1 ≡ true)
    ↔ ((c : Claims) × (r : Record) × IsSimulable settings token action early early boundary c r)
simulation_allowed_iff_example = simulation_allowed_iff settings token action early early boundary

check_execution_refuses_example :
    (allowed (check_execution settings token action early boundary).1 ≡ false)
    × ((check_execution settings token action early boundary).0.permits
        ≡ (inspect_permit settings token execution early boundary.permits).0)
    × ((check_execution settings token action early boundary).0.nonces ≡ boundary.nonces)
check_execution_refuses_example = check_execution_refuses settings presented early boundary

inspect_permit_iff_example :
    (c : Claims) × (r : Record) × IsPresentable settings token execution early boundary.permits c r
inspect_permit_iff_example =
    (inspect_permit_iff settings token execution early boundary.permits).0 facts.7

check_proof_iff_example :
    (str "exec-1" ≡ execution_claims.executor_key_id)
    × IsBound settings action execution_claims
    × (key : Bytes) × IsProven settings boundary.workload_keys execution_claims presented early key
        proof
check_proof_iff_example =
    (check_proof_iff settings boundary.workload_keys execution_claims presented early (str "exec-1")
        proof).0
      facts.3

bind_action_iff_example : IsBound settings action execution_claims
bind_action_iff_example = (bind_action_iff settings action execution_claims).0 facts.8

evaluate_accounts_example :
    (requirements (evaluate supervised action early).checks ≡ set_obligations supervised)
    × All (Unsupported early) (evaluate supervised action early).checks
    × (((evaluate supervised action early).allowed ≡ true) ↔ (set_obligations supervised ≡ []))
evaluate_accounts_example = evaluate_accounts supervised action early

execution_effects_example :
    (c : Claims) × (r : Record) × (proof : ProofClaims) × (read_permit settings
        presented.permit_token
      ≡ ok c)
    × (check_proof settings boundary.workload_keys c presented early
        ≡ ok (c.executor_key_id, proof))
    × (lookup c.permit_id boundary.permits.records ≡ some r)
    × ((verify_execution_and_consume settings presented early early boundary).0.permits
        ≡ put c.permit_id (spent r (consume_time early early)) (put c.permit_id r boundary.permits))
    × IsAdmitted c.executor_key_id proof.nonce
        (to_unix early)
        (nonce_expiry settings proof)
        boundary.nonces
        (verify_execution_and_consume settings presented early early boundary).0.nonces
    × ((verify_execution_and_consume settings presented early early boundary).0.workload_keys
        ≡ boundary.workload_keys)
    × ((verify_execution_and_consume settings presented early early boundary).1.claims ≡ some c)
    × ((verify_execution_and_consume settings presented early early boundary).1.state ≡ consumed)
execution_effects_example = execution_effects settings presented early early boundary facts.1
