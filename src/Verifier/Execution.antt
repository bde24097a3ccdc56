-- ===== src/Verifier/Execution.antt =====
-- VerifyExecutionAndConsume of internal/verifier/verifier.go: when an execution is allowed, and what
-- it leaves.
use aegis_router.Base.{
  ◌≡◌, refl, true, false, ◌↔◌, ◌⊎◌, arith, ok, Result-cases, inl, inr, Bool-cases, some, subst, sym,
  ap,
}
use aegis_router.Base.Dict.{lookup, lookup-insert_self}
use aegis_router.Text.{Bytes, bytes_eq}
use aegis_router.Time.{Time, is_zero, before, to_unix}
use aegis_router.Permit.Claims.{Claims, execution, expires_time}
use aegis_router.Permit.Store.{issued, consumed, Record, Store, put, authority_moved}
use aegis_router.Permit.Store.Lifecycle.{Usable, spent, consume_succeeded}
use aegis_router.ExecutionProof.{ProofClaims}
use aegis_router.ExecutionProof.Nonces.{use_nonce, IsAdmitted, use_nonce-IsAdmitted}
use aegis_router.Action.{Action}
use aegis_router.Constraints.{evaluate}
use aegis_router.Verifier.{
  Settings, Boundary, Presented, Verification, verified, is_verified_outcome, trusted, allowed,
  inspect_permit, read_permit, check_proof, nonce_expiry, spend_nonce, prove_execution,
  with_permits, if_verified, verify_execution_proof, consume_time, consume_inspected,
  verify_execution_and_consume,
}
use aegis_router.Verifier.Inspection.{IsPresentable, inspect_permit_passes, inspect_permit_verified}
use aegis_router.Verifier.Spending.{
  consume_inspected_allowed, consume_inspected_succeeds, allowed_verified,
}
use aegis_router.Verifier.Proof.{check_proof_error, check_proof_sound}

-- What the verifier asks of a presented permit, proof and action up to the use of the nonce.
pub record IsProvable (v : Settings) (p : Presented) (now : Time) (b : Boundary) (c : Claims)
    (r : Record) (proof : ProofClaims) : Type 0 where
  pub presentable : IsPresentable v p.permit_token execution now b.permits c r
  pub proven : check_proof v b.workload_keys c p now ≡ ok (c.executor_key_id, proof)
  pub permitted : (evaluate c.obligations p.action now).allowed ≡ true
  pub unused :
      (use_nonce c.executor_key_id proof.nonce (to_unix now) (nonce_expiry v proof) b.nonces).1
      ≡ true

-- What is asked beside it at the consume boundary.
pub record IsExecutable (v : Settings) (p : Presented) (now clock : Time) (b : Boundary)
    (c : Claims) (r : Record) (proof : ProofClaims) : Type 0 where
  pub provable : IsProvable v p now b c r proof
  pub alive :
      (is_zero (consume_time now clock) ≡ true)
      ⊎ (before (consume_time now clock) (expires_time r.claims) ≡ true)
  pub authorised : authority_moved r.claims b.permits ≡ false

-- The boundary after the proof, and the result.
abbrev pub proved_boundary : Settings → Time → Boundary → Claims → Record → ProofClaims → Boundary
proved_boundary v now b c r proof = record {
  permits = put c.permit_id r b.permits;
  workload_keys = b.workload_keys;
  nonces =
      (use_nonce c.executor_key_id proof.nonce (to_unix now) (nonce_expiry v proof) b.nonces).0;
}

abbrev pub proved_result : Claims → Action → Time → Verification
proved_result c a now = record (trusted c verified issued now) {
  is_verified = true;
  constraint_checks = (evaluate c.obligations a now).checks;
}

spend_nonce_verified :
    (v : Settings) (c : Claims) (a : Action) (key_id : Bytes) (proof : ProofClaims) (now : Time)
    (b : Boundary)
    → is_verified_outcome
        (spend_nonce v c a (key_id, proof) (trusted c verified issued now) b).1.outcome
      ≡ true
    → ((evaluate c.obligations a now).allowed ≡ true)
      × ((use_nonce key_id proof.nonce (to_unix now) (nonce_expiry v proof) b.nonces).1 ≡ true)
unfolding spend_nonce
spend_nonce_verified v c a key_id proof now b h = ground arith

prove_execution_verified :
    (v : Settings) (p : Presented) (now : Time) (c : Claims) (b : Boundary)
    → is_verified_outcome (prove_execution v p now c (trusted c verified issued now) b).1.outcome
      ≡ true
    → (proof : ProofClaims) × (check_proof v b.workload_keys c p now
        ≡ ok (c.executor_key_id, proof))
      × ((evaluate c.obligations p.action now).allowed ≡ true)
      × ((use_nonce c.executor_key_id proof.nonce (to_unix now) (nonce_expiry v proof) b.nonces).1
          ≡ true)
unfolding prove_execution
prove_execution_verified v p now c b h =
    elim (Result-cases (check_proof v b.workload_keys c p now)) [
      | inr (o, failed) ↦ absurd (
          cc (
            rw (failed, prove_execution) at h,
            check_proof_error v b.workload_keys c p now o failed,
          ))
      | inl (found, proven) ↦
          let (key_id, proof) = found in
          let same = (check_proof_sound v b.workload_keys c p now key_id proof proven).0 in
          let (permitted, unused) =
            spend_nonce_verified v c p.action key_id proof now b
              (rw (proven, prove_execution) at h) in
          (proof, rw same at proven, permitted, rw same at unused)
    ]

spend_nonce_passes :
    (v : Settings) (c : Claims) (a : Action) (key_id : Bytes) (proof : ProofClaims) (now : Time)
    (b : Boundary)
    → (evaluate c.obligations a now).allowed ≡ true
    → (use_nonce key_id proof.nonce (to_unix now) (nonce_expiry v proof) b.nonces).1 ≡ true
    → spend_nonce v c a (key_id, proof) (trusted c verified issued now) b ≡ (
      record b {
        nonces = (use_nonce key_id proof.nonce (to_unix now) (nonce_expiry v proof) b.nonces).0;
      },
      proved_result c a now,
    )
unfolding spend_nonce
spend_nonce_passes v c a key_id proof now b permitted unused = rw (permitted, unused)

verify_execution_proof_inspected :
    (v : Settings) (p : Presented) (now : Time) (b : Boundary) (c : Claims) (s : Store)
    → inspect_permit v p.permit_token execution now b.permits ≡ (s, trusted c verified issued now)
    → verify_execution_proof v p now b
      ≡ prove_execution v p now c (trusted c verified issued now) (with_permits b s)
unfolding verify_execution_proof
verify_execution_proof_inspected v p now b c s h = subst resumed (sym h) refl
  where
    resumed : Store × Verification → Type 0
    resumed seen =
        if_verified (with_permits b seen.0) seen.1
          (λ c. prove_execution v p now c seen.1 (with_permits b seen.0))
        ≡ prove_execution v p now c (trusted c verified issued now) (with_permits b s)

prove_execution_passes :
    (v : Settings) (p : Presented) (now : Time) (c : Claims) (b : Boundary) (proof : ProofClaims)
    → check_proof v b.workload_keys c p now ≡ ok (c.executor_key_id, proof)
    → prove_execution v p now c (trusted c verified issued now) b
      ≡ spend_nonce v c p.action (c.executor_key_id, proof) (trusted c verified issued now) b
unfolding prove_execution
prove_execution_passes v p now c b proof h = rw (prove_execution, h) refl

pub verify_execution_proof_passes :
    (v : Settings) (p : Presented) (now : Time) (b : Boundary) (c : Claims) (r : Record)
    (proof : ProofClaims)
    → IsProvable v p now b c r proof
    → verify_execution_proof v p now b
      ≡ (proved_boundary v now b c r proof, proved_result c p.action now)
verify_execution_proof_passes v p now b c r proof q =
    let opened = with_permits b (put c.permit_id r b.permits) in
    let seen = inspect_permit_passes v p.permit_token execution now b.permits c r q.presentable in
    rw (
      verify_execution_proof_inspected v p now b c (put c.permit_id r b.permits) seen,
      prove_execution_passes v p now c opened proof q.proven,
      spend_nonce_passes v c p.action c.executor_key_id proof now opened q.permitted q.unused,
    )

verify_execution_proof_uninspected :
    (v : Settings) (p : Presented) (now : Time) (b : Boundary)
    → is_verified_outcome (inspect_permit v p.permit_token execution now b.permits).1.outcome
      ≡ false
    → is_verified_outcome (verify_execution_proof v p now b).1.outcome ≡ false
unfolding verify_execution_proof
verify_execution_proof_uninspected v p now b h = ground arith

pub verify_execution_proof_verified :
    (v : Settings) (p : Presented) (now : Time) (b : Boundary)
    → is_verified_outcome (verify_execution_proof v p now b).1.outcome ≡ true
    → (c : Claims) × (r : Record) × (proof : ProofClaims) × IsProvable v p now b c r proof
verify_execution_proof_verified v p now b h =
    elim (Bool-cases
      (is_verified_outcome (inspect_permit v p.permit_token execution now b.permits).1.outcome)) [
        | inr failed ↦ absurd (cc (verify_execution_proof_uninspected v p now b failed, h))
        | inl passed ↦
            let (c, r, q) =
              inspect_permit_verified v p.permit_token execution now b.permits passed in
            let opened = put c.permit_id r b.permits in
            let seen = inspect_permit_passes v p.permit_token execution now b.permits c r q in
            let (proof, proven, permitted, unused) =
              prove_execution_verified v p now c (with_permits b opened)
                (rw (verify_execution_proof_inspected v p now b c opened seen) at h) in
            (
              c,
              r,
              proof,
              record { presentable = q; proven = proven; permitted = permitted; unused = unused },
            )
      ]

verify_execution_and_consume_proved :
    (v : Settings) (p : Presented) (now clock : Time) (b b' : Boundary) (c : Claims)
    → verify_execution_proof v p now b ≡ (b', proved_result c p.action now)
    → verify_execution_and_consume v p now clock b
      ≡ consume_inspected c (proved_result c p.action now) clock b'
unfolding verify_execution_and_consume
verify_execution_and_consume_proved v p now clock b b' c h = subst resumed (sym h) refl
  where
    resumed : Boundary × Verification → Type 0
    resumed proved =
        if_verified proved.0 proved.1 (λ c. consume_inspected c proved.1 clock proved.0)
        ≡ consume_inspected c (proved_result c p.action now) clock b'

verify_execution_and_consume_unproved :
    (v : Settings) (p : Presented) (now clock : Time) (b : Boundary)
    → is_verified_outcome (verify_execution_proof v p now b).1.outcome ≡ false
    → (verify_execution_and_consume v p now clock b ≡ verify_execution_proof v p now b)
      × (is_verified_outcome (verify_execution_and_consume v p now clock b).1.outcome ≡ false)
unfolding verify_execution_and_consume
verify_execution_and_consume_unproved v p now clock b h = ground arith

executable-Usable :
    (v : Settings) (p : Presented) (now clock : Time) (b : Boundary) (c : Claims) (r : Record)
    (proof : ProofClaims)
    → IsExecutable v p now clock b c r proof
    → Usable c.permit_id (consume_time now clock) (proved_boundary v now b c r proof).permits r
unfolding authority_moved
executable-Usable v p now clock b c r proof q = record {
  found = lookup-insert_self c.permit_id r b.permits.records;
  active = q.provable.presentable.active;
  alive = q.alive;
  authorised = q.authorised;
}

-- An execution that passes every check is allowed, spends its permit and its nonce, and changes
-- nothing else at the boundary.
pub execution_passes :
    (v : Settings) (p : Presented) (now clock : Time) (b : Boundary) (c : Claims) (r : Record)
    (proof : ProofClaims)
    → IsExecutable v p now clock b c r proof
    → verify_execution_and_consume v p now clock b ≡ (
      with_permits (proved_boundary v now b c r proof) (
          put c.permit_id
            (spent r (consume_time now clock))
            (proved_boundary v now b c r proof).permits),
      record (proved_result c p.action now) {
        state = consumed;
        verified_at = consume_time now clock;
      },
    )
execution_passes v p now clock b c r proof q =
    let opened = proved_boundary v now b c r proof in
    rw
      (verify_execution_and_consume_proved v p now clock b opened c
        (verify_execution_proof_passes v p now b c r proof q.provable))
      (consume_inspected_succeeds c (proved_result c p.action now) r clock opened
        (executable-Usable v p now clock b c r proof q))

pub execution_allowed :
    (v : Settings) (p : Presented) (now clock : Time) (b : Boundary)
    → allowed (verify_execution_and_consume v p now clock b).1 ≡ true
    → (c : Claims) × (r : Record) × (proof : ProofClaims) × IsExecutable v p now clock b c r proof
unfolding authority_moved
execution_allowed v p now clock b h =
    elim (Bool-cases (is_verified_outcome (verify_execution_proof v p now b).1.outcome)) [
      | inr failed ↦ absurd (
          cc (
            (verify_execution_and_consume_unproved v p now clock b failed).1,
            allowed_verified (verify_execution_and_consume v p now clock b).1 h,
          ))
      | inl passed ↦
          let (c, r, proof, q) = verify_execution_proof_verified v p now b passed in
          let opened = proved_boundary v now b c r proof in
          let proved = verify_execution_proof_passes v p now b c r proof q in
          let done =
            consume_inspected_allowed c (proved_result c p.action now) clock opened
              (rw (verify_execution_and_consume_proved v p now clock b opened c proved) at h) in
          let (x, u) = consume_succeeded c.permit_id (consume_time now clock) opened.permits done in
          let same : r ≡ x =
            ground (arith, u.found, lookup-insert_self c.permit_id r b.permits.records) in
          (
            c,
            r,
            proof,
            record {
              provable = q;
              alive =
                  subst
                    (λ y.
                      (is_zero (consume_time now clock) ≡ true)
                      ⊎ (before (consume_time now clock) (expires_time y.claims) ≡ true))
                    (sym same) u.alive;
              authorised =
                  subst (λ y. authority_moved y.claims b.permits ≡ false) (sym same) u.authorised;
            },
          )
    ]

-- VerifyExecutionAndConsume allows exactly when the permit token verifies to execution claims of
-- the expected issuer that the store holds as an issued permit inside its time, the proof checks
-- and the action binding pass, the obligations are met, the nonce is admitted, and at the consume
-- time the permit has not expired and its authority has not moved.
pub execution_allowed_iff :
    (v : Settings) (p : Presented) (now clock : Time) (b : Boundary)
    → (allowed (verify_execution_and_consume v p now clock b).1 ≡ true) ↔ (
        (c : Claims) × (r : Record) × (proof : ProofClaims) × IsExecutable v p now clock b c r
          proof)
execution_allowed_iff v p now clock b = (
  execution_allowed v p now clock b,
  λ (c, r, proof, q). rw (execution_passes v p now clock b c r proof q),
)

-- An allowed execution, of the claims that its token reads as and of the proof that the checks
-- accept, changes the permit store only by consuming, at the consume time, the stored permit of
-- those claims, and the nonces only by forgetting the expired ones and adding the nonce of that
-- proof, which is not empty and was not in use, until it expires; it leaves the workload keys, and
-- its result carries the claims and the consumed state.
pub execution_effects :
    (v : Settings) (p : Presented) (now clock : Time) (b : Boundary)
    → allowed (verify_execution_and_consume v p now clock b).1 ≡ true
    → (c : Claims) × (r : Record) × (proof : ProofClaims) × (read_permit v p.permit_token ≡ ok c)
      × (check_proof v b.workload_keys c p now ≡ ok (c.executor_key_id, proof))
      × (lookup c.permit_id b.permits.records ≡ some r)
      × ((verify_execution_and_consume v p now clock b).0.permits
          ≡ put c.permit_id (spent r (consume_time now clock)) (put c.permit_id r b.permits))
      × IsAdmitted c.executor_key_id proof.nonce
          (to_unix now)
          (nonce_expiry v proof)
          b.nonces
          (verify_execution_and_consume v p now clock b).0.nonces
      × ((verify_execution_and_consume v p now clock b).0.workload_keys ≡ b.workload_keys)
      × ((verify_execution_and_consume v p now clock b).1.claims ≡ some c)
      × ((verify_execution_and_consume v p now clock b).1.state ≡ consumed)
execution_effects v p now clock b h =
    let (c, r, proof, q) = execution_allowed v p now clock b h in
    let done = execution_passes v p now clock b c r proof q in
    (
      c,
      r,
      proof,
      q.provable.presentable.read,
      q.provable.proven,
      q.provable.presentable.stored,
      ap (λ x. x.0.permits) done,
      rw (ap (λ x. x.0.nonces) done) (
          use_nonce-IsAdmitted c.executor_key_id proof.nonce (to_unix now) (nonce_expiry v proof)
            b.nonces q.provable.unused),
      ap (λ x. x.0.workload_keys) done,
      ap (λ x. x.1.claims) done,
      ap (λ x. x.1.state) done,
    )
