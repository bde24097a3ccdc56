-- ===== src/Verifier/Replay.antt =====
-- What an allowed execution of internal/verifier/verifier.go rules out.
use aegis_router.Base.{
  ◌≡◌, refl, true, false, arith, ok, inl, inr, Bool-cases, List, some, subst, sym, ap, All, ◌∷◌, [],
  ◌≤◌,
}
use aegis_router.Base.Dict.{lookup, lookup-insert_self}
use aegis_router.Text.{Bytes, bytes_eq}
use aegis_router.Time.{Time, second, to_unix}
use aegis_router.Base.Int.{ℤ, ◌≤ℤ◌, ◌<ℤ◌}
use aegis_router.ExecutionProof.{ProofClaims}
use aegis_router.ExecutionProof.Nonces.{Attempt, attempts, use_nonce, nonce_once}
use aegis_router.Verifier.Freshness.{fresh_before_expiry}
use aegis_router.Verifier.Proof.{check_proof_sound}
use aegis_router.Permit.Claims.{Claims}
use aegis_router.Permit.Store.{Record}
use aegis_router.Permit.Store.Steps.{Call, run}
use aegis_router.Permit.Store.Lifecycle.{spent, final-run}
use aegis_router.Verifier.{
  Settings, Boundary, Presented, read_permit, allowed, check_proof, nonce_expiry, consume_time,
  verify_execution_and_consume,
}
use aegis_router.Verifier.Execution.{proved_boundary, execution_allowed, execution_passes}

-- What an allowed execution leaves in the store: the permit of its token is consumed.
pub execution_spends :
    (v : Settings) (p : Presented) (now clock : Time) (b : Boundary) (c : Claims)
    → read_permit v p.permit_token ≡ ok c
    → allowed (verify_execution_and_consume v p now clock b).1 ≡ true
    → (r : Record) × (lookup c.permit_id
          (verify_execution_and_consume v p now clock b).0.permits.records
        ≡ some (spent r (consume_time now clock)))
execution_spends v p now clock b c read h =
    let (d, r, proof, q) = execution_allowed v p now clock b h in
    let same : d ≡ c = ground (arith, read, q.provable.presentable.read) in
    let opened = (proved_boundary v now b d r proof).permits in
    let done = lookup-insert_self d.permit_id (spent r (consume_time now clock)) opened.records in
    subst
      (λ x.
        (r : Record) × (lookup x.permit_id
            (verify_execution_and_consume v p now clock b).0.permits.records
          ≡ some (spent r (consume_time now clock))))
      same (r, rw (execution_passes v p now clock b d r proof q) done)

-- A permit is executed once: after an allowed execution no presentation of a token with the same
-- permit identifier is allowed, whatever the proof, the clock and the settings, and whatever calls
-- of the permit store come between.
pub execution_once :
    (v w : Settings) (p q : Presented) (now clock now' clock' : Time) (b b' : Boundary)
    (cs : List Call) (c c' : Claims)
    → read_permit v p.permit_token ≡ ok c
    → allowed (verify_execution_and_consume v p now clock b).1 ≡ true
    → b'.permits ≡ run cs (verify_execution_and_consume v p now clock b).0.permits
    → read_permit w q.permit_token ≡ ok c'
    → c'.permit_id ≡ c.permit_id
    → allowed (verify_execution_and_consume w q now' clock' b').1 ≡ false
execution_once v w p q now clock now' clock' b b' cs c c' read first later reread same =
    elim (Bool-cases (allowed (verify_execution_and_consume w q now' clock' b').1)) [
      | inr refused ↦ refused
      | inl again ↦
          let (r, done) = execution_spends v p now clock b c read first in
          let still =
            final-run cs c.permit_id (spent r (consume_time now clock))
              (verify_execution_and_consume v p now clock b).0.permits done refl in
          let (d, x, proof, e) = execution_allowed w q now' clock' b' again in
          let s = e.provable.presentable in
          absurd (ground (arith, still, s.stored, s.active, s.read, reread, same, later))
    ]

all_before :
    (as' : List Attempt) (t e : ℤ) → All (λ a. a.now ≤ℤ t) as' → t <ℤ e → All (λ a. a.now <ℤ e) as'
all_before [] t e h early = tt
all_before (a ∷ as') t e (h, hs) early = (omega arith, all_before as' t e hs early)

execution_marks :
    (v : Settings) (p : Presented) (now clock : Time) (b : Boundary) (c : Claims) (key_id : Bytes)
    (proof : ProofClaims)
    → read_permit v p.permit_token ≡ ok c
    → check_proof v b.workload_keys c p now ≡ ok (key_id, proof)
    → allowed (verify_execution_and_consume v p now clock b).1 ≡ true
    → ((use_nonce key_id proof.nonce (to_unix now) (nonce_expiry v proof) b.nonces).1 ≡ true)
      × ((verify_execution_and_consume v p now clock b).0.nonces
          ≡ (use_nonce key_id proof.nonce (to_unix now) (nonce_expiry v proof) b.nonces).0)
execution_marks v p now clock b c key_id proof read proven h =
    let (d, r, found, e) = execution_allowed v p now clock b h in
    let same : d ≡ c = ground (arith, read, e.provable.presentable.read) in
    let after_ = ap (λ x. x.0.nonces) (execution_passes v p now clock b d r found e) in
    let checked = rw same at e.provable.proven in
    let key : c.executor_key_id ≡ key_id = ground (arith, checked, proven) in
    let claims : found ≡ proof = ground (arith, checked, proven) in
    (
      rw (sym key, sym claims, sym same) e.provable.unused,
      rw (sym key, sym claims, sym same) after_,
    )

-- A proof is used once: after an allowed execution no presentation of the same proof claims under
-- the same workload key is allowed, whatever the permit, as long as the clock skew is at least a
-- second and the nonce calls that come between read a clock that is not ahead of the later one.
pub proof_once :
    (v : Settings) (p q : Presented) (now clock now' clock' : Time) (b b' : Boundary)
    (as' : List Attempt) (c c' : Claims) (key_id : Bytes) (proof : ProofClaims)
    → second ≤ v.proof_clock_skew
    → read_permit v p.permit_token ≡ ok c
    → check_proof v b.workload_keys c p now ≡ ok (key_id, proof)
    → allowed (verify_execution_and_consume v p now clock b).1 ≡ true
    → b'.nonces ≡ attempts as' (verify_execution_and_consume v p now clock b).0.nonces
    → All (λ a. a.now ≤ℤ to_unix now') as'
    → read_permit v q.permit_token ≡ ok c'
    → check_proof v b'.workload_keys c' q now' ≡ ok (key_id, proof)
    → allowed (verify_execution_and_consume v q now' clock' b').1 ≡ false
proof_once v p q now clock now' clock' b b' as' c c' key_id proof skew read proven first later
      between reread reproven =
    elim (Bool-cases (allowed (verify_execution_and_consume v q now' clock' b').1)) [
      | inr refused ↦ refused
      | inl again ↦
          let (used, marked) = execution_marks v p now clock b c key_id proof read proven first in
          let (reused, _) =
            execution_marks v q now' clock' b' c' key_id proof reread reproven again in
          let (_, _, key, proved) =
            check_proof_sound v b'.workload_keys c' q now' key_id proof reproven in
          let early = fresh_before_expiry v proof now' skew proved.fresh in
          let expires = nonce_expiry v proof in
          let once =
            nonce_once key_id proof.nonce (to_unix now) expires (to_unix now') expires as' b.nonces
              used (all_before as' (to_unix now') expires between early) early in
          absurd (cc (rw (later, marked) at reused, once))
    ]
