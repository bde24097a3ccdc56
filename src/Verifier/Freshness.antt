-- ===== src/Verifier/Freshness.antt =====
-- The freshness of a proof and the expiry of its nonce, in verifyExecutionProof of
-- internal/verifier/verifier.go.
use aegis_router.Base.{◌≡◌, ◌≤◌, ◌+◌, false, arith}
use aegis_router.Base.Int.{ℤ, pos, negsuc, pos_part, neg_part, ◌<ℤ◌, div_floor, +ℤ_parts, -ℤ_parts}
use aegis_router.Time.{Time, second, to_unix, unix_time, add}
use aegis_router.ExecutionProof.{ProofClaims}
use aegis_router.Verifier.{Settings, is_stale, nonce_expiry}

div_floor_second :
    (a b : ℤ)
    → pos_part a + neg_part b + second ≤ pos_part b + neg_part a
    → div_floor a second <ℤ div_floor b second
unfolding div_floor
div_floor_second (pos m) (pos n) h = omega arith
div_floor_second (pos m) (negsuc n) h = absurd (omega arith)
div_floor_second (negsuc m) (pos n) h = omega arith
div_floor_second (negsuc m) (negsuc n) h = omega arith

-- The nonce of a proof that is fresh at a time stays in use past that time: its expiry is later,
-- if the clock skew is at least a second.
pub fresh_before_expiry :
    (v : Settings) (proof : ProofClaims) (now : Time)
    → second ≤ v.proof_clock_skew
    → is_stale v proof now ≡ false
    → to_unix now <ℤ nonce_expiry v proof
unfolding is_stale to_unix
fresh_before_expiry v proof now h fresh =
    let issued = unix_time proof.issued_at in
    div_floor_second now (add issued (v.proof_max_age + v.proof_clock_skew)) (
      ground (
        arith,
        -ℤ_parts now issued,
        +ℤ_parts issued (pos (v.proof_max_age + v.proof_clock_skew)),
        +ℤ_parts now (pos v.proof_clock_skew),
      ))
