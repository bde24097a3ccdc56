-- ===== src/Verifier/Proof.antt =====
-- The proof checks of verifyExecutionProof in internal/verifier/verifier.go.
use aegis_router.Base.{
  ◌≡◌, refl, true, false, ◌↔◌, ◌++◌, [], ◌∷◌, arith, ok, err, is_ok, Result-cases, inl, inr,
}
use aegis_router.Base.Int.{pos, ◌+ℤ◌, ◌-ℤ◌, ◌*ℤ◌, ◌≤ℤ◌}
use aegis_router.Text.{Bytes, str, bytes_eq, is_empty}
use aegis_router.Time.{Time, second, unix_time}
use aegis_router.Permit.Claims.{Claims}
use aegis_router.ExecutionProof.{
  ProofHeader, ProofClaims, Compact, proof_key_id, verify_proof, thumbprint, hex,
}
use aegis_router.ExecutionProof.Signing.{IsSigned, verify_proof_iff}
use aegis_router.ExecutionProof.Registry.{Registry, workload_key}
use aegis_router.Verifier.{
  Settings, Outcome, bind_action, Presented, is_stale, check_proof, is_verified_outcome,
}
use aegis_router.Verifier.Binding.{IsBound, bind_action_iff, bind_action_error}

-- What the checks find of a proof that they accept.
pub record IsAccepted (v : Settings) (keys : Registry) (c : Claims) (p : Presented) (now : Time)
    (key : Bytes) (proof : ProofClaims) : Type 0 where
  pub named : proof_key_id v.lib v.proof_json p.proof_token ≡ ok c.executor_key_id
  pub registered : workload_key c.executor_key_id keys ≡ ok key
  pub signed : verify_proof v.lib v.proof_json key p.proof_token ≡ ok proof
  pub print : thumbprint v.lib key ≡ ok c.executor_key_thumbprint
  pub printed : is_empty c.executor_key_thumbprint ≡ false
  pub permit : proof.permit_id ≡ c.permit_id
  pub action : proof.action_digest ≡ c.action_digest
  pub http_method : proof.http_method ≡ p.http_method
  pub http_path : proof.http_path ≡ p.http_path
  pub fresh : is_stale v proof now ≡ false

check_proof_with :
    (v : Settings) (keys : Registry) (c : Claims) (p : Presented) (now : Time) (key_id key : Bytes)
    (proof : ProofClaims)
    → check_proof v keys c p now ≡ ok (key_id, proof)
    → proof_key_id v.lib v.proof_json p.proof_token ≡ ok c.executor_key_id
    → workload_key c.executor_key_id keys ≡ ok key
    → IsAccepted v keys c p now key proof × (bind_action v p.action c ≡ ok tt)
unfolding check_proof
check_proof_with v keys c p now key_id key proof h named registered = ground arith

check_proof_named :
    (v : Settings) (keys : Registry) (c : Claims) (p : Presented) (now : Time) (key_id : Bytes)
    (proof : ProofClaims)
    → check_proof v keys c p now ≡ ok (key_id, proof)
    → (key_id ≡ c.executor_key_id)
      × (proof_key_id v.lib v.proof_json p.proof_token ≡ ok c.executor_key_id)
      × (is_ok (workload_key c.executor_key_id keys) ≡ true)
unfolding check_proof
check_proof_named v keys c p now key_id proof h = ground arith

pub check_proof_sound :
    (v : Settings) (keys : Registry) (c : Claims) (p : Presented) (now : Time) (key_id : Bytes)
    (proof : ProofClaims)
    → check_proof v keys c p now ≡ ok (key_id, proof)
    → (key_id ≡ c.executor_key_id)
      × IsBound v p.action c
      × (key : Bytes) × IsAccepted v keys c p now key proof
check_proof_sound v keys c p now key_id proof h =
    let (same, named, known) = check_proof_named v keys c p now key_id proof h in
    elim (Result-cases (workload_key c.executor_key_id keys)) [
      | inr (e, failed) ↦ absurd (cc (rw failed at known))
      | inl (key, registered) ↦
          let (proven, bound) =
            check_proof_with v keys c p now key_id key proof h named registered in
          (same, (bind_action_iff v p.action c).0 bound, key, proven)
    ]

pub check_proof_complete :
    (v : Settings) (keys : Registry) (c : Claims) (p : Presented) (now : Time) (key : Bytes)
    (proof : ProofClaims)
    → IsAccepted v keys c p now key proof
    → IsBound v p.action c
    → check_proof v keys c p now ≡ ok (c.executor_key_id, proof)
unfolding check_proof
check_proof_complete v keys c p now key proof h b =
    ground (arith, (bind_action_iff v p.action c).1 b)

pub check_proof_error :
    (v : Settings) (keys : Registry) (c : Claims) (p : Presented) (now : Time) (o : Outcome)
    → check_proof v keys c p now ≡ err o
    → is_verified_outcome o ≡ false
unfolding check_proof
check_proof_error v keys c p now o h = elim (Result-cases (bind_action v p.action c)) [
  | inl (_, bound) ↦ ground arith
  | inr (e, failed) ↦ ground (arith, bind_action_error v p.action c e failed)
]

-- The proof was issued at most the skew ahead of the time, and at most its largest age before it.
pub record IsFresh (v : Settings) (proof : ProofClaims) (now : Time) : Type 0 where
  pub not_ahead : (proof.issued_at *ℤ second) ≤ℤ (now +ℤ pos v.proof_clock_skew)
  pub young : (now -ℤ (proof.issued_at *ℤ second)) ≤ℤ pos v.proof_max_age

is_stale_iff :
    (v : Settings) (proof : ProofClaims) (now : Time)
    → (is_stale v proof now ≡ false) ↔ IsFresh v proof now
unfolding is_stale unix_time
is_stale_iff v proof now = (
  λ h. record { not_ahead = ground arith; young = ground arith },
  λ f. ground (arith, f.not_ahead, f.young),
)

-- The proof is signed with a registered key, which is the one that the permit names, and speaks of
-- this permit, this action and this HTTP request, and of the present time.
pub record IsProven (v : Settings) (keys : Registry) (c : Claims) (p : Presented) (now : Time)
    (key : Bytes) (proof : ProofClaims) : Type 0 where
  pub named : proof_key_id v.lib v.proof_json p.proof_token ≡ ok c.executor_key_id
  pub registered : workload_key c.executor_key_id keys ≡ ok key
  pub signed :
      (h : ProofHeader) × (payload : Bytes) × (signature : Bytes) × (t : Compact) × IsSigned v.lib
        v.proof_json key p.proof_token proof h payload signature t
  pub print : str "sha256:" ++ hex (v.lib.sha256 key) ≡ c.executor_key_thumbprint
  pub permit : proof.permit_id ≡ c.permit_id
  pub action : proof.action_digest ≡ c.action_digest
  pub http_method : proof.http_method ≡ p.http_method
  pub http_path : proof.http_path ≡ p.http_path
  pub fresh : IsFresh v proof now

accepted-IsProven :
    (v : Settings) (keys : Registry) (c : Claims) (p : Presented) (now : Time) (key : Bytes)
    (proof : ProofClaims)
    → IsAccepted v keys c p now key proof
    → IsProven v keys c p now key proof
unfolding thumbprint
accepted-IsProven v keys c p now key proof a = record {
  named = a.named;
  registered = a.registered;
  signed = (verify_proof_iff v.lib v.proof_json key p.proof_token proof).0 a.signed;
  print = ground (arith, a.print);
  permit = a.permit;
  action = a.action;
  http_method = a.http_method;
  http_path = a.http_path;
  fresh = (is_stale_iff v proof now).0 a.fresh;
}

prefixed : (s t : Bytes) → str "sha256:" ++ s ≡ t → is_empty t ≡ false
prefixed s [] e = absurd (cc e)
prefixed s (b ∷ t) e = refl

IsProven-IsAccepted :
    (v : Settings) (keys : Registry) (c : Claims) (p : Presented) (now : Time) (key : Bytes)
    (proof : ProofClaims)
    → IsProven v keys c p now key proof
    → IsAccepted v keys c p now key proof
unfolding thumbprint
IsProven-IsAccepted v keys c p now key proof a =
    let (h, payload, signature, t, signed) = a.signed in
    record {
      named = a.named;
      registered = a.registered;
      signed = (verify_proof_iff v.lib v.proof_json key p.proof_token proof).1 a.signed;
      print = ground (arith, signed.key_size, a.print);
      printed = prefixed (hex (v.lib.sha256 key)) c.executor_key_thumbprint a.print;
      permit = a.permit;
      action = a.action;
      http_method = a.http_method;
      http_path = a.http_path;
      fresh = (is_stale_iff v proof now).1 a.fresh;
    }

-- The checks of the proof and of the action succeed exactly when the token of the proof is a
-- compact one whose signature the registered key of the permit verifies over its first two parts,
-- and whose payload reads as claims that are fit, speak of this permit, this action digest and
-- this HTTP request, and were issued at most the clock skew after and at most the largest age
-- before the time; when the thumbprint of that key is the one of the permit; and when the action
-- is bound to the claims.
pub check_proof_iff :
    (v : Settings) (keys : Registry) (c : Claims) (p : Presented) (now : Time) (key_id : Bytes)
    (proof : ProofClaims)
    → (check_proof v keys c p now ≡ ok (key_id, proof)) ↔ (
        (key_id ≡ c.executor_key_id)
        × IsBound v p.action c
        × (key : Bytes) × IsProven v keys c p now key proof)
check_proof_iff v keys c p now key_id proof = (
  λ h.
      let (same, bound, key, accepted) = check_proof_sound v keys c p now key_id proof h in
      (same, bound, key, accepted-IsProven v keys c p now key proof accepted),
  λ (same, bound, key, proven). rw same (
      check_proof_complete v keys c p now key proof
        (IsProven-IsAccepted v keys c p now key proof proven) bound),
)
