-- ===== src/ExecutionProof/Signing.antt =====
-- What Verify of internal/executionproof/proof.go accepts, as a predicate on the token and its parts.
use aegis_router.Base.{
  ◌≡◌, ◌≤◌, ◌↔◌, true, false, List, [], ◌∷◌, ◌++◌, some, ok, arith, length, inl, inr, Result-cases,
  Option-cases,
}
use aegis_router.Base.Int.{pos, ◌<ℤ◌, int_eq}
use aegis_router.Text.{Bytes, str, bytes_eq, is_empty, split_on, has_outer_space, all_bytes}
use aegis_router.Crypto.{Codec}
use aegis_router.KeyProvider.{valid_key_id}
use aegis_router.ExecutionProof.{
  ProofHeader, ProofClaims, ProofJson, Compact, max_token_bytes, valid_thumbprint, is_nonce_byte,
  validate_proof, validate_header, three_parts, split_token, verify_proof,
}

-- The claims that a proof may have: they are of the one endpoint, and every text is bounded.
pub record IsFit (c : ProofClaims) : Type 0 where
  pub permit : is_empty c.permit_id ≡ false
  pub permit_size : length c.permit_id ≤ 160
  pub action : valid_thumbprint c.action_digest ≡ true
  pub http_method : c.http_method ≡ str "POST"
  pub http_path : c.http_path ≡ str "/mcp"
  pub issued : pos 0 <ℤ c.issued_at
  pub nonce : is_empty c.nonce ≡ false
  pub nonce_size : length c.nonce ≤ 256
  pub nonce_bytes : all_bytes is_nonce_byte c.nonce ≡ true

validate_proof_sound : (c : ProofClaims) → validate_proof c ≡ ok tt → IsFit c
unfolding validate_proof
validate_proof_sound c h = record {
  permit = ground arith;
  permit_size = ground arith;
  action = ground arith;
  http_method = ground arith;
  http_path = ground arith;
  issued = ground arith;
  nonce = ground arith;
  nonce_size = ground arith;
  nonce_bytes = ground arith;
}

validate_proof_complete : (c : ProofClaims) → IsFit c → validate_proof c ≡ ok tt
unfolding validate_proof
validate_proof_complete c f = ground (
  arith, f.permit, f.permit_size, f.action, f.http_method, f.http_path, f.issued, f.nonce,
  f.nonce_size, f.nonce_bytes,
)

-- The token is the three parts, joined by dots, and the parts encode the header, the payload and the
-- signature.
pub record IsCompactOf (lib : Codec) (json : ProofJson) (token : Bytes) (h : ProofHeader)
    (payload signature : Bytes) (t : Compact) : Type 0 where
  pub given : is_empty token ≡ false
  pub size : length token ≤ max_token_bytes
  pub bare : has_outer_space token ≡ false
  pub split : split_on b'.' token ≡ t.header_part ∷ t.claims_part ∷ t.signature_part ∷ []
  pub header_given : is_empty t.header_part ≡ false
  pub claims_given : is_empty t.claims_part ≡ false
  pub signature_given : is_empty t.signature_part ≡ false
  pub header_encoded :
      (raw : Bytes) × (lib.decode64_strict t.header_part ≡ some raw)
      × (lib.is_strict_json raw ≡ true)
      × (json.decode_header raw ≡ some h)
  pub claims_encoded : lib.decode64_strict t.claims_part ≡ some payload
  pub signature_encoded : lib.decode64_strict t.signature_part ≡ some signature
  pub signature_length : length signature ≡ 64

three_parts_iff :
    (parts : List Bytes) (t : Compact)
    → (three_parts parts ≡ some t) ↔ (
        (parts ≡ t.header_part ∷ t.claims_part ∷ t.signature_part ∷ [])
        × (is_empty t.header_part ≡ false)
        × (is_empty t.claims_part ≡ false)
        × (is_empty t.signature_part ≡ false))
unfolding three_parts
three_parts_iff [] t = ground arith
three_parts_iff (a ∷ []) t = ground arith
three_parts_iff (a ∷ b ∷ []) t = ground arith
three_parts_iff (a ∷ b ∷ c ∷ []) t = ground arith
three_parts_iff (a ∷ b ∷ c ∷ d ∷ rest) t = ground arith

split_token_parts :
    (lib : Codec) (json : ProofJson) (token : Bytes) (h : ProofHeader) (payload signature : Bytes)
    (t : Compact)
    → split_token lib json token ≡ ok (h, payload, signature, t)
    → (three_parts (split_on b'.' token) ≡ some t)
      × (raw : Bytes) × (lib.decode64_strict t.header_part ≡ some raw)
      × (lib.is_strict_json raw ≡ true)
      × (json.decode_header raw ≡ some h)
unfolding split_token
split_token_parts lib json token h payload signature t e =
    elim (Option-cases (three_parts (split_on b'.' token))) [
      | inl missing ↦ absurd (ground arith)
      | inr (u, parts) ↦ elim (Option-cases (lib.decode64_strict u.header_part)) [
        | inl undecoded ↦ absurd (ground arith)
        | inr (raw, encoded) ↦ (ground arith, raw, ground arith, ground arith, ground arith)
      ]
    ]

split_token_iff :
    (lib : Codec) (json : ProofJson) (token : Bytes) (h : ProofHeader) (payload signature : Bytes)
    (t : Compact)
    → (split_token lib json token ≡ ok (h, payload, signature, t))
      ↔ IsCompactOf lib json token h payload signature t
unfolding split_token
split_token_iff lib json token h payload signature t = (
  λ e.
      let (parts, raw, encoded, strict, decoded) =
        split_token_parts lib json token h payload signature t e in
      let (split, first, second, third) = (three_parts_iff (split_on b'.' token) t).0 parts in
      record {
        given = ground arith;
        size = ground arith;
        bare = ground arith;
        split = split;
        header_given = first;
        claims_given = second;
        signature_given = third;
        header_encoded = (raw, encoded, strict, decoded);
        claims_encoded = ground (arith, parts);
        signature_encoded = ground (arith, parts);
        signature_length = ground (arith, parts);
      },
  λ c.
      let parts =
        (three_parts_iff (split_on b'.' token) t).1
          (c.split, c.header_given, c.claims_given, c.signature_given) in
      let (raw, encoded, strict, decoded) = c.header_encoded in
      ground (
        arith, c.given, c.size, c.bare, parts, encoded, strict, decoded, c.claims_encoded,
        c.signature_encoded, c.signature_length,
      ),
)

-- The token is signed with the key, and its payload is the proof.
pub record IsSigned (lib : Codec) (json : ProofJson) (key token : Bytes) (proof : ProofClaims)
    (h : ProofHeader) (payload signature : Bytes) (t : Compact) : Type 0 where
  pub key_size : length key ≡ 32
  pub compact : IsCompactOf lib json token h payload signature t
  pub algorithm : h.algorithm ≡ str "EdDSA"
  pub kind : h.kind ≡ str "AEGIS-EXECUTION-PROOF"
  pub version : h.version ≡ pos 1
  pub named : valid_key_id h.key_id ≡ true
  pub verified : lib.verify key (t.header_part ++ b'.' ∷ t.claims_part) signature ≡ true
  pub strict : lib.is_strict_json payload ≡ true
  pub claims : json.decode_claims payload ≡ some proof
  pub fit : IsFit proof

verify_proof-IsSigned :
    (lib : Codec) (json : ProofJson) (key token : Bytes) (proof : ProofClaims) (h : ProofHeader)
    (payload signature : Bytes) (t : Compact)
    → split_token lib json token ≡ ok (h, payload, signature, t)
    → verify_proof lib json key token ≡ ok proof
    → IsSigned lib json key token proof h payload signature t
unfolding verify_proof validate_header
verify_proof-IsSigned lib json key token proof h payload signature t split e = record {
  key_size = ground arith;
  compact = (split_token_iff lib json token h payload signature t).0 split;
  algorithm = ground arith;
  kind = ground arith;
  version = ground arith;
  named = ground arith;
  verified = ground arith;
  strict = ground arith;
  claims = ground arith;
  fit = validate_proof_sound proof (ground arith);
}

verify_proof_split :
    (lib : Codec) (json : ProofJson) (key token : Bytes) (proof : ProofClaims)
    → verify_proof lib json key token ≡ ok proof
    → (x : ProofHeader × Bytes × Bytes × Compact) × (split_token lib json token ≡ ok x)
unfolding verify_proof
verify_proof_split lib json key token proof e = elim (Result-cases (split_token lib json token)) [
  | inl found ↦ found
  | inr (o, failed) ↦ absurd (ground arith)
]

-- Verify returns a proof exactly for a token that is signed with the key over it.
pub verify_proof_iff :
    (lib : Codec) (json : ProofJson) (key token : Bytes) (proof : ProofClaims)
    → (verify_proof lib json key token ≡ ok proof) ↔ (
        (h : ProofHeader) × (payload : Bytes) × (signature : Bytes) × (t : Compact) × IsSigned lib
          json key token proof h payload signature t)
unfolding verify_proof validate_header
verify_proof_iff lib json key token proof = (
  λ e.
      let ((h, payload, signature, t), split) = verify_proof_split lib json key token proof e in
      (
        h,
        payload,
        signature,
        t,
        verify_proof-IsSigned lib json key token proof h payload signature t split e,
      ),
  λ (h, payload, signature, t, s).
      let split = (split_token_iff lib json token h payload signature t).1 s.compact in
      ground (
        arith,
        split,
        s.key_size,
        s.algorithm,
        s.kind,
        s.version,
        s.named,
        s.verified,
        s.strict,
        s.claims,
        validate_proof_complete proof s.fit,
      ),
)
