-- ===== src/ExecutionProof.antt =====
-- internal/executionproof/proof.go: the claims, the compact form and the verification of the proof
-- that a workload holds its key.
pub mod Registry
pub mod Nonces
pub mod Signing
use aegis_router.Base.{
  ℕ, String, ◌≡◌, Bool, true, false, not, ◌&&◌, ◌||◌, ◌*◌, ◌+◌, ◌/◌, ◌%◌, List, [], ◌∷◌, ◌++◌,
  Option, none, some, ltb, ◌==◌, ◌!=◌, nat_eq, length, Result, ok, err, ◌>>=◌, ◌>>◌, reject_if,
  if◌then◌else◌,
}
use aegis_router.Base.Int.{ℤ, pos, leb_ℤ, int_eq}
use aegis_router.Text.{
  Bytes, str, bytes_eq, is_empty, is_lower, is_upper, is_digit, is_lower_hex, all_bytes,
  strip_prefix, split_on, has_outer_space,
}
use aegis_router.Crypto.{Codec, public_key_size, signature_size}
use aegis_router.KeyProvider.{valid_key_id}

-- ErrMalformedToken, ErrInvalidSignature, ErrInvalidClaims, and keyprovider.ErrInvalidKey
pub data ProofError : Type 0 where
  malformed_proof bad_signature bad_claims bad_key : ProofError

pub record ProofHeader : Type 0 where
  pub algorithm : Bytes
  pub kind : Bytes
  pub key_id : Bytes
  pub version : ℤ

pub record ProofClaims : Type 0 where
  pub permit_id : Bytes
  pub action_digest : Bytes
  pub http_method : Bytes
  pub http_path : Bytes
  pub issued_at : ℤ
  pub nonce : Bytes

-- strictJSON at the two types that proof.go decodes
pub record ProofJson : Type 0 where
  pub decode_header : Bytes → Option ProofHeader
  pub decode_claims : Bytes → Option ProofClaims

abbrev pub max_token_bytes : ℕ
max_token_bytes = 16 * 1024

abbrev pub max_nonce_bytes : ℕ
max_nonce_bytes = 256

-- isSHA256Thumbprint and ValidThumbprint
unfoldable pub valid_thumbprint : Bytes → Bool
valid_thumbprint s =
    let (rest, found) = strip_prefix (str "sha256:") s in
    length s == 71 && found && all_bytes is_lower_hex rest

unfoldable pub is_nonce_byte : ℕ → Bool
is_nonce_byte b =
    is_lower b || is_upper b || is_digit b || b == b'.' || b == b'_' || b == b'~' || b == b'-'

-- Claims.Validate
unfoldable pub validate_proof : ProofClaims → Result ProofError (Unit {0})
validate_proof c = do
  reject_if (is_empty c.permit_id || ltb 160 (length c.permit_id)) bad_claims
  reject_if (not (valid_thumbprint c.action_digest)) bad_claims
  reject_if (c.http_method != str "POST" || c.http_path != str "/mcp") bad_claims
  reject_if (leb_ℤ c.issued_at (pos 0) || is_empty c.nonce || ltb max_nonce_bytes (length c.nonce))
      bad_claims
  reject_if (not (all_bytes is_nonce_byte c.nonce)) bad_claims

-- validateHeader
unfoldable pub validate_header : ProofHeader → Result ProofError (Unit {0})
validate_header h =
    reject_if
      (h.algorithm != str "EdDSA"
        || h.kind != str "AEGIS-EXECUTION-PROOF"
        || h.version != pos 1
        || not (valid_key_id h.key_id))
      malformed_proof

abbrev pub or_malformed {ℓ} : {A : Type ℓ} → Option A → Result ProofError A
or_malformed none = err malformed_proof
or_malformed (some a) = ok a

-- The two encoded parts that are signed, and the encoded signature.
pub record Compact : Type 0 where
  pub header_part : Bytes
  pub claims_part : Bytes
  pub signature_part : Bytes

abbrev pub signing_input : Compact → Bytes
signing_input t = t.header_part ++ b'.' ∷ t.claims_part

unfoldable pub three_parts : List Bytes → Option Compact
three_parts (a ∷ b ∷ c ∷ []) =
    if is_empty a || is_empty b || is_empty c
    then none
    else some (record { header_part = a; claims_part = b; signature_part = c })
three_parts _ = none

module _ (lib : Codec) (json : ProofJson) where
  -- splitToken; the parts are kept for the signature check of Verify, which splits again.
  unfoldable pub split_token : Bytes → Result ProofError (ProofHeader × Bytes × Bytes × Compact)
  split_token token = do
    reject_if (is_empty token || ltb max_token_bytes (length token) || has_outer_space token)
        malformed_proof
    parts ← or_malformed (three_parts (split_on b'.' token))
    header_bytes ← or_malformed (lib.decode64_strict parts.header_part)
    payload ← or_malformed (lib.decode64_strict parts.claims_part)
    signature ← or_malformed (lib.decode64_strict parts.signature_part)
    reject_if (length signature != signature_size) malformed_proof
    reject_if (not (lib.is_strict_json header_bytes)) malformed_proof
    header ← or_malformed (json.decode_header header_bytes)
    ok (header, payload, signature, parts)

  -- TokenKeyID
  unfoldable pub proof_key_id : Bytes → Result ProofError Bytes
  proof_key_id token = do parsed ← split_token token; validate_header parsed.0; ok parsed.0.key_id

  -- Verify
  unfoldable pub verify_proof : Bytes → Bytes → Result ProofError ProofClaims
  verify_proof public_key token = do
    reject_if (length public_key != public_key_size) bad_key
    parsed ← split_token token
    validate_header parsed.0
    reject_if (not (lib.verify public_key (signing_input parsed.3) parsed.2)) bad_signature
    reject_if (not (lib.is_strict_json parsed.1)) malformed_proof
    claims ← or_malformed (json.decode_claims parsed.1)
    validate_proof claims
    ok claims

-- A digit of hex.EncodeToString
abbrev pub hex_digit : ℕ → ℕ
hex_digit d = if ltb d 10 then b'0' + d else 87 + d

unfoldable pub hex : Bytes → Bytes
hex [] = []
hex (b ∷ s) = hex_digit (b / 16) ∷ hex_digit (b % 16) ∷ hex s

-- Thumbprint
unfoldable pub thumbprint : Codec → Bytes → Result ProofError Bytes
thumbprint lib public_key =
    if length public_key != public_key_size
    then err bad_key
    else ok (str "sha256:" ++ hex (lib.sha256 public_key))
