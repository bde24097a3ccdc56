-- ===== src/Permit/Token.antt =====
-- internal/permit/token.go: the signed compact form of the claims.
pub mod RoundTrip
use aegis_router.Base.{
  ℕ, ◌≡◌, Bool, true, false, not, ◌&&◌, ◌||◌, ◌*◌, List, [], ◌∷◌, ◌++◌, Option, none, some, ltb,
  ◌==◌, ◌!=◌, nat_eq, bool_eq, length, Result, ok, err, ◌>>=◌, ◌>>◌, reject_if, if◌then◌else◌,
}
use aegis_router.Base.Int.{ℤ, pos, int_eq}
use aegis_router.Text.{Bytes, str, bytes_eq, is_empty, is_nonempty, split_on}
use aegis_router.Crypto.{Codec, private_key_size, public_key_size, signature_size}
use aegis_router.KeyProvider.{valid_key_id}
use aegis_router.Permit.Claims.{
  Error, invalid_claims, invalid_key, malformed_token, invalid_signature, unsupported_token, Claims,
  validate,
}

pub record TokenHeader : Type 0 where
  pub algorithm : Bytes
  pub kind : Bytes
  pub version : ℤ
  pub key_id : Bytes

-- json.Marshal and strictJSON at the two types of token.go
pub record PermitJson : Type 0 where
  pub encode_header : TokenHeader → Bytes
  pub decode_header : Bytes → Option TokenHeader
  pub encode_claims : Claims → Bytes
  pub decode_claims : Bytes → Option Claims

abbrev pub max_compact_bytes : ℕ
max_compact_bytes = 64 * 1024

-- compactHeader with its version and key
abbrev pub compact_header : ℤ → Bytes → TokenHeader
compact_header v key = record {
  algorithm = str "EdDSA";
  kind = str "AEGIS-PERMIT";
  version = v;
  key_id = key;
}

abbrev pub or_else {ℓ} : {A : Type ℓ} → Option A → Error → Result Error A
or_else none e = err e
or_else (some a) e = ok a

-- The three parts of a compact token.
pub record Parts : Type 0 where
  pub header_part : Bytes
  pub claims_part : Bytes
  pub signature_part : Bytes

abbrev pub signing_input : Bytes → Bytes → Bytes
signing_input h c = h ++ b'.' ∷ c

unfoldable pub three_parts : List Bytes → Option Parts
three_parts (a ∷ b ∷ c ∷ []) =
    if is_empty a || is_empty b || is_empty c
    then none
    else some (record { header_part = a; claims_part = b; signature_part = c })
three_parts _ = none

-- tokenParts
unfoldable pub token_parts : Bytes → Result Error Parts
token_parts token = do
  reject_if (is_empty token || ltb max_compact_bytes (length token)) malformed_token
  or_else (three_parts (split_on b'.' token)) malformed_token

-- The test of the header in VerifyToken and TokenKeyID
unfoldable pub supported : TokenHeader → Bool
supported h =
    h.algorithm == str "EdDSA"
    && h.kind == str "AEGIS-PERMIT"
    && (h.version == pos 1 || h.version == pos 2)
    && valid_key_id h.key_id

module _ (lib : Codec) (json : PermitJson) where
  -- SignToken; json.Marshal of these two types returns no error.
  unfoldable pub sign_token : Bytes → Bytes → Claims → Result Error Bytes
  sign_token private_key key_id claims = do
    reject_if (length private_key != private_key_size) invalid_key
    validate claims
    reject_if (not (valid_key_id key_id) || claims.signing_key_id != key_id)
        (invalid_claims "token kid must match signing_key_id")
    let version = if is_nonempty claims.execution_binding then pos 2 else pos 1
    let head = lib.encode64 (json.encode_header (compact_header version key_id))
    let body = lib.encode64 (json.encode_claims claims)
    let input = signing_input head body
    ok (input ++ b'.' ∷ lib.encode64 (lib.sign private_key input))

  -- The part of VerifyToken after the signature check
  unfoldable pub read_claims : Parts → Result Error Claims
  read_claims parts = do
    header_json ← or_else (lib.decode64 parts.header_part) malformed_token
    payload_json ← or_else (lib.decode64 parts.claims_part) malformed_token
    reject_if (not (lib.is_strict_json header_json)) malformed_token
    reject_if (not (lib.is_strict_json payload_json)) malformed_token
    header ← or_else (json.decode_header header_json) malformed_token
    reject_if (not (supported header)) unsupported_token
    claims ← or_else (json.decode_claims payload_json) malformed_token
    validate claims
    reject_if ((header.version == pos 2) != is_nonempty claims.execution_binding) unsupported_token
    reject_if (claims.signing_key_id != header.key_id)
        (invalid_claims "token kid does not match signed claims")
    ok claims

  -- VerifyToken
  unfoldable pub verify_token : Bytes → Bytes → Result Error Claims
  verify_token public_key token = do
    reject_if (length public_key != public_key_size) invalid_key
    parts ← token_parts token
    signature ← or_else (lib.decode64 parts.signature_part) invalid_signature
    reject_if (length signature != signature_size) invalid_signature
    reject_if (lib.encode64 signature != parts.signature_part) invalid_signature
    reject_if
        (not (lib.verify public_key (signing_input parts.header_part parts.claims_part) signature))
        invalid_signature
    read_claims parts

  -- TokenKeyID
  unfoldable pub token_key_id : Bytes → Result Error Bytes
  token_key_id token = do
    parts ← token_parts token
    header_json ← or_else (lib.decode64 parts.header_part) malformed_token
    reject_if (not (lib.is_strict_json header_json)) malformed_token
    header ← or_else (json.decode_header header_json) malformed_token
    reject_if (not (supported header)) unsupported_token
    ok header.key_id
