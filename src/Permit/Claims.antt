-- ===== src/Permit/Claims.antt =====
-- internal/permit/claims.go: the signed claims of an execution permit and their validation.
pub mod Validity
use Prim.Native.String.{◌++◌ as append_text}
use aegis_router.Base.{
  ℕ, String, ◌≡◌, Bool, true, false, not, ◌&&◌, ◌||◌, List, [], ◌∷◌, ltb, ◌==◌, ◌!=◌, Eq, nat_eq,
  bool_eq, ℕ_discrete, length, Result, ok, err, ◌>>=◌, ◌>>◌, reject_if, if◌then◌else◌,
}
use aegis_router.Base.Int.{ℤ, pos, leb_ℤ, ℤ-discrete}
use aegis_router.Text.{
  Bytes, Bytes-discrete, bytes_eq, is_empty, is_nonempty, utf8_valid, has_control, is_sha256_digest,
}
use aegis_router.Time.{Time, unix_time}
use aegis_router.KeyProvider.{valid_key_id}

-- The errors of the package. Each wrapped ErrInvalidClaims carries its text.
pub data Error : Type 0 where
  invalid_claims : String → Error
  invalid_key malformed_token invalid_signature unsupported_token : Error
  permit_exists permit_not_found permit_not_active authority_changed : Error
  timestamp_required epoch_exhausted identifier_unavailable : Error

-- Class: the two constants, and any other string that a claim may hold.
pub data Class : Type 0 where
  execution simulation : Class
  other_class : Bytes → Class

unfoldable pub Class-discrete : Discrete Class
unfolding Bytes-discrete
Class-discrete = hlevel Bytes-discrete

instance abbrev pub class_eq : Eq Class
class_eq = record { eq_dec = Class-discrete }

-- Class.Valid
unfoldable pub valid_class : Class → Bool
valid_class c = c == execution || c == simulation

pub record Obligations : Type 0 where
  pub isolation_required : Bool
  pub network_egress_denied : Bool
  pub read_only : Bool
  pub human_approval_required : Bool
  pub enhanced_audit_required : Bool

unfoldable pub Obligations-discrete : Discrete Obligations
Obligations-discrete = hlevel

instance abbrev pub obligations_eq : Eq Obligations
obligations_eq = record { eq_dec = Obligations-discrete }

pub record Claims : Type 0 where
  pub permit_id : Bytes
  pub signing_key_id : Bytes
  pub permit_class : Class
  pub request_id : Bytes
  pub principal_id : Bytes
  pub agent_id : Bytes
  pub workload_id : Bytes
  pub executor_key_id : Bytes
  pub executor_key_thumbprint : Bytes
  pub delegated_authority_fingerprint : Bytes
  pub tool : Bytes
  pub capability : Bytes
  pub resource : Bytes
  pub operation : Bytes
  pub profile_id : Bytes
  pub audience : Bytes
  pub action_digest : Bytes
  pub execution_binding : Bytes
  pub authority_epoch : ℕ
  pub policy_version : Bytes
  pub obligations : Obligations
  pub issuer : Bytes
  pub issued_at : ℤ
  pub expires_at : ℤ
  pub single_use : Bool

-- `==` of two Claims values
unfoldable pub Claims-discrete : Discrete Claims
unfolding Bytes-discrete ℕ_discrete ℤ-discrete Class-discrete Obligations-discrete
Claims-discrete =
    hlevel (Bytes-discrete, ℕ_discrete, ℤ-discrete, Class-discrete, Obligations-discrete)

instance abbrev pub claims_eq : Eq Claims
claims_eq = record { eq_dec = Claims-discrete }

-- Claims.IssuedTime and Claims.ExpiresTime
unfoldable pub issued_time : Claims → Time
issued_time c = unix_time c.issued_at

unfoldable pub expires_time : Claims → Time
expires_time c = unix_time c.expires_at

abbrev invalid {ℓ} : {A : Type ℓ} → String → Result Error A
invalid reason = err (invalid_claims reason)

infixr 65 ◌<>◌
abbrev ◌<>◌ : String → String → String
a <> b = append_text a b

-- validateMetadata
unfoldable pub validate_metadata : String → Bytes → ℕ → Bool → Result Error (Unit {0})
validate_metadata name value limit required = do
  reject_if (required && is_empty value) (invalid_claims (name <> " is required"))
  if is_empty value
      then ok tt
      else if not (utf8_valid value) || ltb limit (length value)
      then invalid (name <> " is invalid or too long")
      else reject_if (has_control value) (invalid_claims (name <> " contains control characters"))

pub record Field : Type 0 where
  pub name : String
  pub value : Bytes
  pub limit : ℕ

abbrev pub field : String → Bytes → ℕ → Field
field n v l = record { name = n; value = v; limit = l }

abbrev pub required_fields : Claims → List Field
required_fields c =
    field "jti" c.permit_id 160
    ∷ field "signing_key_id" c.signing_key_id 128
    ∷ field "request_id" c.request_id 160
    ∷ field "principal" c.principal_id 512
    ∷ field "agent" c.agent_id 512
    ∷ field "workload" c.workload_id 512
    ∷ field "tool" c.tool 512
    ∷ field "capability" c.capability 512
    ∷ field "resource" c.resource 2048
    ∷ field "operation" c.operation 512
    ∷ field "policy_version" c.policy_version 512
    ∷ field "iss" c.issuer 512
    ∷ []

-- The loop over the required fields.
unfoldable pub validate_fields : List Field → Result Error (Unit {0})
validate_fields [] = ok tt
validate_fields (f ∷ fs) = do validate_metadata f.name f.value f.limit true; validate_fields fs

-- The checks before the loop.
unfoldable pub validate_head : Claims → Result Error (Unit {0})
validate_head c = do
  reject_if (is_nonempty c.execution_binding != (c.authority_epoch != 0))
      (invalid_claims "v2 execution_binding and authority_epoch are required together")
  reject_if
      (is_nonempty c.execution_binding
        && (not (is_sha256_digest c.execution_binding) || c.permit_class != execution))
      (invalid_claims "execution_binding requires an execution Permit and SHA-256 digest")
  reject_if (not (valid_class c.permit_class))
      (invalid_claims "permit_class must be execution or simulation")
  reject_if (is_empty c.profile_id != is_empty c.audience)
      (invalid_claims "profile_id and audience must be present together")
  validate_metadata "profile_id" c.profile_id 256 false
  validate_metadata "audience" c.audience 1024 false

-- The switch on the permit class.
unfoldable pub validate_executor : Claims → Result Error (Unit {0})
validate_executor c = elim c.permit_class [
  | execution ↦
      reject_if (not (valid_key_id c.executor_key_id))
        (invalid_claims "executor_key_id is required for execution permits")
      >> reject_if (not (is_sha256_digest c.executor_key_thumbprint)) (
          invalid_claims
            "executor_key_thumbprint is required for execution permits and must be a lowercase algorithm-qualified SHA-256 digest")
  | simulation ↦
      reject_if (is_nonempty c.executor_key_id || is_nonempty c.executor_key_thumbprint)
        (invalid_claims "executor key binding is forbidden for simulation permits")
  | other_class _ ↦ ok tt
]

-- The checks after the loop.
unfoldable pub validate_tail : Claims → Result Error (Unit {0})
validate_tail c = do
  reject_if (not (valid_key_id c.signing_key_id)) (invalid_claims "signing_key_id")
  validate_metadata "delegated_authority_fingerprint" c.delegated_authority_fingerprint 512 false
  reject_if
      (is_nonempty c.delegated_authority_fingerprint
        && not (is_sha256_digest c.delegated_authority_fingerprint))
      (invalid_claims
        "delegated_authority_fingerprint must be an Aegis-bound, algorithm-qualified SHA-256 digest")
  validate_executor c
  reject_if (not (is_sha256_digest c.action_digest))
      (invalid_claims "action_digest must be a lowercase algorithm-qualified SHA-256 digest")
  reject_if (leb_ℤ c.issued_at (pos 0) || leb_ℤ c.expires_at c.issued_at)
      (invalid_claims "exp must be later than iat")
  reject_if (not c.single_use) (invalid_claims "single_use must be true")

-- Claims.Validate
unfoldable pub validate : Claims → Result Error (Unit {0})
validate c = do validate_head c; validate_fields (required_fields c); validate_tail c
