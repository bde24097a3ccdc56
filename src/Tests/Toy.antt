-- ===== src/Tests/Toy.antt =====
-- A small library to run the definitions with: a keyed checksum for the signature, an encoding
-- without full stops, and claims written as lists of texts of a given length.
use aegis_router.Base.{
  ℕ, suc, zero, ◌+◌, ◌-◌, ◌≡◌, refl, Bool, true, false, List, [], ◌∷◌, ◌++◌, Option, none, some,
  ◌==◌, length, In, inl, inr, arith, ap, ◌∙◌,
}
use aegis_router.Base.Int.{ℤ, pos, negsuc}
use aegis_router.Text.{Bytes, bytes_eq, is_nonempty}
use aegis_router.Crypto.{Codec, IsLawful, public_key_size, signature_size}
use aegis_router.Permit.Claims.{Class, execution, simulation, other_class, Claims}
use aegis_router.Permit.Token.{TokenHeader, PermitJson, compact_header}
use aegis_router.Permit.Token.RoundTrip.{IsFaithful}

abbrev pub copies : ℕ → ℕ → Bytes
copies zero b = []
copies (suc n) b = b ∷ copies n b

length-copies : (n b : ℕ) → length (copies n b) ≡ n
length-copies zero b = refl
length-copies (suc n) b = omega (arith, length-copies n b)

abbrev pub first_byte : Bytes → ℕ
first_byte [] = 0
first_byte (b ∷ s) = b

abbrev pub raise : Bytes → Bytes
raise [] = []
raise (b ∷ s) = (b + 47) ∷ raise s

abbrev pub lower : Bytes → Bytes
lower [] = []
lower (b ∷ s) = (b - 47) ∷ lower s

lower-raise : (s : Bytes) → lower (raise s) ≡ s
lower-raise [] = refl
lower-raise (b ∷ s) = ground (arith, lower-raise s)

raise_no_dot : (s : Bytes) → ¬ In b'.' (raise s)
raise_no_dot [] h = h
raise_no_dot (b ∷ s) (inl h) = omega arith
raise_no_dot (b ∷ s) (inr h) = raise_no_dot s h

abbrev pub checksum : Bytes → Bytes → Bytes
checksum key m = copies signature_size (first_byte key + length m)

abbrev pub codec : Codec
codec = record {
  sign = checksum;
  verify = λ key m s. s == checksum key m;
  public_of = λ key. copies public_key_size (first_byte key);
  sha256 = λ m. copies 32 (length m);
  encode64 = raise;
  decode64 = λ s. some (lower s);
  decode64_strict = λ s. some (lower s);
  is_strict_json = is_nonempty;
}

raise_nonempty : (s : Bytes) → is_nonempty s ≡ true → is_nonempty (raise s) ≡ true
raise_nonempty (b ∷ s) h = refl
raise_nonempty [] h = h

pub codec-IsLawful : IsLawful codec
codec-IsLawful = record {
  verify-sign = λ key m h. ground arith;
  length-sign = λ key m. length-copies 64 (first_byte key + length m);
  length-public_of = λ key h. length-copies 32 (first_byte key);
  decode64-encode64 = λ s. ground (arith, lower-raise s);
  encode64_no_dot = raise_no_dot;
  encode64_nonempty = raise_nonempty;
}

-- Texts behind their lengths
abbrev pub take_bytes : ℕ → Bytes → Bytes
take_bytes zero s = []
take_bytes (suc n) [] = []
take_bytes (suc n) (b ∷ s) = b ∷ take_bytes n s

abbrev pub drop_bytes : ℕ → Bytes → Bytes
drop_bytes zero s = s
drop_bytes (suc n) [] = []
drop_bytes (suc n) (b ∷ s) = drop_bytes n s

take_bytes-append : (s t : Bytes) → take_bytes (length s) (s ++ t) ≡ s
take_bytes-append [] t = refl
take_bytes-append (b ∷ s) t = rw (take_bytes-append s t)

drop_bytes-append : (s t : Bytes) → drop_bytes (length s) (s ++ t) ≡ t
drop_bytes-append [] t = refl
drop_bytes-append (b ∷ s) t = drop_bytes-append s t

abbrev pub join_texts : List Bytes → Bytes
join_texts [] = []
join_texts (f ∷ fs) = length f ∷ f ++ join_texts fs

abbrev pub split_texts : ℕ → Bytes → List Bytes
split_texts zero s = []
split_texts (suc n) [] = []
split_texts (suc n) (k ∷ s) = take_bytes k s ∷ split_texts n (drop_bytes k s)

split_texts-join_texts : (fs : List Bytes) → split_texts (length fs) (join_texts fs) ≡ fs
split_texts-join_texts [] = refl
split_texts-join_texts (f ∷ fs) = rw (
  take_bytes-append f (join_texts fs),
  drop_bytes-append f (join_texts fs),
  split_texts-join_texts fs,
)

abbrev pub bit_text : Bool → Bytes
bit_text true = 1 ∷ []
bit_text false = []

abbrev pub text_bit : Bytes → Bool
text_bit s = is_nonempty s

bit_back : (b : Bool) → text_bit (bit_text b) ≡ b
bit_back true = refl
bit_back false = refl

abbrev pub int_text : ℤ → Bytes
int_text (pos n) = 0 ∷ n ∷ []
int_text (negsuc n) = 1 ∷ n ∷ []

abbrev pub text_int : Bytes → ℤ
text_int (zero ∷ n ∷ s) = pos n
text_int (suc k ∷ n ∷ s) = negsuc n
text_int _ = pos 0

int_back : (i : ℤ) → text_int (int_text i) ≡ i
int_back (pos n) = refl
int_back (negsuc n) = refl

abbrev pub class_text : Class → Bytes
class_text execution = 0 ∷ []
class_text simulation = 1 ∷ []
class_text (other_class s) = 2 ∷ s

abbrev pub text_class : Bytes → Class
text_class (zero ∷ s) = execution
text_class (suc zero ∷ s) = simulation
text_class (suc (suc k) ∷ s) = other_class s
text_class [] = execution

class_back : (k : Class) → text_class (class_text k) ≡ k
class_back execution = refl
class_back simulation = refl
class_back (other_class s) = refl

abbrev pub claims_texts : Claims → List Bytes
claims_texts c =
    c.permit_id
    ∷ c.signing_key_id
    ∷ class_text c.permit_class
    ∷ c.request_id
    ∷ c.principal_id
    ∷ c.agent_id
    ∷ c.workload_id
    ∷ c.executor_key_id
    ∷ c.executor_key_thumbprint
    ∷ c.delegated_authority_fingerprint
    ∷ c.tool
    ∷ c.capability
    ∷ c.resource
    ∷ c.operation
    ∷ c.profile_id
    ∷ c.audience
    ∷ c.action_digest
    ∷ c.execution_binding
    ∷ (c.authority_epoch ∷ [])
    ∷ c.policy_version
    ∷ bit_text c.obligations.isolation_required
    ∷ bit_text c.obligations.network_egress_denied
    ∷ bit_text c.obligations.read_only
    ∷ bit_text c.obligations.human_approval_required
    ∷ bit_text c.obligations.enhanced_audit_required
    ∷ c.issuer
    ∷ int_text c.issued_at
    ∷ int_text c.expires_at
    ∷ bit_text c.single_use
    ∷ []

abbrev pub texts_claims : List Bytes → Option Claims
texts_claims
      (id ∷ key ∷ class ∷ request ∷ principal ∷ agent ∷ workload ∷ executor ∷ print ∷ delegation
        ∷ tool ∷ capability ∷ resource ∷ operation ∷ profile ∷ audience ∷ digest ∷ binding ∷ epoch
        ∷ policy ∷ o1 ∷ o2 ∷ o3 ∷ o4 ∷ o5 ∷ issuer ∷ from ∷ to ∷ once ∷ []) =
    some (record {
      permit_id = id;
      signing_key_id = key;
      permit_class = text_class class;
      request_id = request;
      principal_id = principal;
      agent_id = agent;
      workload_id = workload;
      executor_key_id = executor;
      executor_key_thumbprint = print;
      delegated_authority_fingerprint = delegation;
      tool = tool;
      capability = capability;
      resource = resource;
      operation = operation;
      profile_id = profile;
      audience = audience;
      action_digest = digest;
      execution_binding = binding;
      authority_epoch = first_byte epoch;
      policy_version = policy;
      obligations = record {
        isolation_required = text_bit o1;
        network_egress_denied = text_bit o2;
        read_only = text_bit o3;
        human_approval_required = text_bit o4;
        enhanced_audit_required = text_bit o5;
      };
      issuer = issuer;
      issued_at = text_int from;
      expires_at = text_int to;
      single_use = text_bit once;
    })
texts_claims _ = none

claims_back : (c : Claims) → texts_claims (claims_texts c) ≡ some c
claims_back c = rw (
  class_back c.permit_class,
  bit_back c.obligations.isolation_required,
  bit_back c.obligations.network_egress_denied,
  bit_back c.obligations.read_only,
  bit_back c.obligations.human_approval_required,
  bit_back c.obligations.enhanced_audit_required,
  int_back c.issued_at,
  int_back c.expires_at,
  bit_back c.single_use,
)

abbrev pub header_texts : TokenHeader → List Bytes
header_texts h = h.algorithm ∷ h.kind ∷ int_text h.version ∷ h.key_id ∷ []

abbrev pub texts_header : List Bytes → Option TokenHeader
texts_header (algorithm ∷ kind ∷ version ∷ key ∷ []) =
    some (record { algorithm = algorithm; kind = kind; version = text_int version; key_id = key })
texts_header _ = none

header_back : (h : TokenHeader) → texts_header (header_texts h) ≡ some h
header_back h = rw (int_back h.version)

abbrev pub permit_json : PermitJson
permit_json = record {
  encode_header = λ h. join_texts (header_texts h);
  decode_header = λ s. texts_header (split_texts 4 s);
  encode_claims = λ c. join_texts (claims_texts c);
  decode_claims = λ s. texts_claims (split_texts 29 s);
}

pub json-IsFaithful : IsFaithful codec permit_json
json-IsFaithful = record {
  header_back = λ v key h.
      let t = compact_header v key in
      ap texts_header (split_texts-join_texts (header_texts t)) ∙ header_back t;
  claims_back = λ c h. ap texts_claims (split_texts-join_texts (claims_texts c)) ∙ claims_back c;
  header_strict = λ v key h. refl;
  claims_strict = λ c h. refl;
  header_text = λ h. refl;
  claims_text = λ c. refl;
}
