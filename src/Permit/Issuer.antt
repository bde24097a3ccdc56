-- ===== src/Permit/Issuer.antt =====
-- internal/permit/issuer.go: Issuer.Issue.
pub mod Registers
use aegis_router.Base.{
  ℕ, ◌≡◌, Bool, true, false, ◌||◌, ◌*◌, ◌/◌, ◌%◌, Option, none, some, ltb, ◌==◌, ◌!=◌, nat_eq,
  Result, ok, err, ◌>>=◌, ◌>>◌, reject_if, if◌then◌else◌,
}
use aegis_router.Base.Int.{ℤ, pos, ◌+ℤ◌}
use aegis_router.Text.{Bytes, is_empty}
use aegis_router.Time.{Time, second, to_unix, unix_time, add}
use aegis_router.Crypto.{Codec}
use aegis_router.KeyProvider.{KeyError}
use aegis_router.Permit.Claims.{
  Error, invalid_claims, invalid_key, identifier_unavailable, Class, Obligations, Claims, validate,
}
use aegis_router.Permit.Token.{PermitJson, sign_token}
use aegis_router.Permit.Store.{Store, register}

-- DefaultTTL and MaxTTL, in nanoseconds
abbrev pub default_ttl : ℕ
default_ttl = 30 * second

abbrev pub max_ttl : ℕ
max_ttl = 900 * second

-- The lifetime of a request is not negative: the callers pass the Router's TTL or an override.
pub record IssueRequest : Type 0 where
  pub permit_id : Bytes
  pub permit_class : Class
  pub request_id : Bytes
  pub principal_id : Bytes
  pub agent_id : Bytes
  pub workload_id : Bytes
  pub executor_key_id : Bytes
  pub executor_key_thumbprint : Bytes
  pub delegated_authority_fingerprint : Bytes
  pub tool : Bytes
  pub capability : Bytes
  pub resource : Bytes
  pub operation : Bytes
  pub profile_id : Bytes
  pub audience : Bytes
  pub action_digest : Bytes
  pub execution_binding : Bytes
  pub authority_epoch : ℕ
  pub policy_version : Bytes
  pub obligations : Obligations
  pub ttl : ℕ

pub record SigningKey : Type 0 where
  pub key_id : Bytes
  pub private_key : Bytes

pub record IssuedPermit : Type 0 where
  pub permit_id : Bytes
  pub claims : Claims
  pub token : Bytes

-- What Issue reads from its surroundings: the current signing key, an identifier made from random
-- bytes, and the clock.
pub record Surroundings : Type 0 where
  pub signing_key : Result KeyError SigningKey
  pub fresh_id : Option Bytes
  pub clock : Time

-- The claims that Issue fills in.
unfoldable pub claims_for : Bytes → Bytes → Bytes → Time → ℕ → IssueRequest → Claims
claims_for name key_id id clock ttl q =
    let now = to_unix clock in
    record {
      permit_id = id;
      signing_key_id = key_id;
      permit_class = q.permit_class;
      request_id = q.request_id;
      principal_id = q.principal_id;
      agent_id = q.agent_id;
      workload_id = q.workload_id;
      executor_key_id = q.executor_key_id;
      executor_key_thumbprint = q.executor_key_thumbprint;
      delegated_authority_fingerprint = q.delegated_authority_fingerprint;
      tool = q.tool;
      capability = q.capability;
      resource = q.resource;
      operation = q.operation;
      profile_id = q.profile_id;
      audience = q.audience;
      action_digest = q.action_digest;
      execution_binding = q.execution_binding;
      authority_epoch = q.authority_epoch;
      policy_version = q.policy_version;
      obligations = q.obligations;
      issuer = name;
      issued_at = now;
      expires_at = to_unix (add (unix_time now) ttl);
      single_use = true;
    }

abbrev pub requested_id : IssueRequest → Option Bytes → Result Error Bytes
requested_id q fresh =
    if is_empty q.permit_id
    then elim fresh [ some id ↦ ok id | none ↦ err identifier_unavailable ]
    else ok q.permit_id

module _ (lib : Codec) (json : PermitJson) (name : Bytes) where
  -- Issue up to the registration: the claims and their token
  unfoldable pub prepare : Surroundings → IssueRequest → Result Error IssuedPermit
  prepare around q = do
    key ← elim around.signing_key [ ok key ↦ ok key | err _ ↦ err invalid_key ]
    let ttl : ℕ = if q.ttl == 0 then default_ttl else q.ttl
    reject_if (ltb ttl second || ltb max_ttl ttl || ttl % second != 0)
        (invalid_claims "TTL must be whole seconds between 1s and 15m0s")
    id ← requested_id q around.fresh_id
    let claims = claims_for name key.key_id id around.clock ttl q
    validate claims
    token ← sign_token lib json key.private_key key.key_id claims
    ok (record { permit_id = id; claims = claims; token = token })

  -- Issue
  unfoldable pub issue : Surroundings → IssueRequest → Store → Store × Result Error IssuedPermit
  issue around q s = elim (prepare around q) [
    | err e ↦ (s, err e)
    | ok issued ↦ (
      (register issued.claims s).0,
      elim (register issued.claims s).1 [ err e ↦ err e | ok _ ↦ ok issued ],
    )
  ]
