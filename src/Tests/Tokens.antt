-- ===== src/Tests/Tokens.antt =====
-- The theorems on tokens, on the issuer and on the nonces, at the toy library.
use aegis_router.Base.{
  ℕ, ◌≡◌, ◌≤◌, ◌*◌, ◌/◌, refl, ok, some, none, List, [], ◌∷◌, ◌++◌, true, false, arith, ◌↔◌, length,
  All, In, Result, err, inl, inr,
}
use aegis_router.Base.Dict.{lookup}
use aegis_router.Base.Int.{ℤ, pos, ◌+ℤ◌, ◌<ℤ◌}
use aegis_router.Text.{Bytes, str, bytes_eq}
use aegis_router.Time.{second, before}
use aegis_router.Permit.Claims.{execution, expires_time}
use aegis_router.Permit.Token.{sign_token, verify_token, token_key_id, max_compact_bytes}
use aegis_router.Permit.Token.RoundTrip.{verify_token-sign_token}
use aegis_router.Permit.Store.{Store, empty_store, fresh_record, consume, succeeded}
use aegis_router.Permit.Issuer.{IssueRequest, SigningKey, IssuedPermit, Surroundings, issue}
use aegis_router.Permit.Issuer.Registers.{issue_registers, issue_usable, lifetime}
use aegis_router.Permit.Issuer.{max_ttl}
use aegis_router.Constraints.{no_obligations}
use aegis_router.ExecutionProof.Registry.{
  Registry, register_key, workload_key, workload_key-register_key,
}
use aegis_router.ExecutionProof.Nonces.{
  Attempt, attempts, use_nonce, nonce_key, nonce_once, nonce_key_injective,
}
use aegis_router.Tests.Toy.{copies, codec, codec-IsLawful, permit_json, json-IsFaithful}
use aegis_router.Tests.Data.{execution_claims, digest_two, digest_key, early}

abbrev pub signing_key : Bytes
signing_key = copies 64 9

abbrev pub token_of : Result aegis_router.Permit.Claims.Error Bytes → Bytes
token_of (ok t) = t
token_of (err e) = []

abbrev pub token : Bytes
token = token_of (sign_token codec permit_json signing_key (str "key-1") execution_claims)

abbrev request : IssueRequest
request = record {
  permit_id = [];
  permit_class = execution;
  request_id = str "request-1";
  principal_id = str "alice";
  agent_id = str "agent";
  workload_id = str "worker";
  executor_key_id = str "exec-1";
  executor_key_thumbprint = digest_key;
  delegated_authority_fingerprint = [];
  tool = str "send";
  capability = str "payment";
  resource = str "bank";
  operation = str "write";
  profile_id = [];
  audience = [];
  action_digest = digest_two;
  execution_binding = digest_two;
  authority_epoch = 1;
  policy_version = str "v1";
  obligations = no_obligations;
  ttl = 0;
}

abbrev around : Surroundings
around = record {
  signing_key = ok (record { key_id = str "key-1"; private_key = signing_key });
  fresh_id = some (str "permit-1");
  clock = pos (100 * second);
}

abbrev issued : IssuedPermit
issued = record { permit_id = str "permit-1"; claims = execution_claims; token = token }

abbrev between : List Attempt
between = record { key_id = str "exec-2"; nonce = str "n"; now = pos 115; expires = pos 150 } ∷ []

abbrev keys : Registry
keys = (str "exec-1", copies 32 5) ∷ []

-- What the definitions answer on this data
facts :
    (sign_token codec permit_json signing_key (str "key-1") execution_claims ≡ ok token)
    × ((issue codec permit_json (str "aegis") around request empty_store).1 ≡ ok issued)
unfolding aegis_router.Base.ℕ_discrete aegis_router.Text.Bytes-discrete aegis_router.Text.utf8_valid
    aegis_router.Text.has_control aegis_router.Text.strip_prefix aegis_router.Text.all_bytes
    aegis_router.Text.is_sha256_digest aegis_router.Text.split_on aegis_router.Text.has_outer_space
    aegis_router.KeyProvider.valid_key_id aegis_router.Time.unix_time aegis_router.Time.to_unix
    aegis_router.Base.Dict.lookup aegis_router.Base.Dict.insert aegis_router.Base.Lists.contains
    aegis_router.Base.Int.◌+ℤ◌ aegis_router.Base.Int.◌-ℤ◌ aegis_router.Base.Int.◌*ℤ◌
    aegis_router.Base.Int.div_floor aegis_router.Base.Int.ℤ-discrete
    aegis_router.Base.Equality.Bool-discrete aegis_router.Text.Labels.is_label_byte
    aegis_router.Permit.Claims.Class-discrete aegis_router.Permit.Claims.valid_class
    aegis_router.Permit.Claims.Obligations-discrete aegis_router.Permit.Claims.Claims-discrete
    aegis_router.Permit.Claims.issued_time aegis_router.Permit.Claims.expires_time
    aegis_router.Permit.Claims.validate_metadata aegis_router.Permit.Claims.validate_fields
    aegis_router.Permit.Claims.validate_head aegis_router.Permit.Claims.validate_executor
    aegis_router.Permit.Claims.validate_tail aegis_router.Permit.Claims.validate
    aegis_router.Permit.Token.three_parts aegis_router.Permit.Token.token_parts
    aegis_router.Permit.Token.supported aegis_router.Permit.Token.sign_token
    aegis_router.Permit.Token.read_claims aegis_router.Permit.Token.verify_token
    aegis_router.Permit.Token.token_key_id aegis_router.Permit.Authority.AuthorityKey-discrete
    aegis_router.Permit.Authority.authority_in aegis_router.Permit.Issuer.claims_for
    aegis_router.Permit.Issuer.prepare aegis_router.Permit.Issuer.issue
    aegis_router.Permit.Store.State-discrete aegis_router.Permit.Store.expire_if_needed
    aegis_router.Permit.Store.authority_moved aegis_router.Permit.Store.register_valid
    aegis_router.Permit.Store.register aegis_router.Permit.Store.get
    aegis_router.Permit.Store.consume_found aegis_router.Permit.Store.consume
    aegis_router.Permit.Store.revoke aegis_router.Permit.Store.revoke_for
    aegis_router.Permit.Store.check_transition aegis_router.Permit.Store.transition
    aegis_router.Permit.Store.set_authority_enabled aegis_router.Permit.Store.bytes_ltb
    aegis_router.Permit.Store.listed_before aegis_router.Permit.Store.place
    aegis_router.Permit.Store.sort_records aegis_router.Permit.Store.list
    aegis_router.Permit.Store.Lifecycle.successes aegis_router.Permit.Store.Steps.step
    aegis_router.Permit.Store.Steps.run
facts = (refl, refl)

fits : length token ≤ max_compact_bytes
unfolding aegis_router.Base.ℕ_discrete aegis_router.Text.Bytes-discrete aegis_router.Text.utf8_valid
    aegis_router.Text.has_control aegis_router.Text.strip_prefix aegis_router.Text.all_bytes
    aegis_router.Text.is_sha256_digest aegis_router.Text.split_on aegis_router.Text.has_outer_space
    aegis_router.KeyProvider.valid_key_id aegis_router.Time.unix_time aegis_router.Time.to_unix
    aegis_router.Base.Dict.lookup aegis_router.Base.Dict.insert aegis_router.Base.Lists.contains
    aegis_router.Base.Int.◌+ℤ◌ aegis_router.Base.Int.◌-ℤ◌ aegis_router.Base.Int.◌*ℤ◌
    aegis_router.Base.Int.div_floor aegis_router.Base.Int.ℤ-discrete
    aegis_router.Base.Equality.Bool-discrete aegis_router.Text.Labels.is_label_byte
    aegis_router.Permit.Claims.Class-discrete aegis_router.Permit.Claims.valid_class
    aegis_router.Permit.Claims.Obligations-discrete aegis_router.Permit.Claims.Claims-discrete
    aegis_router.Permit.Claims.issued_time aegis_router.Permit.Claims.expires_time
    aegis_router.Permit.Claims.validate_metadata aegis_router.Permit.Claims.validate_fields
    aegis_router.Permit.Claims.validate_head aegis_router.Permit.Claims.validate_executor
    aegis_router.Permit.Claims.validate_tail aegis_router.Permit.Claims.validate
    aegis_router.Permit.Token.three_parts aegis_router.Permit.Token.token_parts
    aegis_router.Permit.Token.supported aegis_router.Permit.Token.sign_token
    aegis_router.Permit.Token.read_claims aegis_router.Permit.Token.verify_token
    aegis_router.Permit.Token.token_key_id
fits = omega arith

verify_token-sign_token_example :
    verify_token codec permit_json (codec.public_of signing_key) token ≡ ok execution_claims
verify_token-sign_token_example =
    verify_token-sign_token codec permit_json codec-IsLawful json-IsFaithful signing_key
      (str "key-1") execution_claims token facts.0 fits

not_expired : before early (expires_time execution_claims) ≡ true
unfolding aegis_router.Base.ℕ_discrete aegis_router.Text.Bytes-discrete aegis_router.Text.utf8_valid
    aegis_router.Text.has_control aegis_router.Text.strip_prefix aegis_router.Text.all_bytes
    aegis_router.Text.is_sha256_digest aegis_router.Text.split_on aegis_router.Text.has_outer_space
    aegis_router.KeyProvider.valid_key_id aegis_router.Time.unix_time aegis_router.Time.to_unix
    aegis_router.Base.Dict.lookup aegis_router.Base.Dict.insert aegis_router.Base.Lists.contains
    aegis_router.Base.Int.◌+ℤ◌ aegis_router.Base.Int.◌-ℤ◌ aegis_router.Base.Int.◌*ℤ◌
    aegis_router.Base.Int.div_floor aegis_router.Base.Int.ℤ-discrete
    aegis_router.Base.Equality.Bool-discrete aegis_router.Text.Labels.is_label_byte
    aegis_router.Permit.Claims.Class-discrete aegis_router.Permit.Claims.valid_class
    aegis_router.Permit.Claims.Obligations-discrete aegis_router.Permit.Claims.Claims-discrete
    aegis_router.Permit.Claims.issued_time aegis_router.Permit.Claims.expires_time
    aegis_router.Permit.Claims.validate_metadata aegis_router.Permit.Claims.validate_fields
    aegis_router.Permit.Claims.validate_head aegis_router.Permit.Claims.validate_executor
    aegis_router.Permit.Claims.validate_tail aegis_router.Permit.Claims.validate
not_expired = refl

issue_registers_example :
    (lookup
        (str "permit-1")
        (issue codec permit_json (str "aegis") around request empty_store).0.records
      ≡ some (fresh_record execution_claims))
    × (lookup (str "permit-1") empty_store.records ≡ none)
    × (second ≤ lifetime request)
    × (lifetime request ≤ max_ttl)
    × (pos 130 ≡ pos 100 +ℤ pos (lifetime request / second))
issue_registers_example =
    issue_registers codec permit_json (str "aegis") around request empty_store issued facts.1

issue_usable_example :
    (consume
      (str "permit-1")
      early
      (issue codec permit_json (str "aegis") around request empty_store).0).1.outcome
    ≡ succeeded
issue_usable_example =
    issue_usable codec permit_json (str "aegis") around request empty_store issued early facts.1
      not_expired

uses_nonce : (use_nonce (str "exec-1") (str "n") (pos 110) (pos 140) []).1 ≡ true
unfolding aegis_router.Base.ℕ_discrete aegis_router.Text.Bytes-discrete aegis_router.Text.utf8_valid
    aegis_router.Text.has_control aegis_router.Text.strip_prefix aegis_router.Text.all_bytes
    aegis_router.Text.is_sha256_digest aegis_router.Text.split_on aegis_router.Text.has_outer_space
    aegis_router.KeyProvider.valid_key_id aegis_router.Time.unix_time aegis_router.Time.to_unix
    aegis_router.Base.Dict.lookup aegis_router.Base.Dict.insert aegis_router.Base.Lists.contains
    aegis_router.Base.Int.◌+ℤ◌ aegis_router.Base.Int.◌-ℤ◌ aegis_router.Base.Int.◌*ℤ◌
    aegis_router.Base.Int.div_floor aegis_router.Base.Int.ℤ-discrete
    aegis_router.Base.Equality.Bool-discrete aegis_router.Text.Labels.is_label_byte
    aegis_router.ExecutionProof.valid_thumbprint aegis_router.ExecutionProof.is_nonce_byte
    aegis_router.ExecutionProof.validate_proof aegis_router.ExecutionProof.validate_header
    aegis_router.ExecutionProof.three_parts aegis_router.ExecutionProof.split_token
    aegis_router.ExecutionProof.proof_key_id aegis_router.ExecutionProof.verify_proof
    aegis_router.ExecutionProof.hex aegis_router.ExecutionProof.thumbprint
    aegis_router.Base.Dict.retain aegis_router.ExecutionProof.Nonces.use_nonce
    aegis_router.ExecutionProof.Registry.conflicts aegis_router.ExecutionProof.Registry.register_key
    aegis_router.ExecutionProof.Registry.workload_key
uses_nonce = refl

nonce_once_example :
    (use_nonce
      (str "exec-1")
      (str "n")
      (pos 120)
      (pos 160)
      (attempts between (use_nonce (str "exec-1") (str "n") (pos 110) (pos 140) []).0)).1
    ≡ false
nonce_once_example =
    nonce_once (str "exec-1") (str "n") (pos 110) (pos 140) (pos 120) (pos 160) between []
      uses_nonce (omega arith, tt) (omega arith)

finds_key : workload_key (str "exec-1") keys ≡ ok (copies 32 5)
unfolding aegis_router.Base.ℕ_discrete aegis_router.Text.Bytes-discrete aegis_router.Text.utf8_valid
    aegis_router.Text.has_control aegis_router.Text.strip_prefix aegis_router.Text.all_bytes
    aegis_router.Text.is_sha256_digest aegis_router.Text.split_on aegis_router.Text.has_outer_space
    aegis_router.KeyProvider.valid_key_id aegis_router.Time.unix_time aegis_router.Time.to_unix
    aegis_router.Base.Dict.lookup aegis_router.Base.Dict.insert aegis_router.Base.Lists.contains
    aegis_router.Base.Int.◌+ℤ◌ aegis_router.Base.Int.◌-ℤ◌ aegis_router.Base.Int.◌*ℤ◌
    aegis_router.Base.Int.div_floor aegis_router.Base.Int.ℤ-discrete
    aegis_router.Base.Equality.Bool-discrete aegis_router.Text.Labels.is_label_byte
    aegis_router.ExecutionProof.valid_thumbprint aegis_router.ExecutionProof.is_nonce_byte
    aegis_router.ExecutionProof.validate_proof aegis_router.ExecutionProof.validate_header
    aegis_router.ExecutionProof.three_parts aegis_router.ExecutionProof.split_token
    aegis_router.ExecutionProof.proof_key_id aegis_router.ExecutionProof.verify_proof
    aegis_router.ExecutionProof.hex aegis_router.ExecutionProof.thumbprint
    aegis_router.Base.Dict.retain aegis_router.ExecutionProof.Nonces.use_nonce
    aegis_router.ExecutionProof.Registry.conflicts aegis_router.ExecutionProof.Registry.register_key
    aegis_router.ExecutionProof.Registry.workload_key
finds_key = refl
