-- ===== src/Permit/Claims/Validity.antt =====
-- What Claims.Validate of internal/permit/claims.go accepts, as a predicate on the claims.
use aegis_router.Base.{
  ℕ, String, ◌≤◌, ◌≡◌, ◌≢◌, ◌↔◌, refl, ◌⊎◌, inl, inr, Bool, true, false, nat_eq, List, [], ◌∷◌,
  arith, length, ok, All,
}
use aegis_router.Base.Int.{pos, ◌<ℤ◌}
use aegis_router.Text.{Bytes, is_empty, utf8_valid, has_control, is_sha256_digest}
use aegis_router.KeyProvider.{valid_key_id}
use aegis_router.Permit.Claims.{
  execution, simulation, class_eq, valid_class, Claims, Field, required_fields, validate_metadata,
  validate_fields, validate_head, validate_executor, validate_tail, validate,
}

-- A value that is absent where it may be, or is text of a bounded length with no control character.
abbrev pub IsMetadata : Bytes → ℕ → Bool → Type 0
IsMetadata v limit required =
    ((is_empty v ≡ true) × (required ≡ false))
    ⊎ ((is_empty v ≡ false) × (utf8_valid v ≡ true) × (length v ≤ limit) × (has_control v ≡ false))

pub validate_metadata_iff :
    (name : String) (v : Bytes) (limit : ℕ) (required : Bool)
    → (validate_metadata name v limit required ≡ ok tt) ↔ IsMetadata v limit required
unfolding validate_metadata
validate_metadata_iff name v limit required = ground arith

-- The executor that an execution permit names, and that no other permit does.
abbrev pub HasExecutor : Claims → Type 0
HasExecutor c =
    ((c.permit_class ≡ execution)
      × (valid_key_id c.executor_key_id ≡ true)
      × (is_sha256_digest c.executor_key_thumbprint ≡ true))
    ⊎ ((c.permit_class ≡ simulation)
        × (is_empty c.executor_key_id ≡ true)
        × (is_empty c.executor_key_thumbprint ≡ true))

pub record IsValid (c : Claims) : Type 0 where
  -- An execution binding and an epoch come together, and only with an execution permit.
  pub bound :
      ((is_empty c.execution_binding ≡ true) × (c.authority_epoch ≡ 0))
      ⊎ ((is_sha256_digest c.execution_binding ≡ true)
          × (is_empty c.execution_binding ≡ false)
          × (c.authority_epoch ≢ 0)
          × (c.permit_class ≡ execution))
  pub executor : HasExecutor c
  pub profile : is_empty c.profile_id ≡ is_empty c.audience
  pub profile_text : IsMetadata c.profile_id 256 false
  pub audience_text : IsMetadata c.audience 1024 false
  pub permit_id_text : IsMetadata c.permit_id 160 true
  pub signing_key_text : IsMetadata c.signing_key_id 128 true
  pub request_text : IsMetadata c.request_id 160 true
  pub principal_text : IsMetadata c.principal_id 512 true
  pub agent_text : IsMetadata c.agent_id 512 true
  pub workload_text : IsMetadata c.workload_id 512 true
  pub tool_text : IsMetadata c.tool 512 true
  pub capability_text : IsMetadata c.capability 512 true
  pub resource_text : IsMetadata c.resource 2048 true
  pub operation_text : IsMetadata c.operation 512 true
  pub policy_text : IsMetadata c.policy_version 512 true
  pub issuer_text : IsMetadata c.issuer 512 true
  pub signing_key : valid_key_id c.signing_key_id ≡ true
  pub delegation_text : IsMetadata c.delegated_authority_fingerprint 512 false
  pub delegation :
      (is_empty c.delegated_authority_fingerprint ≡ true)
      ⊎ (is_sha256_digest c.delegated_authority_fingerprint ≡ true)
  pub digest : is_sha256_digest c.action_digest ≡ true
  pub issue_time : pos 0 <ℤ c.issued_at
  pub lifetime : c.issued_at <ℤ c.expires_at
  pub once : c.single_use ≡ true

validate_fields_iff :
    (fs : List Field) → (validate_fields fs ≡ ok tt) ↔ All (λ f. IsMetadata f.value f.limit true) fs
unfolding validate_fields
validate_fields_iff [] = (λ _. tt, λ _. refl)
validate_fields_iff (f ∷ fs) =
    ground (arith, validate_metadata_iff f.name f.value f.limit true, validate_fields_iff fs)

abbrev Head : Claims → Type 0
Head c =
    (((is_empty c.execution_binding ≡ true) × (c.authority_epoch ≡ 0))
      ⊎ ((is_sha256_digest c.execution_binding ≡ true)
          × (is_empty c.execution_binding ≡ false)
          × (c.authority_epoch ≢ 0)
          × (c.permit_class ≡ execution)))
    × ((c.permit_class ≡ execution) ⊎ (c.permit_class ≡ simulation))
    × (is_empty c.profile_id ≡ is_empty c.audience)
    × IsMetadata c.profile_id 256 false
    × IsMetadata c.audience 1024 false

validate_head_sound : (c : Claims) → validate_head c ≡ ok tt → Head c
unfolding validate_head valid_class
validate_head_sound c h = ground (
  arith,
  validate_metadata_iff "profile_id" c.profile_id 256 false,
  validate_metadata_iff "audience" c.audience 1024 false,
)

validate_head_complete : (c : Claims) → Head c → validate_head c ≡ ok tt
unfolding validate_head valid_class
validate_head_complete c h = ground (
  arith,
  validate_metadata_iff "profile_id" c.profile_id 256 false,
  validate_metadata_iff "audience" c.audience 1024 false,
)

validate_executor_iff :
    (c : Claims)
    → (c.permit_class ≡ execution) ⊎ (c.permit_class ≡ simulation)
    → (validate_executor c ≡ ok tt) ↔ HasExecutor c
unfolding validate_executor
validate_executor_iff c (inl e) = ground arith
validate_executor_iff c (inr e) = ground arith

abbrev Tail : Claims → Type 0
Tail c =
    (valid_key_id c.signing_key_id ≡ true)
    × IsMetadata c.delegated_authority_fingerprint 512 false
    × ((is_empty c.delegated_authority_fingerprint ≡ true)
        ⊎ (is_sha256_digest c.delegated_authority_fingerprint ≡ true))
    × (validate_executor c ≡ ok tt)
    × (is_sha256_digest c.action_digest ≡ true)
    × (pos 0 <ℤ c.issued_at)
    × (c.issued_at <ℤ c.expires_at)
    × (c.single_use ≡ true)

validate_tail_iff : (c : Claims) → (validate_tail c ≡ ok tt) ↔ Tail c
unfolding validate_tail
validate_tail_iff c = ground (
  arith,
  validate_metadata_iff "delegated_authority_fingerprint" c.delegated_authority_fingerprint 512
      false,
)

validate_parts :
    (c : Claims)
    → (validate c ≡ ok tt) ↔ (
        (validate_head c ≡ ok tt)
        × (validate_fields (required_fields c) ≡ ok tt)
        × (validate_tail c ≡ ok tt))
unfolding validate
validate_parts c = ground arith

HasExecutor-class :
    (c : Claims) → HasExecutor c → (c.permit_class ≡ execution) ⊎ (c.permit_class ≡ simulation)
HasExecutor-class c (inl h) = inl h.0
HasExecutor-class c (inr h) = inr h.0

validate_sound : (c : Claims) → validate c ≡ ok tt → IsValid c
validate_sound c h =
    let (first, middle, last) = (validate_parts c).0 h in
    let a = validate_head_sound c first in
    let b = (validate_tail_iff c).0 last in
    let f = (validate_fields_iff (required_fields c)).0 middle in
    record {
      bound = a.0;
      executor = (validate_executor_iff c a.1).0 b.3;
      profile = a.2;
      profile_text = a.3;
      audience_text = a.4;
      permit_id_text = f.0;
      signing_key_text = f.1.0;
      request_text = f.1.1.0;
      principal_text = f.1.1.1.0;
      agent_text = f.1.1.1.1.0;
      workload_text = f.1.1.1.1.1.0;
      tool_text = f.1.1.1.1.1.1.0;
      capability_text = f.1.1.1.1.1.1.1.0;
      resource_text = f.1.1.1.1.1.1.1.1.0;
      operation_text = f.1.1.1.1.1.1.1.1.1.0;
      policy_text = f.1.1.1.1.1.1.1.1.1.1.0;
      issuer_text = f.1.1.1.1.1.1.1.1.1.1.1.0;
      signing_key = b.0;
      delegation_text = b.1;
      delegation = b.2;
      digest = b.4;
      issue_time = b.5;
      lifetime = b.6;
      once = b.7;
    }

validate_complete : (c : Claims) → IsValid c → validate c ≡ ok tt
validate_complete c v =
    let class = HasExecutor-class c v.executor in
    (validate_parts c).1 (
      validate_head_complete c (v.bound, class, v.profile, v.profile_text, v.audience_text),
      (validate_fields_iff (required_fields c)).1 (
        v.permit_id_text,
        (
          v.signing_key_text,
          (
            v.request_text,
            (
              v.principal_text,
              (
                v.agent_text,
                (
                  v.workload_text,
                  (
                    v.tool_text,
                    (
                      v.capability_text,
                      (v.resource_text, (v.operation_text, (v.policy_text, (v.issuer_text, tt)))),
                    ),
                  ),
                ),
              ),
            ),
          ),
        ),
      ),
      (validate_tail_iff c).1 (
        v.signing_key,
        v.delegation_text,
        v.delegation,
        (validate_executor_iff c class).1 v.executor,
        v.digest,
        v.issue_time,
        v.lifetime,
        v.once,
      ),
    )

-- Validate accepts exactly the valid claims: the twelve required texts, the profile, the audience
-- and the delegation are within their limits and hold no control character, the execution binding
-- comes with its epoch, the executor is that of the class, the digests have their form, the
-- lifetime is positive and the use single.
pub validate_iff : (c : Claims) → (validate c ≡ ok tt) ↔ IsValid c
validate_iff c = (validate_sound c, validate_complete c)
