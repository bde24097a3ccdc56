-- ===== src/Intake.antt =====
-- internal/intake/intake.go and trusted_proxy.go: how the identity of a request is established. The
-- parsing of peer addresses and prefixes by net/netip is an argument; provenance is left out, since no
-- decision reads it.
pub mod Headers
pub mod Scopes
pub mod Identity
use aegis_router.Base.{
  Bool, true, not, ◌&&◌, List, [], none, leb, length, Result, ok, err, ◌>>=◌, ◌>>◌, reject_if,
  if◌then◌else◌,
}
use aegis_router.Text.{Bytes, bytes_eq, is_empty, all_bytes, is_sha256_digest}
use aegis_router.Text.Labels.{is_label_byte}
use aegis_router.Models.{
  Unicode, PrincipalContext, AgentIdentity, DelegatedAuthority, Request, uses_structured_context,
  effective_principal, effective_agent, effective_authority,
}

-- safeProviderID, safeIdentityLabel and the router's safeMetadataLabel, which are the same test
unfoldable pub safe_label : Bytes → Bool
safe_label value = not (is_empty value) && leb (length value) 128 && all_bytes is_label_byte value

-- WorkloadBinding
pub record WorkloadBinding : Type 0 where
  pub key_id : Bytes
  pub public_key_thumbprint : Bytes

-- IdentityContext
pub record IdentityContext : Type 0 where
  pub principal : PrincipalContext
  pub agent : AgentIdentity
  pub authority : DelegatedAuthority
  pub workload_binding : WorkloadBinding

-- Authorization; the zero value is not resolved.
pub record Authorization : Type 0 where
  pub request : Request
  pub workload_binding : WorkloadBinding
  pub is_resolved : Bool

-- The wrapped ErrTrustedContextRequired, by what it says
pub data IntakeError : Type 0 where
  unfit_provider unfit_key_id unfit_thumbprint untrusted_peer : IntakeError
  header_repeated header_size header_label unfit_scopes unfit_fingerprint : IntakeError

-- validateWorkloadBinding
unfoldable pub validate_binding : WorkloadBinding → Result IntakeError (Unit {0})
validate_binding binding = do
  reject_if (not (safe_label binding.key_id)) unfit_key_id
  reject_if (not (is_sha256_digest binding.public_key_thumbprint)) unfit_thumbprint

abbrev no_principal : PrincipalContext
no_principal = record {
  principal_id = [];
  principal_type = [];
  tenant = [];
  environment = [];
  metadata = [];
}

abbrev no_agent : AgentIdentity
no_agent = record {
  agent_id = [];
  workload_id = [];
  owner = [];
  environment = [];
  framework = [];
  version = [];
}

abbrev no_authority : DelegatedAuthority
no_authority = record {
  credential_fingerprint = [];
  issuer = [];
  scopes = [];
  subject = [];
  expires_at = none;
}

-- The request of resolved: a flat proposal keeps its shape
unfoldable pub with_identity : Request → IdentityContext → Request
with_identity proposal identity =
    if uses_structured_context proposal
    then record proposal {
      principal = identity.principal;
      agent = identity.agent;
      authority = identity.authority;
      user_id = [];
      agent_id = [];
      token_scopes = [];
    }
    else record proposal {
      principal = no_principal;
      agent = no_agent;
      authority = no_authority;
      user_id = identity.principal.principal_id;
      agent_id = identity.agent.agent_id;
      token_scopes = identity.authority.scopes;
    }

-- resolved
unfoldable pub resolved : Request → IdentityContext → Authorization
resolved proposal identity = record {
  request = with_identity proposal identity;
  workload_binding = identity.workload_binding;
  is_resolved = true;
}

-- NewTrustedAuthorization
unfoldable pub new_trusted_authorization :
    Unicode → Request → IdentityContext → Bytes → Result IntakeError Authorization
new_trusted_authorization u proposal identity provider_id = do
  reject_if (not (safe_label (u.trim_space provider_id))) unfit_provider
  validate_binding identity.workload_binding
  ok (resolved proposal identity)

-- LoopbackDevelopment.Resolve, for a peer that is a loopback address or not
unfoldable pub resolve_loopback :
    Bool → WorkloadBinding → Request → Result IntakeError Authorization
resolve_loopback is_loopback binding proposal = do
  reject_if (not is_loopback) untrusted_peer
  ok (
      resolved proposal (record {
        principal = effective_principal proposal;
        agent = effective_agent proposal;
        authority = effective_authority proposal;
        workload_binding = binding;
      }))
