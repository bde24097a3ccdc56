-- ===== src/Router/Validation.antt =====
-- Validate, validateStructuredLabels and validateRuntimeMetadata of internal/router/router.go, the first
-- two as the test that their error is nil.
use aegis_router.Base.{
  Bool, true, not, ◌&&◌, ◌||◌, [], ◌∷◌, Option, none, some, ◌==◌, all, if◌then◌else◌,
}
use aegis_router.Base.Int.{pos, ltb_ℤ}
use aegis_router.Text.{Bytes, str, bytes_eq, is_empty}
use aegis_router.Models.{
  PrincipalContext, AgentIdentity, DelegatedAuthority, ToolContext, ActionRequest, DataAccess,
  Destination, InputSource, Request, is_given, uses_structured_context, effective_principal,
  effective_agent, effective_authority, effective_tool, effective_action,
}
use aegis_router.Runtime.{RuntimeEvent, Rule, metadata_invalid, bytes_invalid}
use aegis_router.Semantic.{Library}
use aegis_router.Semantic.Payment.{is_blank}
use aegis_router.Intake.{safe_label}
use aegis_router.Intake.Headers.{is_hex_digest}

abbrev is_optional_label : Bytes → Bool
is_optional_label s = is_empty s || safe_label s

abbrev is_optional_digest : Bytes → Bool
is_optional_digest s = is_empty s || is_hex_digest s

abbrev is_destination : Option Destination → Bool
is_destination none = true
is_destination (some d) = safe_label d.kind && is_optional_label d.trust_boundary

-- validateStructuredLabels
unfoldable pub has_structured_labels :
    PrincipalContext → AgentIdentity → DelegatedAuthority → ToolContext → ActionRequest → Bool
has_structured_labels principal agent authority tool action =
    all is_optional_label (
      principal.principal_id ∷ principal.principal_type ∷ principal.tenant ∷ principal.environment
      ∷ agent.agent_id ∷ agent.workload_id ∷ agent.owner ∷ agent.environment ∷ agent.framework
      ∷ agent.version ∷ authority.issuer ∷ authority.subject ∷ tool.tool_id ∷ tool.name
      ∷ tool.provider ∷ action.capability ∷ action.operation ∷ action.target_resource
      ∷ action.side_effect ∷ [])
    && all safe_label authority.scopes
    && all (λ (key, value). safe_label key && safe_label value) principal.metadata
    && is_optional_digest tool.schema_sha256
    && is_optional_digest tool.expected_schema_sha256
    && not (ltb_ℤ action.byte_count (pos 0))
    && is_destination action.destination

-- The first branch of Validate
unfoldable pub is_valid_structured : Library → Request → Bool
is_valid_structured lib r =
    let principal = effective_principal r in
    let agent = effective_agent r in
    let authority = effective_authority r in
    let tool = effective_tool r in
    let action = effective_action r in
    all (λ s. not (is_blank lib s))
      (principal.principal_id ∷ principal.principal_type ∷ agent.agent_id ∷ agent.workload_id
        ∷ tool.name ∷ action.capability ∷ action.operation ∷ action.target_resource ∷ [])
    && (principal.principal_type == str "human" || principal.principal_type == str "service")
    && is_hex_digest authority.credential_fingerprint
    && has_structured_labels principal agent authority tool action

-- The second branch
unfoldable pub is_valid_flat : Library → Request → Bool
is_valid_flat lib r =
    all (λ s. not (is_blank lib s) && safe_label s)
      (r.user_id ∷ r.agent_id ∷ r.requested_capability ∷ r.target_resource ∷ [])
    && all safe_label r.token_scopes

abbrev is_valid_source : InputSource → Bool
is_valid_source s =
    safe_label s.kind
    && safe_label s.trust
    && is_optional_label s.uri_class
    && is_optional_digest s.content_sha256

abbrev is_valid_access : Option DataAccess → Bool
is_valid_access none = true
is_valid_access (some d) =
    safe_label d.operation && is_optional_label d.path_class && not (ltb_ℤ d.byte_count (pos 0))

-- Validate
unfoldable pub is_valid_request : Library → Request → Bool
is_valid_request lib r =
    (if uses_structured_context r then is_valid_structured lib r else is_valid_flat lib r)
    && is_optional_label r.claimed_intent
    && all safe_label r.planned_actions
    && all is_optional_label (r.request_id ∷ r.session_id ∷ r.parent_event_id ∷ [])
    && all is_valid_source r.input_sources
    && is_valid_access r.data_access
    && (is_empty (effective_action r).arguments
        || is_given (lib.canonicalize (effective_action r).arguments))

-- validateRuntimeMetadata
unfoldable pub runtime_violation : RuntimeEvent → Option Rule
runtime_violation e =
    if not (
      all is_optional_label (
        e.event_id ∷ e.permit_id ∷ e.request_id ∷ e.agent_id ∷ e.workload_id ∷ e.capability ∷ e.tool
        ∷ e.operation ∷ e.resource ∷ e.resource_class ∷ e.destination_class ∷ e.side_effect ∷ []))
    then some metadata_invalid
    else if ltb_ℤ e.byte_count (pos 0)
    then some bytes_invalid
    else none
