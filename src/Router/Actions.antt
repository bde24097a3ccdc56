-- ===== src/Router/Actions.antt =====
-- The actions that internal/router/router.go makes of a request.
use aegis_router.Base.{
  not, List, [], ◌∷◌, ◌++◌, Option, none, some, ◌==◌, Result, ok, ◌>>=◌, if◌then◌else◌,
}
use aegis_router.Text.{Bytes, str, bytes_eq, is_empty}
use aegis_router.Permit.Claims.{Class, execution, class_eq}
use aegis_router.Models.{
  Request, MatchedAuthorizationGrant, effective_principal, effective_agent, effective_authority,
  effective_tool, effective_action, or_given,
}
use aegis_router.Action.{Action}
use aegis_router.ExecutionProof.{hex}
use aegis_router.Semantic.{Input, PolicyFacts, Library}
use aegis_router.Semantic.Registry.{PreparedExecution, PrepareError, prepare}
use aegis_router.Intake.Headers.{is_hex_digest}
use aegis_router.Router.{Deployment}

-- canonicalaction.BindDelegatedAuthorityFingerprint; `none` is its error.
unfoldable pub bind_fingerprint : Library → Bytes → Option Bytes
bind_fingerprint lib s =
    if is_empty s
    then some []
    else if is_hex_digest s
    then some (str "sha256:" ++ hex (lib.codec.sha256 (lib.unicode.to_lower s)))
    else none

-- executionAction
unfoldable pub execution_action : Library → Request → Action
execution_action lib r =
    let action = effective_action r in
    let fingerprint = (effective_authority r).credential_fingerprint in
    record {
      principal_id = (effective_principal r).principal_id;
      agent_id = (effective_agent r).agent_id;
      workload_id = (effective_agent r).workload_id;
      delegated_authority_fingerprint = elim (bind_fingerprint lib fingerprint) [
        | some bound ↦ bound
        | none ↦ fingerprint
      ];
      tool = or_given (effective_tool r).name (effective_tool r).tool_id;
      capability = action.capability;
      resource = action.target_resource;
      operation = action.operation;
      profile_id = action.profile_id;
      audience = action.audience;
      execution_binding = [];
      arguments = action.arguments;
    }

abbrev first_operation : List Bytes → Bytes
first_operation [] = []
first_operation (operation ∷ rest) = operation

-- canonicalAction
unfoldable pub canonical_action : Library → Request → MatchedAuthorizationGrant → Action
canonical_action lib r grant =
    let base = execution_action lib r in
    record base {
      tool = or_given base.tool grant.tool;
      capability = grant.capability;
      resource = grant.resource;
      operation =
          or_given (effective_action r).operation (first_operation grant.allowed_operations);
    }

-- The Input of prepareSemanticAction
abbrev pub input_of : Action → Input
input_of base = record {
  principal_id = base.principal_id;
  agent_id = base.agent_id;
  workload_id = base.workload_id;
  delegated_authority_fingerprint = base.delegated_authority_fingerprint;
  tool = base.tool;
  capability = base.capability;
  resource = base.resource;
  operation = base.operation;
  profile_id = base.profile_id;
  audience = base.audience;
  arguments = base.arguments;
}

-- prepareSemanticAction
unfoldable pub prepare_semantic_action :
    Deployment → Request → Result PrepareError PreparedExecution
prepare_semantic_action d r = prepare d.library d.registry (input_of (execution_action d.library r))

-- resolveAuthorizedAction
unfoldable pub resolve_authorized_action :
    Deployment
    → Request
    → MatchedAuthorizationGrant
    → Class
    → Result PrepareError (Action × PolicyFacts)
resolve_authorized_action d r grant class =
    if not (class == execution)
    then ok (canonical_action d.library r grant, record { side_effect = []; byte_count = 0 })
    else (prepare_semantic_action d r >>= λ p. ok (p.action, p.policy_facts))
