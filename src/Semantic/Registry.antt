-- ===== src/Semantic/Registry.antt =====
-- internal/semanticaction/registry.go and prepared.go: the dispatcher of the compiled-in profiles, and
-- the execution that it prepares. A nil registry and a nil profile are left out.
use aegis_router.Base.{
  ℕ, Bool, false, ◌||◌, List, [], ◌∷◌, ◌++◌, ◌==◌, ◌!=◌, length, Result, ok, err, ◌>>=◌, ◌>>◌,
  reject_if, if◌then◌else◌,
}
use aegis_router.Base.Int.{pos, int_eq}
use aegis_router.Base.Dict.{lookup, insert}
use aegis_router.Text.{Bytes, str, bytes_eq, is_empty, is_nonempty}
use aegis_router.Models.{is_given, has_items}
use aegis_router.Action.{Action, ActionError, validate_action}
use aegis_router.Semantic.{
  Rejection, tool_unmapped, payment_tool_unmapped, workspace_tool_unmapped, Input, PolicyFacts,
  Resolved, PaymentConfig, WorkspaceConfig, Library, ConfigError, or_refuse,
}
use aegis_router.Semantic.Payment.{PaymentProfile, new_payment, resolve_payment}
use aegis_router.Semantic.Workspace.{WorkspaceProfile, new_workspace, resolve_workspace}

-- Profile, by its two implementations
pub data Profile : Type 0 where
  payment : PaymentProfile → Profile
  workspace : WorkspaceProfile → Profile

abbrev pub profile_id_of : Profile → Bytes
profile_id_of (payment p) = p.config.profile_id
profile_id_of (workspace p) = p.config.profile_id

abbrev pub tool_of : Profile → Bytes
tool_of (payment p) = p.config.mcp_tool
tool_of (workspace p) = p.config.mcp_tool

abbrev pub audience_of : Profile → Bytes
audience_of (payment p) = p.config.audience
audience_of (workspace p) = p.config.audience

abbrev pub upstream_url_of : Profile → Bytes
upstream_url_of (payment p) = p.upstream.text
upstream_url_of (workspace p) = p.upstream.text

abbrev pub binding_digest_of : Profile → Bytes
binding_digest_of (payment p) = p.binding
binding_digest_of (workspace p) = p.binding

unfoldable pub resolve_with : Library → Profile → Input → Result Rejection Resolved
resolve_with lib (payment p) input = resolve_payment lib p input
resolve_with lib (workspace p) input = resolve_workspace lib p input

-- Registry
pub record Registry : Type 0 where
  pub by_tool : List (Bytes × Profile)
  pub by_profile_id : List (Bytes × Profile)

pub data RegistryError : Type 0 where
  unnamed_profile duplicate_profile ambiguous_tool : RegistryError
  unfit_config : ConfigError → RegistryError

-- The loop of NewRegistry
unfoldable pub add_profiles : Library → List Profile → Registry → Result RegistryError Registry
add_profiles lib [] registry = ok registry
add_profiles lib (profile ∷ rest) registry = do
  let profile_id = lib.unicode.trim_space (profile_id_of profile)
  let tool = lib.unicode.trim_space (tool_of profile)
  reject_if (is_empty profile_id || is_empty tool) unnamed_profile
  reject_if (is_given (lookup profile_id registry.by_profile_id)) duplicate_profile
  reject_if (is_given (lookup tool registry.by_tool)) ambiguous_tool
  add_profiles lib rest (record {
    by_tool = insert tool profile registry.by_tool;
    by_profile_id = insert profile_id profile registry.by_profile_id;
  })

-- NewRegistry
unfoldable pub new_registry : Library → List Profile → Result RegistryError Registry
new_registry lib profiles = add_profiles lib profiles (record { by_tool = []; by_profile_id = [] })

-- paymentConfigPresent and workspaceConfigPresent
unfoldable pub payment_config_present : PaymentConfig → Bool
payment_config_present c =
    is_nonempty c.profile_id
    || is_nonempty c.mcp_tool
    || is_nonempty c.capability
    || is_nonempty c.resource
    || is_nonempty c.operation
    || is_nonempty c.audience
    || is_nonempty c.upstream_url
    || has_items c.allowed_currencies
    || has_items c.max_amount_minor
    || has_items c.allowed_recipients

unfoldable pub workspace_config_present : WorkspaceConfig → Bool
workspace_config_present c =
    is_nonempty c.profile_id
    || is_nonempty c.mcp_tool
    || is_nonempty c.capability
    || is_nonempty c.resource
    || is_nonempty c.operation
    || is_nonempty c.audience
    || is_nonempty c.upstream_url
    || c.max_path_bytes != pos 0
    || c.max_content_bytes != pos 0

-- The error of a constructor as one of the registry, and its profile in a list
abbrev pub or_unfit :
    {A : Type 0} → (A → Profile) → Result ConfigError A → Result RegistryError (List Profile)
or_unfit build (ok a) = ok (build a ∷ [])
or_unfit build (err e) = err (unfit_config e)

unfoldable pub configured_payment : Library → PaymentConfig → Result RegistryError (List Profile)
configured_payment lib c =
    if payment_config_present c then or_unfit payment (new_payment lib c) else ok []

unfoldable pub configured_workspace :
    Library → WorkspaceConfig → Result RegistryError (List Profile)
configured_workspace lib c =
    if workspace_config_present c then or_unfit workspace (new_workspace lib c) else ok []

-- NewRegistryFromConfig
unfoldable pub new_registry_from_config :
    Library → PaymentConfig → WorkspaceConfig → Result RegistryError Registry
new_registry_from_config lib p w = do
  payments ← configured_payment lib p
  workspaces ← configured_workspace lib w
  new_registry lib (payments ++ workspaces)

-- The code for a tool without a profile
unfoldable pub unmapped_code : Bytes → Rejection
unmapped_code tool =
    if tool == str "payment.send"
    then payment_tool_unmapped
    else if tool == str "workspace.write"
    then workspace_tool_unmapped
    else tool_unmapped

unfoldable pub find_profile : Registry → Bytes → Result Rejection Profile
find_profile r tool = or_refuse (lookup tool r.by_tool) (unmapped_code tool)

-- Registry.Resolve
unfoldable pub resolve : Library → Registry → Input → Result Rejection Resolved
resolve lib r input = do profile ← find_profile r input.tool; resolve_with lib profile input

-- Registry.OwnsUpstreamURL and Registry.Len
unfoldable pub owns_upstream_url : List (Bytes × Profile) → Bytes → Bool
owns_upstream_url [] url = false
owns_upstream_url ((id, profile) ∷ rest) url =
    upstream_url_of profile == url || owns_upstream_url rest url

abbrev pub len : Registry → ℕ
len r = length r.by_profile_id

-- PreparedExecution
pub record PreparedExecution : Type 0 where
  pub action : Action
  pub arguments : Bytes
  pub upstream_url : Bytes
  pub policy_facts : PolicyFacts

-- The errors of Prepare
pub data PrepareError : Type 0 where
  rejected : Rejection → PrepareError
  omitted_facts changed_scope inconsistent_binding : PrepareError
  unfit_arguments different_arguments : PrepareError
  unfit_action : ActionError → PrepareError

abbrev pub or_rejected {ℓ} : {A : Type ℓ} → Result Rejection A → Result PrepareError A
or_rejected (ok a) = ok a
or_rejected (err e) = err (rejected e)

abbrev pub or_unfit_action : Result ActionError (Unit {0}) → Result PrepareError (Unit {0})
or_unfit_action (ok a) = ok a
or_unfit_action (err e) = err (unfit_action e)

-- The test that the action keeps the identity and the scope of the input
abbrev pub has_changed : Action → Input → Bool
has_changed a input =
    a.principal_id != input.principal_id
    || a.agent_id != input.agent_id
    || a.workload_id != input.workload_id
    || a.delegated_authority_fingerprint != input.delegated_authority_fingerprint
    || a.capability != input.capability
    || a.resource != input.resource
    || a.operation != input.operation

-- The test that the resolution keeps the profile's bindings
abbrev pub is_inconsistent : Resolved → Profile → Bool
is_inconsistent resolved profile =
    resolved.action.tool != tool_of profile
    || resolved.action.profile_id != profile_id_of profile
    || resolved.upstream_url != upstream_url_of profile
    || is_empty (binding_digest_of profile)

-- Prepare once the profile has resolved the input; a count of bytes is not negative here.
unfoldable pub seal : Library → Profile → Input → Resolved → Result PrepareError PreparedExecution
seal lib profile input resolved = do
  reject_if (is_empty resolved.policy_facts.side_effect) omitted_facts
  reject_if (has_changed resolved.action input) changed_scope
  reject_if (is_inconsistent resolved profile) inconsistent_binding
  arguments ← or_refuse (lib.canonicalize resolved.normalized_arguments) unfit_arguments
  presented ← or_refuse (lib.canonicalize resolved.action.arguments) different_arguments
  reject_if (arguments != presented) different_arguments
  let action = record resolved.action {
    arguments = resolved.normalized_arguments;
    execution_binding = binding_digest_of profile;
  }
  or_unfit_action (validate_action action)
  ok (record {
    action = action;
    arguments = resolved.normalized_arguments;
    upstream_url = resolved.upstream_url;
    policy_facts = resolved.policy_facts;
  })

-- Registry.Prepare
unfoldable pub prepare : Library → Registry → Input → Result PrepareError PreparedExecution
prepare lib r input = do
  resolved ← or_rejected (resolve lib r input)
  profile ← or_rejected (find_profile r input.tool)
  seal lib profile input resolved
