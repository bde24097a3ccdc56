-- ===== src/Models.antt =====
-- internal/models/models.go: the request of one attempted action, the policy that it is read against,
-- and the decision. Fields that no modelled code reads are left out.
use aegis_router.Base.{
  Bool, true, false, ◌||◌, List, [], ◌∷◌, Option, none, some, ◌==◌, Eq, contains, if◌then◌else◌,
}
use aegis_router.Base.Int.{ℤ, pos, int_eq}
use aegis_router.Text.{Bytes, Bytes-discrete, str, bytes_eq, is_empty, is_nonempty}
use aegis_router.Time.{Time}

-- strings.ToLower and strings.TrimSpace
pub record Unicode : Type 0 where
  pub to_lower : Bytes → Bytes
  pub trim_space : Bytes → Bytes

-- Route: its five constants, and any other string; the empty one is `unset_route`.
pub data Route : Type 0 where
  allow restrict sandbox deny_route escalate unset_route : Route
  other_route : Bytes → Route

unfoldable pub Route-discrete : Discrete Route
unfolding Bytes-discrete
Route-discrete = hlevel Bytes-discrete

instance abbrev pub route_eq : Eq Route
route_eq = record { eq_dec = Route-discrete }

pub data AuthorizationStatus : Type 0 where
  authorized denied requires_approval : AuthorizationStatus

unfoldable pub AuthorizationStatus-discrete : Discrete AuthorizationStatus
AuthorizationStatus-discrete = hlevel

instance abbrev pub status_eq : Eq AuthorizationStatus
status_eq = record { eq_dec = AuthorizationStatus-discrete }

pub record PrincipalContext : Type 0 where
  pub principal_id : Bytes
  pub principal_type : Bytes
  pub tenant : Bytes
  pub environment : Bytes
  pub metadata : List (Bytes × Bytes)

pub record AgentIdentity : Type 0 where
  pub agent_id : Bytes
  pub workload_id : Bytes
  pub owner : Bytes
  pub environment : Bytes
  pub framework : Bytes
  pub version : Bytes

pub record DelegatedAuthority : Type 0 where
  pub credential_fingerprint : Bytes
  pub issuer : Bytes
  pub scopes : List Bytes
  pub subject : Bytes
  pub expires_at : Option Time

pub record ToolContext : Type 0 where
  pub tool_id : Bytes
  pub name : Bytes
  pub provider : Bytes
  pub schema_sha256 : Bytes
  pub expected_schema_sha256 : Bytes

pub record Destination : Type 0 where
  pub kind : Bytes
  pub trust_boundary : Bytes
  pub is_external : Bool

pub record ActionRequest : Type 0 where
  pub capability : Bytes
  pub operation : Bytes
  pub target_resource : Bytes
  pub profile_id : Bytes
  pub audience : Bytes
  pub arguments : Bytes
  pub side_effect : Bytes
  pub destination : Option Destination
  pub byte_count : ℤ

pub record InputSource : Type 0 where
  pub kind : Bytes
  pub trust : Bytes
  pub uri_class : Bytes
  pub content_sha256 : Bytes

pub record DataAccess : Type 0 where
  pub operation : Bytes
  pub path_class : Bytes
  pub is_protected : Bool
  pub sensitivity : Bytes
  pub byte_count : ℤ

pub record Request : Type 0 where
  pub request_id : Bytes
  pub session_id : Bytes
  pub parent_event_id : Bytes
  pub principal : PrincipalContext
  pub agent : AgentIdentity
  pub authority : DelegatedAuthority
  pub tool : ToolContext
  pub action : ActionRequest
  pub claimed_intent : Bytes
  pub planned_actions : List Bytes
  pub input_sources : List InputSource
  pub data_access : Option DataAccess
  pub user_id : Bytes
  pub agent_id : Bytes
  pub token_scopes : List Bytes
  pub requested_capability : Bytes
  pub target_resource : Bytes
  pub tool_identity : Option ToolContext
  pub destination : Option Destination

abbrev pub has_items {ℓ} : {A : Type ℓ} → List A → Bool
has_items [] = false
has_items (x ∷ xs) = true

abbrev pub is_given {ℓ} : {A : Type ℓ} → Option A → Bool
is_given none = false
is_given (some a) = true

-- Request.UsesStructuredContext
unfoldable pub uses_structured_context : Request → Bool
uses_structured_context r =
    is_nonempty r.principal.principal_id
    || is_nonempty r.agent.agent_id
    || is_nonempty r.authority.credential_fingerprint
    || has_items r.authority.scopes
    || is_nonempty r.tool.name
    || is_nonempty r.tool.tool_id
    || is_nonempty r.action.capability
    || is_nonempty r.action.operation
    || is_nonempty r.action.target_resource

-- Request.EffectivePrincipal
unfoldable pub effective_principal : Request → PrincipalContext
effective_principal r = if is_nonempty r.principal.principal_id then r.principal else record {
  principal_id = r.user_id;
  principal_type = str "human";
  tenant = [];
  environment = [];
  metadata = [];
}

-- Request.EffectiveAgent
unfoldable pub effective_agent : Request → AgentIdentity
effective_agent r = if is_nonempty r.agent.agent_id then r.agent else record {
  agent_id = r.agent_id;
  workload_id = r.agent_id;
  owner = [];
  environment = [];
  framework = [];
  version = [];
}

-- Request.EffectiveAuthority
unfoldable pub effective_authority : Request → DelegatedAuthority
effective_authority r =
    if is_nonempty r.authority.credential_fingerprint
      || has_items r.authority.scopes
      || is_nonempty r.authority.issuer
      || is_nonempty r.authority.subject
      || is_given r.authority.expires_at
    then r.authority
    else record {
      credential_fingerprint = [];
      issuer = [];
      scopes = r.token_scopes;
      subject = r.user_id;
      expires_at = none;
    }

abbrev pub no_tool : ToolContext
no_tool = record {
  tool_id = [];
  name = [];
  provider = [];
  schema_sha256 = [];
  expected_schema_sha256 = [];
}

-- Request.EffectiveTool
unfoldable pub effective_tool : Request → ToolContext
effective_tool r =
    if is_nonempty r.tool.name || is_nonempty r.tool.tool_id
    then r.tool
    else elim r.tool_identity [ some t ↦ t | none ↦ no_tool ]

abbrev pub or_given : Bytes → Bytes → Bytes
or_given a b = if is_empty a then b else a

-- Request.EffectiveAction
unfoldable pub effective_action : Request → ActionRequest
effective_action r = record r.action {
  capability = or_given r.action.capability r.requested_capability;
  target_resource = or_given r.action.target_resource r.target_resource;
  operation = elim r.data_access [
    | none ↦ r.action.operation
    | some d ↦ or_given r.action.operation d.operation
  ];
  destination = elim r.action.destination [ some d ↦ some d | none ↦ r.destination ];
  byte_count = elim r.data_access [
    | none ↦ r.action.byte_count
    | some d ↦ if r.action.byte_count == pos 0 then d.byte_count else r.action.byte_count
  ];
}

-- AuthorizationConstraints; a nil slice of side effects is `none`.
pub record AuthorizationConstraints : Type 0 where
  pub network_egress : Bytes
  pub secret_access : Bytes
  pub write_access : Bytes
  pub allowed_side_effects : Option (List Bytes)
  pub max_bytes : ℤ
  pub max_duration_ms : ℤ
  pub executor_profile : Bytes

pub record ResourceGrant : Type 0 where
  pub allowed_operations : List Bytes
  pub required_scopes : List Bytes
  pub constraints : AuthorizationConstraints

pub record CapabilityGrant : Type 0 where
  pub allowed_tools : List Bytes
  pub resources : List (Bytes × ResourceGrant)
  pub required_scopes : List Bytes
  pub constraints : AuthorizationConstraints
  pub route : Route

pub record AgentPolicy : Type 0 where
  pub workload_ids : List Bytes
  pub capabilities : List (Bytes × CapabilityGrant)
  pub allowed_capabilities : List Bytes
  pub denied_resources : List Bytes

pub record ResourcePolicy : Type 0 where
  pub sensitivity : Bytes
  pub scopes : List Bytes

pub record CompatibilityPolicy : Type 0 where
  pub allow_legacy_flat_requests : Bool
  pub allow_missing_tool : Bool
  pub allow_missing_operation : Bool

-- The part of PolicyConfig that the policy engine and the risk scorer read.
pub record PolicyConfig : Type 0 where
  pub agents : List (Bytes × AgentPolicy)
  pub resources : List (Bytes × ResourcePolicy)
  pub sensitive_actions : List Bytes
  pub prohibited_actions : List Bytes
  pub compatibility : CompatibilityPolicy

pub record MatchedAuthorizationGrant : Type 0 where
  pub agent_id : Bytes
  pub workload_id : Bytes
  pub capability : Bytes
  pub tool : Bytes
  pub resource : Bytes
  pub allowed_operations : List Bytes
  pub required_scopes : List Bytes
  pub constraints : AuthorizationConstraints

-- PolicyDecision without the texts of its reasons
pub record PolicyDecision : Type 0 where
  pub is_authorized : Bool
  pub status : AuthorizationStatus
  pub route : Route
  pub rules : List Bytes
  pub grant : Option MatchedAuthorizationGrant

-- IsWriteOperation
unfoldable pub is_write_operation : Unicode → Bytes → Bool
is_write_operation u operation =
    contains
      (str "write"
        ∷ str "create"
        ∷ str "update"
        ∷ str "delete"
        ∷ str "append"
        ∷ str "execute"
        ∷ str "invoke"
        ∷ str "admin"
        ∷ [])
      (u.to_lower operation)
