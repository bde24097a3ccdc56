-- ===== src/Policy.antt =====
-- internal/policy/engine.go: the authorization of a request. The texts of the reasons are left out.
pub mod Scopes
pub mod Grants
use aegis_router.Base.{
  Bool, true, false, not, ◌&&◌, ◌||◌, List, [], ◌∷◌, ◌++◌, Option, none, some, ◌==◌, ◌!=◌, contains,
  Result, ok, err, ◌>>=◌, ◌>>◌, reject_if, if◌then◌else◌,
}
use aegis_router.Base.Int.{pos, ltb_ℤ}
use aegis_router.Base.Dict.{lookup}
use aegis_router.Text.{Bytes, str, bytes_eq, is_empty, is_nonempty, has_prefix}
use aegis_router.Time.{Time, after}
use aegis_router.Models.{
  Unicode, Route, allow, deny_route, escalate, unset_route, AuthorizationStatus, authorized, denied,
  requires_approval, Request, ActionRequest, AuthorizationConstraints, ResourceGrant,
  CapabilityGrant, AgentPolicy, ResourcePolicy, PolicyConfig, MatchedAuthorizationGrant,
  PolicyDecision, has_items, uses_structured_context, effective_principal, effective_agent,
  effective_authority, effective_tool, effective_action, is_write_operation,
}

-- deny
abbrev pub deny : Bytes → PolicyDecision
deny rule = record {
  is_authorized = false;
  status = denied;
  route = deny_route;
  rules = rule ∷ [];
  grant = none;
}

-- legacyGrant
unfoldable pub legacy_grant : Bytes → ResourcePolicy → CapabilityGrant
legacy_grant id resource = record {
  allowed_tools = str "legacy-unspecified" ∷ [];
  resources =
      (
        id,
        record {
          allowed_operations = str "legacy-unspecified" ∷ [];
          required_scopes = resource.scopes;
          constraints = unconstrained;
        },
      )
      ∷ [];
  required_scopes = [];
  constraints = record unconstrained {
    network_egress = str "deny";
    secret_access = str "deny";
    write_access = str "deny";
  };
  route = unset_route;
}
  where
    unconstrained : AuthorizationConstraints
    unconstrained = record {
      network_egress = [];
      secret_access = [];
      write_access = [];
      allowed_side_effects = none;
      max_bytes = pos 0;
      max_duration_ms = pos 0;
      executor_profile = [];
    }

-- A text of the resource, else of the capability, else "deny".
abbrev pub merged_text : Bytes → Bytes → Bytes
merged_text base resource =
    if is_nonempty resource then resource else if is_empty base then str "deny" else base

-- mergeConstraints
unfoldable pub merge_constraints :
    AuthorizationConstraints → AuthorizationConstraints → AuthorizationConstraints
merge_constraints base resource = record {
  network_egress = merged_text base.network_egress resource.network_egress;
  secret_access = merged_text base.secret_access resource.secret_access;
  write_access = merged_text base.write_access resource.write_access;
  allowed_side_effects = elim resource.allowed_side_effects [
    | some effects ↦ some effects
    | none ↦ elim base.allowed_side_effects [ some effects ↦ some effects | none ↦ some [] ]
  ];
  max_bytes = if ltb_ℤ (pos 0) resource.max_bytes then resource.max_bytes else base.max_bytes;
  max_duration_ms =
      if ltb_ℤ (pos 0) resource.max_duration_ms
      then resource.max_duration_ms
      else base.max_duration_ms;
  executor_profile =
      if is_nonempty resource.executor_profile
      then resource.executor_profile
      else base.executor_profile;
}

-- strings.Contains(s, part)
unfoldable pub has_part : Bytes → Bytes → Bool
has_part part [] = is_empty part
has_part part (b ∷ s) = let rest = has_part part s in has_prefix part (b ∷ s) || rest

-- requestsSecret
unfoldable pub requests_secret : Unicode → ActionRequest → Bool
requests_secret u a =
    let value =
      u.to_lower (a.side_effect ++ str " " ++ a.capability ++ str " " ++ a.target_resource) in
    has_part (str "secret") value || has_part (str "credential") value

-- missingScopes
unfoldable pub missing_scopes : List Bytes → List Bytes → List Bytes
missing_scopes actual [] = []
missing_scopes actual (scope ∷ required) =
    let rest = missing_scopes actual required in
    if contains actual scope then rest else scope ∷ rest

-- The loop of unique; the map `seen` holds the items of the result so far.
unfoldable pub unique_from : List Bytes → List Bytes → List Bytes
unique_from seen [] = []
unique_from seen (item ∷ items) =
    let later = unique_from (item ∷ seen) items in
    let skipped = unique_from seen items in
    if is_nonempty item && not (contains seen item) then item ∷ later else skipped

-- unique
abbrev pub unique : List Bytes → List Bytes
unique items = unique_from [] items

-- firstNonEmpty of two items
abbrev pub first_nonempty : Bytes → Bytes → Bytes
first_nonempty a b = if is_nonempty a then a else b

-- A value that a flat request may leave out, which is then the first one granted.
unfoldable pub matched : Bytes → Bool → List Bytes → Bytes
matched value may_be_missing [] = value
matched value may_be_missing (first ∷ granted) =
    if is_empty value && may_be_missing then first else value

abbrev pub or_rule {ℓ} : {A : Type ℓ} → Option A → Bytes → Result Bytes A
or_rule (some a) rule = ok a
or_rule none rule = err rule

-- The capability's own grant, or the one of a legacy policy.
unfoldable pub capability_grant :
    AgentPolicy → Bytes → Bytes → ResourcePolicy → Option CapabilityGrant
capability_grant agent capability target resource = elim (lookup capability agent.capabilities) [
  | some g ↦ some g
  | none ↦
      if contains agent.allowed_capabilities capability
      then some (legacy_grant target resource)
      else none
]

-- What the checks of Evaluate find when none of them denies.
pub record Match : Type 0 where
  pub agent : AgentPolicy
  pub resource : ResourcePolicy
  pub capability : CapabilityGrant
  pub resource_grant : ResourceGrant
  pub tool : Bytes
  pub operation : Bytes

abbrev pub required_scopes : Match → List Bytes
required_scopes m =
    unique (m.resource.scopes ++ m.capability.required_scopes ++ m.resource_grant.required_scopes)

abbrev pub merged : Match → AuthorizationConstraints
merged m = merge_constraints m.capability.constraints m.resource_grant.constraints

-- A deadline that has come.
abbrev pub has_expired : Option Time → Time → Bool
has_expired none now = false
has_expired (some at) now = not (after at now)

abbrev pub goes_outside : ActionRequest → Bool
goes_outside a = elim a.destination [ none ↦ false | some d ↦ d.is_external ]

abbrev pub side_effects : AuthorizationConstraints → List Bytes
side_effects k = elim k.allowed_side_effects [ none ↦ [] | some effects ↦ effects ]

abbrev pub is_flat : Request → Bool
is_flat r = not (uses_structured_context r)

-- The checks of Evaluate on the agent and the delegation: the agent's policy
unfoldable pub find_agent : PolicyConfig → Request → Time → Result Bytes AgentPolicy
find_agent cfg r now = do
  let p = effective_principal r
  let g = effective_agent r
  let d = effective_authority r
  reject_if (is_flat r && not cfg.compatibility.allow_legacy_flat_requests)
      (str "request.legacy_not_allowed")
  agent ← or_rule (lookup g.agent_id cfg.agents) (str "identity.unknown_agent")
  reject_if (has_items agent.workload_ids && not (contains agent.workload_ids g.workload_id))
      (str "identity.workload_not_granted")
  reject_if (is_nonempty d.subject && is_nonempty p.principal_id && d.subject != p.principal_id)
      (str "delegation.subject_mismatch")
  reject_if (has_expired d.expires_at now) (str "delegation.expired")
  ok agent

-- Those on the resource and the capability
unfoldable pub find_capability :
    PolicyConfig → ActionRequest → AgentPolicy → Result Bytes (ResourcePolicy × CapabilityGrant)
find_capability cfg a agent = do
  resource ← or_rule (lookup a.target_resource cfg.resources) (str "resource.unknown")
  reject_if (contains cfg.prohibited_actions a.capability) (str "capability.prohibited")
  reject_if (contains agent.denied_resources a.target_resource) (str "resource.agent_denylist")
  capability ←
      or_rule (capability_grant agent a.capability a.target_resource resource)
        (str "capability.not_granted")
  ok (resource, capability)

-- Those on the tool and the operation
unfoldable pub find_operation :
    PolicyConfig → Request → CapabilityGrant → Result Bytes (ResourceGrant × Bytes × Bytes)
find_operation cfg r capability = do
  let t = effective_tool r
  let a = effective_action r
  granted ← or_rule (lookup a.target_resource capability.resources) (str "resource.not_granted")
  let tool =
      matched (first_nonempty t.name t.tool_id) (is_flat r && cfg.compatibility.allow_missing_tool)
        capability.allowed_tools
  reject_if (is_empty tool || not (contains capability.allowed_tools tool)) (str "tool.not_granted")
  let operation =
      matched a.operation (is_flat r && cfg.compatibility.allow_missing_operation)
        granted.allowed_operations
  reject_if (is_empty operation || not (contains granted.allowed_operations operation))
      (str "resource.operation_not_granted")
  ok (granted, tool, operation)

-- The checks of Evaluate down to the operation
unfoldable pub find_match : PolicyConfig → Request → Time → Result Bytes Match
find_match cfg r now = do
  agent ← find_agent cfg r now
  found ← find_capability cfg (effective_action r) agent
  granted ← find_operation cfg r found.1
  ok (record {
    agent = agent;
    resource = found.0;
    capability = found.1;
    resource_grant = granted.0;
    tool = granted.1;
    operation = granted.2;
  })

-- The checks of Evaluate from the scopes on
unfoldable pub check_match : Unicode → Request → Match → Result Bytes (Unit {0})
check_match u r m = do
  let a = effective_action r
  let k = merged m
  let effect = u.trim_space a.side_effect
  reject_if (has_items (missing_scopes (effective_authority r).scopes (required_scopes m)))
      (str "scope.mismatch")
  reject_if (goes_outside a && k.network_egress != str "allow")
      (str "constraint.network_egress_denied")
  reject_if (requests_secret u a && k.secret_access != str "allow")
      (str "constraint.secret_access_denied")
  reject_if (is_write_operation u m.operation && k.write_access != str "allow")
      (str "constraint.write_access_denied")
  reject_if
      (is_nonempty effect
        && effect != str "none"
        && effect != str "read_only"
        && not (contains (side_effects k) effect))
      (str "constraint.side_effect_not_granted")
  reject_if (ltb_ℤ (pos 0) k.max_bytes && ltb_ℤ k.max_bytes a.byte_count)
      (str "constraint.max_bytes_exceeded")

-- The end of Evaluate: the route of the capability, and the status for it
abbrev pub default_route : Route → Route
default_route unset_route = allow
default_route r = r

abbrev pub route_status : Route → AuthorizationStatus
route_status deny_route = denied
route_status escalate = requires_approval
route_status _ = authorized

abbrev pub route_authorizes : Route → Bool
route_authorizes deny_route = false
route_authorizes escalate = false
route_authorizes _ = true

unfoldable pub decide : Request → Match → PolicyDecision
decide r m =
    let route = default_route m.capability.route in
    record {
      is_authorized = route_authorizes route;
      status = route_status route;
      route = route;
      rules =
          str "identity.agent_and_workload_match"
          ∷ str "delegation.scopes_match"
          ∷ str "authorization.explicit_grant"
          ∷ [];
      grant = some (record {
        agent_id = (effective_agent r).agent_id;
        workload_id = (effective_agent r).workload_id;
        capability = (effective_action r).capability;
        tool = m.tool;
        resource = (effective_action r).target_resource;
        allowed_operations = m.resource_grant.allowed_operations;
        required_scopes = required_scopes m;
        constraints = merged m;
      });
    }

-- Evaluate
unfoldable pub evaluate_request : Unicode → PolicyConfig → Request → Time → PolicyDecision
evaluate_request u cfg r now = elim (find_match cfg r now) [
  | err rule ↦ deny rule
  | ok m ↦ elim (check_match u r m) [ err rule ↦ deny rule | ok _ ↦ decide r m ]
]
