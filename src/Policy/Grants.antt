-- ===== src/Policy/Grants.antt =====
-- When Evaluate of internal/policy/engine.go authorizes a request.
use aegis_router.Base.{
  ◌≡◌, refl, Bool, not, ◌&&◌, ◌∷◌, [], true, false, List, and_true, Bool-cases, if◌then◌else◌, ◌↔◌,
  ◌⊎◌, inl, inr, arith, All, In, contains, contains_iff, some, ok, Result-cases, sym, ◌∙◌,
}
use aegis_router.Base.Int.{pos, ltb_ℤ}
use aegis_router.Base.Dict.{lookup}
use aegis_router.Text.{Bytes, str, bytes_eq, is_empty, is_nonempty}
use aegis_router.Time.{Time}
use aegis_router.Models.{
  Unicode, Request, PolicyConfig, ActionRequest, AgentPolicy, ResourcePolicy, CapabilityGrant,
  ResourceGrant, effective_principal, effective_agent, effective_tool, effective_authority,
  effective_action, uses_structured_context, is_write_operation, has_items,
}
use aegis_router.Policy.{
  Match, first_nonempty, matched, find_agent, find_capability, find_operation, find_match,
  check_match, decide, evaluate_request, capability_grant, required_scopes, merged, has_expired,
  goes_outside, side_effects, requests_secret, default_route, route_authorizes,
}
use aegis_router.Policy.Scopes.{missing_scopes_iff}

-- A value as it is requested, or the first one that is granted where it may be missing and is.
abbrev pub IsRequested : Bytes → Bytes → Bool → List Bytes → Type 0
IsRequested value requested may_be_missing granted =
    ((requested ≡ value) × (is_empty value ≡ false))
    ⊎ ((is_empty requested ≡ true)
        × (may_be_missing ≡ true)
        × (is_empty value ≡ false)
        × (rest : List Bytes) × (granted ≡ value ∷ rest))

abbrev pub IsToolOf : PolicyConfig → Request → CapabilityGrant → Bytes → Type 0
IsToolOf cfg r capability tool =
    IsRequested tool
      (if is_nonempty (effective_tool r).name
        then (effective_tool r).name
        else (effective_tool r).tool_id)
      (not (uses_structured_context r) && cfg.compatibility.allow_missing_tool)
      capability.allowed_tools

abbrev pub IsOperationOf : PolicyConfig → Request → ResourceGrant → Bytes → Type 0
IsOperationOf cfg r granted operation =
    IsRequested operation (effective_action r).operation
      (not (uses_structured_context r) && cfg.compatibility.allow_missing_operation)
      granted.allowed_operations

matched_sound :
    (requested : Bytes) (may_be_missing : Bool) (granted : List Bytes)
    → is_empty (matched requested may_be_missing granted) ≡ false
    → IsRequested (matched requested may_be_missing granted) requested may_be_missing granted
unfolding matched
matched_sound requested may_be_missing [] h = inl (refl, h)
matched_sound requested may_be_missing (first ∷ granted) h =
    elim (Bool-cases (is_empty requested && may_be_missing)) [
      | inl missing ↦
          let (empty, allowed) = and_true (is_empty requested) may_be_missing missing in
          inr (empty, allowed, h, granted, ground arith)
      | inr there ↦ inl (ground arith, h)
    ]

IsRequested-nonempty :
    (value requested : Bytes) (may_be_missing : Bool) (granted : List Bytes)
    → IsRequested value requested may_be_missing granted
    → is_empty value ≡ false
IsRequested-nonempty value requested may_be_missing granted (inl h) = h.1
IsRequested-nonempty value requested may_be_missing granted (inr h) = h.2

matched_complete :
    (value requested : Bytes) (may_be_missing : Bool) (granted : List Bytes)
    → IsRequested value requested may_be_missing granted
    → matched requested may_be_missing granted ≡ value
unfolding matched
matched_complete value requested may_be_missing [] (inl (same, named)) = same
matched_complete value requested may_be_missing [] (inr (empty, allowed, named, rest, e)) =
    absurd (cc e)
matched_complete value requested may_be_missing (first ∷ granted) (inl (same, named)) = ground arith
matched_complete value requested may_be_missing (first ∷ granted)
      (inr (empty, allowed, named, rest, e)) =
    ground arith

-- The grant that a match rests on.
pub record IsGranted (cfg : PolicyConfig) (r : Request) (now : Time) (m : Match) : Type 0 where
  pub shape :
      (uses_structured_context r ≡ true) ⊎ (cfg.compatibility.allow_legacy_flat_requests ≡ true)
  pub agent : lookup (effective_agent r).agent_id cfg.agents ≡ some m.agent
  pub workload :
      (has_items m.agent.workload_ids ≡ false)
      ⊎ In (effective_agent r).workload_id m.agent.workload_ids
  pub subject :
      (is_nonempty (effective_authority r).subject ≡ false)
      ⊎ (is_nonempty (effective_principal r).principal_id ≡ false)
      ⊎ ((effective_authority r).subject ≡ (effective_principal r).principal_id)
  pub deadline : has_expired (effective_authority r).expires_at now ≡ false
  pub resource : lookup (effective_action r).target_resource cfg.resources ≡ some m.resource
  pub permitted : ¬ In (effective_action r).capability cfg.prohibited_actions
  pub open_to_agent : ¬ In (effective_action r).target_resource m.agent.denied_resources
  pub capability :
      capability_grant m.agent
        (effective_action r).capability
        (effective_action r).target_resource
        m.resource
      ≡ some m.capability
  pub resource_grant :
      lookup (effective_action r).target_resource m.capability.resources ≡ some m.resource_grant
  pub requested_tool : IsToolOf cfg r m.capability m.tool
  pub tool : In m.tool m.capability.allowed_tools
  pub requested_operation : IsOperationOf cfg r m.resource_grant m.operation
  pub operation : In m.operation m.resource_grant.allowed_operations

-- What the merged constraints of the match allow of the request.
pub record IsWithin (u : Unicode) (r : Request) (m : Match) : Type 0 where
  pub scopes : All (λ s. In s (effective_authority r).scopes) (required_scopes m)
  pub egress :
      (goes_outside (effective_action r) ≡ false) ⊎ ((merged m).network_egress ≡ str "allow")
  pub secrets :
      (requests_secret u (effective_action r) ≡ false) ⊎ ((merged m).secret_access ≡ str "allow")
  pub writes : (is_write_operation u m.operation ≡ false) ⊎ ((merged m).write_access ≡ str "allow")
  pub effects :
      let effect = u.trim_space (effective_action r).side_effect in
      (is_nonempty effect ≡ false)
      ⊎ (effect ≡ str "none")
      ⊎ (effect ≡ str "read_only")
      ⊎ In effect (side_effects (merged m))
  pub size :
      (ltb_ℤ (pos 0) (merged m).max_bytes ≡ false)
      ⊎ (ltb_ℤ (merged m).max_bytes (effective_action r).byte_count ≡ false)

find_agent_sound :
    (cfg : PolicyConfig) (r : Request) (now : Time) (agent : AgentPolicy)
    → find_agent cfg r now ≡ ok agent
    → ((uses_structured_context r ≡ true) ⊎ (cfg.compatibility.allow_legacy_flat_requests ≡ true))
      × (lookup (effective_agent r).agent_id cfg.agents ≡ some agent)
      × ((has_items agent.workload_ids ≡ false)
          ⊎ (contains agent.workload_ids (effective_agent r).workload_id ≡ true))
      × ((is_nonempty (effective_authority r).subject ≡ false)
          ⊎ (is_nonempty (effective_principal r).principal_id ≡ false)
          ⊎ ((effective_authority r).subject ≡ (effective_principal r).principal_id))
      × (has_expired (effective_authority r).expires_at now ≡ false)
unfolding find_agent
find_agent_sound cfg r now agent h = ground arith

find_capability_sound :
    (cfg : PolicyConfig) (a : ActionRequest) (agent : AgentPolicy) (resource : ResourcePolicy)
    (capability : CapabilityGrant)
    → find_capability cfg a agent ≡ ok (resource, capability)
    → (lookup a.target_resource cfg.resources ≡ some resource)
      × (contains cfg.prohibited_actions a.capability ≡ false)
      × (contains agent.denied_resources a.target_resource ≡ false)
      × (capability_grant agent a.capability a.target_resource resource ≡ some capability)
unfolding find_capability
find_capability_sound cfg a agent resource capability h = ground arith

find_operation_sound :
    (cfg : PolicyConfig) (r : Request) (capability : CapabilityGrant) (granted : ResourceGrant)
    (tool operation : Bytes)
    → find_operation cfg r capability ≡ ok (granted, tool, operation)
    → (lookup (effective_action r).target_resource capability.resources ≡ some granted)
      × IsToolOf cfg r capability tool
      × (contains capability.allowed_tools tool ≡ true)
      × IsOperationOf cfg r granted operation
      × (contains granted.allowed_operations operation ≡ true)
unfolding find_operation
find_operation_sound cfg r capability granted tool operation h = ground (
  arith,
  matched_sound (first_nonempty (effective_tool r).name (effective_tool r).tool_id)
      (not (uses_structured_context r) && cfg.compatibility.allow_missing_tool)
      capability.allowed_tools,
  matched_sound (effective_action r).operation
      (not (uses_structured_context r) && cfg.compatibility.allow_missing_operation)
      granted.allowed_operations,
)

find_match_parts :
    (cfg : PolicyConfig) (r : Request) (now : Time) (m : Match)
    → find_match cfg r now ≡ ok m
    → (find_agent cfg r now ≡ ok m.agent)
      × (find_capability cfg (effective_action r) m.agent ≡ ok (m.resource, m.capability))
      × (find_operation cfg r m.capability ≡ ok (m.resource_grant, m.tool, m.operation))
unfolding find_match
find_match_parts cfg r now m h = ground arith

absent : (xs : List Bytes) (x : Bytes) → contains xs x ≡ false → ¬ In x xs
absent xs x h = ground (arith, contains_iff xs x)

pub find_match_sound :
    (cfg : PolicyConfig) (r : Request) (now : Time) (m : Match)
    → find_match cfg r now ≡ ok m
    → IsGranted cfg r now m
find_match_sound cfg r now m h =
    let (first, second, third) = find_match_parts cfg r now m h in
    let (shape, agent, workload, subject, deadline) = find_agent_sound cfg r now m.agent first in
    let (resource, allowed, unlisted, capability) =
      find_capability_sound cfg (effective_action r) m.agent m.resource m.capability second in
    let (granted, requested, tool, asked, operation) =
      find_operation_sound cfg r m.capability m.resource_grant m.tool m.operation third in
    record {
      shape = shape;
      agent = agent;
      workload =
          ground
            (arith, workload, contains_iff m.agent.workload_ids (effective_agent r).workload_id);
      subject = subject;
      deadline = deadline;
      resource = resource;
      permitted = absent cfg.prohibited_actions (effective_action r).capability allowed;
      open_to_agent = absent m.agent.denied_resources (effective_action r).target_resource unlisted;
      capability = capability;
      resource_grant = granted;
      requested_tool = requested;
      tool = (contains_iff m.capability.allowed_tools m.tool).0 tool;
      requested_operation = asked;
      operation = (contains_iff m.resource_grant.allowed_operations m.operation).0 operation;
    }

included : (xs : List Bytes) (x : Bytes) → In x xs → contains xs x ≡ true
included xs x h = (contains_iff xs x).1 h

excluded : (xs : List Bytes) (x : Bytes) → ¬ In x xs → contains xs x ≡ false
excluded xs x h = ground (arith, contains_iff xs x)

find_agent_complete :
    (cfg : PolicyConfig) (r : Request) (now : Time) (m : Match)
    → IsGranted cfg r now m
    → find_agent cfg r now ≡ ok m.agent
unfolding find_agent
find_agent_complete cfg r now m g = ground (
  arith,
  g.shape,
  g.agent,
  g.workload,
  g.subject,
  g.deadline,
  contains_iff m.agent.workload_ids (effective_agent r).workload_id,
)

find_capability_complete :
    (cfg : PolicyConfig) (r : Request) (now : Time) (m : Match)
    → IsGranted cfg r now m
    → find_capability cfg (effective_action r) m.agent ≡ ok (m.resource, m.capability)
unfolding find_capability
find_capability_complete cfg r now m g = ground (
  arith,
  g.resource,
  g.capability,
  excluded cfg.prohibited_actions (effective_action r).capability g.permitted,
  excluded m.agent.denied_resources (effective_action r).target_resource g.open_to_agent,
)

find_operation_complete :
    (cfg : PolicyConfig) (r : Request) (now : Time) (m : Match)
    → IsGranted cfg r now m
    → find_operation cfg r m.capability ≡ ok (m.resource_grant, m.tool, m.operation)
unfolding find_operation
find_operation_complete cfg r now m g = ground (
  arith,
  g.resource_grant,
  matched_complete m.tool _ _ m.capability.allowed_tools g.requested_tool,
  matched_complete m.operation _ _ m.resource_grant.allowed_operations g.requested_operation,
  IsRequested-nonempty m.tool _ _ m.capability.allowed_tools g.requested_tool,
  IsRequested-nonempty m.operation _ _ m.resource_grant.allowed_operations g.requested_operation,
  included m.capability.allowed_tools m.tool g.tool,
  included m.resource_grant.allowed_operations m.operation g.operation,
)

find_match_complete :
    (cfg : PolicyConfig) (r : Request) (now : Time) (m : Match)
    → IsGranted cfg r now m
    → find_match cfg r now ≡ ok m
unfolding find_match
find_match_complete cfg r now m g = ground (
  arith,
  find_agent_complete cfg r now m g,
  find_capability_complete cfg r now m g,
  find_operation_complete cfg r now m g,
)

pub check_match_iff :
    (u : Unicode) (r : Request) (m : Match) → (check_match u r m ≡ ok tt) ↔ IsWithin u r m
unfolding check_match
check_match_iff u r m = ground (
  arith,
  missing_scopes_iff (effective_authority r).scopes (required_scopes m),
  contains_iff (side_effects (merged m)) (u.trim_space (effective_action r).side_effect),
)

evaluate_matched :
    (u : Unicode) (cfg : PolicyConfig) (r : Request) (now : Time) (m : Match)
    → find_match cfg r now ≡ ok m
    → check_match u r m ≡ ok tt
    → evaluate_request u cfg r now ≡ decide r m
unfolding evaluate_request
evaluate_matched u cfg r now m found passed = ground arith

decide_authorizes :
    (r : Request) (m : Match)
    → (decide r m).is_authorized ≡ route_authorizes (default_route m.capability.route)
unfolding decide
decide_authorizes r m = refl

-- A request is authorized only on an explicit grant: its agent has a policy that names the
-- workload (or names none), the delegation is the principal's and has not expired, the resource is
-- classified, the capability is not prohibited and is granted on the resource with the tool and
-- the operation of the request (or the first ones granted, where the compatibility settings let a
-- flat request leave them out), every required scope is delegated, the merged constraints allow
-- what the action does, and the route of the capability is neither a denial nor an escalation; the
-- decision then is the one of that match.
pub authorized_sound :
    (u : Unicode) (cfg : PolicyConfig) (r : Request) (now : Time)
    → (evaluate_request u cfg r now).is_authorized ≡ true
    → (m : Match) × IsGranted cfg r now m
      × IsWithin u r m
      × (route_authorizes (default_route m.capability.route) ≡ true)
      × (evaluate_request u cfg r now ≡ decide r m)
unfolding evaluate_request
authorized_sound u cfg r now h = elim (Result-cases (find_match cfg r now)) [
  | inr (rule, failed) ↦ absurd (ground arith)
  | inl (m, found) ↦ elim (Result-cases (check_match u r m)) [
    | inr (rule, failed) ↦ absurd (ground arith)
    | inl (_, passed) ↦
        let same = evaluate_matched u cfg r now m found passed in
        (
          m,
          find_match_sound cfg r now m found,
          (check_match_iff u r m).0 passed,
          sym (decide_authorizes r m) ∙ (rw same at h),
          same,
        )
  ]
]

-- What is granted is authorized: if a grant of the policy covers a request, as its agent,
-- delegation, resource, capability, tool and operation stand, the merged constraints allow what
-- the action does, and the route is neither a denial nor an escalation, then Evaluate authorizes
-- the request, by the decision of that grant.
pub authorized_complete :
    (u : Unicode) (cfg : PolicyConfig) (r : Request) (now : Time) (m : Match)
    → IsGranted cfg r now m
    → IsWithin u r m
    → route_authorizes (default_route m.capability.route) ≡ true
    → (evaluate_request u cfg r now ≡ decide r m)
      × ((evaluate_request u cfg r now).is_authorized ≡ true)
authorized_complete u cfg r now m g w route =
    let same =
      evaluate_matched u cfg r now m (find_match_complete cfg r now m g)
        ((check_match_iff u r m).1 w) in
    (same, rw same (decide_authorizes r m ∙ route))
