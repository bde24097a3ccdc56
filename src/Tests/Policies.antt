-- ===== src/Tests/Policies.antt =====
-- The theorems on the policy engine and the risk scorer, at a policy that grants one capability to one agent.
use aegis_router.Risk.{assess, high, low}
use aegis_router.Risk.Account.{total, assess_accounts}
use aegis_router.Base.{
  ltb, if◌then◌else◌, suc, ◌≤◌, ◌≡◌, refl, ok, true, false, List, [], ◌∷◌, some, none, ◌↔◌, ◌⊎◌,
  All, In,
}
use aegis_router.Base.Int.{pos}
use aegis_router.Text.{Bytes, str, is_nonempty}
use aegis_router.Models.{
  Unicode, allow, unset_route, denied, requires_approval, Request, AuthorizationConstraints,
  PolicyConfig, AgentPolicy, CapabilityGrant, ResourceGrant, ResourcePolicy,
}
use aegis_router.Policy.{
  Match, find_match, check_match, decide, evaluate_request, default_route, route_authorizes,
  missing_scopes, unique,
}
use aegis_router.Policy.Grants.{
  IsGranted, IsWithin, authorized_sound, authorized_complete, find_match_sound, check_match_iff,
}
use aegis_router.Tests.Data.{early}

-- For texts in lower case without outer spaces
abbrev unicode : Unicode
unicode = record { to_lower = λ s. s; trim_space = λ s. s }

abbrev writes : AuthorizationConstraints
writes = record {
  network_egress = [];
  secret_access = [];
  write_access = str "allow";
  allowed_side_effects = none;
  max_bytes = pos 100;
  max_duration_ms = pos 0;
  executor_profile = [];
}

abbrev on_docs : ResourceGrant
on_docs = record {
  allowed_operations = str "write" ∷ [];
  required_scopes = str "docs:write" ∷ [];
  constraints = writes;
}

abbrev notes : CapabilityGrant
notes = record {
  allowed_tools = str "editor" ∷ [];
  resources = (str "docs", on_docs) ∷ [];
  required_scopes = str "notes" ∷ [];
  constraints = writes;
  route = unset_route;
}

abbrev agent_policy : AgentPolicy
agent_policy = record {
  workload_ids = str "worker" ∷ [];
  capabilities = (str "notes", notes) ∷ [];
  allowed_capabilities = [];
  denied_resources = [];
}

abbrev docs : ResourcePolicy
docs = record { sensitivity = str "low"; scopes = str "notes" ∷ [] }

abbrev policy : PolicyConfig
policy = record {
  agents = (str "agent", agent_policy) ∷ [];
  resources = (str "docs", docs) ∷ [];
  sensitive_actions = str "notes" ∷ [];
  prohibited_actions = [];
  compatibility = record {
    allow_legacy_flat_requests = false;
    allow_missing_tool = false;
    allow_missing_operation = false;
  };
}

abbrev request : Request
request = record {
  request_id = [];
  session_id = [];
  parent_event_id = [];
  claimed_intent = [];
  planned_actions = [];
  input_sources = [];
  principal = record {
    principal_id = str "alice";
    principal_type = str "human";
    tenant = [];
    environment = [];
    metadata = [];
  };
  agent = record {
    agent_id = str "agent";
    workload_id = str "worker";
    owner = [];
    environment = [];
    framework = [];
    version = [];
  };
  authority = record {
    credential_fingerprint = [];
    issuer = [];
    scopes = str "notes" ∷ str "docs:write" ∷ [];
    subject = str "alice";
    expires_at = none;
  };
  tool = record {
    tool_id = [];
    name = str "editor";
    provider = [];
    schema_sha256 = [];
    expected_schema_sha256 = [];
  };
  action = record {
    capability = str "notes";
    operation = str "write";
    target_resource = str "docs";
    profile_id = [];
    audience = [];
    arguments = str "{}";
    side_effect = [];
    destination = none;
    byte_count = pos 10;
  };
  data_access = none;
  user_id = [];
  agent_id = [];
  token_scopes = [];
  requested_capability = [];
  target_resource = [];
  tool_identity = none;
  destination = none;
}

abbrev oversized : Request
oversized = record request { action = record request.action { byte_count = pos 101 } }

abbrev scopes : List Bytes
scopes = str "notes" ∷ str "docs:write" ∷ str "notes" ∷ []

-- The match of the request
abbrev found : Match
found = record {
  agent = agent_policy;
  resource = docs;
  capability = notes;
  resource_grant = on_docs;
  tool = str "editor";
  operation = str "write";
}

-- What the definitions answer on this data
facts :
    ((evaluate_request unicode policy request early).is_authorized ≡ true)
    × ((evaluate_request unicode policy oversized early).is_authorized ≡ false)
    × (find_match policy request early ≡ ok found)
    × (check_match unicode request found ≡ ok tt)
    × (route_authorizes (default_route found.capability.route) ≡ true)
unfolding aegis_router.Base.ℕ_discrete aegis_router.Text.Bytes-discrete aegis_router.Text.utf8_valid
    aegis_router.Text.has_control aegis_router.Text.strip_prefix aegis_router.Text.all_bytes
    aegis_router.Text.is_sha256_digest aegis_router.Text.split_on aegis_router.Text.has_outer_space
    aegis_router.KeyProvider.valid_key_id aegis_router.Time.unix_time aegis_router.Time.to_unix
    aegis_router.Base.Dict.lookup aegis_router.Base.Dict.insert aegis_router.Base.Lists.contains
    aegis_router.Base.Int.◌+ℤ◌ aegis_router.Base.Int.◌-ℤ◌ aegis_router.Base.Int.◌*ℤ◌
    aegis_router.Base.Int.div_floor aegis_router.Base.Int.ℤ-discrete
    aegis_router.Base.Equality.Bool-discrete aegis_router.Text.Labels.is_label_byte
    aegis_router.Models.uses_structured_context aegis_router.Models.effective_principal
    aegis_router.Models.effective_agent aegis_router.Models.effective_authority
    aegis_router.Models.effective_tool aegis_router.Models.effective_action
    aegis_router.Models.is_write_operation aegis_router.Policy.legacy_grant
    aegis_router.Policy.merge_constraints aegis_router.Policy.has_part
    aegis_router.Policy.requests_secret aegis_router.Policy.missing_scopes
    aegis_router.Policy.unique_from aegis_router.Policy.matched aegis_router.Policy.capability_grant
    aegis_router.Policy.find_agent aegis_router.Policy.find_capability
    aegis_router.Policy.find_operation aegis_router.Policy.find_match
    aegis_router.Policy.check_match aegis_router.Policy.decide aegis_router.Policy.evaluate_request
facts = (refl, refl, refl, refl, refl)

authorized_sound_example :
    (m : Match) × IsGranted policy request early m
    × IsWithin unicode request m
    × (route_authorizes (default_route m.capability.route) ≡ true)
    × (evaluate_request unicode policy request early ≡ decide request m)
authorized_sound_example = authorized_sound unicode policy request early facts.0

authorized_complete_example :
    (evaluate_request unicode policy request early ≡ decide request found)
    × ((evaluate_request unicode policy request early).is_authorized ≡ true)
authorized_complete_example =
    authorized_complete unicode policy request early found
      (find_match_sound policy request early found facts.2)
      ((check_match_iff unicode request found).0 facts.3) facts.4

assess_accounts_example :
    ((assess policy request).score ≡ (
      if ltb 100 (total (assess policy request).signals)
      then 100
      else total (assess policy request).signals))
    × ((assess policy request).score ≤ 100)
    × (((assess policy request).level ≡ high) ↔ (70 ≤ (assess policy request).score))
    × (((assess policy request).level ≡ low) ↔ (suc (assess policy request).score ≤ 35))
assess_accounts_example = assess_accounts policy request
