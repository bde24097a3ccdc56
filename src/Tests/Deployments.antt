-- ===== src/Tests/Deployments.antt =====
-- A router with one workspace profile, a policy that grants its tool, and a request for it.
use aegis_router.Base.{ok, some, none, [], ◌∷◌, ◌++◌, ◌*◌, false, true}
use aegis_router.Base.Int.{pos}
use aegis_router.Text.{Bytes, str}
use aegis_router.Time.{second}
use aegis_router.Permit.Store.{empty_store}
use aegis_router.Permit.Issuer.{Surroundings}
use aegis_router.Models.{unset_route, Unicode, AuthorizationConstraints, PolicyConfig, Request}
use aegis_router.Semantic.{Url, Library}
use aegis_router.Semantic.Workspace.{WorkspaceProfile}
use aegis_router.Semantic.Registry.{Registry, workspace}
use aegis_router.Intake.{Authorization}
use aegis_router.Router.{Deployment, RouterState, Moment}
use aegis_router.Tests.Toy.{codec}
use aegis_router.Tests.Data.{sixteen, digest_two, digest_key, early, soon}
use aegis_router.Tests.Tokens.{signing_key}
use aegis_router.Tests.Boundaries.{settings, boundary}

abbrev pub unicode : Unicode
unicode = record { to_lower = λ s. s; trim_space = λ s. s }

abbrev pub url : Bytes → Url
url s = record {
  scheme = str "http";
  host = str "files";
  has_user = false;
  fragment = [];
  raw_query = [];
  force_query = false;
  text = s;
}

-- Arguments are the path alone, or a payment of 5 EUR to bob.
abbrev pub library : Library
library = record {
  codec = codec;
  unicode = unicode;
  to_upper = λ s. s;
  parse_url = λ s. some (url s);
  canonicalize = λ s. some s;
  decode_payment = λ s. some (record {
    amount_minor = some (pos 5);
    currency = some (str "EUR");
    recipient = some (str "bob");
  });
  encode_payment = λ a. a.currency ++ a.recipient;
  decode_workspace = λ s. some (record { path = some s; content = some (str "text") });
  encode_workspace = λ a. a.path;
  payment_snapshot = λ c s. s;
  workspace_snapshot = λ c s. s;
}

abbrev pub profile : WorkspaceProfile
profile = record {
  binding = digest_two;
  config = record {
    profile_id = str "workspace.write/v1";
    mcp_tool = str "workspace.write";
    capability = str "notes";
    resource = str "docs";
    operation = str "write";
    audience = str "files";
    upstream_url = str "http://files";
    max_path_bytes = pos 64;
    max_content_bytes = pos 64;
  };
  max_path_bytes = 64;
  max_content_bytes = 64;
  upstream = url (str "http://files");
}

abbrev pub registry : Registry
registry = record {
  by_tool = (str "workspace.write", workspace profile) ∷ [];
  by_profile_id = (str "workspace.write/v1", workspace profile) ∷ [];
}

abbrev constraints : AuthorizationConstraints
constraints = record {
  network_egress = [];
  secret_access = [];
  write_access = str "allow";
  allowed_side_effects = some (str "logical_workspace_write" ∷ []);
  max_bytes = pos 100;
  max_duration_ms = pos 20_000;
  executor_profile = [];
}

abbrev policy : PolicyConfig
policy = record {
  agents =
      (
        str "agent",
        record {
          workload_ids = str "worker" ∷ [];
          capabilities =
              (
                str "notes",
                record {
                  allowed_tools = str "workspace.write" ∷ [];
                  resources =
                      (
                        str "docs",
                        record {
                          allowed_operations = str "write" ∷ [];
                          required_scopes = [];
                          constraints = constraints;
                        },
                      )
                      ∷ [];
                  required_scopes = str "notes" ∷ [];
                  constraints = constraints;
                  route = unset_route;
                },
              )
              ∷ [];
          allowed_capabilities = [];
          denied_resources = [];
        },
      )
      ∷ [];
  resources = (str "docs", record { sensitivity = str "low"; scopes = [] }) ∷ [];
  sensitive_actions = [];
  prohibited_actions = [];
  compatibility = record {
    allow_legacy_flat_requests = false;
    allow_missing_tool = false;
    allow_missing_operation = false;
  };
}

abbrev pub deployment : Deployment
deployment = record {
  library = library;
  policy = policy;
  registry = registry;
  settings = settings;
  issuer_name = str "aegis";
  permit_ttl = 30 * second;
  policy_version = str "v1";
}

-- Nothing is issued yet, or the permit of the boundary is.
abbrev pub idle_router : RouterState
idle_router = record { boundary = record boundary { permits = empty_store }; log = []; live = [] }

abbrev pub busy_router : RouterState
busy_router = record { boundary = boundary; log = []; live = [] }

abbrev pub fingerprint : Bytes
fingerprint = sixteen (str "02020202")

abbrev pub request : Request
request = record {
  request_id = str "request-7";
  session_id = [];
  parent_event_id = [];
  principal = record {
    principal_id = str "alice";
    principal_type = str "human";
    tenant = [];
    environment = [];
    metadata = [];
  };
  agent = record {
    agent_id = str "agent";
    workload_id = str "worker";
    owner = [];
    environment = [];
    framework = [];
    version = [];
  };
  authority = record {
    credential_fingerprint = fingerprint;
    issuer = str "proxy";
    scopes = str "notes" ∷ [];
    subject = str "alice";
    expires_at = none;
  };
  tool = record {
    tool_id = [];
    name = str "workspace.write";
    provider = [];
    schema_sha256 = [];
    expected_schema_sha256 = [];
  };
  action = record {
    capability = str "notes";
    operation = str "write";
    target_resource = str "docs";
    profile_id = [];
    audience = [];
    arguments = str "a/b";
    side_effect = [];
    destination = none;
    byte_count = pos 0;
  };
  claimed_intent = [];
  planned_actions = [];
  input_sources = [];
  data_access = none;
  user_id = [];
  agent_id = [];
  token_scopes = [];
  requested_capability = [];
  target_resource = [];
  tool_identity = none;
  destination = none;
}

abbrev pub authorization : Authorization
authorization = record {
  request = request;
  workload_binding = record { key_id = str "exec-1"; public_key_thumbprint = digest_key };
  is_resolved = true;
}

abbrev pub issuing : Surroundings
issuing = record {
  signing_key = ok (record { key_id = str "key-1"; private_key = signing_key });
  fresh_id = some (str "permit-7");
  clock = early;
}

abbrev pub moment : Moment
moment = record {
  started = early;
  policy_time = early;
  recheck_time = early;
  finished = soon;
  withdrawn = soon;
  issuing = issuing;
  fresh_request_id = str "request-8";
  fresh_decision_id = str "decision-7";
  written = true;
}

-- The audit file does not take the record.
abbrev pub unwritten : Moment
unwritten = record moment { written = false }
