-- ===== src/Semantic/Workspace.antt =====
-- internal/semanticaction/workspace_write_v1.go: the workspace profile.
use aegis_router.Base.{
  ℕ, Bool, false, not, ◌&&◌, ◌||◌, List, [], ◌∷◌, ltb, ◌==◌, ◌!=◌, length, contains, Result, ok,
  ◌>>=◌, ◌>>◌, reject_if, if◌then◌else◌, nat_eq,
}
use aegis_router.Base.Int.{ℤ, pos, int_eq, ltb_ℤ, pos_part}
use aegis_router.Text.{
  Bytes, str, bytes_eq, is_empty, is_nonempty, utf8_valid, has_control, has_prefix, split_on,
  is_lower, is_upper,
}
use aegis_router.Semantic.{
  Rejection, workspace_tool_unmapped, workspace_binding_conflict, workspace_profile_mismatch,
  workspace_audience_mismatch, workspace_arguments_invalid, workspace_path_invalid,
  workspace_content_too_large, Input, Resolved, WorkspaceConfig, WorkspaceArguments, Url, Library,
  ConfigError, invalid_binding, relative_upstream, forbidden_upstream, path_limit_range,
  content_limit_range, or_refuse, execution_binding,
}
use aegis_router.Semantic.Payment.{is_blank, is_relative, is_decorated}

-- canonicalaction.MaxArgumentsBytes
abbrev pub max_arguments_bytes : ℕ
max_arguments_bytes = 1_048_576

-- WorkspaceWriteV1; its limits are positive.
pub record WorkspaceProfile : Type 0 where
  pub binding : Bytes
  pub config : WorkspaceConfig
  pub max_path_bytes : ℕ
  pub max_content_bytes : ℕ
  pub upstream : Url

abbrev pub or_default : ℤ → ℕ → ℤ
or_default limit fallback = if limit == pos 0 then pos fallback else limit

abbrev pub out_of_range : ℤ → Bool
out_of_range limit = ltb_ℤ limit (pos 1) || ltb_ℤ (pos max_arguments_bytes) limit

-- NewWorkspaceWriteV1
unfoldable pub new_workspace : Library → WorkspaceConfig → Result ConfigError WorkspaceProfile
new_workspace lib config = do
  reject_if
      (config.profile_id != str "workspace.write/v1"
        || config.mcp_tool != str "workspace.write"
        || is_blank lib config.capability
        || is_blank lib config.resource
        || is_blank lib config.operation
        || is_blank lib config.audience)
      invalid_binding
  upstream ←
      or_refuse (lib.parse_url (lib.unicode.trim_space config.upstream_url)) relative_upstream
  reject_if (is_relative upstream) relative_upstream
  let path_limit = or_default config.max_path_bytes 1024
  let content_limit = or_default config.max_content_bytes 4096
  reject_if (out_of_range path_limit) path_limit_range
  reject_if (out_of_range content_limit) content_limit_range
  reject_if (is_decorated upstream) forbidden_upstream
  let stored = record config {
    upstream_url = upstream.text;
    max_path_bytes = path_limit;
    max_content_bytes = content_limit;
  }
  binding ← execution_binding lib (lib.workspace_snapshot stored upstream.text)
  ok (record {
    binding = binding;
    config = stored;
    max_path_bytes = pos_part path_limit;
    max_content_bytes = pos_part content_limit;
    upstream = upstream;
  })

-- strings.HasSuffix(path, "/")
abbrev pub ends_in_slash : Bytes → Bool
ends_in_slash [] = false
ends_in_slash (b ∷ []) = b == b'/'
ends_in_slash (b ∷ s) = ends_in_slash s

-- ^[A-Za-z]:
abbrev pub has_drive : Bytes → Bool
has_drive (b ∷ c ∷ s) = (is_lower b || is_upper b) && c == b':'
has_drive _ = false

abbrev pub is_forbidden : Bytes → Bool
is_forbidden segment =
    is_empty segment || segment == str "." || segment == str ".." || segment == str "~"

-- The loop over the segments
unfoldable pub check_segments : List Bytes → Result Rejection (Unit {0})
check_segments [] = ok tt
check_segments (segment ∷ rest) = do
  reject_if (is_forbidden segment) workspace_path_invalid
  check_segments rest

-- validateLogicalPath
unfoldable pub check_path : WorkspaceProfile → Bytes → Result Rejection (Unit {0})
check_path p path = do
  reject_if
      (is_empty path
        || not (utf8_valid path)
        || ltb p.max_path_bytes (length path)
        || has_prefix (str "/") path
        || ends_in_slash path
        || contains path b'\\'
        || has_drive path
        || has_control path)
      workspace_path_invalid
  check_segments (split_on b'/' path)

-- parseArguments
unfoldable pub parse_workspace :
    Library → WorkspaceProfile → Bytes → Result Rejection WorkspaceArguments
parse_workspace lib p raw = do
  reject_if (not (lib.codec.is_strict_json raw)) workspace_arguments_invalid
  wire ← or_refuse (lib.decode_workspace raw) workspace_arguments_invalid
  path ← or_refuse wire.path workspace_arguments_invalid
  content ← or_refuse wire.content workspace_arguments_invalid
  check_path p path
  reject_if (not (utf8_valid content) || ltb p.max_content_bytes (length content))
      workspace_content_too_large
  ok (record { path = path; content = content })

-- WorkspaceWriteV1.Resolve
unfoldable pub resolve_workspace : Library → WorkspaceProfile → Input → Result Rejection Resolved
resolve_workspace lib p input = do
  let c = p.config
  reject_if (input.tool != c.mcp_tool) workspace_tool_unmapped
  reject_if
      (is_empty input.capability
        || is_empty input.resource
        || is_empty input.operation
        || input.capability != c.capability
        || input.resource != c.resource
        || input.operation != c.operation)
      workspace_binding_conflict
  reject_if (is_nonempty input.profile_id && input.profile_id != c.profile_id)
      workspace_profile_mismatch
  reject_if (is_nonempty input.audience && input.audience != c.audience) workspace_audience_mismatch
  arguments ← parse_workspace lib p input.arguments
  let normalized = lib.encode_workspace arguments
  ok (record {
    action = record {
      principal_id = input.principal_id;
      agent_id = input.agent_id;
      workload_id = input.workload_id;
      delegated_authority_fingerprint = input.delegated_authority_fingerprint;
      tool = c.mcp_tool;
      capability = c.capability;
      resource = c.resource;
      operation = c.operation;
      profile_id = c.profile_id;
      audience = c.audience;
      execution_binding = [];
      arguments = normalized;
    };
    normalized_arguments = normalized;
    upstream_url = p.upstream.text;
    policy_facts = record {
      side_effect = str "logical_workspace_write";
      byte_count = length arguments.content;
    };
  })
