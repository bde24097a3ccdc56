-- ===== src/Semantic.antt =====
-- internal/semanticaction/contract.go: what the compiled-in profiles share, and what they take from
-- net/url and encoding/json. A profile is one of two, so its interface is the two files' own.
pub mod Payment
pub mod Workspace
pub mod Registry
pub mod Preparation
pub mod Limits
use aegis_router.Base.{ℕ, Bool, List, Option, none, some, ◌++◌, Result, ok, err}
use aegis_router.Base.Int.{ℤ}
use aegis_router.Text.{Bytes, str}
use aegis_router.Crypto.{Codec}
use aegis_router.Models.{Unicode}
use aegis_router.Action.{Action, ActionError}
use aegis_router.ExecutionProof.{hex}

-- RejectionCode, with the codes of the two profiles
pub data Rejection : Type 0 where
  tool_unmapped arguments_invalid_code : Rejection
  payment_tool_unmapped payment_binding_conflict payment_profile_mismatch : Rejection
  payment_audience_mismatch payment_arguments_invalid payment_amount_invalid : Rejection
  payment_amount_exceeds_limit payment_currency_not_allowed payment_recipient_not_allowed :
      Rejection
  workspace_tool_unmapped workspace_binding_conflict workspace_profile_mismatch : Rejection
  workspace_audience_mismatch workspace_arguments_invalid workspace_path_invalid : Rejection
  workspace_content_too_large : Rejection

-- Input
pub record Input : Type 0 where
  pub principal_id : Bytes
  pub agent_id : Bytes
  pub workload_id : Bytes
  pub delegated_authority_fingerprint : Bytes
  pub tool : Bytes
  pub capability : Bytes
  pub resource : Bytes
  pub operation : Bytes
  pub profile_id : Bytes
  pub audience : Bytes
  pub arguments : Bytes

-- PolicyFacts
pub record PolicyFacts : Type 0 where
  pub side_effect : Bytes
  pub byte_count : ℕ

-- Resolved
pub record Resolved : Type 0 where
  pub action : Action
  pub normalized_arguments : Bytes
  pub upstream_url : Bytes
  pub policy_facts : PolicyFacts

-- models.PaymentSendV1Config and models.WorkspaceWriteV1Config
pub record PaymentConfig : Type 0 where
  pub profile_id : Bytes
  pub mcp_tool : Bytes
  pub capability : Bytes
  pub resource : Bytes
  pub operation : Bytes
  pub audience : Bytes
  pub upstream_url : Bytes
  pub allowed_currencies : List Bytes
  pub max_amount_minor : List (Bytes × ℤ)
  pub allowed_recipients : List Bytes

pub record WorkspaceConfig : Type 0 where
  pub profile_id : Bytes
  pub mcp_tool : Bytes
  pub capability : Bytes
  pub resource : Bytes
  pub operation : Bytes
  pub audience : Bytes
  pub upstream_url : Bytes
  pub max_path_bytes : ℤ
  pub max_content_bytes : ℤ

-- The fields of the arguments; a pointer that stays nil is `none`.
pub record PaymentWire : Type 0 where
  pub amount_minor : Option ℤ
  pub currency : Option Bytes
  pub recipient : Option Bytes

pub record PaymentArguments : Type 0 where
  pub amount_minor : ℤ
  pub currency : Bytes
  pub recipient : Bytes

pub record WorkspaceWire : Type 0 where
  pub path : Option Bytes
  pub content : Option Bytes

pub record WorkspaceArguments : Type 0 where
  pub path : Bytes
  pub content : Bytes

-- url.URL as far as the constructors read it; `text` is its String().
pub record Url : Type 0 where
  pub scheme : Bytes
  pub host : Bytes
  pub has_user : Bool
  pub fragment : Bytes
  pub raw_query : Bytes
  pub force_query : Bool
  pub text : Bytes

-- url.Parse; the strict decoding of one JSON value and json.Marshal at the types of the package,
-- strings.ToUpper, and canonicalaction.CanonicalizeJSON.
pub record Library : Type 0 where
  pub codec : Codec
  pub unicode : Unicode
  pub to_upper : Bytes → Bytes
  pub parse_url : Bytes → Option Url
  pub canonicalize : Bytes → Option Bytes
  pub decode_payment : Bytes → Option PaymentWire
  pub encode_payment : PaymentArguments → Bytes
  pub decode_workspace : Bytes → Option WorkspaceWire
  pub encode_workspace : WorkspaceArguments → Bytes
  pub payment_snapshot : PaymentConfig → Bytes → Bytes
  pub workspace_snapshot : WorkspaceConfig → Bytes → Bytes

-- The errors of the constructors
pub data ConfigError : Type 0 where
  invalid_binding relative_upstream forbidden_upstream unfit_currency missing_limit : ConfigError
  duplicate_currency unmatched_limits unfit_recipient duplicate_recipient no_recipient : ConfigError
  path_limit_range content_limit_range unfit_snapshot : ConfigError

abbrev pub or_refuse {ℓ κ} : {A : Type ℓ} {E : Type κ} → Option A → E → Result E A
or_refuse (some a) e = ok a
or_refuse none e = err e

-- executionBinding of the marshalled snapshot
unfoldable pub execution_binding : Library → Bytes → Result ConfigError Bytes
execution_binding lib raw = elim (lib.canonicalize raw) [
  | none ↦ err unfit_snapshot
  | some canonical ↦ ok (str "sha256:" ++ hex (lib.codec.sha256 canonical))
]
