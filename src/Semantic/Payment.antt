-- ===== src/Semantic/Payment.antt =====
-- internal/semanticaction/payment_send_v1.go: the payment profile.
use aegis_router.Base.{
  Bool, true, false, not, ◌&&◌, ◌||◌, List, [], ◌∷◌, Option, none, some, ◌==◌, ◌!=◌, nat_eq, length,
  contains, Result, ok, ◌>>=◌, ◌>>◌, reject_if,
}
use aegis_router.Base.Int.{ℤ, pos, leb_ℤ, ltb_ℤ}
use aegis_router.Base.Dict.{lookup, insert}
use aegis_router.Text.{Bytes, str, bytes_eq, is_empty, is_nonempty}
use aegis_router.Semantic.{
  Rejection, payment_tool_unmapped, payment_binding_conflict, payment_profile_mismatch,
  payment_audience_mismatch, payment_arguments_invalid, payment_amount_invalid,
  payment_amount_exceeds_limit, payment_currency_not_allowed, payment_recipient_not_allowed, Input,
  Resolved, PaymentConfig, PaymentArguments, Url, Library, ConfigError, invalid_binding,
  relative_upstream, forbidden_upstream, unfit_currency, missing_limit, duplicate_currency,
  unmatched_limits, unfit_recipient, duplicate_recipient, no_recipient, or_refuse,
  execution_binding,
}

-- PaymentSendV1
pub record PaymentProfile : Type 0 where
  pub binding : Bytes
  pub config : PaymentConfig
  pub currencies : List (Bytes × ℤ)
  pub recipients : List Bytes
  pub upstream : Url

abbrev pub is_blank : Library → Bytes → Bool
is_blank lib s = is_empty (lib.unicode.trim_space s)

-- The tests on a parsed upstream that both constructors make
abbrev pub is_relative : Url → Bool
is_relative u =
    is_empty u.scheme || is_empty u.host || (u.scheme != str "http" && u.scheme != str "https")

abbrev pub is_decorated : Url → Bool
is_decorated u = u.has_user || is_nonempty u.fragment || is_nonempty u.raw_query || u.force_query

-- The loop over the currencies
unfoldable pub add_currencies :
    Library → PaymentConfig → List Bytes → List (Bytes × ℤ) → Result ConfigError (List (Bytes × ℤ))
add_currencies lib config [] found = ok found
add_currencies lib config (currency ∷ rest) found = do
  reject_if (is_empty currency || currency != lib.to_upper currency) unfit_currency
  limit ← or_refuse (lookup currency config.max_amount_minor) missing_limit
  reject_if (leb_ℤ limit (pos 0)) missing_limit
  reject_if (is_known (lookup currency found)) duplicate_currency
  add_currencies lib config rest (insert currency limit found)
  where
    is_known : Option ℤ → Bool
    is_known none = false
    is_known (some n) = true

-- The loop over the recipients
unfoldable pub add_recipients : Library → List Bytes → List Bytes → Result ConfigError (List Bytes)
add_recipients lib [] found = ok found
add_recipients lib (recipient ∷ rest) found = do
  reject_if
      (is_empty (lib.unicode.trim_space recipient) || recipient != lib.unicode.trim_space recipient)
      unfit_recipient
  reject_if (contains found recipient) duplicate_recipient
  add_recipients lib rest (recipient ∷ found)

-- NewPaymentSendV1
unfoldable pub new_payment : Library → PaymentConfig → Result ConfigError PaymentProfile
new_payment lib config = do
  reject_if
      (config.profile_id != str "payment.send/v1"
        || config.mcp_tool != str "payment.send"
        || is_blank lib config.capability
        || is_blank lib config.resource
        || is_blank lib config.operation
        || is_blank lib config.audience)
      invalid_binding
  upstream ←
      or_refuse (lib.parse_url (lib.unicode.trim_space config.upstream_url)) relative_upstream
  reject_if (is_relative upstream) relative_upstream
  currencies ← add_currencies lib config config.allowed_currencies []
  reject_if (length currencies == 0 || length currencies != length config.max_amount_minor)
      unmatched_limits
  recipients ← add_recipients lib config.allowed_recipients []
  reject_if (length recipients == 0) no_recipient
  reject_if (is_decorated upstream) forbidden_upstream
  binding ←
      execution_binding lib
        (lib.payment_snapshot (record config { upstream_url = upstream.text }) upstream.text)
  ok (record {
    binding = binding;
    config = config;
    currencies = currencies;
    recipients = recipients;
    upstream = upstream;
  })

-- parseArguments once the wire fields are there
unfoldable pub check_payment :
    PaymentProfile → ℤ → Bytes → Bytes → Result Rejection PaymentArguments
check_payment p amount currency recipient = do
  reject_if (leb_ℤ amount (pos 0)) payment_amount_invalid
  limit ← or_refuse (lookup currency p.currencies) payment_currency_not_allowed
  reject_if (ltb_ℤ limit amount) payment_amount_exceeds_limit
  reject_if (not (contains p.recipients recipient)) payment_recipient_not_allowed
  ok (record { amount_minor = amount; currency = currency; recipient = recipient })

-- parseArguments
unfoldable pub parse_payment : Library → PaymentProfile → Bytes → Result Rejection PaymentArguments
parse_payment lib p raw = do
  reject_if (not (lib.codec.is_strict_json raw)) payment_arguments_invalid
  wire ← or_refuse (lib.decode_payment raw) payment_arguments_invalid
  amount ← or_refuse wire.amount_minor payment_arguments_invalid
  currency ← or_refuse wire.currency payment_arguments_invalid
  recipient ← or_refuse wire.recipient payment_arguments_invalid
  reject_if (is_empty currency || is_empty recipient) payment_arguments_invalid
  check_payment p amount currency recipient

-- PaymentSendV1.Resolve
unfoldable pub resolve_payment : Library → PaymentProfile → Input → Result Rejection Resolved
resolve_payment lib p input = do
  let c = p.config
  reject_if (input.tool != c.mcp_tool) payment_tool_unmapped
  reject_if
      (is_empty input.capability
        || is_empty input.resource
        || is_empty input.operation
        || input.capability != c.capability
        || input.resource != c.resource
        || input.operation != c.operation)
      payment_binding_conflict
  reject_if (is_nonempty input.profile_id && input.profile_id != c.profile_id)
      payment_profile_mismatch
  reject_if (is_nonempty input.audience && input.audience != c.audience) payment_audience_mismatch
  arguments ← parse_payment lib p input.arguments
  let normalized = lib.encode_payment arguments
  ok (record {
    action = record {
      principal_id = input.principal_id;
      agent_id = input.agent_id;
      workload_id = input.workload_id;
      delegated_authority_fingerprint = input.delegated_authority_fingerprint;
      tool = c.mcp_tool;
      capability = c.capability;
      resource = c.resource;
      operation = c.operation;
      profile_id = c.profile_id;
      audience = c.audience;
      execution_binding = [];
      arguments = normalized;
    };
    normalized_arguments = normalized;
    upstream_url = p.upstream.text;
    policy_facts = record {
      side_effect = str "financial_transaction";
      byte_count = length normalized;
    };
  })
