-- ===== src/Tests/Semantics.antt =====
-- The theorems on the semantic profiles, the observer, the audit log and the intake.
use aegis_router.Base.{
  ℕ, ◌≡◌, ◌≢◌, ◌≤◌, ◌↔◌, refl, ap, arith, Result, ok, err, some, none, List, [], ◌∷◌, ◌++◌, true,
  false, Bool, length,
}
use aegis_router.Base.Int.{pos}
use aegis_router.Base.Dict.{lookup}
use aegis_router.Text.{Bytes, str, bytes_eq, utf8_valid}
use aegis_router.Models.{allow, Request}
use aegis_router.Action.{Action}
use aegis_router.Semantic.{
  Rejection, Input, Resolved, PaymentConfig, PaymentArguments, WorkspaceArguments, ConfigError,
}
use aegis_router.Semantic.Payment.{PaymentProfile, new_payment, resolve_payment}
use aegis_router.Semantic.Workspace.{resolve_workspace}
use aegis_router.Semantic.Registry.{Profile, PreparedExecution, PrepareError, prepare}
use aegis_router.Semantic.Preparation.{IsPrepared, prepare_sound}
use aegis_router.Semantic.Limits.{
  IsPermittedPayment, payment_bounded, IsConfined, workspace-IsConfined,
}
use aegis_router.Runtime.{Envelope, RuntimeEvent, gateway_enforced, enforced}
use aegis_router.Observer.{evaluate_event}
use aegis_router.Observer.Verdicts.{IsBoundEvent, IsWithinEnvelope, evaluate_event_iff}
use aegis_router.Records.{AuditRecord}
use aegis_router.Audit.{AuditLog, AuditError, max_records, append, find_latest, mutate}
use aegis_router.Audit.Log.{get-append, get-mutate}
use aegis_router.Verifier.{verified, untrusted}
use aegis_router.Permit.Store.{issued}
use aegis_router.Router.Auditing.{unbound_record, revoked_record}
use aegis_router.Router.Permits.{envelope_for}
use aegis_router.Intake.{IdentityContext, Authorization, IntakeError}
use aegis_router.Intake.Headers.{Headers, resolve_proxy}
use aegis_router.Intake.Identity.{IsAsserted, HasIdentity, proxy-HasIdentity}
use aegis_router.Tests.Toy.{first_byte}
use aegis_router.Tests.Data.{execution_claims, digest_key, early, soon}
use aegis_router.Tests.Deployments.{
  unicode, url, library, profile, registry, request, authorization, fingerprint,
}

abbrev input : Input
input = record {
  principal_id = str "alice";
  agent_id = str "agent";
  workload_id = str "worker";
  delegated_authority_fingerprint = [];
  tool = str "workspace.write";
  capability = str "notes";
  resource = str "docs";
  operation = str "write";
  profile_id = [];
  audience = [];
  arguments = str "a/b";
}

abbrev bare_action : Action
bare_action = record {
  principal_id = [];
  agent_id = [];
  workload_id = [];
  delegated_authority_fingerprint = [];
  tool = [];
  capability = [];
  resource = [];
  operation = [];
  profile_id = [];
  audience = [];
  execution_binding = [];
  arguments = [];
}

abbrev resolved_in : Result Rejection Resolved → Resolved
resolved_in (ok r) = r
resolved_in (err e) = record {
  action = bare_action;
  normalized_arguments = [];
  upstream_url = [];
  policy_facts = record { side_effect = []; byte_count = 0 };
}

abbrev prepared_in : Result PrepareError PreparedExecution → PreparedExecution
prepared_in (ok p) = p
prepared_in (err e) = record {
  action = bare_action;
  arguments = [];
  upstream_url = [];
  policy_facts = record { side_effect = []; byte_count = 0 };
}

abbrev payments : PaymentConfig
payments = record {
  profile_id = str "payment.send/v1";
  mcp_tool = str "payment.send";
  capability = str "pay";
  resource = str "bank";
  operation = str "create";
  audience = str "bank";
  upstream_url = str "http://bank";
  allowed_currencies = str "EUR" ∷ [];
  max_amount_minor = (str "EUR", pos 100) ∷ [];
  allowed_recipients = str "bob" ∷ [];
}

abbrev profile_in : Result ConfigError PaymentProfile → PaymentProfile
profile_in (ok p) = p
profile_in (err e) = record {
  binding = [];
  config = payments;
  currencies = [];
  recipients = [];
  upstream = url [];
}

abbrev payment_input : Input
payment_input = record input {
  tool = str "payment.send";
  capability = str "pay";
  resource = str "bank";
  operation = str "create";
}

abbrev envelope : Envelope
envelope =
    envelope_for (record { permit_id = str "permit-1"; claims = execution_claims; token = [] }) []
      (record {
        network_egress = [];
        secret_access = [];
        write_access = str "allow";
        allowed_side_effects = none;
        max_bytes = pos 0;
        max_duration_ms = pos 0;
        executor_profile = [];
      })
      allow

abbrev event : RuntimeEvent
event = record {
  event_id = str "event-1";
  permit_id = str "permit-1";
  request_id = str "request-1";
  session_id = [];
  agent_id = str "agent";
  workload_id = str "worker";
  source = gateway_enforced;
  trust_level = enforced;
  capability = str "payment";
  tool = str "send";
  operation = str "write";
  resource = str "bank";
  resource_class = [];
  destination_class = [];
  is_external = false;
  secret_access = false;
  side_effect = [];
  byte_count = pos 0;
  timestamp = early;
}

abbrev entry : AuditRecord
entry = unbound_record (untrusted verified early) gateway_enforced (str "request-1") (str "d-1")

abbrev other_entry : AuditRecord
other_entry = unbound_record (untrusted verified early) gateway_enforced (str "other") (str "d-2")

abbrev changed : AuditRecord
changed = revoked_record issued soon entry

abbrev headers : Headers
headers = record {
  principal = str "alice" ∷ [];
  agent_id = str "agent" ∷ [];
  workload_id = str "worker" ∷ [];
  scopes = str "write, notes" ∷ [];
  fingerprint = fingerprint ∷ [];
  workload_key_id = str "exec-1" ∷ [];
  workload_key_thumbprint = digest_key ∷ [];
}

abbrev authorization_in : Result IntakeError Authorization → Authorization
authorization_in (ok a) = a
authorization_in (err e) = authorization

-- What the runs give
facts :
    (prepare library registry input ≡ ok (prepared_in (prepare library registry input)))
    × (new_payment library payments ≡ ok (profile_in (new_payment library payments)))
    × (resolve_payment library (profile_in (new_payment library payments)) payment_input
        ≡ ok (
            resolved_in
              (resolve_payment library (profile_in (new_payment library payments)) payment_input)))
    × (resolve_workspace library profile input
        ≡ ok (resolved_in (resolve_workspace library profile input)))
    × (append true entry [] ≡ ok (entry ∷ []))
    × (mutate true (str "request-1") (revoked_record issued soon) (entry ∷ other_entry ∷ [])
        ≡ ok (changed, changed ∷ other_entry ∷ []))
    × (changed.request_id ≡ str "request-1")
    × (resolve_proxy unicode (str "proxy") true headers request
        ≡ ok (authorization_in (resolve_proxy unicode (str "proxy") true headers request)))
unfolding aegis_router.Base.ℕ_discrete aegis_router.Text.Bytes-discrete aegis_router.Text.utf8_valid
    aegis_router.Text.has_control aegis_router.Text.strip_prefix aegis_router.Text.all_bytes
    aegis_router.Text.is_sha256_digest aegis_router.Text.split_on aegis_router.Text.has_outer_space
    aegis_router.KeyProvider.valid_key_id aegis_router.Time.unix_time aegis_router.Time.to_unix
    aegis_router.Time.milliseconds aegis_router.Time.wrap_int64
    aegis_router.Time.elapsed_milliseconds aegis_router.Base.Dict.lookup
    aegis_router.Base.Dict.insert aegis_router.Base.Dict.remove aegis_router.Base.Lists.contains
    aegis_router.Base.Int.◌+ℤ◌ aegis_router.Base.Int.◌-ℤ◌ aegis_router.Base.Int.◌*ℤ◌
    aegis_router.Base.Int.div_floor aegis_router.Base.Int.ℤ-discrete
    aegis_router.Base.Equality.Bool-discrete aegis_router.Text.Labels.is_label_byte
    aegis_router.Runtime.EventSource-discrete aegis_router.Runtime.TrustLevel-discrete
    aegis_router.Action.check_fields aegis_router.Action.check_optional
    aegis_router.Action.validate_action aegis_router.Action.digest
    aegis_router.Models.Route-discrete aegis_router.Models.AuthorizationStatus-discrete
    aegis_router.Models.uses_structured_context aegis_router.Models.effective_principal
    aegis_router.Models.effective_agent aegis_router.Models.effective_authority
    aegis_router.Models.effective_tool aegis_router.Models.effective_action
    aegis_router.Models.is_write_operation aegis_router.Constraints.add_check
    aegis_router.Constraints.mutates aegis_router.Constraints.known_checks
    aegis_router.Constraints.evaluate aegis_router.Policy.legacy_grant
    aegis_router.Policy.merge_constraints aegis_router.Policy.has_part
    aegis_router.Policy.requests_secret aegis_router.Policy.missing_scopes
    aegis_router.Policy.unique_from aegis_router.Policy.matched aegis_router.Policy.capability_grant
    aegis_router.Policy.find_agent aegis_router.Policy.find_capability
    aegis_router.Policy.find_operation aegis_router.Policy.find_match
    aegis_router.Policy.check_match aegis_router.Policy.decide aegis_router.Policy.evaluate_request
    aegis_router.Intake.safe_label aegis_router.Intake.validate_binding
    aegis_router.Intake.with_identity aegis_router.Intake.resolved
    aegis_router.Intake.new_trusted_authorization aegis_router.Intake.resolve_loopback
    aegis_router.Verifier.read_permit aegis_router.Verifier.record_outcome
    aegis_router.Verifier.inspect_claims aegis_router.Verifier.inspect_permit
    aegis_router.Verifier.bind_action aegis_router.Verifier.is_stale
    aegis_router.Verifier.check_proof aegis_router.Verifier.spend_nonce
    aegis_router.Verifier.prove_execution aegis_router.Verifier.verify_execution_proof
    aegis_router.Verifier.consume_inspected aegis_router.Verifier.verify_execution_and_consume
    aegis_router.Verifier.verify_simulation_and_consume aegis_router.Verifier.check_execution
    aegis_router.Observer.trust_for_source aegis_router.Observer.reject
    aegis_router.Observer.boundary aegis_router.Observer.binding_tests
    aegis_router.Observer.boundary_tests aegis_router.Observer.judge
    aegis_router.Observer.evaluate_event aegis_router.Semantic.execution_binding
    aegis_router.ExecutionProof.valid_thumbprint aegis_router.ExecutionProof.is_nonce_byte
    aegis_router.ExecutionProof.validate_proof aegis_router.ExecutionProof.validate_header
    aegis_router.ExecutionProof.three_parts aegis_router.ExecutionProof.split_token
    aegis_router.ExecutionProof.proof_key_id aegis_router.ExecutionProof.verify_proof
    aegis_router.ExecutionProof.hex aegis_router.ExecutionProof.thumbprint aegis_router.Audit.drop
    aegis_router.Audit.append aegis_router.Audit.find_latest aegis_router.Audit.replace_latest
    aegis_router.Audit.update aegis_router.Audit.mutate aegis_router.Audit.newest_first
    aegis_router.Audit.take aegis_router.Audit.recent aegis_router.Audit.load_lines
    aegis_router.Records.FinalVerdict-discrete aegis_router.Base.Dict.retain
    aegis_router.Intake.Headers.single_header aegis_router.Intake.Headers.strict_identity_header
    aegis_router.Intake.Headers.trim_left aegis_router.Intake.Headers.trim_right
    aegis_router.Intake.Headers.add_scopes aegis_router.Intake.Headers.place_text
    aegis_router.Intake.Headers.sort_texts aegis_router.Intake.Headers.parse_delegated_scopes
    aegis_router.Intake.Headers.is_hex_digest aegis_router.Intake.Headers.read_identity
    aegis_router.Intake.Headers.resolve_proxy aegis_router.ExecutionProof.Nonces.use_nonce
    aegis_router.ExecutionProof.Nonces.attempt aegis_router.ExecutionProof.Nonces.attempts
    aegis_router.ExecutionProof.Registry.conflicts aegis_router.ExecutionProof.Registry.register_key
    aegis_router.ExecutionProof.Registry.workload_key
    aegis_router.Permit.Authority.AuthorityKey-discrete aegis_router.Permit.Authority.authority_in
    aegis_router.Permit.Issuer.claims_for aegis_router.Permit.Issuer.prepare
    aegis_router.Permit.Issuer.issue aegis_router.Permit.Claims.Class-discrete
    aegis_router.Permit.Claims.valid_class aegis_router.Permit.Claims.Obligations-discrete
    aegis_router.Permit.Claims.Claims-discrete aegis_router.Permit.Claims.issued_time
    aegis_router.Permit.Claims.expires_time aegis_router.Permit.Claims.validate_metadata
    aegis_router.Permit.Claims.validate_fields aegis_router.Permit.Claims.validate_head
    aegis_router.Permit.Claims.validate_executor aegis_router.Permit.Claims.validate_tail
    aegis_router.Permit.Claims.validate aegis_router.Permit.Token.three_parts
    aegis_router.Permit.Token.token_parts aegis_router.Permit.Token.supported
    aegis_router.Permit.Token.sign_token aegis_router.Permit.Token.read_claims
    aegis_router.Permit.Token.verify_token aegis_router.Permit.Token.token_key_id
    aegis_router.Permit.Store.State-discrete aegis_router.Permit.Store.expire_if_needed
    aegis_router.Permit.Store.authority_moved aegis_router.Permit.Store.register_valid
    aegis_router.Permit.Store.register aegis_router.Permit.Store.get
    aegis_router.Permit.Store.consume_found aegis_router.Permit.Store.consume
    aegis_router.Permit.Store.revoke aegis_router.Permit.Store.revoke_for
    aegis_router.Permit.Store.check_transition aegis_router.Permit.Store.transition
    aegis_router.Permit.Store.set_authority_enabled aegis_router.Permit.Store.bytes_ltb
    aegis_router.Permit.Store.listed_before aegis_router.Permit.Store.place
    aegis_router.Permit.Store.sort_records aegis_router.Permit.Store.list
    aegis_router.Permit.Store.Lifecycle.successes aegis_router.Permit.Store.Steps.step
    aegis_router.Permit.Store.Steps.run aegis_router.Router.Auditing.permit_verification
    aegis_router.Router.Auditing.permit_verdict aegis_router.Router.Auditing.outcome_priority
    aegis_router.Router.Auditing.verified_receipt aegis_router.Router.Auditing.verified_record
    aegis_router.Router.Auditing.unbound_record aegis_router.Router.Auditing.audit_verification
    aegis_router.Router.Auditing.revoked_record aegis_router.Router.Auditing.record_revocation
    aegis_router.Router.Auditing.rejected_event_record
    aegis_router.Router.Auditing.audit_rejected_event
    aegis_router.Router.Completion.check_completion aegis_router.Router.Completion.expired_record
    aegis_router.Router.Completion.status_verdict aegis_router.Router.Completion.completion_verdict
    aegis_router.Router.Completion.completed_record aegis_router.Router.Completion.answered
    aegis_router.Router.Completion.finish_execution aegis_router.Router.Completion.complete_live
    aegis_router.Router.Completion.complete_checked
    aegis_router.Router.Completion.complete_execution aegis_router.Router.Actions.bind_fingerprint
    aegis_router.Router.Actions.execution_action aegis_router.Router.Actions.canonical_action
    aegis_router.Router.Actions.prepare_semantic_action
    aegis_router.Router.Actions.resolve_authorized_action
    aegis_router.Router.Operations.verify_execution aegis_router.Router.Operations.verify_demo
    aegis_router.Router.Operations.verify_demo_request
    aegis_router.Router.Operations.check_execution_request
    aegis_router.Router.Operations.register_workload_key aegis_router.Router.Operations.list_permits
    aegis_router.Router.Operations.get_permit aegis_router.Router.Operations.revoke_permit
    aegis_router.Router.Operations.record_stopped aegis_router.Router.Operations.set_authority
    aegis_router.Router.Decision.captured_authority aegis_router.Router.Decision.under_authority
    aegis_router.Router.Decision.first_course aegis_router.Router.Decision.checked_request
    aegis_router.Router.Decision.resolved_course aegis_router.Router.Decision.decide_course
    aegis_router.Router.Authorizing.bound_action aegis_router.Router.Authorizing.course_digest
    aegis_router.Router.Authorizing.grant_permit
    aegis_router.Router.Authorizing.authorization_verdict
    aegis_router.Router.Authorizing.authorization_receipt
    aegis_router.Router.Authorizing.privacy_safe_request
    aegis_router.Router.Authorizing.audit_record aegis_router.Router.Authorizing.withdraw
    aegis_router.Router.Authorizing.settle_audit aegis_router.Router.Authorizing.conclude
    aegis_router.Router.Authorizing.carry_out aegis_router.Router.Authorizing.authorize_resolved
    aegis_router.Router.Authorizing.authorize_trusted aegis_router.Router.Authorizing.authorize_demo
    aegis_router.Router.Validation.has_structured_labels
    aegis_router.Router.Validation.is_valid_structured aegis_router.Router.Validation.is_valid_flat
    aegis_router.Router.Validation.is_valid_request aegis_router.Router.Validation.runtime_violation
    aegis_router.Router.Evidence.rejected_evaluation aegis_router.Router.Evidence.ingested_record
    aegis_router.Router.Evidence.refuse_event aegis_router.Router.Evidence.end_permit
    aegis_router.Router.Evidence.ingest_bound aegis_router.Router.Evidence.ingest_event
    aegis_router.Router.Histories.router_step aegis_router.Router.Histories.router_run
    aegis_router.Router.Permits.configured_ttl aegis_router.Router.Permits.policy_obligations
    aegis_router.Router.Permits.dispatch_route aegis_router.Router.Permits.route_profile
    aegis_router.Router.Permits.shorter aegis_router.Router.Permits.requested_ttl
    aegis_router.Router.Permits.granted_ttl aegis_router.Router.Permits.permit_lifetime
    aegis_router.Router.Permits.issue_request aegis_router.Router.Permits.issue_permit
    aegis_router.Router.Permits.envelope_for aegis_router.Router.Permits.credential_for
    aegis_router.Semantic.Payment.add_currencies aegis_router.Semantic.Payment.add_recipients
    aegis_router.Semantic.Payment.new_payment aegis_router.Semantic.Payment.check_payment
    aegis_router.Semantic.Payment.parse_payment aegis_router.Semantic.Payment.resolve_payment
    aegis_router.Semantic.Registry.resolve_with aegis_router.Semantic.Registry.add_profiles
    aegis_router.Semantic.Registry.new_registry
    aegis_router.Semantic.Registry.payment_config_present
    aegis_router.Semantic.Registry.workspace_config_present
    aegis_router.Semantic.Registry.configured_payment
    aegis_router.Semantic.Registry.configured_workspace
    aegis_router.Semantic.Registry.new_registry_from_config
    aegis_router.Semantic.Registry.unmapped_code aegis_router.Semantic.Registry.find_profile
    aegis_router.Semantic.Registry.resolve aegis_router.Semantic.Registry.owns_upstream_url
    aegis_router.Semantic.Registry.seal aegis_router.Semantic.Registry.prepare
    aegis_router.Semantic.Workspace.new_workspace aegis_router.Semantic.Workspace.check_segments
    aegis_router.Semantic.Workspace.check_path aegis_router.Semantic.Workspace.parse_workspace
    aegis_router.Semantic.Workspace.resolve_workspace
facts = (refl, refl, refl, refl, refl, refl, refl, refl)

prepare_sound_example :
    (p : Profile) × (lookup input.tool registry.by_tool ≡ some p)
    × IsPrepared input p (prepared_in (prepare library registry input))
prepare_sound_example =
    prepare_sound library registry input (prepared_in (prepare library registry input)) facts.0

payment_bounded_example :
    (a : PaymentArguments) × ((resolved_in (
        resolve_payment library
          (profile_in (new_payment library payments))
          payment_input)).normalized_arguments
      ≡ library.encode_payment a)
    × IsPermittedPayment payments a
payment_bounded_example =
    payment_bounded library payments (profile_in (new_payment library payments)) payment_input
      (resolved_in
        (resolve_payment library (profile_in (new_payment library payments)) payment_input))
      facts.1 facts.2

workspace-IsConfined_example :
    let resolved = resolved_in (resolve_workspace library profile input) in
    (a : WorkspaceArguments) × (resolved.normalized_arguments ≡ library.encode_workspace a)
    × IsConfined profile.max_path_bytes a.path
    × (utf8_valid a.content ≡ true)
    × (length a.content ≤ profile.max_content_bytes)
    × (resolved.policy_facts.byte_count ≡ length a.content)
workspace-IsConfined_example =
    workspace-IsConfined library profile input
      (resolved_in (resolve_workspace library profile input)) facts.3

evaluate_event_iff_example :
    ((evaluate_event unicode envelope event early).is_within ≡ true)
    ↔ (IsBoundEvent envelope event early × IsWithinEnvelope unicode envelope event)
evaluate_event_iff_example = evaluate_event_iff unicode envelope event early

get-append_example :
    (find_latest entry.request_id (entry ∷ []) ≡ some entry) × (length (entry ∷ []) ≤ max_records)
get-append_example = get-append true entry [] (entry ∷ []) facts.4

first_bytes :
    str "other" ≡ str "request-1" → first_byte (str "other") ≡ first_byte (str "request-1")
first_bytes h = ap first_byte h

differ : str "other" ≢ str "request-1"
differ h = absurd (omega (arith, first_bytes h))

get-mutate_example :
    (q : AuditRecord) × (find_latest (str "request-1") (entry ∷ other_entry ∷ []) ≡ some q)
    × (changed ≡ revoked_record issued soon q)
    × (true ≡ true)
    × (find_latest (str "request-1") (changed ∷ other_entry ∷ [])
        ≡ some (revoked_record issued soon q))
    × (find_latest (str "other") (changed ∷ other_entry ∷ [])
        ≡ find_latest (str "other") (entry ∷ other_entry ∷ []))
    × (length (changed ∷ other_entry ∷ []) ≡ length (entry ∷ other_entry ∷ []))
get-mutate_example =
    get-mutate true (str "request-1") (str "other") (revoked_record issued soon)
      (entry ∷ other_entry ∷ []) changed (changed ∷ other_entry ∷ []) facts.5 facts.6 differ

proxy-HasIdentity_example :
    let a = authorization_in (resolve_proxy unicode (str "proxy") true headers request) in
    (true ≡ true)
    × (i : IdentityContext) × IsAsserted headers i
    × HasIdentity request i a.request
    × (a.workload_binding ≡ i.workload_binding)
proxy-HasIdentity_example =
    proxy-HasIdentity unicode (str "proxy") true headers request
      (authorization_in (resolve_proxy unicode (str "proxy") true headers request)) facts.7
