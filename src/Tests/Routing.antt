-- ===== src/Tests/Routing.antt =====
-- The theorems on the router, at one authorization and one execution.
use aegis_router.Base.{
  ℕ, ◌≡◌, ◌≢◌, ◌≤◌, ◌*◌, refl, Result, ok, err, some, none, List, [], ◌∷◌, true, false, Option,
  Bool, ◌!=◌,
}
use aegis_router.Base.Int.{pos, ◌+ℤ◌}
use aegis_router.Base.Dict.{lookup}
use aegis_router.Text.{Bytes, str, bytes_eq}
use aegis_router.Time.{second}
use aegis_router.Permit.Claims.{execution}
use aegis_router.Permit.Issuer.{IssuedPermit, max_ttl}
use aegis_router.Permit.Store.{
  Record, Store, empty_store, put, consumed, fresh_record, consume, succeeded,
}
use aegis_router.Permit.Store.Steps.{Call, run}
use aegis_router.Models.{MatchedAuthorizationGrant, effective_authority}
use aegis_router.Verifier.{read_permit, verified, untrusted}
use aegis_router.Observer.{evaluate_event}
use aegis_router.Runtime.{Envelope, RuntimeEvent, gateway_enforced, enforced}
use aegis_router.Records.{AuditRecord, PermitCredential, ExecutionCompletion}
use aegis_router.Models.{allow}
use aegis_router.Semantic.Registry.{PreparedExecution}
use aegis_router.Router.{RouterState, RouterError, unaudited, Response}
use aegis_router.Audit.{write_failed}
use aegis_router.Router.Validation.{runtime_violation}
use aegis_router.Router.Permits.{issue_permit, credential_for, envelope_for}
use aegis_router.Router.Permits.Lifetime.{IsWithinLimits, issue_permit_limits}
use aegis_router.Router.Authorizing.{authorize_trusted, authorize_resolved}
use aegis_router.Router.Authorizing.Issuance.{IsAuthorized, authorize_trusted_sound}
use aegis_router.Router.Authorizing.Withdrawal.{authorize_refused_withdraws}
use aegis_router.Router.Operations.{Reading, verify_execution}
use aegis_router.Permit.Store.Lifecycle.{spent}
use aegis_router.Constraints.{no_obligations}
use aegis_router.Router.Auditing.{unbound_record}
use aegis_router.Router.Evidence.{ingest_event, stamped}
use aegis_router.Router.Completion.{complete_execution}
use aegis_router.Router.Histories.{
  RouterCall, authorizes, verifies, gets_permit, all_calls, IsTrace, router_run, router_run_refines,
  router_once,
}
use aegis_router.Router.Ending.{event_ends_permit, completion_spends}
use aegis_router.Tests.Data.{execution_claims, action, digest_two, early, soon}
use aegis_router.Tests.Tokens.{token}
use aegis_router.Tests.Boundaries.{presented, boundary}
use aegis_router.Tests.Deployments.{
  deployment, idle_router, busy_router, moment, unwritten, authorization, request,
}

abbrev answered_state : {A : Type 0} → RouterState × A → RouterState
answered_state (s, r) = s

abbrev default_permit : IssuedPermit
default_permit = record { permit_id = str "permit-1"; claims = execution_claims; token = token }

abbrev default_record : AuditRecord
default_record =
    unbound_record (untrusted verified early) gateway_enforced (str "request-1") (str "d-1")

abbrev default_response : Response
default_response = record { decision = default_record; permit = none }

-- The response and the credential, if there are ones

abbrev credential_in : Result RouterError Response → PermitCredential
credential_in (err e) = credential_for default_permit
credential_in (ok r) = elim r.permit [ none ↦ credential_for default_permit | some c ↦ c ]

abbrev first_reading : Reading
first_reading = record {
  now = early;
  clock = early;
  attempt_id = str "verify-1";
  decision_id = str "decision-1";
  written = true;
}

abbrev later_reading : Reading
later_reading = record first_reading { now = soon; clock = soon }

-- An event that reads a secret under the live envelope of the permit
abbrev envelope : Envelope
envelope =
    envelope_for default_permit []
      (record {
        network_egress = [];
        secret_access = [];
        write_access = str "allow";
        allowed_side_effects = none;
        max_bytes = pos 0;
        max_duration_ms = pos 0;
        executor_profile = [];
      })
      allow

abbrev intrusion : RuntimeEvent
intrusion = record {
  event_id = str "event-1";
  permit_id = str "permit-1";
  request_id = str "request-1";
  session_id = [];
  agent_id = str "agent";
  workload_id = str "worker";
  source = gateway_enforced;
  trust_level = enforced;
  capability = str "payment";
  tool = str "send";
  operation = str "write";
  resource = str "bank";
  resource_class = [];
  destination_class = [];
  is_external = false;
  secret_access = true;
  side_effect = [];
  byte_count = pos 0;
  timestamp = early;
}

abbrev watched_router : RouterState
watched_router = record busy_router { live = (str "permit-1", envelope) ∷ [] }

abbrev response_in : Result RouterError Response → Response
response_in (err e) = default_response
response_in (ok r) = r

abbrev record_in : Result RouterError AuditRecord → AuditRecord
record_in (err e) = default_record
record_in (ok r) = r

abbrev issued_in : Result RouterError IssuedPermit → IssuedPermit
issued_in (err e) = default_permit
issued_in (ok p) = p

abbrev authorized_outcome : RouterState × Result RouterError Response
authorized_outcome = authorize_trusted deployment moment authorization idle_router

-- A completed execution of the permit, which was consumed
abbrev completion : ExecutionCompletion
completion = record {
  request_id = str "request-1";
  permit_id = str "permit-1";
  status = str "completed";
  boundary_outcome = [];
  upstream_attempted = true;
  completed_at = soon;
}

abbrev spent_router : RouterState
spent_router = record watched_router {
  boundary = record boundary {
    permits = put (str "permit-1") (spent (fresh_record execution_claims) early) empty_store;
  };
  log = default_record ∷ [];
}

abbrev completed : RouterState × Result RouterError AuditRecord
completed = complete_execution true completion gateway_enforced soon spent_router

abbrev grant : MatchedAuthorizationGrant
grant = record {
  agent_id = str "agent";
  workload_id = str "worker";
  capability = str "payment";
  tool = str "send";
  resource = str "bank";
  allowed_operations = str "write" ∷ [];
  required_scopes = [];
  constraints = record envelope.constraints { max_duration_ms = pos 20_000 };
}

abbrev issued_outcome : Store × Result RouterError IssuedPermit
issued_outcome =
    issue_permit deployment moment request grant no_obligations action digest_two
      authorization.workload_binding execution 0 1 idle_router.boundary.permits

-- What the runs give
facts :
    (read_permit deployment.settings presented.permit_token ≡ ok execution_claims)
    × ((verify_execution deployment first_reading presented busy_router).1.is_verified ≡ true)
    × ((authorize_resolved deployment unwritten request authorization.workload_binding execution 0
          busy_router).1
        ≡ err (unaudited write_failed))
    × (lookup
          (str "permit-1")
          (authorize_resolved deployment unwritten request authorization.workload_binding execution
            0 busy_router).0.boundary.permits.records
        ≡ some (fresh_record execution_claims))
    × (runtime_violation (stamped intrusion early) ≡ none)
    × (lookup (stamped intrusion early).permit_id watched_router.live ≡ some envelope)
    × ((evaluate_event deployment.library.unicode envelope
          (stamped intrusion early)
          early).is_within
        ≡ false)
    × (lookup envelope.permit_id watched_router.boundary.permits.records
        ≡ some (fresh_record execution_claims))
    × (authorize_trusted deployment moment authorization idle_router
        ≡ (answered_state authorized_outcome, ok (response_in authorized_outcome.1)))
    × ((response_in authorized_outcome.1).permit ≡ some (credential_in authorized_outcome.1))
    × (complete_execution true completion gateway_enforced soon spent_router
        ≡ (answered_state completed, ok (record_in completed.1)))
    × ((issue_permit deployment moment request grant no_obligations action digest_two
          authorization.workload_binding execution 0 1 idle_router.boundary.permits).1
        ≡ ok (issued_in issued_outcome.1))
unfolding aegis_router.Base.ℕ_discrete aegis_router.Text.Bytes-discrete aegis_router.Text.utf8_valid
    aegis_router.Text.has_control aegis_router.Text.strip_prefix aegis_router.Text.all_bytes
    aegis_router.Text.is_sha256_digest aegis_router.Text.split_on aegis_router.Text.has_outer_space
    aegis_router.KeyProvider.valid_key_id aegis_router.Time.unix_time aegis_router.Time.to_unix
    aegis_router.Time.milliseconds aegis_router.Time.wrap_int64
    aegis_router.Time.elapsed_milliseconds aegis_router.Base.Dict.lookup
    aegis_router.Base.Dict.insert aegis_router.Base.Dict.remove aegis_router.Base.Lists.contains
    aegis_router.Base.Int.◌+ℤ◌ aegis_router.Base.Int.◌-ℤ◌ aegis_router.Base.Int.◌*ℤ◌
    aegis_router.Base.Int.div_floor aegis_router.Base.Int.ℤ-discrete
    aegis_router.Base.Equality.Bool-discrete aegis_router.Text.Labels.is_label_byte
    aegis_router.Runtime.EventSource-discrete aegis_router.Runtime.TrustLevel-discrete
    aegis_router.Action.check_fields aegis_router.Action.check_optional
    aegis_router.Action.validate_action aegis_router.Action.digest
    aegis_router.Models.Route-discrete aegis_router.Models.AuthorizationStatus-discrete
    aegis_router.Models.uses_structured_context aegis_router.Models.effective_principal
    aegis_router.Models.effective_agent aegis_router.Models.effective_authority
    aegis_router.Models.effective_tool aegis_router.Models.effective_action
    aegis_router.Models.is_write_operation aegis_router.Constraints.add_check
    aegis_router.Constraints.mutates aegis_router.Constraints.known_checks
    aegis_router.Constraints.evaluate aegis_router.Policy.legacy_grant
    aegis_router.Policy.merge_constraints aegis_router.Policy.has_part
    aegis_router.Policy.requests_secret aegis_router.Policy.missing_scopes
    aegis_router.Policy.unique_from aegis_router.Policy.matched aegis_router.Policy.capability_grant
    aegis_router.Policy.find_agent aegis_router.Policy.find_capability
    aegis_router.Policy.find_operation aegis_router.Policy.find_match
    aegis_router.Policy.check_match aegis_router.Policy.decide aegis_router.Policy.evaluate_request
    aegis_router.Intake.safe_label aegis_router.Intake.validate_binding
    aegis_router.Intake.with_identity aegis_router.Intake.resolved
    aegis_router.Intake.new_trusted_authorization aegis_router.Intake.resolve_loopback
    aegis_router.Verifier.read_permit aegis_router.Verifier.record_outcome
    aegis_router.Verifier.inspect_claims aegis_router.Verifier.inspect_permit
    aegis_router.Verifier.bind_action aegis_router.Verifier.is_stale
    aegis_router.Verifier.check_proof aegis_router.Verifier.spend_nonce
    aegis_router.Verifier.prove_execution aegis_router.Verifier.verify_execution_proof
    aegis_router.Verifier.consume_inspected aegis_router.Verifier.verify_execution_and_consume
    aegis_router.Verifier.verify_simulation_and_consume aegis_router.Verifier.check_execution
    aegis_router.Observer.trust_for_source aegis_router.Observer.reject
    aegis_router.Observer.boundary aegis_router.Observer.binding_tests
    aegis_router.Observer.boundary_tests aegis_router.Observer.judge
    aegis_router.Observer.evaluate_event aegis_router.Semantic.execution_binding
    aegis_router.ExecutionProof.valid_thumbprint aegis_router.ExecutionProof.is_nonce_byte
    aegis_router.ExecutionProof.validate_proof aegis_router.ExecutionProof.validate_header
    aegis_router.ExecutionProof.three_parts aegis_router.ExecutionProof.split_token
    aegis_router.ExecutionProof.proof_key_id aegis_router.ExecutionProof.verify_proof
    aegis_router.ExecutionProof.hex aegis_router.ExecutionProof.thumbprint aegis_router.Audit.drop
    aegis_router.Audit.append aegis_router.Audit.find_latest aegis_router.Audit.replace_latest
    aegis_router.Audit.update aegis_router.Audit.mutate aegis_router.Audit.newest_first
    aegis_router.Audit.take aegis_router.Audit.recent aegis_router.Audit.load_lines
    aegis_router.Records.FinalVerdict-discrete aegis_router.Base.Dict.retain
    aegis_router.Intake.Headers.single_header aegis_router.Intake.Headers.strict_identity_header
    aegis_router.Intake.Headers.trim_left aegis_router.Intake.Headers.trim_right
    aegis_router.Intake.Headers.add_scopes aegis_router.Intake.Headers.place_text
    aegis_router.Intake.Headers.sort_texts aegis_router.Intake.Headers.parse_delegated_scopes
    aegis_router.Intake.Headers.is_hex_digest aegis_router.Intake.Headers.read_identity
    aegis_router.Intake.Headers.resolve_proxy aegis_router.ExecutionProof.Nonces.use_nonce
    aegis_router.ExecutionProof.Nonces.attempt aegis_router.ExecutionProof.Nonces.attempts
    aegis_router.ExecutionProof.Registry.conflicts aegis_router.ExecutionProof.Registry.register_key
    aegis_router.ExecutionProof.Registry.workload_key
    aegis_router.Permit.Authority.AuthorityKey-discrete aegis_router.Permit.Authority.authority_in
    aegis_router.Permit.Issuer.claims_for aegis_router.Permit.Issuer.prepare
    aegis_router.Permit.Issuer.issue aegis_router.Permit.Claims.Class-discrete
    aegis_router.Permit.Claims.valid_class aegis_router.Permit.Claims.Obligations-discrete
    aegis_router.Permit.Claims.Claims-discrete aegis_router.Permit.Claims.issued_time
    aegis_router.Permit.Claims.expires_time aegis_router.Permit.Claims.validate_metadata
    aegis_router.Permit.Claims.validate_fields aegis_router.Permit.Claims.validate_head
    aegis_router.Permit.Claims.validate_executor aegis_router.Permit.Claims.validate_tail
    aegis_router.Permit.Claims.validate aegis_router.Permit.Token.three_parts
    aegis_router.Permit.Token.token_parts aegis_router.Permit.Token.supported
    aegis_router.Permit.Token.sign_token aegis_router.Permit.Token.read_claims
    aegis_router.Permit.Token.verify_token aegis_router.Permit.Token.token_key_id
    aegis_router.Permit.Store.State-discrete aegis_router.Permit.Store.expire_if_needed
    aegis_router.Permit.Store.authority_moved aegis_router.Permit.Store.register_valid
    aegis_router.Permit.Store.register aegis_router.Permit.Store.get
    aegis_router.Permit.Store.consume_found aegis_router.Permit.Store.consume
    aegis_router.Permit.Store.revoke aegis_router.Permit.Store.revoke_for
    aegis_router.Permit.Store.check_transition aegis_router.Permit.Store.transition
    aegis_router.Permit.Store.set_authority_enabled aegis_router.Permit.Store.bytes_ltb
    aegis_router.Permit.Store.listed_before aegis_router.Permit.Store.place
    aegis_router.Permit.Store.sort_records aegis_router.Permit.Store.list
    aegis_router.Permit.Store.Lifecycle.successes aegis_router.Permit.Store.Steps.step
    aegis_router.Permit.Store.Steps.run aegis_router.Router.Auditing.permit_verification
    aegis_router.Router.Auditing.permit_verdict aegis_router.Router.Auditing.outcome_priority
    aegis_router.Router.Auditing.verified_receipt aegis_router.Router.Auditing.verified_record
    aegis_router.Router.Auditing.unbound_record aegis_router.Router.Auditing.audit_verification
    aegis_router.Router.Auditing.revoked_record aegis_router.Router.Auditing.record_revocation
    aegis_router.Router.Auditing.rejected_event_record
    aegis_router.Router.Auditing.audit_rejected_event
    aegis_router.Router.Completion.check_completion aegis_router.Router.Completion.expired_record
    aegis_router.Router.Completion.status_verdict aegis_router.Router.Completion.completion_verdict
    aegis_router.Router.Completion.completed_record aegis_router.Router.Completion.answered
    aegis_router.Router.Completion.finish_execution aegis_router.Router.Completion.complete_live
    aegis_router.Router.Completion.complete_checked
    aegis_router.Router.Completion.complete_execution aegis_router.Router.Actions.bind_fingerprint
    aegis_router.Router.Actions.execution_action aegis_router.Router.Actions.canonical_action
    aegis_router.Router.Actions.prepare_semantic_action
    aegis_router.Router.Actions.resolve_authorized_action
    aegis_router.Router.Operations.verify_execution aegis_router.Router.Operations.verify_demo
    aegis_router.Router.Operations.verify_demo_request
    aegis_router.Router.Operations.check_execution_request
    aegis_router.Router.Operations.register_workload_key aegis_router.Router.Operations.list_permits
    aegis_router.Router.Operations.get_permit aegis_router.Router.Operations.revoke_permit
    aegis_router.Router.Operations.record_stopped aegis_router.Router.Operations.set_authority
    aegis_router.Router.Decision.captured_authority aegis_router.Router.Decision.under_authority
    aegis_router.Router.Decision.first_course aegis_router.Router.Decision.checked_request
    aegis_router.Router.Decision.resolved_course aegis_router.Router.Decision.decide_course
    aegis_router.Router.Authorizing.bound_action aegis_router.Router.Authorizing.course_digest
    aegis_router.Router.Authorizing.grant_permit
    aegis_router.Router.Authorizing.authorization_verdict
    aegis_router.Router.Authorizing.authorization_receipt
    aegis_router.Router.Authorizing.privacy_safe_request
    aegis_router.Router.Authorizing.audit_record aegis_router.Router.Authorizing.withdraw
    aegis_router.Router.Authorizing.settle_audit aegis_router.Router.Authorizing.conclude
    aegis_router.Router.Authorizing.carry_out aegis_router.Router.Authorizing.authorize_resolved
    aegis_router.Router.Authorizing.authorize_trusted aegis_router.Router.Authorizing.authorize_demo
    aegis_router.Router.Validation.has_structured_labels
    aegis_router.Router.Validation.is_valid_structured aegis_router.Router.Validation.is_valid_flat
    aegis_router.Router.Validation.is_valid_request aegis_router.Router.Validation.runtime_violation
    aegis_router.Router.Evidence.rejected_evaluation aegis_router.Router.Evidence.ingested_record
    aegis_router.Router.Evidence.refuse_event aegis_router.Router.Evidence.end_permit
    aegis_router.Router.Evidence.ingest_bound aegis_router.Router.Evidence.ingest_event
    aegis_router.Router.Histories.router_step aegis_router.Router.Histories.router_run
    aegis_router.Router.Permits.configured_ttl aegis_router.Router.Permits.policy_obligations
    aegis_router.Router.Permits.dispatch_route aegis_router.Router.Permits.route_profile
    aegis_router.Router.Permits.shorter aegis_router.Router.Permits.requested_ttl
    aegis_router.Router.Permits.granted_ttl aegis_router.Router.Permits.permit_lifetime
    aegis_router.Router.Permits.issue_request aegis_router.Router.Permits.issue_permit
    aegis_router.Router.Permits.envelope_for aegis_router.Router.Permits.credential_for
    aegis_router.Semantic.Payment.add_currencies aegis_router.Semantic.Payment.add_recipients
    aegis_router.Semantic.Payment.new_payment aegis_router.Semantic.Payment.check_payment
    aegis_router.Semantic.Payment.parse_payment aegis_router.Semantic.Payment.resolve_payment
    aegis_router.Semantic.Registry.resolve_with aegis_router.Semantic.Registry.add_profiles
    aegis_router.Semantic.Registry.new_registry
    aegis_router.Semantic.Registry.payment_config_present
    aegis_router.Semantic.Registry.workspace_config_present
    aegis_router.Semantic.Registry.configured_payment
    aegis_router.Semantic.Registry.configured_workspace
    aegis_router.Semantic.Registry.new_registry_from_config
    aegis_router.Semantic.Registry.unmapped_code aegis_router.Semantic.Registry.find_profile
    aegis_router.Semantic.Registry.resolve aegis_router.Semantic.Registry.owns_upstream_url
    aegis_router.Semantic.Registry.seal aegis_router.Semantic.Registry.prepare
    aegis_router.Semantic.Workspace.new_workspace aegis_router.Semantic.Workspace.check_segments
    aegis_router.Semantic.Workspace.check_path aegis_router.Semantic.Workspace.parse_workspace
    aegis_router.Semantic.Workspace.resolve_workspace
facts = (refl, refl, refl, refl, refl, refl, refl, refl, refl, refl, refl, refl)

router_run_refines_example :
    (css : List (List Call)) × ((router_run deployment
        (authorizes moment authorization ∷ [])
        idle_router).boundary.permits
      ≡ run (all_calls css) idle_router.boundary.permits)
    × IsTrace deployment (authorizes moment authorization ∷ []) idle_router css
router_run_refines_example =
    router_run_refines deployment (authorizes moment authorization ∷ []) idle_router

router_once_example :
    (verify_execution deployment later_reading presented (
      router_run deployment
        (gets_permit (str "permit-1") early ∷ [])
        (verify_execution deployment first_reading presented busy_router).0)).1.is_verified
    ≡ false
router_once_example =
    router_once deployment first_reading later_reading presented presented
      (gets_permit (str "permit-1") early ∷ []) busy_router execution_claims execution_claims
      facts.0 facts.1 facts.0 refl

authorize_refused_withdraws_example :
    lookup (str "permit-1") busy_router.boundary.permits.records
    ≡ some (fresh_record execution_claims)
authorize_refused_withdraws_example =
    authorize_refused_withdraws deployment unwritten request authorization.workload_binding
      execution 0 busy_router (unaudited write_failed) (str "permit-1")
      (fresh_record execution_claims) facts.2 facts.3 refl

event_ends_permit_example :
    (consume envelope.permit_id soon
      (router_run deployment
        (verifies later_reading presented ∷ [])
        (ingest_event deployment true intrusion early watched_router).0).boundary.permits).1.outcome
    ≢ succeeded
event_ends_permit_example =
    event_ends_permit deployment true intrusion early soon (verifies later_reading presented ∷ [])
      watched_router envelope (fresh_record execution_claims) facts.4 facts.5 facts.6 facts.7

authorize_trusted_sound_example :
    (p : IssuedPermit) × (x : PreparedExecution) × (credential_in authorized_outcome.1
      ≡ credential_for p)
    × IsAuthorized deployment moment authorization idle_router
        (answered_state authorized_outcome)
        (response_in authorized_outcome.1)
        x
        p
authorize_trusted_sound_example =
    authorize_trusted_sound deployment moment authorization idle_router
      (answered_state authorized_outcome) (response_in authorized_outcome.1)
      (credential_in authorized_outcome.1) facts.8 facts.9

completion_spends_example :
    (q : Record) × (p : Envelope) × (lookup completion.permit_id
        spent_router.boundary.permits.records
      ≡ some q)
    × (q.state ≡ consumed)
    × (lookup completion.permit_id spent_router.live ≡ some p)
    × (p.request_id ≡ completion.request_id)
    × (lookup completion.permit_id (answered_state completed).live ≡ none)
unfolding aegis_router.Runtime.EventSource-discrete
completion_spends_example =
    completion_spends true completion gateway_enforced soon spent_router (answered_state completed)
      (record_in completed.1) refl facts.10

issue_permit_limits_example :
    (n : ℕ) × ((issued_in issued_outcome.1).claims.expires_at
      ≡ (issued_in issued_outcome.1).claims.issued_at +ℤ pos n)
    × (1 ≤ n)
    × (n * second ≤ max_ttl)
    × IsWithinLimits deployment.permit_ttl grant.constraints
        (effective_authority request).expires_at
        moment.started
        (pos (n * second))
issue_permit_limits_example =
    issue_permit_limits deployment moment request grant no_obligations action digest_two
      authorization.workload_binding execution 0 1 idle_router.boundary.permits
      (issued_in issued_outcome.1) facts.11
