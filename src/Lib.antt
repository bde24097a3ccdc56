-- ===== src/Lib.antt =====
-- Aegis Router: single-use permits for agent actions, and the reference monitor that admits an
-- execution. The development models the permit core, the proofs of possession, the verifier, the
-- policy engine, the semantic profiles, the intake, the observer, the audit store and the router of the
-- Go program under internal/.
--
-- How the parts interact. The intake (internal/intake) replaces the identity of a proposal by the one that
-- a trusted boundary asserts, and seals it. The router (internal/router/router.go) captures the epoch of
-- the security domain, lets the policy engine (internal/policy) decide, lets the registry
-- (internal/semanticaction) prepare the exact operation, and decides on that again. On an authorization
-- the issuer (internal/permit/issuer.go) fills in claims, signs them as a compact token
-- (internal/permit/token.go) and registers them in the permit store (internal/permit/store.go,
-- internal/permit/authority.go); the router keeps an envelope of the live permit and appends a record to
-- the audit store (internal/audit), or takes the permit back where that fails. A workload presents the
-- token with a proof of its key (internal/executionproof) and an action (internal/canonicalaction). The
-- verifier (internal/verifier) reads the token, inspects the stored permit, checks the proof, the binding
-- of the action and the obligations (internal/executionconstraints), uses the nonce, and consumes the
-- permit. Runtime events are compared with the envelope (internal/observer) and end the permit where they
-- leave it; a completion takes the envelope away.
--
-- Files:
--   Base and its children: lists, Boolean tests, equality, results, maps, integers.
--   Text, Time, Crypto: byte strings with the tests of the standard library, instants, and the
--     operations of crypto/ed25519, crypto/sha256, encoding/base64 and encoding/json as arguments.
--   KeyProvider: ValidateKeyID of internal/keyprovider/keyprovider.go.
--   Permit/Claims, Permit/Authority, Permit/Store, Permit/Token, Permit/Issuer: the files of that
--     name in internal/permit (Permit/Store has the transition of authority.go as well). The state is
--     `Store`: the records by permit identifier and the authority states by domain. Register, Get,
--     List, Consume, Revoke and SetAuthorityEnabled are `register`, `get`, `list`, `consume`, `revoke`
--     and `set_authority_enabled`; Permit/Store/Steps makes them the steps of a history.
--   ExecutionProof with Registry and Nonces: internal/executionproof/proof.go and registry.go.
--   Action, Constraints: internal/canonicalaction/action.go,
--     internal/executionconstraints/evaluator.go.
--   Verifier: internal/verifier/verifier.go. The state is `Boundary`: the permit store, the workload
--     keys and the nonces. VerifyExecutionAndConsume, VerifySimulationAndConsume and CheckExecution
--     are `verify_execution_and_consume`, `verify_simulation_and_consume` and `check_execution`; the
--     readings of the clock are arguments.
--   Models, Policy: internal/models/models.go and internal/policy/engine.go; Evaluate is
--     `evaluate_request`.
--   Semantic with Payment, Workspace and Registry: internal/semanticaction. A profile is built by
--     `new_payment` or `new_workspace`; Resolve and Prepare are `resolve` and `prepare`.
--   Intake with Headers: internal/intake/intake.go and trusted_proxy.go.
--   Runtime, Records: the envelope, the events, the receipt and the audit record of
--     internal/models/models.go.
--   Observer: internal/observer/observer.go; Evaluate is `evaluate_event`.
--   Audit: internal/audit/store.go; the state is the list of records, the oldest first.
--   Router with Validation, Actions, Permits, Decision, Authorizing, Auditing, Operations, Evidence and
--     Completion: internal/router/router.go. The state is `RouterState`: the boundary of the verifier, the
--     audit log and the live envelopes. AuthorizeTrustedAction, AuthorizeSyntheticDemoAction,
--     VerifyExecutionAndConsume, VerifySyntheticDemo, VerifySyntheticDemoRequest, CheckExecutionRequest,
--     RegisterWorkloadPublicKey, ListPermits, GetPermit, RevokePermit, SetAuthorityEnabled,
--     IngestRuntimeEvent and completeExecution are `authorize_trusted`, `authorize_demo`,
--     `verify_execution`, `verify_demo`, `verify_demo_request`, `check_execution_request`,
--     `register_workload_key`, `list_permits`, `get_permit`, `revoke_permit`, `set_authority`,
--     `ingest_event` and `complete_execution`; Router/Histories makes them the steps of a history.
--   Risk: internal/risk/scorer.go; Assess is `assess`, its signals stand in place of their texts.
--   Tests: concrete data, a small library to run the definitions with, and each theorem at it.
--
-- Conventions. A method that runs under one mutex is one function from a state to a state and a
-- result, so that an interleaving of calls is a sequence of them. A method of the router is one
-- such step too, though the source takes several mutexes in turn; its readings of the clock, the
-- identifiers that it makes and whether the audit file takes a line are arguments. A Go map is an
-- association list. A string is its bytes. An instant is a whole number of nanoseconds from the
-- Unix epoch and does not wrap; an epoch is a natural number, with the test for the largest uint64
-- as in the source; no definition needs fuel, since every loop is over a list. The three names that
-- SetAuthorityEnabled checks are visited in a fixed order, where the source iterates over a map.
-- Errors carry the sentinel of the source and, for claims, its text.
--
-- Not modelled: the canonical JSON writer and reader of internal/canonicalaction, which is an
-- argument; Sign of internal/executionproof, which workloads call; the key providers; the advisory part of
-- the router (internal/detection and the use that it makes of internal/risk), the provenance of a context,
-- the runtime coverage and the constructors; the parsing of addresses and the construction of the
-- intake's providers; internal/sessionaudit, internal/discovery, the adapters, the HTTP interface, the
-- commands and the web console, which are input and output around these parts. The JSON decoders, URL
-- parsing and the tables of Unicode are arguments. Nil receivers, mutexes, the cloning of records, and the
-- texts of reasons, rejections, findings and violations are left out.
pub mod Base
pub mod Text
pub mod Time
pub mod KeyProvider
pub mod Permit
pub mod Crypto
pub mod ExecutionProof
pub mod Action
pub mod Constraints
pub mod Verifier
pub mod Models
pub mod Policy
pub mod Risk
pub mod Runtime
pub mod Observer
pub mod Semantic
pub mod Records
pub mod Audit
pub mod Intake
pub mod Router
pub mod Tests
