-- ===== src/Verifier.antt =====
-- internal/verifier/verifier.go: the reference monitor before an execution. The clock readings are
-- arguments: `now` is the one of inspectPermit, `clock` the one at the consume boundary.
pub mod Binding
pub mod Inspection
pub mod Proof
pub mod Spending
pub mod Execution
pub mod Replay
pub mod Refusal
pub mod Freshness
pub mod Simulation
use aegis_router.Base.{
  ℕ, ◌*◌, ◌+◌, Bool, true, false, not, ◌&&◌, ◌||◌, List, [], ◌∷◌, Option, none, some, ◌==◌, ◌!=◌,
  Eq, nat_eq, Result, ok, err, ◌>>=◌, ◌>>◌, reject_if, if◌then◌else◌,
}
use aegis_router.Base.Int.{ℤ, pos, ◌-ℤ◌, ltb_ℤ}
use aegis_router.Text.{Bytes, bytes_eq, is_empty}
use aegis_router.Time.{Time, second, unix_time, to_unix, before, after, add}
use aegis_router.Crypto.{Codec}
use aegis_router.KeyProvider.{KeyError}
use aegis_router.Permit.Claims.{
  Error, invalid_claims, malformed_token, unsupported_token, Class, execution, simulation, class_eq,
  Claims, claims_eq, issued_time,
}
use aegis_router.Permit.Token.{PermitJson, verify_token, token_key_id}
use aegis_router.Permit.Store.{
  State, issued, consumed, expired, revoked, unset, Record, Store, Consumption, succeeded,
  expired_before, replayed, revoked_before, unknown, ConsumeResult, get, consume,
}
use aegis_router.Action.{Action, Canonical, validate_action, digest}
use aegis_router.ExecutionProof.{ProofClaims, ProofJson, proof_key_id, verify_proof, thumbprint}
use aegis_router.ExecutionProof.Registry.{Registry, workload_key}
use aegis_router.ExecutionProof.Nonces.{Nonces, use_nonce}
use aegis_router.Constraints.{Check, Evaluation, evaluate}

pub data Outcome : Type 0 where
  verified expired_permit invalid_signature action_mismatch : Outcome
  wrong_principal wrong_agent wrong_workload wrong_delegation wrong_tool wrong_capability : Outcome
  wrong_resource wrong_operation wrong_profile wrong_audience wrong_execution_binding : Outcome
  replayed_permit revoked_permit invalid_issuer unknown_permit invalid_permit : Outcome
  invalid_action not_yet_valid wrong_permit_class wrong_executor valid_not_consumed : Outcome
  unsatisfied_obligation : Outcome

-- DefaultExecutionProofMaxAge and DefaultExecutionProofSkew
abbrev pub default_max_age : ℕ
default_max_age = 30 * second

abbrev pub default_skew : ℕ
default_skew = 5 * second

-- Result
pub record Verification : Type 0 where
  pub outcome : Outcome
  pub is_verified : Bool
  pub permit_id : Bytes
  pub request_id : Bytes
  pub state : State
  pub claims : Option Claims
  pub verified_at : Time
  pub constraint_checks : List Check

abbrev pub is_verified_outcome : Outcome → Bool
is_verified_outcome verified = true
is_verified_outcome _ = false

-- Result.Allowed
abbrev pub allowed : Verification → Bool
allowed r = is_verified_outcome r.outcome && r.is_verified

-- The Verifier's fields that no method changes, and the libraries that it calls.
pub record Settings : Type 0 where
  pub lib : Codec
  pub permit_json : PermitJson
  pub proof_json : ProofJson
  pub canonical : Canonical
  pub verification_key : Bytes → Result KeyError Bytes
  pub expected_issuer : Bytes
  pub proof_max_age : ℕ
  pub proof_clock_skew : ℕ

-- What its methods change: the permit store, the workload keys and the nonces.
pub record Boundary : Type 0 where
  pub permits : Store
  pub workload_keys : Registry
  pub nonces : Nonces

-- The Result that inspectPermit starts from, and that of a token whose claims are trusted
abbrev pub untrusted : Outcome → Time → Verification
untrusted o now = record {
  outcome = o;
  is_verified = false;
  permit_id = [];
  request_id = [];
  state = unset;
  claims = none;
  verified_at = now;
  constraint_checks = [];
}

abbrev pub trusted : Claims → Outcome → State → Time → Verification
trusted c o st now = record {
  outcome = o;
  is_verified = false;
  permit_id = c.permit_id;
  request_id = c.request_id;
  state = st;
  claims = some c;
  verified_at = now;
  constraint_checks = [];
}

-- The outcome for an error of VerifyToken
abbrev pub token_outcome : Error → Outcome
token_outcome (invalid_claims reason) = invalid_permit
token_outcome malformed_token = invalid_permit
token_outcome unsupported_token = invalid_permit
token_outcome _ = invalid_signature

abbrev pub or_outcome {ℓ κ} : {E : Type ℓ} {A : Type κ} → Result E A → Outcome → Result Outcome A
or_outcome (ok a) o = ok a
or_outcome (err e) o = err o

abbrev pub or_token_outcome {ℓ} : {A : Type ℓ} → Result Error A → Result Outcome A
or_token_outcome (ok a) = ok a
or_token_outcome (err e) = err (token_outcome e)

-- The part of inspectPermit up to the trusted claims
unfoldable pub read_permit : Settings → Bytes → Result Outcome Claims
read_permit v token = do
  key_id ← or_outcome (token_key_id v.lib v.permit_json token) invalid_signature
  key ← or_outcome (v.verification_key key_id) invalid_signature
  or_token_outcome (verify_token v.lib v.permit_json key token)

-- What inspectPermit concludes from the record that it reads
unfoldable pub record_outcome : Claims → Record → Time → Outcome
record_outcome c r now =
    if r.claims != c
    then invalid_permit
    else if before now (issued_time c)
    then not_yet_valid
    else elim r.state [
      | expired ↦ expired_permit
      | consumed ↦ replayed_permit
      | revoked ↦ revoked_permit
      | issued ↦ verified
      | unset ↦ invalid_permit
    ]

-- The part of inspectPermit after the claims are read
unfoldable pub inspect_claims : Settings → Claims → Class → Time → Store → Store × Verification
inspect_claims v c class now s =
    if c.permit_class != class
    then (s, trusted c wrong_permit_class unset now)
    else if c.issuer != v.expected_issuer
    then (s, trusted c invalid_issuer unset now)
    else (
      (get c.permit_id now s).0,
      elim (get c.permit_id now s).1 [
        | none ↦ trusted c unknown_permit unset now
        | some r ↦ trusted c (record_outcome c r now) r.state now
      ],
    )

-- inspectPermit
unfoldable pub inspect_permit : Settings → Bytes → Class → Time → Store → Store × Verification
inspect_permit v token class now s = elim (read_permit v token) [
  | err o ↦ (s, untrusted o now)
  | ok c ↦ inspect_claims v c class now s
]

abbrev pub require : Bool → Outcome → Result Outcome (Unit {0})
require b o = reject_if (not b) o

-- actionBindingOutcome, as the error of the first difference
unfoldable pub bind_action : Settings → Action → Claims → Result Outcome (Unit {0})
bind_action v a c = do
  or_outcome (validate_action a) invalid_action
  require (a.principal_id == c.principal_id) wrong_principal
  require (a.agent_id == c.agent_id) wrong_agent
  require (a.workload_id == c.workload_id) wrong_workload
  require (a.delegated_authority_fingerprint == c.delegated_authority_fingerprint) wrong_delegation
  require (a.tool == c.tool) wrong_tool
  require (a.capability == c.capability) wrong_capability
  require (a.resource == c.resource) wrong_resource
  require (a.operation == c.operation) wrong_operation
  require (a.profile_id == c.profile_id) wrong_profile
  require (a.audience == c.audience) wrong_audience
  require (a.execution_binding == c.execution_binding) wrong_execution_binding
  found ← or_outcome (digest v.lib v.canonical a) invalid_action
  require (found == c.action_digest) action_mismatch

-- The HTTP request at the boundary, and what it presents.
pub record Presented : Type 0 where
  pub permit_token : Bytes
  pub proof_token : Bytes
  pub action : Action
  pub http_method : Bytes
  pub http_path : Bytes

-- The freshness test of verifyExecutionProof
unfoldable pub is_stale : Settings → ProofClaims → Time → Bool
is_stale v proof now =
    after (unix_time proof.issued_at) (add now v.proof_clock_skew)
    || ltb_ℤ (pos v.proof_max_age) (now -ℤ unix_time proof.issued_at)

-- The part of verifyExecutionProof from the claims to the action binding: the proof's key and claims
unfoldable pub check_proof :
    Settings → Registry → Claims → Presented → Time → Result Outcome (Bytes × ProofClaims)
check_proof v keys c p now = do
  reject_if (is_empty c.executor_key_thumbprint) invalid_permit
  key_id ← or_outcome (proof_key_id v.lib v.proof_json p.proof_token) wrong_executor
  key ← or_outcome (workload_key key_id keys) wrong_executor
  proof ← or_outcome (verify_proof v.lib v.proof_json key p.proof_token) wrong_executor
  print ← or_outcome (thumbprint v.lib key) wrong_executor
  reject_if (key_id != c.executor_key_id || print != c.executor_key_thumbprint) wrong_executor
  reject_if
      (proof.permit_id != c.permit_id
        || proof.action_digest != c.action_digest
        || proof.http_method != p.http_method
        || proof.http_path != p.http_path)
      wrong_executor
  reject_if (is_stale v proof now) wrong_executor
  bind_action v p.action c
  ok (key_id, proof)

abbrev pub nonce_expiry : Settings → ProofClaims → ℤ
nonce_expiry v proof =
    to_unix (add (unix_time proof.issued_at) (v.proof_max_age + v.proof_clock_skew))

-- The part of verifyExecutionProof after the action binding: obligations and nonce
unfoldable pub spend_nonce :
    Settings
    → Claims
    → Action
    → Bytes × ProofClaims
    → Verification
    → Boundary
    → Boundary × Verification
spend_nonce v c a (key_id, proof) r b =
    let constraints = evaluate c.obligations a r.verified_at in
    let checked = record r { constraint_checks = constraints.checks } in
    let used =
      use_nonce key_id proof.nonce (to_unix r.verified_at) (nonce_expiry v proof) b.nonces in
    if not constraints.allowed then (b, record checked { outcome = unsatisfied_obligation }) else (
      record b { nonces = used.0 },
      if used.1
          then record checked { is_verified = true }
          else record checked { outcome = wrong_executor },
    )

-- The part of verifyExecutionProof after a verified inspection with claims `c`
unfoldable pub prove_execution :
    Settings → Presented → Time → Claims → Verification → Boundary → Boundary × Verification
prove_execution v p now c r b = elim (check_proof v b.workload_keys c p now) [
  | err o ↦ (b, record r { outcome = o })
  | ok found ↦ spend_nonce v c p.action found r b
]

abbrev pub with_permits : Boundary → Store → Boundary
with_permits b s = record b { permits = s }

-- What a result with outcome VERIFIED goes on to; without claims it is INVALID_PERMIT. Any other
-- result is final.
abbrev pub if_verified :
    Boundary → Verification → (Claims → Boundary × Verification) → Boundary × Verification
if_verified b r next =
    if is_verified_outcome r.outcome
    then elim r.claims [ some c ↦ next c | none ↦ (b, record r { outcome = invalid_permit }) ]
    else (b, r)

-- verifyExecutionProof
unfoldable pub verify_execution_proof :
    Settings → Presented → Time → Boundary → Boundary × Verification
verify_execution_proof v p now b =
    let seen = inspect_permit v p.permit_token execution now b.permits in
    let b' = with_permits b seen.0 in
    if_verified b' seen.1 (λ c. prove_execution v p now c seen.1 b')

-- The outcome for an answer of the store
abbrev pub consume_outcome : Consumption → Outcome
consume_outcome succeeded = verified
consume_outcome expired_before = expired_permit
consume_outcome replayed = replayed_permit
consume_outcome revoked_before = revoked_permit
consume_outcome unknown = unknown_permit

abbrev pub is_success : Consumption → Bool
is_success succeeded = true
is_success _ = false

-- The consume time: the clock, but not before the inspection.
abbrev pub consume_time : Time → Time → Time
consume_time now clock = if before clock now then now else clock

-- consumeInspected
unfoldable pub consume_inspected : Claims → Verification → Time → Boundary → Boundary × Verification
consume_inspected c r clock b =
    let at = consume_time r.verified_at clock in
    let taken = consume c.permit_id at b.permits in
    (
      with_permits b taken.0,
      record r {
        outcome = consume_outcome taken.1.outcome;
        is_verified = is_success taken.1.outcome;
        state = taken.1.found.state;
        verified_at = at;
      },
    )

-- VerifyExecutionAndConsume
unfoldable pub verify_execution_and_consume :
    Settings → Presented → Time → Time → Boundary → Boundary × Verification
verify_execution_and_consume v p now clock b =
    let proved = verify_execution_proof v p now b in
    if_verified proved.0 proved.1 (λ c. consume_inspected c proved.1 clock proved.0)

-- VerifySimulationAndConsume
unfoldable pub verify_simulation_and_consume :
    Settings → Bytes → Action → Time → Time → Boundary → Boundary × Verification
verify_simulation_and_consume v token a now clock b =
    let seen = inspect_permit v token simulation now b.permits in
    let b' = with_permits b seen.0 in
    if_verified b' seen.1 (λ c. elim (bind_action v a c) [
      | err o ↦ (b', record seen.1 { outcome = o })
      | ok _ ↦ consume_inspected c seen.1 clock b'
    ])

-- CheckExecution
unfoldable pub check_execution :
    Settings → Bytes → Action → Time → Boundary → Boundary × Verification
check_execution v token a now b =
    let seen = inspect_permit v token execution now b.permits in
    let b' = with_permits b seen.0 in
    if_verified b' seen.1 (λ c. elim (bind_action v a c) [
      | err o ↦ (b', record seen.1 { outcome = o })
      | ok _ ↦ (b', record seen.1 { outcome = valid_not_consumed; is_verified = false })
    ])
