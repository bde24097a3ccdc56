-- ===== src/Tests/Data.antt =====
-- A permit, the action that it binds, and the proof of its executor.
use aegis_router.Base.{[], ◌++◌, true, ◌*◌}
use aegis_router.Base.Int.{pos}
use aegis_router.Text.{Bytes, str}
use aegis_router.Time.{Time, second}
use aegis_router.Permit.Claims.{Claims, execution, simulation}
use aegis_router.Permit.Authority.{AuthorityKey, key_of}
use aegis_router.Constraints.{no_obligations}
use aegis_router.Action.{Action}

-- 32 equal bytes as a digest
abbrev pub digest_of : Bytes → Bytes
digest_of s = str "sha256:" ++ s ++ s ++ s ++ s

abbrev pub sixteen : Bytes → Bytes
sixteen s = s ++ s ++ s ++ s ++ s ++ s ++ s ++ s

abbrev pub digest_two : Bytes
digest_two = digest_of (sixteen (str "02"))

abbrev pub digest_key : Bytes
digest_key = digest_of (sixteen (str "20"))

abbrev pub execution_claims : Claims
execution_claims = record {
  permit_id = str "permit-1";
  signing_key_id = str "key-1";
  permit_class = execution;
  request_id = str "request-1";
  principal_id = str "alice";
  agent_id = str "agent";
  workload_id = str "worker";
  executor_key_id = str "exec-1";
  executor_key_thumbprint = digest_key;
  delegated_authority_fingerprint = [];
  tool = str "send";
  capability = str "payment";
  resource = str "bank";
  operation = str "write";
  profile_id = [];
  audience = [];
  action_digest = digest_two;
  execution_binding = digest_two;
  authority_epoch = 1;
  policy_version = str "v1";
  obligations = no_obligations;
  issuer = str "aegis";
  issued_at = pos 100;
  expires_at = pos 130;
  single_use = true;
}

abbrev pub simulation_claims : Claims
simulation_claims = record execution_claims {
  permit_id = str "permit-2";
  permit_class = simulation;
  executor_key_id = [];
  executor_key_thumbprint = [];
  execution_binding = [];
  authority_epoch = 0;
}

abbrev pub action : Action
action = record {
  principal_id = str "alice";
  agent_id = str "agent";
  workload_id = str "worker";
  delegated_authority_fingerprint = [];
  tool = str "send";
  capability = str "payment";
  resource = str "bank";
  operation = str "write";
  profile_id = [];
  audience = [];
  execution_binding = digest_two;
  arguments = str "{}";
}

abbrev pub domain : AuthorityKey
domain = key_of execution_claims

-- 110, 120 and 200 seconds
abbrev pub early : Time
early = pos (110 * second)

abbrev pub soon : Time
soon = pos (120 * second)

abbrev pub late : Time
late = pos (200 * second)
