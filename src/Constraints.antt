-- ===== src/Constraints.antt =====
-- internal/executionconstraints/evaluator.go: the signed obligations at the execution boundary.
pub mod FailClosed
use aegis_router.Base.{
  ℕ, String, Bool, true, false, not, ◌&&◌, ◌||◌, List, [], ◌∷◌, ◌++◌, ◌==◌, if◌then◌else◌,
}
use aegis_router.Text.{Bytes, str, bytes_eq}
use aegis_router.Time.{Time}
use aegis_router.Permit.Claims.{Obligations, obligations_eq}
use aegis_router.Action.{Action}

pub data Status : Type 0 where
  satisfied unsupported unknown_status : Status

pub record Check : Type 0 where
  pub requirement : String
  pub status : Status
  pub scope : String
  pub reason : String
  pub checked_at : Time

pub record Evaluation : Type 0 where
  pub allowed : Bool
  pub checks : List Check

-- permit.Obligations{}
abbrev pub no_obligations : Obligations
no_obligations = record {
  isolation_required = false;
  network_egress_denied = false;
  read_only = false;
  human_approval_required = false;
  enhanced_audit_required = false;
}

-- The closure `add`: the checks with one more, if it is required.
unfoldable pub add_check : Bool → String → String → String → Time → List Check → List Check
add_check required name scope reason at checks =
    if required
    then checks
      ++ record {
        requirement = name;
        status = unsupported;
        scope = scope;
        reason = reason;
        checked_at = at;
      }
        ∷ []
    else checks

-- The operations that mutate their target, of the switch on the operation
unfoldable pub mutates : Bytes → Bool
mutates op = op == str "write" || op == str "append" || op == str "delete" || op == str "transfer"

abbrev pub read_only_reason : Bytes → String
read_only_reason op =
    if mutates op then "action_mutates_target_resource" else "resource_enforcer_not_connected"

-- The checks of the five known obligations, in the order in which they are added.
unfoldable pub known_checks : Obligations → Action → Time → List Check
known_checks required action at =
    add_check required.enhanced_audit_required "enhanced_audit_required" "dispatch_intent"
      "durable_dispatch_journal_not_implemented" at
      (add_check required.human_approval_required "human_approval_required" "canonical_action"
        "approval_completion_not_implemented" at
        (add_check required.read_only "read_only" "target_resource"
          (read_only_reason action.operation) at
          (add_check required.network_egress_denied "network_egress_denied" "upstream_runtime"
            "network_enforcer_not_connected" at
            (add_check required.isolation_required "isolation_required" "upstream_runtime"
              "runtime_controller_not_connected" at []))))

abbrev pub unrecognized : Time → Check
unrecognized at = record {
  requirement = "unrecognized_obligation";
  status = unknown_status;
  scope = "unknown";
  reason = "obligation_evaluator_not_available";
  checked_at = at;
}

abbrev pub no_checks : List Check → Bool
no_checks [] = true
no_checks (c ∷ cs) = false

-- Evaluate
unfoldable pub evaluate : Obligations → Action → Time → Evaluation
evaluate required action at =
    let permitted = required == no_obligations in
    let checks = known_checks required action at in
    if not permitted && no_checks checks
    then record { allowed = permitted; checks = checks ++ unrecognized at ∷ [] }
    else record { allowed = permitted; checks = checks }
