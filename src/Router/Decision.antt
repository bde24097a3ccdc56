-- ===== src/Router/Decision.antt =====
-- The deterministic decision of authorizeResolvedAction of internal/router/router.go.
pub mod Grounds
use aegis_router.Base.{
  ℕ, Bool, true, false, not, ◌&&◌, List, [], ◌∷◌, ◌++◌, Option, none, some, ◌==◌, Result, ok, err,
  if◌then◌else◌,
}
use aegis_router.Base.Int.{ℤ, pos, ltb_ℤ}
use aegis_router.Text.{Bytes, str}
use aegis_router.Permit.Claims.{Class, execution, class_eq, Obligations}
use aegis_router.Permit.Authority.{AuthorityKey, AuthorityState}
use aegis_router.Permit.Store.{Store, authority}
use aegis_router.Models.{
  deny_route, authorized, denied, status_eq, Request, MatchedAuthorizationGrant, PolicyDecision,
  effective_principal, effective_agent, effective_action,
}
use aegis_router.Policy.{evaluate_request}
use aegis_router.Action.{Action}
use aegis_router.Semantic.{
  Rejection, tool_unmapped, arguments_invalid_code, payment_tool_unmapped, payment_binding_conflict,
  payment_profile_mismatch, payment_audience_mismatch, payment_arguments_invalid,
  payment_amount_invalid, payment_amount_exceeds_limit, payment_currency_not_allowed,
  payment_recipient_not_allowed, workspace_tool_unmapped, workspace_binding_conflict,
  workspace_profile_mismatch, workspace_audience_mismatch, workspace_arguments_invalid,
  workspace_path_invalid, workspace_content_too_large, PolicyFacts,
}
use aegis_router.Semantic.Registry.{PrepareError, rejected}
use aegis_router.Router.{Deployment, Moment}
use aegis_router.Router.Actions.{resolve_authorized_action}
use aegis_router.Router.Permits.{policy_obligations}

-- The authority that the decision captures: that of the security domain for an execution permit
unfoldable pub captured_authority : Class → Request → Store → AuthorityState
captured_authority class r s =
    if class == execution
    then authority
        (record {
          principal_id = (effective_principal r).principal_id;
          agent_id = (effective_agent r).agent_id;
          workload_id = (effective_agent r).workload_id;
        })
        s
    else record { epoch = 0; enabled = false }

-- The decision as far as it is made: the local variables of authorizeResolvedAction. `status` is always
-- the status of the decision.
pub record Course : Type 0 where
  pub decision : PolicyDecision
  pub obligations : Obligations
  pub resolved : Option Action

abbrev pub course_of : PolicyDecision → Option Action → Course
course_of decision resolved = record {
  decision = decision;
  obligations = policy_obligations decision;
  resolved = resolved;
}

-- A decision taken back by the router under a further rule
abbrev pub denied_by : Bytes → PolicyDecision → PolicyDecision
denied_by rule decision = record decision {
  is_authorized = false;
  status = denied;
  route = deny_route;
  rules = decision.rules ++ rule ∷ [];
  grant = none;
}

-- The decision under the captured authority
unfoldable pub under_authority : Class → AuthorityState → PolicyDecision → PolicyDecision
under_authority class a decision =
    if class == execution && not a.enabled
    then denied_by (str "authority.disabled") decision
    else decision

-- The first evaluation
unfoldable pub first_course : Deployment → Moment → Request → Class → AuthorityState → Course
first_course d m r class a =
    course_of
      (under_authority class a (evaluate_request d.library.unicode d.policy r m.policy_time)) none

-- The grant on which a permit is issued
abbrev pub eligible : PolicyDecision → Option MatchedAuthorizationGrant
eligible decision =
    if decision.status == authorized && decision.is_authorized then decision.grant else none

-- semanticaction.Code in lower case, with the texts of the codes
abbrev pub code_text : PrepareError → Bytes
code_text (rejected tool_unmapped) = str "semantic_tool_unmapped"
code_text (rejected payment_tool_unmapped) = str "payment_tool_unmapped"
code_text (rejected payment_binding_conflict) = str "payment_binding_conflict"
code_text (rejected payment_profile_mismatch) = str "payment_profile_mismatch"
code_text (rejected payment_audience_mismatch) = str "payment_audience_mismatch"
code_text (rejected payment_arguments_invalid) = str "payment_arguments_invalid"
code_text (rejected payment_amount_invalid) = str "payment_amount_invalid"
code_text (rejected payment_amount_exceeds_limit) = str "payment_amount_exceeds_limit"
code_text (rejected payment_currency_not_allowed) = str "payment_currency_not_allowed"
code_text (rejected payment_recipient_not_allowed) = str "payment_recipient_not_allowed"
code_text (rejected workspace_tool_unmapped) = str "workspace_tool_unmapped"
code_text (rejected workspace_binding_conflict) = str "workspace_binding_conflict"
code_text (rejected workspace_profile_mismatch) = str "workspace_profile_mismatch"
code_text (rejected workspace_audience_mismatch) = str "workspace_audience_mismatch"
code_text (rejected workspace_arguments_invalid) = str "workspace_arguments_invalid"
code_text (rejected workspace_path_invalid) = str "workspace_path_invalid"
code_text (rejected workspace_content_too_large) = str "workspace_content_too_large"
code_text _ = str "semantic_arguments_invalid"

-- The course of an action that is not resolved
abbrev pub unresolved_course : PrepareError → Course → Course
unresolved_course e course = record {
  decision = denied_by (str "semantic_action." ++ code_text e) course.decision;
  obligations = record {
    isolation_required = false;
    network_egress_denied = false;
    read_only = false;
    human_approval_required = false;
    enhanced_audit_required = false;
  };
  resolved = none;
}

-- The request that the second evaluation checks: the exact prepared operation
unfoldable pub checked_request : Request → Action → PolicyFacts → Request
checked_request r a facts = record r {
  action = record (effective_action r) {
    arguments = a.arguments;
    side_effect = facts.side_effect;
    byte_count =
        if ltb_ℤ (effective_action r).byte_count (pos facts.byte_count)
        then pos facts.byte_count
        else (effective_action r).byte_count;
  };
}

-- What follows a resolved action
unfoldable pub resolved_course :
    Deployment → Moment → Request → Class → Course → Action → PolicyFacts → Course
resolved_course d m r class course a facts =
    if class == execution
    then course_of
        (evaluate_request d.library.unicode d.policy (checked_request r a facts) m.recheck_time)
        (some a)
    else record course { resolved = some a }

-- The deterministic decision
unfoldable pub decide_course : Deployment → Moment → Request → Class → AuthorityState → Course
decide_course d m r class authority_state =
    let course = first_course d m r class authority_state in
    elim (eligible course.decision) [
      | none ↦ course
      | some grant ↦ elim (resolve_authorized_action d r grant class) [
        | err e ↦ unresolved_course e course
        | ok (a, facts) ↦ resolved_course d m r class course a facts
      ]
    ]
