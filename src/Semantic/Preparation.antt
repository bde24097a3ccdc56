-- ===== src/Semantic/Preparation.antt =====
-- What Registry.Prepare of internal/semanticaction/prepared.go puts into an execution.
use aegis_router.Base.{◌≡◌, false, arith, some, ok, inl, inr, Option-cases, Result-cases}
use aegis_router.Base.Dict.{lookup}
use aegis_router.Text.{bytes_eq, is_empty}
use aegis_router.Action.{validate_action}
use aegis_router.Semantic.{Input, Resolved, Library}
use aegis_router.Semantic.Payment.{resolve_payment}
use aegis_router.Semantic.Workspace.{resolve_workspace}
use aegis_router.Semantic.Registry.{
  Profile, payment, workspace, profile_id_of, tool_of, audience_of, upstream_url_of,
  binding_digest_of, resolve_with, Registry, find_profile, resolve, PreparedExecution, seal,
  prepare,
}

-- The action of the execution is the caller's in identity and scope and the profile's in the rest.
pub record IsPrepared (input : Input) (profile : Profile) (p : PreparedExecution) : Type 0 where
  pub principal : p.action.principal_id ≡ input.principal_id
  pub agent : p.action.agent_id ≡ input.agent_id
  pub workload : p.action.workload_id ≡ input.workload_id
  pub delegation : p.action.delegated_authority_fingerprint ≡ input.delegated_authority_fingerprint
  pub capability : p.action.capability ≡ input.capability
  pub resource : p.action.resource ≡ input.resource
  pub operation : p.action.operation ≡ input.operation
  pub tool : p.action.tool ≡ tool_of profile
  pub profile_id : p.action.profile_id ≡ profile_id_of profile
  pub audience : p.action.audience ≡ audience_of profile
  pub upstream : p.upstream_url ≡ upstream_url_of profile
  pub binding : p.action.execution_binding ≡ binding_digest_of profile
  pub bound : is_empty (binding_digest_of profile) ≡ false
  pub arguments : p.action.arguments ≡ p.arguments
  pub facts : is_empty p.policy_facts.side_effect ≡ false
  pub valid : validate_action p.action ≡ ok tt

payment_audience :
    (lib : Library) (profile : _) (input : Input) (resolved : Resolved)
    → resolve_payment lib profile input ≡ ok resolved
    → resolved.action.audience ≡ profile.config.audience
unfolding resolve_payment
payment_audience lib profile input resolved h = ground arith

workspace_audience :
    (lib : Library) (profile : _) (input : Input) (resolved : Resolved)
    → resolve_workspace lib profile input ≡ ok resolved
    → resolved.action.audience ≡ profile.config.audience
unfolding resolve_workspace
workspace_audience lib profile input resolved h = ground arith

resolved_audience :
    (lib : Library) (profile : Profile) (input : Input) (resolved : Resolved)
    → resolve_with lib profile input ≡ ok resolved
    → resolved.action.audience ≡ audience_of profile
unfolding resolve_with
resolved_audience lib (payment p) input resolved h = payment_audience lib p input resolved h
resolved_audience lib (workspace p) input resolved h = workspace_audience lib p input resolved h

pub prepare_parts :
    (lib : Library) (r : Registry) (input : Input) (p : PreparedExecution)
    → prepare lib r input ≡ ok p
    → (profile : Profile) × (resolved : Resolved) × (lookup input.tool r.by_tool ≡ some profile)
      × (resolve_with lib profile input ≡ ok resolved)
      × (seal lib profile input resolved ≡ ok p)
unfolding prepare resolve find_profile
prepare_parts lib r input p h = elim (Option-cases (lookup input.tool r.by_tool)) [
  | inl missing ↦ absurd (ground arith)
  | inr (profile, found) ↦ elim (Result-cases (resolve_with lib profile input)) [
    | inr (e, failed) ↦ absurd (ground arith)
    | inl (resolved, done) ↦ (profile, resolved, found, done, ground arith)
  ]
]

seal_sound :
    (lib : Library) (profile : Profile) (input : Input) (resolved : Resolved)
    (p : PreparedExecution)
    → resolved.action.audience ≡ audience_of profile
    → seal lib profile input resolved ≡ ok p
    → IsPrepared input profile p
unfolding seal
seal_sound lib profile input resolved p a h = ground arith

-- An execution that Prepare returns is of the profile that the registry has for the tool: its
-- action keeps the identity, the delegation, the capability, the resource and the operation of the
-- input, takes the tool, the profile, the audience and a binding that is not empty from the
-- profile, carries the arguments that are sent to the upstream of the profile, names a side
-- effect, and is a fit action.
pub prepare_sound :
    (lib : Library) (r : Registry) (input : Input) (p : PreparedExecution)
    → prepare lib r input ≡ ok p
    → (profile : Profile) × (lookup input.tool r.by_tool ≡ some profile)
      × IsPrepared input profile p
prepare_sound lib r input p h =
    let (profile, resolved, found, done, sealed) = prepare_parts lib r input p h in
    (
      profile,
      found,
      seal_sound lib profile input resolved p (resolved_audience lib profile input resolved done)
          sealed,
    )
