-- ===== src/Verifier/Binding.antt =====
-- actionBindingOutcome of internal/verifier/verifier.go: what an action that passes it shares with
-- the claims of the permit.
use aegis_router.Base.{◌≡◌, false, ◌↔◌, arith, ok, err}
use aegis_router.Text.{bytes_eq}
use aegis_router.Permit.Claims.{Claims}
use aegis_router.Action.{Action, validate_action, digest}
use aegis_router.Verifier.{Settings, Outcome, bind_action, is_verified_outcome}

-- The action is fit, agrees with the claims on every bound field, and has the claimed digest.
pub record IsBound (v : Settings) (a : Action) (c : Claims) : Type 0 where
  pub fit : validate_action a ≡ ok tt
  pub principal_id : a.principal_id ≡ c.principal_id
  pub agent_id : a.agent_id ≡ c.agent_id
  pub workload_id : a.workload_id ≡ c.workload_id
  pub delegation : a.delegated_authority_fingerprint ≡ c.delegated_authority_fingerprint
  pub tool : a.tool ≡ c.tool
  pub capability : a.capability ≡ c.capability
  pub resource : a.resource ≡ c.resource
  pub operation : a.operation ≡ c.operation
  pub profile_id : a.profile_id ≡ c.profile_id
  pub audience : a.audience ≡ c.audience
  pub execution_binding : a.execution_binding ≡ c.execution_binding
  pub digested : digest v.lib v.canonical a ≡ ok c.action_digest

bind_action_sound :
    (v : Settings) (a : Action) (c : Claims) → bind_action v a c ≡ ok tt → IsBound v a c
unfolding bind_action
bind_action_sound v a c h = ground arith

bind_action_complete :
    (v : Settings) (a : Action) (c : Claims) → IsBound v a c → bind_action v a c ≡ ok tt
unfolding bind_action
bind_action_complete v a c b = ground arith

-- The binding check accepts exactly a fit action that agrees with the claims on the principal, the
-- agent, the workload, the delegation, the tool, the capability, the resource, the operation, the
-- profile, the audience and the execution binding, and whose digest is the claimed one.
pub bind_action_iff :
    (v : Settings) (a : Action) (c : Claims) → (bind_action v a c ≡ ok tt) ↔ IsBound v a c
bind_action_iff v a c = (bind_action_sound v a c, bind_action_complete v a c)

pub bind_action_error :
    (v : Settings) (a : Action) (c : Claims) (o : Outcome)
    → bind_action v a c ≡ err o
    → is_verified_outcome o ≡ false
unfolding bind_action
bind_action_error v a c o h = ground arith
