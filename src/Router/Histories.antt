-- ===== src/Router/Histories.antt =====
-- Histories of calls on the router of internal/router/router.go, and what they are to its permit store.
use aegis_router.Base.{
  ◌++◌, All, ◌≡◌, refl, Bool, true, false, List, [], ◌∷◌, ok, inl, inr, Bool-cases, ℕ, subst, sym,
  ap, ◌∙◌,
}
use aegis_router.Text.{Bytes, is_empty}
use aegis_router.Time.{Time}
use aegis_router.Permit.Claims.{Claims, execution, simulation}
use aegis_router.Permit.Authority.{AuthorityKey}
use aegis_router.Permit.Store.{empty_store, state_eq}
use aegis_router.Permit.Store.Steps.{Call, gets, lists, revokes, step, run}
use aegis_router.Permit.Store.Invariant.{IsWellFormed, reachable-IsWellFormed}
use aegis_router.Action.{Action}
use aegis_router.Verifier.{
  Presented, Verification, allowed, read_permit, verify_execution_and_consume,
}
use aegis_router.Models.{Request}
use aegis_router.Runtime.{EventSource, gateway_enforced, RuntimeEvent}
use aegis_router.Records.{ExecutionCompletion}
use aegis_router.Audit.{AuditLog}
use aegis_router.Intake.{Authorization}
use aegis_router.Router.{Deployment, RouterState, Moment}
use aegis_router.Router.Reaching.{IsIssuance, IsPresentation, IsInspection, run-append}
use aegis_router.Router.Leading.{
  IsTransition, authorize_trusted-Leads, revoke_permit-Leads, set_authority-Leads,
}
use aegis_router.Router.Settling.{
  authorize_demo-Leads, verify_execution-Leads, verify_demo-Leads, verify_demo_request-Leads,
  check_execution_request-Leads, IsIngestion, IsReading, ingest_event-Leads,
  complete_execution-Leads,
}
use aegis_router.Verifier.Replay.{execution_once}
use aegis_router.Router.Auditing.{audit_verification, permit_verification}
use aegis_router.Router.Authorizing.{authorize_trusted, authorize_demo}
use aegis_router.Router.Operations.{
  Reading, verify_execution, verify_demo, verify_demo_request, check_execution_request,
  list_permits, get_permit, revoke_permit, set_authority, register_workload_key,
}
use aegis_router.Router.Evidence.{ingest_event, stamped}
use aegis_router.Router.Completion.{complete_execution}

-- The exported methods that change the state, with what each reads
pub data RouterCall : Type 0 where
  authorizes : Moment → Authorization → RouterCall
  authorizes_demo : Moment → Request → ℕ → RouterCall
  registers_workload_key : Bytes → Bytes → RouterCall
  verifies : Reading → Presented → RouterCall
  verifies_demo : Reading → Bytes → Action → RouterCall
  verifies_demo_request : Reading → Bytes → Request → RouterCall
  checks : Time → Bytes → Request → RouterCall
  lists_permits : Time → RouterCall
  gets_permit : Bytes → Time → RouterCall
  revokes_permit : Bool → Bytes → Time → RouterCall
  sets_authority : (Bytes → Bool) → AuthorityKey → Bool → Time → RouterCall
  ingests : Bool → RuntimeEvent → Time → RouterCall
  completes : Bool → ExecutionCompletion → EventSource → Time → RouterCall

audit_verification-verified :
    (written : Bool) (attempt decision : Bytes) (v : Verification) (source : EventSource)
    (log : AuditLog)
    → (audit_verification written attempt decision v source log).1.is_verified ≡ allowed v
unfolding audit_verification permit_verification
audit_verification-verified written attempt decision v source log =
    elim (Bool-cases (is_empty v.request_id)) [
      | inl unbound ↦ rw (audit_verification, unbound) refl
      | inr bound ↦ rw (audit_verification, bound) refl
    ]

unfoldable pub all_calls : List (List Call) → List Call
all_calls [] = []
all_calls (cs ∷ css) = cs ++ all_calls css

module _ (d : Deployment) where
  unfoldable pub router_step : RouterCall → RouterState → RouterState
  router_step (authorizes m a) s = (authorize_trusted d m a s).0
  router_step (authorizes_demo m r ttl) s = (authorize_demo d m r ttl s).0
  router_step (registers_workload_key id key) s = (register_workload_key id key s).0
  router_step (verifies t p) s = (verify_execution d t p s).0
  router_step (verifies_demo t token a) s = (verify_demo d t token a s).0
  router_step (verifies_demo_request t token r) s = (verify_demo_request d t token r s).0
  router_step (checks now token r) s = (check_execution_request d now token r s).0
  router_step (lists_permits now) s = (list_permits now s).0
  router_step (gets_permit id now) s = (get_permit id now s).0
  router_step (revokes_permit written id now) s = (revoke_permit written id now s).0
  router_step (sets_authority written key on now) s = (set_authority written key on now s).0
  router_step (ingests written e now) s = (ingest_event d written e now s).0
  router_step (completes written c source now) s = (complete_execution written c source now s).0

  unfoldable pub router_run : List RouterCall → RouterState → RouterState
  router_run [] s = s
  router_run (c ∷ cs) s = router_run cs (router_step c s)

  -- What a call of the router may do to the permit store in the state: the calls of the store
  abbrev MakesCalls : RouterCall → RouterState → List Call → Type 0
  MakesCalls (authorizes m a) s cs = All (IsIssuance m.written m.withdrawn execution) cs
  MakesCalls (authorizes_demo m r ttl) s cs = All (IsIssuance m.written m.withdrawn simulation) cs
  MakesCalls (registers_workload_key id key) s cs = cs ≡ []
  MakesCalls (verifies t p) s cs = All (IsPresentation d.settings p.permit_token t.now) cs
  MakesCalls (verifies_demo t token a) s cs = All (IsPresentation d.settings token t.now) cs
  MakesCalls (verifies_demo_request t token r) s cs = All (IsPresentation d.settings token t.now) cs
  MakesCalls (checks now token r) s cs = All (IsInspection d.settings token now) cs
  MakesCalls (lists_permits now) s cs = cs ≡ lists now ∷ []
  MakesCalls (gets_permit id now) s cs = cs ≡ gets id now ∷ []
  MakesCalls (revokes_permit written id now) s cs = cs ≡ revokes id now ∷ []
  MakesCalls (sets_authority written key on now) s cs = IsTransition key on now cs
  MakesCalls (ingests written e now) s cs = IsIngestion d (stamped e now) now s cs
  MakesCalls (completes written c source now) s cs = All (IsReading c.permit_id now) cs

  router_step-MakesCalls :
      (c : RouterCall) (s : RouterState)
      → (cs : List Call) × ((router_step c s).boundary.permits ≡ run cs s.boundary.permits)
        × MakesCalls c s cs
  unfolding router_step register_workload_key list_permits get_permit step run
  router_step-MakesCalls (authorizes m a) s = authorize_trusted-Leads d m a s
  router_step-MakesCalls (authorizes_demo m r ttl) s = authorize_demo-Leads d m r ttl s
  router_step-MakesCalls (registers_workload_key id key) s = ([], refl, refl)
  router_step-MakesCalls (verifies t p) s = verify_execution-Leads d t p s
  router_step-MakesCalls (verifies_demo t token a) s = verify_demo-Leads d t token a s
  router_step-MakesCalls (verifies_demo_request t token r) s =
      verify_demo_request-Leads d t token r s
  router_step-MakesCalls (checks now token r) s = check_execution_request-Leads d now token r s
  router_step-MakesCalls (lists_permits now) s = (lists now ∷ [], refl, refl)
  router_step-MakesCalls (gets_permit id now) s = (gets id now ∷ [], refl, refl)
  router_step-MakesCalls (revokes_permit written id now) s =
      (revokes id now ∷ [], revoke_permit-Leads written id now s, refl)
  router_step-MakesCalls (sets_authority written key on now) s =
      set_authority-Leads written key on now s
  router_step-MakesCalls (ingests written e now) s = ingest_event-Leads d written e now s
  router_step-MakesCalls (completes written c source now) s =
      complete_execution-Leads written c source now s

  -- The calls of the store that each call of the router makes, one list for each
  abbrev pub IsTrace : List RouterCall → RouterState → List (List Call) → Type 0
  IsTrace [] s css = css ≡ []
  IsTrace (c ∷ calls) s [] = ⊥
  IsTrace (c ∷ calls) s (cs ∷ css) = MakesCalls c s cs × IsTrace calls (router_step c s) css

  -- Whatever calls of the router are made, what they do to the permits is a history of calls of
  -- the permit store, made of one list of calls for each call of the router. An authorization
  -- registers permits of the class execution only, its demo form of the class simulation only, and
  -- either revokes only when its audit entry is not written; a verification reads and consumes no
  -- permit but the one that its token names, and a check of an execution only reads it; to list
  -- the permits, to read one and to revoke one is that one call; a change of an authority is the
  -- transition, with at most a listing after it; a runtime event revokes the permit of the live
  -- envelope that it names when it is fit and not within that envelope, and makes no call
  -- otherwise; a completion only reads its permit; a workload key makes no call.
  pub router_run_refines :
      (calls : List RouterCall) (s : RouterState)
      → (css : List (List Call)) × ((router_run calls s).boundary.permits
          ≡ run (all_calls css) s.boundary.permits)
        × IsTrace calls s css
  unfolding router_run all_calls run
  router_run_refines [] s = ([], refl, refl)
  router_run_refines (c ∷ calls) s =
      let (cs, stepped, made) = router_step-MakesCalls c s in
      let (css, reached, rest) = router_run_refines calls (router_step c s) in
      (
        cs ∷ css,
        reached
            ∙ ap (run (all_calls css)) stepped
            ∙ sym (run-append cs (all_calls css) s.boundary.permits),
        (made, rest),
      )

  -- From an empty store, whatever calls of the router are made, the permit store is well formed.
  pub router_run-IsWellFormed :
      (calls : List RouterCall) (s : RouterState)
      → s.boundary.permits ≡ empty_store
      → IsWellFormed (router_run calls s).boundary.permits
  router_run-IsWellFormed calls s fresh =
      let (css, same, _) = router_run_refines calls s in
      subst IsWellFormed (sym (same ∙ ap (run (all_calls css)) fresh))
        (reachable-IsWellFormed (all_calls css))

  verify_execution-permits :
      (t : Reading) (p : Presented) (s : RouterState)
      → ((verify_execution d t p s).1.is_verified
          ≡ allowed (verify_execution_and_consume d.settings p t.now t.clock s.boundary).1)
        × ((verify_execution d t p s).0.boundary
            ≡ (verify_execution_and_consume d.settings p t.now t.clock s.boundary).0)
  unfolding verify_execution
  verify_execution-permits t p s = (
    audit_verification-verified t.written t.attempt_id t.decision_id
        (verify_execution_and_consume d.settings p t.now t.clock s.boundary).1 gateway_enforced
        s.log,
    refl,
  )

  -- A permit is executed once at the router: after an allowed VerifyExecutionAndConsume no
  -- presentation of a token with the same permit identifier is allowed, whatever calls of the
  -- router come between.
  pub router_once :
      (t u : Reading) (p q : Presented) (calls : List RouterCall) (s : RouterState) (c c' : Claims)
      → read_permit d.settings p.permit_token ≡ ok c
      → (verify_execution d t p s).1.is_verified ≡ true
      → read_permit d.settings q.permit_token ≡ ok c'
      → c'.permit_id ≡ c.permit_id
      → (verify_execution d u q (router_run calls (verify_execution d t p s).0)).1.is_verified
        ≡ false
  router_once t u p q calls s c c' read first reread same =
      let (shown, kept) = verify_execution-permits t p s in
      let later = (verify_execution d t p s).0 in
      let (css, reached, _) = router_run_refines calls later in
      let (reshown, _) = verify_execution-permits u q (router_run calls later) in
      reshown
      ∙ execution_once d.settings d.settings p q t.now t.clock u.now u.clock s.boundary
          (router_run calls later).boundary (all_calls css) c c' read (sym shown ∙ first)
          (reached ∙ ap (λ b. run (all_calls css) b.permits) kept) reread same
