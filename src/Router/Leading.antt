-- ===== src/Router/Leading.antt =====
-- What authorizations, revocations and transitions of internal/router/router.go do to the permit store.
use aegis_router.Base.{
  ◌≡◌, refl, Bool, List, [], ◌∷◌, none, some, ok, err, inl, inr, Option-cases, Result-cases,
  Bool-cases, ℕ, if_both, if◌then◌else◌, ◌∙◌, false, ◌⊎◌, arith,
}
use aegis_router.Text.{Bytes, bytes_eq}
use aegis_router.Time.{Time}
use aegis_router.Permit.Claims.{Claims, Class, execution}
use aegis_router.Permit.Authority.{AuthorityKey, AuthorityState}
use aegis_router.Permit.Store.{Store, Record, state_eq, revoke, set_authority_enabled, list}
use aegis_router.Permit.Store.Steps.{Call, registers, lists, revokes, transitions, step, run}
use aegis_router.Action.{Action}
use aegis_router.Models.{Request, MatchedAuthorizationGrant, uses_structured_context}
use aegis_router.Records.{AuditRecord}
use aegis_router.Audit.{AuditLog, append}
use aegis_router.Intake.{WorkloadBinding, Authorization}
use aegis_router.Router.{Deployment, RouterState, Moment, with_store}
use aegis_router.Router.Reaching.{Reaches, stay, call, Reaches-trans, issue-Reaches, IsIssuance}
use aegis_router.Router.Permits.{issue_permit, issue_request}
use aegis_router.Router.Decision.{Course, eligible}
use aegis_router.Router.Authorizing.{
  Granted, grant_permit, bound_action, conclude, withdraw, carry_out, with_live, settle_audit,
  authorize_resolved, authorize_trusted, audit_record, envelope_in,
}
use aegis_router.Router.Auditing.{record_revocation}
use aegis_router.Router.Operations.{revoke_permit, record_stopped, is_stopped, set_authority}

abbrev pub Leads : (Call → Type 0) → RouterState → RouterState → Type 0
Leads Q s t = Reaches Q s.boundary.permits t.boundary.permits

if_Reaches :
    {A : Type 0} (Q : Call → Type 0) (s : Store) (b : Bool) (x y : Store × A)
    → Reaches Q s x.0
    → Reaches Q s y.0
    → Reaches Q s (if b then x else y).0
if_Reaches {A} Q s b x y = if_both {A = Store × A} (λ answer. Reaches Q s answer.0) b x y

pub if_Leads :
    {A : Type 0} (Q : Call → Type 0) (s : RouterState) (b : Bool) (x y : RouterState × A)
    → Leads Q s x.0
    → Leads Q s y.0
    → Leads Q s (if b then x else y).0
if_Leads {A} Q s b x y = if_both {A = RouterState × A} (λ answer. Leads Q s answer.0) b x y

if_boundary :
    {A : Type 0} (s : RouterState) (b : Bool) (x y : RouterState × A)
    → x.0.boundary ≡ s.boundary
    → y.0.boundary ≡ s.boundary
    → (if b then x else y).0.boundary ≡ s.boundary
if_boundary {A} s b x y =
    if_both {A = RouterState × A} (λ answer. answer.0.boundary ≡ s.boundary) b x y

withdraw-Leads :
    (m : Moment) (class : Class) (g : Granted) (s : RouterState)
    → m.written ≡ false
    → Leads (IsIssuance m.written m.withdrawn class) s (withdraw m g s)
unfolding withdraw step
withdraw-Leads m class none s lost =
    stay (IsIssuance m.written m.withdrawn class) s.boundary.permits
withdraw-Leads m class (some (p, e)) s lost =
    call (IsIssuance m.written m.withdrawn class) (revokes e.permit_id m.withdrawn)
      s.boundary.permits (inr (e.permit_id, lost, refl))

with_live-Leads : (g : Granted) (s : RouterState) → (with_live g s).boundary ≡ s.boundary
with_live-Leads none s = refl
with_live-Leads (some (p, e)) s = refl

append_lost :
    (written : Bool) (entry : AuditRecord) (log : AuditLog) (e : _)
    → append written entry log ≡ err e
    → written ≡ false
unfolding append
append_lost written entry log e h = elim (Bool-cases written) [
  | inl kept ↦ absurd (ground (arith, rw (append, kept) at h))
  | inr lost ↦ lost
]

settle_audit-Leads :
    (m : Moment) (class : Class) (entry : AuditRecord) (g : Granted) (s t : RouterState)
    (answer : _)
    → ((e : _) → answer ≡ err e → m.written ≡ false)
    → Leads (IsIssuance m.written m.withdrawn class) s t
    → Leads (IsIssuance m.written m.withdrawn class) s (settle_audit m entry g t answer).0
unfolding settle_audit
settle_audit-Leads m class entry g s t (ok log) lost here = here
settle_audit-Leads m class entry g s t (err e) lost here =
    Reaches-trans (IsIssuance m.written m.withdrawn class) s.boundary.permits t.boundary.permits
      (withdraw m g t).boundary.permits here (withdraw-Leads m class g t (lost e refl))

conclude-Leads :
    (d : Deployment) (m : Moment) (class : Class) (r : Request) (course : Course) (text : Bytes)
    (s t : RouterState) (g : _)
    → Leads (IsIssuance m.written m.withdrawn class) s t
    → Leads (IsIssuance m.written m.withdrawn class) s (conclude d m r course text t g).0
unfolding conclude
conclude-Leads d m class r course text s t (err e) here = here
conclude-Leads d m class r course text s t (ok g) here =
    let entry = audit_record d m r course text (envelope_in g) in
    settle_audit-Leads m class entry g s (with_live g t) (append m.written entry t.log)
      (append_lost m.written entry t.log) (rw (with_live-Leads g t) here)

issue_permit-Reaches :
    (Q : Call → Type 0) (d : Deployment) (m : Moment) (r : Request)
    (grant : MatchedAuthorizationGrant) (o : _) (a : Action) (text : Bytes)
    (binding : WorkloadBinding) (class : Class) (override epoch : ℕ) (s : Store)
    → ((c : Claims) → c.permit_class ≡ class → Q (registers c))
    → Reaches Q s (issue_permit d m r grant o a text binding class override epoch s).0
unfolding issue_permit issue_request
issue_permit-Reaches Q d m r grant o a text binding class override epoch s made =
    if_Reaches Q s _ _ _ (stay Q s)
      (issue-Reaches Q d.settings.lib d.settings.permit_json d.issuer_name m.issuing _ s made)

module _ (d : Deployment) (m : Moment) where
  grant_permit-Reaches :
      (Q : Call → Type 0) (r : Request) (binding : WorkloadBinding) (class : Class)
      (override epoch : ℕ) (course : Course) (text : Bytes) (s : Store)
      → ((c : Claims) → c.permit_class ≡ class → Q (registers c))
      → Reaches Q s (grant_permit d m r binding class override epoch course text s).0
  unfolding grant_permit
  grant_permit-Reaches Q r binding class override epoch course text s made =
      elim (Option-cases (eligible course.decision)) [
        | inl none_there ↦ rw (grant_permit, none_there) (stay Q s)
        | inr (grant, there) ↦
            rw (grant_permit, there)
              (issue_permit-Reaches Q d m r grant course.obligations (bound_action d r course grant)
                text binding class override epoch s made)
      ]

  carry_out-Leads :
      (r : Request) (binding : WorkloadBinding) (class : Class) (override epoch : ℕ)
      (course : Course) (s : RouterState) (text : _)
      → Leads
          (IsIssuance m.written m.withdrawn class)
          s
          (carry_out d m r binding class override epoch course s text).0
  unfolding carry_out
  carry_out-Leads r binding class override epoch course s (err e) =
      stay (IsIssuance m.written m.withdrawn class) s.boundary.permits
  carry_out-Leads r binding class override epoch course s (ok text) =
      conclude-Leads d m class r course text s _ _ (
        grant_permit-Reaches (IsIssuance m.written m.withdrawn class) r binding class override epoch
          course text s.boundary.permits (λ c same. inl (c, same, refl)))

  pub authorize_resolved-Leads :
      (r : Request) (binding : WorkloadBinding) (class : Class) (override : ℕ) (s : RouterState)
      → Leads
          (IsIssuance m.written m.withdrawn class)
          s
          (authorize_resolved d m r binding class override s).0
  unfolding authorize_resolved
  authorize_resolved-Leads r binding class override s =
      let Q = IsIssuance m.written m.withdrawn class in
      if_Leads Q s _ _ _ (stay Q s.boundary.permits)
        (carry_out-Leads _ binding class override _ _ s _)

  pub authorize_trusted-Leads :
      (a : Authorization) (s : RouterState)
      → Leads (IsIssuance m.written m.withdrawn execution) s (authorize_trusted d m a s).0
  unfolding authorize_trusted
  authorize_trusted-Leads a s =
      let Q = IsIssuance m.written m.withdrawn execution in
      elim (Bool-cases a.is_resolved) [
        | inr loose ↦ rw (authorize_trusted, loose) (stay Q s.boundary.permits)
        | inl sealed ↦ elim (Bool-cases (uses_structured_context a.request)) [
          | inr flat ↦ rw (authorize_trusted, sealed, flat) (stay Q s.boundary.permits)
          | inl structured ↦
              rw (authorize_trusted, sealed, structured)
                (authorize_resolved-Leads a.request a.workload_binding execution 0 s)
        ]
      ]

record_revocation-permits :
    (written : Bool) (r : Record) (now : Time) (s : RouterState)
    → (record_revocation written r now s).0.boundary ≡ s.boundary
unfolding record_revocation
record_revocation-permits written r now s = if_boundary s _ _ _ refl refl

pub revoke_permit-Leads :
    (written : Bool) (id : Bytes) (now : Time) (s : RouterState)
    → (revoke_permit written id now s).0.boundary.permits
      ≡ run (revokes id now ∷ []) s.boundary.permits
unfolding revoke_permit step run
revoke_permit-Leads written id now s = elim (Result-cases ((revoke id now s.boundary.permits).2)) [
  | inr (e, refused) ↦ rw (revoke_permit, refused) refl
  | inl (_, done) ↦
      rw
        (
          revoke_permit,
          done,
          record_revocation-permits written (revoke id now s.boundary.permits).1 now
              (with_store s (revoke id now s.boundary.permits).0),
        )
        refl
]

pub record_stopped-permits :
    (written : Bytes → Bool) (key : AuthorityKey) (st : AuthorityState) (now : Time)
    (rs : List Record) (s : RouterState)
    → (record_stopped written key st now rs s).0.boundary ≡ s.boundary
unfolding record_stopped
record_stopped-permits written key st now [] s = refl
record_stopped-permits written key st now (r ∷ rs) s =
    if_boundary s (is_stopped key st r) _ _
      (record_stopped-permits written key st now rs _
        ∙ record_revocation-permits (written r.claims.permit_id) r now s)
      (record_stopped-permits written key st now rs s)

-- The transition of a domain, and the listing that follows when it succeeds
abbrev pub IsTransition : AuthorityKey → Bool → Time → List Call → Type 0
IsTransition key on now cs =
    (cs ≡ transitions key on now ∷ []) ⊎ (cs ≡ transitions key on now ∷ lists now ∷ [])

pub set_authority-Leads :
    (written : Bytes → Bool) (key : AuthorityKey) (on : Bool) (now : Time) (s : RouterState)
    → (cs : List Call) × ((set_authority written key on now s).0.boundary.permits
        ≡ run cs s.boundary.permits)
      × IsTransition key on now cs
unfolding set_authority step run
set_authority-Leads written key on now s =
    let answer = set_authority_enabled key on now s.boundary.permits in
    elim (Result-cases answer.1) [
      | inr (e, refused) ↦ (transitions key on now ∷ [], rw (set_authority, refused) refl, inl refl)
      | inl (st, done) ↦ (
        transitions key on now ∷ lists now ∷ [],
        rw
            (
              set_authority,
              done,
              record_stopped-permits written key st now (list now answer.0).1
                  (with_store s (list now answer.0).0),
            )
            refl,
        inr refl,
      )
    ]
