-- ===== src/Router/Reaching.antt =====
-- What the issuer and the verifier do to the permit store of internal/permit/store.go: a sequence of its
-- calls.
use aegis_router.Base.{
  ◌≡◌, refl, List, [], ◌∷◌, ◌++◌, ok, err, inl, inr, Option-cases, Result-cases, Bool-cases, arith,
  ◌!=◌, All, Bool, false, ◌⊎◌, ap, some, sym, ◌∙◌,
}
use aegis_router.Text.{Bytes, bytes_eq}
use aegis_router.Time.{Time}
use aegis_router.Permit.Claims.{Claims, Class, class_eq, execution, simulation}
use aegis_router.Permit.Store.{Store, register}
use aegis_router.Permit.Store.Steps.{Call, registers, gets, consumes, revokes, step, run}
use aegis_router.Permit.Issuer.{
  Surroundings, IssueRequest, IssuedPermit, claims_for, prepare, issue,
}
use aegis_router.Permit.Issuer.Registers.{prepare_checks}
use aegis_router.Action.{Action}
use aegis_router.Verifier.{
  Settings, Boundary, Verification, Presented, inspect_permit, inspect_claims, read_permit,
  verify_execution_proof, prove_execution, spend_nonce, check_proof, consume_inspected,
  verify_execution_and_consume, verify_simulation_and_consume, check_execution, with_permits,
  if_verified, is_verified_outcome, bind_action, consume_time,
}

-- A store that calls of one kind lead to.
abbrev pub Reaches : (Call → Type 0) → Store → Store → Type 0
Reaches Q s t = (cs : List Call) × (t ≡ run cs s) × All Q cs

pub stay : (Q : Call → Type 0) (s : Store) → Reaches Q s s
unfolding run
stay Q s = ([], refl, tt)

pub run-append : (cs ds : List Call) (s : Store) → run (cs ++ ds) s ≡ run ds (run cs s)
unfolding run
run-append [] ds s = refl
run-append (c ∷ cs) ds s = run-append cs ds (step c s)

All-append : (Q : Call → Type 0) (cs ds : List Call) → All Q cs → All Q ds → All Q (cs ++ ds)
All-append Q [] ds h k = k
All-append Q (c ∷ cs) ds (q, h) k = (q, All-append Q cs ds h k)

pub Reaches-trans :
    (Q : Call → Type 0) (s t u : Store) → Reaches Q s t → Reaches Q t u → Reaches Q s u
Reaches-trans Q s t u (cs, e, a) (ds, f, b) =
    (cs ++ ds, rw (f, e, run-append cs ds s) refl, All-append Q cs ds a b)

pub call : (Q : Call → Type 0) (c : Call) (s : Store) → Q c → Reaches Q s (step c s)
unfolding run
call Q c s q = (c ∷ [], refl, (q, tt))

-- The call for a permit of the class, or the one that takes a permit back where the audit was not written
abbrev pub IsIssuance : Bool → Time → Class → Call → Type 0
IsIssuance written at class made =
    ((c : Claims) × (c.permit_class ≡ class) × (made ≡ registers c))
    ⊎ ((id : Bytes) × (written ≡ false) × (made ≡ revokes id at))

-- A call of Get, at the time, for the permit that the token names
abbrev pub IsInspection : Settings → Bytes → Time → Call → Type 0
IsInspection v token now made =
    (c : Claims) × (read_permit v token ≡ ok c) × (made ≡ gets c.permit_id now)

-- Such a call, or one of Consume for that permit
abbrev pub IsPresentation : Settings → Bytes → Time → Call → Type 0
IsPresentation v token now made =
    (c : Claims) × (read_permit v token ≡ ok c)
    × ((made ≡ gets c.permit_id now) ⊎ ((at : Time) × (made ≡ consumes c.permit_id at)))

issue_class :
    (d : _) (json : _) (name : Bytes) (around : Surroundings) (q : IssueRequest) (p : IssuedPermit)
    → prepare d json name around q ≡ ok p
    → p.claims.permit_class ≡ q.permit_class
unfolding claims_for
issue_class d json name around q p h =
    let (key, _, _, _, _, same, _) = prepare_checks d json name around q p h in
    ap (λ c. c.permit_class) same

pub issue-Reaches :
    (Q : Call → Type 0) (d : _) (json : _) (name : Bytes) (around : Surroundings) (q : IssueRequest)
    (s : Store)
    → ((c : Claims) → c.permit_class ≡ q.permit_class → Q (registers c))
    → Reaches Q s (issue d json name around q s).0
unfolding issue register step
issue-Reaches Q d json name around q s made = elim (Result-cases (prepare d json name around q)) [
  | inr (e, failed) ↦ rw (issue, failed) (stay Q s)
  | inl (p, done) ↦
      rw (issue, done)
        (call Q (registers p.claims) s (made p.claims (issue_class d json name around q p done)))
]

inspect_claims-Reaches :
    (Q : Call → Type 0) (v : Settings) (c : Claims) (class : Class) (now : Time) (s : Store)
    → Q (gets c.permit_id now)
    → Reaches Q s (inspect_claims v c class now s).0
unfolding inspect_claims step
inspect_claims-Reaches Q v c class now s made = elim (Bool-cases (c.permit_class != class)) [
  | inl other ↦ rw (inspect_claims, other) (stay Q s)
  | inr same ↦ elim (Bool-cases (c.issuer != v.expected_issuer)) [
    | inl foreign ↦ rw (inspect_claims, same, foreign) (stay Q s)
    | inr own ↦ rw (inspect_claims, same, own) (call Q (gets c.permit_id now) s made)
  ]
]

inspect_permit-Reaches :
    (Q : Call → Type 0) (v : Settings) (token : Bytes) (class : Class) (now : Time) (s : Store)
    → ((c : Claims) → read_permit v token ≡ ok c → Q (gets c.permit_id now))
    → Reaches Q s (inspect_permit v token class now s).0
unfolding inspect_permit
inspect_permit-Reaches Q v token class now s made = elim (Result-cases (read_permit v token)) [
  | inr (o, unread) ↦ rw (inspect_permit, unread) (stay Q s)
  | inl (c, read) ↦
      rw (inspect_permit, read) (inspect_claims-Reaches Q v c class now s (made c read))
]

inspect_claims-claims :
    (v : Settings) (c : Claims) (class : Class) (now : Time) (s : Store)
    → (inspect_claims v c class now s).1.claims ≡ some c
unfolding inspect_claims
inspect_claims-claims v c class now s = ground arith

inspect_permit-claims :
    (v : Settings) (token : Bytes) (class : Class) (now : Time) (s : Store) (c : Claims)
    → (inspect_permit v token class now s).1.claims ≡ some c
    → read_permit v token ≡ ok c
unfolding inspect_permit
inspect_permit-claims v token class now s c h = elim (Result-cases (read_permit v token)) [
  | inr (o, unread) ↦ absurd (cc (rw (inspect_permit, unread) at h))
  | inl (x, read) ↦ cc (read, inspect_claims-claims v x class now s, rw (inspect_permit, read) at h)
]

-- `if_verified` leads where its continuation does.
if_verified-Reaches :
    (Q : Call → Type 0) (s : Store) (b : Boundary) (r : Verification)
    (next : Claims → Boundary × Verification)
    → Reaches Q s b.permits
    → ((c : Claims) → r.claims ≡ some c → Reaches Q s (next c).0.permits)
    → Reaches Q s (if_verified b r next).0.permits
if_verified-Reaches Q s b r next here there = elim (Bool-cases (is_verified_outcome r.outcome)) [
  | inr settled ↦ rw settled here
  | inl good ↦ elim (Option-cases r.claims) [
    | inl missing ↦ rw (good, missing) here
    | inr (c, found) ↦ rw (good, found) (there c found)
  ]
]

if_verified-claims :
    (b : Boundary) (r : Verification) (next : Claims → Boundary × Verification)
    → ((c : Claims) → (next c).1.claims ≡ r.claims)
    → (if_verified b r next).1.claims ≡ r.claims
if_verified-claims b r next kept = elim (Bool-cases (is_verified_outcome r.outcome)) [
  | inr settled ↦ rw settled refl
  | inl good ↦ elim (Option-cases r.claims) [
    | inl missing ↦ rw (good, missing) missing
    | inr (c, found) ↦ rw (good, found) (kept c ∙ found)
  ]
]

spend_nonce-permits :
    (v : Settings) (c : Claims) (a : Action) (found : _) (r : Verification) (b : Boundary)
    → ((spend_nonce v c a found r b).0.permits ≡ b.permits)
      × ((spend_nonce v c a found r b).1.claims ≡ r.claims)
unfolding spend_nonce
spend_nonce-permits v c a (key, proof) r b = (ground arith, ground arith)

prove_execution-permits :
    (v : Settings) (p : Presented) (now : Time) (c : Claims) (r : Verification) (b : Boundary)
    → ((prove_execution v p now c r b).0.permits ≡ b.permits)
      × ((prove_execution v p now c r b).1.claims ≡ r.claims)
unfolding prove_execution
prove_execution-permits v p now c r b =
    elim (Result-cases (check_proof v b.workload_keys c p now)) [
      | inr (o, failed) ↦ rw (prove_execution, failed) (refl, refl)
      | inl (found, passed) ↦
          rw (prove_execution, passed) (spend_nonce-permits v c p.action found r b)
    ]

module _ (v : Settings) where
  inspection :
      (token : Bytes) (now : Time) (c : Claims)
      → read_permit v token ≡ ok c
      → IsPresentation v token now (gets c.permit_id now)
  inspection token now c read = (c, read, inl refl)

  consumption :
      (token : Bytes) (now at : Time) (c : Claims)
      → read_permit v token ≡ ok c
      → IsPresentation v token now (consumes c.permit_id at)
  consumption token now at c read = (c, read, inr (at, refl))

  verify_execution_proof-Reaches :
      (p : Presented) (now : Time) (b : Boundary)
      → Reaches
          (IsPresentation v p.permit_token now)
          b.permits
          (verify_execution_proof v p now b).0.permits
  unfolding verify_execution_proof
  verify_execution_proof-Reaches p now b =
      let Q = IsPresentation v p.permit_token now in
      let seen = inspect_permit v p.permit_token execution now b.permits in
      let b' = with_permits b seen.0 in
      let here =
        inspect_permit-Reaches Q v p.permit_token execution now b.permits
          (inspection p.permit_token now) in
      if_verified-Reaches Q b.permits b' seen.1 (λ c. prove_execution v p now c seen.1 b') here
        (λ c _. rw ((prove_execution-permits v p now c seen.1 b').0) here)

  verify_execution_proof-claims :
      (p : Presented) (now : Time) (b : Boundary) (c : Claims)
      → (verify_execution_proof v p now b).1.claims ≡ some c
      → read_permit v p.permit_token ≡ ok c
  unfolding verify_execution_proof
  verify_execution_proof-claims p now b c h =
      let seen = inspect_permit v p.permit_token execution now b.permits in
      let b' = with_permits b seen.0 in
      let kept =
        if_verified-claims b' seen.1 (λ c. prove_execution v p now c seen.1 b')
          (λ c. (prove_execution-permits v p now c seen.1 b').1) in
      inspect_permit-claims v p.permit_token execution now b.permits c (sym kept ∙ h)

  consume_inspected-Reaches :
      (Q : Call → Type 0) (s : Store) (c : Claims) (r : Verification) (clock : Time) (b : Boundary)
      → Reaches Q s b.permits
      → ((at : Time) → Q (consumes c.permit_id at))
      → Reaches Q s (consume_inspected c r clock b).0.permits
  unfolding consume_inspected step
  consume_inspected-Reaches Q s c r clock b here made =
      Reaches-trans Q s b.permits (consume_inspected c r clock b).0.permits here
        (call Q (consumes c.permit_id (consume_time r.verified_at clock)) b.permits (made _))

  pub verify_execution-Reaches :
      (p : Presented) (now clock : Time) (b : Boundary)
      → Reaches
          (IsPresentation v p.permit_token now)
          b.permits
          (verify_execution_and_consume v p now clock b).0.permits
  unfolding verify_execution_and_consume
  verify_execution-Reaches p now clock b =
      let Q = IsPresentation v p.permit_token now in
      let proved = verify_execution_proof v p now b in
      let here = verify_execution_proof-Reaches p now b in
      if_verified-Reaches Q b.permits proved.0 proved.1
        (λ c. consume_inspected c proved.1 clock proved.0) here
        (λ c found. consume_inspected-Reaches Q b.permits c proved.1 clock proved.0 here (λ at.
          consumption p.permit_token now at c (verify_execution_proof-claims p now b c found)))

  -- The two methods that bind the action after the inspection.
  bound-Reaches :
      (Q : Call → Type 0) (s : Store) (a : Action) (c : Claims)
      (refused : _ → Boundary × Verification) (bound : Boundary × Verification)
      → ((o : _) → Reaches Q s (refused o).0.permits)
      → Reaches Q s bound.0.permits
      → Reaches Q s
          (elim (bind_action v a c) as (λ x. Boundary × Verification) [
            | err o ↦ refused o
            | ok _ ↦ bound
          ]).0.permits
  bound-Reaches Q s a c refused bound first second = elim (Result-cases (bind_action v a c)) [
    | inr (o, differs) ↦ rw differs (first o)
    | inl (_, agrees) ↦ rw agrees second
  ]

  pub verify_simulation-Reaches :
      (token : Bytes) (a : Action) (now clock : Time) (b : Boundary)
      → Reaches
          (IsPresentation v token now)
          b.permits
          (verify_simulation_and_consume v token a now clock b).0.permits
  unfolding verify_simulation_and_consume
  verify_simulation-Reaches token a now clock b =
      let Q = IsPresentation v token now in
      let seen = inspect_permit v token simulation now b.permits in
      let b' = with_permits b seen.0 in
      let here = inspect_permit-Reaches Q v token simulation now b.permits (inspection token now) in
      if_verified-Reaches Q b.permits b' seen.1 _ here (λ c found.
        bound-Reaches Q b.permits a c _ (consume_inspected c seen.1 clock b') (λ o. here)
          (consume_inspected-Reaches Q b.permits c seen.1 clock b' here (λ at.
            consumption token now at c
              (inspect_permit-claims v token simulation now b.permits c found))))

  pub check_execution-Reaches :
      (token : Bytes) (a : Action) (now : Time) (b : Boundary)
      → Reaches (IsInspection v token now) b.permits (check_execution v token a now b).0.permits
  unfolding check_execution
  check_execution-Reaches token a now b =
      let Q = IsInspection v token now in
      let seen = inspect_permit v token execution now b.permits in
      let b' = with_permits b seen.0 in
      let here =
        inspect_permit-Reaches Q v token execution now b.permits (λ c read. (c, read, refl)) in
      if_verified-Reaches Q b.permits b' seen.1 _ here
        (λ c _. bound-Reaches Q b.permits a c _ (b', _) (λ o. here) here)
