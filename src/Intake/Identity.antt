-- ===== src/Intake/Identity.antt =====
-- Whose request an intake of internal/intake authorizes.
use mathlib.Core.List.{Perm}
use aegis_router.Base.{
  ℕ, ◌≡◌, refl, Bool, true, false, List, [], ◌∷◌, ok, ◌⊎◌, inl, inr, arith, All, Bool-cases,
  Result-cases, subst, sym, ap,
}
use aegis_router.Text.{Bytes, bytes_eq, is_nonempty, split_on}
use aegis_router.Models.{
  Unicode, Request, uses_structured_context, effective_principal, effective_agent,
  effective_authority,
}
use aegis_router.Intake.{
  safe_label, IdentityContext, Authorization, with_identity, resolved, new_trusted_authorization,
  validate_binding,
}
use aegis_router.Intake.Headers.{
  Headers, single_header, strict_identity_header, is_hex_digest, read_identity, resolve_proxy,
  parse_delegated_scopes,
}
use aegis_router.Intake.Scopes.{trimmed, parse_delegated_scopes_ok}

-- The identity of a request is the one given, and what the request asks for is the proposal's.
pub record HasIdentity (proposal : Request) (i : IdentityContext) (r : Request) : Type 0 where
  pub principal : (effective_principal r).principal_id ≡ i.principal.principal_id
  pub agent : (effective_agent r).agent_id ≡ i.agent.agent_id
  -- A flat request names its agent as the workload, and carries no fingerprint.
  pub workload :
      ((uses_structured_context proposal ≡ true)
        × ((effective_agent r).workload_id ≡ i.agent.workload_id))
      ⊎ ((uses_structured_context proposal ≡ false)
          × ((effective_agent r).workload_id ≡ i.agent.agent_id))
  pub fingerprint :
      (uses_structured_context proposal ≡ false)
      ⊎ ((effective_authority r).credential_fingerprint ≡ i.authority.credential_fingerprint)
  pub scopes : (effective_authority r).scopes ≡ i.authority.scopes
  pub action : r.action ≡ proposal.action
  pub tool : r.tool ≡ proposal.tool

with_identity_structured :
    (proposal : Request) (i : IdentityContext)
    → uses_structured_context proposal ≡ true
    → is_nonempty i.principal.principal_id ≡ true
    → is_nonempty i.agent.agent_id ≡ true
    → is_nonempty i.authority.credential_fingerprint ≡ true
    → HasIdentity proposal i (with_identity proposal i)
unfolding with_identity effective_principal effective_agent effective_authority
with_identity_structured proposal i structured p g f = rw (with_identity, structured) (ground arith)

with_identity_flat :
    (proposal : Request) (i : IdentityContext)
    → uses_structured_context proposal ≡ false
    → HasIdentity proposal i (with_identity proposal i)
unfolding with_identity effective_principal effective_agent effective_authority
with_identity_flat proposal i flat = rw (with_identity, flat) (ground arith)

single_header_ok :
    (values : List Bytes) (limit : ℕ) (v : Bytes)
    → single_header values limit ≡ ok v
    → (values ≡ v ∷ []) × (is_nonempty v ≡ true)
unfolding single_header
single_header_ok [] limit v h = absurd (ground arith)
single_header_ok (w ∷ []) limit v h = ground arith
single_header_ok (w ∷ x ∷ ws) limit v h = absurd (ground arith)

strict_identity_header_ok :
    (u : Unicode) (values : List Bytes) (v : Bytes)
    → strict_identity_header u values ≡ ok v
    → (values ≡ v ∷ []) × (safe_label v ≡ true)
unfolding strict_identity_header
strict_identity_header_ok u values v h = elim (Result-cases (single_header values 128)) [
  | inr (e, failed) ↦ absurd (ground arith)
  | inl (w, read) ↦
      let (alone, _) = single_header_ok values 128 w read in ground (arith, alone, read)
]

safe_label_nonempty : (s : Bytes) → safe_label s ≡ true → is_nonempty s ≡ true
unfolding safe_label
safe_label_nonempty [] h = absurd (ground arith)
safe_label_nonempty (b ∷ s) h = refl

-- What the headers say, each in one value
pub record IsAsserted (h : Headers) (i : IdentityContext) : Type 0 where
  pub principal : h.principal ≡ i.principal.principal_id ∷ []
  pub principal_label : safe_label i.principal.principal_id ≡ true
  pub agent : h.agent_id ≡ i.agent.agent_id ∷ []
  pub agent_label : safe_label i.agent.agent_id ≡ true
  pub workload : h.workload_id ≡ i.agent.workload_id ∷ []
  pub workload_label : safe_label i.agent.workload_id ≡ true
  pub scopes :
      (value : Bytes) × (h.scopes ≡ value ∷ [])
      × Perm i.authority.scopes (trimmed (split_on b',' value))
      × All (λ s. safe_label s ≡ true) (trimmed (split_on b',' value))
  pub fingerprint : h.fingerprint ≡ i.authority.credential_fingerprint ∷ []
  pub digest : is_hex_digest i.authority.credential_fingerprint ≡ true
  pub key : h.workload_key_id ≡ i.workload_binding.key_id ∷ []
  pub print : h.workload_key_thumbprint ≡ i.workload_binding.public_key_thumbprint ∷ []
  pub binding : validate_binding i.workload_binding ≡ ok tt

read_identity_ok :
    (u : Unicode) (provider_id : Bytes) (h : Headers) (i : IdentityContext)
    → read_identity u provider_id h ≡ ok i
    → (strict_identity_header u h.principal ≡ ok i.principal.principal_id)
      × (strict_identity_header u h.agent_id ≡ ok i.agent.agent_id)
      × (strict_identity_header u h.workload_id ≡ ok i.agent.workload_id)
      × (single_header h.fingerprint 64 ≡ ok i.authority.credential_fingerprint)
      × (is_hex_digest i.authority.credential_fingerprint ≡ true)
      × (strict_identity_header u h.workload_key_id ≡ ok i.workload_binding.key_id)
      × (validate_binding i.workload_binding ≡ ok tt)
      × (single_header h.workload_key_thumbprint 71 ≡ ok i.workload_binding.public_key_thumbprint)
unfolding read_identity
read_identity_ok u provider_id h i e = ground arith

read_identity_scopes :
    (u : Unicode) (provider_id : Bytes) (h : Headers) (i : IdentityContext)
    → read_identity u provider_id h ≡ ok i
    → (value : Bytes) × (single_header h.scopes 4096 ≡ ok value)
      × (parse_delegated_scopes value ≡ ok i.authority.scopes)
unfolding read_identity
read_identity_scopes u provider_id h i e = elim (Result-cases (single_header h.scopes 4096)) [
  | inr (x, failed) ↦ absurd (ground arith)
  | inl (value, read) ↦ (value, read, ground arith)
]

resolve_proxy_ok :
    (u : Unicode) (provider_id : Bytes) (is_trusted : Bool) (h : Headers) (proposal : Request)
    (a : Authorization)
    → resolve_proxy u provider_id is_trusted h proposal ≡ ok a
    → (is_trusted ≡ true)
      × (i : IdentityContext) × (read_identity u provider_id h ≡ ok i)
      × (a ≡ resolved proposal i)
unfolding resolve_proxy new_trusted_authorization
resolve_proxy_ok u provider_id is_trusted h proposal a e =
    elim (Result-cases (read_identity u provider_id h)) [
      | inr (x, failed) ↦ absurd (ground arith)
      | inl (i, read) ↦ (ground arith, i, read, ground arith)
    ]

-- A request that the trusted proxy resolves came from a trusted peer and has the principal, the
-- agent and the scopes of the identity, with the action and the tool of the proposal; in the
-- structured shape it has the workload and the fingerprint of the identity too, and in the flat
-- one its workload is the agent. The identity repeats the single headers for the principal, the
-- agent, the workload, the fingerprint and the workload key with its thumbprint, in their formats;
-- its scopes are the trimmed parts of the single scope header, each as often as there; and its
-- workload binding is that of the authorization.
pub proxy-HasIdentity :
    (u : Unicode) (provider_id : Bytes) (is_trusted : Bool) (h : Headers) (proposal : Request)
    (a : Authorization)
    → resolve_proxy u provider_id is_trusted h proposal ≡ ok a
    → (is_trusted ≡ true)
      × (i : IdentityContext) × IsAsserted h i
      × HasIdentity proposal i a.request
      × (a.workload_binding ≡ i.workload_binding)
unfolding resolved
proxy-HasIdentity u provider_id is_trusted h proposal a e =
    let (trusted, i, read, same) = resolve_proxy_ok u provider_id is_trusted h proposal a e in
    let (principal, agent, workload, print, digest, key, binding, key_print) =
      read_identity_ok u provider_id h i read in
    let (one, label) = strict_identity_header_ok u h.principal i.principal.principal_id principal in
    let (two, label_two) = strict_identity_header_ok u h.agent_id i.agent.agent_id agent in
    let (three, label_three) =
      strict_identity_header_ok u h.workload_id i.agent.workload_id workload in
    let (four, given) =
      single_header_ok h.fingerprint 64 i.authority.credential_fingerprint print in
    let (five, _) = strict_identity_header_ok u h.workload_key_id i.workload_binding.key_id key in
    let (six, _) =
      single_header_ok h.workload_key_thumbprint 71 i.workload_binding.public_key_thumbprint
        key_print in
    let (value, held, parsed) = read_identity_scopes u provider_id h i read in
    let (seven, _) = single_header_ok h.scopes 4096 value held in
    let (listed, labels) = parse_delegated_scopes_ok value i.authority.scopes parsed in
    (
      trusted,
      i,
      record {
        principal = one;
        principal_label = label;
        agent = two;
        agent_label = label_two;
        workload = three;
        workload_label = label_three;
        scopes = (value, seven, listed, labels);
        fingerprint = four;
        digest = digest;
        key = five;
        print = six;
        binding = binding;
      },
      subst (λ x. HasIdentity proposal i x.request) (sym same)
          (elim (Bool-cases (uses_structured_context proposal)) [
            | inr flat ↦ with_identity_flat proposal i flat
            | inl structured ↦
                with_identity_structured proposal i structured
                  (safe_label_nonempty i.principal.principal_id label)
                  (safe_label_nonempty i.agent.agent_id label_two) given
          ]),
      ap (λ x. x.workload_binding) same,
    )
