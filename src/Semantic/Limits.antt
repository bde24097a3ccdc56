-- ===== src/Semantic/Limits.antt =====
-- What the profiles of internal/semanticaction/payment_send_v1.go and workspace_write_v1.go let through.
use aegis_router.Base.{
  ℕ, ◌≡◌, ◌≤◌, true, false, arith, List, [], ◌∷◌, some, Result, ok, inl, inr, ◌⊎◌, ◌==◌, In, All,
  contains, contains_iff, length, Option-cases, Result-cases, Bool-cases, nat_eq, ◌||◌, ◌≢◌, subst,
}
use aegis_router.Base.Int.{ℤ, pos, leb_ℤ, ltb_ℤ, ◌≤ℤ◌, ◌<ℤ◌}
use aegis_router.Base.Dict.{lookup, insert, lookup-insert}
use aegis_router.Text.{
  Bytes, str, bytes_eq, utf8_valid, has_control, has_prefix, split_on, is_lower, is_upper,
}
use aegis_router.Semantic.{
  Input, Resolved, PaymentConfig, PaymentArguments, WorkspaceArguments, Library, ConfigError,
}
use aegis_router.Semantic.Payment.{
  PaymentProfile, add_currencies, add_recipients, new_payment, check_payment, parse_payment,
  resolve_payment,
}
use aegis_router.Semantic.Workspace.{
  WorkspaceProfile, has_drive, check_segments, check_path, parse_workspace, resolve_workspace,
}

-- The limits of the map come from the configuration, for listed currencies.
abbrev FromConfig : PaymentConfig → List (Bytes × ℤ) → Type 0
FromConfig c found =
    (currency : Bytes) (limit : ℤ)
    → lookup currency found ≡ some limit
    → (lookup currency c.max_amount_minor ≡ some limit) × (leb_ℤ limit (pos 0) ≡ false)

add_FromConfig :
    (c : PaymentConfig) (currency : Bytes) (limit : ℤ) (found : List (Bytes × ℤ))
    → FromConfig c found
    → lookup currency c.max_amount_minor ≡ some limit
    → leb_ℤ limit (pos 0) ≡ false
    → FromConfig c (insert currency limit found)
add_FromConfig c currency limit found keep configured positive other n here =
    elim (Bool-cases (currency == other)) [
      | inl same ↦ ground (arith, lookup-insert currency other limit found)
      | inr differs ↦ keep other n (ground (arith, lookup-insert currency other limit found))
    ]

add_currencies-FromConfig :
    (lib : Library) (c : PaymentConfig) (currencies : List Bytes) (found all : List (Bytes × ℤ))
    → FromConfig c found
    → add_currencies lib c currencies found ≡ ok all
    → FromConfig c all
unfolding add_currencies
add_currencies-FromConfig lib c [] found all keep h = subst (FromConfig c) (ok_injective h) keep
  where
    ok_injective : ◌≡◌ {A = Result ConfigError (List (Bytes × ℤ))} (ok found) (ok all) → found ≡ all
    ok_injective h = ground arith
add_currencies-FromConfig lib c (currency ∷ rest) found all keep h =
    elim (Option-cases (lookup currency c.max_amount_minor)) [
      | inl missing ↦ absurd (ground arith)
      | inr (limit, configured) ↦
          add_currencies-FromConfig lib c rest (insert currency limit found) all
            (add_FromConfig c currency limit found keep configured (ground arith)) (ground arith)
    ]

add_recipients_sound :
    (lib : Library) (recipients found all : List Bytes) (r : Bytes)
    → add_recipients lib recipients found ≡ ok all
    → In r all
    → In r recipients ⊎ In r found
unfolding add_recipients
add_recipients_sound lib [] found all r h m = ground arith
add_recipients_sound lib (recipient ∷ rest) found all r h m =
    elim (add_recipients_sound lib rest (recipient ∷ found) all r (ground arith) m) [
      | inl later ↦ inl (inr later)
      | inr (inl here) ↦ inl (inl here)
      | inr (inr before) ↦ inr before
    ]

new_payment_parts :
    (lib : Library) (c : PaymentConfig) (p : PaymentProfile)
    → new_payment lib c ≡ ok p
    → (add_currencies lib c c.allowed_currencies [] ≡ ok p.currencies)
      × (add_recipients lib c.allowed_recipients [] ≡ ok p.recipients)
unfolding new_payment
new_payment_parts lib c p h = ground arith

parse_payment_checked :
    (lib : Library) (p : PaymentProfile) (raw : Bytes) (a : PaymentArguments)
    → parse_payment lib p raw ≡ ok a
    → check_payment p a.amount_minor a.currency a.recipient ≡ ok a
unfolding parse_payment check_payment
parse_payment_checked lib p raw a h = ground arith

resolve_payment_parts :
    (lib : Library) (p : PaymentProfile) (input : Input) (resolved : Resolved)
    → resolve_payment lib p input ≡ ok resolved
    → (a : PaymentArguments) × (parse_payment lib p input.arguments ≡ ok a)
      × (resolved.normalized_arguments ≡ lib.encode_payment a)
unfolding resolve_payment
resolve_payment_parts lib p input resolved h =
    elim (Result-cases (parse_payment lib p input.arguments)) [
      | inr (e, failed) ↦ absurd (ground arith)
      | inl (a, parsed) ↦ (a, parsed, ground arith)
    ]

check_payment_sound :
    (p : PaymentProfile) (amount : ℤ) (currency recipient : Bytes) (a : PaymentArguments)
    → check_payment p amount currency recipient ≡ ok a
    → (limit : ℤ) × (lookup currency p.currencies ≡ some limit)
      × (leb_ℤ amount (pos 0) ≡ false)
      × (ltb_ℤ limit amount ≡ false)
      × (contains p.recipients recipient ≡ true)
unfolding check_payment
check_payment_sound p amount currency recipient a h =
    elim (Option-cases (lookup currency p.currencies)) [
      | inl missing ↦ absurd (ground arith)
      | inr (limit, found) ↦ (limit, found, ground arith, ground arith, ground arith)
    ]

-- The payment that the profile resolves to.
abbrev pub IsPermittedPayment : PaymentConfig → PaymentArguments → Type 0
IsPermittedPayment c a =
    (limit : ℤ) × (lookup a.currency c.max_amount_minor ≡ some limit)
    × (pos 0 <ℤ a.amount_minor)
    × (a.amount_minor ≤ℤ limit)
    × In a.recipient c.allowed_recipients

-- If a profile was built from a configuration, every payment that it resolves is the encoding of
-- arguments with a positive amount within the configured limit of their currency and a recipient
-- among the configured ones.
pub payment_bounded :
    (lib : Library) (c : PaymentConfig) (p : PaymentProfile) (input : Input) (resolved : Resolved)
    → new_payment lib c ≡ ok p
    → resolve_payment lib p input ≡ ok resolved
    → (a : PaymentArguments) × (resolved.normalized_arguments ≡ lib.encode_payment a)
      × IsPermittedPayment c a
unfolding lookup
payment_bounded lib c p input resolved built h =
    let (a, parsed, normalized) = resolve_payment_parts lib p input resolved h in
    let (currencies, recipients) = new_payment_parts lib c p built in
    let (limit, found, positive, within, known) =
      check_payment_sound p a.amount_minor a.currency a.recipient a
        (parse_payment_checked lib p input.arguments a parsed) in
    let (configured, _) =
      add_currencies-FromConfig lib c c.allowed_currencies [] p.currencies
        (λ currency n h. absurd (cc h)) currencies a.currency limit found in
    let listed =
      add_recipients_sound lib c.allowed_recipients [] p.recipients a.recipient recipients
        ((contains_iff p.recipients a.recipient).0 known) in
    (
      a,
      normalized,
      (
        limit,
        configured,
        ground (arith, positive),
        ground (arith, within),
        elim listed [ inl here ↦ here | inr nowhere ↦ absurd nowhere ],
      ),
    )

-- A relative path of proper segments within the limit.
pub record IsConfined (limit : ℕ) (path : Bytes) : Type 0 where
  pub nonempty : path ≢ []
  pub valid : utf8_valid path ≡ true
  pub short : length path ≤ limit
  pub relative : has_prefix (str "/") path ≡ false
  pub driveless :
      (letter : ℕ) (rest : Bytes)
      → path ≡ letter ∷ b':' ∷ rest
      → (is_lower letter || is_upper letter) ≡ false
  pub slashed : ¬ In b'\\' path
  pub printable : has_control path ≡ false
  pub segments :
      All (λ s. (s ≢ []) × (s ≢ str ".") × (s ≢ str "..") × (s ≢ str "~")) (split_on b'/' path)

check_segments_sound :
    (segments : List Bytes)
    → check_segments segments ≡ ok tt
    → All (λ s. (s ≢ []) × (s ≢ str ".") × (s ≢ str "..") × (s ≢ str "~")) segments
unfolding check_segments
check_segments_sound [] h = tt
check_segments_sound (segment ∷ rest) h = (ground arith, check_segments_sound rest (ground arith))

has_drive_lem :
    (path : Bytes) (letter : ℕ) (rest : Bytes)
    → has_drive path ≡ false
    → path ≡ letter ∷ b':' ∷ rest
    → (is_lower letter || is_upper letter) ≡ false
has_drive_lem path letter rest h same = ground (arith, subst (λ x. has_drive x ≡ false) same h)

check_path-has_drive :
    (p : WorkspaceProfile) (path : Bytes) → check_path p path ≡ ok tt → has_drive path ≡ false
unfolding check_path
check_path-has_drive p path h = ground arith

check_path_sound :
    (p : WorkspaceProfile) (path : Bytes)
    → check_path p path ≡ ok tt
    → IsConfined p.max_path_bytes path
unfolding check_path
check_path_sound p path h =
    let drive = λ (letter : ℕ) (rest : Bytes).
      has_drive_lem path letter rest (check_path-has_drive p path h) in
    ground (arith, check_segments_sound (split_on b'/' path), contains_iff path b'\\')

parse_workspace_checked :
    (lib : Library) (p : WorkspaceProfile) (raw : Bytes) (a : WorkspaceArguments)
    → parse_workspace lib p raw ≡ ok a
    → (check_path p a.path ≡ ok tt)
      × (utf8_valid a.content ≡ true)
      × (length a.content ≤ p.max_content_bytes)
unfolding parse_workspace
parse_workspace_checked lib p raw a h = ground arith

resolve_workspace_parts :
    (lib : Library) (p : WorkspaceProfile) (input : Input) (resolved : Resolved)
    → resolve_workspace lib p input ≡ ok resolved
    → (a : WorkspaceArguments) × (parse_workspace lib p input.arguments ≡ ok a)
      × (resolved.normalized_arguments ≡ lib.encode_workspace a)
      × (resolved.policy_facts.byte_count ≡ length a.content)
unfolding resolve_workspace
resolve_workspace_parts lib p input resolved h =
    elim (Result-cases (parse_workspace lib p input.arguments)) [
      | inr (e, failed) ↦ absurd (ground arith)
      | inl (a, parsed) ↦ (a, parsed, ground arith, ground arith)
    ]

-- Every write that a workspace profile resolves is the encoding of a valid content within the
-- limit, whose size is the reported number of bytes, and of a path that is not empty, is valid
-- UTF-8, keeps the limit, does not start with a slash, does not start with a letter and a colon,
-- has no backslash and no control character, and none of whose segments is empty, a dot, two dots
-- or a tilde.
pub workspace-IsConfined :
    (lib : Library) (p : WorkspaceProfile) (input : Input) (resolved : Resolved)
    → resolve_workspace lib p input ≡ ok resolved
    → (a : WorkspaceArguments) × (resolved.normalized_arguments ≡ lib.encode_workspace a)
      × IsConfined p.max_path_bytes a.path
      × (utf8_valid a.content ≡ true)
      × (length a.content ≤ p.max_content_bytes)
      × (resolved.policy_facts.byte_count ≡ length a.content)
workspace-IsConfined lib p input resolved h =
    let (a, parsed, normalized, counted) = resolve_workspace_parts lib p input resolved h in
    let (path, valid, short) = parse_workspace_checked lib p input.arguments a parsed in
    (a, normalized, check_path_sound p a.path path, valid, short, counted)
