-- ===== src/Intake/Headers.antt =====
-- internal/intake/trusted_proxy.go: the headers of an authenticated proxy.
use aegis_router.Base.{
  ℕ, Bool, not, ◌&&◌, ◌||◌, List, [], ◌∷◌, ltb, ◌==◌, ◌!=◌, nat_eq, length, contains, none, Result,
  ok, err, ◌>>=◌, ◌>>◌, reject_if, if◌then◌else◌,
}
use aegis_router.Text.{Bytes, str, bytes_eq, is_empty, split_on, all_bytes, is_digit, in_range}
use aegis_router.Models.{Unicode, Request}
use aegis_router.Permit.Store.{bytes_ltb}
use aegis_router.Intake.{
  safe_label, IdentityContext, Authorization, IntakeError, untrusted_peer, header_repeated,
  header_size, header_label, unfit_scopes, unfit_fingerprint, validate_binding,
  new_trusted_authorization,
}

-- The values of each header that Resolve reads
pub record Headers : Type 0 where
  pub principal : List Bytes
  pub agent_id : List Bytes
  pub workload_id : List Bytes
  pub scopes : List Bytes
  pub fingerprint : List Bytes
  pub workload_key_id : List Bytes
  pub workload_key_thumbprint : List Bytes

-- singleHeader
unfoldable pub single_header : List Bytes → ℕ → Result IntakeError Bytes
single_header (value ∷ []) limit =
    if is_empty value || ltb limit (length value) then err header_size else ok value
single_header _ limit = err header_repeated

-- strictIdentityHeader
unfoldable pub strict_identity_header : Unicode → List Bytes → Result IntakeError Bytes
strict_identity_header u values = do
  value ← single_header values 128
  reject_if (value != u.trim_space value || not (safe_label value)) header_label
  ok value

-- strings.Trim(part, " \t")
abbrev is_blank_byte : ℕ → Bool
is_blank_byte b = b == b' ' || b == 9

unfoldable pub trim_left : Bytes → Bytes
trim_left [] = []
trim_left (b ∷ s) = let rest = trim_left s in if is_blank_byte b then rest else b ∷ s

unfoldable pub trim_right : Bytes → Bytes
trim_right [] = []
trim_right (b ∷ s) =
    let rest = trim_right s in if is_blank_byte b && is_empty rest then [] else b ∷ rest

abbrev pub trim_blanks : Bytes → Bytes
trim_blanks s = trim_right (trim_left s)

-- The loop over the parts; the map `seen` holds the scopes of the result so far.
unfoldable pub add_scopes : List Bytes → List Bytes → Result IntakeError (List Bytes)
add_scopes [] found = ok found
add_scopes (part ∷ parts) found = do
  reject_if (not (safe_label (trim_blanks part))) unfit_scopes
  reject_if (contains found (trim_blanks part)) unfit_scopes
  add_scopes parts (trim_blanks part ∷ found)

-- sort.Strings
unfoldable pub place_text : Bytes → List Bytes → List Bytes
place_text s [] = s ∷ []
place_text s (t ∷ ts) = if bytes_ltb t s then t ∷ place_text s ts else s ∷ t ∷ ts

unfoldable pub sort_texts : List Bytes → List Bytes
sort_texts [] = []
sort_texts (s ∷ ss) = place_text s (sort_texts ss)

-- parseDelegatedScopes
unfoldable pub parse_delegated_scopes : Bytes → Result IntakeError (List Bytes)
parse_delegated_scopes value = do
  let parts = split_on b',' value
  reject_if (length parts == 0 || ltb 64 (length parts)) unfit_scopes
  found ← add_scopes parts []
  ok (sort_texts found)

-- ^[a-fA-F0-9]{64}$
unfoldable pub is_hex_digest : Bytes → Bool
is_hex_digest s =
    length s == 64 && all_bytes (λ b. is_digit b || in_range b'a' b'f' b || in_range b'A' b'F' b) s

-- The identity that TrustedProxy.Resolve reads from the headers
unfoldable pub read_identity : Unicode → Bytes → Headers → Result IntakeError IdentityContext
read_identity u provider_id h = do
  principal_id ← strict_identity_header u h.principal
  agent_id ← strict_identity_header u h.agent_id
  workload_id ← strict_identity_header u h.workload_id
  scopes_value ← single_header h.scopes 4096
  scopes ← parse_delegated_scopes scopes_value
  fingerprint ← single_header h.fingerprint 64
  reject_if (not (is_hex_digest fingerprint)) unfit_fingerprint
  key_id ← strict_identity_header u h.workload_key_id
  print ← single_header h.workload_key_thumbprint 71
  validate_binding (record { key_id = key_id; public_key_thumbprint = print })
  ok (record {
    principal = record {
      principal_id = principal_id;
      principal_type = str "human";
      tenant = [];
      environment = [];
      metadata = [];
    };
    agent = record {
      agent_id = agent_id;
      workload_id = workload_id;
      owner = [];
      environment = [];
      framework = [];
      version = [];
    };
    authority = record {
      credential_fingerprint = fingerprint;
      issuer = provider_id;
      scopes = scopes;
      subject = principal_id;
      expires_at = none;
    };
    workload_binding = record { key_id = key_id; public_key_thumbprint = print };
  })

-- TrustedProxy.Resolve; `is_trusted` is the test on the direct peer.
unfoldable pub resolve_proxy :
    Unicode → Bytes → Bool → Headers → Request → Result IntakeError Authorization
resolve_proxy u provider_id is_trusted h proposal = do
  reject_if (not is_trusted) untrusted_peer
  identity ← read_identity u provider_id h
  new_trusted_authorization u proposal identity provider_id
