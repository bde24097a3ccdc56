-- ===== src/Permit/Token/RoundTrip.antt =====
-- Tokens of internal/permit/token.go, made by SignToken and read by VerifyToken and TokenKeyID.
use mathlib.Core.List.{append_assoc}
use aegis_router.Base.{
  ◌≡◌, ◌≤◌, refl, true, false, nat_eq, bool_eq, [], ◌∷◌, ◌++◌, some, arith, ltb, length, ok,
  if◌then◌else◌, In, subst,
}
use aegis_router.Base.Int.{ℤ, pos, int_eq}
use aegis_router.Text.{Bytes, bytes_eq, is_nonempty, split_on}
use aegis_router.Text.Splitting.{split_on_absent, split_on-append}
use aegis_router.Crypto.{Codec, IsLawful, private_key_size, signature_size}
use aegis_router.KeyProvider.{valid_key_id}
use aegis_router.Permit.Claims.{Claims, validate}
use aegis_router.Permit.Token.{
  TokenHeader, PermitJson, compact_header, signing_input, Parts, three_parts, token_parts,
  supported, sign_token, read_claims, verify_token, token_key_id, max_compact_bytes,
}

-- json.Marshal and the strict decoder agree on the headers of a valid key identifier and on valid
-- claims, whose texts are UTF-8; and what Marshal writes of them is strict.
pub record IsFaithful (lib : Codec) (json : PermitJson) : Type 0 where
  pub header_back :
      (v : ℤ) (key : Bytes)
      → valid_key_id key ≡ true
      → json.decode_header (json.encode_header (compact_header v key)) ≡ some (compact_header v key)
  pub claims_back :
      (c : Claims) → validate c ≡ ok tt → json.decode_claims (json.encode_claims c) ≡ some c
  pub header_strict :
      (v : ℤ) (key : Bytes)
      → valid_key_id key ≡ true
      → lib.is_strict_json (json.encode_header (compact_header v key)) ≡ true
  pub claims_strict :
      (c : Claims) → validate c ≡ ok tt → lib.is_strict_json (json.encode_claims c) ≡ true
  pub header_text : (h : TokenHeader) → is_nonempty (json.encode_header h) ≡ true
  pub claims_text : (c : Claims) → is_nonempty (json.encode_claims c) ≡ true

split_three :
    (a b c : Bytes)
    → ¬ In b'.' a
    → ¬ In b'.' b
    → ¬ In b'.' c
    → split_on b'.' (signing_input a b ++ b'.' ∷ c) ≡ a ∷ b ∷ c ∷ []
split_three a b c ha hb hc = rw (append_assoc a (b'.' ∷ b) (b'.' ∷ c)) (
    rw (
      split_on-append b'.' a (b ++ b'.' ∷ c) ha,
      split_on-append b'.' b c hb,
      split_on_absent b'.' c hc,
    ))

nonempty_of_length : (s : Bytes) → length s ≡ signature_size → is_nonempty s ≡ true
nonempty_of_length [] h = absurd (omega (arith, h))
nonempty_of_length (b ∷ s) h = refl

three_parts_nonempty :
    (a b c : Bytes)
    → is_nonempty a ≡ true
    → is_nonempty b ≡ true
    → is_nonempty c ≡ true
    → three_parts (a ∷ b ∷ c ∷ [])
      ≡ some (record { header_part = a; claims_part = b; signature_part = c })
unfolding three_parts
three_parts_nonempty a b c ha hb hc = ground arith

token_parts_joined :
    (a b c : Bytes)
    → ¬ In b'.' a
    → ¬ In b'.' b
    → ¬ In b'.' c
    → is_nonempty a ≡ true
    → is_nonempty b ≡ true
    → is_nonempty c ≡ true
    → length (signing_input a b ++ b'.' ∷ c) ≤ max_compact_bytes
    → token_parts (signing_input a b ++ b'.' ∷ c)
      ≡ ok (record { header_part = a; claims_part = b; signature_part = c })
unfolding token_parts
token_parts_joined (x ∷ a) b c da db dc ha hb hc short = rw (split_three (x ∷ a) b c da db dc) (
    rw (three_parts_nonempty (x ∷ a) b c ha hb hc) (
      let room : ltb max_compact_bytes (length (signing_input (x ∷ a) b ++ b'.' ∷ c)) ≡ false =
        ground arith in
      rw room))
token_parts_joined [] b c da db dc ha hb hc short = absurd (cc ha)

abbrev version_of : Claims → ℤ
version_of c = if is_nonempty c.execution_binding then pos 2 else pos 1

-- What SignToken has checked when it returns a token, and the token.
module _ (lib : Codec) (json : PermitJson) where
  abbrev head : Bytes → Claims → Bytes
  head key_id c = lib.encode64 (json.encode_header (compact_header (version_of c) key_id))

  abbrev body : Claims → Bytes
  body c = lib.encode64 (json.encode_claims c)

  abbrev seal : Bytes → Bytes → Claims → Bytes
  seal key key_id c = lib.encode64 (lib.sign key (signing_input (head key_id c) (body c)))

  abbrev parts_of : Bytes → Bytes → Claims → Parts
  parts_of key key_id c = record {
    header_part = head key_id c;
    claims_part = body c;
    signature_part = seal key key_id c;
  }

  sign_token_checks :
      (key key_id : Bytes) (c : Claims) (token : Bytes)
      → sign_token lib json key key_id c ≡ ok token
      → (length key ≡ private_key_size)
        × (validate c ≡ ok tt)
        × (valid_key_id key_id ≡ true)
        × (c.signing_key_id ≡ key_id)
        × (token ≡ signing_input (head key_id c) (body c) ++ b'.' ∷ seal key key_id c)
  unfolding sign_token
  sign_token_checks key key_id c token h = ground arith

  supported_compact :
      (key_id : Bytes) (c : Claims)
      → valid_key_id key_id ≡ true
      → supported (compact_header (version_of c) key_id) ≡ true
  unfolding supported
  supported_compact key_id c h = ground arith

  token_parts_signed :
      IsLawful lib
      → IsFaithful lib json
      → (key key_id : Bytes) (c : Claims)
      → length (signing_input (head key_id c) (body c) ++ b'.' ∷ seal key key_id c)
        ≤ max_compact_bytes
      → token_parts (signing_input (head key_id c) (body c) ++ b'.' ∷ seal key key_id c)
        ≡ ok (parts_of key key_id c)
  token_parts_signed law faith key key_id c short =
      let header = json.encode_header (compact_header (version_of c) key_id) in
      let claims = json.encode_claims c in
      let input = signing_input (head key_id c) (body c) in
      let sealed = lib.sign key input in
      let sealed_length = law.length-sign key input in
      token_parts_joined (head key_id c) (body c) (seal key key_id c) (law.encode64_no_dot header)
        (law.encode64_no_dot claims) (law.encode64_no_dot sealed)
        (law.encode64_nonempty header (faith.header_text _))
        (law.encode64_nonempty claims (faith.claims_text c))
        (law.encode64_nonempty sealed (nonempty_of_length sealed sealed_length)) short

  read_claims_signed :
      IsLawful lib
      → IsFaithful lib json
      → (key key_id : Bytes) (c : Claims) → validate c ≡ ok tt
      → valid_key_id key_id ≡ true
      → c.signing_key_id ≡ key_id
      → read_claims lib json (parts_of key key_id c) ≡ ok c
  unfolding read_claims
  read_claims_signed law faith key key_id c good label same =
      let header = compact_header (version_of c) key_id in
      ground (
        arith,
        law.decode64-encode64 (json.encode_header header),
        law.decode64-encode64 (json.encode_claims c),
        faith.header_strict (version_of c) key_id label,
        faith.claims_strict c good,
        faith.header_back (version_of c) key_id label,
        faith.claims_back c good,
        supported_compact key_id c label,
        good,
        same,
      )

  verify_token_parts :
      IsLawful lib
      → (key key_id : Bytes) (c : Claims) → length key ≡ private_key_size
      → token_parts (signing_input (head key_id c) (body c) ++ b'.' ∷ seal key key_id c)
        ≡ ok (parts_of key key_id c)
      → read_claims lib json (parts_of key key_id c) ≡ ok c
      → verify_token lib json
          (lib.public_of key)
          (signing_input (head key_id c) (body c) ++ b'.' ∷ seal key key_id c)
        ≡ ok c
  unfolding verify_token
  verify_token_parts law key key_id c size parts claims =
      let input = signing_input (head key_id c) (body c) in
      ground (
        arith,
        parts,
        claims,
        law.length-public_of key size,
        law.decode64-encode64 (lib.sign key input),
        law.length-sign key input,
        law.verify-sign key input size,
      )

  token_key_id_parts :
      IsLawful lib
      → IsFaithful lib json
      → (key key_id : Bytes) (c : Claims) → valid_key_id key_id ≡ true
      → token_parts (signing_input (head key_id c) (body c) ++ b'.' ∷ seal key key_id c)
        ≡ ok (parts_of key key_id c)
      → token_key_id lib json (signing_input (head key_id c) (body c) ++ b'.' ∷ seal key key_id c)
        ≡ ok key_id
  unfolding token_key_id
  token_key_id_parts law faith key key_id c label parts =
      let header = compact_header (version_of c) key_id in
      ground (
        arith,
        parts,
        law.decode64-encode64 (json.encode_header header),
        faith.header_strict (version_of c) key_id label,
        faith.header_back (version_of c) key_id label,
        supported_compact key_id c label,
      )

  -- Under lawful codecs, VerifyToken with the public key gives the claims back from the token that
  -- SignToken made from them, if the token is within the size limit.
  pub verify_token-sign_token :
      IsLawful lib
      → IsFaithful lib json
      → (key key_id : Bytes) (c : Claims) (token : Bytes)
      → sign_token lib json key key_id c ≡ ok token
      → length token ≤ max_compact_bytes
      → verify_token lib json (lib.public_of key) token ≡ ok c
  verify_token-sign_token law faith key key_id c token signed short =
      let (size, good, label, same, made) = sign_token_checks key key_id c token signed in
      rw made (
        verify_token_parts law key key_id c size
          (token_parts_signed law faith key key_id c
            (subst (λ t. length t ≤ max_compact_bytes) made short))
          (read_claims_signed law faith key key_id c good label same))

  -- Under lawful codecs, TokenKeyID reads from a token that SignToken made, within the size limit,
  -- the identifier of the signing key.
  pub token_key_id-sign_token :
      IsLawful lib
      → IsFaithful lib json
      → (key key_id : Bytes) (c : Claims) (token : Bytes)
      → sign_token lib json key key_id c ≡ ok token
      → length token ≤ max_compact_bytes
      → token_key_id lib json token ≡ ok key_id
  token_key_id-sign_token law faith key key_id c token signed short =
      let (size, good, label, same, made) = sign_token_checks key key_id c token signed in
      rw made (
        token_key_id_parts law faith key key_id c label (
          token_parts_signed law faith key key_id c
            (subst (λ t. length t ≤ max_compact_bytes) made short)))
