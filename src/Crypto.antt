-- ===== src/Crypto.antt =====
-- What the program takes from crypto/ed25519, crypto/sha256, encoding/base64 and the strict JSON
-- check, as operations that the definitions take; and the laws that they are documented to have.
use aegis_router.Base.{ℕ, ◌≡◌, Bool, true, Option, some, In, length}
use aegis_router.Text.{Bytes, is_nonempty}

pub record Codec : Type 0 where
  -- ed25519.Sign(private, message), ed25519.Verify(public, message, signature), private.Public()
  pub sign : Bytes → Bytes → Bytes
  pub verify : Bytes → Bytes → Bytes → Bool
  pub public_of : Bytes → Bytes
  -- sha256.Sum256
  pub sha256 : Bytes → Bytes
  -- base64.RawURLEncoding, and its Strict form
  pub encode64 : Bytes → Bytes
  pub decode64 : Bytes → Option Bytes
  pub decode64_strict : Bytes → Option Bytes
  -- whether canonicalaction.CanonicalizeJSON returns no error
  pub is_strict_json : Bytes → Bool

-- ed25519.PrivateKeySize, PublicKeySize and SignatureSize
abbrev pub private_key_size : ℕ
private_key_size = 64

abbrev pub public_key_size : ℕ
public_key_size = 32

abbrev pub signature_size : ℕ
signature_size = 64

pub record IsLawful (lib : Codec) : Type 0 where
  pub verify-sign :
      (key m : Bytes)
      → length key ≡ private_key_size
      → lib.verify (lib.public_of key) m (lib.sign key m) ≡ true
  pub length-sign : (key m : Bytes) → length (lib.sign key m) ≡ signature_size
  pub length-public_of :
      (key : Bytes) → length key ≡ private_key_size → length (lib.public_of key) ≡ public_key_size
  pub decode64-encode64 : (s : Bytes) → lib.decode64 (lib.encode64 s) ≡ some s
  -- The alphabet has no full stop.
  pub encode64_no_dot : (s : Bytes) → ¬ In b'.' (lib.encode64 s)
  -- No text but the empty one has the empty encoding.
  pub encode64_nonempty : (s : Bytes) → is_nonempty s ≡ true → is_nonempty (lib.encode64 s) ≡ true
