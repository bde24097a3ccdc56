-- ===== src/KeyProvider.antt =====
-- internal/keyprovider/keyprovider.go: the key identifier grammar.
use aegis_router.Base.{Bool, false, ◌||◌, ltb, length, if◌then◌else◌}
use aegis_router.Text.{Bytes, is_empty, has_control, all_bytes}
use aegis_router.Text.Labels.{is_label_byte}

-- ErrInvalidKey, ErrInvalidKeyID and ErrUnknownKeyID
pub data KeyError : Type 0 where
  invalid_key invalid_key_id unknown_key_id : KeyError

-- ValidateKeyID, as the test that its error is nil
unfoldable pub valid_key_id : Bytes → Bool
unfolding has_control all_bytes is_label_byte
valid_key_id key_id =
    if is_empty key_id || ltb 128 (length key_id) || has_control key_id
    then false
    else all_bytes is_label_byte key_id
