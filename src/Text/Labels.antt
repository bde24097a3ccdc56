-- ===== src/Text/Labels.antt =====
-- The label grammar [A-Za-z0-9._:-] of internal/keyprovider/keyprovider.go, and texts of it.
use aegis_router.Base.{
  ℕ, ◌≤◌, ◌<◌, ◌≡◌, refl, Bool, true, false, ◌||◌, [], ◌∷◌, ◌==◌, nat_eq, arith, In, inl, inr,
}
use aegis_router.Text.{
  Bytes, is_lower, is_upper, is_digit, all_bytes, utf8_from, utf8_next, lead, idle, utf8_valid,
  has_control_from, control_at, has_control,
}

unfoldable pub is_label_byte : ℕ → Bool
is_label_byte b =
    is_lower b || is_upper b || is_digit b || b == b'.' || b == b'_' || b == b':' || b == b'-'

-- Every byte of a label is a printable ASCII character.
pub label_byte_range : (b : ℕ) → is_label_byte b ≡ true → (0x2d ≤ b) × (b < 0x7b)
unfolding is_label_byte
label_byte_range b h = ground arith

utf8_next_ascii : (b : ℕ) → b < 0x80 → utf8_next idle b ≡ idle
unfolding utf8_next lead
utf8_next_ascii b h = ground arith

label-utf8_from : (s : Bytes) → all_bytes is_label_byte s ≡ true → utf8_from idle s ≡ true
unfolding utf8_from all_bytes
label-utf8_from [] h = ground arith
label-utf8_from (b ∷ s) h = ground (arith, label_byte_range b, utf8_next_ascii b, label-utf8_from s)

pub label-utf8_valid : (s : Bytes) → all_bytes is_label_byte s ≡ true → utf8_valid s ≡ true
unfolding utf8_valid
label-utf8_valid s h = label-utf8_from s h

control_at_label : (c : Bool) (b : ℕ) → is_label_byte b ≡ true → control_at c b ≡ false
unfolding control_at
control_at_label c b h = ground (arith, label_byte_range b)

label-has_control_from :
    (c : Bool) (s : Bytes) → all_bytes is_label_byte s ≡ true → has_control_from c s ≡ false
unfolding has_control_from all_bytes
label-has_control_from c [] h = refl
label-has_control_from c (b ∷ s) h =
    ground (arith, control_at_label c b, label-has_control_from (b == 0xc2) s)

pub label-has_control : (s : Bytes) → all_bytes is_label_byte s ≡ true → has_control s ≡ false
unfolding has_control
label-has_control s h = label-has_control_from false s h

-- No label holds a byte 0.
pub label_no_nul : (s : Bytes) → all_bytes is_label_byte s ≡ true → ¬ In 0 s
unfolding all_bytes
label_no_nul [] h m = m
label_no_nul (b ∷ s) h (inl e) = ground (arith, label_byte_range b)
label_no_nul (b ∷ s) h (inr m) = label_no_nul s (ground arith) m
