-- ===== src/Text.antt =====
-- Go strings as byte sequences, with the tests of the standard library that the program uses:
-- utf8.ValidString, unicode.IsControl under strings.IndexFunc, and the anchored patterns of
-- internal/permit/claims.go and internal/canonicalaction/action.go.
pub mod Labels
pub mod Splitting
use Prim.Native.Char.{code}
use mathlib.Core.List.{reverse}
use aegis_router.Base.{
  ℕ, suc, zero, String, Bool, true, false, ◌&&◌, ◌||◌, List, [], ◌∷◌, leb, ltb, ◌==◌, Eq, nat_eq,
  map, ℕ_discrete, if◌then◌else◌, length,
}

abbrev pub Bytes : Type 0
Bytes = List ℕ

-- The bytes of an ASCII literal of the source.
abbrev pub str : String → Bytes
str String.[] = []
str (String.◌∷◌ c s) = code c ∷ str s

unfoldable pub Bytes-discrete : Discrete Bytes
unfolding ℕ_discrete
Bytes-discrete = hlevel ℕ_discrete

instance abbrev pub bytes_eq : Eq Bytes
bytes_eq = record { eq_dec = Bytes-discrete }

-- `s == ""`
abbrev pub is_empty : Bytes → Bool
is_empty [] = true
is_empty (b ∷ s) = false

abbrev pub is_nonempty : Bytes → Bool
is_nonempty [] = false
is_nonempty (b ∷ s) = true

abbrev pub in_range : ℕ → ℕ → ℕ → Bool
in_range lo hi b = leb lo b && leb b hi

-- What a lead byte asks of the bytes after it: how many, and the range of the next.
pub record Expect : Type 0 where
  pub pending : ℕ
  pub lo : ℕ
  pub hi : ℕ

abbrev pub expect : ℕ → ℕ → ℕ → Expect
expect n a b = record { pending = n; lo = a; hi = b }

abbrev pub idle : Expect
idle = expect 0 0x80 0xbf

-- A byte that no sequence accepts leaves an expectation that no byte meets.
abbrev pub refuse : Expect
refuse = expect 1 1 0

lead : ℕ → Expect
lead b =
    if ltb b 0x80
    then idle
    else if in_range 0xc2 0xdf b
    then expect 1 0x80 0xbf
    else if b == 0xe0
    then expect 2 0xa0 0xbf
    else if b == 0xed
    then expect 2 0x80 0x9f
    else if in_range 0xe1 0xef b
    then expect 2 0x80 0xbf
    else if b == 0xf0
    then expect 3 0x90 0xbf
    else if in_range 0xf1 0xf3 b
    then expect 3 0x80 0xbf
    else if b == 0xf4
    then expect 3 0x80 0x8f
    else refuse

utf8_next : Expect → ℕ → Expect
utf8_next e b = elim e.pending [
  | zero ↦ lead b
  | suc n ↦ if in_range e.lo e.hi b then expect n 0x80 0xbf else refuse
]

utf8_from : Expect → Bytes → Bool
utf8_from e [] = e.pending == 0
utf8_from e (b ∷ s) = utf8_from (utf8_next e b) s

-- utf8.ValidString
unfoldable pub utf8_valid : Bytes → Bool
unfolding lead utf8_next utf8_from
utf8_valid s = utf8_from idle s

-- U+0080 to U+009F are the byte 0xc2 and one of 0x80 to 0x9f; 0xc2 never continues a sequence.
control_at : Bool → ℕ → Bool
control_at after_c2 b = ltb b 0x20 || b == 0x7f || (after_c2 && in_range 0x80 0x9f b)

has_control_from : Bool → Bytes → Bool
has_control_from after_c2 [] = false
has_control_from after_c2 (b ∷ s) = control_at after_c2 b || has_control_from (b == 0xc2) s

-- strings.IndexFunc(s, unicode.IsControl) >= 0
unfoldable pub has_control : Bytes → Bool
unfolding control_at has_control_from
has_control s = has_control_from false s

abbrev pub is_digit : ℕ → Bool
is_digit = in_range b'0' b'9'

abbrev pub is_lower : ℕ → Bool
is_lower = in_range b'a' b'z'

abbrev pub is_upper : ℕ → Bool
is_upper = in_range b'A' b'Z'

abbrev pub is_lower_hex : ℕ → Bool
is_lower_hex b = is_digit b || in_range b'a' b'f' b

-- What follows a prefix, if the text begins with it.
unfoldable pub strip_prefix : Bytes → Bytes → Bytes × Bool
strip_prefix [] s = (s, true)
strip_prefix (p ∷ ps) [] = ([], false)
strip_prefix (p ∷ ps) (b ∷ s) = if p == b then strip_prefix ps s else ([], false)

unfoldable pub all_bytes : (ℕ → Bool) → Bytes → Bool
all_bytes p [] = true
all_bytes p (b ∷ s) = p b && all_bytes p s

-- ^sha256:[0-9a-f]{64}$
unfoldable pub is_sha256_digest : Bytes → Bool
unfolding strip_prefix all_bytes
is_sha256_digest s =
    let (rest, found) = strip_prefix (str "sha256:") s in
    found && (length rest == 64) && all_bytes is_lower_hex rest

-- strings.Split by one byte
unfoldable pub split_on : ℕ → Bytes → List Bytes
split_on sep [] = [] ∷ []
split_on sep (b ∷ s) = elim (split_on sep s) [
  | [] ↦ []
  | part ∷ parts ↦ if b == sep then [] ∷ part ∷ parts else (b ∷ part) ∷ parts
]

abbrev pub has_prefix : Bytes → Bytes → Bool
has_prefix p s = (strip_prefix p s).1

-- The encodings of the characters that unicode.IsSpace accepts.
abbrev pub spaces : List Bytes
spaces =
    (0x09 ∷ [])
    ∷ (0x0a ∷ [])
    ∷ (0x0b ∷ [])
    ∷ (0x0c ∷ [])
    ∷ (0x0d ∷ [])
    ∷ (0x20 ∷ [])
    ∷ (0xc2 ∷ 0x85 ∷ [])
    ∷ (0xc2 ∷ 0xa0 ∷ [])
    ∷ (0xe1 ∷ 0x9a ∷ 0x80 ∷ [])
    ∷ (0xe2 ∷ 0x80 ∷ 0x80 ∷ [])
    ∷ (0xe2 ∷ 0x80 ∷ 0x81 ∷ [])
    ∷ (0xe2 ∷ 0x80 ∷ 0x82 ∷ [])
    ∷ (0xe2 ∷ 0x80 ∷ 0x83 ∷ [])
    ∷ (0xe2 ∷ 0x80 ∷ 0x84 ∷ [])
    ∷ (0xe2 ∷ 0x80 ∷ 0x85 ∷ [])
    ∷ (0xe2 ∷ 0x80 ∷ 0x86 ∷ [])
    ∷ (0xe2 ∷ 0x80 ∷ 0x87 ∷ [])
    ∷ (0xe2 ∷ 0x80 ∷ 0x88 ∷ [])
    ∷ (0xe2 ∷ 0x80 ∷ 0x89 ∷ [])
    ∷ (0xe2 ∷ 0x80 ∷ 0x8a ∷ [])
    ∷ (0xe2 ∷ 0x80 ∷ 0xa8 ∷ [])
    ∷ (0xe2 ∷ 0x80 ∷ 0xa9 ∷ [])
    ∷ (0xe2 ∷ 0x80 ∷ 0xaf ∷ [])
    ∷ (0xe2 ∷ 0x81 ∷ 0x9f ∷ [])
    ∷ (0xe3 ∷ 0x80 ∷ 0x80 ∷ [])
    ∷ []

any_prefix : List Bytes → Bytes → Bool
any_prefix [] s = false
any_prefix (p ∷ ps) s = has_prefix p s || any_prefix ps s

-- strings.TrimSpace(s) != s
unfoldable pub has_outer_space : Bytes → Bool
unfolding any_prefix strip_prefix
has_outer_space s = any_prefix spaces s || any_prefix (map reverse spaces) (reverse s)
