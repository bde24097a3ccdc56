-- ===== src/Intake/Scopes.antt =====
-- The scopes that parseDelegatedScopes of internal/intake/trusted_proxy.go reads from a header.
use mathlib.Core.List.{Perm}
use mathlib.Core.List.Perm
use aegis_router.Base.{
  ◌≡◌, refl, ap, true, List, [], ◌∷◌, ◌++◌, ok, inl, inr, arith, All, Bool-cases, Result-cases,
}
use aegis_router.Text.{Bytes, bytes_eq, split_on}
use aegis_router.Permit.Store.{bytes_ltb}
use aegis_router.Intake.{safe_label}
use aegis_router.Intake.Headers.{
  trim_blanks, add_scopes, place_text, sort_texts, parse_delegated_scopes,
}

-- The parts without the spaces and tabs around them
abbrev pub trimmed : List Bytes → List Bytes
trimmed [] = []
trimmed (part ∷ parts) = trim_blanks part ∷ trimmed parts

perm_middle : (s : Bytes) (xs ys : List Bytes) → Perm (xs ++ s ∷ ys) (s ∷ xs ++ ys)
perm_middle s [] ys = Perm.refl (s ∷ ys)
perm_middle s (x ∷ xs) ys =
    Perm.trans (Perm.cons x (perm_middle s xs ys)) (Perm.swap s x (xs ++ ys))

place_text-perm : (s : Bytes) (ts : List Bytes) → Perm (place_text s ts) (s ∷ ts)
unfolding place_text
place_text-perm s [] = Perm.refl (s ∷ [])
place_text-perm s (t ∷ ts) = elim (Bool-cases (bytes_ltb t s)) [
  | inl first ↦ rw first (Perm.trans (Perm.cons t (place_text-perm s ts)) (Perm.swap s t ts))
  | inr later ↦ rw later (Perm.refl (s ∷ t ∷ ts))
]

sort_texts-perm : (ts : List Bytes) → Perm (sort_texts ts) ts
unfolding sort_texts
sort_texts-perm [] = Perm.refl []
sort_texts-perm (t ∷ ts) =
    Perm.trans (place_text-perm t (sort_texts ts)) (Perm.cons t (sort_texts-perm ts))

add_scopes_head :
    (part : Bytes) (parts found out : List Bytes)
    → add_scopes (part ∷ parts) found ≡ ok out
    → (safe_label (trim_blanks part) ≡ true)
      × (add_scopes parts (trim_blanks part ∷ found) ≡ ok out)
unfolding add_scopes
add_scopes_head part parts found out h = ground arith

add_scopes_ok :
    (parts found out : List Bytes)
    → add_scopes parts found ≡ ok out
    → Perm out (trimmed parts ++ found) × All (λ s. safe_label s ≡ true) (trimmed parts)
add_scopes_ok [] found out h =
    let same : found ≡ out = unfold add_scopes in ground arith in rw same (Perm.refl out, tt)
add_scopes_ok (part ∷ parts) found out h =
    let (label, rest) = add_scopes_head part parts found out h in
    let (same, labels) = add_scopes_ok parts (trim_blanks part ∷ found) out rest in
    (Perm.trans same (perm_middle (trim_blanks part) (trimmed parts) found), (label, labels))

parse_delegated_scopes_added :
    (value : Bytes) (scopes : List Bytes)
    → parse_delegated_scopes value ≡ ok scopes
    → (found : List Bytes) × (add_scopes (split_on b',' value) [] ≡ ok found)
      × (scopes ≡ sort_texts found)
unfolding parse_delegated_scopes
parse_delegated_scopes_added value scopes h =
    elim (Result-cases (add_scopes (split_on b',' value) [])) [
      | inr (e, failed) ↦ absurd (ground arith)
      | inl (found, added) ↦ (found, added, ground arith)
    ]

append_nothing : (xs : List Bytes) → xs ++ [] ≡ xs
append_nothing [] = refl
append_nothing (x ∷ xs) = ap (◌∷◌ x) (append_nothing xs)

-- The scopes are the parts of the header between its commas, each as often as it stands there, and
-- each a label.
pub parse_delegated_scopes_ok :
    (value : Bytes) (scopes : List Bytes)
    → parse_delegated_scopes value ≡ ok scopes
    → Perm scopes (trimmed (split_on b',' value))
      × All (λ s. safe_label s ≡ true) (trimmed (split_on b',' value))
parse_delegated_scopes_ok value scopes h =
    let (found, added, same) = parse_delegated_scopes_added value scopes h in
    let (listed, labels) = add_scopes_ok (split_on b',' value) [] found added in
    (
      rw same (
          Perm.trans (sort_texts-perm found)
            (rw (append_nothing (trimmed (split_on b',' value))) at listed)),
      labels,
    )
