-- ===== src/Text/Splitting.antt =====
-- Splitting a text by one byte, as the tokens of internal/permit and internal/executionproof are.
use aegis_router.Base.{
  ◌≡◌, refl, false, ◌==◌, nat_eq, ℕ, List, [], ◌∷◌, ◌++◌, In, inl, inr, arith, Bool-cases,
}
use aegis_router.Text.{Bytes, split_on}

pub split_on_absent : (sep : ℕ) (s : Bytes) → ¬ In sep s → split_on sep s ≡ s ∷ []
unfolding split_on
split_on_absent sep [] h = refl
split_on_absent sep (b ∷ s) h =
    let rest = split_on_absent sep s (λ m. h (inr m)) in
    let apart : (b == sep) ≡ false = ground (arith, λ (e : b ≡ sep). h (inl e)) in rw (rest, apart)

-- Splitting always gives a part.
split_on_parts : (sep : ℕ) (s : Bytes) → (p : Bytes) × (ps : List Bytes) × (split_on sep s ≡ p ∷ ps)
unfolding split_on
split_on_parts sep [] = ([], [], refl)
split_on_parts sep (b ∷ s) =
    let (p, ps, e) = split_on_parts sep s in
    elim (Bool-cases (b == sep)) [
      | inl same ↦ ([], p ∷ ps, rw (e, same))
      | inr apart ↦ (b ∷ p, ps, rw (e, apart))
    ]

pub split_on-append :
    (sep : ℕ) (s t : Bytes) → ¬ In sep s → split_on sep (s ++ sep ∷ t) ≡ s ∷ split_on sep t
unfolding split_on
split_on-append sep [] t h = ground (arith, split_on_parts sep t)
split_on-append sep (b ∷ s) t h =
    let rest = split_on-append sep s t (λ m. h (inr m)) in
    let apart : (b == sep) ≡ false = ground (arith, λ (e : b ≡ sep). h (inl e)) in rw (rest, apart)
