-- ===== src/Policy/Scopes.antt =====
-- missingScopes and unique of internal/policy/engine.go.
use aegis_router.Base.{
  ◌≡◌, true, false, List, [], ◌∷◌, ◌==◌, ◌↔◌, inl, inr, arith, All, In, contains_iff, Bool-cases,
}
use aegis_router.Text.{Bytes, bytes_eq, is_nonempty}
use aegis_router.Models.{has_items}
use aegis_router.Policy.{missing_scopes, unique_from, unique}

-- No scope is missing exactly when every required one is among the actual ones.
pub missing_scopes_iff :
    (actual required : List Bytes)
    → (has_items (missing_scopes actual required) ≡ false) ↔ All (λ s. In s actual) required
unfolding missing_scopes
missing_scopes_iff actual [] = ground arith
missing_scopes_iff actual (s ∷ required) =
    ground (arith, missing_scopes_iff actual required, contains_iff actual s)

abbrev pub Distinct : List Bytes → Type 0
Distinct [] = Unit
Distinct (s ∷ ss) = (¬ In s ss) × Distinct ss

unique_from-In :
    (seen items : List Bytes) (s : Bytes)
    → In s (unique_from seen items) ↔ ((In s items) × (is_nonempty s ≡ true) × (¬ In s seen))
unfolding unique_from
unique_from-In seen [] s = ground arith
unique_from-In seen (i ∷ items) s =
    let later = unique_from-In (i ∷ seen) items s in
    let skipped = unique_from-In seen items s in
    elim (Bool-cases (i == s)) [
      | inl same ↦ ground (arith, later, skipped, contains_iff seen i)
      | inr apart ↦ ground (arith, later, skipped, contains_iff seen i)
    ]

unique_from-Distinct : (seen items : List Bytes) → Distinct (unique_from seen items)
unfolding unique_from
unique_from-Distinct seen [] = tt
unique_from-Distinct seen (i ∷ items) = ground (
  arith,
  unique_from-Distinct (i ∷ seen) items,
  unique_from-Distinct seen items,
  unique_from-In (i ∷ seen) items i,
)

-- The list without its empty items and its repetitions has the other items, each once.
pub unique_items :
    (items : List Bytes)
    → Distinct (unique items)
      × ((s : Bytes) → In s (unique items) ↔ (In s items × (is_nonempty s ≡ true)))
unique_items items = (unique_from-Distinct [] items, λ s. ground (arith, unique_from-In [] items s))
