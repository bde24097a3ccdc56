-- ===== src/Permit/Store/Listing.antt =====
-- The order and the entries of MemoryStore.List in internal/permit/store.go.
use mathlib.Core.List.{Perm}
use mathlib.Core.List.Perm
use aegis_router.Base.{
  ◌≡◌, ◌<◌, ◌⊎◌, refl, inl, inr, true, false, nat_eq, List, [], ◌∷◌, arith, All, Bool-cases,
}
use aegis_router.Base.Int.{int_eq, ◌<ℤ◌}
use aegis_router.Text.{Bytes}
use aegis_router.Time.{Time}
use aegis_router.Permit.Store.{
  Record, Store, bytes_ltb, listed_before, place, sort_records, values, list,
}

bytes_ltb_trans :
    (s t u : Bytes) → bytes_ltb t s ≡ false → bytes_ltb u t ≡ false → bytes_ltb u s ≡ false
unfolding bytes_ltb
bytes_ltb_trans [] [] [] h k = refl
bytes_ltb_trans [] [] (c ∷ u) h k = refl
bytes_ltb_trans [] (b ∷ t) [] h k = refl
bytes_ltb_trans [] (b ∷ t) (c ∷ u) h k = refl
bytes_ltb_trans (a ∷ s) [] u h k = absurd (cc h)
bytes_ltb_trans (a ∷ s) (b ∷ t) [] h k = absurd (cc k)
bytes_ltb_trans (a ∷ s) (b ∷ t) (c ∷ u) h k = ground (arith, bytes_ltb_trans s t u)

listed_before_trans :
    (r q p : Record)
    → listed_before q r ≡ false
    → listed_before p q ≡ false
    → listed_before p r ≡ false
unfolding listed_before
listed_before_trans r q p h k =
    ground (arith, bytes_ltb_trans r.claims.permit_id q.claims.permit_id p.claims.permit_id)

bytes_ltb_asym : (s t : Bytes) → bytes_ltb s t ≡ true → bytes_ltb t s ≡ false
unfolding bytes_ltb
bytes_ltb_asym [] [] h = refl
bytes_ltb_asym [] (b ∷ t) h = refl
bytes_ltb_asym (a ∷ s) [] h = absurd (cc h)
bytes_ltb_asym (a ∷ s) (b ∷ t) h = ground (arith, bytes_ltb_asym s t)

listed_before_asym : (r q : Record) → listed_before r q ≡ true → listed_before q r ≡ false
unfolding listed_before
listed_before_asym r q h = ground (arith, bytes_ltb_asym r.claims.permit_id q.claims.permit_id)

-- No record stands behind one that it comes before.
abbrev IsListed : List Record → Type 0
IsListed [] = Unit
IsListed (r ∷ rs) = All (λ q. listed_before q r ≡ false) rs × IsListed rs

All-trans :
    (r q : Record) (rs : List Record)
    → listed_before q r ≡ false
    → All (λ p. listed_before p q ≡ false) rs
    → All (λ p. listed_before p r ≡ false) rs
All-trans r q [] h a = tt
All-trans r q (p ∷ rs) h (k, a) = (listed_before_trans r q p h k, All-trans r q rs h a)

All-place :
    (p r : Record) (rs : List Record)
    → listed_before r p ≡ false
    → All (λ q. listed_before q p ≡ false) rs
    → All (λ q. listed_before q p ≡ false) (place r rs)
unfolding place
All-place p r [] h a = (h, tt)
All-place p r (q ∷ rs) h (k, a) = elim (Bool-cases (listed_before q r)) [
  | inl first ↦ rw first (k, All-place p r rs h a)
  | inr later ↦ rw later (h, (k, a))
]

place-IsListed : (r : Record) (rs : List Record) → IsListed rs → IsListed (place r rs)
unfolding place
place-IsListed r [] h = (tt, tt)
place-IsListed r (q ∷ rs) (a, h) = elim (Bool-cases (listed_before q r)) [
  | inl first ↦ rw first (All-place q r rs (listed_before_asym q r first) a, place-IsListed r rs h)
  | inr later ↦ rw later ((later, All-trans r q rs later a), (a, h))
]

sort_records-IsListed : (rs : List Record) → IsListed (sort_records rs)
unfolding sort_records
sort_records-IsListed [] = tt
sort_records-IsListed (r ∷ rs) = place-IsListed r (sort_records rs) (sort_records-IsListed rs)

place-perm : (r : Record) (rs : List Record) → Perm (place r rs) (r ∷ rs)
unfolding place
place-perm r [] = Perm.refl (r ∷ [])
place-perm r (q ∷ rs) = elim (Bool-cases (listed_before q r)) [
  | inl first ↦ rw first (Perm.trans (Perm.cons q (place-perm r rs)) (Perm.swap r q rs))
  | inr later ↦ rw later (Perm.refl (r ∷ q ∷ rs))
]

sort_records-perm : (rs : List Record) → Perm (sort_records rs) rs
unfolding sort_records
sort_records-perm [] = Perm.refl []
sort_records-perm (r ∷ rs) =
    Perm.trans (place-perm r (sort_records rs)) (Perm.cons r (sort_records-perm rs))

-- The order of texts by their bytes
abbrev pub IsOrdered : Bytes → Bytes → Type 0
IsOrdered [] t = Unit
IsOrdered (a ∷ s) [] = ⊥
IsOrdered (a ∷ s) (b ∷ t) = (a < b) ⊎ ((a ≡ b) × IsOrdered s t)

IsOrdered-texts : (s t : Bytes) → bytes_ltb t s ≡ false → IsOrdered s t
unfolding bytes_ltb
IsOrdered-texts [] t h = tt
IsOrdered-texts (a ∷ s) [] h = absurd (cc h)
IsOrdered-texts (a ∷ s) (b ∷ t) h = ground (arith, IsOrdered-texts s t)

-- Of two records, the first one is issued later, or at the same time with an identifier that is not larger.
abbrev pub IsAhead : Record → Record → Type 0
IsAhead r q =
    (q.claims.issued_at <ℤ r.claims.issued_at)
    ⊎ ((r.claims.issued_at ≡ q.claims.issued_at) × IsOrdered r.claims.permit_id q.claims.permit_id)

listed-IsAhead : (r q : Record) → listed_before q r ≡ false → IsAhead r q
unfolding listed_before
listed-IsAhead r q h = ground (arith, IsOrdered-texts r.claims.permit_id q.claims.permit_id)

-- Each record stands ahead of all that follow it.
abbrev pub IsDescending : List Record → Type 0
IsDescending [] = Unit
IsDescending (r ∷ rs) = All (IsAhead r) rs × IsDescending rs

All-IsAhead :
    (r : Record) (rs : List Record) → All (λ q. listed_before q r ≡ false) rs → All (IsAhead r) rs
All-IsAhead r [] h = tt
All-IsAhead r (q ∷ rs) (h, hs) = (listed-IsAhead r q h, All-IsAhead r rs hs)

IsListed-IsDescending : (rs : List Record) → IsListed rs → IsDescending rs
IsListed-IsDescending [] h = tt
IsListed-IsDescending (r ∷ rs) (a, h) = (All-IsAhead r rs a, IsListed-IsDescending rs h)

-- The listing holds each record of the store that List leaves, as often as the store does, and
-- each record is ahead of all that follow it: issued later, or at the same time under an
-- identifier that is not larger in the order of the bytes.
pub list-IsDescending :
    (now : Time) (s : Store)
    → IsDescending (list now s).1 × Perm (list now s).1 (values (list now s).0.records)
unfolding list
list-IsDescending now s = (IsListed-IsDescending _ (sort_records-IsListed _), sort_records-perm _)
