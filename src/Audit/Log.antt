-- ===== src/Audit/Log.antt =====
-- Reading back what Append and Mutate of internal/audit/store.go write.
use aegis_router.Base.{
  ℕ, suc, zero, ◌-◌, ◌≤◌, ◌≡◌, refl, ◌≢◌, Bool, true, ap, ◌∙◌, [], ◌∷◌, ◌++◌, some, arith, length,
  length-append, ok, inl, inr, Option-cases,
}
use aegis_router.Text.{Bytes, bytes_eq}
use aegis_router.Records.{AuditRecord}
use aegis_router.Audit.{
  AuditLog, max_records, drop, keep_last, append, find_latest, replace_latest, mutate,
}

length-drop : (n : ℕ) (log : AuditLog) → length (drop n log) ≡ length log - n
unfolding drop
length-drop zero log = omega arith
length-drop (suc n) [] = omega arith
length-drop (suc n) (r ∷ log) = ground (arith, length-drop n log)

drop-snoc :
    (n : ℕ) (log : AuditLog) (r : AuditRecord)
    → n ≤ length log
    → drop n (log ++ r ∷ []) ≡ drop n log ++ r ∷ []
unfolding drop
drop-snoc zero log r h = refl
drop-snoc (suc n) [] r h = absurd (omega (arith, h))
drop-snoc (suc n) (q ∷ log) r h = drop-snoc n log r (omega (arith, h))

find-snoc : (log : AuditLog) (r : AuditRecord) → find_latest r.request_id (log ++ r ∷ []) ≡ some r
unfolding find_latest
find-snoc [] r = ground arith
find-snoc (q ∷ log) r = rw (find-snoc log r) refl

append_ok :
    (written : Bool) (r : AuditRecord) (log kept : AuditLog)
    → append written r log ≡ ok kept
    → kept ≡ keep_last (log ++ r ∷ [])
unfolding append
append_ok written r log kept h = ground arith

dropped_enough :
    (log : AuditLog) (r : AuditRecord)
    → (length (log ++ r ∷ []) - max_records ≤ length log)
      × (length (keep_last (log ++ r ∷ [])) ≤ max_records)
dropped_enough log r = (
  omega (arith, length-append log (r ∷ [])),
  omega (arith, length-drop (length (log ++ r ∷ []) - max_records) (log ++ r ∷ [])),
)

-- After an Append that succeeds, the latest record of its request is the appended one, and the log
-- holds at most a hundred records.
pub get-append :
    (written : Bool) (r : AuditRecord) (log kept : AuditLog)
    → append written r log ≡ ok kept
    → (find_latest r.request_id kept ≡ some r) × (length kept ≤ max_records)
get-append written r log kept h =
    let (early, short) = dropped_enough log r in
    rw (append_ok written r log kept h) (
      rw (drop-snoc (length (log ++ r ∷ []) - max_records) log r early)
          (find-snoc (drop (length (log ++ r ∷ []) - max_records) log) r),
      short,
    )

find-replace :
    (id other : Bytes) (q r : AuditRecord) (log : AuditLog)
    → find_latest id log ≡ some q
    → r.request_id ≡ id
    → other ≢ id
    → (find_latest id (replace_latest id r log) ≡ some r)
      × (find_latest other (replace_latest id r log) ≡ find_latest other log)
      × (length (replace_latest id r log) ≡ length log)
unfolding find_latest replace_latest
find-replace id other q r [] found named differs = absurd (cc found)
find-replace id other q r (p ∷ log) found named differs = elim (Option-cases (find_latest id log)) [
  | inl missing ↦ ground arith
  | inr (later, held) ↦ ground (arith, find-replace id other later r log held named differs)
]

mutate_ok :
    (written : Bool) (id : Bytes) (change : AuditRecord → AuditRecord) (log : AuditLog)
    (r : AuditRecord) (after : AuditLog)
    → mutate written id change log ≡ ok (r, after)
    → (q : AuditRecord) × (find_latest id log ≡ some q)
      × (r ≡ change q)
      × (after ≡ replace_latest id r log)
      × (written ≡ true)
unfolding mutate
mutate_ok written id change log r after h = elim (Option-cases (find_latest id log)) [
  | inl missing ↦ absurd (ground arith)
  | inr (q, found) ↦ (q, found, ground arith, ground arith, ground arith)
]

-- A Mutate that succeeds, by a change that keeps the request identifier, was written to the file
-- and makes the change of the latest record of the request the latest one; it keeps the latest
-- record of every other request and the number of records.
pub get-mutate :
    (written : Bool) (id other : Bytes) (change : AuditRecord → AuditRecord) (log : AuditLog)
    (r : AuditRecord) (after : AuditLog)
    → mutate written id change log ≡ ok (r, after)
    → r.request_id ≡ id
    → other ≢ id
    → (q : AuditRecord) × (find_latest id log ≡ some q)
      × (r ≡ change q)
      × (written ≡ true)
      × (find_latest id after ≡ some (change q))
      × (find_latest other after ≡ find_latest other log)
      × (length after ≡ length log)
get-mutate written id other change log r after h named differs =
    let (q, found, changed, replaced, told) = mutate_ok written id change log r after h in
    let (latest, others, size) = find-replace id other q r log found named differs in
    (
      q,
      found,
      changed,
      told,
      rw replaced latest ∙ ap some changed,
      rw replaced others,
      rw replaced size,
    )
