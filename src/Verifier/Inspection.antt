-- ===== src/Verifier/Inspection.antt =====
-- inspectPermit of internal/verifier/verifier.go: when a permit passes the inspection.
use aegis_router.Base.{
  ◌≡◌, true, false, ◌↔◌, ◌⊎◌, arith, ok, err, Result-cases, inl, inr, Option-cases, some, none,
}
use aegis_router.Base.Dict.{lookup}
use aegis_router.Text.{Bytes, bytes_eq}
use aegis_router.Time.{Time, is_zero, before}
use aegis_router.Permit.Claims.{Claims, Class, issued_time, expires_time, class_eq, claims_eq}
use aegis_router.Permit.Store.{issued, Record, Store, put, get, expire_if_needed}
use aegis_router.Permit.Store.Lifecycle.{expire_active, expire_alive}
use aegis_router.Verifier.{
  Settings, Outcome, verified, is_verified_outcome, trusted, read_permit, record_outcome,
  inspect_claims, inspect_permit,
}

-- The token carries claims of the class and of the expected issuer, and the store holds the same
-- claims as an issued permit whose time has come and has not passed.
pub record IsPresentable (v : Settings) (token : Bytes) (class : Class) (now : Time) (s : Store)
    (c : Claims) (r : Record) : Type 0 where
  pub read : read_permit v token ≡ ok c
  pub of_class : c.permit_class ≡ class
  pub issuer : c.issuer ≡ v.expected_issuer
  pub stored : lookup c.permit_id s.records ≡ some r
  pub same : r.claims ≡ c
  pub active : r.state ≡ issued
  pub started : before now (issued_time c) ≡ false
  pub alive : (is_zero now ≡ true) ⊎ (before now (expires_time r.claims) ≡ true)

read_permit_error :
    (v : Settings) (token : Bytes) (o : Outcome)
    → read_permit v token ≡ err o
    → is_verified_outcome o ≡ false
unfolding read_permit
read_permit_error v token o h = ground arith

record_outcome_verified :
    (c : Claims) (r : Record) (now : Time)
    → is_verified_outcome (record_outcome c r now) ≡ true
    → (record_outcome c r now ≡ verified)
      × (r.claims ≡ c)
      × (r.state ≡ issued)
      × (before now (issued_time c) ≡ false)
unfolding record_outcome
record_outcome_verified c r now h = ground arith

record_outcome_passes :
    (c : Claims) (r : Record) (now : Time)
    → r.claims ≡ c
    → r.state ≡ issued
    → before now (issued_time c) ≡ false
    → record_outcome c r now ≡ verified
unfolding record_outcome
record_outcome_passes c r now same active started = ground arith

inspect_claims_missing :
    (v : Settings) (c : Claims) (class : Class) (now : Time) (s : Store)
    → lookup c.permit_id s.records ≡ none
    → is_verified_outcome (inspect_claims v c class now s).1.outcome ≡ false
unfolding inspect_claims get
inspect_claims_missing v c class now s missing = ground arith

inspect_claims_found :
    (v : Settings) (c : Claims) (class : Class) (now : Time) (s : Store) (r : Record)
    → lookup c.permit_id s.records ≡ some r
    → is_verified_outcome (inspect_claims v c class now s).1.outcome ≡ true
    → (c.permit_class ≡ class)
      × (c.issuer ≡ v.expected_issuer)
      × (is_verified_outcome (record_outcome c (expire_if_needed r now) now) ≡ true)
unfolding inspect_claims get
inspect_claims_found v c class now s r found h = ground arith

inspect_claims_passes :
    (v : Settings) (c : Claims) (class : Class) (now : Time) (s : Store) (r : Record)
    → lookup c.permit_id s.records ≡ some r
    → c.permit_class ≡ class
    → c.issuer ≡ v.expected_issuer
    → inspect_claims v c class now s ≡ (
      put c.permit_id (expire_if_needed r now) s,
      trusted c (record_outcome c (expire_if_needed r now) now) (expire_if_needed r now).state now,
    )
unfolding inspect_claims get
inspect_claims_passes v c class now s r found of_class issuer = ground arith

inspect_permit_ok :
    (v : Settings) (token : Bytes) (class : Class) (now : Time) (s : Store) (c : Claims)
    → read_permit v token ≡ ok c
    → inspect_permit v token class now s ≡ inspect_claims v c class now s
unfolding inspect_permit
inspect_permit_ok v token class now s c h = ground arith

inspect_permit_err :
    (v : Settings) (token : Bytes) (class : Class) (now : Time) (s : Store) (o : Outcome)
    → read_permit v token ≡ err o
    → is_verified_outcome (inspect_permit v token class now s).1.outcome ≡ false
unfolding inspect_permit
inspect_permit_err v token class now s o h = ground (arith, read_permit_error v token o h)

pub inspect_permit_passes :
    (v : Settings) (token : Bytes) (class : Class) (now : Time) (s : Store) (c : Claims)
    (r : Record)
    → IsPresentable v token class now s c r
    → inspect_permit v token class now s ≡ (put c.permit_id r s, trusted c verified issued now)
inspect_permit_passes v token class now s c r q = rw (
  inspect_permit_ok v token class now s c q.read,
  inspect_claims_passes v c class now s r q.stored q.of_class q.issuer,
  expire_alive r now q.alive,
  record_outcome_passes c r now q.same q.active q.started,
  q.active,
)

pub inspect_permit_verified :
    (v : Settings) (token : Bytes) (class : Class) (now : Time) (s : Store)
    → is_verified_outcome (inspect_permit v token class now s).1.outcome ≡ true
    → (c : Claims) × (r : Record) × IsPresentable v token class now s c r
inspect_permit_verified v token class now s h = elim (Result-cases (read_permit v token)) [
  | inr (o, failed) ↦ absurd (cc (inspect_permit_err v token class now s o failed, h))
  | inl (c, read) ↦
      let seen = rw (inspect_permit_ok v token class now s c read) at h in
      elim (Option-cases (lookup c.permit_id s.records)) [
        | inl missing ↦ absurd (cc (inspect_claims_missing v c class now s missing, seen))
        | inr (r, stored) ↦
            let (of_class, issuer, passed) = inspect_claims_found v c class now s r stored seen in
            let (_, same, active, started) =
              record_outcome_verified c (expire_if_needed r now) now passed in
            let (kept, was, alive) = expire_active r now active in
            (
              c,
              r,
              record {
                read = read;
                of_class = of_class;
                issuer = issuer;
                stored = stored;
                same = rw kept at same;
                active = was;
                started = started;
                alive = alive;
              },
            )
      ]
]

-- The inspection of a token answers VERIFIED exactly when the token verifies to claims of the
-- class and of the expected issuer that the store holds as an issued permit, whose time has come
-- and has not passed.
pub inspect_permit_iff :
    (v : Settings) (token : Bytes) (class : Class) (now : Time) (s : Store)
    → ((inspect_permit v token class now s).1.outcome ≡ verified)
      ↔ ((c : Claims) × (r : Record) × IsPresentable v token class now s c r)
inspect_permit_iff v token class now s = (
  λ h. inspect_permit_verified v token class now s (rw h),
  λ (c, r, q). rw (inspect_permit_passes v token class now s c r q),
)
