-- ===== src/Verifier/Refusal.antt =====
-- What a refused execution of internal/verifier/verifier.go leaves in the permit store.
use aegis_router.Base.{
  ◌≡◌, ◌≢◌, ◌!=◌, ◌||◌, false, ◌⊎◌, arith, Result-cases, inl, inr, Option-cases, Bool-cases, some,
  none,
}
use aegis_router.Base.Dict.{lookup, lookup-insert}
use aegis_router.Text.{Bytes, bytes_eq}
use aegis_router.Time.{Time}
use aegis_router.Permit.Claims.{Class, class_eq, execution}
use aegis_router.Permit.Store.{
  consumed, revoked, Record, Store, put, get, consume, consume_found, expire_if_needed, succeeded,
}
use aegis_router.Verifier.{
  Settings, Boundary, Presented, is_verified_outcome, allowed, consume_time, consume_inspected,
  read_permit, inspect_permit, inspect_claims, prove_execution, spend_nonce, verify_execution_proof,
  verify_execution_and_consume,
}

-- Every consumed record of the later store stood in the earlier one as it is.
abbrev pub Spares : Store → Store → Type 0
Spares s t =
    (j : Bytes) (q : Record)
    → lookup j t.records ≡ some q
    → q.state ≡ consumed
    → lookup j s.records ≡ some q

put-Spares :
    (id : Bytes) (r x : Record) (s : Store)
    → lookup id s.records ≡ some r
    → (x ≡ r) ⊎ (x.state ≢ consumed)
    → Spares s (put id x s)
put-Spares id r x s found h j q here done = ground (arith, lookup-insert id j x s.records)

expire_spares :
    (r : Record) (now : Time)
    → (expire_if_needed r now ≡ r) ⊎ ((expire_if_needed r now).state ≢ consumed)
unfolding expire_if_needed
expire_spares r now = ground arith

get_shape :
    (id : Bytes) (now : Time) (s : Store)
    → ((get id now s).0 ≡ s)
      ⊎ ((r : Record) × (lookup id s.records ≡ some r)
          × ((get id now s).0 ≡ put id (expire_if_needed r now) s))
unfolding get
get_shape id now s = elim (Option-cases (lookup id s.records)) [
  | inl missing ↦ inl (ground arith)
  | inr (r, found) ↦ inr (r, found, ground arith)
]

pub get-Spares : (id : Bytes) (now : Time) (s : Store) → Spares s (get id now s).0
get-Spares id now s j q here done = elim (get_shape id now s) [
  | inl same ↦ rw same at here
  | inr (r, found, same) ↦
      put-Spares id r (expire_if_needed r now) s found (expire_spares r now) j q (rw same at here)
        done
]

consume_found_shape :
    (id : Bytes) (now : Time) (r : Record) (s : Store)
    → (consume_found id now r s).1.outcome ≢ succeeded
    → ((consume_found id now r s).0 ≡ s)
      ⊎ ((consume_found id now r s).0 ≡ put id r s)
      ⊎ ((consume_found id now r s).0
          ≡ put id (record r { state = revoked; revoked_at = some now }) s)
unfolding consume_found
consume_found_shape id now r s h = ground arith

consume_shape :
    (id : Bytes) (now : Time) (r : Record) (s : Store)
    → lookup id s.records ≡ some r
    → consume id now s ≡ consume_found id now (expire_if_needed r now) s
unfolding consume
consume_shape id now r s found = ground arith

consume_missing :
    (id : Bytes) (now : Time) (s : Store) → lookup id s.records ≡ none → (consume id now s).0 ≡ s
unfolding consume
consume_missing id now s missing = ground arith

pub consume-Spares :
    (id : Bytes) (now : Time) (s : Store)
    → (consume id now s).1.outcome ≢ succeeded
    → Spares s (consume id now s).0
consume-Spares id now s h j q here done = elim (Option-cases (lookup id s.records)) [
  | inl missing ↦ rw (consume_missing id now s missing) at here
  | inr (r, found) ↦
      let e = expire_if_needed r now in
      let shape = consume_shape id now r s found in
      elim (consume_found_shape id now e s (rw shape at h)) [
        | inl same ↦ rw (shape, same) at here
        | inr (inl same) ↦
            put-Spares id r e s found (expire_spares r now) j q (rw (shape, same) at here) done
        | inr (inr same) ↦
            put-Spares id r (record e { state = revoked; revoked_at = some now }) s found
              (inr (λ p. absurd (cc p))) j q (rw (shape, same) at here) done
      ]
]

inspect_permit_shape :
    (v : Settings) (token : Bytes) (class : Class) (now : Time) (s : Store)
    → ((inspect_permit v token class now s).0 ≡ s)
      ⊎ ((id : Bytes) × ((inspect_permit v token class now s).0 ≡ (get id now s).0))
unfolding inspect_permit inspect_claims
inspect_permit_shape v token class now s = elim (Result-cases (read_permit v token)) [
  | inl (c, read) ↦ elim (Bool-cases (c.permit_class != class || c.issuer != v.expected_issuer)) [
    | inl off ↦ inl (ground arith)
    | inr on ↦ inr (c.permit_id, ground arith)
  ]
  | inr (o, failed) ↦ inl (ground arith)
]

inspect_permit-Spares :
    (v : Settings) (token : Bytes) (class : Class) (now : Time) (s : Store)
    → Spares s (inspect_permit v token class now s).0
inspect_permit-Spares v token class now s j q here done =
    elim (inspect_permit_shape v token class now s) [
      | inl same ↦ rw same at here
      | inr (id, same) ↦ get-Spares id now s j q (rw same at here) done
    ]

verify_execution_proof_permits :
    (v : Settings) (p : Presented) (now : Time) (b : Boundary)
    → (verify_execution_proof v p now b).0.permits
      ≡ (inspect_permit v p.permit_token execution now b.permits).0
unfolding verify_execution_proof prove_execution spend_nonce
verify_execution_proof_permits v p now b = ground arith

refused_shape :
    (v : Settings) (p : Presented) (now clock : Time) (b : Boundary)
    → allowed (verify_execution_and_consume v p now clock b).1 ≡ false
    → ((verify_execution_and_consume v p now clock b).0.permits
        ≡ (verify_execution_proof v p now b).0.permits)
      ⊎ ((id : Bytes) × (at : Time) × ((consume id at
              (verify_execution_proof v p now b).0.permits).1.outcome
            ≢ succeeded)
          × ((verify_execution_and_consume v p now clock b).0.permits
              ≡ (consume id at (verify_execution_proof v p now b).0.permits).0))
unfolding verify_execution_and_consume consume_inspected
refused_shape v p now clock b h =
    let proved = verify_execution_proof v p now b in
    elim (Bool-cases (is_verified_outcome proved.1.outcome)) [
      | inr failed ↦ inl (ground arith)
      | inl passed ↦ elim (Option-cases proved.1.claims) [
        | inl missing ↦ inl (ground arith)
        | inr (c, found) ↦
            inr (c.permit_id, consume_time proved.1.verified_at clock, ground arith, ground arith)
      ]
    ]

-- A refused execution consumes no permit: every record that is consumed after it was consumed
-- before it, and stands unchanged.
pub refused_spares :
    (v : Settings) (p : Presented) (now clock : Time) (b : Boundary) (j : Bytes) (q : Record)
    → allowed (verify_execution_and_consume v p now clock b).1 ≡ false
    → lookup j (verify_execution_and_consume v p now clock b).0.permits.records ≡ some q
    → q.state ≡ consumed
    → lookup j b.permits.records ≡ some q
refused_spares v p now clock b j q h here done =
    let seen = inspect_permit-Spares v p.permit_token execution now b.permits j q in
    let same = verify_execution_proof_permits v p now b in
    elim (refused_shape v p now clock b h) [
      | inl kept ↦ seen (rw (kept, same) at here) done
      | inr (id, at_, failed, kept) ↦
          let before_ =
            consume-Spares id at_ (verify_execution_proof v p now b).0.permits failed j q
              (rw kept at here) done in
          seen (rw same at before_) done
    ]
