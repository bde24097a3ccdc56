-- ===== src/Permit/Store/Invariant.antt =====
-- The invariant of the store of internal/permit/store.go and that every call keeps it.
use aegis_router.Base.{
  ◌≡◌, refl, ◌⊎◌, inl, inr, Bool, ◌==◌, ◌!=◌, List, [], ◌∷◌, some, arith, eq_iff, Option-cases,
  Bool-cases, Result-cases, ok, subst,
}
use aegis_router.Base.Dict.{lookup, map_values, lookup-insert, lookup-map_values}
use aegis_router.Text.{Bytes, bytes_eq}
use aegis_router.Time.{Time}
use aegis_router.Permit.Claims.{Claims, validate}
use aegis_router.Permit.Authority.{AuthorityKey}
use aegis_router.Permit.Store.{
  state_eq, issued, consumed, revoked, fresh_record, Record, Store, empty_store, put,
  expire_if_needed, register_valid, register, get, consume_found, consume, revoke, revoke_for,
  rotated, set_authority_enabled, list,
}
use aegis_router.Permit.Store.Entries.{
  IsEntry, spent-IsEntry, withdrawn-IsEntry, expire-IsEntry, revoke_for-IsEntry,
}
use aegis_router.Permit.Store.Steps.{
  Call, registers, gets, lists, consumes, revokes, transitions, step, run, transition_cases,
}

abbrev pub IsWellFormed : Store → Type 0
IsWellFormed s = (id : Bytes) (r : Record) → lookup id s.records ≡ some r → IsEntry id r

put-IsWellFormed :
    (id : Bytes) (x : Record) (s : Store)
    → IsWellFormed s
    → IsEntry id x
    → IsWellFormed (put id x s)
put-IsWellFormed id x s wf entry j q here = elim (Bool-cases (id == j)) [
  | inl same ↦
      subst (λ k. IsEntry k q) ((eq_iff id j).0 same)
        (subst (IsEntry id) (ground (arith, lookup-insert id j x s.records)) entry)
  | inr other ↦ wf j q (ground (arith, lookup-insert id j x s.records))
]

mapped-IsWellFormed :
    (f : Record → Record) (s t : Store)
    → ((id : Bytes) (r : Record) → IsEntry id r → IsEntry id (f r))
    → t.records ≡ map_values (λ id r. f r) s.records
    → IsWellFormed s
    → IsWellFormed t
mapped-IsWellFormed f s t keep e wf j q here = elim (Option-cases (lookup j s.records)) [
  | inl missing ↦ absurd (ground (arith, e, lookup-map_values (λ id r. f r) j s.records))
  | inr (r, found) ↦
      subst (IsEntry j) (ground (arith, e, lookup-map_values (λ id r. f r) j s.records))
        (keep j r (wf j r found))
]

-- The writes of Consume once the record is read.
consume_found_cases :
    (id : Bytes) (now : Time) (x : Record) (s : Store)
    → ((consume_found id now x s).0 ≡ s)
      ⊎ ((consume_found id now x s).0 ≡ put id x s)
      ⊎ ((x.state ≡ issued)
          × ((consume_found id now x s).0
              ≡ put id (record x { state = consumed; consumed_at = some now }) s))
      ⊎ ((x.state ≡ issued)
          × ((consume_found id now x s).0
              ≡ put id (record x { state = revoked; revoked_at = some now }) s))
unfolding consume_found
consume_found_cases id now x s = ground arith

consume_found-IsWellFormed :
    (id : Bytes) (now : Time) (x : Record) (s : Store)
    → IsWellFormed s
    → IsEntry id x
    → IsWellFormed (consume_found id now x s).0
consume_found-IsWellFormed id now x s wf h = elim (consume_found_cases id now x s) [
  | inl same ↦ rw same wf
  | inr (inl written) ↦ rw written (put-IsWellFormed id x s wf h)
  | inr (inr (inl (active, written))) ↦
      rw written (put-IsWellFormed id _ s wf (spent-IsEntry id now x h active))
  | inr (inr (inr (active, written))) ↦
      rw written (put-IsWellFormed id _ s wf (withdrawn-IsEntry id now x h active))
]

consume-IsWellFormed :
    (id : Bytes) (now : Time) (s : Store) → IsWellFormed s → IsWellFormed (consume id now s).0
unfolding consume
consume-IsWellFormed id now s wf = elim (Option-cases (lookup id s.records)) [
  | inl missing ↦ rw (missing, consume) wf
  | inr (r, found) ↦
      rw (found, consume)
        (consume_found-IsWellFormed id now _ s wf (expire-IsEntry id now r (wf id r found)))
]

get-IsWellFormed :
    (id : Bytes) (now : Time) (s : Store) → IsWellFormed s → IsWellFormed (get id now s).0
unfolding get
get-IsWellFormed id now s wf = elim (Option-cases (lookup id s.records)) [
  | inl missing ↦ rw (missing, get) wf
  | inr (r, found) ↦
      rw (found, get) (put-IsWellFormed id _ s wf (expire-IsEntry id now r (wf id r found)))
]

revoke-IsWellFormed :
    (id : Bytes) (at : Time) (s : Store) → IsWellFormed s → IsWellFormed (revoke id at s).0
unfolding revoke
revoke-IsWellFormed id at s wf = elim (Option-cases (lookup id s.records)) [
  | inl missing ↦ rw (missing, revoke) wf
  | inr (r, found) ↦
      let entry = expire-IsEntry id at r (wf id r found) in
      elim (Bool-cases ((expire_if_needed r at).state != issued)) [
        | inl settled ↦ rw (found, revoke) (rw settled (put-IsWellFormed id _ s wf entry))
        | inr active ↦
            rw (found, revoke)
              (rw active
                (put-IsWellFormed id _ s wf (withdrawn-IsEntry id at _ entry (ground arith))))
      ]
]

register_valid_cases :
    (c : Claims) (s : Store)
    → ((register_valid c s).0 ≡ s) ⊎ ((register_valid c s).0 ≡ put c.permit_id (fresh_record c) s)
unfolding register_valid
register_valid_cases c s = ground arith

register-IsWellFormed : (c : Claims) (s : Store) → IsWellFormed s → IsWellFormed (register c s).0
unfolding register
register-IsWellFormed c s wf = elim (Result-cases (validate c)) [
  | inr (e, bad) ↦ rw (bad, register) wf
  | inl (_, good) ↦
      rw (good, register)
        (elim (register_valid_cases c s) [
          | inl same ↦ rw same wf
          | inr written ↦ rw written (put-IsWellFormed c.permit_id _ s wf (fresh-IsEntry good))
        ])
]
  where
    fresh-IsEntry : validate c ≡ ok tt → IsEntry c.permit_id (fresh_record c)
    fresh-IsEntry good = record { keyed = refl; valid = good; stamped = (refl, refl, refl) }

transitions-IsWellFormed :
    (key : AuthorityKey) (on : Bool) (at : Time) (s : Store)
    → IsWellFormed s
    → IsWellFormed (set_authority_enabled key on at s).0
transitions-IsWellFormed key on at s wf = elim (transition_cases key on at s) [
  | inl (e, refused) ↦ rw refused wf
  | inr (done, _) ↦ rw done (
      mapped-IsWellFormed (revoke_for key at) s (rotated key on at s) (revoke_for-IsEntry key at)
        refl wf)
]

list-IsWellFormed : (now : Time) (s : Store) → IsWellFormed s → IsWellFormed (list now s).0
unfolding list
list-IsWellFormed now s wf =
    mapped-IsWellFormed (λ r. expire_if_needed r now) s (list now s).0
      (λ id r. expire-IsEntry id now r) refl wf

-- Every call keeps the invariant.
pub step-IsWellFormed : (c : Call) (s : Store) → IsWellFormed s → IsWellFormed (step c s)
unfolding step
step-IsWellFormed (registers c) s wf = register-IsWellFormed c s wf
step-IsWellFormed (gets id now) s wf = get-IsWellFormed id now s wf
step-IsWellFormed (lists now) s wf = list-IsWellFormed now s wf
step-IsWellFormed (consumes id now) s wf = consume-IsWellFormed id now s wf
step-IsWellFormed (revokes id at) s wf = revoke-IsWellFormed id at s wf
step-IsWellFormed (transitions key on at) s wf = transitions-IsWellFormed key on at s wf

run-IsWellFormed : (cs : List Call) (s : Store) → IsWellFormed s → IsWellFormed (run cs s)
unfolding run
run-IsWellFormed [] s wf = wf
run-IsWellFormed (c ∷ cs) s wf = run-IsWellFormed cs (step c s) (step-IsWellFormed c s wf)

empty-IsWellFormed : IsWellFormed empty_store
unfolding lookup
empty-IsWellFormed id r found = absurd (cc found)

-- In every store that a history of calls builds from the empty one, each record stands under its
-- own permit identifier, has valid claims, and has the timestamps that its state asks for and no
-- others.
pub reachable-IsWellFormed : (cs : List Call) → IsWellFormed (run cs empty_store)
reachable-IsWellFormed cs = run-IsWellFormed cs empty_store empty-IsWellFormed
