-- ===== src/Permit/Store/Steps.antt =====
-- Histories of calls on the store of internal/permit/store.go and internal/permit/authority.go, in
-- the order in which the mutex admits them, and what one call may do to a record.
use aegis_router.Base.{
  nat_eq, ◌≡◌, refl, ◌⊎◌, inl, inr, Bool, true, false, ◌==◌, ◌!=◌, List, [], ◌∷◌, Option, none,
  some, arith, Option-cases, Bool-cases, Result-cases, ok, err,
}
use aegis_router.Base.Dict.{lookup, lookup-insert, lookup-map_values}
use aegis_router.Text.{Bytes, bytes_eq}
use aegis_router.Time.{Time}
use aegis_router.Permit.Claims.{Error, epoch_exhausted, Claims, validate}
use aegis_router.Permit.Authority.{AuthorityKey, max_epoch, authority_key_eq}
use aegis_router.Permit.Store.{
  State, state_eq, authority, next_state, rotated, fresh_record, issued, consumed, expired, revoked,
  unset, Record, authority_moved, Store, put, expire_if_needed, register_valid, register, get,
  consume_found, consume, revoke, revoke_for, check_transition, transition, set_authority_enabled,
  list,
}

pub data Call : Type 0 where
  registers : Claims → Call
  gets : Bytes → Time → Call
  lists : Time → Call
  consumes : Bytes → Time → Call
  revokes : Bytes → Time → Call
  transitions : AuthorityKey → Bool → Time → Call

unfoldable pub step : Call → Store → Store
step (registers c) s = (register c s).0
step (gets id now) s = (get id now s).0
step (lists now) s = (list now s).0
step (consumes id now) s = (consume id now s).0
step (revokes id at) s = (revoke id at s).0
step (transitions key on at) s = (set_authority_enabled key on at s).0

unfoldable pub run : List Call → Store → Store
run [] s = s
run (c ∷ cs) s = run cs (step c s)

abbrev pub is_final : State → Bool
is_final issued = false
is_final unset = false
is_final _ = true

-- A record stays as it is, or an issued one settles with its claims unchanged.
abbrev pub Evolves : Record → Record → Type 0
Evolves r q = (q ≡ r) ⊎ ((r.state ≡ issued) × (q.claims ≡ r.claims) × (is_final q.state ≡ true))

-- Where a record is found later, and what became of it.
abbrev pub Kept : Bytes → Record → Store → Type 0
Kept id r s = (q : Record) × (lookup id s.records ≡ some q) × Evolves r q

pub expire-Evolves : (r : Record) (now : Time) → Evolves r (expire_if_needed r now)
unfolding expire_if_needed
expire-Evolves r now = ground arith

-- A call on the identifier of a record `q` leaves the store, or writes what `q` may become.
abbrev pub Touches : Bytes → Record → Store → Store → Type 0
Touches id q s t = (t ≡ s) ⊎ ((x : Record) × Evolves q x × (t ≡ put id x s))

Touches-Kept :
    (id j : Bytes) (q r : Record) (s t : Store)
    → Touches id q s t
    → lookup id s.records ≡ some q
    → lookup j s.records ≡ some r
    → Kept j r t
Touches-Kept id j q r s t (inl unchanged) found here = rw unchanged (r, here, inl refl)
Touches-Kept id j q r s t (inr (x, to, written)) found here = elim (Bool-cases (id == j)) [
  | inl same ↦ (x, ground (arith, lookup-insert id j x s.records), ground arith)
  | inr other ↦ (r, ground (arith, lookup-insert id j x s.records), inl refl)
]

-- What Consume does with the record, once expired if its time has come.
consume_found-Touches :
    (id : Bytes) (now : Time) (q x : Record) (s : Store)
    → Evolves q x
    → Touches id q s (consume_found id now x s).0
unfolding consume_found
consume_found-Touches id now q x s to = go x.state refl
  where
    go : (st : State) → x.state ≡ st → Touches id q s (consume_found id now x s).0
    go issued e = elim (Bool-cases (authority_moved x.claims s)) [
      | inl moved ↦ rw (e, consume_found, moved) (inr (_, ground arith, refl))
      | inr stays ↦ rw (e, consume_found, stays) (inr (_, ground arith, refl))
    ]
    go consumed e = rw (e, consume_found) (inl refl)
    go expired e = rw (e, consume_found) (inr (x, to, refl))
    go revoked e = rw (e, consume_found) (inl refl)
    go unset e = rw (e, consume_found) (inl refl)

consume-Kept :
    (id : Bytes) (now : Time) (j : Bytes) (r : Record) (s : Store)
    → lookup j s.records ≡ some r
    → Kept j r (consume id now s).0
unfolding consume
consume-Kept id now j r s here = elim (Option-cases (lookup id s.records)) [
  | inl missing ↦ rw (missing, consume) (r, here, inl refl)
  | inr (q, found) ↦
      rw (found, consume)
        (Touches-Kept id j q r s _ (consume_found-Touches id now q _ s (expire-Evolves q now)) found
          here)
]

get-Kept :
    (id : Bytes) (now : Time) (j : Bytes) (r : Record) (s : Store)
    → lookup j s.records ≡ some r
    → Kept j r (get id now s).0
unfolding get
get-Kept id now j r s here = elim (Option-cases (lookup id s.records)) [
  | inl missing ↦ rw (missing, get) (r, here, inl refl)
  | inr (q, found) ↦
      rw (found, get) (Touches-Kept id j q r s _ (inr (_, expire-Evolves q now, refl)) found here)
]

-- Revoke on a record that is there, in the two cases of its state.
revoke-Touches :
    (id : Bytes) (at : Time) (q : Record) (s : Store)
    → lookup id s.records ≡ some q
    → Touches id q s (revoke id at s).0
unfolding revoke
revoke-Touches id at q s found = elim (Bool-cases ((expire_if_needed q at).state != issued)) [
  | inl settled ↦ rw (found, revoke) (rw settled (inr (_, expire-Evolves q at, refl)))
  | inr active ↦ rw (found, revoke) (rw active (inr (_, revoked_Evolves active, refl)))
]
  where
    revoked_Evolves :
        ((expire_if_needed q at).state != issued) ≡ false
        → Evolves q (record (expire_if_needed q at) { state = revoked; revoked_at = some at })
    revoked_Evolves active = ground (arith, expire-Evolves q at)

revoke-Kept :
    (id : Bytes) (at : Time) (j : Bytes) (r : Record) (s : Store)
    → lookup j s.records ≡ some r
    → Kept j r (revoke id at s).0
unfolding revoke
revoke-Kept id at j r s here = elim (Option-cases (lookup id s.records)) [
  | inl missing ↦ rw (missing, revoke) (r, here, inl refl)
  | inr (q, found) ↦ Touches-Kept id j q r s _ (revoke-Touches id at q s found) found here
]

list-Kept :
    (now : Time) (j : Bytes) (r : Record) (s : Store)
    → lookup j s.records ≡ some r
    → Kept j r (list now s).0
unfolding list
list-Kept now j r s here = (
  expire_if_needed r now,
  rw (lookup-map_values (λ id q. expire_if_needed q now) j s.records, here) refl,
  expire-Evolves r now,
)

register_valid-Kept :
    (c : Claims) (j : Bytes) (r : Record) (s : Store) (o : Option Record)
    → lookup c.permit_id s.records ≡ o
    → lookup j s.records ≡ some r
    → Kept j r (register_valid c s).0
unfolding register_valid
register_valid-Kept c j r s (some q) e here = rw (e, register_valid) (r, here, inl refl)
register_valid-Kept c j r s none e here = elim (Bool-cases (authority_moved c s)) [
  | inl moved ↦ rw (e, register_valid, moved) (r, here, inl refl)
  | inr stays ↦
      rw (e, register_valid, stays)
        (r, ground (arith, lookup-insert c.permit_id j (fresh_record c) s.records), inl refl)
]

register-Kept :
    (c : Claims) (j : Bytes) (r : Record) (s : Store)
    → lookup j s.records ≡ some r
    → Kept j r (register c s).0
unfolding register
register-Kept c j r s here = elim (Result-cases (validate c)) [
  | inl (_, good) ↦ rw (good, register) (valid-Kept (lookup c.permit_id s.records) refl)
  | inr (_, bad) ↦ rw (bad, register) (r, here, inl refl)
]
  where
    valid-Kept :
        (o : Option Record) → lookup c.permit_id s.records ≡ o → Kept j r (register_valid c s).0
    valid-Kept o e = register_valid-Kept c j r s o e here

revoke_for-Evolves : (key : AuthorityKey) (at : Time) (r : Record) → Evolves r (revoke_for key at r)
unfolding revoke_for
revoke_for-Evolves key at r = ground arith

-- A transition is refused with the store unchanged, or rotates the epoch of its key.
pub transition_cases :
    (key : AuthorityKey) (on : Bool) (at : Time) (s : Store)
    → ((e : Error) × (set_authority_enabled key on at s ≡ (s, err e)))
      ⊎ ((set_authority_enabled key on at s ≡ (rotated key on at s, ok (next_state key on s)))
          × (((authority key s).epoch == max_epoch) ≡ false))
unfolding set_authority_enabled transition
transition_cases key on at s = elim (Result-cases (check_transition key at)) [
  | inr (e, bad) ↦ rw (bad, set_authority_enabled) (inl (e, refl))
  | inl (_, good) ↦ elim (Bool-cases ((authority key s).epoch == max_epoch)) [
    | inl full ↦ rw (good, set_authority_enabled, full) (inl (epoch_exhausted, refl))
    | inr room ↦ rw (good, set_authority_enabled, room) (inr (refl, refl))
  ]
]

transitions-Kept :
    (key : AuthorityKey) (on : Bool) (at : Time) (j : Bytes) (r : Record) (s : Store)
    → lookup j s.records ≡ some r
    → Kept j r (set_authority_enabled key on at s).0
transitions-Kept key on at j r s here = elim (transition_cases key on at s) [
  | inl (e, refused) ↦ rw refused (r, here, inl refl)
  | inr (done, _) ↦ rw done (
    revoke_for key at r,
    rw (lookup-map_values (λ id q. revoke_for key at q) j s.records, here) refl,
    revoke_for-Evolves key at r,
  )
]

-- No call takes a record away; a record that is no longer issued never changes again, and the
-- claims of a record never change.
pub step-Kept :
    (c : Call) (j : Bytes) (r : Record) (s : Store)
    → lookup j s.records ≡ some r
    → Kept j r (step c s)
unfolding step
step-Kept (registers c) j r s here = register-Kept c j r s here
step-Kept (gets id now) j r s here = get-Kept id now j r s here
step-Kept (lists now) j r s here = list-Kept now j r s here
step-Kept (consumes id now) j r s here = consume-Kept id now j r s here
step-Kept (revokes id at) j r s here = revoke-Kept id at j r s here
step-Kept (transitions key on at) j r s here = transitions-Kept key on at j r s here

Evolves-trans : (r q p : Record) → Evolves r q → Evolves q p → Evolves r p
Evolves-trans r q p a b = ground arith

pub run-Kept :
    (cs : List Call) (j : Bytes) (r : Record) (s : Store)
    → lookup j s.records ≡ some r
    → Kept j r (run cs s)
unfolding run
run-Kept [] j r s here = (r, here, inl refl)
run-Kept (c ∷ cs) j r s here =
    let (q, found, to) = step-Kept c j r s here in
    let (p, there, on) = run-Kept cs j q (step c s) found in (p, there, Evolves-trans r q p to on)
