-- ===== src/Permit/Store/Entries.antt =====
-- What an entry of the store of internal/permit/store.go looks like: a record under its permit's
-- identifier, with valid claims and the time stamps of its state and no other.
use aegis_router.Base.{◌≡◌, refl, ◌⊎◌, inl, inr, none, some, arith, ok, subst}
use aegis_router.Text.{Bytes, bytes_eq}
use aegis_router.Time.{Time}
use aegis_router.Permit.Claims.{expires_time, validate}
use aegis_router.Permit.Authority.{AuthorityKey}
use aegis_router.Permit.Store.{
  State, state_eq, issued, consumed, expired, revoked, unset, Record, expire_if_needed, revoke_for,
}

-- The time stamps that a state asks for.
abbrev pub Stamped : State → Record → Type 0
Stamped issued r = (r.consumed_at ≡ none) × (r.expired_at ≡ none) × (r.revoked_at ≡ none)
Stamped consumed r =
    ((t : Time) × (r.consumed_at ≡ some t)) × (r.expired_at ≡ none) × (r.revoked_at ≡ none)
Stamped expired r =
    (r.consumed_at ≡ none) × (r.expired_at ≡ some (expires_time r.claims)) × (r.revoked_at ≡ none)
Stamped revoked r =
    (r.consumed_at ≡ none) × (r.expired_at ≡ none) × ((t : Time) × (r.revoked_at ≡ some t))
Stamped unset r = ⊥

pub record IsEntry (id : Bytes) (r : Record) : Type 0 where
  pub keyed : r.claims.permit_id ≡ id
  pub valid : validate r.claims ≡ ok tt
  pub stamped : Stamped r.state r

pub spent-IsEntry :
    (id : Bytes) (now : Time) (r : Record)
    → IsEntry id r
    → r.state ≡ issued
    → IsEntry id (record r { state = consumed; consumed_at = some now })
spent-IsEntry id now r h active =
    let stamps = subst (λ st. Stamped st r) active h.stamped in
    record { keyed = h.keyed; valid = h.valid; stamped = ((now, refl), stamps.1, stamps.2) }

pub withdrawn-IsEntry :
    (id : Bytes) (at : Time) (r : Record)
    → IsEntry id r
    → r.state ≡ issued
    → IsEntry id (record r { state = revoked; revoked_at = some at })
withdrawn-IsEntry id at r h active =
    let stamps = subst (λ st. Stamped st r) active h.stamped in
    record { keyed = h.keyed; valid = h.valid; stamped = (stamps.0, stamps.1, (at, refl)) }

expire_cases :
    (r : Record) (now : Time)
    → (expire_if_needed r now ≡ r)
      ⊎ ((r.state ≡ issued)
          × (expire_if_needed r now
              ≡ record r { state = expired; expired_at = some (expires_time r.claims) }))
unfolding expire_if_needed
expire_cases r now = ground arith

pub expire-IsEntry :
    (id : Bytes) (now : Time) (r : Record) → IsEntry id r → IsEntry id (expire_if_needed r now)
expire-IsEntry id now r h = elim (expire_cases r now) [
  | inl same ↦ rw same h
  | inr (active, over) ↦
      let stamps = subst (λ st. Stamped st r) active h.stamped in
      rw over (record { keyed = h.keyed; valid = h.valid; stamped = (stamps.0, refl, stamps.2) })
]

revoke_for_cases :
    (key : AuthorityKey) (at : Time) (r : Record)
    → (revoke_for key at r ≡ r)
      ⊎ ((r.state ≡ issued)
          × (revoke_for key at r ≡ record r { state = revoked; revoked_at = some at }))
unfolding revoke_for
revoke_for_cases key at r = ground arith

pub revoke_for-IsEntry :
    (key : AuthorityKey) (at : Time) (id : Bytes) (r : Record)
    → IsEntry id r
    → IsEntry id (revoke_for key at r)
revoke_for-IsEntry key at id r h = elim (revoke_for_cases key at r) [
  | inl same ↦ rw same h
  | inr (active, written) ↦ rw written (withdrawn-IsEntry id at r h active)
]
