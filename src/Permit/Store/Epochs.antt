-- ===== src/Permit/Store/Epochs.antt =====
-- Authority epochs of internal/permit/authority.go over any history of calls on the store.
use aegis_router.Base.{
  suc, ◌≤◌, ◌≡◌, ◌≢◌, refl, ◌⊎◌, inl, inr, Bool, true, false, ◌==◌, nat_eq, List, [], ◌∷◌, some,
  arith, ok,
}
use aegis_router.Base.Dict.{lookup, lookup-insert, lookup-map_values}
use aegis_router.Text.{Bytes, bytes_eq, is_nonempty}
use aegis_router.Time.{Time}
use aegis_router.Permit.Claims.{Claims, execution, class_eq}
use aegis_router.Permit.Authority.{
  AuthorityKey, authority_key_eq, AuthorityState, authority_in, key_of, max_epoch,
}
use aegis_router.Permit.Store.{
  state_eq, Record, Store, succeeded, authority, authority_moved, next_state, rotated, revoke_for,
  register_valid, register, get, consume_found, consume, revoke, list, set_authority_enabled,
}
use aegis_router.Permit.Store.Steps.{
  Call, registers, gets, lists, consumes, revokes, transitions, step, run, transition_cases,
}
use aegis_router.Permit.Store.Lifecycle.{inactive_never_consumed}

-- The state of a domain after a transition of a domain.
authority-rotated :
    (key j : AuthorityKey) (on : Bool) (at : Time) (s : Store)
    → authority j (rotated key on at s)
      ≡ elim (key == j) [ true ↦ next_state key on s | false ↦ authority j s ]
unfolding authority_in
authority-rotated key j on at s =
    ground (arith, lookup-insert key j (next_state key on s) s.authorities)

authorities-register : (c : Claims) (s : Store) → (register c s).0.authorities ≡ s.authorities
unfolding register register_valid
authorities-register c s = ground arith

authorities-get :
    (id : Bytes) (now : Time) (s : Store) → (get id now s).0.authorities ≡ s.authorities
unfolding get
authorities-get id now s = ground arith

authorities-consume :
    (id : Bytes) (now : Time) (s : Store) → (consume id now s).0.authorities ≡ s.authorities
unfolding consume consume_found
authorities-consume id now s = ground arith

authorities-revoke :
    (id : Bytes) (at : Time) (s : Store) → (revoke id at s).0.authorities ≡ s.authorities
unfolding revoke
authorities-revoke id at s = ground arith

authorities-list : (now : Time) (s : Store) → (list now s).0.authorities ≡ s.authorities
unfolding list
authorities-list now s = refl

-- A call leaves a domain alone, or is its transition and moves it to the next epoch.
abbrev pub Moves : AuthorityKey → Store → Store → Type 0
Moves key s t =
    (authority key t ≡ authority key s)
    ⊎ (((authority key t).epoch ≡ suc (authority key s).epoch)
        × ((authority key s).epoch ≢ max_epoch))

same_authorities :
    (key : AuthorityKey) (s t : Store) → t.authorities ≡ s.authorities → Moves key s t
same_authorities key s t e = inl (rw e)

transitions-Moves :
    (k : AuthorityKey) (on : Bool) (at : Time) (key : AuthorityKey) (s : Store)
    → Moves key s (set_authority_enabled k on at s).0
transitions-Moves k on at key s = elim (transition_cases k on at s) [
  | inl (e, refused) ↦ rw refused (inl refl)
  | inr (done, room) ↦ rw done (ground (arith, authority-rotated k key on at s))
]

pub step-Moves : (c : Call) (key : AuthorityKey) (s : Store) → Moves key s (step c s)
unfolding step
step-Moves (registers c) key s = same_authorities key s (register c s).0 (authorities-register c s)
step-Moves (gets id now) key s = same_authorities key s (get id now s).0 (authorities-get id now s)
step-Moves (lists now) key s = same_authorities key s (list now s).0 (authorities-list now s)
step-Moves (consumes id now) key s =
    same_authorities key s (consume id now s).0 (authorities-consume id now s)
step-Moves (revokes id at) key s =
    same_authorities key s (revoke id at s).0 (authorities-revoke id at s)
step-Moves (transitions k on at) key s = transitions-Moves k on at key s

-- The epoch of a domain never falls over a history of calls.
pub epoch-run :
    (cs : List Call) (key : AuthorityKey) (s : Store)
    → (authority key s).epoch ≤ (authority key (run cs s)).epoch
unfolding run
epoch-run [] key s = omega arith
epoch-run (c ∷ cs) key s = ground (arith, step-Moves c key s, epoch-run cs key (step c s))

-- The epoch of a domain that starts within uint64 stays within it over a history of calls, so that
-- the increment does not wrap.
pub epoch_bounded :
    (cs : List Call) (key : AuthorityKey) (s : Store)
    → (authority key s).epoch ≤ max_epoch
    → (authority key (run cs s)).epoch ≤ max_epoch
unfolding run
epoch_bounded [] key s h = h
epoch_bounded (c ∷ cs) key s h =
    epoch_bounded cs key (step c s) (ground (arith, step-Moves c key s))

-- Disabling or refreshing a domain stops each of its execution permits for good: once the
-- transition succeeds, no Consume of such a permit does, whatever calls come between, another
-- transition included.
pub transition_stops :
    (key : AuthorityKey) (on : Bool) (at later : Time) (id : Bytes) (r : Record) (cs : List Call)
    (s : Store) (after : AuthorityState)
    → (set_authority_enabled key on at s).1 ≡ ok after
    → lookup id s.records ≡ some r
    → r.claims.permit_class ≡ execution
    → key_of r.claims ≡ key
    → (consume id later (run cs (set_authority_enabled key on at s).0)).1.outcome ≢ succeeded
unfolding revoke_for
transition_stops key on at later id r cs s after h found class mine =
    elim (transition_cases key on at s) [
      | inl (e, refused) ↦ absurd (cc (rw refused at h))
      | inr (done, _) ↦ rw done (
          inactive_never_consumed id later cs (revoke_for key at r) (rotated key on at s)
            (rw (lookup-map_values (λ j q. revoke_for key at q) id s.records, found) refl)
            (ground arith))
    ]

register_stale :
    (c : Claims) (s : Store)
    → is_nonempty c.execution_binding ≡ true
    → c.authority_epoch ≢ (authority (key_of c) s).epoch
    → (register c s).1 ≢ ok tt
unfolding register register_valid authority_moved
register_stale c s bound stale h = ground arith

epoch-rotated :
    (key : AuthorityKey) (on : Bool) (at : Time) (s : Store)
    → (authority key (rotated key on at s)).epoch ≡ suc (authority key s).epoch
epoch-rotated key on at s = ground (arith, authority-rotated key key on at s)

-- Claims with an execution binding and an epoch that is not above the one before a transition of
-- their domain are never registered after it, whatever calls come between.
pub transition_bars :
    (on : Bool) (at : Time) (c : Claims) (cs : List Call) (s : Store) (after : AuthorityState)
    → (set_authority_enabled (key_of c) on at s).1 ≡ ok after
    → is_nonempty c.execution_binding ≡ true
    → c.authority_epoch ≤ (authority (key_of c) s).epoch
    → (register c (run cs (set_authority_enabled (key_of c) on at s).0)).1 ≢ ok tt
transition_bars on at c cs s after h bound old = elim (transition_cases (key_of c) on at s) [
  | inl (e, refused) ↦ absurd (cc (rw refused at h))
  | inr (done, _) ↦
      let t = rotated (key_of c) on at s in
      let above = epoch-run cs (key_of c) t in
      let next = epoch-rotated (key_of c) on at s in
      let stale : c.authority_epoch ≢ (authority (key_of c) (run cs t)).epoch =
        omega (arith, above, next) in
      rw done (register_stale c (run cs t) bound stale)
]
