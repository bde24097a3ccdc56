-- ===== src/Permit/Store/Lifecycle.antt =====
-- The life of a permit under MemoryStore.Consume and MemoryStore.Revoke of
-- internal/permit/store.go, over any history of calls.
use aegis_router.Base.{
  ◌≢◌, ◌↔◌, ok, ◌!=◌, ℕ, ◌+◌, ◌≤◌, ◌≡◌, refl, ◌⊎◌, inl, inr, Bool, true, false, not, ◌==◌, ◌&&◌,
  List, [], ◌∷◌, some, arith, Option-cases, Bool-cases, if◌then◌else◌, and_true, eq_iff, subst, ◌↔◌,
}
use aegis_router.Base.Int.{int_eq, ◌<ℤ◌, ◌*ℤ◌}
use aegis_router.Base.Dict.{lookup, lookup-insert, lookup-insert_self}
use aegis_router.Text.{Bytes, bytes_eq, is_empty, is_nonempty}
use aegis_router.Time.{Time, is_zero, before, second, unix_time}
use aegis_router.Permit.Claims.{Claims, expires_time}
use aegis_router.Permit.Authority.{key_of}
use aegis_router.Permit.Store.{
  State, state_eq, issued, consumed, expired, revoked, unset, Record, Store, Consumption, succeeded,
  expired_before, replayed, revoked_before, unknown, put, expire_if_needed, authority_moved,
  authority, consume_found, consume, revoke,
}
use aegis_router.Permit.Store.Steps.{
  Call, registers, gets, lists, consumes, revokes, transitions, step, run, is_final, step-Kept,
  run-Kept,
}

-- What Consume answers for a record that is no longer issued.
abbrev pub settled_outcome : State → Consumption
settled_outcome issued = succeeded
settled_outcome consumed = replayed
settled_outcome expired = expired_before
settled_outcome revoked = revoked_before
settled_outcome unset = unknown

expire_final : (r : Record) (now : Time) → is_final r.state ≡ true → expire_if_needed r now ≡ r
unfolding expire_if_needed
expire_final r now h = ground arith

consume_found_final :
    (id : Bytes) (now : Time) (r : Record) (s : Store)
    → is_final r.state ≡ true
    → (consume_found id now r s).1 ≡ record { outcome = settled_outcome r.state; found = r }
unfolding consume_found
consume_found_final id now r s h = ground arith

pub consume_final :
    (id : Bytes) (now : Time) (r : Record) (s : Store)
    → lookup id s.records ≡ some r
    → is_final r.state ≡ true
    → (consume id now s).1 ≡ record { outcome = settled_outcome r.state; found = r }
unfolding consume
consume_final id now r s found final =
    rw (found, consume) (rw (expire_final r now final) (consume_found_final id now r s final))

-- When a permit may be consumed: it is issued, its time has not come, and its authority stands.
pub record Usable (id : Bytes) (now : Time) (s : Store) (r : Record) : Type 0 where
  pub found : lookup id s.records ≡ some r
  pub active : r.state ≡ issued
  pub alive : (is_zero now ≡ true) ⊎ (before now (expires_time r.claims) ≡ true)
  pub authorised : authority_moved r.claims s ≡ false

-- What a successful Consume leaves.
abbrev pub spent : Record → Time → Record
spent r now = record r { state = consumed; consumed_at = some now }

pub expire_alive :
    (r : Record) (now : Time)
    → (is_zero now ≡ true) ⊎ (before now (expires_time r.claims) ≡ true)
    → expire_if_needed r now ≡ r
unfolding expire_if_needed
expire_alive r now (inl z) = rw (expire_if_needed, z) (ground arith)
expire_alive r now (inr b) = rw (expire_if_needed, b) (ground arith)

pub expire_active :
    (r : Record) (now : Time)
    → (expire_if_needed r now).state ≡ issued
    → (expire_if_needed r now ≡ r)
      × (r.state ≡ issued)
      × ((is_zero now ≡ true) ⊎ (before now (expires_time r.claims) ≡ true))
unfolding expire_if_needed
expire_active r now h = ground arith

consume_found_active :
    (id : Bytes) (now : Time) (r : Record) (s : Store)
    → r.state ≡ issued
    → authority_moved r.claims s ≡ false
    → consume_found id now r s
      ≡ (put id (spent r now) s, record { outcome = succeeded; found = spent r now })
unfolding consume_found
consume_found_active id now r s active authorised = ground arith

consume_found_succeeded :
    (id : Bytes) (now : Time) (r : Record) (s : Store)
    → (consume_found id now r s).1.outcome ≡ succeeded
    → (r.state ≡ issued) × (authority_moved r.claims s ≡ false)
unfolding consume_found
consume_found_succeeded id now r s h = ground arith

pub consume-Usable :
    (id : Bytes) (now : Time) (s : Store) (r : Record)
    → Usable id now s r
    → consume id now s
      ≡ (put id (spent r now) s, record { outcome = succeeded; found = spent r now })
unfolding consume
consume-Usable id now s r u =
    rw (u.found, consume)
      (rw (expire_alive r now u.alive) (consume_found_active id now r s u.active u.authorised))

pub consume_succeeded :
    (id : Bytes) (now : Time) (s : Store)
    → (consume id now s).1.outcome ≡ succeeded
    → (r : Record) × Usable id now s r
unfolding consume
consume_succeeded id now s h = elim (Option-cases (lookup id s.records)) [
  | inl missing ↦ absurd (cc (rw (missing, consume) at h))
  | inr (r, found) ↦
      let (active, authorised) =
        consume_found_succeeded id now (expire_if_needed r now) s (rw (found, consume) at h) in
      let (same, was, alive) = expire_active r now active in
      (r, record { found = found; active = was; alive = alive; authorised = rw same at authorised })
]

nonempty_not : (s : Bytes) → is_nonempty s ≡ not (is_empty s)
nonempty_not [] = refl
nonempty_not (b ∷ s) = refl

-- Claims without an execution binding, or those of the present epoch of an enabled domain.
abbrev pub HasAuthority : Claims → Store → Type 0
HasAuthority c s =
    (is_empty c.execution_binding ≡ true)
    ⊎ (((authority (key_of c) s).enabled ≡ true)
        × (c.authority_epoch ≡ (authority (key_of c) s).epoch))

authority_moved_iff : (c : Claims) (s : Store) → (authority_moved c s ≡ false) ↔ HasAuthority c s
unfolding authority_moved
authority_moved_iff c s = ground (arith, nonempty_not c.execution_binding)

-- When a permit may be consumed, in the terms of its record: it is issued, its time has not come, and its
-- authority stands.
pub record IsConsumable (id : Bytes) (now : Time) (s : Store) (r : Record) : Type 0 where
  pub found : lookup id s.records ≡ some r
  pub active : r.state ≡ issued
  pub alive : (is_zero now ≡ true) ⊎ (now <ℤ (r.claims.expires_at *ℤ second))
  pub authorised : HasAuthority r.claims s

Usable-IsConsumable :
    (id : Bytes) (now : Time) (s : Store) (r : Record) → Usable id now s r → IsConsumable id now s r
unfolding expires_time unix_time
Usable-IsConsumable id now s r u = record {
  found = u.found;
  active = u.active;
  alive = ground (arith, u.alive);
  authorised = (authority_moved_iff r.claims s).0 u.authorised;
}

IsConsumable-Usable :
    (id : Bytes) (now : Time) (s : Store) (r : Record) → IsConsumable id now s r → Usable id now s r
unfolding expires_time unix_time
IsConsumable-Usable id now s r u = record {
  found = u.found;
  active = u.active;
  alive = ground (arith, u.alive);
  authorised = (authority_moved_iff r.claims s).1 u.authorised;
}

-- The permit is consumed, the record of another identifier and the domains stay.
pub record IsSpent (id j : Bytes) (now : Time) (s t : Store) (r : Record) : Type 0 where
  pub written : lookup id t.records ≡ some (record r { state = consumed; consumed_at = some now })
  pub kept : lookup j t.records ≡ lookup j s.records
  pub domains : t.authorities ≡ s.authorities

put-IsSpent :
    (id j : Bytes) (now : Time) (s : Store) (r : Record)
    → j ≢ id
    → IsSpent id j now s (put id (spent r now) s) r
put-IsSpent id j now s r apart = record {
  written = lookup-insert_self id (spent r now) s.records;
  kept = ground (arith, lookup-insert id j (spent r now) s.records);
  domains = refl;
}

-- Consume succeeds exactly for a permit that is stored and issued, has not expired (or the time
-- given is zero), and has no execution binding or the present epoch of a domain that is enabled;
-- it then leaves the permit consumed at that time, and the record of every other identifier and
-- the domains as they were.
pub consume_succeeds_iff :
    (id j : Bytes) (now : Time) (s : Store)
    → j ≢ id
    → (((consume id now s).1.outcome ≡ succeeded)
        ↔ ((r : Record) × IsConsumable id now s r × IsSpent id j now s (consume id now s).0 r))
consume_succeeds_iff id j now s apart = (
  λ h.
      let (r, u) = consume_succeeded id now s h in
      (
        r,
        Usable-IsConsumable id now s r u,
        rw (consume-Usable id now s r u) (put-IsSpent id j now s r apart),
      ),
  λ (r, u, _). rw (consume-Usable id now s r (IsConsumable-Usable id now s r u)),
)

consume_spends :
    (id : Bytes) (now : Time) (s : Store)
    → (consume id now s).1.outcome ≡ succeeded
    → (r : Record) × (lookup id (consume id now s).0.records ≡ some r)
      × (is_final r.state ≡ true)
      × (r.state ≡ consumed)
consume_spends id now s h =
    let (r, u) = consume_succeeded id now s h in
    (
      spent r now,
      rw (consume-Usable id now s r u) (lookup-insert_self id (spent r now) s.records),
      refl,
      refl,
    )

pub final-run :
    (cs : List Call) (id : Bytes) (r : Record) (s : Store)
    → lookup id s.records ≡ some r
    → is_final r.state ≡ true
    → lookup id (run cs s).records ≡ some r
final-run cs id r s found final =
    let (q, there, to) = run-Kept cs id r s found in ground (arith, there)

-- A permit that is consumed is answered REPLAYED by every later Consume, whatever calls come
-- between.
pub consume_twice :
    (id : Bytes) (now later : Time) (cs : List Call) (s : Store)
    → (consume id now s).1.outcome ≡ succeeded
    → (consume id later (run cs (consume id now s).0)).1.outcome ≡ replayed
consume_twice id now later cs s h =
    let t = (consume id now s).0 in
    let (r, found, final, state) = consume_spends id now s h in
    let answer = consume_final id later r (run cs t) (final-run cs id r t found final) final in
    rw answer (rw state)

-- Whether a call is a Consume of this permit that succeeds.
abbrev pub is_success : Consumption → Bool
is_success succeeded = true
is_success _ = false

abbrev pub spends : Bytes → Call → Store → Bool
spends id (consumes j now) s = j == id && is_success (consume j now s).1.outcome
spends id _ s = false

-- How many calls of a history consume the permit.
unfoldable pub successes : Bytes → List Call → Store → ℕ
successes id [] s = 0
successes id (c ∷ cs) s = (if spends id c s then 1 else 0) + successes id cs (step c s)

spends_final :
    (id : Bytes) (c : Call) (r : Record) (s : Store)
    → lookup id s.records ≡ some r
    → is_final r.state ≡ true
    → spends id c s ≡ false
spends_final id (consumes j now) r s found final = ground (arith, consume_final j now r s)
spends_final id (registers c) r s found final = refl
spends_final id (gets j now) r s found final = refl
spends_final id (lists now) r s found final = refl
spends_final id (revokes j at) r s found final = refl
spends_final id (transitions key on at) r s found final = refl

successes_final :
    (id : Bytes) (cs : List Call) (r : Record) (s : Store)
    → lookup id s.records ≡ some r
    → is_final r.state ≡ true
    → successes id cs s ≡ 0
unfolding successes
successes_final id [] r s found final = refl
successes_final id (c ∷ cs) r s found final =
    let still : lookup id (step c s).records ≡ some r =
      let (q, there, to) = step-Kept c id r s found in ground (arith, there) in
    rw (spends_final id c r s found final)
      (omega (arith, successes_final id cs r (step c s) still final))

spends_once :
    (id : Bytes) (c : Call) (cs : List Call) (s : Store)
    → spends id c s ≡ true
    → successes id cs (step c s) ≡ 0
unfolding step
spends_once id (consumes j now) cs s h =
    let (same, done) = and_true (j == id) _ h in
    let (r, found, final, _) = consume_spends j now s (ground arith) in
    let t = (consume j now s).0 in
    successes_final id cs r t
      (subst (λ k. lookup k t.records ≡ some r) ((eq_iff j id).0 same) found) final
spends_once id (registers c) cs s h = absurd (cc h)
spends_once id (gets j now) cs s h = absurd (cc h)
spends_once id (lists now) cs s h = absurd (cc h)
spends_once id (revokes j at) cs s h = absurd (cc h)
spends_once id (transitions key on at) cs s h = absurd (cc h)

successes_head :
    (id : Bytes) (c : Call) (cs : List Call) (s : Store)
    → successes id (c ∷ cs) s ≡ (if spends id c s then 1 else 0) + successes id cs (step c s)
unfolding successes
successes_head id c cs s = refl

-- No history of calls of the store consumes a permit twice.
pub single_use : (id : Bytes) (cs : List Call) (s : Store) → successes id cs s ≤ 1
single_use id [] s = unfold successes in omega arith
single_use id (c ∷ cs) s = elim (Bool-cases (spends id c s)) [
  | inl h ↦ ground (arith, successes_head id c cs s, spends_once id c cs s h)
  | inr h ↦ ground (arith, successes_head id c cs s, single_use id cs (step c s))
]

revoke_settles :
    (id : Bytes) (at : Time) (s : Store)
    → (revoke id at s).2 ≡ ok tt
    → (r : Record) × (lookup id (revoke id at s).0.records ≡ some r) × (r.state ≡ revoked)
unfolding revoke
revoke_settles id at s h = elim (Option-cases (lookup id s.records)) [
  | inl missing ↦ absurd (cc (rw (missing, revoke) at h))
  | inr (q, found) ↦ elim (Bool-cases ((expire_if_needed q at).state != issued)) [
    | inl settled ↦ absurd (cc (rw settled at (rw (found, revoke) at h)))
    | inr active ↦
        rw (found, revoke) (rw active (_, lookup-insert_self id (withdrawn q) s.records, refl))
  ]
]
  where
    withdrawn : Record → Record
    withdrawn q = record (expire_if_needed q at) { state = revoked; revoked_at = some at }

-- A permit that Revoke withdraws is answered REVOKED by every later Consume, whatever calls come
-- between.
pub revoke_stops :
    (id : Bytes) (at later : Time) (cs : List Call) (s : Store)
    → (revoke id at s).2 ≡ ok tt
    → (consume id later (run cs (revoke id at s).0)).1.outcome ≡ revoked_before
revoke_stops id at later cs s h =
    let t = (revoke id at s).0 in
    let (r, found, state) = revoke_settles id at s h in
    let final : is_final r.state ≡ true = rw state in
    let answer = consume_final id later r (run cs t) (final-run cs id r t found final) final in
    rw answer (rw state)

-- A record that is not issued is never consumed.
pub inactive_never_consumed :
    (id : Bytes) (later : Time) (cs : List Call) (r : Record) (s : Store)
    → lookup id s.records ≡ some r
    → (r.state == issued) ≡ false
    → (consume id later (run cs s)).1.outcome ≢ succeeded
inactive_never_consumed id later cs r s found inactive h =
    let (q, u) = consume_succeeded id later (run cs s) h in
    let (p, there, to) = run-Kept cs id r s found in ground (arith, there, u.found, u.active)
