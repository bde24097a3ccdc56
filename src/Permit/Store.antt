-- ===== src/Permit/Store.antt =====
-- internal/permit/store.go and the transition of internal/permit/authority.go: the in-memory permit
-- store. Each method runs under one mutex, so it is one function from a store to a store and a
-- result; a call that a method makes on the error paths included.
pub mod Steps
pub mod Lifecycle
pub mod Epochs
pub mod Entries
pub mod Invariant
pub mod Listing
pub mod Revocation
use aegis_router.Base.{
  ℕ, suc, Bool, true, false, not, ◌&&◌, ◌||◌, List, [], ◌∷◌, Option, none, some, ltb, ◌==◌, ◌!=◌,
  Eq, nat_eq, ℕ_discrete, Result, ok, err, ◌>>=◌, ◌>>◌, if◌then◌else◌,
}
use aegis_router.Base.Int.{pos, ltb_ℤ, int_eq, ℤ-discrete}
use aegis_router.Base.Dict.{lookup, insert, map_values}
use aegis_router.Text.{Bytes, Bytes-discrete, bytes_eq, is_nonempty}
use aegis_router.Time.{Time, is_zero, before}
use aegis_router.Permit.Claims.{
  Error, permit_exists, permit_not_found, permit_not_active, authority_changed, timestamp_required,
  epoch_exhausted, Class, execution, other_class, Class-discrete, class_eq, Claims, expires_time,
  validate, validate_metadata,
}
use aegis_router.Permit.Authority.{
  AuthorityKey, AuthorityKey-discrete, authority_key_eq, AuthorityState, Authorities, authority_in,
  key_of, max_epoch,
}

-- State; `unset` is the empty string of a zero Record.
pub data State : Type 0 where
  issued consumed expired revoked unset : State

unfoldable pub State-discrete : Discrete State
State-discrete = hlevel

instance abbrev pub state_eq : Eq State
state_eq = record { eq_dec = State-discrete }

pub record Record : Type 0 where
  pub claims : Claims
  pub state : State
  pub consumed_at : Option Time
  pub expired_at : Option Time
  pub revoked_at : Option Time

abbrev pub zero_claims : Claims
zero_claims = record {
  permit_id = [];
  signing_key_id = [];
  permit_class = other_class [];
  request_id = [];
  principal_id = [];
  agent_id = [];
  workload_id = [];
  executor_key_id = [];
  executor_key_thumbprint = [];
  delegated_authority_fingerprint = [];
  tool = [];
  capability = [];
  resource = [];
  operation = [];
  profile_id = [];
  audience = [];
  action_digest = [];
  execution_binding = [];
  authority_epoch = 0;
  policy_version = [];
  obligations = record {
    isolation_required = false;
    network_egress_denied = false;
    read_only = false;
    human_approval_required = false;
    enhanced_audit_required = false;
  };
  issuer = [];
  issued_at = pos 0;
  expires_at = pos 0;
  single_use = false;
}

-- Record{}
abbrev pub zero_record : Record
zero_record = record {
  claims = zero_claims;
  state = unset;
  consumed_at = none;
  expired_at = none;
  revoked_at = none;
}

-- ConsumeOutcome
pub data Consumption : Type 0 where
  succeeded expired_before replayed revoked_before unknown : Consumption

pub record ConsumeResult : Type 0 where
  pub outcome : Consumption
  pub found : Record

-- MemoryStore, without its mutex. A nil map reads as an empty one.
pub record Store : Type 0 where
  pub records : List (Bytes × Record)
  pub authorities : Authorities

-- NewMemoryStore
abbrev pub empty_store : Store
empty_store = record { records = []; authorities = [] }

abbrev pub put : Bytes → Record → Store → Store
put id r s = record s { records = insert id r s.records }

unfoldable pub expire_if_needed : Record → Time → Record
expire_if_needed r now =
    if r.state != issued || is_zero now
    then r
    else if not (before now (expires_time r.claims))
    then record r { state = expired; expired_at = some (expires_time r.claims) }
    else r

-- MemoryStore.Authority
abbrev pub authority : AuthorityKey → Store → AuthorityState
authority key s = authority_in s.authorities key

-- The test of Register and Consume for a claim with an execution binding.
unfoldable pub authority_moved : Claims → Store → Bool
authority_moved c s =
    is_nonempty c.execution_binding
    && (not (authority (key_of c) s).enabled || c.authority_epoch != (authority (key_of c) s).epoch)

-- The record that Register writes.
abbrev pub fresh_record : Claims → Record
fresh_record c = record {
  claims = c;
  state = issued;
  consumed_at = none;
  expired_at = none;
  revoked_at = none;
}

-- MemoryStore.Register after the validation of the claims
unfoldable pub register_valid : Claims → Store → Store × Result Error (Unit {0})
register_valid c s = elim (lookup c.permit_id s.records) [
  | some _ ↦ (s, err permit_exists)
  | none ↦
      if authority_moved c s
      then (s, err authority_changed)
      else (put c.permit_id (fresh_record c) s, ok tt)
]

-- MemoryStore.Register
unfoldable pub register : Claims → Store → Store × Result Error (Unit {0})
register c s = elim (validate c) [ err e ↦ (s, err e) | ok _ ↦ register_valid c s ]

-- MemoryStore.Get
unfoldable pub get : Bytes → Time → Store → Store × Option Record
get id now s = elim (lookup id s.records) [
  | none ↦ (s, none)
  | some r ↦ (put id (expire_if_needed r now) s, some (expire_if_needed r now))
]

-- MemoryStore.Consume once the record is read and expired if its time has come
unfoldable pub consume_found : Bytes → Time → Record → Store → Store × ConsumeResult
consume_found id now r s = elim r.state [
  | issued ↦
      if authority_moved r.claims s
      then (
        put id (record r { state = revoked; revoked_at = some now }) s,
        record {
          outcome = revoked_before;
          found = record r { state = revoked; revoked_at = some now };
        },
      )
      else (
        put id (record r { state = consumed; consumed_at = some now }) s,
        record {
          outcome = succeeded;
          found = record r { state = consumed; consumed_at = some now };
        },
      )
  | consumed ↦ (s, record { outcome = replayed; found = r })
  | expired ↦ (put id r s, record { outcome = expired_before; found = r })
  | revoked ↦ (s, record { outcome = revoked_before; found = r })
  | unset ↦ (s, record { outcome = unknown; found = r })
]

-- MemoryStore.Consume
unfoldable pub consume : Bytes → Time → Store → Store × ConsumeResult
consume id now s = elim (lookup id s.records) [
  | none ↦ (s, record { outcome = unknown; found = zero_record })
  | some r ↦ consume_found id now (expire_if_needed r now) s
]

-- MemoryStore.Revoke: the record that is returned beside an error is part of the result
unfoldable pub revoke : Bytes → Time → Store → Store × Record × Result Error (Unit {0})
revoke id at s = elim (lookup id s.records) [
  | none ↦ (s, zero_record, err permit_not_found)
  | some r ↦
      let x = expire_if_needed r at in
      if x.state != issued then (put id x s, x, err permit_not_active) else (
        put id (record x { state = revoked; revoked_at = some at }) s,
        record x { state = revoked; revoked_at = some at },
        ok tt,
      )
]

-- The body of the last loop of SetAuthorityEnabled.
unfoldable pub revoke_for : AuthorityKey → Time → Record → Record
revoke_for key at r =
    if r.state == issued && r.claims.permit_class == execution && key_of r.claims == key
    then record r { state = revoked; revoked_at = some at }
    else r

-- The checks of SetAuthorityEnabled. The source visits the three names in no fixed order, so which
-- of several errors is returned is a choice of the model.
unfoldable pub check_transition : AuthorityKey → Time → Result Error (Unit {0})
check_transition key at = do
  validate_metadata "principal" key.principal_id 512 true
  validate_metadata "agent" key.agent_id 512 true
  validate_metadata "workload" key.workload_id 512 true
  if is_zero at then err timestamp_required else ok tt

-- The state that the transition writes.
abbrev pub next_state : AuthorityKey → Bool → Store → AuthorityState
next_state key on s = record { epoch = suc (authority key s).epoch; enabled = on }

abbrev pub rotated : AuthorityKey → Bool → Time → Store → Store
rotated key on at s = record {
  records = map_values (λ id r. revoke_for key at r) s.records;
  authorities = insert key (next_state key on s) s.authorities;
}

-- SetAuthorityEnabled after its checks
unfoldable pub transition : AuthorityKey → Bool → Time → Store → Store × Result Error AuthorityState
transition key on at s =
    if (authority key s).epoch == max_epoch
    then (s, err epoch_exhausted)
    else (rotated key on at s, ok (next_state key on s))

-- MemoryStore.SetAuthorityEnabled
unfoldable pub set_authority_enabled :
    AuthorityKey → Bool → Time → Store → Store × Result Error AuthorityState
set_authority_enabled key on at s = elim (check_transition key at) [
  | err e ↦ (s, err e)
  | ok _ ↦ transition key on at s
]

-- The order of List: later issue times first, then by permit identifier.
unfoldable pub bytes_ltb : Bytes → Bytes → Bool
bytes_ltb [] [] = false
bytes_ltb [] (b ∷ t) = true
bytes_ltb (a ∷ s) [] = false
bytes_ltb (a ∷ s) (b ∷ t) = ltb a b || (a == b && bytes_ltb s t)

unfoldable pub listed_before : Record → Record → Bool
listed_before r q =
    if r.claims.issued_at == q.claims.issued_at
    then bytes_ltb r.claims.permit_id q.claims.permit_id
    else ltb_ℤ q.claims.issued_at r.claims.issued_at

-- sort.Slice by that order
unfoldable pub place : Record → List Record → List Record
place r [] = r ∷ []
place r (q ∷ qs) = if listed_before q r then q ∷ place r qs else r ∷ q ∷ qs

unfoldable pub sort_records : List Record → List Record
sort_records [] = []
sort_records (r ∷ rs) = place r (sort_records rs)

abbrev pub values : List (Bytes × Record) → List Record
values [] = []
values ((id, r) ∷ m) = r ∷ values m

-- MemoryStore.List
unfoldable pub list : Time → Store → Store × List Record
list now s =
    let aged = map_values (λ id r. expire_if_needed r now) s.records in
    (record s { records = aged }, sort_records (values aged))
