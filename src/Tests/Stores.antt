-- ===== src/Tests/Stores.antt =====
-- The theorems on the permit store, at a permit that is registered, consumed and revoked.
use aegis_router.Base.{
  ℕ, ◌≡◌, ◌≢◌, ◌≤◌, refl, ap, ok, some, ℕ_discrete, List, [], ◌∷◌, true, false, arith, ◌↔◌,
}
use aegis_router.Base.Dict.{lookup}
use mathlib.Core.List.{Perm}
use aegis_router.Text.{str, bytes_eq}
use aegis_router.Permit.Claims.{validate}
use aegis_router.Permit.Claims.Validity.{IsValid, validate_iff}
use aegis_router.Permit.Authority.{AuthorityState, key_of}
use aegis_router.Permit.Store.{
  Record, Store, empty_store, fresh_record, put, register, consume, revoke, succeeded, replayed,
  revoked_before, set_authority_enabled, authority, list, values,
}
use aegis_router.Permit.Store.Steps.{
  Call, registers, gets, lists, consumes, revokes, transitions, run, step,
}
use aegis_router.Permit.Store.Lifecycle.{
  IsConsumable, IsSpent, consume_succeeds_iff, successes, single_use, consume_twice, revoke_stops,
}
use aegis_router.Permit.Store.Epochs.{epoch_bounded, transition_stops, transition_bars}
use aegis_router.Permit.Authority.{max_epoch}
use aegis_router.Permit.Store.Invariant.{IsWellFormed, reachable-IsWellFormed}
use aegis_router.Permit.Store.Listing.{IsDescending, list-IsDescending}
use aegis_router.Tests.Toy.{first_byte}
use aegis_router.Tests.Data.{execution_claims, domain, early, soon}

abbrev held : Store
held = put (str "permit-1") (fresh_record execution_claims) empty_store

abbrev history : List Call
history =
    registers execution_claims
    ∷ gets (str "permit-1") early
    ∷ consumes (str "permit-1") early
    ∷ lists soon
    ∷ consumes (str "permit-1") soon
    ∷ []

abbrev after : AuthorityState
after = record { enabled = true; epoch = 2 }

-- What the definitions answer on this data
facts :
    ((consume (str "permit-1") early held).1.outcome ≡ succeeded)
    × ((revoke (str "permit-1") early held).2 ≡ ok tt)
    × ((register execution_claims empty_store) ≡ (held, ok tt))
    × (successes (str "permit-1") history empty_store ≡ 1)
    × ((set_authority_enabled domain true early held).1 ≡ ok after)
    × ((set_authority_enabled domain true early empty_store).1 ≡ ok after)
unfolding aegis_router.Base.ℕ_discrete aegis_router.Text.Bytes-discrete aegis_router.Text.utf8_valid
    aegis_router.Text.has_control aegis_router.Text.strip_prefix aegis_router.Text.all_bytes
    aegis_router.Text.is_sha256_digest aegis_router.Text.split_on aegis_router.Text.has_outer_space
    aegis_router.KeyProvider.valid_key_id aegis_router.Time.unix_time aegis_router.Time.to_unix
    aegis_router.Base.Dict.lookup aegis_router.Base.Dict.insert aegis_router.Base.Lists.contains
    aegis_router.Base.Int.◌+ℤ◌ aegis_router.Base.Int.◌-ℤ◌ aegis_router.Base.Int.◌*ℤ◌
    aegis_router.Base.Int.div_floor aegis_router.Base.Int.ℤ-discrete
    aegis_router.Base.Equality.Bool-discrete aegis_router.Text.Labels.is_label_byte
    aegis_router.Base.Dict.map_values aegis_router.Permit.Authority.AuthorityKey-discrete
    aegis_router.Permit.Authority.authority_in aegis_router.Permit.Claims.Class-discrete
    aegis_router.Permit.Claims.valid_class aegis_router.Permit.Claims.Obligations-discrete
    aegis_router.Permit.Claims.Claims-discrete aegis_router.Permit.Claims.issued_time
    aegis_router.Permit.Claims.expires_time aegis_router.Permit.Claims.validate_metadata
    aegis_router.Permit.Claims.validate_fields aegis_router.Permit.Claims.validate_head
    aegis_router.Permit.Claims.validate_executor aegis_router.Permit.Claims.validate_tail
    aegis_router.Permit.Claims.validate aegis_router.Permit.Store.State-discrete
    aegis_router.Permit.Store.expire_if_needed aegis_router.Permit.Store.authority_moved
    aegis_router.Permit.Store.register_valid aegis_router.Permit.Store.register
    aegis_router.Permit.Store.get aegis_router.Permit.Store.consume_found
    aegis_router.Permit.Store.consume aegis_router.Permit.Store.revoke
    aegis_router.Permit.Store.revoke_for aegis_router.Permit.Store.check_transition
    aegis_router.Permit.Store.transition aegis_router.Permit.Store.set_authority_enabled
    aegis_router.Permit.Store.bytes_ltb aegis_router.Permit.Store.listed_before
    aegis_router.Permit.Store.place aegis_router.Permit.Store.sort_records
    aegis_router.Permit.Store.list aegis_router.Permit.Store.Lifecycle.successes
    aegis_router.Permit.Store.Steps.step aegis_router.Permit.Store.Steps.run
facts = (refl, refl, refl, refl, refl, refl)

execution_claims_valid : validate execution_claims ≡ ok tt
unfolding aegis_router.Base.ℕ_discrete aegis_router.Text.Bytes-discrete aegis_router.Text.utf8_valid
    aegis_router.Text.has_control aegis_router.Text.strip_prefix aegis_router.Text.all_bytes
    aegis_router.Text.is_sha256_digest aegis_router.Text.split_on aegis_router.Text.has_outer_space
    aegis_router.KeyProvider.valid_key_id aegis_router.Time.unix_time aegis_router.Time.to_unix
    aegis_router.Base.Dict.lookup aegis_router.Base.Dict.insert aegis_router.Base.Lists.contains
    aegis_router.Base.Int.◌+ℤ◌ aegis_router.Base.Int.◌-ℤ◌ aegis_router.Base.Int.◌*ℤ◌
    aegis_router.Base.Int.div_floor aegis_router.Base.Int.ℤ-discrete
    aegis_router.Base.Equality.Bool-discrete aegis_router.Text.Labels.is_label_byte
    aegis_router.Permit.Claims.Class-discrete aegis_router.Permit.Claims.valid_class
    aegis_router.Permit.Claims.Obligations-discrete aegis_router.Permit.Claims.Claims-discrete
    aegis_router.Permit.Claims.issued_time aegis_router.Permit.Claims.expires_time
    aegis_router.Permit.Claims.validate_metadata aegis_router.Permit.Claims.validate_fields
    aegis_router.Permit.Claims.validate_head aegis_router.Permit.Claims.validate_executor
    aegis_router.Permit.Claims.validate_tail aegis_router.Permit.Claims.validate
execution_claims_valid = refl

found_held : lookup (str "permit-1") held.records ≡ some (fresh_record execution_claims)
unfolding aegis_router.Base.ℕ_discrete aegis_router.Text.Bytes-discrete aegis_router.Text.utf8_valid
    aegis_router.Text.has_control aegis_router.Text.strip_prefix aegis_router.Text.all_bytes
    aegis_router.Text.is_sha256_digest aegis_router.Text.split_on aegis_router.Text.has_outer_space
    aegis_router.KeyProvider.valid_key_id aegis_router.Time.unix_time aegis_router.Time.to_unix
    aegis_router.Base.Dict.lookup aegis_router.Base.Dict.insert aegis_router.Base.Lists.contains
    aegis_router.Base.Int.◌+ℤ◌ aegis_router.Base.Int.◌-ℤ◌ aegis_router.Base.Int.◌*ℤ◌
    aegis_router.Base.Int.div_floor aegis_router.Base.Int.ℤ-discrete
    aegis_router.Base.Equality.Bool-discrete aegis_router.Text.Labels.is_label_byte
found_held = refl

in_domain : key_of execution_claims ≡ domain
in_domain = refl

validate_iff_example : IsValid execution_claims
validate_iff_example = (validate_iff execution_claims).0 execution_claims_valid

lengths : str "another" ≡ str "permit-1" → first_byte (str "another") ≡ first_byte (str "permit-1")
lengths h = ap first_byte h

apart : str "another" ≢ str "permit-1"
apart h = absurd (omega (arith, lengths h))

consume_succeeds_iff_example :
    (r : Record) × IsConsumable (str "permit-1") early held r
    × IsSpent (str "permit-1") (str "another") early held (consume (str "permit-1") early held).0 r
consume_succeeds_iff_example =
    (consume_succeeds_iff (str "permit-1") (str "another") early held apart).0 facts.0

single_use_example : successes (str "permit-1") history empty_store ≤ 1
single_use_example = single_use (str "permit-1") history empty_store

transition_stops_example :
    (consume (str "permit-1") soon (
      run
        (registers execution_claims ∷ [])
        (set_authority_enabled domain true early held).0)).1.outcome
    ≢ succeeded
transition_stops_example =
    transition_stops domain true early soon (str "permit-1") (fresh_record execution_claims)
      (registers execution_claims ∷ []) held after facts.4 found_held refl in_domain

transition_bars_example :
    (register execution_claims (
      run
        (transitions domain false soon ∷ [])
        (set_authority_enabled domain true early empty_store).0)).1
    ≢ ok tt
unfolding aegis_router.Permit.Authority.authority_in lookup
transition_bars_example =
    transition_bars true early execution_claims (transitions domain false soon ∷ []) empty_store
      after facts.5 refl captured
  where
    captured : 1 ≤ (authority domain empty_store).epoch
    captured = omega arith

epoch_bounded_example : (authority domain (run history empty_store)).epoch ≤ max_epoch
unfolding aegis_router.Permit.Authority.authority_in lookup
epoch_bounded_example = epoch_bounded history domain empty_store first_bounded
  where
    first_bounded : (authority domain empty_store).epoch ≤ max_epoch
    first_bounded = omega arith

reachable-IsWellFormed_example : IsWellFormed (run history empty_store)
reachable-IsWellFormed_example = reachable-IsWellFormed history

list-IsDescending_example :
    IsDescending (list soon held).1 × Perm (list soon held).1 (values (list soon held).0.records)
list-IsDescending_example = list-IsDescending soon held
