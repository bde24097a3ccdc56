-- ===== src/ExecutionProof/Registry.antt =====
-- internal/executionproof/registry.go: the workload key registry. Its methods run under one lock;
-- the model has no nil registry, which the verifier never holds.
use aegis_router.Base.{
  ◌≡◌, Bool, List, Option, none, some, ◌!=◌, nat_eq, length, Result, ok, err, if◌then◌else◌, arith,
  false, not,
}
use aegis_router.Base.Dict.{lookup, insert, lookup-insert}
use aegis_router.Text.{Bytes, bytes_eq}
use aegis_router.Crypto.{public_key_size}
use aegis_router.KeyProvider.{KeyError, invalid_key, invalid_key_id, unknown_key_id, valid_key_id}

abbrev pub Registry : Type 0
Registry = List (Bytes × Bytes)

pub data RegisterError : Type 0 where
  key_error : KeyError → RegisterError
  registered_to_another : RegisterError

-- Whether a key is registered under the identifier, and is another one.
unfoldable pub conflicts : Option Bytes → Bytes → Bool
conflicts none key = false
conflicts (some existing) key = existing != key

-- Registry.Register
unfoldable pub register_key : Bytes → Bytes → Registry → Registry × Result RegisterError (Unit {0})
register_key key_id key keys =
    if not (valid_key_id key_id)
    then (keys, err (key_error invalid_key_id))
    else if length key != public_key_size
    then (keys, err (key_error invalid_key))
    else if conflicts (lookup key_id keys) key
    then (keys, err registered_to_another)
    else (insert key_id key keys, ok tt)

-- Registry.VerificationKey
unfoldable pub workload_key : Bytes → Registry → Result KeyError Bytes
workload_key key_id keys = elim (lookup key_id keys) [
  | none ↦ err unknown_key_id
  | some key ↦ ok key
]

lookup_of_workload_key :
    (key_id key : Bytes) (keys : Registry)
    → workload_key key_id keys ≡ ok key
    → lookup key_id keys ≡ some key
unfolding workload_key
lookup_of_workload_key key_id key keys h = ground arith

workload_key_found :
    (key_id key : Bytes) (keys : Registry)
    → lookup key_id keys ≡ some key
    → workload_key key_id keys ≡ ok key
unfolding workload_key
workload_key_found key_id key keys h = ground arith

-- No registration, of whatever key under whatever identifier, replaces a key that is registered.
pub workload_key-register_key :
    (key_id key j other : Bytes) (keys : Registry)
    → workload_key key_id keys ≡ ok key
    → workload_key key_id (register_key j other keys).0 ≡ ok key
unfolding register_key conflicts
workload_key-register_key key_id key j other keys h =
    let found = lookup_of_workload_key key_id key keys h in
    workload_key_found key_id key _ (ground (arith, lookup-insert j key_id other keys))
