-- ===== src/Permit/Authority.antt =====
-- internal/permit/authority.go: the grant domains and their epochs. The transition of a domain
-- changes permit records too, and is in Permit/Store.antt.
use aegis_router.Base.{ℕ, ◌^◌, ◌-◌, Bool, true, List, Eq, none, some}
use aegis_router.Base.Dict.{lookup}
use aegis_router.Text.{Bytes, Bytes-discrete}
use aegis_router.Permit.Claims.{Claims}

pub record AuthorityKey : Type 0 where
  pub principal_id : Bytes
  pub agent_id : Bytes
  pub workload_id : Bytes

unfoldable pub AuthorityKey-discrete : Discrete AuthorityKey
unfolding Bytes-discrete
AuthorityKey-discrete = hlevel Bytes-discrete

instance abbrev pub authority_key_eq : Eq AuthorityKey
authority_key_eq = record { eq_dec = AuthorityKey-discrete }

pub record AuthorityState : Type 0 where
  pub epoch : ℕ
  pub enabled : Bool

-- math.MaxUint64
abbrev pub max_epoch : ℕ
max_epoch = 2 ^ 64 - 1

-- Claims.AuthorityKey
abbrev pub key_of : Claims → AuthorityKey
key_of c = record {
  principal_id = c.principal_id;
  agent_id = c.agent_id;
  workload_id = c.workload_id;
}

abbrev pub Authorities : Type 0
Authorities = List (AuthorityKey × AuthorityState)

-- MemoryStore.authorityLocked
unfoldable pub authority_in : Authorities → AuthorityKey → AuthorityState
authority_in m key = elim (lookup key m) [
  | some state ↦ state
  | none ↦ record { epoch = 1; enabled = true }
]
