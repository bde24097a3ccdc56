-- ===== src/Permit/Issuer/Registers.antt =====
-- What Issuer.Issue of internal/permit/issuer.go leaves in the store and returns.
use aegis_router.Base.{
  ℕ, ◌≡◌, ◌≤◌, ◌/◌, ◌%◌, refl, ◌∙◌, true, false, ◌==◌, nat_eq, inr, none, some, arith, ok,
  if◌then◌else◌,
}
use aegis_router.Base.Int.{ℤ, pos, negsuc, ◌+ℤ◌, ◌*ℤ◌, div_floor}
use aegis_router.Base.Dict.{lookup, lookup-insert_self}
use aegis_router.Text.{Bytes, bytes_eq}
use aegis_router.Time.{Time, second, unix_time, to_unix, add, before}
use aegis_router.Crypto.{Codec}
use aegis_router.Permit.Claims.{Claims, expires_time}
use aegis_router.Permit.Token.{PermitJson, sign_token}
use aegis_router.Permit.Store.{
  Record, Store, fresh_record, authority_moved, register, register_valid, consume, succeeded, put,
}
use aegis_router.Permit.Store.Lifecycle.{Usable, consume-Usable}
use aegis_router.Permit.Issuer.{
  IssueRequest, SigningKey, IssuedPermit, Surroundings, claims_for, default_ttl, max_ttl, prepare,
  issue,
}

-- A whole number of seconds, moved by a duration, in seconds.
seconds_later : (n : ℤ) (t : ℕ) → to_unix (add (unix_time n) t) ≡ n +ℤ pos (t / second)
unfolding to_unix unix_time ◌+ℤ◌ ◌*ℤ◌ div_floor
seconds_later (pos n) t = ground arith
seconds_later (negsuc n) t = ground arith

abbrev pub lifetime : IssueRequest → ℕ
lifetime q = if q.ttl == 0 then default_ttl else q.ttl

pub register_fresh :
    (c : Claims) (s : Store)
    → (register c s).1 ≡ ok tt
    → ((register c s).0 ≡ put c.permit_id (fresh_record c) s)
      × (lookup c.permit_id s.records ≡ none)
      × (authority_moved c s ≡ false)
unfolding register register_valid
register_fresh c s h = ground arith

authority_moved-put :
    (c : Claims) (id : Bytes) (r : Record) (s : Store)
    → authority_moved c (put id r s) ≡ authority_moved c s
unfolding authority_moved
authority_moved-put c id r s = refl

module _ (lib : Codec) (json : PermitJson) (name : Bytes) where
  pub prepare_checks :
      (around : Surroundings) (q : IssueRequest) (p : IssuedPermit)
      → prepare lib json name around q ≡ ok p
      → (key : SigningKey) × (around.signing_key ≡ ok key)
        × (second ≤ lifetime q)
        × (lifetime q ≤ max_ttl)
        × (lifetime q % second ≡ 0)
        × (p.claims ≡ claims_for name key.key_id p.permit_id around.clock (lifetime q) q)
        × (sign_token lib json key.private_key key.key_id p.claims ≡ ok p.token)
  unfolding prepare
  prepare_checks around q p h = ground arith

  pub issue_parts :
      (around : Surroundings) (q : IssueRequest) (s : Store) (p : IssuedPermit)
      → (issue lib json name around q s).1 ≡ ok p
      → (prepare lib json name around q ≡ ok p)
        × ((register p.claims s).1 ≡ ok tt)
        × ((issue lib json name around q s).0 ≡ (register p.claims s).0)
  unfolding issue
  issue_parts around q s p h = ground arith

  -- A permit that Issue returns is stored under its identifier as a fresh issued record, under
  -- which nothing stood before, and it expires the requested lifetime after its issue, which is
  -- between a second and the largest one.
  pub issue_registers :
      (around : Surroundings) (q : IssueRequest) (s : Store) (p : IssuedPermit)
      → (issue lib json name around q s).1 ≡ ok p
      → (lookup p.claims.permit_id (issue lib json name around q s).0.records
          ≡ some (fresh_record p.claims))
        × (lookup p.claims.permit_id s.records ≡ none)
        × (second ≤ lifetime q)
        × (lifetime q ≤ max_ttl)
        × (p.claims.expires_at ≡ p.claims.issued_at +ℤ pos (lifetime q / second))
  unfolding claims_for
  issue_registers around q s p h =
      let (prepared, registered, store) = issue_parts around q s p h in
      let (put_there, absent, moved) = register_fresh p.claims s registered in
      let (key, found, least, most, whole, claims, signed) = prepare_checks around q p prepared in
      (
        rw (store, put_there)
            (lookup-insert_self p.claims.permit_id (fresh_record p.claims) s.records),
        absent,
        least,
        most,
        rw claims (expires key.key_id p.permit_id),
      )
    where
      expires :
          (key_id id : Bytes)
          → let c = claims_for name key_id id around.clock (lifetime q) q in
            c.expires_at ≡ c.issued_at +ℤ pos (lifetime q / second)
      expires key_id id = seconds_later (to_unix around.clock) (lifetime q)

  -- A permit that Issue returns can be consumed at any time before it expires, if no other call
  -- comes between.
  pub issue_usable :
      (around : Surroundings) (q : IssueRequest) (s : Store) (p : IssuedPermit) (now : Time)
      → (issue lib json name around q s).1 ≡ ok p
      → before now (expires_time p.claims) ≡ true
      → (consume p.claims.permit_id now (issue lib json name around q s).0).1.outcome ≡ succeeded
  issue_usable around q s p now h early =
      let (prepared, registered, store) = issue_parts around q s p h in
      let (put_there, absent, moved) = register_fresh p.claims s registered in
      let id = p.claims.permit_id in
      let t = put id (fresh_record p.claims) s in
      let usable : Usable id now t (fresh_record p.claims) = record {
        found = lookup-insert_self id (fresh_record p.claims) s.records;
        active = refl;
        alive = inr early;
        authorised = authority_moved-put p.claims id (fresh_record p.claims) s ∙ moved;
      } in
      rw (store, put_there) (rw (consume-Usable id now t (fresh_record p.claims) usable))
