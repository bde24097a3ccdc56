-- ===== src/ExecutionProof/Nonces.antt =====
-- internal/executionproof/registry.go: NonceStore.Use, over the nonces of all workload keys.
use aegis_router.Base.{
  ◌≡◌, refl, Bool, true, false, not, ◌||◌, List, [], ◌∷◌, ◌++◌, none, some, if◌then◌else◌, arith,
  inl, inr, In, nat_eq, All,
}
use aegis_router.Base.Int.{ℤ, leb_ℤ, ◌<ℤ◌}
use aegis_router.Base.Dict.{
  lookup, insert, retain, lookup-insert, lookup-insert_self, lookup-retain_kept,
}
use aegis_router.Text.{Bytes, bytes_eq, is_empty}

-- The expiry time in Unix seconds of each nonce in use.
abbrev pub Nonces : Type 0
Nonces = List (Bytes × ℤ)

-- keyID + "\x00" + nonce
abbrev pub nonce_key : Bytes → Bytes → Bytes
nonce_key key_id nonce = key_id ++ 0 ∷ nonce

-- What the loop over the entries keeps.
abbrev pub is_live : ℤ → ℤ → Bool
is_live now expires = not (leb_ℤ expires now)

-- NonceStore.Use
unfoldable pub use_nonce : Bytes → Bytes → ℤ → ℤ → Nonces → Nonces × Bool
use_nonce key_id nonce now expires store =
    let live = retain (is_live now) store in
    let key = nonce_key key_id nonce in
    if is_empty key_id || is_empty nonce || leb_ℤ expires now
    then (store, false)
    else elim (lookup key live) [ some _ ↦ (live, false) | none ↦ (insert key expires live, true) ]

-- A call of Use, and a history of such calls.
pub record Attempt : Type 0 where
  pub key_id : Bytes
  pub nonce : Bytes
  pub now : ℤ
  pub expires : ℤ

unfoldable pub attempt : Attempt → Nonces → Nonces × Bool
attempt a s = use_nonce a.key_id a.nonce a.now a.expires s

unfoldable pub attempts : List Attempt → Nonces → Nonces
attempts [] s = s
attempts (a ∷ as') s = attempts as' (attempt a s).0

use_nonce-Kept :
    (key_id nonce key : Bytes) (now expires e : ℤ) (s : Nonces)
    → lookup key s ≡ some e
    → now <ℤ e
    → lookup key (use_nonce key_id nonce now expires s).0 ≡ some e
unfolding use_nonce
use_nonce-Kept key_id nonce key now expires e s found early =
    let kept = lookup-retain_kept (is_live now) key e s found (ground arith) in
    ground
      (arith, kept, lookup-insert (nonce_key key_id nonce) key expires (retain (is_live now) s))

use_nonce_known :
    (key_id nonce : Bytes) (now expires e : ℤ) (s : Nonces)
    → lookup (nonce_key key_id nonce) s ≡ some e
    → now <ℤ e
    → (use_nonce key_id nonce now expires s).1 ≡ false
unfolding use_nonce
use_nonce_known key_id nonce now expires e s found early =
    let key = nonce_key key_id nonce in
    let kept = lookup-retain_kept (is_live now) key e s found (ground arith) in ground (arith, kept)

use_nonce_marks :
    (key_id nonce : Bytes) (now expires : ℤ) (s : Nonces)
    → (use_nonce key_id nonce now expires s).1 ≡ true
    → lookup (nonce_key key_id nonce) (use_nonce key_id nonce now expires s).0 ≡ some expires
unfolding use_nonce
use_nonce_marks key_id nonce now expires s h =
    ground (arith, lookup-insert_self (nonce_key key_id nonce) expires (retain (is_live now) s))

-- A nonce is admitted: it is given and not in use, and the store keeps what is in use and this nonce.
pub record IsAdmitted (key_id nonce : Bytes) (now expires : ℤ) (s t : Nonces) : Type 0 where
  pub named : is_empty key_id ≡ false
  pub given : is_empty nonce ≡ false
  pub early : now <ℤ expires
  pub unused : lookup (key_id ++ 0 ∷ nonce) (retain (λ e. not (leb_ℤ e now)) s) ≡ none
  pub stored : t ≡ insert (key_id ++ 0 ∷ nonce) expires (retain (λ e. not (leb_ℤ e now)) s)

pub use_nonce-IsAdmitted :
    (key_id nonce : Bytes) (now expires : ℤ) (s : Nonces)
    → (use_nonce key_id nonce now expires s).1 ≡ true
    → IsAdmitted key_id nonce now expires s (use_nonce key_id nonce now expires s).0
unfolding use_nonce
use_nonce-IsAdmitted key_id nonce now expires s h = record {
  named = ground arith;
  given = ground arith;
  early = ground arith;
  unused = ground arith;
  stored = ground arith;
}

attempts-Kept :
    (as' : List Attempt) (key : Bytes) (e : ℤ) (s : Nonces)
    → lookup key s ≡ some e
    → All (λ a. a.now <ℤ e) as'
    → lookup key (attempts as' s) ≡ some e
unfolding attempts attempt
attempts-Kept [] key e s found h = found
attempts-Kept (a ∷ as') key e s found (h, hs) =
    attempts-Kept as' key e _ (use_nonce-Kept a.key_id a.nonce key a.now a.expires e s found h) hs

-- A nonce that was admitted is not admitted again before it expires, whatever attempts come
-- between, as long as the clock that they read stays below that time.
pub nonce_once :
    (key_id nonce : Bytes) (now expires later again : ℤ) (as' : List Attempt) (s : Nonces)
    → (use_nonce key_id nonce now expires s).1 ≡ true
    → All (λ a. a.now <ℤ expires) as'
    → later <ℤ expires
    → (use_nonce key_id nonce later again (attempts as' (use_nonce key_id nonce now expires s).0)).1
      ≡ false
nonce_once key_id nonce now expires later again as' s h between early =
    let t = (use_nonce key_id nonce now expires s).0 in
    use_nonce_known key_id nonce later again expires (attempts as' t)
      (attempts-Kept as' (nonce_key key_id nonce) expires t
        (use_nonce_marks key_id nonce now expires s h) between)
      early

-- The key of a nonce names its workload key and its nonce: two pairs with one key are equal, if
-- their key identifiers hold no byte 0.
pub nonce_key_injective :
    (k j n m : Bytes) → ¬ In 0 k → ¬ In 0 j → nonce_key k n ≡ nonce_key j m → (k ≡ j) × (n ≡ m)
nonce_key_injective [] [] n m a b e = (refl, ground arith)
nonce_key_injective [] (c ∷ j) n m a b e = absurd (b (inl (ground arith)))
nonce_key_injective (c ∷ k) [] n m a b e = absurd (a (inl (ground arith)))
nonce_key_injective (c ∷ k) (d ∷ j) n m a b e =
    let (rest, same) =
      nonce_key_injective k j n m (λ i. a (inr i)) (λ i. b (inr i)) (ground arith) in
    (ground arith, same)
