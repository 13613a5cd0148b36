-- ===== src/UserDht.antt =====
-- src/service/network.rs, `UserDHT`: the pairs of an address and a public key in the user DHT.
use noktulo.Prelude.{
  ℕ, ◌≡◌, refl, sym, ap, ◌∙◌, Bool, true, false, List, ◌++◌, Option, none, some, ◌=ℕ=◌, =ℕ=_iff,
  ◌==◌, list_eq, nat_eq, list_beq_iff, list_beq_refl, if◌then◌else◌, length, length-append, take,
  drop, take-append-drop, take-length_append, drop-length_append, arith,
}
use noktulo.Digests.{Digests}
use noktulo.Address.{from_pubkey}
use noktulo.Address.Text.{from_pubkey-IsAddress}
use noktulo.Post.{Signing}

module _ (d : Digests) (s : Signing) where
  unfoldable pub is_valid_addr_pubkey_pair : List ℕ → Bool
  is_valid_addr_pubkey_pair data' =
      if length data' =ℕ= 64
      then (if s.is_point (drop 32 data')
          then take 32 data' == from_pubkey d (drop 32 data')
          else false)
      else false

  -- The value that `register_pubkey` puts.
  unfoldable pub addr_key_pair : List ℕ → List ℕ
  addr_key_pair pubkey = from_pubkey d pubkey ++ pubkey

  -- `get_pubkey`, on what the lookup in the DHT returned.
  unfoldable pub pubkey_of : Option (List ℕ) → Option (List ℕ)
  unfolding is_valid_addr_pubkey_pair
  pubkey_of none = none
  pubkey_of (some bytes) = if is_valid_addr_pubkey_pair bytes then some (drop 32 bytes) else none

  sound :
      (data' : List ℕ)
      → is_valid_addr_pubkey_pair data' ≡ true
      → (length data' ≡ 64)
        × (s.is_point (drop 32 data') ≡ true)
        × (take 32 data' ≡ from_pubkey d (drop 32 data'))
  unfolding is_valid_addr_pubkey_pair
  sound data' e = ground (
    arith,
    =ℕ=_iff (length data') 64,
    list_beq_iff (take 32 data') (from_pubkey d (drop 32 data')),
  )

  -- For a key of 32 bytes that is a point, get_pubkey reads it back from the pair that
  -- register_pubkey puts; and every pair that the DHT accepts is the pair of the key in it.
  pub pair_roundtrip :
      (pubkey : List ℕ)
      → s.is_point pubkey ≡ true
      → length pubkey ≡ 32
      → (pubkey_of (some (addr_key_pair pubkey)) ≡ some pubkey)
        × ((data' : List ℕ)
            → is_valid_addr_pubkey_pair data' ≡ true
            → data' ≡ addr_key_pair (drop 32 data'))
  unfolding pubkey_of is_valid_addr_pubkey_pair addr_key_pair
  pair_roundtrip pubkey point len =
      let pair = from_pubkey d pubkey ++ pubkey in
      let addr_len : length (from_pubkey d pubkey) ≡ 32 = (from_pubkey-IsAddress d pubkey).0 in
      let size : (length pair =ℕ= 64) ≡ true =
        (=ℕ=_iff (length pair) 64).1
          (omega (arith, length-append (from_pubkey d pubkey) pubkey, addr_len, len)) in
      let front : take 32 pair ≡ from_pubkey d pubkey =
        ap (λ n. take n pair) (sym addr_len) ∙ take-length_append (from_pubkey d pubkey) pubkey in
      let back : drop 32 pair ≡ pubkey =
        ap (λ n. drop n pair) (sym addr_len) ∙ drop-length_append (from_pubkey d pubkey) pubkey in
      (
        rw
            (
              pubkey_of,
              is_valid_addr_pubkey_pair,
              addr_key_pair,
              size,
              back,
              point,
              front,
              list_beq_refl (from_pubkey d pubkey),
            )
            refl,
        λ data' valid.
            let (_, _, same) = sound data' valid in
            sym (take-append-drop 32 data') ∙ ap (λ a. a ++ drop 32 data') same,
      )
