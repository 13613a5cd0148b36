-- ===== src/Address/Text.antt =====
-- Addresses as text.
use noktulo.Prelude.{
  ℕ, ◌≡◌, refl, sym, ap, ◌∙◌, true, List, ◌++◌, ◌=ℕ=◌, ◌==◌, nat_eq, list_eq, list_beq_iff,
  list_beq_refl, =ℕ=_iff, length, length-append, length-take, All-append, All-take, take, drop,
  take-append-drop, take-length_append, drop-length_append, ok, Result, okay, err, ◌>>=◌, >>=-eq-ok,
  ok_inj, arith, Bool-cases, inl, inr,
}
use noktulo.Prelude.Bytes.{AreBytes, IsByte}
use noktulo.Digests.{Digests}
use noktulo.Base64.{Base64Error, decode}
use noktulo.Base64.Encode.{length-encode}
use noktulo.Base64.RoundTrip.{decode-encode}
use noktulo.Address.{
  Address, IsAddress, from_pubkey, check_sum, to_string, from_payload, from_decoded, from_str,
}

module _ (d : Digests) where
  pub length-check_sum : (a : Address) → length (check_sum d a) ≡ 4
  unfolding check_sum
  length-check_sum a =
      omega (arith, length-take 4 (d.sha3_512 (d.sha3_512 a)), d.sha3_512_length (d.sha3_512 a))

  pub check_sum-AreBytes : (a : Address) → AreBytes (check_sum d a)
  unfolding check_sum
  check_sum-AreBytes a = All-take IsByte 4 _ (d.sha3_512_bytes (d.sha3_512 a))

  -- The hash of a public key is an address.
  pub from_pubkey-IsAddress : (pubkey : List ℕ) → IsAddress (from_pubkey d pubkey)
  unfolding from_pubkey
  from_pubkey-IsAddress pubkey = (d.blake2s_length _, d.blake2s_bytes _)

  from_payload-okay : (a : Address) → length a ≡ 32 → from_payload d (a ++ check_sum d a) ≡ okay a
  unfolding from_payload
  from_payload-okay a h =
      let size : (length (a ++ check_sum d a) =ℕ= 36) ≡ true =
        (=ℕ=_iff _ _).1 (omega (arith, length-append a (check_sum d a), length-check_sum a)) in
      let front : take 32 (a ++ check_sum d a) ≡ a =
        ap (λ n. take n (a ++ check_sum d a)) (sym h) ∙ take-length_append a (check_sum d a) in
      let back : drop 32 (a ++ check_sum d a) ≡ check_sum d a =
        ap (λ n. drop n (a ++ check_sum d a)) (sym h) ∙ drop-length_append a (check_sum d a) in
      rw (size, front, back, list_beq_refl (check_sum d a))

  -- For an address of 32 bytes, to_string returns a text and from_str reads the address back from
  -- it.
  pub from_str-to_string :
      (a : Address) → IsAddress a → (to_string d a >>= from_str d) ≡ ok (okay a)
  unfolding to_string from_str from_decoded
  from_str-to_string a h =
      let bytes = All-append IsByte a (check_sum d a) h.1 (check_sum-AreBytes a) in
      let (s, e, size) = length-encode (a ++ check_sum d a) bytes in
      let back : decode s ≡ ok (okay (a ++ check_sum d a)) = rw e at (decode-encode _ bytes) in
      rw (e, from_str, back, from_decoded) (ap ok (from_payload-okay a h.0))

  from_payload_inv :
      (b : List ℕ) (a : Address)
      → from_payload d b ≡ okay a
      → (length a ≡ 32) × (b ≡ a ++ check_sum d a)
  unfolding from_payload
  from_payload_inv b a e = elim (Bool-cases (length b =ℕ= 36)) [
    | inr short ↦ absurd (ground arith)
    | inl size ↦ elim (Bool-cases (drop 32 b == check_sum d (take 32 b))) [
      | inr bad ↦ absurd (ground arith)
      | inl good ↦
          let front : take 32 b ≡ a = ground arith in
          let back : drop 32 b ≡ check_sum d (take 32 b) =
            (list_beq_iff (drop 32 b) (check_sum d (take 32 b))).0 good in
          (
            sym (ap length front) ∙ length-take 32 b ∙ ground arith,
            sym (take-append-drop 32 b) ∙ rw (back, front),
          )
    ]
  ]

  from_decoded_inv :
      (r : Result (List ℕ) Base64Error) (a : Address)
      → from_decoded d r ≡ okay a
      → (b : List ℕ) × (r ≡ okay b) × (from_payload d b ≡ okay a)
  unfolding from_decoded
  from_decoded_inv (okay b) a e = (b, refl, e)
  from_decoded_inv (err x) a e = cc

  -- Whatever text is read as an address decodes to 32 bytes followed by their checksum.
  pub from_str_inv :
      (s : List ℕ) (a : Address)
      → from_str d s ≡ ok (okay a)
      → (length a ≡ 32) × (decode s ≡ ok (okay (a ++ check_sum d a)))
  unfolding from_str
  from_str_inv s a e =
      let (r, decoded, read) = >>=-eq-ok (decode s) (λ r. ok (from_decoded d r)) e in
      let (b, what, payload) = from_decoded_inv r a (ok_inj read) in
      let (size, split) = from_payload_inv b a payload in (size, decoded ∙ rw (what, split))
