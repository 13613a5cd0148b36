-- ===== src/Post/Verify.antt =====
-- When `verify` accepts a post or an attribute.
use noktulo.Prelude.{
  ℕ, ◌≡◌, refl, ◌↔◌, List, Result, okay, err, ◌==◌, ◌=ℕ=◌, list_eq, nat_eq, list_beq_iff, =ℕ=_iff,
  length, Bool-cases, inl, inr,
}
use noktulo.Digests.{Digests}
use noktulo.Address.{Address, from_pubkey}
use noktulo.Post.{
  SignedPost, Post, Signing, Ed25519Error, wrong_address, wrong_size, signature_error,
  verify_signed, verify, addr_of, signature_of, post_of,
}

signature_error_inv :
    (r : Result (Unit {0}) Ed25519Error) → signature_error r ≡ okay tt → r ≡ okay tt
signature_error_inv (okay u) e = refl
signature_error_inv (err x) e = cc

module _ (d : Digests) (s : Signing) where
  -- What a signature proves: the key hashes to the address, and the scheme accepts.
  abbrev Certifies : Address → List ℕ → List ℕ → List ℕ → Type 0
  Certifies addr signature encoded pubkey =
      (addr ≡ from_pubkey d pubkey)
      × (length signature ≡ 64)
      × (s.verify pubkey signature encoded ≡ okay tt)

  verify_signed_sound :
      (addr : Address) (signature encoded pubkey : List ℕ)
      → verify_signed d s addr signature encoded pubkey ≡ okay tt
      → Certifies addr signature encoded pubkey
  unfolding verify_signed
  verify_signed_sound addr signature encoded pubkey e =
      elim (Bool-cases (addr == from_pubkey d pubkey)) [
        | inr other ↦ let bad : err wrong_address ≡ okay tt = rw (verify_signed, other) at e in cc
        | inl same ↦ elim (Bool-cases (length signature =ℕ= 64)) [
          | inr short ↦
              let bad : err wrong_size ≡ okay tt = rw (verify_signed, same, short) at e in cc
          | inl size ↦ (
            (list_beq_iff addr (from_pubkey d pubkey)).0 same,
            (=ℕ=_iff (length signature) 64).0 size,
            signature_error_inv _ (rw (verify_signed, same, size) at e),
          )
        ]
      ]

  verify_signed_complete :
      (addr : Address) (signature encoded pubkey : List ℕ)
      → Certifies addr signature encoded pubkey
      → verify_signed d s addr signature encoded pubkey ≡ okay tt
  unfolding verify_signed
  verify_signed_complete addr signature encoded pubkey (same, size, good) =
      rw
        (
          verify_signed,
          (list_beq_iff addr (from_pubkey d pubkey)).1 same,
          (=ℕ=_iff (length signature) 64).1 size,
          good,
        )
        refl

  -- verify accepts a post exactly where the key hashes to the post's address, the signature has 64
  -- bytes, and the signature scheme accepts it for the encoded post.
  pub verify_iff :
      (to_vec : Post → List ℕ) (p : SignedPost) (pubkey : List ℕ)
      → (verify d s to_vec p pubkey ≡ okay tt)
        ↔ Certifies (addr_of p) (signature_of p) (to_vec (post_of p)) pubkey
  unfolding verify
  verify_iff to_vec p pubkey = (
    verify_signed_sound (addr_of p) (signature_of p) (to_vec (post_of p)) pubkey,
    verify_signed_complete (addr_of p) (signature_of p) (to_vec (post_of p)) pubkey,
  )
