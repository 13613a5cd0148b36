-- ===== src/Ed25519/Keys/Secrets.antt =====
-- The scalar of a secret key.
use noktulo.Prelude.{
  ℕ, ◌+◌, ◌*◌, ◌/◌, ◌%◌, ◌^◌, ◌<◌, ◌≡◌, ◌∙◌, ap, false, true, List, take, length, arith,
  length-take, All-take, subst,
}
use noktulo.Prelude.Bytes.{AreBytes, IsByte}
use noktulo.Ed25519.{BigUints}
use noktulo.Ed25519.Bytes.{from_bytes_le-lt}
use noktulo.Ed25519.Keys.{Sha512, clamp, secret_scalar}

module _ (n : BigUints) where
  clear_bit_0 : (s : ℕ) → n.set_bit s 0 false ≡ s / 2 * 2
  clear_bit_0 s = n.set_bit_false s 0 ∙ omega arith

  clear_bit_1 : (s : ℕ) → n.set_bit (s * 2) 1 false ≡ s / 2 * 4
  clear_bit_1 s = n.set_bit_false (s * 2) 1 ∙ omega arith

  clear_bit_2 : (s : ℕ) → n.set_bit (s * 4) 2 false ≡ s / 2 * 8
  clear_bit_2 s = n.set_bit_false (s * 4) 2 ∙ omega arith

  clear_low : (s : ℕ) → n.set_bit (n.set_bit (n.set_bit s 0 false) 1 false) 2 false ≡ s / 8 * 8
  clear_low s = rw (clear_bit_0 s, clear_bit_1 (s / 2), clear_bit_2 (s / 2 / 2)) (omega arith)

  set_254 : (s : ℕ) → n.set_bit s 254 true ≡ s / 2 ^ 255 * 2 ^ 255 + 2 ^ 254 + s % 2 ^ 254
  set_254 s = n.set_bit_true s 254 ∙ omega arith

  set_high :
      (s : ℕ) → s < 2 ^ 256 → n.set_bit (n.set_bit s 254 true) 255 false ≡ 2 ^ 254 + s % 2 ^ 254
  set_high s small =
      rw (set_254 s, n.set_bit_false (s / 2 ^ 255 * 2 ^ 255 + 2 ^ 254 + s % 2 ^ 254) 255)
        (omega arith)

  -- clamp keeps the bits 3 to 253, and sets bit 254.
  clamp_lem : (s : ℕ) → s < 2 ^ 256 → clamp n s ≡ 2 ^ 254 + s % 2 ^ 254 / 8 * 8
  unfolding clamp
  clamp_lem s small =
      ap (λ t. n.set_bit (n.set_bit t 254 true) 255 false) (clear_low s)
      ∙ set_high (s / 8 * 8) (omega arith)
      ∙ omega arith

  -- The scalar of a secret key is 2^254 plus the bits 3 to 253 of the first half of its hash, and
  -- is below 2^255.
  pub secret_scalar_bits :
      (sha : Sha512) (sk : List ℕ)
      → (secret_scalar n sha sk
          ≡ 2 ^ 254 + n.from_bytes_le (take 32 (sha.digest sk)) % 2 ^ 254 / 8 * 8)
        × (secret_scalar n sha sk < 2 ^ 255)
  unfolding secret_scalar
  secret_scalar_bits sha sk =
      let e = clamp_lem low (subst (λ k. low < 256 ^ k) len (from_bytes_le-lt n _ low_bytes)) in
      (e, omega (arith, e))
    where
      low : ℕ
      low = n.from_bytes_le (take 32 (sha.digest sk))

      len : length (take 32 (sha.digest sk)) ≡ 32
      len = omega (arith, length-take 32 (sha.digest sk), sha.digest_length sk)

      low_bytes : AreBytes (take 32 (sha.digest sk))
      low_bytes = All-take IsByte 32 (sha.digest sk) (sha.digest_bytes sk)
