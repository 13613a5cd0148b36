-- ===== src/Ed25519/Keys/Making.antt =====
-- When `sign` panics, and what it returns.
use native.Mathlib.Nat
use noktulo.Prelude.{
  ℕ, ◌^◌, ◌≤◌, ◌<◌, ◌≡◌, ◌≢◌, ◌⊎◌, refl, inl, inr, false, List, ◌++◌, length, ◌=ℕ=◌, Run, ok, panic,
  arith, Bool-cases, leb, leb→le, subst, length-append,
}
use noktulo.Ed25519.{BigUints, Ed25519Point, scalar_mul, encode}
use noktulo.Ed25519.Bytes.{from_bytes_le-lt, resize-length}
use noktulo.Ed25519.Base.{base, base_point_lem}
use noktulo.Ed25519.Keys.{Sha512, nonce, second_half, public_key, sign, joined}

pub encode-length : (n : BigUints) (p : Ed25519Point) → length (encode n p) ≡ 32
unfolding encode
encode-length n p = resize-length n (n.to_bytes_le (n.set_bit p.y 255 (n.bit p.x 0)))

le_or_lt : (a b : ℕ) → (a ≤ b) ⊎ (b < a)
le_or_lt a b = elim (Bool-cases (leb a b)) [
  | inl e ↦ inl (leb→le a b e)
  | inr e ↦ inr (ground arith)
]

module _ (n : BigUints) (sha : Sha512) where
  -- The point of the nonce, as in the first half of a signature.
  abbrev pub first_half : List ℕ → List ℕ → List ℕ
  first_half sk message = encode n (scalar_mul n base (nonce n sha sk message))

  abbrev pub second : List ℕ → List ℕ → List ℕ → ℕ
  second sk message pk = second_half n sha sk message (first_half sk message) pk

  -- What `sign` does, by the size of the second half.
  pub data Signs (sk message pk : List ℕ) : Run (List ℕ) → Type 0 where
    too_short : second sk message pk < 2 ^ 248 → Signs sk message pk panic
    signed :
        {halves : List ℕ}
        → 2 ^ 248 ≤ second sk message pk
        → length halves ≡ 32
        → n.from_bytes_le halves ≡ second sk message pk
        → Signs sk message pk (ok (first_half sk message ++ halves))

  second_half-lt : (sk message rr pk : List ℕ) → second_half n sha sk message rr pk < 2 ^ 253
  unfolding second_half
  second_half-lt sk message rr pk = omega arith

  spelled : (s : ℕ) → s < 256 ^ length (n.to_bytes_le s)
  spelled s =
      subst (λ k. k < 256 ^ length (n.to_bytes_le s)) (n.from_bytes_le-to_bytes_le s)
        (from_bytes_le-lt n (n.to_bytes_le s) (n.to_bytes_le_bytes s))

  -- A number below 2^256 has 32 bytes exactly if it is at least 2^248.
  length-32 : (s : ℕ) → s < 2 ^ 256 → (length (n.to_bytes_le s) ≡ 32) ⊎ (s < 2 ^ 248)
  length-32 s small = elim (le_or_lt (length (n.to_bytes_le s)) 31) [
    | inl few ↦
        inr (Nat.lt_of_lt_of_le (spelled s) (Nat.pow-le-pow_right {n = 256} (omega arith) few))
    | inr many ↦ inl (omega (arith, n.length-to_bytes_le s 31 small))
  ]

  short-length : (s : ℕ) → s < 2 ^ 248 → length (n.to_bytes_le s) ≢ 32
  short-length s small all = absurd (omega (arith, n.length-to_bytes_le s 30 small))

  -- The two lengths that `sign` requires of the second half.
  joined-cases :
      (rr : List ℕ) (s : ℕ)
      → length rr ≡ 32
      → s < 2 ^ 256
      → ((s < 2 ^ 248) × (joined n rr s ≡ panic))
        ⊎ ((2 ^ 248 ≤ s)
            × (length (n.to_bytes_le s) ≡ 32)
            × (joined n rr s ≡ ok (rr ++ n.to_bytes_le s)))
  unfolding joined
  joined-cases rr s len small = elim (length-32 s small) [
    | inl full ↦ inr (big full, full, rw (full, total full) refl)
    | inr short ↦ inl (short, rw (not_32 short) refl)
  ]
    where
      big : length (n.to_bytes_le s) ≡ 32 → 2 ^ 248 ≤ s
      big full = elim (le_or_lt (2 ^ 248) s) [
        | inl at_least ↦ at_least
        | inr below ↦ absurd (short-length s below full)
      ]

      total : length (n.to_bytes_le s) ≡ 32 → length (rr ++ n.to_bytes_le s) ≡ 64
      total full = omega (arith, length-append rr (n.to_bytes_le s), len)

      not_32 : s < 2 ^ 248 → (length (n.to_bytes_le s) =ℕ= 32) ≡ false
      not_32 below = ground (arith, short-length s below)

  -- If the public key of a secret key is computed, sign panics exactly if the number of the second
  -- half is below 2^248, and else returns the encoded point of the nonce and the 32 bytes of that
  -- number.
  pub sign-Signs :
      (sk message pk : List ℕ)
      → public_key n sha sk ≡ ok pk
      → Signs sk message pk (sign n sha sk message)
  unfolding sign
  sign-Signs sk message pk key =
      rw (key, base_point_lem n)
        (elim (joined-cases (first_half sk message) (second sk message pk) (encode-length n _)
          (omega (arith, second_half-lt sk message (first_half sk message) pk))) [
            | inl (below, panics) ↦ rw panics (too_short below)
            | inr (at_least, full, signs) ↦
                rw signs (signed at_least full (n.from_bytes_le-to_bytes_le (second sk message pk)))
          ])
