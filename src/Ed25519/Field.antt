-- ===== src/Ed25519/Field.antt =====
-- The square roots of `xrecover`, and the sizes of the constants.
use noktulo.Prelude.{
  ℕ, ◌+◌, ◌-◌, ◌/◌, ◌%◌, ◌≤◌, ◌<◌, ◌≡◌, refl, ap, ◌∙◌, inl, inr, ◌=ℕ=◌, =ℕ=_iff, le→leb, ok,
  Returns, arith, Bool-cases,
}
use noktulo.Ed25519.{BigUints, q, sub, root_of, xrecover, square_of_x}

pub sub-ok : (a b : ℕ) → b ≤ a → sub a b ≡ ok (a - b)
sub-ok a b h = rw (le→leb b a h) refl

module _ (n : BigUints) where
  pub modpow-lt : (base e : ℕ) → n.modpow base e q < q
  modpow-lt base e = omega (arith, n.modpow_lem base e q (omega arith))

  -- The parity bit of a number.
  pub bit-zero : (x : ℕ) → n.bit x 0 ≡ (x % 2 =ℕ= 1)
  bit-zero x = n.bit_lem x 0 ∙ ap (λ k. k % 2 =ℕ= 1) (omega arith)

  pub root_of-lt : (xx : ℕ) → xx < q → Returns (root_of n xx) λ x. x < q
  unfolding root_of
  root_of-lt xx h =
      rw (sub-ok q xx (omega arith)) (_, refl, ground (arith, modpow-lt xx ((q + 3) / 8)))

  square_of_x-lt : (y : ℕ) → square_of_x n y < q
  unfolding square_of_x
  square_of_x-lt y = omega arith

  -- The root is always found below the prime, and even.
  pub xrecover-even : (y : ℕ) → Returns (xrecover n y) λ x. (x < q) × (x % 2 ≡ 0)
  unfolding xrecover
  xrecover-even y =
      let (root, found, below) = root_of-lt (square_of_x n y) (square_of_x-lt y) in
      rw (found, bit-zero root)
        (elim (Bool-cases (root % 2 =ℕ= 1)) [
          | inl odd ↦
              let one : root % 2 ≡ 1 = (=ℕ=_iff (root % 2) 1).0 odd in
              rw (odd, sub-ok q root (omega arith)) (q - root, refl, (omega arith, omega arith))
          | inr even ↦ rw even (root, refl, (below, ground arith))
        ])
