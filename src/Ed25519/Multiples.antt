-- ===== src/Ed25519/Multiples.antt =====
-- `scalar_mul` against double-and-add over the binary digits of the coefficient.
use mathlib.Core.WellFounded.{Acc}
use native.Mathlib.Nat.{pow-succ'}
use noktulo.Prelude.{
  ℕ, zero, suc, ◌+◌, ◌-◌, ◌*◌, ◌/◌, ◌^◌, ◌<◌, ◌≡◌, refl, sym, ap, ◌∙◌, Bool, true, false, List, [],
  ◌∷◌, arith,
}
use noktulo.Ed25519.{
  BigUints, Ed25519Point, q, inv, next_multiple, half-lt, d_param, add, neutral, multiple,
  scalar_mul, lt_wf,
}
use noktulo.Ed25519.Field.{bit-zero}

-- Binary digits, the highest first.
abbrev pub digit : Bool → ℕ
digit true = 1
digit false = 0

abbrev pub number_from : ℕ → List Bool → ℕ
number_from high [] = high
number_from high (b ∷ bs) = number_from (2 * high + digit b) bs

module _ (n : BigUints) where
  -- From the highest digit on: double, and add the point for a 1.
  abbrev pub double_and_add : Ed25519Point → Ed25519Point → List Bool → Ed25519Point
  double_and_add p sum [] = sum
  double_and_add p sum (false ∷ bs) = double_and_add p (add n sum sum) bs
  double_and_add p sum (true ∷ bs) = double_and_add p (add n (add n sum sum) p) bs

  one-pow : (k : ℕ) → 1 ^ k ≡ 1
  one-pow zero = refl
  one-pow (suc k) = pow-succ' 1 k ∙ omega (arith, one-pow k)

  inv-one : (x : ℕ) → x ≡ 1 → inv n x ≡ 1
  unfolding inv
  inv-one x e = rw (e, n.modpow_lem 1 (q - 2) q (omega arith), one-pow (q - 2)) refl

  add-neutral : add n neutral neutral ≡ neutral
  unfolding add
  add-neutral =
      rw
        (
          inv-one (1 + d_param n * 0 * 0 * 1 * 1) (omega arith),
          inv-one (1 + (q - d_param n) * 0 * 0 * 1 * 1) (omega arith),
        )
        refl

  -- The multiple does not depend on the proof that the recursion ends.
  multiple_eq :
      (p : Ed25519Point) (a b : ℕ) (w : Acc ◌<◌ a) (v : Acc ◌<◌ b)
      → a ≡ b
      → multiple n p a w ≡ multiple n p b v
  unfolding multiple
  multiple_eq p zero zero (Acc.intro _ _) (Acc.intro _ _) e = refl
  multiple_eq p zero (suc b) w v e = absurd (omega arith)
  multiple_eq p (suc a) zero w v e = absurd (omega arith)
  multiple_eq p (suc a) (suc b) (Acc.intro _ f) (Acc.intro _ g) e =
      rw
        (
          multiple_eq p (suc a / 2) (suc b / 2) (f (suc a / 2) (half-lt a))
              (g (suc b / 2) (half-lt b)) (omega arith),
          e,
        )
        refl

  half-digit : (m high : ℕ) (b : Bool) → m ≡ 2 * high + digit b → m / 2 ≡ high
  half-digit m high true e = omega arith
  half-digit m high false e = omega arith

  bit-digit : (m high : ℕ) (b : Bool) → m ≡ 2 * high + digit b → n.bit m 0 ≡ b
  bit-digit m high true e = bit-zero n m ∙ ground arith
  bit-digit m high false e = bit-zero n m ∙ ground arith

  -- One digit more doubles the multiple, and adds the point for a 1.
  multiple-step :
      (p : Ed25519Point) (high : ℕ) (b : Bool) (m : ℕ) (w : Acc ◌<◌ m) (v : Acc ◌<◌ high)
      → m ≡ 2 * high + digit b
      → multiple n p m w ≡ next_multiple n p (multiple n p high v) b
  unfolding multiple
  multiple-step p zero false zero (Acc.intro _ _) (Acc.intro _ _) e = sym add-neutral
  multiple-step p (suc high) false zero w v e = absurd (omega arith)
  multiple-step p high true zero w v e = absurd (omega arith)
  multiple-step p high b (suc c) (Acc.intro _ f) v e =
      rw
        (
          multiple_eq p (suc c / 2) high (f (suc c / 2) (half-lt c)) v
              (half-digit (suc c) high b e),
          bit-digit (suc c) high b e,
        )
        refl

  double_and_add-cons :
      (p sum : Ed25519Point) (b : Bool) (bs : List Bool)
      → double_and_add p (next_multiple n p sum b) bs ≡ double_and_add p sum (b ∷ bs)
  unfolding next_multiple
  double_and_add-cons p sum true bs = refl
  double_and_add-cons p sum false bs = refl

  scalar_mul-from :
      (p : Ed25519Point) (high : ℕ) (bs : List Bool)
      → scalar_mul n p (number_from high bs) ≡ double_and_add p (scalar_mul n p high) bs
  unfolding scalar_mul
  scalar_mul-from p high [] = refl
  scalar_mul-from p high (b ∷ bs) =
      scalar_mul-from p (2 * high + digit b) bs
      ∙ ap (λ sum. double_and_add p sum bs)
          (multiple-step p high b (2 * high + digit b) (lt_wf (2 * high + digit b)) (lt_wf high)
            refl)
      ∙ double_and_add-cons p (scalar_mul n p high) b bs

  -- The product of a point by the number that binary digits spell is the result of double-and-add
  -- over the digits, from the highest.
  pub scalar_mul-double_and_add :
      (p : Ed25519Point) (digits : List Bool)
      → scalar_mul n p (number_from 0 digits) ≡ double_and_add p neutral digits
  unfolding scalar_mul multiple lt_wf
  scalar_mul-double_and_add p digits = scalar_mul-from p 0 digits
