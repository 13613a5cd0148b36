-- ===== src/Ed25519.antt =====
-- src/crypto/ed25519.rs: the field, the points of the curve, their addition, multiples and encoding.
-- A `BigUint` is a natural number; a subtraction of two of them panics where it would be negative.
mod Bytes
mod Field
pub mod Encoding
pub mod Multiples
pub mod Keys
pub mod Base
use mathlib.Core.WellFounded.{Acc}
use noktulo.Prelude.{
  expect, ℕ, zero, suc, ◌+◌, ◌-◌, ◌*◌, ◌/◌, ◌%◌, ◌^◌, ◌≤◌, ◌<◌, ◌≡◌, Bool, true, false, not, List,
  [], ◌∷◌, leb, ◌=ℕ=◌, if◌then◌else◌, length, Run, ok, panic, ◌>>=◌, Result, okay, err, arith, ◌==◌,
  bool_eq, take, replicate, ◌++◌,
}
use noktulo.Prelude.Bytes.{AreBytes}
use noktulo.Post.{Ed25519Error, bad_point}

-- The operations of the crate num-bigint that the program calls, beside its arithmetic.
pub record BigUints : Type 0 where
  pub modpow : ℕ → ℕ → ℕ → ℕ
  pub modpow_lem : (base e m : ℕ) → 0 < m → modpow base e m ≡ base ^ e % m
  pub bit : ℕ → ℕ → Bool
  pub bit_lem : (n k : ℕ) → bit n k ≡ (n / 2 ^ k % 2 =ℕ= 1)
  pub set_bit : ℕ → ℕ → Bool → ℕ
  pub set_bit_true : (n k : ℕ) → set_bit n k true ≡ n + (1 - n / 2 ^ k % 2) * 2 ^ k
  pub set_bit_false : (n k : ℕ) → set_bit n k false ≡ n - n / 2 ^ k % 2 * 2 ^ k
  pub from_bytes_le : List ℕ → ℕ
  pub from_bytes_le-nil : from_bytes_le [] ≡ 0
  pub from_bytes_le-cons :
      (b : ℕ) (bs : List ℕ) → from_bytes_le (b ∷ bs) ≡ b + 256 * from_bytes_le bs
  pub to_bytes_le : ℕ → List ℕ
  pub to_bytes_le_bytes : (n : ℕ) → AreBytes (to_bytes_le n)
  pub from_bytes_le-to_bytes_le : (n : ℕ) → from_bytes_le (to_bytes_le n) ≡ n
  pub length-to_bytes_le : (n k : ℕ) → n < 256 ^ suc k → length (to_bytes_le n) ≤ suc k

-- 2^255-19, and the order of the base point
abbrev pub q : ℕ
q = 2 ^ 255 - 19

abbrev pub l : ℕ
l = 2 ^ 252 + 27742317777372353535851937790883648493

-- `a - b`
abbrev pub sub : ℕ → ℕ → Run ℕ
sub a b = if leb b a then ok (a - b) else panic

pub record Ed25519Point : Type 0 where
  pub x : ℕ
  pub y : ℕ

abbrev pub neutral : Ed25519Point
neutral = record { x = 0; y = 1 }

acc_below : (k m : ℕ) → m < k → Acc ◌<◌ m
acc_below zero m h = absurd (omega arith)
acc_below (suc k) m h = Acc.intro m λ i hi. acc_below k i (omega arith)

unfoldable pub lt_wf : (m : ℕ) → Acc ◌<◌ m
unfolding acc_below
lt_wf m = acc_below (suc m) m (omega arith)

pub half-lt : (c : ℕ) → suc c / 2 < suc c
half-lt c = omega arith

module _ (n : BigUints) where
  unfoldable pub inv : ℕ → ℕ
  inv x = n.modpow x (q - 2) q

  -- `D`, -121665/121666, and `I`, a square root of -1
  unfoldable pub d_param : ℕ
  unfolding inv
  d_param = (q - 121665) * inv 121666 % q

  unfoldable pub i_param : ℕ
  i_param = n.modpow 2 ((q - 1) / 4) q

  -- the candidate for the root, and its product by `I` where it is none
  unfoldable pub root_of : ℕ → Run ℕ
  unfolding i_param
  root_of xx =
      let x = n.modpow xx ((q + 3) / 8) q in
      sub q xx >>= λ minus_xx. ok (if (x * x + minus_xx) % q =ℕ= 0 then x else x * i_param % q)

  -- `x^2 = (y^2-1)/(dy^2+1)`
  unfoldable pub square_of_x : ℕ → ℕ
  unfolding inv d_param
  square_of_x y = (y * y + (q - 1)) * inv (d_param * y * y + 1) % q

  unfoldable pub xrecover : ℕ → Run ℕ
  unfolding square_of_x root_of
  xrecover y = root_of (square_of_x y) >>= λ x. if n.bit x 0 then sub q x else ok x

  -- `(Q - x) * x + y * y` and `1 + D * x * x * y * y`
  unfoldable pub is_on_curve : Ed25519Point → Run Bool
  unfolding d_param
  is_on_curve p = sub q p.x >>= λ minus_x.
      ok ((minus_x * p.x + p.y * p.y) % q =ℕ= (1 + d_param * p.x * p.x * p.y * p.y) % q)

  -- `Ed25519Point::new`, and the end of `decode`
  unfoldable pub new : ℕ → ℕ → Run (Result Ed25519Point Ed25519Error)
  unfolding is_on_curve
  new x y =
      let p : Ed25519Point = record { x = x; y = y } in
      is_on_curve p >>= λ on_curve. ok (if not on_curve then err bad_point else okay p)

  unfoldable pub add : Ed25519Point → Ed25519Point → Ed25519Point
  unfolding inv d_param
  add p r = record {
    x = (p.x * r.y + r.x * p.y) * inv (1 + d_param * p.x * r.x * p.y * r.y) % q;
    y = (p.y * r.y + p.x * r.x) * inv (1 + (q - d_param) * p.x * r.x * p.y * r.y) % q;
  }

  -- `q = q + q`, and the point itself once more for an odd coefficient
  unfoldable pub next_multiple : Ed25519Point → Ed25519Point → Bool → Ed25519Point
  unfolding add
  next_multiple p half odd = let double = add half half in if odd then add double p else double

  -- the recursion on half the coefficient
  unfoldable pub multiple : Ed25519Point → (coef : ℕ) → Acc ◌<◌ coef → Ed25519Point
  unfolding next_multiple
  multiple p coef (Acc.intro zero _) = neutral
  multiple p coef (Acc.intro (suc c) smaller) =
      next_multiple p (multiple p (suc c / 2) (smaller (suc c / 2) (half-lt c))) (n.bit (suc c) 0)

  unfoldable pub scalar_mul : Ed25519Point → ℕ → Ed25519Point
  unfolding multiple lt_wf
  scalar_mul p coef = multiple p coef (lt_wf coef)

  unfoldable pub encode : Ed25519Point → List ℕ
  encode p =
      let r = n.to_bytes_le (n.set_bit p.y 255 (n.bit p.x 0)) in
      take 32 r ++ replicate (32 - length r) 0

  -- `y` without its sign bit, and the root with that sign
  unfoldable pub with_sign : Bool → ℕ → Run ℕ
  with_sign sign x = if n.bit x 0 == sign then ok x else sub q x

  unfoldable pub decode : List ℕ → Run (Result Ed25519Point Ed25519Error)
  unfolding xrecover with_sign new
  decode bytes =
      let number = n.from_bytes_le bytes in
      let sign = n.bit number 255 in
      let y = n.set_bit number 255 false in
      xrecover y >>= λ x. with_sign sign x >>= λ signed. new signed y

  -- the base point of the curve, whose `y` is 4/5
  unfoldable pub base_point : Run Ed25519Point
  unfolding inv xrecover new
  base_point = let y = 4 * inv 5 % q in xrecover y >>= λ x. new (x % q) y >>= expect
