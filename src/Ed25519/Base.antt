-- ===== src/Ed25519/Base.antt =====
-- The coordinates of the base point, computed with powers by squaring.
use native.Mathlib.Nat.{pow-succ', add-mul-mod_self_left, div-add-mod, mod-mod, mul_comm}
use native.Mathlib.Nat
use noktulo.Prelude.{
  ℕ, zero, suc, ◌+◌, ◌-◌, ◌*◌, ◌/◌, ◌%◌, ◌^◌, ◌<◌, ◌≡◌, refl, sym, ap, ◌∙◌, ◌=ℕ=◌, if◌then◌else◌,
  ok, arith, true, inl, inr, Bool-cases, =ℕ=_iff,
}
use noktulo.Ed25519.{
  BigUints, Ed25519Point, q, base_point, inv, d_param, square_of_x, root_of, sub, xrecover, new,
  is_on_curve,
}

-- `b ^ e % m` for an exponent of `k` bits
abbrev pub pow_mod : ℕ → ℕ → ℕ → ℕ → ℕ
pow_mod zero b e m = 1 % m
pow_mod (suc k) b zero m = 1 % m
pow_mod (suc k) b (suc e) m =
    let half = pow_mod k (b * b % m) (suc e / 2) m in if suc e % 2 =ℕ= 1 then half * b % m else half

-- The coordinates that RFC 8032 states.
abbrev pub base_x : ℕ
base_x = 15112221349535400772501151409588531511454012693041857206046113283949847762202

abbrev pub base_y : ℕ
base_y = 46316835694926478169428394003475163141307993866256225615783033603165251855960

abbrev pub base : Ed25519Point
base = record { x = base_x; y = base_y }

mod-mul : (a b m : ℕ) → a % m * b % m ≡ a * b % m
mod-mul a b m = sym (add-mul-mod_self_left (a % m * b) m (a / m * b)) ∙ ap (λ x. x % m) regroup
  where
    regroup : a % m * b + m * (a / m * b) ≡ a * b
    regroup =
        rw (← Nat.mul_assoc m (a / m) b, ← Nat.add-mul (a % m) (m * (a / m)) b, Nat.mod-add-div a m)
          refl

pow-square : (b e : ℕ) → b ^ (2 * e) ≡ (b * b) ^ e
pow-square b zero = Nat.pow-zero b ∙ sym (Nat.pow-zero (b * b))
pow-square b (suc e) =
    ap (λ k. b ^ k) (omega arith)
    ∙ Nat.pow-succ' b (suc (2 * e))
    ∙ ap (λ x. b * x) (Nat.pow-succ' b (2 * e) ∙ ap (λ x. b * x) (pow-square b e))
    ∙ sym (Nat.mul_assoc b b ((b * b) ^ e))
    ∙ sym (Nat.pow-succ' (b * b) e)

mod-pow : (b e m : ℕ) → (b % m) ^ e % m ≡ b ^ e % m
mod-pow b zero m = rw (Nat.pow-zero (b % m), Nat.pow-zero b) refl
mod-pow b (suc e) m =
    rw
      (
        Nat.pow-suc (b % m) e,
        Nat.pow-suc b e,
        ← mod-mul ((b % m) ^ e) (b % m) m,
        mod-pow b e m,
        mod-mul (b ^ e) (b % m) m,
        Nat.mul_comm (b ^ e) (b % m),
        mod-mul b (b ^ e) m,
        Nat.mul_comm b (b ^ e),
      )
      refl

pub pow_mod_lem : (k b e m : ℕ) → e < 2 ^ k → pow_mod k b e m ≡ b ^ e % m
pow_mod_lem zero b e m h =
    let none_left : e ≡ 0 = omega arith in rw (none_left, Nat.pow-zero b) refl
pow_mod_lem (suc k) b zero m h = rw (Nat.pow-zero b) refl
pow_mod_lem (suc k) b (suc e) m h =
    let halved : pow_mod k (b * b % m) (suc e / 2) m ≡ b ^ (2 * (suc e / 2)) % m =
      pow_mod_lem k (b * b % m) (suc e / 2) m (omega (arith, Nat.two-pow-succ k))
      ∙ mod-pow (b * b) (suc e / 2) m
      ∙ ap (λ x. x % m) (sym (pow-square b (suc e / 2))) in
    elim (Bool-cases (suc e % 2 =ℕ= 1)) [
      | inl odd ↦
          let bit : suc e % 2 ≡ 1 = (=ℕ=_iff (suc e % 2) 1).0 odd in
          rw (odd, halved)
            (mod-mul (b ^ (2 * (suc e / 2))) b m
              ∙ ap (λ x. x % m)
                  (sym (Nat.pow-suc b (2 * (suc e / 2))) ∙ ap (λ x. b ^ x) (omega arith)))
      | inr even ↦
          let bit : suc e % 2 ≡ 0 = ground arith in
          rw (even, halved) (ap (λ x. b ^ x % m) (omega arith))
    ]

module _ (n : BigUints) where
  modpow-pow_mod : (base e : ℕ) → e < 2 ^ 255 → n.modpow base e q ≡ pow_mod 255 base e q
  modpow-pow_mod base e h = n.modpow_lem base e q (omega arith) ∙ sym (pow_mod_lem 255 base e q h)

  inv-pow_mod : (x : ℕ) → inv n x ≡ pow_mod 255 x (q - 2) q
  unfolding inv
  inv-pow_mod x = modpow-pow_mod x (q - 2) (omega arith)

  d_param_lem :
      d_param n ≡ 37095705934669439343138083508754565189542113879843219016388785533085940283555
  unfolding d_param
  d_param_lem = rw (inv-pow_mod 121666) refl

  square_of_x-base :
      square_of_x n base_y
      ≡ 26187595835145689230469591415084376402084551887632582719101735842039498021991
  unfolding square_of_x
  square_of_x-base =
      rw (d_param_lem) (ap (λ i. (base_y * base_y + (q - 1)) * i % q) (inv-pow_mod _))

  root_of-base :
      root_of n 26187595835145689230469591415084376402084551887632582719101735842039498021991
      ≡ ok 42783823269122696939284341094755422415180979639778424813682678720006717057747
  unfolding root_of
  root_of-base =
      rw
        (modpow-pow_mod
          26187595835145689230469591415084376402084551887632582719101735842039498021991
          ((q + 3) / 8) (omega arith))
        refl

  odd_root :
      (y square root : ℕ)
      → square_of_x n y ≡ square
      → root_of n square ≡ ok root
      → n.bit root 0 ≡ true
      → xrecover n y ≡ sub q root
  unfolding xrecover
  odd_root y square root squared rooted odd = rw (squared, rooted, odd) refl

  xrecover-base : xrecover n base_y ≡ ok base_x
  xrecover-base = odd_root base_y _ _ square_of_x-base root_of-base (n.bit_lem _ 0)

  -- The base point is computed without a panic and has the coordinates that RFC 8032 states.
  pub base_point_lem : base_point n ≡ ok base
  unfolding base_point new is_on_curve
  base_point_lem = rw (inv-pow_mod 5, xrecover-base, d_param_lem) refl
