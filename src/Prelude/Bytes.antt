-- ===== src/Prelude/Bytes.antt =====
-- `u8` values: the range, the shifts and masks, and checks over all values.
use Prim.Native.Nat.{ℕ, zero, suc, ◌*◌, ◌/◌, ◌%◌, ◌^◌, ◌<◌, bit_xor}
use mathlib.Core.Path.{◌≡◌, refl, sym, ◌∙◌}
use mathlib.Core.Bool.{Bool, true, false, ◌&&◌}
use mathlib.Core.List.{List}
use native.Mathlib.Omega.{arith}
use noktulo.Prelude.Tests.{ltb, ◌=ℕ=◌, if◌then◌else◌}
use noktulo.Prelude.Lists.{All}

abbrev pub IsByte : ℕ → Type 0
IsByte b = b < 256

abbrev pub AreBytes : List ℕ → Type 0
AreBytes = All IsByte

-- `x >> k`
abbrev pub shr : ℕ → ℕ → ℕ
shr x k = x / 2 ^ k

-- `x << k` on a `u8`: the high bits are lost.
abbrev pub shl8 : ℕ → ℕ → ℕ
shl8 x k = x * 2 ^ k % 256

-- A test on all numbers below a bound, by evaluation.
unfoldable pub all_below : ℕ → (ℕ → Bool) → Bool
all_below zero test = true
all_below (suc bound) test = if test bound then all_below bound test else false

pub all_below_sound :
    (bound : ℕ) (test : ℕ → Bool) (value : ℕ)
    → all_below bound test ≡ true
    → value < bound
    → test value ≡ true
unfolding all_below
all_below_sound zero test value passed below = absurd (omega arith)
all_below_sound (suc bound) test value passed below =
    ground (arith, all_below_sound bound test value)

pub all_below_sound₂ :
    (n m : ℕ) (p : ℕ → ℕ → Bool) (x y : ℕ)
    → all_below n (λ a. all_below m (p a)) ≡ true
    → x < n
    → y < m
    → p x y ≡ true
all_below_sound₂ n m p x y h hx hy =
    all_below_sound m (p x) y (all_below_sound n (λ a. all_below m (p a)) x h hx) hy

xor_table :
    all_below 256 (λ a. all_below 256 λ b. bit_xor (bit_xor a b) b =ℕ= a && ltb (bit_xor a b) 256)
    ≡ true
unfolding all_below
xor_table = refl

xor_self_table : all_below 256 (λ a. bit_xor a a =ℕ= 0 && bit_xor 0 a =ℕ= a) ≡ true
unfolding all_below
xor_self_table = refl

pub xor_cancel : (a b : ℕ) → a < 256 → b < 256 → bit_xor (bit_xor a b) b ≡ a
xor_cancel a b ha hb = ground (
  arith,
  all_below_sound₂ 256 256 (λ x y. bit_xor (bit_xor x y) y =ℕ= x && ltb (bit_xor x y) 256) a b
      xor_table,
)

pub xor-lt : (a b : ℕ) → a < 256 → b < 256 → bit_xor a b < 256
xor-lt a b ha hb = ground (
  arith,
  all_below_sound₂ 256 256 (λ x y. bit_xor (bit_xor x y) y =ℕ= x && ltb (bit_xor x y) 256) a b
      xor_table,
)

pub xor_self : (a : ℕ) → a < 256 → bit_xor a a ≡ 0
xor_self a h =
    ground
      (arith, all_below_sound 256 (λ x. bit_xor x x =ℕ= 0 && bit_xor 0 x =ℕ= x) a xor_self_table)

pub zero-xor : (a : ℕ) → a < 256 → bit_xor 0 a ≡ a
zero-xor a h =
    ground
      (arith, all_below_sound 256 (λ x. bit_xor x x =ℕ= 0 && bit_xor 0 x =ℕ= x) a xor_self_table)

-- Bytes that differ in no bit are equal.
pub eq_of_xor : (a b : ℕ) → a < 256 → b < 256 → bit_xor a b ≡ 0 → a ≡ b
eq_of_xor a b ha hb e = sym (xor_cancel a b ha hb) ∙ rw (e, zero-xor b hb)
