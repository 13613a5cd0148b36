-- ===== src/Key/Bits.antt =====
-- `zeroes_in_prefix`: what it computes, against the number of leading zero bits.
use noktulo.Prelude.{
  ℕ, zero, suc, ◌+◌, ◌-◌, ◌*◌, ◌%◌, ◌^◌, ◌≤◌, ◌<◌, ◌≡◌, ◌≢◌, refl, ap, ◌∙◌, ◌↔◌, Bool, true, ◌&&◌,
  [], ◌∷◌, ◌++◌, Option, none, some, ltb, leb, ◌=ℕ=◌, if◌then◌else◌, length, take, length-append,
  length-replicate, replicate, Returns, ok, arith,
}
use mathlib.Core.List.{append-nil}
use native.Mathlib.Nat.{zero-add}
use noktulo.Prelude.Bytes.{AreBytes, all_below, all_below_sound, shr}
use noktulo.Key.{Key, top_bit, scan_bytes, zeroes_in_prefix}

-- The zero bits above the highest bit that is set, of the low `n` bits.
pub leading_zeros_below : ℕ → ℕ → ℕ
leading_zeros_below zero b = 0
leading_zeros_below (suc n) b =
    let rest = leading_zeros_below n b in if shr b n % 2 =ℕ= 0 then suc rest else 0

-- The number of zero bits in front of the first bit that is set, over a whole key.
pub leading_zero_bits : Key → ℕ
leading_zero_bits [] = 0
leading_zero_bits (b ∷ bs) = if b =ℕ= 0 then 8 + leading_zero_bits bs else leading_zeros_below 8 b

-- Bit `j` is the highest that is set in `b`, and `lead` bits of the byte stand above it.
pub record IsTopBit (b j lead : ℕ) : Type 0 where
  pub in_byte : j < 8
  pub is_set : 2 ^ j ≤ b
  pub highest : b < 2 ^ suc j
  pub above : lead + j ≡ 7

check_top : ℕ → ℕ → Option ℕ → Bool
check_top b lead none = b =ℕ= 0
check_top b lead (some j) = ltb j 8 && leb (2 ^ j) b && ltb b (2 ^ suc j) && lead + j =ℕ= 7

check_top_sound :
    (b lead : ℕ) (o : Option ℕ)
    → check_top b lead o ≡ true
    → b ≢ 0
    → (j : ℕ) × (o ≡ some j) × IsTopBit b j lead
unfolding check_top
check_top_sound b lead none h ne = absurd (ground arith)
check_top_sound b lead (some j) h ne = (j, refl, ground arith)

byte_table : all_below 256 (λ b. check_top b (leading_zeros_below 8 b) (top_bit 8 b)) ≡ true
unfolding all_below check_top top_bit leading_zeros_below
byte_table = refl

-- The inner loop finds the highest bit of a byte that is not zero.
pub top_bit_lem :
    (b : ℕ)
    → b < 256
    → b ≢ 0
    → (j : ℕ) × (top_bit 8 b ≡ some j) × IsTopBit b j (leading_zeros_below 8 b)
top_bit_lem b h ne =
    check_top_sound b _ _
      (all_below_sound 256 (λ x. check_top x (leading_zeros_below 8 x) (top_bit 8 x)) b byte_table
        h)
      ne

-- What the scan of a key finds: the first byte that is not zero, and its highest bit.
pub data Scan : Key → Type 0 where
  all_zero : (k : Key) (n : ℕ) → k ≡ replicate n 0 → Scan k
  first_bit :
      (k : Key) (n b j : ℕ) (rest : Key)
      → k ≡ replicate n 0 ++ b ∷ rest
      → top_bit 8 b ≡ some j
      → IsTopBit b j (leading_zeros_below 8 b)
      → b ≢ 0
      → Scan k

Scan-zero : (k : Key) → Scan k → Scan (0 ∷ k)
Scan-zero k (all_zero _ n e) = all_zero (0 ∷ k) (suc n) (ap (◌∷◌ 0) e)
Scan-zero k (first_bit _ n b j rest e hit t ne) =
    first_bit (0 ∷ k) (suc n) b j rest (ap (◌∷◌ 0) e) hit t ne

-- Every key of bytes is scanned one of the two ways.
pub Scan-total : (k : Key) → AreBytes k → Scan k
Scan-total [] h = all_zero [] 0 refl
Scan-total (zero ∷ bs) h = Scan-zero bs (Scan-total bs h.1)
Scan-total (suc b ∷ bs) h =
    let ne : suc b ≢ 0 = omega arith in
    let (j, e, t) = top_bit_lem (suc b) h.0 ne in first_bit (suc b ∷ bs) 0 (suc b) j bs refl e t ne

scan-replicate : (i n : ℕ) → scan_bytes i (replicate n 0) ≡ none
unfolding scan_bytes
scan-replicate i zero = refl
scan-replicate i (suc n) = scan-replicate (suc i) n

scan-first_bit :
    (i n b : ℕ) (rest : Key) {j : ℕ}
    → b ≢ 0
    → top_bit 8 b ≡ some j
    → scan_bytes i (replicate n 0 ++ b ∷ rest) ≡ some ((i + n) * 8 + j)
unfolding scan_bytes
scan-first_bit i zero b rest ne e = ground arith
scan-first_bit i (suc n) b rest ne e = rw (scan-first_bit (suc i) n b rest ne e) (ground arith)

leading-replicate : (n : ℕ) → leading_zero_bits (replicate n 0) ≡ n * 8
unfolding leading_zero_bits
leading-replicate zero = refl
leading-replicate (suc n) = omega (arith, leading-replicate n)

leading-first_bit :
    (n b : ℕ) (rest : Key)
    → b ≢ 0
    → leading_zero_bits (replicate n 0 ++ b ∷ rest) ≡ n * 8 + leading_zeros_below 8 b
unfolding leading_zero_bits
leading-first_bit zero b rest ne = ground arith
leading-first_bit (suc n) b rest ne = omega (arith, leading-first_bit n b rest ne)

zeroes_in_prefix-replicate : (n : ℕ) → 0 < n → zeroes_in_prefix (replicate n 0) ≡ ok (n * 8 - 1)
unfolding zeroes_in_prefix
zeroes_in_prefix-replicate n h =
    rw (scan-replicate 0 n, zeroes_in_prefix) (ground (arith, length-replicate {A = ℕ} n 0))

-- A nonempty key of bytes, its leading zero bytes, and both counts over it.
pub data Counts (k : Key) : Type 0 where
  no_bit :
      (n : ℕ)
      → k ≡ replicate n 0
      → length k ≡ n
      → zeroes_in_prefix k ≡ ok (n * 8 - 1)
      → leading_zero_bits k ≡ n * 8
      → Counts k
  with_bit :
      (n b j lead : ℕ) (rest : Key)
      → k ≡ replicate n 0 ++ b ∷ rest
      → b ≢ 0
      → n < length k
      → zeroes_in_prefix k ≡ ok (n * 8 + j)
      → leading_zero_bits k ≡ n * 8 + lead
      → lead + j ≡ 7
      → Counts k

Scan-Counts : (k : Key) → Scan k → 0 < length k → Counts k
unfolding zeroes_in_prefix
Scan-Counts k (all_zero _ n e) h =
    let size : length k ≡ n = ap length e ∙ length-replicate {A = ℕ} n 0 in
    no_bit n e size (rw e (zeroes_in_prefix-replicate n (omega arith))) (rw e (leading-replicate n))
Scan-Counts k (first_bit _ n b j rest e hit t ne) h =
    with_bit n b j (leading_zeros_below 8 b) rest e ne
      (omega (
        arith,
        ap length e,
        length-append (replicate n 0) (b ∷ rest),
        length-replicate {A = ℕ} n 0,
      ))
      (rw (e, scan-first_bit 0 n b rest ne hit, zeroes_in_prefix, zero-add) refl)
      (rw e (leading-first_bit n b rest ne)) t.above

pub counts : (k : Key) → AreBytes k → 0 < length k → Counts k
counts k bytes h = Scan-Counts k (Scan-total k bytes) h

-- On a nonempty key of bytes, zeroes_in_prefix returns, and its result lies below the number of
-- bits of the key.
pub zeroes_in_prefix-lt :
    (k : Key) → AreBytes k → 0 < length k → Returns (zeroes_in_prefix k) λ n. n < length k * 8
zeroes_in_prefix-lt k bytes h = elim (counts k bytes h) [
  | no_bit n e size z l ↦ (n * 8 - 1, z, omega arith)
  | with_bit n b j lead rest e ne short z l sum ↦ (n * 8 + j, z, omega arith)
]

-- On a nonempty key of bytes, zeroes_in_prefix never returns the number of leading zero bits.
pub zeroes_in_prefix-ne-leading :
    (k : Key) → AreBytes k → 0 < length k → zeroes_in_prefix k ≢ ok (leading_zero_bits k)
zeroes_in_prefix-ne-leading k bytes h = elim (counts k bytes h) [
  | no_bit n e size z l ↦ λ p. ground arith
  | with_bit n b j lead rest e ne short z l sum ↦ λ p. ground arith
]

take-replicate : (m n : ℕ) (tail : Key) → m ≤ n → take m (replicate n 0 ++ tail) ≡ replicate m 0
take-replicate zero n tail h = refl
take-replicate (suc m) zero tail h = absurd (omega arith)
take-replicate (suc m) (suc n) tail h = ap (◌∷◌ 0) (take-replicate m n tail (omega arith))

take-with_bit :
    (m n b : ℕ) (rest : Key) → b ≢ 0 → take m (replicate n 0 ++ b ∷ rest) ≡ replicate m 0 → m ≤ n
take-with_bit zero n b rest ne e = omega arith
take-with_bit (suc m) zero b rest ne e = absurd (ground arith)
take-with_bit (suc m) (suc n) b rest ne e =
    omega (arith, take-with_bit m n b rest ne (ground arith))

-- For a key of bytes and m below its length, zeroes_in_prefix returns a number that reaches 8 * m
-- exactly where the first m bytes are zero.
pub zeroes_in_prefix-ge :
    (k : Key) (m : ℕ)
    → AreBytes k
    → m < length k
    → Returns (zeroes_in_prefix k) λ n. (m * 8 ≤ n) ↔ (take m k ≡ replicate m 0)
zeroes_in_prefix-ge k m bytes h = elim (counts k bytes (omega arith)) [
  | no_bit n e size z l ↦ (
    n * 8 - 1,
    z,
    (
      λ _. rw (e, ← append-nil {A = ℕ} (replicate n 0)) (take-replicate m n [] (omega arith)),
      λ _. omega arith,
    ),
  )
  | with_bit n b j lead rest e ne short z l sum ↦ (
    n * 8 + j,
    z,
    (
      λ le. rw e (take-replicate m n (b ∷ rest) (omega arith)),
      λ p. omega (arith, take-with_bit m n b rest ne (rw e at p)),
    ),
  )
]
