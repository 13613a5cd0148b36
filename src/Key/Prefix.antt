-- ===== src/Key/Prefix.antt =====
-- Prefixes of keys: `is_prefix`, `resize` and `resize_with_random`.
use noktulo.Prelude.{
  ℕ, ◌-◌, ◌≤◌, ◌≡◌, refl, ◌↔◌, true, List, [], ◌∷◌, ◌++◌, =ℕ=_iff, length, take, drop, replicate,
  length-append, length-take, length-replicate, take-all, Returns, arith,
}
use noktulo.Key.{Key, agrees, is_prefix, resize, resize_with_random}

agrees-append : (k rest : Key) → agrees k (k ++ rest) ≡ true
unfolding agrees
agrees-append [] rest = refl
agrees-append (b ∷ bs) rest = ground (arith, =ℕ=_iff b b, agrees-append bs rest)

agrees_sound : (k other : Key) → agrees k other ≡ true → other ≡ k ++ drop (length k) other
unfolding agrees
agrees_sound [] other h = refl
agrees_sound (b ∷ bs) [] h = ground arith
agrees_sound (b ∷ bs) (c ∷ cs) h = ground (arith, agrees_sound bs cs)

-- is_prefix answers true exactly on the keys that are the first key followed by some bytes.
pub is_prefix_iff :
    (k other : Key) → (is_prefix k other ≡ true) ↔ ((rest : Key) × (other ≡ k ++ rest))
unfolding is_prefix
is_prefix_iff k other = (to, from)
  where
    to : is_prefix k other ≡ true → (rest : Key) × (other ≡ k ++ rest)
    to h = (drop (length k) other, agrees_sound k other (ground arith))

    from : ((rest : Key) × (other ≡ k ++ rest)) → is_prefix k other ≡ true
    from (rest, e) = rw e (ground (arith, length-append k rest, agrees-append k rest))

pub is_prefix-append : (k rest : Key) → is_prefix k (k ++ rest) ≡ true
is_prefix-append k rest = (is_prefix_iff k (k ++ rest)).1 (rest, refl)

pub length-resize : (k : Key) (n : ℕ) → length (resize k n) ≡ n
unfolding resize
length-resize k n = omega (
  arith,
  length-append (take n k) (replicate (n - length k) 0),
  length-take n k,
  length-replicate {A = ℕ} (n - length k) 0,
)

pub resize_grow : (k : Key) (n : ℕ) → length k ≤ n → resize k n ≡ k ++ replicate (n - length k) 0
unfolding resize
resize_grow k n h = rw (take-all n k h)

-- A grown key keeps the old one as a prefix, both ways of growing it.
pub resize-is_prefix : (k : Key) (n : ℕ) → length k ≤ n → is_prefix k (resize k n) ≡ true
resize-is_prefix k n h = rw (resize_grow k n h) (is_prefix-append k (replicate (n - length k) 0))

-- If the source of random bytes gives as many as were asked for and the new length is not smaller,
-- resize_with_random returns a key of the new length that has the old key as a prefix.
resize_with_random-is_prefix :
    (fill : ℕ → List ℕ) (k : Key) (n : ℕ)
    → ((m : ℕ) → length (fill m) ≡ m)
    → length k ≤ n
    → Returns (resize_with_random fill k n) λ id. (length id ≡ n) × (is_prefix k id ≡ true)
unfolding resize_with_random
resize_with_random-is_prefix fill k n filled h = (
  k ++ fill (n - length k),
  ground arith,
  (
    omega (arith, length-append k (fill (n - length k)), filled (n - length k)),
    is_prefix-append k _,
  ),
)
