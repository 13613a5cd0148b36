-- ===== src/Tests/Numbers.antt =====
-- Functions that meet the laws of the numbers of src/crypto/ed25519.rs, and of its hash.
use native.Mathlib.Nat
use noktulo.Prelude.{
  ℕ, zero, suc, ◌+◌, ◌-◌, ◌*◌, ◌/◌, ◌%◌, ◌^◌, ◌≤◌, ◌<◌, ◌≡◌, refl, inl, inr, true, List, [], ◌∷◌,
  ◌=ℕ=◌, =ℕ=_iff, if◌then◌else◌, length, arith, Bool-cases,
}
use noktulo.Prelude.Bytes.{AreBytes}
use noktulo.Digests.{checksums}
use noktulo.Ed25519.{BigUints}
use noktulo.Ed25519.Base.{pow_mod, pow_mod_lem}
use noktulo.Ed25519.Keys.{Sha512}

abbrev number_of : List ℕ → ℕ
number_of [] = 0
number_of (b ∷ bs) = b + 256 * number_of bs

-- On fuel above the count of bytes.
abbrev bytes_of : ℕ → ℕ → List ℕ
bytes_of zero m = []
bytes_of (suc fuel) m =
    let rest = bytes_of fuel (m / 256) in if m / 256 =ℕ= 0 then m ∷ [] else m % 256 ∷ rest

pub lt-two-pow : (e : ℕ) → e < 2 ^ e
lt-two-pow zero = omega arith
lt-two-pow (suc e) = omega (arith, lt-two-pow e, Nat.two-pow-succ e)

pub lt-bytes-pow : (e : ℕ) → e < 256 ^ e
lt-bytes-pow zero = omega arith
lt-bytes-pow (suc e) = rw (Nat.pow-succ' 256 e) (omega (arith, lt-bytes-pow e))

pub bytes_of_bytes : (fuel m : ℕ) → AreBytes (bytes_of fuel m)
bytes_of_bytes zero m = tt
bytes_of_bytes (suc fuel) m = elim (Bool-cases (m / 256 =ℕ= 0)) [
  | inl e ↦ let none_left : m / 256 ≡ 0 = (=ℕ=_iff (m / 256) 0).0 e in rw e (omega arith, tt)
  | inr e ↦ rw e (omega arith, bytes_of_bytes fuel (m / 256))
]

pub number_of-bytes_of : (fuel m : ℕ) → m < 256 ^ fuel → number_of (bytes_of fuel m) ≡ m
number_of-bytes_of zero m h = omega arith
number_of-bytes_of (suc fuel) m h = elim (Bool-cases (m / 256 =ℕ= 0)) [
  | inl e ↦ rw e (omega arith)
  | inr e ↦
      rw (e, number_of-bytes_of fuel (m / 256) (omega (arith, Nat.pow-succ' 256 fuel)))
        (omega arith)
]

pub length-bytes_of : (fuel m k : ℕ) → m < 256 ^ suc k → length (bytes_of fuel m) ≤ suc k
length-bytes_of zero m k h = omega arith
length-bytes_of (suc fuel) m zero h = rw small (omega arith)
  where
    small : (m / 256 =ℕ= 0) ≡ true
    small = (=ℕ=_iff (m / 256) 0).1 (omega arith)
length-bytes_of (suc fuel) m (suc k) h =
    let rest = length-bytes_of fuel (m / 256) k (omega (arith, Nat.pow-succ' 256 (suc k))) in
    elim (Bool-cases (m / 256 =ℕ= 0)) [
      | inl e ↦ rw e (omega arith)
      | inr e ↦ rw e (omega (arith, rest))
    ]

abbrev pub plain : BigUints
plain = record {
  modpow = λ base e m. pow_mod e base e m;
  modpow_lem = λ base e m positive. pow_mod_lem e base e m (lt-two-pow e);
  bit = λ n k. n / 2 ^ k % 2 =ℕ= 1;
  bit_lem = λ n k. refl;
  set_bit = λ n k b. if b then n + (1 - n / 2 ^ k % 2) * 2 ^ k else n - n / 2 ^ k % 2 * 2 ^ k;
  set_bit_true = λ n k. refl;
  set_bit_false = λ n k. refl;
  from_bytes_le = number_of;
  from_bytes_le-nil = refl;
  from_bytes_le-cons = λ b bs. refl;
  to_bytes_le = λ n. bytes_of (suc n) n;
  to_bytes_le_bytes = λ n. bytes_of_bytes (suc n) n;
  from_bytes_le-to_bytes_le =
      λ n. number_of-bytes_of (suc n) n (omega (arith, lt-bytes-pow n, Nat.pow-succ' 256 n));
  length-to_bytes_le = λ n k. length-bytes_of (suc n) n k;
}

abbrev pub toy_sha : Sha512
toy_sha = record {
  digest = checksums.sha3_512;
  digest_length = checksums.sha3_512_length;
  digest_bytes = checksums.sha3_512_bytes;
}
