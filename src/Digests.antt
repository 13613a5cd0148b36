-- ===== src/Digests.antt =====
-- The hash functions of the crates sha3 and blake2, which the program calls: any functions with the
-- documented lengths of output.
use noktulo.Prelude.{
  ℕ, ◌+◌, ◌%◌, ◌<◌, ◌≡◌, List, [], ◌∷◌, length, replicate, All-replicate, length-replicate, arith,
}
use noktulo.Prelude.Bytes.{AreBytes, IsByte}

pub record Digests : Type 0 where
  pub sha3_512 : List ℕ → List ℕ
  pub sha3_512_length : (d : List ℕ) → length (sha3_512 d) ≡ 64
  pub sha3_512_bytes : (d : List ℕ) → AreBytes (sha3_512 d)
  pub blake2s : List ℕ → List ℕ
  pub blake2s_length : (d : List ℕ) → length (blake2s d) ≡ 32
  pub blake2s_bytes : (d : List ℕ) → AreBytes (blake2s d)

-- Functions that meet this: a checksum of one byte, repeated.
abbrev pub sum_bytes : List ℕ → ℕ
sum_bytes [] = 0
sum_bytes (x ∷ xs) = (x + sum_bytes xs) % 256

pub sum_bytes-lt : (d : List ℕ) → sum_bytes d < 256
sum_bytes-lt [] = omega arith
sum_bytes-lt (x ∷ xs) = omega arith

abbrev pub checksums : Digests
checksums = record {
  sha3_512 = λ d. replicate 64 (sum_bytes d);
  sha3_512_length = λ d. length-replicate {A = ℕ} 64 (sum_bytes d);
  sha3_512_bytes = λ d. All-replicate IsByte 64 (sum_bytes d) (sum_bytes-lt d);
  blake2s = λ d. replicate 32 (sum_bytes d);
  blake2s_length = λ d. length-replicate {A = ℕ} 32 (sum_bytes d);
  blake2s_bytes = λ d. All-replicate IsByte 32 (sum_bytes d) (sum_bytes-lt d);
}
