-- ===== src/Tests/Ed25519.antt =====
-- The curve at small inputs.
use noktulo.Prelude.{
  ℕ, ◌+◌, ◌*◌, ◌/◌, ◌%◌, ◌^◌, ◌<◌, ◌≡◌, refl, true, false, List, [], ◌∷◌, replicate, ok, Returns,
  okay, take, ◌++◌, All-append, All-replicate, arith,
}
use noktulo.Prelude.Bytes.{IsByte}
use noktulo.Ed25519.Base.{base}
use noktulo.Ed25519.{neutral, scalar_mul, decode, encode, base_point}
use noktulo.Ed25519.Encoding.{encode-decode}
use noktulo.Ed25519.Multiples.{double_and_add, scalar_mul-double_and_add}
use noktulo.Ed25519.Keys.{secret_scalar, sign, verify, public_key}
use noktulo.Ed25519.Keys.Secrets.{secret_scalar_bits}
use noktulo.Ed25519.Keys.Making.{Signs, sign-Signs}
use noktulo.Ed25519.Keys.Checking.{Judges, verify-Judges}
use noktulo.Tests.Numbers.{plain, toy_sha}

-- The encoding of the neutral point: 1, then zeros.
abbrev one_bytes : List ℕ
one_bytes = 1 ∷ replicate 31 0

decode_one : decode plain one_bytes ≡ ok (okay neutral)
unfolding decode
decode_one = refl

encode-decode_example : encode plain neutral ≡ one_bytes
encode-decode_example =
    encode-decode plain one_bytes neutral refl
      (omega arith, All-replicate IsByte 31 0 (omega arith)) decode_one

scalar_mul-double_and_add_example :
    scalar_mul plain base 6 ≡ double_and_add plain base neutral (false ∷ true ∷ true ∷ false ∷ [])
scalar_mul-double_and_add_example =
    scalar_mul-double_and_add plain base (false ∷ true ∷ true ∷ false ∷ [])

abbrev secret : List ℕ
secret = replicate 32 9

secret_scalar_bits_example :
    (secret_scalar plain toy_sha secret
      ≡ 2 ^ 254 + plain.from_bytes_le (take 32 (toy_sha.digest secret)) % 2 ^ 254 / 8 * 8)
    × (secret_scalar plain toy_sha secret < 2 ^ 255)
secret_scalar_bits_example = secret_scalar_bits plain toy_sha secret

abbrev signature : List ℕ
signature = one_bytes ++ replicate 32 0

verify-Judges_example :
    Returns
      (verify plain toy_sha one_bytes signature [])
      (Judges plain toy_sha one_bytes signature [])
verify-Judges_example =
    verify-Judges plain toy_sha one_bytes signature [] refl
      (omega arith, All-replicate IsByte 31 0 (omega arith)) refl
      (All-append IsByte one_bytes (replicate 32 0)
        (omega arith, All-replicate IsByte 31 0 (omega arith))
        (All-replicate IsByte 32 0 (omega arith)))

abbrev key : List ℕ
key =
    167 ∷ 152 ∷ 86 ∷ 61 ∷ 5 ∷ 112 ∷ 17 ∷ 25 ∷ 146 ∷ 20 ∷ 29 ∷ 112 ∷ 157 ∷ 75 ∷ 9 ∷ 98 ∷ 19 ∷ 251 ∷ 1
    ∷ 29 ∷ 68 ∷ 54 ∷ 13 ∷ 211 ∷ 82 ∷ 6 ∷ 177 ∷ 113 ∷ 109 ∷ 253 ∷ 106 ∷ 15 ∷ []

public_key_runs : public_key plain toy_sha secret ≡ ok key
unfolding public_key base_point scalar_mul secret_scalar encode
public_key_runs = refl

sign-Signs_example : Signs plain toy_sha secret (1 ∷ []) key (sign plain toy_sha secret (1 ∷ []))
sign-Signs_example = sign-Signs plain toy_sha secret (1 ∷ []) key public_key_runs
