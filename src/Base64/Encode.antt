-- ===== src/Base64/Encode.antt =====
-- `encode` against the grouping of bytes by threes that the format prescribes.
use mathlib.Core.List.{append-nil, append_assoc}
use mathlib.Core.Path.{fun_ext}
use noktulo.Prelude.{
  ℕ, suc, ◌+◌, ◌*◌, ◌/◌, ◌%◌, ◌<◌, ◌≡◌, refl, sym, ap, ◌∙◌, bit_or, List, [], ◌∷◌, ◌++◌, map,
  length, length-map, length-append, length-replicate, Returns, replicate, ok, ◌>>=◌, >>=_assoc,
  arith,
}
use noktulo.Prelude.Bytes.{AreBytes, shr, shl8}
use noktulo.Base64.{encode_step, encode_loop, encode_last, encode, pad_d, pad_s}
use noktulo.Base64.Symbols.{symbol, substitute_lem, bit_or_4, bit_or_16}

-- The digits of a text: three bytes are four digits of six bits.
unfoldable pub digits_of : List ℕ → List ℕ
digits_of [] = []
digits_of (a ∷ []) = a / 4 ∷ a % 4 * 16 ∷ []
digits_of (a ∷ b ∷ []) = a / 4 ∷ (a % 4 * 16 + b / 16) ∷ b % 16 * 4 ∷ []
digits_of (a ∷ b ∷ c ∷ rest) =
    a / 4 ∷ (a % 4 * 16 + b / 16) ∷ (b % 16 * 4 + c / 64) ∷ c % 64 ∷ digits_of rest

module _ (i prev x : ℕ) (bp : prev < 256) (bx : x < 256) where
  step_first : i % 3 ≡ 0 → encode_step i prev x ≡ ok (symbol (x / 4) ∷ [])
  unfolding encode_step
  step_first h = ground (arith, substitute_lem (shr x 2))

  step_second : i % 3 ≡ 1 → encode_step i prev x ≡ ok (symbol (prev % 4 * 16 + x / 16) ∷ [])
  unfolding encode_step
  step_second h =
      let digit : bit_or (shl8 (prev % 4) 4) (shr x 4) ≡ prev % 4 * 16 + x / 16 =
        ap (λ t. bit_or t (x / 16)) (omega arith)
        ∙ bit_or_16 (prev % 4) (x / 16) (omega arith) (omega arith) in
      ground (arith, digit, substitute_lem (prev % 4 * 16 + x / 16))

  step_third :
      i % 3 ≡ 2 → encode_step i prev x ≡ ok (symbol (prev % 16 * 4 + x / 64) ∷ symbol (x % 64) ∷ [])
  unfolding encode_step
  step_third h =
      let digit : bit_or (shl8 (prev % 16) 2) (shr x 6) ≡ prev % 16 * 4 + x / 64 =
        ap (λ t. bit_or t (x / 64)) (omega arith)
        ∙ bit_or_4 (prev % 16) (x / 64) (omega arith) (omega arith) in
      ground (arith, digit, substitute_lem (prev % 16 * 4 + x / 64), substitute_lem (x % 64))

encode_last-skip :
    (a b c : ℕ) (rest s : List ℕ) → encode_last (a ∷ b ∷ c ∷ rest) s ≡ encode_last rest s
unfolding encode_last
encode_last-skip a b c [] s = refl
encode_last-skip a b c (d ∷ rest) s =
    let same : pad_d (suc (suc (suc (suc (length rest))))) ≡ pad_d (suc (length rest)) =
      omega arith in
    rw same

pad_d-one :
    (a : ℕ) (s : List ℕ) → a < 256 → encode_last (a ∷ []) s ≡ ok (s ++ symbol (a % 4 * 16) ∷ [])
unfolding encode_last
pad_d-one a s h =
    let digit : shl8 a 4 % 64 ≡ a % 4 * 16 = omega arith in
    rw (digit, substitute_lem (a % 4 * 16) (omega arith))

pad_d-two :
    (a b : ℕ) (s : List ℕ)
    → b < 256
    → encode_last (a ∷ b ∷ []) s ≡ ok (s ++ symbol (b % 16 * 4) ∷ [])
unfolding encode_last
pad_d-two a b s h =
    let digit : shl8 b 2 % 64 ≡ b % 16 * 4 = omega arith in
    rw (digit, substitute_lem (b % 16 * 4) (omega arith))

-- From an index that opens a group of three, the loop and the last symbol write all digits.
encode_loop_lem :
    (i prev : ℕ) (s bytes : List ℕ)
    → i % 3 ≡ 0
    → prev < 256
    → AreBytes bytes
    → (encode_loop i prev s bytes >>= encode_last bytes) ≡ ok (s ++ map symbol (digits_of bytes))
unfolding encode_loop digits_of encode_last
encode_loop_lem i prev s [] h hp hb = rw (append-nil s)
encode_loop_lem i prev s (a ∷ []) h hp hb =
    rw (step_first i prev a hp hb.0 h, pad_d-one a (s ++ symbol (a / 4) ∷ []) hb.0)
      (simp append_assoc)
encode_loop_lem i prev s (a ∷ b ∷ []) h hp hb =
    rw (step_first i prev a hp hb.0 h, encode_loop)
      (rw (step_second (suc i) a b hb.0 hb.1.0 (omega arith), pad_d-two a b _ hb.1.0)
        (simp append_assoc))
encode_loop_lem i prev s (a ∷ b ∷ c ∷ rest) h hp hb =
    rw (step_first i prev a hp hb.0 h, encode_loop)
      (rw (step_second (suc i) a b hb.0 hb.1.0 (omega arith), encode_loop)
        (rw
          (
            step_third (suc (suc i)) b c hb.1.0 hb.1.1.0 (omega arith),
            fun_ext (encode_last-skip a b c rest),
          )
          (encode_loop_lem (suc (suc (suc i))) c _ rest (omega arith) hb.1.1.0 hb.1.1.1
            ∙ simp append_assoc)))

-- `encode` returns on every text, the symbols of its digits and `=` up to a multiple of four.
pub encode_lem :
    (bytes : List ℕ)
    → AreBytes bytes
    → encode bytes
      ≡ ok (map symbol (digits_of bytes) ++ replicate (pad_s (length (digits_of bytes))) b'=')
unfolding encode digits_of
encode_lem [] hb = refl
encode_lem (a ∷ rest) hb =
    let whole = encode_loop_lem 0 0 [] (a ∷ rest) refl (omega arith) hb in
    let close = λ (s : List ℕ). ok (s ++ replicate (pad_s (length s)) b'=') in
    sym (>>=_assoc (encode_loop 0 0 [] (a ∷ rest)) (encode_last (a ∷ rest)) close)
    ∙ rw whole (rw (length-map symbol (digits_of (a ∷ rest))))

pub length-digits_of : (bytes : List ℕ) → length (digits_of bytes) ≡ (length bytes * 4 + 2) / 3
unfolding digits_of
length-digits_of [] = refl
length-digits_of (a ∷ []) = refl
length-digits_of (a ∷ b ∷ []) = refl
length-digits_of (a ∷ b ∷ c ∷ rest) = omega (arith, length-digits_of rest)

-- On any bytes encode returns four symbols for each group of up to three bytes.
pub length-encode :
    (bytes : List ℕ)
    → AreBytes bytes
    → Returns (encode bytes) λ s. length s ≡ (length bytes + 2) / 3 * 4
length-encode bytes hb = (
  _,
  encode_lem bytes hb,
  omega (
    arith,
    length-append (map symbol (digits_of bytes))
        (replicate (pad_s (length (digits_of bytes))) b'='),
    length-replicate {A = ℕ} (pad_s (length (digits_of bytes))) b'=',
    length-map symbol (digits_of bytes),
    length-digits_of bytes,
  ),
)
