-- ===== src/Base64.antt =====
-- src/util/base64.rs. Bytes are numbers; `& 0x03` is `% 4`, and so for the other masks.
pub mod Symbols
pub mod Encode
pub mod RoundTrip
use noktulo.Prelude.{
  ℕ, zero, suc, ◌+◌, ◌-◌, ◌*◌, ◌%◌, bit_or, Bool, true, false, ◌||◌, List, [], ◌∷◌, ◌++◌, ltb,
  ◌=ℕ=◌, if◌then◌else◌, length, is_empty, get_elem?, last?, position, replicate, Run, ok, panic,
  assert, unwrap, Result, okay, err, ◌>>=◌, ◌>>◌,
}
use noktulo.Prelude.Bytes.{shr, shl8}

pub data Base64Error : Type 0 where
  character : ℕ → Base64Error

-- The codes `first`, `first + 1`, … of `n` symbols.
codes_from : ℕ → ℕ → List ℕ
codes_from zero first = []
codes_from (suc n) first = first ∷ codes_from n (suc first)

-- `TABLE`: A-Z, a-z, 0-9, + and /.
unfoldable pub table : List ℕ
unfolding codes_from
table = codes_from 26 b'A' ++ (codes_from 26 b'a' ++ (codes_from 10 b'0' ++ (b'+' ∷ b'/' ∷ [])))

unfoldable pub substitute : ℕ → Run ℕ
substitute bits = do assert (ltb bits 64); unwrap (get_elem? table bits)

abbrev in_range : ℕ → ℕ → ℕ → Bool
in_range lo hi c = if ltb c lo then false else if ltb hi c then false else true

-- `u8::is_ascii_alphanumeric`
unfoldable pub is_ascii_alphanumeric : ℕ → Bool
is_ascii_alphanumeric c = in_range b'0' b'9' c || in_range b'A' b'Z' c || in_range b'a' b'z' c

unfoldable pub inv_substitute : ℕ → Run (Result ℕ Base64Error)
unfolding is_ascii_alphanumeric
inv_substitute c =
    if is_ascii_alphanumeric c || c =ℕ= b'+' || c =ℕ= b'/'
    then (do i ← unwrap (position (λ x. x =ℕ= c) table); ok (okay i))
    else ok (err (character c))

-- The `match i % 3`: the symbols that are pushed for the byte `x`, behind the byte `prev`.
unfoldable pub encode_step : ℕ → ℕ → ℕ → Run (List ℕ)
encode_step i prev x =
    if i % 3 =ℕ= 0
    then (do c ← substitute (shr x 2); ok (c ∷ []))
    else if i % 3 =ℕ= 1
    then (do c ← substitute (bit_or (shl8 (prev % 4) 4) (shr x 4)); ok (c ∷ []))
    else (do
      c ← substitute (bit_or (shl8 (prev % 16) 2) (shr x 6))
      d ← substitute (x % 64)
      ok (c ∷ d ∷ []))

unfoldable pub encode_loop : ℕ → ℕ → List ℕ → List ℕ → Run (List ℕ)
encode_loop i prev s [] = ok s
encode_loop i prev s (x ∷ xs) = do
  pushed ← encode_step i prev x
  encode_loop (suc i) x (s ++ pushed) xs

-- The bits that are missing in the last symbol.
abbrev pub pad_d : ℕ → ℕ
pad_d len = (6 - len * 8 % 6) % 6

-- The symbol of the last bits, where some are left.
unfoldable pub encode_last : List ℕ → List ℕ → Run (List ℕ)
encode_last bytes s =
    if ltb 0 (pad_d (length bytes))
    then (do
      x ← unwrap (last? bytes)
      c ← substitute (shl8 x (pad_d (length bytes)) % 64)
      ok (s ++ c ∷ []))
    else ok s

abbrev pub pad_s : ℕ → ℕ
pad_s len = (4 - len % 4) % 4

unfoldable pub encode : List ℕ → Run (List ℕ)
encode bytes = if is_empty bytes then ok [] else (do
  s ← encode_loop 0 0 [] bytes
  s' ← encode_last bytes s
  ok (s' ++ replicate (pad_s (length s')) b'='))

-- The `match i % 4`: the new `prev`, and what is pushed for the digit `x`.
unfoldable pub decode_step : ℕ → ℕ → ℕ → ℕ × List ℕ
decode_step i prev x =
    if i % 4 =ℕ= 0
    then (shl8 x 2, [])
    else if i % 4 =ℕ= 1
    then (shl8 x 4, bit_or prev (shr x 4) ∷ [])
    else if i % 4 =ℕ= 2
    then (shl8 x 6, bit_or prev (shr x 2) ∷ [])
    else (prev, bit_or prev x ∷ [])

unfoldable pub decode_loop : ℕ → ℕ → List ℕ → List ℕ → Run (Result (List ℕ) Base64Error)
decode_loop i prev v [] = ok (okay v)
decode_loop i prev v (c ∷ cs) = elim (c =ℕ= b'=') [
  | true ↦ ok (okay v)
  | false ↦ inv_substitute c >>= λ r. elim r [
    | err e ↦ ok (err e)
    | okay x ↦ decode_loop (suc i) (decode_step i prev x).0 (v ++ (decode_step i prev x).1) cs
  ]
]

unfoldable pub decode : List ℕ → Run (Result (List ℕ) Base64Error)
decode symbols = if is_empty symbols then ok (okay []) else decode_loop 0 0 [] symbols
