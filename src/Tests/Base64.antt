-- ===== src/Tests/Base64.antt =====
-- Base64.
use noktulo.Prelude.{ℕ, ◌≡◌, refl, List, [], ◌∷◌, ok, okay, err, ◌>>=◌, arith}
use noktulo.Base64.{
  encode, decode, character, encode_loop, encode_step, substitute, table, encode_last, decode_loop,
  inv_substitute,
}
use noktulo.Base64.RoundTrip.{decode-encode, is_text, Decoded, decode-Decoded}

-- "abcdefga", the text of the repository's test.
abbrev sample : List ℕ
sample = b'a' ∷ b'b' ∷ b'c' ∷ b'd' ∷ b'e' ∷ b'f' ∷ b'g' ∷ b'a' ∷ []

encode_test : encode (b'M' ∷ b'a' ∷ []) ≡ ok (b'T' ∷ b'W' ∷ b'E' ∷ b'=' ∷ [])
unfolding encode encode_loop encode_step substitute table encode_last
encode_test = refl

decode_test : decode (b'T' ∷ b'!' ∷ []) ≡ ok (err (character b'!'))
unfolding decode decode_loop inv_substitute table
decode_test = refl

decode-encode_example : (encode sample >>= decode) ≡ ok (okay sample)
decode-encode_example = decode-encode sample (omega arith)

decode-Decoded_example : Decoded (is_text (b'T' ∷ b'W' ∷ [])) (decode (b'T' ∷ b'W' ∷ []))
decode-Decoded_example = decode-Decoded (b'T' ∷ b'W' ∷ []) (omega arith)
