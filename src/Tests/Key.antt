-- ===== src/Tests/Key.antt =====
-- Keys.
use noktulo.Prelude.{
  ◌*◌, ◌≤◌, ◌≡◌, ◌≢◌, ◌↔◌, refl, [], ◌∷◌, some, take, replicate, Returns, ok, panic, arith,
}
use noktulo.Key.{
  Key, zeroes_in_prefix, try_from, scan_bytes, top_bit, to_digit, push_digit, add_to_last,
}
use noktulo.Key.Bits.{leading_zero_bits, zeroes_in_prefix-ne-leading, zeroes_in_prefix-ge}

abbrev short_key : Key
short_key = 0 ∷ 0x1c ∷ 0xff ∷ []

abbrev other_key : Key
other_key = 0 ∷ 0x1c ∷ 0 ∷ []

-- The highest bit of 0x1c is bit 4, and three zero bits stand in front of it.
zeroes_test : zeroes_in_prefix short_key ≡ ok 12
unfolding zeroes_in_prefix scan_bytes top_bit
zeroes_test = refl

zeroes_empty : zeroes_in_prefix [] ≡ panic
unfolding zeroes_in_prefix scan_bytes
zeroes_empty = refl

hex_test : try_from (b'0' ∷ b'a' ∷ b'F' ∷ b'f' ∷ []) ≡ some (0x0a ∷ 0xff ∷ [])
unfolding try_from to_digit push_digit add_to_last
hex_test = refl

zeroes_in_prefix-ne-leading_example : zeroes_in_prefix short_key ≢ ok (leading_zero_bits short_key)
zeroes_in_prefix-ne-leading_example =
    zeroes_in_prefix-ne-leading short_key (omega arith) (omega arith)

zeroes_in_prefix-ge_example :
    Returns (zeroes_in_prefix short_key) λ n. (2 * 8 ≤ n) ↔ (take 2 short_key ≡ replicate 2 0)
zeroes_in_prefix-ge_example = zeroes_in_prefix-ge short_key 2 (omega arith) (omega arith)
