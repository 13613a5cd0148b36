-- ===== src/Key.antt =====
-- src/kad/key.rs: keys are byte vectors; the hash and the random bytes are third-party code.
pub mod Bits
pub mod Prefix
pub mod Hex
pub mod Distance
use noktulo.Prelude.{
  ◌≡◌, ℕ, zero, suc, ◌+◌, ◌-◌, ◌*◌, ◌%◌, bit_and, bit_xor, Bool, true, false, List, [], ◌∷◌, ◌++◌,
  Option, none, some, ltb, ◌=ℕ=◌, if◌then◌else◌, length, take, replicate, Run, ok, panic, assert,
  ◌>>=◌, ◌>>◌,
}
use noktulo.Digests.{Digests}
use noktulo.Prelude.Bytes.{shr, shl8}

-- `struct Key(Vec<u8>)`
abbrev pub Key : Type 0
Key = List ℕ

-- `Key::hash`
unfoldable pub hash : Digests → List ℕ → ℕ → Key
hash d bytes len = take len (d.sha3_512 bytes)

-- `Key::to_hash`
unfoldable pub to_hash : Digests → Key → Key
to_hash d k = hash d k (length k)

-- `Vec::resize(new_len, 0)`
unfoldable pub resize : Key → ℕ → Key
resize k new_len = take new_len k ++ replicate (new_len - length k) 0

-- The slice `[len..new_len]` panics where `new_len < len`.
unfoldable pub resize_with_random : (ℕ → List ℕ) → Key → ℕ → Run Key
resize_with_random fill k new_len =
    if ltb new_len (length k) then panic else ok (k ++ fill (new_len - length k))

-- `for j in (0..8).rev()`: the argument counts the rounds left. `x & 0x1` is `x % 2`.
unfoldable pub top_bit : ℕ → ℕ → Option ℕ
top_bit zero b = none
top_bit (suc j) b = let rest = top_bit j b in if shr b j % 2 =ℕ= 0 then rest else some j

-- The outer loop, at index `i`.
unfoldable pub scan_bytes : ℕ → Key → Option ℕ
scan_bytes i [] = none
scan_bytes i (b ∷ bs) =
    let rest = scan_bytes (suc i) bs in
    if b =ℕ= 0 then rest else elim (top_bit 8 b) [ none ↦ rest | some j ↦ some (i * 8 + j) ]

-- `len() * 8 - 1` underflows at the empty key.
unfoldable pub zeroes_in_prefix : Key → Run ℕ
zeroes_in_prefix k = elim (scan_bytes 0 k) [
  | some n ↦ ok n
  | none ↦ if length k =ℕ= 0 then panic else ok (length k * 8 - 1)
]

-- The loop of `is_prefix` over both vectors; the length test before it excludes the second clause.
unfoldable pub agrees : Key → Key → Bool
agrees [] other = true
agrees (b ∷ bs) [] = false
agrees (b ∷ bs) (c ∷ cs) = if b =ℕ= c then agrees bs cs else false

unfoldable pub is_prefix : Key → Key → Bool
unfolding agrees
is_prefix k other = if ltb (length other) (length k) then false else agrees k other

-- The loop of `bitxor`.
unfoldable pub xor_bytes : Key → Key → Key
xor_bytes (a ∷ as') (b ∷ bs) = bit_xor a b ∷ xor_bytes as' bs
xor_bytes _ _ = []

-- `bitxor` asserts that the lengths agree.
unfoldable pub xor : Key → Key → Run Key
xor a b = do assert (length a =ℕ= length b); ok (xor_bytes a b)

-- `char::to_digit(16)`, over code points.
unfoldable pub to_digit : ℕ → Option ℕ
to_digit c =
    if in_range b'0' b'9'
    then some (c - b'0')
    else if in_range b'a' b'f'
    then some (c - b'a' + 10)
    else if in_range b'A' b'F'
    then some (c - b'A' + 10)
    else none
  where
    in_range : ℕ → ℕ → Bool
    in_range lo hi = if ltb c lo then false else if ltb hi c then false else true

-- `*ret.last_mut().unwrap() += n`. Each odd position follows an even one, so `ret` has a last byte.
unfoldable pub add_to_last : ℕ → List ℕ → List ℕ
add_to_last n [] = []
add_to_last n (x ∷ []) = (x + n) ∷ []
add_to_last n (x ∷ y ∷ ys) = x ∷ add_to_last n (y ∷ ys)

-- The digit at an even position opens a byte, the one behind it completes the byte.
unfoldable pub push_digit : ℕ → ℕ → List ℕ → List ℕ
push_digit i n ret = if i % 2 =ℕ= 0 then ret ++ shl8 n 4 ∷ [] else add_to_last n ret

unfoldable pub parse_hex : ℕ → List ℕ → List ℕ → Option Key
parse_hex i ret [] = some ret
parse_hex i ret (c ∷ cs) = elim (to_digit c) [
  | none ↦ none
  | some n ↦ parse_hex (suc i) (push_digit i n ret) cs
]

-- `TryFrom<&str>`; `none` is the error "not hex".
unfoldable pub try_from : List ℕ → Option Key
unfolding parse_hex
try_from s = parse_hex 0 [] s

-- `{0:02x}`, a digit at a time.
abbrev pub hex_digit : ℕ → ℕ
hex_digit n = if ltb n 10 then b'0' + n else b'a' + (n - 10)

-- `Debug`
unfoldable pub fmt : Key → List ℕ
fmt [] = []
fmt (x ∷ xs) = hex_digit (shr x 4) ∷ hex_digit (x % 16) ∷ fmt xs
