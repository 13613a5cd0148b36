-- ===== src/Key/Hex.antt =====
-- `TryFrom<&str>` and `Debug`: hexadecimal text.
use noktulo.Prelude.{
  ℕ, suc, ◌+◌, ◌*◌, ◌%◌, ◌<◌, ◌≡◌, refl, ap, ◌∙◌, Bool, true, false, List, [], ◌∷◌, ◌++◌, Option,
  none, some, ◌=ℕ=◌, arith,
}
use noktulo.Prelude.Bytes.{AreBytes, all_below, all_below_sound, shr, shl8}
use noktulo.Key.{Key, to_digit, add_to_last, push_digit, parse_hex, try_from, hex_digit, fmt}
use mathlib.Core.List.{append_assoc, append-nil}

reads : ℕ → ℕ → Option ℕ → Bool
reads c n none = false
reads c n (some m) = m =ℕ= n

reads_sound : (c n : ℕ) (o : Option ℕ) → reads c n o ≡ true → o ≡ some n
unfolding reads
reads_sound c n none h = ground arith
reads_sound c n (some m) h = ground arith

digit_table : all_below 16 (λ n. reads 0 n (to_digit (hex_digit n))) ≡ true
unfolding all_below to_digit reads
digit_table = refl

pub to_digit-hex_digit : (n : ℕ) → n < 16 → to_digit (hex_digit n) ≡ some n
to_digit-hex_digit n h =
    reads_sound 0 n _ (all_below_sound 16 (λ n. reads 0 n (to_digit (hex_digit n))) n digit_table h)

pub add_to_last-append : (n x : ℕ) (xs : List ℕ) → add_to_last n (xs ++ x ∷ []) ≡ xs ++ (x + n) ∷ []
unfolding add_to_last
add_to_last-append n x [] = refl
add_to_last-append n x (y ∷ []) = refl
add_to_last-append n x (y ∷ z ∷ ys) = ap (◌∷◌ y) (add_to_last-append n x (z ∷ ys))

push_digit_even : (i n : ℕ) (ret : List ℕ) → i % 2 ≡ 0 → push_digit i n ret ≡ ret ++ shl8 n 4 ∷ []
unfolding push_digit
push_digit_even i n ret even = ground arith

push_digit_odd : (i n : ℕ) (ret : List ℕ) → i % 2 ≡ 0 → push_digit (suc i) n ret ≡ add_to_last n ret
unfolding push_digit
push_digit_odd i n ret even = ground arith

parse_hex-byte :
    (i hi lo : ℕ) (ret cs : List ℕ)
    → hi < 16
    → lo < 16
    → i % 2 ≡ 0
    → parse_hex i ret (hex_digit hi ∷ hex_digit lo ∷ cs)
      ≡ parse_hex (suc (suc i)) (ret ++ (hi * 16 + lo) ∷ []) cs
unfolding parse_hex
parse_hex-byte i hi lo ret cs h l even =
    let whole : shl8 hi 4 + lo ≡ hi * 16 + lo = omega arith in
    rw (
      to_digit-hex_digit hi h,
      parse_hex,
      to_digit-hex_digit lo l,
      push_digit_even i hi ret even,
      push_digit_odd i lo (ret ++ shl8 hi 4 ∷ []) even,
      add_to_last-append lo (shl8 hi 4) ret,
      whole,
    )

parse_hex-fmt :
    (i : ℕ) (ret k : Key) → i % 2 ≡ 0 → AreBytes k → parse_hex i ret (fmt k) ≡ some (ret ++ k)
unfolding fmt parse_hex
parse_hex-fmt i ret [] even h = rw (append-nil ret, parse_hex)
parse_hex-fmt i ret (x ∷ xs) even h =
    let whole : shr x 4 * 16 + x % 16 ≡ x = omega arith in
    parse_hex-byte i (shr x 4) (x % 16) ret (fmt xs) (ground arith) (omega arith) even
    ∙ rw whole (parse_hex-fmt (suc (suc i)) (ret ++ x ∷ []) xs (omega arith) h.1)
    ∙ ap some (append_assoc ret (x ∷ []) xs)

-- Parsing the hexadecimal text that Debug prints for a key of bytes gives the key back.
try_from-fmt : (k : Key) → AreBytes k → try_from (fmt k) ≡ some k
unfolding try_from
try_from-fmt k h = parse_hex-fmt 0 [] k refl h
