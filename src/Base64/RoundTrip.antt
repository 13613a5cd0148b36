-- ===== src/Base64/RoundTrip.antt =====
-- `decode` after `encode`, and `decode` on any bytes.
use mathlib.Core.List.{append-nil, append_assoc}
use native.Mathlib.Nat.{add-zero}
use noktulo.Prelude.{
  ℕ, zero, suc, ◌+◌, ◌*◌, ◌/◌, ◌%◌, ◌<◌, ◌≡◌, refl, ap, ◌∙◌, bit_or, Bool, true, false, List, [],
  ◌∷◌, ◌++◌, map, ◌=ℕ=◌, if◌then◌else◌, length, replicate, Run, ok, panic, ◌>>=◌, Result, okay, err,
  arith, Bool-cases, inl, inr, Option, none, some, position, ◌&&◌,
}
use noktulo.Prelude.Bytes.{AreBytes, shr, shl8, all_below, all_below_sound}
use noktulo.Base64.{
  Base64Error, character, encode, decode, decode_step, decode_loop, inv_substitute, table, pad_s,
}
use noktulo.Base64.Symbols.{
  symbol, inv_substitute-symbol, symbol-ne-equals, bit_or_4, bit_or_16, bit_or_64,
}
use noktulo.Base64.Encode.{digits_of, encode_lem}

decode_loop-symbol :
    (i prev x : ℕ) (v cs : List ℕ)
    → x < 64
    → decode_loop i prev v (symbol x ∷ cs)
      ≡ decode_loop (suc i) (decode_step i prev x).0 (v ++ (decode_step i prev x).1) cs
unfolding decode_loop
decode_loop-symbol i prev x v cs h =
    rw (symbol-ne-equals x h, decode_loop, inv_substitute-symbol x h)

-- Padding ends the loop, and so does the end of the text.
decode_loop-padding :
    (i prev n : ℕ) (v : List ℕ) → decode_loop i prev v (replicate n b'=') ≡ ok (okay v)
unfolding decode_loop
decode_loop-padding i prev zero v = refl
decode_loop-padding i prev (suc n) v = refl

module _ (i prev x : ℕ) where
  read_first : i % 4 ≡ 0 → decode_step i prev x ≡ (shl8 x 2, [])
  unfolding decode_step
  read_first h = ground arith

  read_second : i % 4 ≡ 1 → decode_step i prev x ≡ (shl8 x 4, bit_or prev (shr x 4) ∷ [])
  unfolding decode_step
  read_second h = ground arith

  read_third : i % 4 ≡ 2 → decode_step i prev x ≡ (shl8 x 6, bit_or prev (shr x 2) ∷ [])
  unfolding decode_step
  read_third h = ground arith

  read_fourth : i % 4 ≡ 3 → decode_step i prev x ≡ (prev, bit_or prev x ∷ [])
  unfolding decode_step
  read_fourth h = ground arith

module _ (i prev : ℕ) (v cs : List ℕ) where
  read_pair :
      (x y : ℕ)
      → x < 64
      → y < 64
      → i % 4 ≡ 0
      → decode_loop i prev v (symbol x ∷ symbol y ∷ cs)
        ≡ decode_loop (suc (suc i)) (shl8 y 4) (v ++ bit_or (shl8 x 2) (shr y 4) ∷ []) cs
  read_pair x y hx hy h =
      rw (decode_loop-symbol i prev x v (symbol y ∷ cs) hx, read_first i prev x h)
        (rw (append-nil v, decode_loop-symbol (suc i) (shl8 x 2) y v cs hy)
          (rw (read_second (suc i) (shl8 x 2) y (omega arith))))

  read_more :
      (x : ℕ)
      → x < 64
      → i % 4 ≡ 2
      → decode_loop i prev v (symbol x ∷ cs)
        ≡ decode_loop (suc i) (shl8 x 6) (v ++ bit_or prev (shr x 2) ∷ []) cs
  read_more x hx h = rw (decode_loop-symbol i prev x v cs hx, read_third i prev x h)

  read_end :
      (x : ℕ)
      → x < 64
      → i % 4 ≡ 3
      → decode_loop i prev v (symbol x ∷ cs) ≡ decode_loop (suc i) prev (v ++ bit_or prev x ∷ []) cs
  read_end x hx h = rw (decode_loop-symbol i prev x v cs hx, read_fourth i prev x h)

-- What two, three and four digits give back.
join_first : (a t : ℕ) → a < 256 → t < 16 → bit_or (shl8 (a / 4) 2) (shr (a % 4 * 16 + t) 4) ≡ a
join_first a t ha ht =
    ap (λ u. bit_or u (shr (a % 4 * 16 + t) 4)) (omega arith)
    ∙ ap (bit_or (a / 4 * 4)) (omega arith)
    ∙ bit_or_4 (a / 4) (a % 4) (omega arith) (omega arith)
    ∙ omega arith

join_second :
    (a b t : ℕ)
    → b < 256
    → t < 4
    → bit_or (shl8 (a % 4 * 16 + b / 16) 4) (shr (b % 16 * 4 + t) 2) ≡ b
join_second a b t hb ht =
    ap (λ u. bit_or u (shr (b % 16 * 4 + t) 2)) (omega arith)
    ∙ ap (bit_or (b / 16 * 16)) (omega arith)
    ∙ bit_or_16 (b / 16) (b % 16) (omega arith) (omega arith)
    ∙ omega arith

join_third : (b c : ℕ) → c < 256 → bit_or (shl8 (b % 16 * 4 + c / 64) 6) (c % 64) ≡ c
join_third b c hc =
    ap (λ u. bit_or u (c % 64)) (omega arith)
    ∙ bit_or_64 (c / 64) (c % 64) (omega arith) (omega arith)
    ∙ omega arith

decode_loop_lem :
    (i prev n : ℕ) (v bytes : List ℕ)
    → i % 4 ≡ 0
    → AreBytes bytes
    → decode_loop i prev v (map symbol (digits_of bytes) ++ replicate n b'=')
      ≡ ok (okay (v ++ bytes))
unfolding digits_of
decode_loop_lem i prev n v [] h hb = rw (append-nil v) (decode_loop-padding i prev n v)
decode_loop_lem i prev n v (a ∷ []) h hb =
    rw (read_pair i prev v _ (a / 4) (a % 4 * 16) (omega arith) (omega arith) h) (
      rw (
        decode_loop-padding (suc (suc i)) _ n,
        ← add-zero (a % 4 * 16),
        join_first a 0 hb.0 (omega arith),
      ))
decode_loop_lem i prev n v (a ∷ b ∷ []) h hb =
    rw (read_pair i prev v _ (a / 4) (a % 4 * 16 + b / 16) (omega arith) (omega arith) h) (
      rw
        (
          read_more (suc (suc i)) _ _ _ (b % 16 * 4) (omega arith) (omega arith),
          join_first a (b / 16) hb.0 (omega arith),
        )
        (rw
          (
            decode_loop-padding (suc (suc (suc i))) _ n,
            ← add-zero (b % 16 * 4),
            join_second a b 0 hb.1.0 (omega arith),
          )
          (simp append_assoc)))
decode_loop_lem i prev n v (a ∷ b ∷ c ∷ rest) h hb =
    rw (read_pair i prev v _ (a / 4) (a % 4 * 16 + b / 16) (omega arith) (omega arith) h) (
      rw
        (
          read_more (suc (suc i)) _ _ _ (b % 16 * 4 + c / 64) (omega arith) (omega arith),
          join_first a (b / 16) hb.0 (omega arith),
          join_second a b (c / 64) hb.1.0 (omega arith),
        )
        (rw
          (
            read_end (suc (suc (suc i))) _ _ _ (c % 64) (omega arith) (omega arith),
            join_third b c hb.1.1.0,
          )
          (decode_loop_lem (suc (suc (suc (suc i)))) _ n _ rest (omega arith) hb.1.1.1
            ∙ simp append_assoc)))

decode_nonempty : (s : List ℕ) → decode s ≡ decode_loop 0 0 [] s
unfolding decode decode_loop
decode_nonempty [] = refl
decode_nonempty (c ∷ cs) = refl

-- On any bytes encode does not panic, and decoding its result gives the bytes back.
pub decode-encode : (bytes : List ℕ) → AreBytes bytes → (encode bytes >>= decode) ≡ ok (okay bytes)
decode-encode bytes hb =
    rw (encode_lem bytes hb)
      (decode_nonempty _ ∙ decode_loop_lem 0 0 (pad_s (length (digits_of bytes))) [] bytes refl hb)

is_some : Option ℕ → Bool
is_some none = false
is_some (some x) = true

-- The alphabet, by the table alone.
unfoldable pub in_alphabet : ℕ → Bool
unfolding is_some
in_alphabet c = is_some (position (λ x. x =ℕ= c) table)

-- A text of symbols, up to the first padding.
unfoldable pub is_text : List ℕ → Bool
is_text [] = true
is_text (c ∷ cs) = if c =ℕ= b'=' then true else if in_alphabet c then is_text cs else false

sorts : ℕ → Bool → Run (Result ℕ Base64Error) → Bool
sorts c known (ok (okay x)) = known
sorts c known (ok (err (character d))) = (if known then false else true) && d =ℕ= c
sorts c known panic = false

Sorted : ℕ → Bool → Run (Result ℕ Base64Error) → Type 0
Sorted c true r = (x : ℕ) × (r ≡ ok (okay x))
Sorted c false r = r ≡ ok (err (character c))

sorts_sound :
    (c : ℕ) (known : Bool) (r : Run (Result ℕ Base64Error))
    → sorts c known r ≡ true
    → Sorted c known r
unfolding sorts Sorted
sorts_sound c true (ok (okay x)) h = (x, refl)
sorts_sound c false (ok (okay x)) h = ground arith
sorts_sound c true (ok (err (character d))) h = ground arith
sorts_sound c false (ok (err (character d))) h = ground arith
sorts_sound c known panic h = ground arith

sort_table : all_below 256 (λ c. sorts c (in_alphabet c) (inv_substitute c)) ≡ true
unfolding all_below sorts in_alphabet inv_substitute table
sort_table = refl

inv_substitute-Sorted : (c : ℕ) → c < 256 → Sorted c (in_alphabet c) (inv_substitute c)
inv_substitute-Sorted c h =
    sorts_sound c _ _
      (all_below_sound 256 (λ c. sorts c (in_alphabet c) (inv_substitute c)) c sort_table h)

-- What a decoding returns, by whether it was given a text.
abbrev pub Decoded : Bool → Run (Result (List ℕ) Base64Error) → Type 0
Decoded true r = (bytes : List ℕ) × (r ≡ ok (okay bytes))
Decoded false r = (c : ℕ) × (in_alphabet c ≡ false) × (r ≡ ok (err (character c)))

decode_cons-Decoded :
    (c i prev : ℕ) (v cs : List ℕ) (known : Bool)
    → in_alphabet c ≡ known
    → (c =ℕ= b'=') ≡ false
    → Sorted c known (inv_substitute c)
    → ((x : ℕ)
        → Decoded
            (is_text cs)
            (decode_loop (suc i) (decode_step i prev x).0 (v ++ (decode_step i prev x).1) cs))
    → Decoded (if known then is_text cs else false) (decode_loop i prev v (c ∷ cs))
unfolding Sorted decode_loop
decode_cons-Decoded c i prev v cs true a ne (x, e) rest = rw (ne, decode_loop, e) (rest x)
decode_cons-Decoded c i prev v cs false a ne e rest = (c, a, rw (ne, decode_loop, e))

decode_loop-Decoded :
    (i prev : ℕ) (v cs : List ℕ) → AreBytes cs → Decoded (is_text cs) (decode_loop i prev v cs)
unfolding decode_loop is_text
decode_loop-Decoded i prev v [] h = (v, refl)
decode_loop-Decoded i prev v (c ∷ cs) h = elim (Bool-cases (c =ℕ= b'=')) [
  | inl e ↦ rw (e, decode_loop) (v, refl)
  | inr ne ↦
      rw (ne, if◌then◌else◌)
        (decode_cons-Decoded c i prev v cs (in_alphabet c) refl ne (inv_substitute-Sorted c h.0)
          (λ x. decode_loop-Decoded (suc i) _ _ cs h.1))
]

-- On any bytes decode returns: bytes if every symbol before the first = is of the alphabet, and
-- otherwise the error with a symbol that is not.
pub decode-Decoded : (s : List ℕ) → AreBytes s → Decoded (is_text s) (decode s)
decode-Decoded s h = rw (decode_nonempty s) (decode_loop-Decoded 0 0 [] s h)
