-- ===== src/Cli/Refused.antt =====
-- Lines that the commands of src/main.rs refuse: `read_line` keeps the line feed, and `parse` and
-- `from_str` do not allow for it.
use mathlib.Core.List.{append-nil}
use noktulo.Prelude.{
  ℕ, ◌+◌, ◌-◌, ◌*◌, ◌%◌, ◌<◌, ◌≡◌, refl, ◌∙◌, Bool, true, false, List, [], ◌∷◌, ◌++◌, map, none,
  ltb, length, All, Run, Returns, Result, okay, err, arith, ltb→lt, All-append, length-append,
  subst,
}
use noktulo.Prelude.Bytes.{AreBytes, IsByte, all_below, all_below_sound}
use noktulo.Base64.{Base64Error, character, pad_s, table, decode, encode}
use noktulo.Base64.Symbols.{symbol, symbol-ne-equals}
use noktulo.Base64.Encode.{digits_of, encode_lem, length-digits_of}
use noktulo.Base64.RoundTrip.{in_alphabet, is_text, Decoded, decode-Decoded}
use noktulo.Digests.{Digests}
use noktulo.Address.{
  Address, IsAddress, from_decoded, base64, check_sum, AddressError, from_str, to_string,
}
use noktulo.Address.Text.{length-check_sum, check_sum-AreBytes}
use noktulo.Cli.Lines.{Line, parse_unsigned, parse_digits}

abbrev pub line_feed : ℕ
line_feed = 10

-- What `read_line` gives where every line of the input ends in a line feed.
pub data IsRead : Line → Type 0 where
  at_end : IsRead []
  whole : (text : Line) → AreBytes text → IsRead (text ++ line_feed ∷ [])

parse_digits-line :
    (bound v : ℕ) (text : Line) → parse_digits bound v (text ++ line_feed ∷ []) ≡ none
unfolding parse_digits
parse_digits-line bound v [] = refl
parse_digits-line bound v (c ∷ cs) =
    ground (arith, parse_digits-line bound (v * 10 + (c - b'0')) cs)

-- No line that is read whole is a number.
pub parse_unsigned-IsRead :
    (bound : ℕ) (line : Line) → IsRead line → parse_unsigned bound line ≡ none
unfolding parse_unsigned
parse_unsigned-IsRead bound _ at_end = refl
parse_unsigned-IsRead bound _ (whole [] h) = parse_digits-line bound 0 []
parse_unsigned-IsRead bound _ (whole (c ∷ []) h) =
    ground (arith, parse_digits-line bound 0 [], parse_digits-line bound 0 (c ∷ []))
parse_unsigned-IsRead bound _ (whole (c ∷ d ∷ cs) h) =
    ground (arith, parse_digits-line bound 0 (d ∷ cs), parse_digits-line bound 0 (c ∷ d ∷ cs))

alphabet_table : all_below 64 (λ x. in_alphabet (symbol x)) ≡ true
unfolding all_below in_alphabet symbol table
alphabet_table = refl

is_text-line :
    (digits : List ℕ)
    → All (λ x. x < 64) digits
    → is_text (map symbol digits ++ line_feed ∷ []) ≡ false
unfolding is_text in_alphabet table
is_text-line [] h = refl
is_text-line (x ∷ xs) h =
    rw
      (
        symbol-ne-equals x h.0,
        all_below_sound 64 (λ y. in_alphabet (symbol y)) x alphabet_table h.0,
      )
      (is_text-line xs h.1)

digits_of-lt : (bytes : List ℕ) → AreBytes bytes → All (λ x. x < 64) (digits_of bytes)
unfolding digits_of
digits_of-lt [] h = tt
digits_of-lt (a ∷ []) h = (omega (arith, h.0), (omega arith, tt))
digits_of-lt (a ∷ b ∷ []) h = (omega (arith, h.0), (omega (arith, h.1.0), (omega arith, tt)))
digits_of-lt (a ∷ b ∷ c ∷ rest) h = (
  omega (arith, h.0),
  (omega (arith, h.1.0), (omega (arith, h.1.1.0), (omega arith, digits_of-lt rest h.1.1.1))),
)

symbol_table : all_below 64 (λ x. ltb (symbol x) 256) ≡ true
unfolding all_below symbol table
symbol_table = refl

symbols-AreBytes : (digits : List ℕ) → All (λ x. x < 64) digits → AreBytes (map symbol digits)
symbols-AreBytes [] h = tt
symbols-AreBytes (x ∷ xs) h = (
  ltb→lt (symbol x) 256 (all_below_sound 64 (λ y. ltb (symbol y) 256) x symbol_table h.0),
  symbols-AreBytes xs h.1,
)

Decoded-Returns :
    (known : Bool) (r : Run (Result (List ℕ) Base64Error))
    → Decoded known r
    → Returns r λ _. Unit {0}
Decoded-Returns true r (bytes, e) = (okay bytes, e, tt)
Decoded-Returns false r (c, _, e) = (err (character c), e, tt)

IsRead-AreBytes : (line : Line) → IsRead line → AreBytes line
IsRead-AreBytes _ at_end = tt
IsRead-AreBytes _ (whole text h) = All-append IsByte text (line_feed ∷ []) h (omega arith, tt)

-- A text without padding and a line feed do not decode.
encode-line :
    (bytes : List ℕ)
    → AreBytes bytes
    → length bytes % 3 ≡ 0
    → Returns (encode bytes) λ s. (is_text (s ++ line_feed ∷ []) ≡ false) × AreBytes s
encode-line bytes h thirds =
    let digits = digits_of bytes in
    let small = digits_of-lt bytes h in
    let unpadded : pad_s (length digits) ≡ 0 = omega (arith, length-digits_of bytes) in
    (
      map symbol digits,
      encode_lem bytes h ∙ rw (unpadded, append-nil (map symbol digits)) refl,
      (is_text-line digits small, symbols-AreBytes digits small),
    )

module _ (d : Digests) where
  -- `from_str` returns on every line.
  pub from_str-IsRead : (line : Line) → IsRead line → Returns (from_str d line) λ r. Unit {0}
  unfolding from_str
  from_str-IsRead line h =
      let (r, decoded, _) =
        Decoded-Returns (is_text line) (decode line)
          (decode-Decoded line (IsRead-AreBytes line h)) in
      (from_decoded d r, rw decoded refl, tt)

  -- The line of an address as the program prints it is refused.
  pub from_str-to_string_line :
      (a : Address)
      → IsAddress a
      → Returns
          (to_string d a)
          λ s. Returns (from_str d (s ++ line_feed ∷ [])) λ r. (e : AddressError) × (r ≡ err e)
  unfolding to_string from_str from_decoded
  from_str-to_string_line a h =
      let payload = a ++ check_sum d a in
      let sum_bytes = check_sum-AreBytes d a in
      let (s, encoded, (no_text, bytes)) =
        encode-line payload (All-append IsByte a (check_sum d a) h.1 sum_bytes)
          (omega (arith, length-append a (check_sum d a), length-check_sum d a, h.0)) in
      let line_bytes = All-append IsByte s (line_feed ∷ []) bytes (omega arith, tt) in
      let (c, _, decoded) =
        subst (λ known. Decoded known (decode (s ++ line_feed ∷ []))) no_text
          (decode-Decoded (s ++ line_feed ∷ []) line_bytes) in
      (s, encoded, (err (base64 (character c)), rw decoded refl, (base64 (character c), refl)))
