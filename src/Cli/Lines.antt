-- ===== src/Cli/Lines.antt =====
-- The standard library's reading of a line of src/main.rs: `read_line`, `trim` and `parse`, on bytes.
use noktulo.Prelude.{
  ℕ, ◌+◌, ◌-◌, ◌*◌, List, [], ◌∷◌, Option, none, some, ltb, leb, ◌=ℕ=◌, if◌then◌else◌, reversed,
  list_eq, nat_eq, ◌&&◌,
}
use noktulo.Prelude.Ascii.{is_space}

abbrev pub Line : Type 0
Line = List ℕ

-- `read_line`: the next line with its line feed, and nothing at the end of the input.
abbrev pub read_line : List Line → Line × List Line
read_line [] = ([], [])
read_line (line ∷ lines) = (line, lines)

unfoldable pub trim_start : Line → Line
trim_start [] = []
trim_start (c ∷ cs) = if is_space c then trim_start cs else c ∷ cs

unfoldable pub trim : Line → Line
unfolding trim_start
trim line = reversed (trim_start (reversed (trim_start line)))

-- The digits of a number below `bound`, behind those read so far.
unfoldable pub parse_digits : ℕ → ℕ → Line → Option ℕ
parse_digits bound value [] = some value
parse_digits bound value (c ∷ cs) =
    if leb b'0' c && leb c b'9'
    then (if ltb (value * 10 + (c - b'0')) bound
        then parse_digits bound (value * 10 + (c - b'0')) cs
        else none)
    else none

-- `parse` to an unsigned number: one `+` is allowed, and no digits are not.
unfoldable pub parse_unsigned : ℕ → Line → Option ℕ
unfolding parse_digits
parse_unsigned bound [] = none
parse_unsigned bound (c ∷ []) = parse_digits bound 0 (c ∷ [])
parse_unsigned bound (c ∷ d ∷ cs) =
    if c =ℕ= b'+' then parse_digits bound 0 (d ∷ cs) else parse_digits bound 0 (c ∷ d ∷ cs)
