-- ===== src/Prelude/Ascii.antt =====
-- The bytes of a text of ASCII, and the words of a line of bytes.
use Prim.Native.String.{String, [], ◌∷◌}
use Prim.Native.Char.{code}
use Prim.Native.Nat.{ℕ}
use mathlib.Core.Bool.{Bool, ◌&&◌, ◌||◌}
use mathlib.Core.List.{List, [] as nil, ◌∷◌ as cons}
use noktulo.Prelude.Tests.{leb, ◌=ℕ=◌}

abbrev pub ascii : String → List ℕ
ascii [] = nil
ascii (c ∷ text) = cons (code c) (ascii text)

-- The white space of ASCII
abbrev pub is_space : ℕ → Bool
is_space c = c =ℕ= 32 || leb 9 c && leb c 13
