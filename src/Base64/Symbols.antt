-- ===== src/Base64/Symbols.antt =====
-- The alphabet: `substitute` and `inv_substitute`.
use noktulo.Prelude.{
  ℕ, ◌+◌, ◌*◌, ◌<◌, ◌≡◌, refl, bit_or, Bool, true, false, none, some, ◌=ℕ=◌, =ℕ=_iff, get_elem?,
  if◌then◌else◌, Run, ok, panic, Result, okay, err, arith,
}
use noktulo.Prelude.Bytes.{all_below, all_below_sound, all_below_sound₂}
use noktulo.Base64.{Base64Error, table, substitute, inv_substitute}

-- The symbol of a digit.
unfoldable pub symbol : ℕ → ℕ
symbol x = elim (get_elem? table x) [ none ↦ 0 | some c ↦ c ]

gives : ℕ → Run ℕ → Bool
gives c (ok d) = d =ℕ= c
gives c panic = false

gives_sound : (c : ℕ) (r : Run ℕ) → gives c r ≡ true → r ≡ ok c
unfolding gives
gives_sound c (ok d) h = ground arith
gives_sound c panic h = ground arith

reads : ℕ → Run (Result ℕ Base64Error) → Bool
reads x (ok (okay y)) = y =ℕ= x
reads x (ok (err e)) = false
reads x panic = false

reads_sound : (x : ℕ) (r : Run (Result ℕ Base64Error)) → reads x r ≡ true → r ≡ ok (okay x)
unfolding reads
reads_sound x (ok (okay y)) h = ground arith
reads_sound x (ok (err e)) h = ground arith
reads_sound x panic h = ground arith

substitute_table : all_below 64 (λ x. gives (symbol x) (substitute x)) ≡ true
unfolding all_below gives symbol substitute table
substitute_table = refl

-- `substitute` answers below 64, and `inv_substitute` undoes it.
pub substitute_lem : (x : ℕ) → x < 64 → substitute x ≡ ok (symbol x)
substitute_lem x h =
    gives_sound _ _ (all_below_sound 64 (λ x. gives (symbol x) (substitute x)) x substitute_table h)

inv_table : all_below 64 (λ x. reads x (inv_substitute (symbol x))) ≡ true
unfolding all_below reads symbol inv_substitute table
inv_table = refl

pub inv_substitute-symbol : (x : ℕ) → x < 64 → inv_substitute (symbol x) ≡ ok (okay x)
inv_substitute-symbol x h =
    reads_sound _ _ (all_below_sound 64 (λ x. reads x (inv_substitute (symbol x))) x inv_table h)

equals_table : all_below 64 (λ x. if symbol x =ℕ= b'=' then false else true) ≡ true
unfolding all_below symbol table
equals_table = refl

pub symbol-ne-equals : (x : ℕ) → x < 64 → (symbol x =ℕ= b'=') ≡ false
symbol-ne-equals x h =
    ground
      (arith, all_below_sound 64 (λ x. if symbol x =ℕ= b'=' then false else true) x equals_table h)

-- Fields of bits that do not overlap: `|` is a sum.
or_table_4 : all_below 64 (λ x. all_below 4 λ y. bit_or (x * 4) y =ℕ= x * 4 + y) ≡ true
unfolding all_below
or_table_4 = refl

or_table_16 : all_below 16 (λ x. all_below 16 λ y. bit_or (x * 16) y =ℕ= x * 16 + y) ≡ true
unfolding all_below
or_table_16 = refl

or_table_64 : all_below 4 (λ x. all_below 64 λ y. bit_or (x * 64) y =ℕ= x * 64 + y) ≡ true
unfolding all_below
or_table_64 = refl

pub bit_or_16 : (x y : ℕ) → x < 16 → y < 16 → bit_or (x * 16) y ≡ x * 16 + y
bit_or_16 x y hx hy =
    (=ℕ=_iff _ _).0
      (all_below_sound₂ 16 16 (λ x y. bit_or (x * 16) y =ℕ= x * 16 + y) x y or_table_16 hx hy)

pub bit_or_4 : (x y : ℕ) → x < 64 → y < 4 → bit_or (x * 4) y ≡ x * 4 + y
bit_or_4 x y hx hy =
    (=ℕ=_iff _ _).0
      (all_below_sound₂ 64 4 (λ x y. bit_or (x * 4) y =ℕ= x * 4 + y) x y or_table_4 hx hy)

pub bit_or_64 : (x y : ℕ) → x < 4 → y < 64 → bit_or (x * 64) y ≡ x * 64 + y
bit_or_64 x y hx hy =
    (=ℕ=_iff _ _).0
      (all_below_sound₂ 4 64 (λ x y. bit_or (x * 64) y =ℕ= x * 64 + y) x y or_table_64 hx hy)
