-- ===== src/Prelude/Panics.antt =====
-- A computation that ends in a value or in a panic.
use mathlib.Core.Path.{◌≡◌, refl}
use mathlib.Core.Bool.{Bool, true, false}
use mathlib.Core.Option.{Option, none, some}
use mathlib.Core.Logic.{◌⊎◌, inl, inr}

pub data Run {ℓ} (A : Type ℓ) : Type ℓ where
  ok : A → Run A
  panic : Run A

-- A chain of computations stops at the first panic; `abbrev`, so that it computes.
infixl 5 ◌>>=◌ ◌>>◌
abbrev pub ◌>>=◌ {ℓ κ} : {V : Type ℓ} {W : Type κ} → Run V → (V → Run W) → Run W
panic >>= next = panic
ok value >>= next = next value

abbrev pub ◌>>◌ {ℓ} : {B : Type ℓ} → Run (Unit {0}) → Run B → Run B
m >> k = m >>= λ _. k

-- `assert!`
abbrev pub assert : Bool → Run (Unit {0})
assert true = ok tt
assert false = panic

-- `Option::unwrap`, and indexing through `get`
abbrev pub unwrap {ℓ} : {A : Type ℓ} → Option A → Run A
unwrap none = panic
unwrap (some a) = ok a

-- `Result<A, E>`
pub data Result {ℓ} (A E : Type ℓ) : Type ℓ where
  okay : A → Result A E
  err : E → Result A E

-- `Result::unwrap`
abbrev pub expect {ℓ} : {A E : Type ℓ} → Result A E → Run A
expect (okay value) = ok value
expect (err e) = panic

-- The run ends normally, in a value that satisfies `P`.
abbrev pub Returns {ℓ κ} : {V : Type ℓ} → Run V → (V → Type κ) → Type (ℓ ⊔ κ)
Returns {V} run Post = (value : V) × (run ≡ ok value) × Post value

pub >>=-eq-ok {ℓ κ} :
    {V : Type ℓ} {W : Type κ} (run : Run V) (next : V → Run W) {final : W}
    → (run >>= next) ≡ ok final
    → (value : V) × (run ≡ ok value) × (next value ≡ ok final)
>>=-eq-ok panic next done = cc
>>=-eq-ok (ok value) next done = (value, refl, done)

pub >>=_assoc {ℓ} :
    {A B C : Type ℓ} (m : Run A) (f : A → Run B) (g : B → Run C)
    → (m >>= f >>= g) ≡ (m >>= (λ a. f a >>= g))
>>=_assoc (ok a) f g = refl
>>=_assoc panic f g = refl

pub ok_inj {ℓ} : {A : Type ℓ} {a b : A} → ok a ≡ ok b → a ≡ b
ok_inj e = cc

pub Run-cases {ℓ} : {A : Type ℓ} (r : Run A) → (r ≡ panic) ⊎ ((a : A) × (r ≡ ok a))
Run-cases (ok a) = inr (a, refl)
Run-cases panic = inl refl

pub Result-cases {ℓ} :
    {A E : Type ℓ} (r : Result A E) → ((a : A) × (r ≡ okay a)) ⊎ ((e : E) × (r ≡ err e))
Result-cases (okay a) = inl (a, refl)
Result-cases (err e) = inr (e, refl)
