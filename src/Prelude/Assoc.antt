-- ===== src/Prelude/Assoc.antt =====
-- `HashMap` and `HashSet` as association lists. A map holds at most one live entry for a key: the
-- first. The laws of `lookup` are all that a proof uses.
use mathlib.Core.Path.{◌≡◌, refl, subst}
use mathlib.Core.List.{List, [], ◌∷◌}
use mathlib.Core.Option.{Option, none, some}
use native.Mathlib.Omega.{arith}
use noktulo.Prelude.Lists.{All}
use noktulo.Prelude.Tests.{if◌then◌else◌, Bool-cases}
use mathlib.Core.Logic.{inl, inr}
use noktulo.Prelude.Equality.{Eq, ◌==◌}

module _ {ℓ κ} {K : Type ℓ} {V : Type κ} ⦃e : Eq K⦄ where
  unfoldable pub lookup : K → List (K × V) → Option V
  lookup key [] = none
  lookup key ((other_key, val) ∷ entries) =
      if other_key == key then some val else lookup key entries

  unfoldable pub insert : K → V → List (K × V) → List (K × V)
  insert key val [] = (key, val) ∷ []
  insert key val ((other_key, old) ∷ entries) =
      if other_key == key then (key, val) ∷ entries else (other_key, old) ∷ insert key val entries

  unfoldable pub remove : K → List (K × V) → List (K × V)
  remove key [] = []
  remove key ((other_key, old) ∷ entries) =
      if other_key == key then remove key entries else (other_key, old) ∷ remove key entries

  pub lookup-insert :
      (key other_key : K) (val : V) (entries : List (K × V))
      → lookup other_key (insert key val entries)
        ≡ (if key == other_key then some val else lookup other_key entries)
  unfolding lookup insert
  lookup-insert key other_key val [] = refl
  lookup-insert key other_key val ((third, old) ∷ entries) = ground (
    arith,
    e.test_iff key other_key,
    e.test_iff third key,
    e.test_iff third other_key,
    lookup-insert key other_key val entries,
  )

  pub lookup-remove :
      (key other_key : K) (entries : List (K × V))
      → lookup other_key (remove key entries)
        ≡ (if key == other_key then none else lookup other_key entries)
  unfolding lookup remove
  lookup-remove key other_key [] = ground arith
  lookup-remove key other_key ((third, old) ∷ entries) = ground (
    arith,
    e.test_iff key other_key,
    e.test_iff third key,
    e.test_iff third other_key,
    lookup-remove key other_key entries,
  )

  -- Whatever holds of every entry, and of a new one, holds after the write.
  pub insert-All {ι} :
      (P : K × V → Type ι) (key : K) (val : V) (entries : List (K × V))
      → P (key, val)
      → All P entries
      → All P (insert key val entries)
  unfolding insert
  insert-All P key val [] p h = (p, tt)
  insert-All P key val ((other_key, old) ∷ entries) p h =
      ground (arith, insert-All P key val entries p h.1)

  pub remove-All {ι} :
      (P : K × V → Type ι) (key : K) (entries : List (K × V))
      → All P entries
      → All P (remove key entries)
  unfolding remove
  remove-All P key [] h = tt
  remove-All P key ((other_key, old) ∷ entries) h = ground (arith, remove-All P key entries h.1)

  pub lookup-All {ι} :
      (P : K × V → Type ι) (key : K) (entries : List (K × V)) {val : V}
      → All P entries
      → lookup key entries ≡ some val
      → P (key, val)
  unfolding lookup
  lookup-All P key [] h q = cc
  lookup-All P key ((other_key, old) ∷ entries) {val} h q = elim (Bool-cases (other_key == key)) [
    | inl same ↦ subst P (ground (arith, e.test_iff other_key key)) h.0
    | inr other ↦ lookup-All P key entries h.1 (ground arith)
  ]
