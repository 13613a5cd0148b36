-- ===== src/Store/Laws.antt =====
-- The store holds valid values only, under keys of its length; a value that was stored is found.
use noktulo.Prelude.{
  ℕ, Bool, true, false, List, some, ◌≡◌, ◌==◌, nat_eq, list_eq, if◌then◌else◌, length, All, ok,
  okay, err, ◌>>=◌, Returns, Result, String, arith, Bool-cases, inl, inr,
}
use noktulo.Prelude.Assoc.{lookup, insert as map_insert, insert-All, lookup-All, lookup-insert}
use noktulo.Key.{Key}
use noktulo.Store.{Store, insert, get, new}

-- What an entry of a store satisfies.
abbrev pub IsEntry : Store → Key × List ℕ → Type 0
IsEntry s e = (length e.0 ≡ s.key_len) × (s.store_predicate e.1 ≡ true)

abbrev pub IsValid : Store → Type 0
IsValid s = All (IsEntry s) s.store

pub new-IsValid : (n : ℕ) (p : List ℕ → Bool) → IsValid (new n p)
unfolding new
new-IsValid n p = tt

module _ (s : Store) (k : Key) (v : List ℕ) (fits : length k ≡ s.key_len) where
  pub insert_accepted :
      s.store_predicate v ≡ true
      → insert s k v ≡ ok (okay tt, record s { store = map_insert k v s.store })
  unfolding insert
  insert_accepted h = ground arith

  insert_refused :
      s.store_predicate v ≡ false → insert s k v ≡ ok (err "Invalid value is tried to insert.", s)
  unfolding insert
  insert_refused h = ground arith

  -- With a key of the store's length insert returns, and every entry of the resulting store has a
  -- key of that length and a value that the predicate accepts, if that held before.
  pub insert-IsValid : IsValid s → Returns (insert s k v) λ r. IsValid r.1
  insert-IsValid h = elim (Bool-cases (s.store_predicate v)) [
    | inl yes' ↦ (_, insert_accepted yes', insert-All (IsEntry s) k v s.store (fits, yes') h)
    | inr no' ↦ (_, insert_refused no', h)
  ]

  -- A get after an insert, both with keys of the store's length, sees the new value at its key if
  -- the predicate accepted it, and the old content otherwise.
  pub get-insert :
      (j : Key)
      → length j ≡ s.key_len
      → (insert s k v >>= λ r. get r.1 j)
        ≡ ok (
            if s.store_predicate v
            then (if k == j then some v else lookup j s.store)
            else lookup j s.store)
  unfolding get
  get-insert j fits_j = elim (Bool-cases (s.store_predicate v)) [
    | inl yes' ↦ rw (insert_accepted yes', yes') (ground (arith, lookup-insert k j v s.store))
    | inr no' ↦ rw (insert_refused no', no') (ground arith)
  ]

-- The length of the keys stays.
pub insert-key_len :
    (s : Store) (k : Key) (v : List ℕ) (r : Result (Unit {0}) String × Store)
    → insert s k v ≡ ok r
    → r.1.key_len ≡ s.key_len
unfolding insert
insert-key_len s k v r e = ground arith

-- Whatever `get` finds in a valid store satisfies the predicate.
pub get-IsValid :
    (s : Store) (k : Key) (v : List ℕ)
    → IsValid s
    → get s k ≡ ok (some v)
    → s.store_predicate v ≡ true
unfolding get
get-IsValid s k v h e = (lookup-All (IsEntry s) k s.store h (ground arith)).1
