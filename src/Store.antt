-- ===== src/Store.antt =====
-- src/kad/store.rs: the values that a node keeps for others.
pub mod Laws
use noktulo.Prelude.{
  ℕ, Bool, List, Option, ◌=ℕ=◌, nat_eq, list_eq, if◌then◌else◌, length, String, Run, ok, panic,
  assert, Result, okay, err, ◌>>=◌, ◌>>◌, [],
}
use noktulo.Prelude.Assoc.{lookup, insert as map_insert}
use noktulo.Key.{Key}

pub record Store : Type 0 where
  pub key_len : ℕ
  pub store : List (Key × List ℕ)
  pub store_predicate : List ℕ → Bool

unfoldable pub new : ℕ → (List ℕ → Bool) → Store
new key_len p = record { key_len = key_len; store = []; store_predicate = p }

unfoldable pub insert : Store → Key → List ℕ → Run (Result (Unit {0}) String × Store)
insert s k v = do
  assert (s.key_len =ℕ= length k)
  if s.store_predicate v
      then ok (okay tt, record s { store = map_insert k v s.store })
      else ok (err "Invalid value is tried to insert.", s)

unfoldable pub get : Store → Key → Run (Option (List ℕ))
get s k = do assert (s.key_len =ℕ= length k); ok (lookup k s.store)
