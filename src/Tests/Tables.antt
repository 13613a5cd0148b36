-- ===== src/Tests/Tables.antt =====
-- The store and the routing table, with keys of one byte.
use noktulo.Prelude.{
  ℕ, ◌≡◌, refl, true, [], ◌∷◌, some, ltb, length, nat_eq, list_eq, Returns, ok_inj, subst, sym, ◌∙◌,
  ok, ◌>>=◌, arith,
}
use noktulo.Prelude.Assoc.{lookup}
use noktulo.Key.{xor, zeroes_in_prefix, scan_bytes, xor_bytes}
use noktulo.Store
use noktulo.Store.{Store}
use noktulo.Store.Laws.{get-insert, get-IsValid}
use noktulo.Routing
use noktulo.Routing.{NodeInfo, SocketAddr, RoutingTable}
use noktulo.Routing.Buckets.{IsValid}
use noktulo.Routing.Update.{Updates, update-IsValid, new-IsValid}
use noktulo.Routing.Closest.{AreClosest, closest_nodes-AreClosest}

abbrev pub small_values : Store
small_values = record { key_len = 1; store = []; store_predicate = λ v. ltb (length v) 4 }

get-insert_example :
    (Store.insert small_values (5 ∷ []) (1 ∷ []) >>= λ r. Store.get r.1 (5 ∷ []))
    ≡ ok (some (1 ∷ []))
unfolding lookup
get-insert_example = get-insert small_values (5 ∷ []) (1 ∷ []) refl (5 ∷ []) refl

abbrev one_value : Store
one_value = record small_values { store = ((5 ∷ []), (1 ∷ [])) ∷ [] }

get-IsValid_example : small_values.store_predicate (1 ∷ []) ≡ true
unfolding Store.get lookup
get-IsValid_example = get-IsValid one_value (5 ∷ []) (1 ∷ []) ((refl, refl), tt) refl

abbrev pub node : ℕ → NodeInfo
node n = record {
  id = n ∷ [];
  addr = record { ip = 127 ∷ 0 ∷ 0 ∷ 1 ∷ []; port = 6270 };
  net_id = "user_dht";
}

abbrev pub table : RoutingTable
table = record {
  key_len = 1;
  node_info = node 0x10;
  buckets = [] ∷ [] ∷ [] ∷ [] ∷ [] ∷ [] ∷ [] ∷ (node 0x10 ∷ []) ∷ [];
}

new_test : Routing.new (node 0x10) 1 ≡ ok table
unfolding Routing.new Routing.update Routing.update_bucket Routing.lookup_bucket_index xor
    zeroes_in_prefix scan_bytes xor_bytes
new_test = refl

pub table-IsValid : IsValid table
table-IsValid =
    let made = new-IsValid (node 0x10) 1 (omega arith) (omega arith) in
    subst IsValid (ok_inj (sym made.1 ∙ new_test)) made.2.0

update-IsValid_example :
    Returns (Routing.update table (node 0x30)) λ r. IsValid r.1 × Updates table (node 0x30) r
update-IsValid_example = update-IsValid table (node 0x30) table-IsValid (omega arith)

closest_nodes-AreClosest_example :
    Returns (Routing.closest_nodes table (0x7f ∷ []) 8) (AreClosest table (0x7f ∷ []) 8)
closest_nodes-AreClosest_example = closest_nodes-AreClosest table (0x7f ∷ []) 8 table-IsValid refl
