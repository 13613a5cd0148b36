-- ===== src/Node/Values.antt =====
-- src/kad/node.rs, `lookup_value` and `get`.
use noktulo.Prelude.{
  ℕ, ◌≡◌, ◌≢◌, List, [], ◌∷◌, ◌++◌, Option, none, some, nat_eq, list_eq, pair_eq, last?, All, Run,
  ok, ◌>>=◌,
}
use noktulo.Digests.{Digests}
use noktulo.Key.{Key, to_hash}
use noktulo.Routing.{NodeInfo, node_eq, closest_nodes, k_param}
use noktulo.Node.{Request, find_value as find_value_req, Reply, FindValueResult, nodes, value, Node}
use noktulo.Node.Calls.{value_of, add, nearest, find_value, store}

-- The last loop of `lookup_value`, over the results with their queries: up to the first value.
unfoldable pub scan_values :
    List (Option FindValueResult × (NodeInfo × Key))
    → List (NodeInfo × Key)
    → Option (List ℕ) × List (NodeInfo × Key)
scan_values [] ret = (none, ret)
scan_values ((none, query) ∷ results) ret = scan_values results ret
scan_values ((some (nodes ns), query) ∷ results) ret = scan_values results (add query ret)
scan_values ((some (value v), query) ∷ results) ret = (some v, ret)

module _ (rpc : NodeInfo → Request → Option Reply) where
  -- The queries of `lookup_value`: all are answered before the results are read.
  unfoldable pub query_values :
      Node
      → Key
      → List (NodeInfo × Key)
      → Run (List (Option FindValueResult × (NodeInfo × Key)) × Node)
  query_values n k [] = ok ([], n)
  query_values n k (query ∷ queries) = do
    (res, n') ← find_value rpc n query.0 k
    (results, n'') ← query_values n' k queries
    ok ((res, query) ∷ results, n'')

  module _ (d : Digests) where
    unfoldable pub lookup_value : Node → Key → Run (Option (List ℕ) × List (NodeInfo × Key) × Node)
    lookup_value n k = do
      to_query ← closest_nodes n.routes (to_hash d k) k_param
      (results, n') ← query_values n k to_query
      let (found, ret) = scan_values results []
      ok (found, nearest rpc ret, n')

    -- `nodes.pop()` takes the farthest of the nodes that answered.
    unfoldable pub store_target : Node → List (NodeInfo × Key) → NodeInfo
    store_target n near = elim (last? near) [ none ↦ n.node_info | some entry ↦ entry.0 ]

    unfoldable pub get : Node → Key → Run (Option (List ℕ) × Node)
    get n k = do
      (found, near, n') ← lookup_value n k
      elim found [
        | none ↦ ok (none, n')
        | some v ↦ do (_, n'') ← store rpc n' (store_target n near) k v; ok (some v, n'')
      ]

  -- What a node replies to the query for a key.
  abbrev pub result_of : Key → NodeInfo × Key → Option FindValueResult
  result_of k entry = value_of (rpc entry.0 (find_value_req k))

  -- A node's reply is not a value.
  abbrev pub HasNoValue : Key → NodeInfo × Key → Type 0
  HasNoValue k entry = (v : List ℕ) → result_of k entry ≢ some (value v)

  -- The value is a reply of one of the queries, after replies without a value, or there is none.
  abbrev pub IsFirstValue : Key → List (NodeInfo × Key) → Option (List ℕ) → Type 0
  IsFirstValue k queries none = All (HasNoValue k) queries
  IsFirstValue k queries (some v) =
      (before : List (NodeInfo × Key)) × (q : NodeInfo × Key) × (after : List (NodeInfo × Key))
      × (queries ≡ before ++ q ∷ after)
      × All (HasNoValue k) before
      × (result_of k q ≡ some (value v))
