-- ===== src/Node/Calls.antt =====
-- src/kad/node.rs: what a node asks of others. `rpc` is the network: the reply that a destination
-- gives to a request, or `None` at a time-out. Requests that the code sends at the same time are in
-- the order of the list here, and so is a heap that is drained.
use noktulo.Prelude.{
  ℕ, ◌*◌, Bool, true, false, List, [], ◌∷◌, ◌++◌, Option, none, some, leb, Eq, nat_eq, list_eq,
  pair_eq, if◌then◌else◌, length, reversed, take, is_empty, Run, ok, ◌>>=◌,
}
use noktulo.Digests.{Digests}
use noktulo.Key.{Key, hash, to_hash, resize, zeroes_in_prefix}
use noktulo.Routing.{
  NodeInfo, node_eq, RoutingTable, update, remove, closest_nodes, sort_by_distance, k_param,
}
use noktulo.Node.{
  Request, ping as ping_req, store as store_req, find_node as find_node_req,
  find_value as find_value_req, unicast as unicast_req, multicast as multicast_req, Reply, pong,
  found_nodes, found_value, FindValueResult, Node, contains, token_key_len,
}

-- The `if let` after each call: the table on a reply of the right kind, and on another or none.
unfoldable pub settle : Bool → RoutingTable → NodeInfo → Run RoutingTable
settle true t dst = do (_, t') ← update t dst; ok t'
settle false t dst = remove t dst

abbrev pub is_pong : Option Reply → Bool
is_pong (some pong) = true
is_pong (some (found_nodes ns)) = false
is_pong (some (found_value r)) = false
is_pong none = false

abbrev pub nodes_of : Option Reply → Option (List (NodeInfo × Key))
nodes_of (some (found_nodes ns)) = some ns
nodes_of (some pong) = none
nodes_of (some (found_value r)) = none
nodes_of none = none

abbrev pub value_of : Option Reply → Option FindValueResult
value_of (some (found_value r)) = some r
value_of (some pong) = none
value_of (some (found_nodes ns)) = none
value_of none = none

abbrev pub is_some {ℓ} : {A : Type ℓ} → Option A → Bool
is_some none = false
is_some (some a) = true

-- `HashSet::insert`
abbrev pub add {ℓ} : {A : Type ℓ} ⦃e : Eq A⦄ → A → List A → List A
add x xs = if contains x xs then xs else xs ++ x ∷ []

module _ (rpc : NodeInfo → Request → Option Reply) where
  -- `ping`, `store` and `unicast`, each with its request.
  unfoldable pub call : Node → NodeInfo → Request → Run (Bool × Node)
  call n dst req = do
    let answered = is_pong (rpc dst req)
    routes ← settle answered n.routes dst
    ok (answered, record n { routes = routes })

  unfoldable pub ping : Node → NodeInfo → Run (Bool × Node)
  ping n dst = call n dst ping_req

  unfoldable pub store : Node → NodeInfo → Key → List ℕ → Run (Bool × Node)
  store n dst k v = call n dst (store_req k v)

  unfoldable pub unicast : Node → NodeInfo → List ℕ → Run (Bool × Node)
  unicast n dst msg = call n dst (unicast_req msg)

  unfoldable pub find_node : Node → NodeInfo → Key → Run (Option (List (NodeInfo × Key)) × Node)
  find_node n dst id = do
    let res = nodes_of (rpc dst (find_node_req id))
    routes ← settle (is_some res) n.routes dst
    ok (res, record n { routes = routes })

  unfoldable pub find_value : Node → NodeInfo → Key → Run (Option FindValueResult × Node)
  find_value n dst k = do
    let res = value_of (rpc dst (find_value_req k))
    routes ← settle (is_some res) n.routes dst
    ok (res, record n { routes = routes })

  -- The queries of `lookup_nodes`, and the set of the entries that answered.
  unfoldable pub query_nodes :
      Node
      → Key
      → List (NodeInfo × Key)
      → List (NodeInfo × Key)
      → Run (List (NodeInfo × Key) × Node)
  query_nodes n id [] ret = ok (ret, n)
  query_nodes n id (query ∷ queries) ret = do
    (res, n') ← find_node n query.0 id
    query_nodes n' id queries (if is_some res then add query ret else ret)

  -- `sort_by` on the distances, and `truncate(K_PARAM)`.
  abbrev pub nearest : List (NodeInfo × Key) → List (NodeInfo × Key)
  nearest ret = take k_param (sort_by_distance ret)

  unfoldable pub lookup_nodes : Node → Key → Run (List (NodeInfo × Key) × Node)
  lookup_nodes n id = do
    to_query ← closest_nodes n.routes id k_param
    (ret, n') ← query_nodes n id to_query []
    ok (nearest ret, n')

  -- The two loops of `put`.
  unfoldable pub store_all : Node → List (NodeInfo × Key) → Key → List ℕ → Run Node
  store_all n [] k v = ok n
  store_all n (c ∷ candidates) k v = do (_, n') ← store n c.0 k v; store_all n' candidates k v

  unfoldable pub put : Digests → Node → Key → List ℕ → Run Node
  put d n k v = do (candidates, n') ← lookup_nodes n (to_hash d k); store_all n' candidates k v

-- The filter of `multicast`: the candidates whose distance to the prefix starts with zeroes.
unfoldable pub targets : Key → List (NodeInfo × Key) → Run (List (NodeInfo × Key))
targets prefix [] = ok []
targets prefix (c ∷ candidates) = do
  zeroes ← zeroes_in_prefix c.1
  rest ← targets prefix candidates
  ok (if leb (length prefix * 8) zeroes then c ∷ rest else rest)

module _ (rpc : NodeInfo → Request → Option Reply) where
  -- The first branch of `multicast`: the candidates one by one, until one answers.
  unfoldable pub multicast_any :
      Node → List (NodeInfo × Key) → Key → List ℕ → Run (List NodeInfo × Node)
  multicast_any n [] prefix msg = ok ([], n)
  multicast_any n (c ∷ candidates) prefix msg = do
    (answered, n') ← call rpc n c.0 (multicast_req prefix msg)
    elim answered [ true ↦ ok (c.0 ∷ [], n') | false ↦ multicast_any n' candidates prefix msg ]

  -- The second branch: all targets; the nodes that answered.
  unfoldable pub multicast_all :
      Node → List (NodeInfo × Key) → Key → List ℕ → Run (List NodeInfo × Node)
  multicast_all n [] prefix msg = ok ([], n)
  multicast_all n (c ∷ target) prefix msg = do
    (answered, n') ← call rpc n c.0 (multicast_req prefix msg)
    (ret, n'') ← multicast_all n' target prefix msg
    ok (if answered then c.0 ∷ ret else ret, n'')

  unfoldable pub multicast : Digests → Node → Key → List ℕ → Run (List NodeInfo × Node)
  multicast d n prefix msg = do
    let n₁ : Node = record n {
      broadcast_tokens = add (hash d msg token_key_len) n.broadcast_tokens;
    }
    (candidates, n₂) ← lookup_nodes rpc n₁ (resize prefix (length n.node_info.id))
    target ← targets prefix candidates
    if is_empty target
        then multicast_any n₂ (reversed candidates) prefix msg
        else multicast_all n₂ target prefix msg
