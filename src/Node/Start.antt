-- ===== src/Node/Start.antt =====
-- src/kad/node.rs, `Node::start`: the first table of a node, from the nodes that it is given, and its
-- lookup of its own id. The task that takes requests from the channel is the handler's caller.
use noktulo.Prelude.{
  ℕ, ◌≤◌, ◌<◌, ◌≡◌, refl, sym, ap, subst, ◌∙◌, Bool, true, List, [], ◌∷◌, ◌=ℕ=◌, =ℕ=_iff, length,
  String, All, Run, ok, ◌>>=◌, ◌>>◌, assert, Returns, >>=-eq-ok, ok_inj, Option,
}
use noktulo.Key.{Key}
use noktulo.Store
use noktulo.Store.Laws
use noktulo.Routing
use noktulo.Routing.{NodeInfo, SocketAddr, RoutingTable, update, k_param, closest_nodes}
use noktulo.Routing.Buckets.{IsValid, IsKey}
use noktulo.Routing.Update.{update-IsValid, new-IsValid}
use noktulo.Node.{Node, Request, find_node as find_node_req, Reply}
use noktulo.Node.Calls.{lookup_nodes, query_nodes, find_node, nodes_of, is_some, settle}
use noktulo.Node.Requests.{IsReady}
use noktulo.Node.Lookup.{lookup_nodes-IsValid}

unfoldable pub update_all : RoutingTable → List NodeInfo → Run RoutingTable
update_all t [] = ok t
update_all t (n ∷ ns) = update t n >>= λ r. update_all (r.1) ns

-- The node before its lookup; `addr` is the socket's.
unfoldable pub new_node : String → ℕ → Key → (List ℕ → Bool) → SocketAddr → RoutingTable → Node
new_node net_id key_length node_id requirement addr routes = record {
  key_length = key_length;
  routes = routes;
  kept = Store.new key_length requirement;
  broadcast_tokens = [];
  node_info = record { id = node_id; addr = addr; net_id = net_id };
  delivered = [];
}

unfoldable pub start :
    (NodeInfo → Request → Option Reply)
    → String
    → ℕ
    → Key
    → (List ℕ → Bool)
    → SocketAddr
    → List NodeInfo
    → Run Node
unfolding update_all new_node
start rpc net_id key_length node_id requirement addr bootstrap = do
  assert (key_length =ℕ= length node_id)
  empty ← Routing.new (record { id = node_id; addr = addr; net_id = net_id }) key_length
  routes ← update_all empty bootstrap
  (_, node) ← lookup_nodes rpc (new_node net_id key_length node_id requirement addr routes) node_id
  ok node

update_all-IsValid :
    (t : RoutingTable) (ns : List NodeInfo)
    → IsValid t
    → All (λ n. IsKey t.key_len n.id) ns
    → Returns (update_all t ns) λ t'. IsValid t' × (t'.key_len ≡ t.key_len)
unfolding update_all
update_all-IsValid t [] v keys = (t, refl, (v, refl))
update_all-IsValid t (n ∷ ns) v keys =
    let ((full, t'), e, (v', updates)) = update-IsValid t n v keys.0 in
    let same : t'.key_len ≡ t.key_len = ap (λ (u : RoutingTable). u.key_len) updates.table in
    let (t'', rest, (v'', same')) =
      update_all-IsValid t' ns v' (subst (λ l. All (λ m. IsKey l m.id) ns) (sym same) keys.1) in
    (t'', rw e rest, (v'', same' ∙ same))

module _ (rpc : NodeInfo → Request → Option Reply) where
  -- A lookup changes nothing of a node but its routes.
  abbrev pub SameBut : Node → Node → Type 0
  SameBut n n' = n' ≡ record n { routes = n'.routes }

  query_nodes-SameBut :
      (n : Node) (id : Key) (queries ret : List (NodeInfo × Key))
      (out : List (NodeInfo × Key) × Node)
      → query_nodes rpc n id queries ret ≡ ok out
      → SameBut n out.1
  unfolding query_nodes find_node
  query_nodes-SameBut n id [] ret out e =
      subst (λ (m : Node). SameBut n m) (ap (λ o. o.1) (ok_inj e)) refl
  query_nodes-SameBut n id (q ∷ queries) ret out e =
      let (pair, found, rest) = >>=-eq-ok (find_node rpc n q.0 id) _ e in
      let (routes, _, made) =
        >>=-eq-ok (settle (is_some (nodes_of (rpc q.0 (find_node_req id)))) n.routes q.0) _ found in
      query_nodes-SameBut pair.1 id queries _ out rest
      ∙ ap (λ (m : Node). record m { routes = out.1.routes }) (sym (ap (λ o. o.1) (ok_inj made)))

  pub lookup_nodes-SameBut :
      (n : Node) (id : Key) (out : List (NodeInfo × Key) × Node)
      → lookup_nodes rpc n id ≡ ok out
      → SameBut n out.1
  unfolding lookup_nodes
  lookup_nodes-SameBut n id out e =
      let (to_query, _, rest) = >>=-eq-ok (closest_nodes n.routes id k_param) _ e in
      let (found, queried, made) = >>=-eq-ok (query_nodes rpc n id to_query []) _ rest in
      subst (λ (m : Node). SameBut n m) (ap (λ o. o.1) (ok_inj made))
        (query_nodes-SameBut n id to_query [] found queried)

  -- A node of a given key length that was told only of nodes with keys of that length starts
  -- without a panic, and is ready for requests.
  pub start-IsReady :
      (net_id : String) (key_length : ℕ) (node_id : Key) (requirement : List ℕ → Bool)
      (addr : SocketAddr) (bootstrap : List NodeInfo)
      → IsKey key_length node_id
      → 0 < key_length
      → key_length ≤ 64
      → All (λ n. IsKey key_length n.id) bootstrap
      → Returns (start rpc net_id key_length node_id requirement addr bootstrap) λ n.
        IsReady n
        × (n.key_length ≡ key_length)
        × (n.node_info ≡ record { id = node_id; addr = addr; net_id = net_id })
  unfolding start new_node Store.new
  start-IsReady net_id key_length node_id requirement addr bootstrap key pos short keys =
      let info : NodeInfo = record { id = node_id; addr = addr; net_id = net_id } in
      let (empty, made, (v, own)) = new-IsValid info key_length key pos in
      let (routes, updated, (v', same)) =
        update_all-IsValid empty bootstrap v
          (subst (λ l. All (λ m. IsKey l m.id) bootstrap) (sym own) keys) in
      let n = new_node net_id key_length node_id requirement addr routes in
      let len : routes.key_len ≡ key_length = same ∙ own in
      let ((near, n'), looked, (valid, still, _, _, _, _)) =
        lookup_nodes-IsValid rpc n node_id v' (key.0 ∙ sym len) in
      let shape = lookup_nodes-SameBut n node_id (near, n') looked in
      let size : (key_length =ℕ= length node_id) ≡ true = (=ℕ=_iff _ _).1 (sym key.0) in
      (
        n',
        rw (size, made) (rw updated (rw looked refl)),
        (
          record {
            routes = valid;
            routes_len = still ∙ len ∙ sym (ap (λ (m : Node). m.key_length) shape);
            kept =
                subst Laws.IsValid (sym (ap (λ (m : Node). m.kept) shape))
                  (Laws.new-IsValid key_length requirement);
            kept_len =
                ap (λ (m : Node). m.kept.key_len) shape
                ∙ sym (ap (λ (m : Node). m.key_length) shape);
            short = rw (ap (λ (m : Node). m.key_length) shape) short;
          },
          ap (λ (m : Node). m.key_length) shape,
          ap (λ (m : Node). m.node_info) shape,
        ),
      )
