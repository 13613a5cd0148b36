-- ===== src/Node/Put.antt =====
-- src/kad/node.rs, `put`: what it keeps of the node.
use noktulo.Prelude.{
  arith, ℕ, ◌≡◌, refl, sym, ap, subst, ◌∙◌, List, [], ◌∷◌, Option, length, All, All-mono, Returns,
}
use noktulo.Digests.{Digests}
use noktulo.Key.{Key, to_hash}
use noktulo.Routing.{NodeInfo}
use noktulo.Routing.Buckets.{IsValid}
use noktulo.Store.Laws
use noktulo.Node.{Node, Request, store as store_req, Reply}
use noktulo.Node.Calls.{store_all, store, call, is_pong, put}
use noktulo.Node.Requests.{IsReady, length-to_hash}
use noktulo.Node.Lookup.{HasKey, settle-IsValid, lookup_nodes-IsValid}
use noktulo.Node.Multicast.{lookup_nodes-keys}
use noktulo.Node.Start.{SameBut, lookup_nodes-SameBut}

module _ (rpc : NodeInfo → Request → Option Reply) where
  -- A node stays ready while only its routes change, and stay well-formed.
  pub IsReady-SameBut :
      (n n' : Node)
      → IsReady n
      → SameBut rpc n n'
      → IsValid n'.routes
      → n'.routes.key_len ≡ n.routes.key_len
      → IsReady n'
  IsReady-SameBut n n' ready shape v len =
      let same : n'.key_length ≡ n.key_length = ap (λ (m : Node). m.key_length) shape in
      record {
        routes = v;
        routes_len = len ∙ ready.routes_len ∙ sym same;
        kept = subst Laws.IsValid (sym (ap (λ (m : Node). m.kept) shape)) ready.kept;
        kept_len = ap (λ (m : Node). m.kept.key_len) shape ∙ ready.kept_len ∙ sym same;
        short = rw same ready.short;
      }

  store_all-IsValid :
      (n : Node) (cs : List (NodeInfo × Key)) (k : Key) (v : List ℕ)
      → IsValid n.routes
      → All (HasKey rpc n.routes.key_len) cs
      → Returns
          (store_all rpc n cs k v)
          λ n'. IsValid n'.routes × (n'.routes.key_len ≡ n.routes.key_len) × SameBut rpc n n'
  unfolding store_all store call
  store_all-IsValid n [] k v valid keys = (n, refl, (valid, refl, refl))
  store_all-IsValid n (c ∷ cs) k v valid keys =
      let (routes, e, (valid', same)) =
        settle-IsValid (is_pong (rpc c.0 (store_req k v))) n.routes c.0 valid keys.0 in
      let n' : Node = record n { routes = routes } in
      let (n'', rest, (valid'', same', shape)) =
        store_all-IsValid n' cs k v valid' (subst (λ l. All (HasKey rpc l) cs) (sym same) keys.1) in
      (n'', rw (store_all, e) rest, (valid'', same' ∙ same, shape))

  -- A ready node that puts a value under a key of its length does not panic, and stays ready.
  pub put-IsReady :
      (d : Digests) (n : Node) (k : Key) (v : List ℕ)
      → IsReady n
      → length k ≡ n.key_length
      → Returns (put rpc d n k v) λ n'. IsReady n' × SameBut rpc n n'
  unfolding put
  put-IsReady d n k v ready size =
      let hashed : length (to_hash d k) ≡ n.routes.key_len =
        length-to_hash d k (omega (arith, size, ready.short)) ∙ size ∙ sym ready.routes_len in
      let ((near, n₁), looked, (v₁, same₁, _, _, _, _)) =
        lookup_nodes-IsValid rpc n (to_hash d k) ready.routes hashed in
      let keys = lookup_nodes-keys rpc n (to_hash d k) (near, n₁) ready.routes hashed looked in
      let measured : All (HasKey rpc n₁.routes.key_len) near =
        subst (λ l. All (HasKey rpc l) near) (sym same₁) (All-mono _ _ near (λ x h. h.0) keys) in
      let shape₁ = lookup_nodes-SameBut rpc n (to_hash d k) (near, n₁) looked in
      let (n₂, stored, (v₂, same₂, shape₂)) = store_all-IsValid n₁ near k v v₁ measured in
      let shape : SameBut rpc n n₂ =
        shape₂ ∙ ap (λ (m : Node). record m { routes = n₂.routes }) shape₁ in
      (n₂, rw (put, looked) stored, (IsReady-SameBut n n₂ ready shape v₂ (same₂ ∙ same₁), shape))
