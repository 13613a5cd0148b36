-- ===== src/Node/Broadcast.antt =====
-- src/kad/node.rs, `broadcast`: a message to every node of the routing table.
use mathlib.Core.List.{flatten}
use noktulo.Prelude.{
  ℕ, ◌≡◌, refl, sym, ap, subst, ◌∙◌, Bool, true, not, List, [], ◌∷◌, Option, ◌==◌, list_beq_refl,
  nat_eq, list_eq, if◌then◌else◌, filter, All, All-filter, Run, ok, ◌>>=◌, Returns,
}
use noktulo.Digests.{Digests}
use noktulo.Key.{hash}
use noktulo.Routing.{NodeInfo, node_eq, RoutingTable}
use noktulo.Routing.Buckets.{IsKey, IsValid}
use noktulo.Routing.Closest.{IsValid-keys}
use noktulo.Node.{Request, broadcast as broadcast_req, Reply, Node, contains, token_key_len}
use noktulo.Node.Calls.{settle, is_pong, add}
use noktulo.Node.Lookup.{settle-IsValid, contains-add}

-- The nodes that a broadcast is for: all that the table holds, but the node itself.
abbrev pub others : Node → List NodeInfo
others n = filter (λ dst. not (dst == n.node_info)) (flatten n.routes.buckets)

module _ (rpc : NodeInfo → Request → Option Reply) where
  abbrev pub acknowledges : List ℕ → NodeInfo → Bool
  acknowledges msg dst = is_pong (rpc dst (broadcast_req msg))

  -- The loop over the replies: the nodes that answered, and the table.
  unfoldable pub settle_all :
      RoutingTable → List NodeInfo → List ℕ → Run (List NodeInfo × RoutingTable)
  settle_all t [] msg = ok ([], t)
  settle_all t (dst ∷ dsts) msg = do
    let answered = acknowledges msg dst
    t' ← settle answered t dst
    (ret, t'') ← settle_all t' dsts msg
    ok (if answered then dst ∷ ret else ret, t'')

  unfoldable pub broadcast : Digests → Node → List ℕ → Run (List NodeInfo × Node)
  broadcast d n msg = do
    let tokens = add (hash d msg token_key_len) n.broadcast_tokens
    (ret, routes) ← settle_all n.routes (others n) msg
    ok (ret, record n { broadcast_tokens = tokens; routes = routes })

  settle_all_lem :
      (t : RoutingTable) (dsts : List NodeInfo) (msg : List ℕ)
      → IsValid t
      → All (λ (n : NodeInfo). IsKey t.key_len n.id) dsts
      → Returns
          (settle_all t dsts msg)
          λ out. IsValid out.1 × (out.0 ≡ filter (acknowledges msg) dsts)
  unfolding settle_all
  settle_all_lem t [] msg v keys = (([], t), refl, (v, refl))
  settle_all_lem t (dst ∷ dsts) msg v keys =
      let (t', e, (v', same)) = settle-IsValid (acknowledges msg dst) t dst v keys.0 in
      let keys' = subst (λ l. All (λ (n : NodeInfo). IsKey l n.id) dsts) (sym same) keys.1 in
      let ((ret, t''), rest, (v'', all)) = settle_all_lem t' dsts msg v' keys' in
      (
        (if acknowledges msg dst then dst ∷ ret else ret, t''),
        rw (settle_all, e, rest) refl,
        (v'', ap (λ l. if acknowledges msg dst then dst ∷ l else l) all),
      )

  -- On a well-formed table broadcast returns, keeps the table well-formed, yields exactly the
  -- nodes of the table other than the node itself that acknowledge the message, and leaves the
  -- message's token in the set of tokens.
  pub broadcast-IsValid :
      (d : Digests) (n : Node) (msg : List ℕ)
      → IsValid n.routes
      → Returns (broadcast d n msg) λ out.
        IsValid out.1.routes
        × (out.0 ≡ filter (acknowledges msg) (others n))
        × (contains (hash d msg token_key_len) out.1.broadcast_tokens ≡ true)
  unfolding broadcast
  broadcast-IsValid d n msg v =
      let keys =
        All-filter (λ (m : NodeInfo). IsKey n.routes.key_len m.id) (λ dst. not (dst == n.node_info))
          (flatten n.routes.buckets) (IsValid-keys n.routes v) in
      let ((ret, routes), e, (v', all)) = settle_all_lem n.routes (others n) msg v keys in
      let token = hash d msg token_key_len in
      (
        (ret, record n { broadcast_tokens = add token n.broadcast_tokens; routes = routes }),
        rw (broadcast, e) refl,
        (v', all, contains-add token token n.broadcast_tokens ∙ rw (list_beq_refl token) refl),
      )
