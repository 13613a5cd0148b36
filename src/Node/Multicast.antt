-- ===== src/Node/Multicast.antt =====
-- `multicast` as a whole: the lookup, the filter and the sends.
use noktulo.Prelude.{
  ℕ, ◌<◌, ◌≡◌, refl, sym, ap, subst, ◌∙◌, Bool, true, false, List, [], ◌∷◌, map, Option, nat_eq,
  list_eq, pair_eq, if◌then◌else◌, length, is_empty, take, filter, All, All-mono, All-filter,
  All-take, All-append, All-reversed, reversed, ok, ◌>>=◌, >>=-eq-ok, ok_inj, Returns, Bool-cases,
  inl, inr,
}
use noktulo.Prelude.Bytes.{AreBytes}
use noktulo.Digests.{Digests}
use noktulo.Key.{Key, hash, resize, is_prefix}
use noktulo.Key.Prefix.{length-resize}
use noktulo.Routing.{NodeInfo, node_eq, RoutingTable, sort_by_distance, closest_nodes, k_param}
use noktulo.Routing.Buckets.{IsValid}
use noktulo.Routing.Closest.{IsMeasured, sort-All, closest_nodes-keys}
use noktulo.Node.{Request, multicast as multicast_req, Reply, Node, contains, token_key_len}
use noktulo.Node.Calls.{
  settle, is_pong, is_some, add, call, find_node, query_nodes, lookup_nodes, multicast_any,
  multicast_all, multicast,
}
use noktulo.Node.Lookup.{HasKey, settle-IsValid, lookup_nodes-IsValid}
use noktulo.Node.Targets.{targets_lem}

module _ (rpc : NodeInfo → Request → Option Reply) where
  -- What holds of the queries holds of the set.
  kept-All :
      (P : NodeInfo × Key → Type 0) (b : Bool) (q : NodeInfo × Key) (ret : List (NodeInfo × Key))
      → P q
      → All P ret
      → All P (if b then add q ret else ret)
  kept-All P false q ret p h = h
  kept-All P true q ret p h = elim (Bool-cases (contains q ret)) [
    | inl old ↦ rw old h
    | inr new ↦ rw new (All-append P ret (q ∷ []) h (p, tt))
  ]

  query_nodes-All :
      (P : NodeInfo × Key → Type 0) (n : Node) (id : Key) (queries ret : List (NodeInfo × Key))
      (out : List (NodeInfo × Key) × Node)
      → query_nodes rpc n id queries ret ≡ ok out
      → All P queries
      → All P ret
      → All P out.0
  unfolding query_nodes
  query_nodes-All P n id [] ret out e hq hr =
      subst (All P) (ap (λ (o : List (NodeInfo × Key) × Node). o.0) (ok_inj e)) hr
  query_nodes-All P n id (q ∷ queries) ret out e hq hr =
      let ((res, n'), _, rest) = >>=-eq-ok (find_node rpc n q.0 id) _ e in
      query_nodes-All P n' id queries (if is_some res then add q ret else ret) out rest hq.1
        (kept-All P (is_some res) q ret hq.0 hr)

  -- The entries of a lookup's result have keys of the table's length, and their distances.
  pub lookup_nodes-keys :
      (n : Node) (id : Key) (out : List (NodeInfo × Key) × Node)
      → IsValid n.routes
      → length id ≡ n.routes.key_len
      → lookup_nodes rpc n id ≡ ok out
      → All (IsMeasured n.routes.key_len id) out.0
  unfolding lookup_nodes
  lookup_nodes-keys n id out v size e =
      let (near, found, rest) = >>=-eq-ok (closest_nodes n.routes id k_param) _ e in
      let ((ret, n'), ran, done) = >>=-eq-ok (query_nodes rpc n id near []) _ rest in
      let keys = closest_nodes-keys n.routes id k_param near v size found in
      let measured =
        query_nodes-All (IsMeasured n.routes.key_len id) n id near [] (ret, n') ran keys tt in
      subst (All (IsMeasured n.routes.key_len id))
        (ap (λ (o : List (NodeInfo × Key) × Node). o.0) (ok_inj done))
        (All-take _ k_param (sort_by_distance ret) (sort-All _ ret measured))

  -- A node's reply to the message is an acknowledgement.
  abbrev pub receives : Key → List ℕ → NodeInfo × Key → Bool
  receives prefix msg c = is_pong (rpc c.0 (multicast_req prefix msg))

  abbrev names : List (NodeInfo × Key) → List NodeInfo
  names = map λ (c : NodeInfo × Key). c.0

  multicast_all_lem :
      (n : Node) (target : List (NodeInfo × Key)) (prefix : Key) (msg : List ℕ)
      → IsValid n.routes
      → All (HasKey rpc n.routes.key_len) target
      → Returns
          (multicast_all rpc n target prefix msg)
          λ out. IsValid out.1.routes × (out.0 ≡ names (filter (receives prefix msg) target))
  unfolding multicast_all call
  multicast_all_lem n [] prefix msg v keys = (([], n), refl, (v, refl))
  multicast_all_lem n (c ∷ cs) prefix msg v keys =
      let answered = receives prefix msg c in
      let (routes, e, (v', same)) = settle-IsValid answered n.routes c.0 v keys.0 in
      let n' : Node = record n { routes = routes } in
      let ((ret, n''), rest, (v'', all)) =
        multicast_all_lem n' cs prefix msg v'
          (subst (λ l. All (HasKey rpc l) cs) (sym same) keys.1) in
      (
        (if answered then c.0 ∷ ret else ret, n''),
        rw (multicast_all, call, e, rest) refl,
        (
          v'',
          elim (Bool-cases answered) [
            | inl yes' ↦ rw yes' (ap (◌∷◌ c.0) all)
            | inr no' ↦ rw no' all
          ],
        ),
      )

  call_lem :
      (n : Node) (dst : NodeInfo) (req : Request) (routes : RoutingTable)
      → settle (is_pong (rpc dst req)) n.routes dst ≡ ok routes
      → call rpc n dst req ≡ ok (is_pong (rpc dst req), record n { routes = routes })
  unfolding call
  call_lem n dst req routes e = rw (call, e) refl

  module _ (n n' : Node) (c : NodeInfo × Key) (cs : List (NodeInfo × Key)) (prefix : Key)
      (msg : List ℕ) where
    multicast_any_first :
        call rpc n c.0 (multicast_req prefix msg) ≡ ok (true, n')
        → multicast_any rpc n (c ∷ cs) prefix msg ≡ ok (c.0 ∷ [], n')
    unfolding multicast_any
    multicast_any_first e = rw (multicast_any, e) refl

    multicast_any_next :
        call rpc n c.0 (multicast_req prefix msg) ≡ ok (false, n')
        → multicast_any rpc n (c ∷ cs) prefix msg ≡ multicast_any rpc n' cs prefix msg
    unfolding multicast_any
    multicast_any_next e = rw (multicast_any, e) refl

  multicast_any_lem :
      (n : Node) (cs : List (NodeInfo × Key)) (prefix : Key) (msg : List ℕ)
      → IsValid n.routes
      → All (HasKey rpc n.routes.key_len) cs
      → Returns
          (multicast_any rpc n cs prefix msg)
          λ out. IsValid out.1.routes × (out.0 ≡ names (take 1 (filter (receives prefix msg) cs)))
  unfolding multicast_any
  multicast_any_lem n [] prefix msg v keys = (([], n), refl, (v, refl))
  multicast_any_lem n (c ∷ cs) prefix msg v keys =
      let answered = receives prefix msg c in
      let (routes, e, (v', same)) = settle-IsValid answered n.routes c.0 v keys.0 in
      let n' : Node = record n { routes = routes } in
      let called = call_lem n c.0 (multicast_req prefix msg) routes e in
      let ((ret, n''), rest, (v'', all)) =
        multicast_any_lem n' cs prefix msg v'
          (subst (λ l. All (HasKey rpc l) cs) (sym same) keys.1) in
      elim (Bool-cases answered) [
        | inl yes' ↦ (
          (c.0 ∷ [], n'),
          multicast_any_first n n' c cs prefix msg (called ∙ ap (λ b. ok (b, n')) yes'),
          (v', rw yes' refl),
        )
        | inr no' ↦ (
          (ret, n''),
          multicast_any_next n n' c cs prefix msg (called ∙ ap (λ b. ok (b, n')) no') ∙ rest,
          (v'', rw no' all),
        )
      ]

  -- The candidates whose id has the prefix, and whom of the candidates the message has reached.
  abbrev pub has_prefix : Key → NodeInfo × Key → Bool
  has_prefix prefix c = is_prefix prefix c.0.id

  abbrev pub reached : Key → List ℕ → List (NodeInfo × Key) → List NodeInfo
  reached prefix msg near =
      let target = filter (has_prefix prefix) near in
      if is_empty target
      then names (take 1 (filter (receives prefix msg) (reversed near)))
      else names (filter (receives prefix msg) target)

  -- On a well-formed table of a node whose own id has the table's key length, and for a prefix of
  -- bytes that is shorter, multicast returns and keeps the table well-formed. Among the nodes that
  -- its lookup of the prefix, filled up with zeroes, yields, it reaches all with the prefix that
  -- acknowledge the message, or, if none has the prefix, the first from the far end that
  -- acknowledges it.
  pub multicast-IsValid :
      (d : Digests) (n : Node) (prefix : Key) (msg : List ℕ)
      → IsValid n.routes
      → length n.node_info.id ≡ n.routes.key_len
      → AreBytes prefix
      → length prefix < n.routes.key_len
      → Returns (multicast rpc d n prefix msg) λ out.
        IsValid out.1.routes
        × (near : List (NodeInfo × Key)) × ((lookup_nodes rpc
                (record n { broadcast_tokens = add (hash d msg token_key_len) n.broadcast_tokens })
                (resize prefix n.routes.key_len)
              >>= λ looked. ok looked.0)
            ≡ ok near)
        × (out.0 ≡ reached prefix msg near)
  unfolding multicast
  multicast-IsValid d n prefix msg v own bytes shorter =
      let n₁ : Node = record n {
        broadcast_tokens = add (hash d msg token_key_len) n.broadcast_tokens;
      } in
      let item = resize prefix n.routes.key_len in
      let size : length item ≡ n.routes.key_len = length-resize prefix n.routes.key_len in
      let ((near, n₂), e, (v₂, same, _, _, _, _)) = lookup_nodes-IsValid rpc n₁ item v size in
      let measured = lookup_nodes-keys n₁ item (near, n₂) v size e in
      let keys : All (HasKey rpc n₂.routes.key_len) near =
        subst (λ l. All (HasKey rpc l) near) (sym same) (All-mono _ _ near (λ x h. h.0) measured) in
      let chosen = targets_lem n.routes.key_len prefix bytes shorter near measured in
      let target = filter (has_prefix prefix) near in
      elim (Bool-cases (is_empty target)) [
        | inl none' ↦
            let (out, ran, (v₃, all)) =
              multicast_any_lem n₂ (reversed near) prefix msg v₂
                (All-reversed (HasKey rpc n₂.routes.key_len) near keys) in
            (
              out,
              rw (multicast, own, e, chosen, none', ran) refl,
              (v₃, near, rw e refl, rw none' all),
            )
        | inr some' ↦
            let (out, ran, (v₃, all)) =
              multicast_all_lem n₂ target prefix msg v₂
                (All-filter (HasKey rpc n₂.routes.key_len) (has_prefix prefix) near keys) in
            (
              out,
              rw (multicast, own, e, chosen, some', ran) refl,
              (v₃, near, rw e refl, rw some' all),
            )
      ]
