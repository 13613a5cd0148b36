-- ===== src/Node/Handler.antt =====
-- `handle_req` as a whole, and two requests in a row.
use noktulo.Prelude.{
  ℕ, ◌≡◌, refl, sym, ap, ◌∙◌, true, List, [], ◌++◌, Option, some, ◌=ℕ=◌, =ℕ=_iff, list_eq, nat_eq,
  list_beq_refl, length, ok, ◌>>=◌, Returns,
}
use noktulo.Prelude.Assoc.{lookup, insert as map_insert, lookup-insert}
use noktulo.Digests.{Digests}
use noktulo.Key.{Key}
use noktulo.Store.{get}
use noktulo.Store.Laws.{insert_accepted}
use noktulo.Routing.{NodeInfo, RoutingTable, update}
use noktulo.Routing.Buckets.{IsKey}
use noktulo.Routing.Update.{update-IsValid, Updates}
use noktulo.Node.{
  Request, store, find_value, Reply, pong, found_value, value, Task, Node, answer_value, answer,
  ping_task, handle_req,
}
use noktulo.Node.Requests.{IsReady, Answers, answer_lem}

module _ (d : Digests) where
  module _ (n : Node) (ready : IsReady n) (src : NodeInfo) (from : IsKey n.key_length src.id) where
    -- The update of the routes that comes before the answer.
    routed :
        Returns
          (update n.routes src)
          λ r. IsReady (record n { routes = r.1 }) × Updates n.routes src r
    routed =
        let (r, e, (valid, updates)) =
          update-IsValid n.routes src ready.routes (from.0 ∙ sym ready.routes_len, from.1) in
        (
          r,
          e,
          (
            record {
              routes = valid;
              routes_len = ap (λ (t : RoutingTable). t.key_len) updates.table ∙ ready.routes_len;
              kept = ready.kept;
              kept_len = ready.kept_len;
              short = ready.short;
            },
            updates,
          ),
        )

    -- A ready node (well-formed tables for keys of its length, at most 64) answers every request
    -- of a sender with a key of that length: it updates the routes with the sender, replies as the
    -- request asks from the updated tables (closest nodes, a stored value that the predicate
    -- accepts, or an acknowledgement), and stays ready; with a full bucket the first task pings
    -- its first node.
    pub handle_req-Answers :
        (req : Request)
        → Returns (handle_req d n req src) λ out.
          (full : Option NodeInfo) × (more : List Task) × IsReady out.1
          × Updates n.routes src (full, out.1.routes)
          × Answers d (record n { routes = out.1.routes }) req out.0
          × (out.2 ≡ ping_task d full src ++ more)
    unfolding handle_req
    handle_req-Answers req =
        let ((full, routes), e, (ready', updates)) = routed in
        let ((reply, n', tasks), a, (still, same, what)) =
          answer_lem d (record n { routes = routes }) ready' req in
        (
          (reply, n', ping_task d full src ++ tasks),
          rw (handle_req, e, a) refl,
          rw same (full, tasks, still, updates, what, refl),
        )

  -- On a ready node, and with senders whose keys have the node's length, a value that the
  -- predicate accepts, stored by one request under a key of that length, is the reply to the next
  -- request for that key.
  pub handle_req-stored :
      (n : Node) (src src' : NodeInfo) (k : Key) (v : List ℕ)
      → IsReady n
      → IsKey n.key_length src.id
      → IsKey n.key_length src'.id
      → length k ≡ n.key_length
      → n.kept.store_predicate v ≡ true
      → Returns
          (handle_req d n (store k v) src >>= λ out. handle_req d out.1 (find_value k) src')
          λ out. out.0 ≡ found_value (value v)
  unfolding handle_req answer answer_value get
  handle_req-stored n src src' k v ready from from' size good =
      let ((full, routes), e, (ready₁, _)) = routed n ready src from in
      let same : (n.key_length =ℕ= length k) ≡ true =
        (=ℕ=_iff n.key_length (length k)).1 (sym size) in
      let fits : (n.kept.key_len =ℕ= length k) ≡ true =
        (=ℕ=_iff n.kept.key_len (length k)).1 (ready.kept_len ∙ sym size) in
      let kept = record n.kept { store = map_insert k v n.kept.store } in
      let stored = insert_accepted n.kept k v (size ∙ sym ready.kept_len) good in
      let n₁ : Node = record n { routes = routes; kept = kept } in
      let ((full', routes'), e', _) =
        update-IsValid routes src' ready₁.routes (from'.0 ∙ sym ready₁.routes_len, from'.1) in
      let found : lookup k (map_insert k v n.kept.store) ≡ some v =
        rw (lookup-insert k k v n.kept.store, list_beq_refl k) refl in
      let first : handle_req d n (store k v) src ≡ ok (pong, n₁, ping_task d full src ++ []) =
        rw (handle_req, e, answer, same, stored) refl in
      let out : Reply × Node × List Task =
        (found_value (value v), record n₁ { routes = routes' }, ping_task d full' src' ++ []) in
      let second : handle_req d n₁ (find_value k) src' ≡ ok out =
        rw (handle_req, e', answer, same, answer_value, get, fits, found) refl in
      (out, rw first second, refl)
