-- ===== src/Node/Requests.antt =====
-- What a node answers to a request, and that its tables stay well-formed.
use noktulo.Prelude.{
  ℕ, ◌≤◌, ◌≡◌, ◌≢◌, refl, sym, subst, ◌∙◌, true, false, List, [], ◌∷◌, ◌++◌, none, some, inl, inr,
  ◌=ℕ=◌, =ℕ=_iff, list_eq, nat_eq, length, length-take, ok, Returns, arith, Bool-cases,
  Option-cases,
}
use noktulo.Prelude.Assoc.{lookup}
use noktulo.Digests.{Digests}
use noktulo.Key.{Key, hash, to_hash, is_prefix}
use noktulo.Store.{get}
use noktulo.Store.Laws
use noktulo.Store.Laws.{insert-IsValid, get-IsValid, insert-key_len}
use noktulo.Routing.{NodeInfo, k_param}
use noktulo.Routing.Buckets.{IsValid}
use noktulo.Routing.Closest.{AreClosest, closest_nodes-AreClosest}
use noktulo.Node.{
  Request, ping, store, find_node, find_value, unicast, broadcast, multicast, Reply, pong,
  found_nodes, found_value, FindValueResult, nodes, value, Task, Node, deliver, answer_value,
  answer, relay_multicast,
}

pub length-to_hash : (d : Digests) (k : Key) → length k ≤ 64 → length (to_hash d k) ≡ length k
unfolding to_hash hash
length-to_hash d k h = omega (arith, length-take (length k) (d.sha3_512 k), d.sha3_512_length k)

mismatch : (a b : ℕ) → (a =ℕ= b) ≡ false → b ≢ a
mismatch a b e same = absurd (ground (arith, =ℕ=_iff a b))

-- The tables are well-formed and for keys of the node's length, which a digest covers.
pub record IsReady (n : Node) : Type 0 where
  pub routes : IsValid n.routes
  pub routes_len : n.routes.key_len ≡ n.key_length
  pub kept : Laws.IsValid n.kept
  pub kept_len : n.kept.key_len ≡ n.key_length
  pub short : n.key_length ≤ 64

-- The nodes in an answer: the closest that the node knows, or none if the key's length is wrong.
abbrev pub AreNear : Node → Key → Key → List (NodeInfo × Key) → Type 0
AreNear n asked target near =
    (length asked ≡ n.key_length → AreClosest n.routes target k_param near)
    × (length asked ≢ n.key_length → near ≡ [])

module _ (d : Digests) where
  -- A stored value that the predicate accepts, or the nodes nearest to the hash of the key.
  pub data AnswersValue (n : Node) (k : Key) : FindValueResult → Type 0 where
    stored :
        (v : List ℕ)
        → length k ≡ n.key_length
        → lookup k n.kept.store ≡ some v
        → n.kept.store_predicate v ≡ true
        → AnswersValue n k (value v)
    elsewhere :
        (near : List (NodeInfo × Key))
        → AreNear n k (to_hash d k) near
        → (length k ≡ n.key_length → lookup k n.kept.store ≡ none)
        → AnswersValue n k (nodes near)

  -- The reply that each request asks for.
  abbrev pub Answers : Node → Request → Reply → Type 0
  Answers n ping r = r ≡ pong
  Answers n (store k v) r = r ≡ pong
  Answers n (find_node id) r =
      (near : List (NodeInfo × Key)) × (r ≡ found_nodes near) × AreNear n id id near
  Answers n (find_value k) r =
      (res : FindValueResult) × (r ≡ found_value res) × AnswersValue n k res
  Answers n (unicast msg) r = r ≡ pong
  Answers n (broadcast msg) r = r ≡ pong
  Answers n (multicast k msg) r = r ≡ pong

  abbrev pub Good : Node → Request → Reply × Node × List Task → Type 0
  Good n req out = IsReady out.1 × (out.1.routes ≡ n.routes) × Answers n req out.0

  module _ (n : Node) (ready : IsReady n) where
    delivered : (msg : List ℕ) → IsReady (record n { delivered = n.delivered ++ msg ∷ [] })
    delivered msg = record {
      routes = ready.routes;
      routes_len = ready.routes_len;
      kept = ready.kept;
      kept_len = ready.kept_len;
      short = ready.short;
    }

    answer_store : (k : Key) (v : List ℕ) → Returns (answer d n (store k v)) (Good n (store k v))
    unfolding answer
    answer_store k v = elim (Bool-cases (n.key_length =ℕ= length k)) [
      | inr other ↦ ((pong, n, []), rw (answer, other) refl, (ready, refl, refl))
      | inl same ↦
          let fits : length k ≡ n.kept.key_len =
            sym ((=ℕ=_iff n.key_length (length k)).0 same) ∙ sym ready.kept_len in
          let ((res, kept), e, valid) = insert-IsValid n.kept k v fits ready.kept in
          (
            (pong, record n { kept = kept }, []),
            rw (answer, same, e) refl,
            (
              record {
                routes = ready.routes;
                routes_len = ready.routes_len;
                kept = valid;
                kept_len = insert-key_len n.kept k v (res, kept) e ∙ ready.kept_len;
                short = ready.short;
              },
              refl,
              refl,
            ),
          )
    ]

    answer_nodes : (id : Key) → Returns (answer d n (find_node id)) (Good n (find_node id))
    unfolding answer
    answer_nodes id = elim (Bool-cases (n.key_length =ℕ= length id)) [
      | inr other ↦ (
        (found_nodes [], n, []),
        rw (answer, other) refl,
        (
          ready,
          refl,
          ([], refl, (λ e. absurd (mismatch n.key_length (length id) other e), λ _. refl)),
        ),
      )
      | inl same ↦
          let size = sym ((=ℕ=_iff n.key_length (length id)).0 same) in
          let (near, e, closest) =
            closest_nodes-AreClosest n.routes id k_param ready.routes
              (size ∙ sym ready.routes_len) in
          (
            (found_nodes near, n, []),
            rw (answer, same, e) refl,
            (ready, refl, (near, refl, (λ _. closest, λ ne. absurd (ne size)))),
          )
    ]

    answer_value_lem :
        (k : Key)
        → length k ≡ n.key_length
        → Returns
            (answer_value d n k)
            λ r. (res : FindValueResult) × (r ≡ found_value res) × AnswersValue n k res
    unfolding answer_value get
    answer_value_lem k size =
        let fits : (n.kept.key_len =ℕ= length k) ≡ true =
          (=ℕ=_iff n.kept.key_len (length k)).1 (ready.kept_len ∙ sym size) in
        elim (Option-cases (lookup k n.kept.store)) [
          | inr (v, found) ↦
              let got : get n.kept k ≡ ok (some v) = rw (get, fits, found) refl in
              (
                found_value (value v),
                rw (answer_value, get, fits, found) refl,
                (value v, refl, stored v size found (get-IsValid n.kept k v ready.kept got)),
              )
          | inl none' ↦
              let hashed : length (to_hash d k) ≡ n.routes.key_len =
                length-to_hash d k (subst (λ m. m ≤ 64) (sym size) ready.short)
                ∙ size
                ∙ sym ready.routes_len in
              let (near, e, closest) =
                closest_nodes-AreClosest n.routes (to_hash d k) k_param ready.routes hashed in
              (
                found_value (nodes near),
                rw (answer_value, get, fits, none', e) refl,
                (
                  nodes near,
                  refl,
                  elsewhere near (λ _. closest, λ ne. absurd (ne size)) (λ _. none'),
                ),
              )
        ]

    answer-find_value : (k : Key) → Returns (answer d n (find_value k)) (Good n (find_value k))
    unfolding answer
    answer-find_value k = elim (Bool-cases (n.key_length =ℕ= length k)) [
      | inr other ↦
          let wrong = mismatch n.key_length (length k) other in
          (
            (found_value (nodes []), n, []),
            rw (answer, other) refl,
            (
              ready,
              refl,
              (
                nodes [],
                refl,
                elsewhere [] (λ e. absurd (wrong e), λ _. refl) (λ e. absurd (wrong e)),
              ),
            ),
          )
      | inl same ↦
          let size = sym ((=ℕ=_iff n.key_length (length k)).0 same) in
          let (reply, e, what) = answer_value_lem k size in
          ((reply, n, []), rw (answer, same, e) refl, (ready, refl, what))
    ]

    -- A node that is ready answers every request, as the request asks, and stays ready.
    pub answer_lem : (req : Request) → Returns (answer d n req) (Good n req)
    unfolding answer deliver
    answer_lem ping = ((pong, n, []), refl, (ready, refl, refl))
    answer_lem (store k v) = answer_store k v
    answer_lem (find_node id) = answer_nodes id
    answer_lem (find_value k) = answer-find_value k
    answer_lem (unicast msg) = (_, refl, (delivered msg, refl, refl))
    answer_lem (broadcast msg) = (_, refl, (delivered msg, refl, refl))
    answer_lem (multicast k msg) = elim (Bool-cases (is_prefix k n.node_info.id)) [
      | inl inside ↦
          let out = deliver d n msg (relay_multicast k msg) in
          ((pong, out.0, out.1), rw (answer, inside) refl, (delivered msg, refl, refl))
      | inr outside ↦ ((pong, n, []), rw (answer, outside) refl, (ready, refl, refl))
    ]
