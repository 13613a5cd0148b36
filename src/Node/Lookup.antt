-- ===== src/Node/Lookup.antt =====
-- What a lookup in the network returns.
use noktulo.Prelude.{
  ℕ, ◌+◌, ◌≤◌, ◌≡◌, refl, sym, ap, subst, ◌∙◌, Bool, true, false, ◌&&◌, ◌||◌, List, [], ◌∷◌, ◌++◌,
  Option, ◌=ℕ=◌, ◌==◌, Eq, list_eq, nat_eq, pair_eq, pair_beq_iff, if◌then◌else◌, length,
  length-append, take, take-all, All, All-mono, ok, >>=-eq-ok, ok_inj, Returns, arith, Bool-cases,
  Option-cases, position, assert, unwrap, get_elem?, inl, inr,
}
use noktulo.Key.{Key}
use noktulo.Routing.{
  NodeInfo, node_eq, RoutingTable, remove, remove_from, lookup_bucket_index, sort_by_distance,
  insert_by_distance, k_param, key_le,
}
use noktulo.Routing.Buckets.{IsKey, IsValid}
use noktulo.Routing.Update.{update-IsValid}
use noktulo.Routing.Remove.{remove-IsValid}
use noktulo.Routing.Order.{IsSorted, sort-IsSorted, length-sort}
use noktulo.Routing.Closest.{AreClosest, closest_nodes-keys, closest_nodes-AreClosest}
use noktulo.Node.{Request, find_node as find_node_req, Reply, Node, contains}
use noktulo.Node.Calls.{settle, nodes_of, is_some, add, find_node, query_nodes, lookup_nodes}

if_or : (b c : Bool) → (if b then true else c) ≡ (b || c)
if_or true c = refl
if_or false c = refl

if_or_swap : (a b c : Bool) → (if b then true else (a || c)) ≡ (a || (if b then true else c))
if_or_swap true true c = refl
if_or_swap true false c = refl
if_or_swap false b c = refl

or_false : (b : Bool) → b ≡ (b || false)
or_false true = refl
or_false false = refl

or_join : (r s c a : Bool) → (r || s && a || c && a) ≡ (r || (if s then true else c) && a)
or_join true s c a = refl
or_join false true c true = refl
or_join false true true false = refl
or_join false true false false = refl
or_join false false c a = refl

or_true : (b c : Bool) → c ≡ true → c ≡ (b || c)
or_true true c h = h
or_true false c h = refl

module _ {ℓ} {A : Type ℓ} ⦃e : Eq A⦄ where
  contains-append :
      (x : A) (ys zs : List A) → contains x (ys ++ zs) ≡ (contains x ys || contains x zs)
  contains-append x [] zs = refl
  contains-append x (y ∷ ys) zs = ground (arith, contains-append x ys zs)

  pub contains-add : (x y : A) (ys : List A) → contains x (add y ys) ≡ (y == x || contains x ys)
  contains-add x y ys = elim (Bool-cases (contains y ys)) [
    | inl old ↦ elim (Bool-cases (y == x)) [
      | inl same ↦
          let here : contains x ys ≡ true =
            subst (λ z. contains z ys ≡ true) ((e.test_iff y x).0 same) old in
          rw old (or_true (y == x) (contains x ys) here)
      | inr other ↦ rw (old, other) refl
    ]
    | inr new ↦ rw new (contains-append x ys (y ∷ []) ∙ ground arith)
  ]

  length-add : (y : A) (ys : List A) → length (add y ys) ≤ length ys + 1
  length-add y ys = ground (arith, length-append ys (y ∷ []))

contains-insert :
    (x y : NodeInfo × Key) (ys : List (NodeInfo × Key))
    → contains x (insert_by_distance y ys) ≡ (y == x || contains x ys)
unfolding insert_by_distance
contains-insert x y [] = ground arith
contains-insert x y (z ∷ zs) = elim (Bool-cases (key_le y.1 z.1)) [
  | inl le ↦ rw le (if_or (y == x) (contains x (z ∷ zs)))
  | inr gt ↦ rw gt (
      ap (λ b. if z == x then true else b) (contains-insert x y zs)
      ∙ if_or_swap (y == x) (z == x) (contains x zs))
]

contains-sort :
    (x : NodeInfo × Key) (ys : List (NodeInfo × Key))
    → contains x (sort_by_distance ys) ≡ contains x ys
unfolding sort_by_distance
contains-sort x [] = refl
contains-sort x (y ∷ ys) =
    contains-insert x y (sort_by_distance ys)
    ∙ ap (λ b. y == x || b) (contains-sort x ys)
    ∙ sym (if_or (y == x) (contains x ys))

remove_from-key_len :
    (t : RoutingTable) (n : NodeInfo) (i : ℕ) (b : List NodeInfo)
    → (remove_from t n i b).key_len ≡ t.key_len
unfolding remove_from
remove_from-key_len t n i b = elim (Option-cases (position (λ x. x == n) b)) [
  | inl none' ↦ rw (remove_from, none') refl
  | inr (j, found) ↦ rw (remove_from, found) refl
]

-- The length of a table's keys stays through a removal.
remove-key_len : (t r : RoutingTable) (n : NodeInfo) → remove t n ≡ ok r → r.key_len ≡ t.key_len
unfolding remove
remove-key_len t r n e =
    let (_, _, at_index) = >>=-eq-ok (assert (t.key_len =ℕ= length n.id)) _ e in
    let (i, _, at_bucket) = >>=-eq-ok (lookup_bucket_index t n.id) _ at_index in
    let (b, _, removed) = >>=-eq-ok (unwrap (get_elem? t.buckets i)) _ at_bucket in
    sym (ap (λ (u : RoutingTable). u.key_len) (ok_inj removed)) ∙ remove_from-key_len t n i b

pub settle-IsValid :
    (b : Bool) (t : RoutingTable) (dst : NodeInfo)
    → IsValid t
    → IsKey t.key_len dst.id
    → Returns (settle b t dst) λ t'. IsValid t' × (t'.key_len ≡ t.key_len)
unfolding settle
settle-IsValid true t dst v k =
    let ((full, t'), e, (v', updates)) = update-IsValid t dst v k in
    (t', rw (settle, e) refl, (v', ap (λ (u : RoutingTable). u.key_len) updates.table))
settle-IsValid false t dst v k =
    let (t', e, (v', absent)) = remove-IsValid t dst v k in (t', e, (v', remove-key_len t t' dst e))

module _ (rpc : NodeInfo → Request → Option Reply) where
  -- The destination answers a query for the id with nodes.
  abbrev pub answers : Key → NodeInfo × Key → Bool
  answers id entry = is_some (nodes_of (rpc entry.0 (find_node_req id)))

  abbrev pub HasKey : ℕ → NodeInfo × Key → Type 0
  HasKey len entry = IsKey len entry.0.id

  -- After the queries the set holds what it held before and the entries that answered.
  abbrev Queried :
      Node
      → Key
      → List (NodeInfo × Key)
      → List (NodeInfo × Key)
      → List (NodeInfo × Key) × Node
      → Type 0
  Queried n id queries ret out =
      IsValid out.1.routes
      × (out.1.routes.key_len ≡ n.routes.key_len)
      × ((x : NodeInfo × Key)
          → contains x out.0 ≡ (contains x ret || (contains x queries && answers id x)))
      × (length out.0 ≤ length ret + length queries)

  contains-kept :
      (id : Key) (x q : NodeInfo × Key) (ret : List (NodeInfo × Key))
      → contains x (if answers id q then add q ret else ret)
        ≡ (contains x ret || q == x && answers id x)
  contains-kept id x q ret = elim (Bool-cases (q == x)) [
    | inl same ↦
        let eq : q ≡ x = (pair_beq_iff q x).0 same in
        elim (Bool-cases (answers id q)) [
          | inl yes' ↦
              let ax = subst (λ z. answers id z ≡ true) eq yes' in
              ground (arith, contains-add x q ret, ax)
          | inr no' ↦ let ax = subst (λ z. answers id z ≡ false) eq no' in ground (arith, ax)
        ]
    | inr other ↦ ground (arith, contains-add x q ret, or_false (contains x ret))
  ]

  length-kept :
      (id : Key) (q : NodeInfo × Key) (ret : List (NodeInfo × Key))
      → length (if answers id q then add q ret else ret) ≤ length ret + 1
  length-kept id q ret = elim (Bool-cases (answers id q)) [
    | inl yes' ↦ rw yes' (length-add q ret)
    | inr no' ↦ rw no' (omega arith)
  ]

  pub query_nodes-Queried :
      (n : Node) (id : Key) (queries ret : List (NodeInfo × Key))
      → IsValid n.routes
      → All (HasKey n.routes.key_len) queries
      → Returns (query_nodes rpc n id queries ret) (Queried n id queries ret)
  unfolding query_nodes find_node
  query_nodes-Queried n id [] ret v k =
      ((ret, n), refl, (v, refl, λ x. or_false (contains x ret), omega arith))
  query_nodes-Queried n id (q ∷ queries) ret v k =
      let (routes, e, (v', same)) = settle-IsValid (answers id q) n.routes q.0 v k.0 in
      let n' : Node = record n { routes = routes } in
      let ret' = if answers id q then add q ret else ret in
      let ((out, m), rest, (valid, len, holds, size)) =
        query_nodes-Queried n' id queries ret' v'
          (subst (λ l. All (HasKey l) queries) (sym same) k.1) in
      (
        (out, m),
        rw (query_nodes, find_node, e) rest,
        (
          valid,
          len ∙ same,
          λ x.
              holds x
              ∙ ap (λ b. b || contains x queries && answers id x) (contains-kept id x q ret)
              ∙ or_join (contains x ret) (q == x) (contains x queries) (answers id x),
          omega (arith, size, length-kept id q ret),
        ),
      )

  -- On a well-formed table and an id of its length lookup_nodes returns, keeps the table well-
  -- formed, and yields, sorted by distance, exactly those of the at most eight closest nodes of
  -- the table that answered the query.
  pub lookup_nodes-IsValid :
      (n : Node) (id : Key)
      → IsValid n.routes
      → length id ≡ n.routes.key_len
      → Returns (lookup_nodes rpc n id) λ out.
        IsValid out.1.routes
        × (out.1.routes.key_len ≡ n.routes.key_len)
        × IsSorted out.0
        × (closest : List (NodeInfo × Key)) × AreClosest n.routes id k_param closest
        × ((x : NodeInfo × Key) → contains x out.0 ≡ (contains x closest && answers id x))
  unfolding lookup_nodes
  lookup_nodes-IsValid n id v size =
      let (near, e, closest) = closest_nodes-AreClosest n.routes id k_param v size in
      let keys = closest_nodes-keys n.routes id k_param near v size e in
      let few : length near ≤ k_param = omega (arith, closest.3) in
      let ((ret, n'), ran, (v', same, holds, bound)) =
        query_nodes-Queried n id near [] v (All-mono _ _ near (λ x h. h.0) keys) in
      let sorted = sort_by_distance ret in
      let all : take k_param sorted ≡ sorted =
        take-all k_param sorted (omega (arith, length-sort ret, bound, few)) in
      (
        (take k_param sorted, n'),
        rw (lookup_nodes, e, ran) refl,
        (
          v',
          same,
          rw all (sort-IsSorted ret),
          near,
          closest,
          λ x. rw all (contains-sort x ret ∙ holds x),
        ),
      )
