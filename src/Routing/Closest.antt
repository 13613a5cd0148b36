-- ===== src/Routing/Closest.antt =====
-- `closest_nodes` returns the nodes of the table that are closest to the item.
use mathlib.Core.List.{flatten, Perm}
use noktulo.Prelude.{
  ℕ, suc, min, ◌≡◌, refl, sym, ◌∙◌, true, List, [], ◌∷◌, ◌++◌, map, some, ◌=ℕ=◌, =ℕ=_iff, length,
  length-take, length-map, All, All-mono, All-append, get_elem?, take, drop, take-append-drop, ok,
  ok_inj, All-take, Returns, arith, Bool-cases, inl, inr,
}
use noktulo.Key.{Key, xor_bytes}
use noktulo.Key.Distance.{xor_lem}
use noktulo.Routing.{
  NodeInfo, RoutingTable, with_distances, sort_by_distance, insert_by_distance, key_le,
  closest_nodes,
}
use noktulo.Routing.Buckets.{IsKey, IsEntry, IsValid}
use noktulo.Routing.Order.{IsSorted, sort-IsSorted, sort-perm, length-sort}

-- Every node of the table with its distance to the item.
abbrev pub distances : Key → List NodeInfo → List (NodeInfo × Key)
distances item = map λ (n : NodeInfo). (n, xor_bytes n.id item)

with_distances_lem :
    (len : ℕ) (item : Key) (ns : List NodeInfo)
    → length item ≡ len
    → All (λ (n : NodeInfo). IsKey len n.id) ns
    → with_distances item ns ≡ ok (distances item ns)
unfolding with_distances
with_distances_lem len item [] h k = refl
with_distances_lem len item (n ∷ ns) h k =
    rw (xor_lem n.id item (k.0.0 ∙ sym h), with_distances_lem len item ns h k.1)

-- All nodes of a list of buckets, if each bucket's are.
flatten-All {κ} :
    (P : NodeInfo → Type κ) (bs : List (List NodeInfo))
    → ((i : ℕ) (b : List NodeInfo) → get_elem? bs i ≡ some b → All P b)
    → All P (flatten bs)
unfolding flatten
flatten-All P [] h = tt
flatten-All P (b ∷ bs) h =
    All-append P b (flatten bs) (h 0 b refl) (flatten-All P bs (λ i. h (suc i)))

pub IsValid-keys :
    (t : RoutingTable)
    → IsValid t
    → All (λ (n : NodeInfo). IsKey t.key_len n.id) (flatten t.buckets)
IsValid-keys t v =
    flatten-All (λ (n : NodeInfo). IsKey t.key_len n.id) t.buckets
      λ i b e.
        All-mono (IsEntry t.key_len t.node_info.id i) _ b (λ x h. h.0) (v.placed i b e).entries

-- `near` is the start of a sorted list of all nodes with their distances, as long as asked for.
abbrev pub AreClosest : RoutingTable → Key → ℕ → List (NodeInfo × Key) → Type 0
AreClosest t item count near =
    (far : List (NodeInfo × Key)) × Perm (near ++ far) (distances item (flatten t.buckets))
    × IsSorted (near ++ far)
    × (length near ≡ min count (length (flatten t.buckets)))

-- On a well-formed table and a key of its length, closest_nodes returns the count nodes of the
-- table that are closest to the key by XOR distance, sorted by it, and all nodes if there are
-- fewer.
pub closest_nodes-AreClosest :
    (t : RoutingTable) (item : Key) (count : ℕ)
    → IsValid t
    → length item ≡ t.key_len
    → Returns (closest_nodes t item count) (AreClosest t item count)
unfolding closest_nodes
closest_nodes-AreClosest t item count v k =
    let all = distances item (flatten t.buckets) in
    let sorted = sort_by_distance all in
    let size : (t.key_len =ℕ= length item) ≡ true = (=ℕ=_iff _ _).1 (sym k) in
    elim (Bool-cases (count =ℕ= 0)) [
      | inl e ↦ ([], rw (size, e), (sorted, sort-perm all, sort-IsSorted all, ground arith))
      | inr e ↦ (
        take count sorted,
        rw (size, e, with_distances_lem t.key_len item _ k (IsValid-keys t v)),
        (
          drop count sorted,
          rw (take-append-drop count sorted) (sort-perm all),
          rw (take-append-drop count sorted) (sort-IsSorted all),
          omega (
            arith,
            length-take count sorted,
            length-sort all,
            length-map {B = NodeInfo × Key} (λ n. (n, xor_bytes n.id item)) (flatten t.buckets),
          ),
        ),
      )
    ]

-- A key of the table's length, and the distance of it to the item.
abbrev pub IsMeasured : ℕ → Key → NodeInfo × Key → Type 0
IsMeasured len item e = IsKey len e.0.id × (e.1 ≡ xor_bytes e.0.id item)

insert-All :
    (P : NodeInfo × Key → Type 0) (x : NodeInfo × Key) (ys : List (NodeInfo × Key))
    → P x
    → All P ys
    → All P (insert_by_distance x ys)
unfolding insert_by_distance
insert-All P x [] p h = (p, tt)
insert-All P x (y ∷ ys) p h = elim (Bool-cases (key_le x.1 y.1)) [
  | inl e ↦ rw e (p, h)
  | inr e ↦ rw e (h.0, insert-All P x ys p h.1)
]

pub sort-All :
    (P : NodeInfo × Key → Type 0) (xs : List (NodeInfo × Key))
    → All P xs
    → All P (sort_by_distance xs)
unfolding sort_by_distance
sort-All P [] h = tt
sort-All P (x ∷ xs) h = insert-All P x (sort_by_distance xs) h.0 (sort-All P xs h.1)

distances-All :
    (len : ℕ) (item : Key) (ns : List NodeInfo)
    → All (λ (n : NodeInfo). IsKey len n.id) ns
    → All (IsMeasured len item) (distances item ns)
distances-All len item [] h = tt
distances-All len item (n ∷ ns) h = ((h.0, refl), distances-All len item ns h.1)

-- Whatever `closest_nodes` returns has keys of the table's length, and their distances.
pub closest_nodes-keys :
    (t : RoutingTable) (item : Key) (count : ℕ) (near : List (NodeInfo × Key))
    → IsValid t
    → length item ≡ t.key_len
    → closest_nodes t item count ≡ ok near
    → All (IsMeasured t.key_len item) near
unfolding closest_nodes
closest_nodes-keys t item count near v k e =
    let all = distances item (flatten t.buckets) in
    let measured = distances-All t.key_len item (flatten t.buckets) (IsValid-keys t v) in
    let size : (t.key_len =ℕ= length item) ≡ true = (=ℕ=_iff _ _).1 (sym k) in
    elim (Bool-cases (count =ℕ= 0)) [
      | inl none' ↦
          let nil : [] ≡ near = ok_inj (rw (closest_nodes, size, none') at e) in rw (sym nil) tt
      | inr some' ↦
          let taken : take count (sort_by_distance all) ≡ near = ok_inj (
            rw
              (closest_nodes, size, some', with_distances_lem t.key_len item _ k (IsValid-keys t v))
              at e) in
          rw (sym taken) (
            All-take (IsMeasured t.key_len item) count (sort_by_distance all)
              (sort-All _ all measured))
    ]
