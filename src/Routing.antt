-- ===== src/Routing.antt =====
-- src/kad/routing.rs: the routing table, a list of buckets of at most `K_PARAM` nodes.
pub mod Order
pub mod Buckets
pub mod Update
pub mod Remove
pub mod Closest
use mathlib.Core.List.{flatten, head?}
use text.Mathlib.TextEquality.{eq_iff}
use noktulo.Prelude.{
  ℕ, ◌*◌, ◌≡◌, ◌↔◌, Bool, true, false, ◌&&◌, List, [], ◌∷◌, ◌++◌, Option, none, some, ltb, leb,
  ◌=ℕ=◌, ◌==◌, Eq, nat_eq, list_eq, string_eq, list_beq_iff, =ℕ=_iff, if◌then◌else◌, length,
  get_elem?, set, take, replicate, position, remove_at, String, Run, ok, panic, assert, unwrap,
  ◌>>=◌, ◌>>◌, arith,
}
use noktulo.Key.{Key, xor, zeroes_in_prefix}

-- `SocketAddr`: the octets of the address, and the port.
pub record SocketAddr : Type 0 where
  pub ip : List ℕ
  pub port : ℕ

pub record NodeInfo : Type 0 where
  pub id : Key
  pub addr : SocketAddr
  pub net_id : String

abbrev pub node_beq : NodeInfo → NodeInfo → Bool
node_beq a b =
    a.id == b.id && a.addr.ip == b.addr.ip && a.addr.port == b.addr.port && a.net_id == b.net_id

pub node_beq_iff : (a b : NodeInfo) → (node_beq a b ≡ true) ↔ (a ≡ b)
node_beq_iff a b = ground (
  arith,
  list_beq_iff a.id b.id,
  list_beq_iff a.addr.ip b.addr.ip,
  =ℕ=_iff a.addr.port b.addr.port,
  eq_iff a.net_id b.net_id,
)

instance abbrev pub node_eq : Eq NodeInfo
node_eq = record { test = node_beq; test_iff = node_beq_iff }

pub record RoutingTable : Type 0 where
  pub key_len : ℕ
  pub node_info : NodeInfo
  pub buckets : List (List NodeInfo)

-- `K_PARAM`
abbrev pub k_param : ℕ
k_param = 8

unfoldable pub lookup_bucket_index : RoutingTable → Key → Run ℕ
lookup_bucket_index t item = do d ← xor t.node_info.id item; zeroes_in_prefix d

-- The `match` of `update` on one bucket: the node to ping, if the bucket is full, and the bucket.
unfoldable pub update_bucket : List NodeInfo → NodeInfo → Run (Option NodeInfo × List NodeInfo)
update_bucket bucket node_info = elim (position (λ (x : NodeInfo). x.id == node_info.id) bucket) [
  | some i ↦ do tmp ← unwrap (get_elem? bucket i); ok (none, remove_at i bucket ++ tmp ∷ [])
  | none ↦
      if ltb (length bucket) k_param
      then ok (none, bucket ++ node_info ∷ [])
      else (do first ← unwrap (head? bucket); ok (some first, bucket))
]

unfoldable pub update : RoutingTable → NodeInfo → Run (Option NodeInfo × RoutingTable)
update t node_info = do
  assert (t.key_len =ℕ= length node_info.id)
  index ← lookup_bucket_index t node_info.id
  bucket ← unwrap (get_elem? t.buckets index)
  (full, bucket') ← update_bucket bucket node_info
  ok (full, record t { buckets = set t.buckets index bucket' })

unfoldable pub new : NodeInfo → ℕ → Run RoutingTable
new node_info key_len = do
  assert (length node_info.id =ℕ= key_len)
  let t : RoutingTable = record {
    key_len = key_len;
    node_info = node_info;
    buckets = replicate (key_len * 8) [];
  }
  (_, t') ← update t node_info
  ok t'

-- The two loops of `closest_nodes`: each node with its distance.
unfoldable pub with_distances : Key → List NodeInfo → Run (List (NodeInfo × Key))
with_distances item [] = ok []
with_distances item (n ∷ ns) = do
  d ← xor n.id item
  rest ← with_distances item ns
  ok ((n, d) ∷ rest)

-- `Ord` on byte vectors: lexicographic.
unfoldable pub key_le : Key → Key → Bool
key_le [] b = true
key_le (x ∷ xs) [] = false
key_le (x ∷ xs) (y ∷ ys) = if ltb x y then true else if ltb y x then false else key_le xs ys

-- `sort_by` on the distance. The library's sort is stable, and so is this one.
unfoldable pub insert_by_distance : NodeInfo × Key → List (NodeInfo × Key) → List (NodeInfo × Key)
insert_by_distance x [] = x ∷ []
insert_by_distance x (y ∷ ys) = if key_le x.1 y.1 then x ∷ y ∷ ys else y ∷ insert_by_distance x ys

unfoldable pub sort_by_distance : List (NodeInfo × Key) → List (NodeInfo × Key)
unfolding insert_by_distance
sort_by_distance [] = []
sort_by_distance (x ∷ xs) = insert_by_distance x (sort_by_distance xs)

unfoldable pub closest_nodes : RoutingTable → Key → ℕ → Run (List (NodeInfo × Key))
closest_nodes t item count = do
  assert (t.key_len =ℕ= length item)
  if count =ℕ= 0 then ok [] else (do
    ret ← with_distances item (flatten t.buckets)
    ok (take count (sort_by_distance ret)))

-- The `if let` of `remove`; a node that is not in the table is a warning only.
unfoldable pub remove_from : RoutingTable → NodeInfo → ℕ → List NodeInfo → RoutingTable
remove_from t node_info index bucket = elim (position (λ x. x == node_info) bucket) [
  | some i ↦ record t { buckets = set t.buckets index (remove_at i bucket) }
  | none ↦ t
]

unfoldable pub remove : RoutingTable → NodeInfo → Run RoutingTable
remove t node_info = do
  assert (t.key_len =ℕ= length node_info.id)
  index ← lookup_bucket_index t node_info.id
  bucket ← unwrap (get_elem? t.buckets index)
  ok (remove_from t node_info index bucket)
