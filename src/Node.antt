-- ===== src/Node.antt =====
-- src/kad/node.rs: a node's state, and its answer to one request. Tasks that a handler starts, and
-- that run later, are values.
pub mod Calls
pub mod Requests
pub mod Handler
pub mod Lookup
pub mod Targets
pub mod Values
pub mod Broadcast
pub mod Multicast
pub mod Start
pub mod Serve
pub mod Put
use noktulo.Prelude.{
  ℕ, Bool, true, false, not, List, [], ◌∷◌, ◌++◌, Option, none, some, ◌=ℕ=◌, ◌==◌, Eq, nat_eq,
  list_eq, if◌then◌else◌, length, Run, ok, panic, ◌>>=◌,
}
use noktulo.Digests.{Digests}
use noktulo.Key.{Key, hash, to_hash, is_prefix}
use noktulo.Store.{Store, insert, get}
use noktulo.Routing.{NodeInfo, RoutingTable, update, closest_nodes, k_param}

pub data Request : Type 0 where
  ping : Request
  store : Key → List ℕ → Request
  find_node find_value : Key → Request
  unicast broadcast : List ℕ → Request
  multicast : Key → List ℕ → Request

pub data FindValueResult : Type 0 where
  nodes : List (NodeInfo × Key) → FindValueResult
  value : List ℕ → FindValueResult

pub data Reply : Type 0 where
  pong : Reply
  found_nodes : List (NodeInfo × Key) → Reply
  found_value : FindValueResult → Reply

-- What a handler spawns: the ping of a full bucket's first node, with the sender that may take its
-- place, a relay, and the removal of a token after `BROADCAST_TIME_OUT`.
pub data Task : Type 0 where
  ping_first : (first src : NodeInfo) → Task
  relay_broadcast : List ℕ → Task
  relay_multicast : Key → List ℕ → Task
  forget_token : Key → Task

-- `delivered` is what was given to `tx`, in order; a dead receiver is only logged.
pub record Node : Type 0 where
  pub key_length : ℕ
  pub routes : RoutingTable
  pub kept : Store
  pub broadcast_tokens : List Key
  pub node_info : NodeInfo
  pub delivered : List (List ℕ)

-- `HashSet::contains`
abbrev pub contains {ℓ} : {A : Type ℓ} ⦃e : Eq A⦄ → A → List A → Bool
contains x [] = false
contains x (y ∷ ys) = let rest = contains x ys in if y == x then true else rest

-- `TOKEN_KEY_LEN`
abbrev pub token_key_len : ℕ
token_key_len = 20

module _ (d : Digests) where
  -- Delivery of a broadcast or multicast message, and its relay unless it was seen before.
  unfoldable pub deliver : Node → List ℕ → Task → Node × List Task
  deliver n msg relay =
      let token = hash d msg token_key_len in
      (
        record n { delivered = n.delivered ++ msg ∷ [] },
        if contains token n.broadcast_tokens then [] else relay ∷ forget_token token ∷ [],
      )

  -- `FindValue` with a key of the right length.
  unfoldable pub answer_value : Node → Key → Run Reply
  answer_value n k = do
    v ← get n.kept k
    elim v [
      | some bytes ↦ ok (found_value (value bytes))
      | none ↦ do near ← closest_nodes n.routes (to_hash d k) k_param; ok (found_value (nodes near))
    ]

  -- The `match` of `handle_req`.
  unfoldable pub answer : Node → Request → Run (Reply × Node × List Task)
  answer n ping = ok (pong, n, [])
  answer n (store k v) =
      if n.key_length =ℕ= length k
      then (do (_, kept) ← insert n.kept k v; ok (pong, record n { kept = kept }, []))
      else ok (pong, n, [])
  answer n (find_node id) =
      if n.key_length =ℕ= length id
      then (do near ← closest_nodes n.routes id k_param; ok (found_nodes near, n, []))
      else ok (found_nodes [], n, [])
  answer n (find_value k) =
      if n.key_length =ℕ= length k
      then (do reply ← answer_value n k; ok (reply, n, []))
      else ok (found_value (nodes []), n, [])
  answer n (unicast msg) = ok (pong, record n { delivered = n.delivered ++ msg ∷ [] }, [])
  answer n (broadcast msg) =
      let (n', tasks) = deliver n msg (relay_broadcast msg) in ok (pong, n', tasks)
  answer n (multicast k msg) =
      let (n', tasks) = deliver n msg (relay_multicast k msg) in
      if is_prefix k n.node_info.id then ok (pong, n', tasks) else ok (pong, n, [])

  -- What the update of the routes asks for.
  abbrev pub ping_task : Option NodeInfo → NodeInfo → List Task
  ping_task none src = []
  ping_task (some first) src = ping_first first src ∷ []

  unfoldable pub handle_req : Node → Request → NodeInfo → Run (Reply × Node × List Task)
  handle_req n req src = do
    (full, routes) ← update n.routes src
    (reply, n', tasks) ← answer (record n { routes = routes }) req
    ok (reply, n', ping_task full src ++ tasks)
