-- ===== src/Tests/Network.antt =====
-- A node with keys of one byte, in a network of which one node answers.
use noktulo.Prelude.{
  ℕ, true, ◌≡◌, refl, ◌&&◌, List, [], ◌∷◌, ◌++◌, Option, none, some, list_eq, nat_eq, pair_eq,
  filter, ok, ◌>>=◌, Returns, arith,
}
use noktulo.Digests.{checksums}
use noktulo.Key.{Key, hash, resize, xor_bytes}
use noktulo.Routing.{NodeInfo, node_eq, k_param}
use noktulo.Routing.Buckets.{IsValid}
use noktulo.Routing.Order.{IsSorted}
use noktulo.Routing.Update.{Updates}
use noktulo.Routing.Closest.{AreClosest}
use noktulo.Node.{
  Request, ping, store, find_node, find_value, unicast, broadcast, multicast, Reply, found_nodes,
  found_value, value, pong, Task, Node, contains, token_key_len, ping_task, handle_req,
}
use noktulo.Node.Requests.{IsReady, Answers}
use noktulo.Node.Handler.{handle_req-Answers, handle_req-stored}
use noktulo.Node.Calls.{lookup_nodes, targets}
use noktulo.Node.Lookup.{answers, lookup_nodes-IsValid}
use noktulo.Node.Calls.{add}
use noktulo.Node.Calls
use noktulo.Node.Broadcast
use noktulo.Node.Broadcast.{others, acknowledges, broadcast-IsValid}
use noktulo.Node.Multicast.{reached, multicast-IsValid}
use noktulo.Tests.Tables.{node, table, table-IsValid, small_values}

abbrev pub this_node : Node
this_node = record {
  key_length = 1;
  routes = table;
  kept = small_values;
  broadcast_tokens = [];
  node_info = node 0x10;
  delivered = [];
}

pub this_node-IsReady : IsReady this_node
this_node-IsReady = record {
  routes = table-IsValid;
  routes_len = refl;
  kept = tt;
  kept_len = refl;
  short = omega arith;
}

handle_req-Answers_example :
    Returns (handle_req checksums this_node (find_node (5 ∷ [])) (node 0x30)) λ out.
      (full : Option NodeInfo) × (more : List Task) × IsReady out.1
      × Updates table (node 0x30) (full, out.1.routes)
      × Answers checksums (record this_node { routes = out.1.routes }) (find_node (5 ∷ [])) out.0
      × (out.2 ≡ ping_task checksums full (node 0x30) ++ more)
handle_req-Answers_example =
    handle_req-Answers checksums this_node this_node-IsReady (node 0x30) (refl, (omega arith, tt))
      (find_node (5 ∷ []))

handle_req-stored_example :
    Returns
      (handle_req checksums this_node (store (5 ∷ []) (1 ∷ [])) (node 0x30) >>= λ out.
        handle_req checksums out.1 (find_value (5 ∷ [])) (node 0x31))
      λ out. out.0 ≡ found_value (value (1 ∷ []))
handle_req-stored_example =
    handle_req-stored checksums this_node (node 0x30) (node 0x31) (5 ∷ []) (1 ∷ [])
      this_node-IsReady (refl, (omega arith, tt)) (refl, (omega arith, tt)) refl refl

-- The node itself answers queries.
abbrev replies : NodeInfo → Request → Option Reply
replies n (find_node id) = some (found_nodes [])
replies n (find_value k) = some (found_value (value (1 ∷ [])))
replies n ping = some pong
replies n (store k v) = some pong
replies n (unicast msg) = none
replies n (broadcast msg) = some pong
replies n (multicast k msg) = some pong

lookup_nodes-IsValid_example : Returns (lookup_nodes replies this_node (5 ∷ [])) λ out.
    IsValid out.1.routes
    × (out.1.routes.key_len ≡ 1)
    × IsSorted out.0
    × (closest : List (NodeInfo × Key)) × AreClosest table (5 ∷ []) k_param closest
    × ((x : NodeInfo × Key) → contains x out.0 ≡ (contains x closest && answers replies (5 ∷ []) x))
lookup_nodes-IsValid_example = lookup_nodes-IsValid replies this_node (5 ∷ []) table-IsValid refl

-- Ids of two bytes, and a prefix of one.
abbrev wide : ℕ → ℕ → NodeInfo × Key
wide a b = (
  record {
    id = a ∷ b ∷ [];
    addr = record { ip = 127 ∷ 0 ∷ 0 ∷ 1 ∷ []; port = 6270 };
    net_id = "n";
  },
  xor_bytes (a ∷ b ∷ []) (resize (7 ∷ []) 2),
)

-- A node that has another node in its table.
abbrev neighbour : Node
neighbour = record this_node { node_info = node 0x11 }

broadcast-IsValid_example :
    Returns (Broadcast.broadcast replies checksums neighbour (1 ∷ [])) λ out.
      IsValid out.1.routes
      × (out.0 ≡ filter (acknowledges replies (1 ∷ [])) (others neighbour))
      × (contains (hash checksums (1 ∷ []) token_key_len) out.1.broadcast_tokens ≡ true)
broadcast-IsValid_example = broadcast-IsValid replies checksums neighbour (1 ∷ []) table-IsValid

multicast-IsValid_example : Returns (Calls.multicast replies checksums this_node [] (1 ∷ [])) λ out.
    IsValid out.1.routes
    × (near : List (NodeInfo × Key)) × ((lookup_nodes replies
            (record this_node { broadcast_tokens = add (hash checksums (1 ∷ []) token_key_len) [] })
            (resize [] 1)
          >>= λ looked. ok looked.0)
        ≡ ok near)
    × (out.0 ≡ reached replies [] (1 ∷ []) near)
multicast-IsValid_example =
    multicast-IsValid replies checksums this_node [] (1 ∷ []) table-IsValid refl tt (omega arith)
