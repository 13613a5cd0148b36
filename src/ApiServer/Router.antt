-- ===== src/ApiServer/Router.antt =====
-- src/api_server/subscription_router.rs: which clients get the posts of which address. The nodes that
-- `Subscriber` of src/service/network.rs keeps for the addresses are part of the state.
use noktulo.Prelude.{
  ℕ, suc, not, List, [], ◌∷◌, ◌++◌, Option, none, some, ltb, ◌=ℕ=◌, ◌-◌, nat_eq, list_eq,
  if◌then◌else◌, length, set, take, last?, filter, is_empty, Run, ok, panic, unwrap, ◌>>=◌, Result,
  okay, err,
}
use noktulo.Prelude.Assoc.{lookup, insert, remove}
use noktulo.Key.{Key, resize_with_random}
use noktulo.Address.{Address}
use noktulo.Post.{SignedPost, addr_of}
use noktulo.ApiServer.{Sender, Channels, SendError, subscribed, text, send}

-- `PUBSUB_DHT_KEY_LENGTH`
abbrev pub pubsub_dht_key_length : ℕ
pubsub_dht_key_length = 64

-- `nodes` is the subscriber's map, with the id of each node.
pub record Router : Type 0 where
  pub routing_map : List (Address × List Sender)
  pub nodes : List (Address × Key)

unfoldable pub new : Router
new = record { routing_map = []; nodes = [] }

-- `Subscriber::subscribe`; `fill` gives the random bytes.
unfoldable pub start_subscription :
    (ℕ → List ℕ) → List (Address × Key) → Address → Run (List (Address × Key))
start_subscription fill nodes addr = do
  id ← resize_with_random fill addr pubsub_dht_key_length
  ok (elim (lookup addr nodes) [ none ↦ insert addr id nodes | some other ↦ nodes ])

-- `Subscriber::stop_subscription`
unfoldable pub stop_subscription : List (Address × Key) → Address → List (Address × Key)
stop_subscription nodes addr = remove addr nodes

-- `entry(addr).or_insert(Vec::new())`
abbrev pub senders_of : Option (List Sender) → List Sender
senders_of none = []
senders_of (some v) = v

unfoldable pub subscribe : (ℕ → List ℕ) → Router → Address → Sender → Run Router
subscribe fill r addr tx = do
  let routing_map = insert addr (senders_of (lookup addr r.routing_map) ++ tx ∷ []) r.routing_map
  nodes ← start_subscription fill r.nodes addr
  ok (record { routing_map = routing_map; nodes = nodes })

-- The body of `unsubscribe` on the senders of the address.
unfoldable pub unsubscribe_from : Router → Address → List Sender → Router
unsubscribe_from r addr v =
    if is_empty v
    then record { routing_map = remove addr r.routing_map; nodes = stop_subscription r.nodes addr }
    else record r { routing_map = insert addr v r.routing_map }

unfoldable pub unsubscribe : Router → Address → Sender → Router
unsubscribe r addr tx = elim (lookup addr r.routing_map) [
  | none ↦ r
  | some v ↦ unsubscribe_from r addr (filter (λ e. not (e =ℕ= tx)) v)
]

-- The `if let Err(_)` of the first loop of `start`: what `tx.send` returned, and the later rounds.
abbrev pub recorded : ℕ → Result (Unit {0}) SendError → Channels × List ℕ → Channels × List ℕ
recorded i (okay u) rest = rest
recorded i (err e) rest = (rest.0, i ∷ rest.1)

-- That loop from index `i`: the channels after it, and `remove_list`.
unfoldable pub send_to_all : Channels → ℕ → List Sender → SignedPost → Channels × List ℕ
send_to_all c i [] p = (c, [])
send_to_all c i (tx ∷ txs) p =
    let (r, c') = send c tx (text (subscribed p)) in recorded i r (send_to_all c' (suc i) txs p)

-- `Vec::swap_remove` panics out of range.
unfoldable pub swap_remove {ℓ} : {A : Type ℓ} → List A → ℕ → Run (List A)
swap_remove v i = do
  last ← unwrap (last? v)
  if ltb i (length v) then ok (take (length v - 1) (set v i last)) else panic

unfoldable pub remove_all {ℓ} : {A : Type ℓ} → List A → List ℕ → Run (List A)
remove_all v [] = ok v
remove_all v (i ∷ is') = do v' ← swap_remove v i; remove_all v' is'

-- The `Ok(msg)` branch of the loop of `start`.
unfoldable pub deliver : Channels → Router → SignedPost → Run (Channels × Router)
deliver c r msg = elim (lookup (addr_of msg) r.routing_map) [
  | none ↦ ok (c, r)
  | some v ↦
      let (c', remove_list) = send_to_all c 0 v msg in
      (do
        v' ← remove_all v remove_list
        ok (c', record r { routing_map = insert (addr_of msg) v' r.routing_map }))
]

-- `RecvError`
pub data RecvError : Type 0 where
  closed : RecvError
  lagged : ℕ → RecvError

-- The loop of `start`, over what the receiver yields.
unfoldable pub receive_loop :
    List (Result SignedPost RecvError) → Channels → Router → Run (Channels × Router)
unfolding deliver
receive_loop [] c r = ok (c, r)
receive_loop (okay msg ∷ rest) c r = do (c', r') ← deliver c r msg; receive_loop rest c' r'
receive_loop (err closed ∷ rest) c r = ok (c, r)
receive_loop (err (lagged n) ∷ rest) c r = receive_loop rest c r
