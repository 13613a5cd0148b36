-- ===== src/Rpc.antt =====
-- src/kad/rpc.rs: requests that wait for a reply, and what the server does with one message. The
-- socket is the list of the messages that were sent; a text that is no message is not modelled.
pub mod Replies
pub mod Receiving
pub mod NodeInfos
pub mod Exchange
pub mod RoundTrip
use noktulo.Prelude.{
  not, is_empty, unwrap, true, ℕ, Bool, true, false, List, [], ◌∷◌, ◌++◌, Option, none, some, ◌==◌,
  nat_eq, list_eq, string_eq, if◌then◌else◌, length, set, take, last?, remove_at, get_elem?,
  position, Run, ok, panic, ◌>>=◌, ◌-◌,
}
use noktulo.Prelude.Assoc.{lookup, insert, remove}
use noktulo.Key.{Key}
use noktulo.Routing.{NodeInfo, SocketAddr, node_eq}
use noktulo.Node.{Request, Reply, contains}
use noktulo.ApiServer.Router.{swap_remove}

pub data Message : Type 0 where
  kill : Message
  request : Request → Message
  reply : Reply → Message

pub record RpcMessage : Type 0 where
  pub token : Key
  pub src : NodeInfo
  pub dst : NodeInfo
  pub msg : Message

-- What a node's task is given: the handle by which it replies.
pub record ReqHandle : Type 0 where
  pub token : Key
  pub src : NodeInfo
  pub req : Request

-- A channel by its number.
abbrev pub Channel : Type 0
Channel = ℕ

-- `delivered` is what was sent on the channels of `pending`, and `handed` what was sent to the nodes.
pub record Rpc : Type 0 where
  pub pending : List (Key × Channel)
  pub node_infos : List (NodeInfo × Channel)
  pub sent : List RpcMessage
  pub delivered : List (Channel × Option Reply)
  pub handed : List (Channel × ReqHandle)

unfoldable pub add : Rpc → NodeInfo → Channel → Rpc
add r node_info tx = record r { node_infos = r.node_infos ++ (node_info, tx) ∷ [] }

-- `ReqHandle::rep`
unfoldable pub rep : Rpc → ReqHandle → Reply → NodeInfo → Rpc
rep r handle answer src = record r {
  sent =
      r.sent
      ++ record { token = handle.token; src = src; dst = handle.src; msg = reply answer } ∷ [];
}

-- The loop of `send_req` over what the random generator gives: the first token that is not in use.
unfoldable pub fresh_token : List (Key × Channel) → List Key → Option Key
fresh_token pending [] = none
fresh_token pending (token ∷ tokens) =
    let rest = fresh_token pending tokens in
    elim (lookup token pending) [ none ↦ some token | some tx ↦ rest ]

abbrev pub names : List (NodeInfo × Channel) → List NodeInfo
names [] = []
names ((n, tx) ∷ rest) = n ∷ names rest

-- `send_req` with the token that the loop ended with; `tx` is the new channel.
unfoldable pub send_req : Rpc → Key → Channel → Request → NodeInfo → NodeInfo → Run Rpc
send_req r token tx req src dst =
    if contains src (names r.node_infos)
    then ok (record r {
      pending = insert token tx r.pending;
      sent = r.sent ++ record { token = token; src = src; dst = dst; msg = request req } ∷ [];
    })
    else panic

module _ (is_closed : Channel → Bool) where
  -- `tx.send(v)` on a channel of `pending`, and the removal of the token after it.
  unfoldable pub settle : Rpc → Key → Channel → Option Reply → Rpc
  settle r token tx v =
      if is_closed tx
      then r
      else record r { pending = remove token r.pending; delivered = r.delivered ++ (tx, v) ∷ [] }

  unfoldable pub handle_rep : Rpc → Key → Reply → Rpc
  handle_rep r token answer = elim (lookup token r.pending) [
    | none ↦ r
    | some tx ↦ settle r token tx (some answer)
  ]

  -- The task that `send_req` spawns, after `TIME_OUT`.
  unfoldable pub time_out : Rpc → Key → Channel → Rpc
  time_out r token tx = settle r token tx none

  -- The `match` on the message, for the node at `index`; a node whose task is gone is dropped.
  unfoldable pub dispatch : Rpc → ℕ → NodeInfo × Channel → RpcMessage → Run Rpc
  dispatch r index node m = elim m.msg [
    | kill ↦ ok r
    | request req ↦
        if is_closed node.1
        then (do
          node_infos ← swap_remove r.node_infos index
          ok (record r { node_infos = node_infos }))
        else ok (record r {
          handed = r.handed ++ (node.1, record { token = m.token; src = m.src; req = req }) ∷ [];
        })
    | reply answer ↦ ok (handle_rep r m.token answer)
  ]

  -- The message with its sender's address, `rmsg.src.addr = src_addr`.
  abbrev pub from_addr : RpcMessage → SocketAddr → RpcMessage
  from_addr m addr = record {
    token = m.token;
    src = record { id = m.src.id; addr = addr; net_id = m.src.net_id };
    dst = m.dst;
    msg = m.msg;
  }

  -- The body of the loop of `start_server` on a message, and whether the loop goes on.
  unfoldable pub receive : Rpc → SocketAddr → RpcMessage → Run (Rpc × Bool)
  receive r src_addr m =
      elim (position (λ (x : NodeInfo × Channel). x.0.id == m.dst.id) r.node_infos) [
        | none ↦ ok (r, not (is_empty r.node_infos))
        | some index ↦ do
          node ← unwrap (get_elem? r.node_infos index)
          if m.src.net_id == node.0.net_id
              then (do r' ← dispatch r index node (from_addr m src_addr); ok (r', true))
              else ok (r, true)
      ]
