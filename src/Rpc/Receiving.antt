-- ===== src/Rpc/Receiving.antt =====
-- What the server does with a message that arrives.
use noktulo.Prelude.{
  ℕ, ◌≡◌, Bool, true, false, not, some, ◌==◌, nat_eq, list_eq, string_eq, is_empty, get_elem?, All,
  ok,
}
use noktulo.Routing.{NodeInfo, SocketAddr}
use noktulo.Rpc.{Rpc, RpcMessage, Channel, dispatch, from_addr}

module _ (is_closed : Channel → Bool) where
  -- What happens to a message: no node has the id of its destination, or the first node that has it
  -- is on another network than the sender, or that node gets it, with the socket's address of the
  -- sender.
  pub data Received (r : Rpc) (addr : SocketAddr) (m : RpcMessage) (out : Rpc × Bool) : Type 0 where
    unknown :
        All (λ (x : NodeInfo × Channel). (x.0.id == m.dst.id) ≡ false) r.node_infos
        → out ≡ (r, not (is_empty r.node_infos))
        → Received r addr m out
    foreign :
        (index : ℕ) (node : NodeInfo × Channel)
        → get_elem? r.node_infos index ≡ some node
        → node.0.id ≡ m.dst.id
        → (m.src.net_id == node.0.net_id) ≡ false
        → out ≡ (r, true)
        → Received r addr m out
    taken :
        (index : ℕ) (node : NodeInfo × Channel)
        → get_elem? r.node_infos index ≡ some node
        → node.0.id ≡ m.dst.id
        → m.src.net_id ≡ node.0.net_id
        → dispatch is_closed r index node (from_addr is_closed m addr) ≡ ok out.0
        → out.1 ≡ true
        → Received r addr m out
