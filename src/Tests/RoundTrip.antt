-- ===== src/Tests/RoundTrip.antt =====
-- A request of the node 0x30 to another process, and its reply.
use noktulo.Prelude.{refl, [], ◌∷◌, Returns, list_eq, nat_eq, arith}
use noktulo.Digests.{checksums}
use noktulo.Node.{ping}
use noktulo.Rpc.{Rpc, send_req}
use noktulo.Rpc.RoundTrip.{IsReplied, send_req-IsReplied}
use noktulo.Tests.Tables.{node}
use noktulo.Tests.Network.{this_node, this_node-IsReady}
use noktulo.Tests.Rpc.{waiting, all_open, drawn}

abbrev caller : Rpc
caller = record waiting { node_infos = (node 0x31, 1) ∷ (node 0x30, 3) ∷ [] }

abbrev other : Rpc
other = record waiting { pending = []; node_infos = (node 0x11, 1) ∷ (this_node.node_info, 6) ∷ [] }

send_req-IsReplied_example :
    Returns (send_req caller (9 ∷ []) 5 ping (node 0x30) this_node.node_info) (
      IsReplied checksums all_open all_open caller other this_node
        (9 ∷ [])
        5
        ping
        (node 0x30)
        this_node.node_info
        (node 0x30).addr
        (node 0x10).addr
        6)
send_req-IsReplied_example =
    send_req-IsReplied checksums all_open all_open caller other this_node ((1 ∷ []) ∷ (9 ∷ []) ∷ [])
      (9 ∷ []) 5 ping (node 0x30) this_node.node_info (node 0x30).addr (node 0x10).addr 6
      this_node.node_info (node 0x30) 3 drawn refl refl (1, refl, refl, refl) refl
      (1, refl, refl, refl) this_node-IsReady (refl, (omega arith, tt))
