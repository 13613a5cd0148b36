-- ===== src/Node/Serve.antt =====
-- src/kad/node.rs, `start_req_handler`: the task that answers one request.
use noktulo.Prelude.{List, list_eq, nat_eq, Run, ok, ◌>>=◌}
use noktulo.Digests.{Digests}
use noktulo.Node.{Node, Task, handle_req}
use noktulo.Rpc.{Rpc, ReqHandle, rep}

unfoldable pub serve : Digests → Node → ReqHandle → Rpc → Run (Rpc × Node × List Task)
serve d n handle r = do
  (reply, n', tasks) ← handle_req d n handle.req handle.src
  ok (rep r handle reply n.node_info, n', tasks)
