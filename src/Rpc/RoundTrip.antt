-- ===== src/Rpc/RoundTrip.antt =====
-- A request from a node of one process to a node of another, and its reply.
use noktulo.Prelude.{
  ℕ, ◌≡◌, refl, sym, subst, ◌∙◌, Bool, true, false, List, [], ◌∷◌, ◌++◌, some, ◌==◌, nat_eq,
  list_eq, string_eq, get_elem?, position, ok, ok_inj, Returns, String,
}
use noktulo.Prelude.Assoc.{lookup, insert}
use noktulo.Digests.{Digests}
use noktulo.Key.{Key}
use noktulo.Routing.{NodeInfo, SocketAddr, node_eq}
use noktulo.Routing.Buckets.{IsKey}
use noktulo.Node.{Request, Reply, Node, contains}
use noktulo.Node.Requests.{IsReady, Answers}
use noktulo.Node.Handler.{handle_req-Answers}
use noktulo.Node.Serve.{serve}
use noktulo.Rpc.{
  Rpc, RpcMessage, request, reply, Channel, ReqHandle, names, fresh_token, send_req, handle_rep,
  dispatch, receive, rep,
}
use noktulo.Rpc.Replies.{handle_rep-send_req}

-- A message to `id` from the network `net` gets to the node `node` of the process.
abbrev pub Reaches : Rpc → Key → String → NodeInfo × Channel → Type 0
Reaches r id net node =
    (index : ℕ) × (position (λ (x : NodeInfo × Channel). x.0.id == id) r.node_infos ≡ some index)
    × (get_elem? r.node_infos index ≡ some node)
    × ((net == node.0.net_id) ≡ true)

module _ (is_closed : Channel → Bool) where
  receive-request :
      (r : Rpc) (addr : SocketAddr) (token : Key) (src dst : NodeInfo) (req : Request)
      (node : NodeInfo × Channel)
      → Reaches r dst.id src.net_id node
      → is_closed node.1 ≡ false
      → receive is_closed r addr (record { token = token; src = src; dst = dst; msg = request req })
        ≡ ok (
          record r {
            handed =
                r.handed
                ++ (node.1, record { token = token; src = record src { addr = addr }; req = req })
                  ∷ [];
          },
          true,
        )
  unfolding receive dispatch
  receive-request r addr token src dst req node (index, found, at, net) open' =
      rw (receive, found, at, net, dispatch, open') refl

  receive-reply :
      (r : Rpc) (addr : SocketAddr) (token : Key) (src dst : NodeInfo) (answer : Reply)
      (node : NodeInfo × Channel)
      → Reaches r dst.id src.net_id node
      → receive is_closed r addr
          (record { token = token; src = src; dst = dst; msg = reply answer })
        ≡ ok (handle_rep is_closed r token answer, true)
  unfolding receive dispatch
  receive-reply r addr token src dst answer node (index, found, at, net) =
      rw (receive, found, at, net) refl

module _ (d : Digests) (closed closed' : Channel → Bool) (a b : Rpc) (n : Node) where
  -- The process `b` hands the request to the node, whose task sends the answer, and `a₁` delivers
  -- it to the channel `tx`.
  abbrev pub IsReplied :
      Key
      → Channel
      → Request
      → NodeInfo
      → NodeInfo
      → SocketAddr
      → SocketAddr
      → Channel
      → Rpc
      → Type 0
  IsReplied token tx req src dst src_addr dst_addr chan a₁ =
      (message : RpcMessage) × (handle : ReqHandle) × (a₁.sent ≡ a.sent ++ message ∷ [])
      × (receive closed' b src_addr message
          ≡ ok (record b { handed = b.handed ++ (chan, handle) ∷ [] }, true))
      × Returns (serve d n handle (record b { handed = b.handed ++ (chan, handle) ∷ [] })) λ out.
        (answer : Reply) × (message' : RpcMessage) × Answers d (record n { routes = out.1.routes })
          req answer
        × IsReady out.1
        × (out.0.sent ≡ b.sent ++ message' ∷ [])
        × Returns (receive closed a₁ dst_addr message') λ back.
          (back.0.delivered ≡ a.delivered ++ (tx, some answer) ∷ [])
          × ((other : Key) → lookup other back.0.pending ≡ lookup other a.pending)

  -- If a node of one process sends a request under the first random token that is not in use to a
  -- node of another, the other process reads it and hands it to that node, which is ready and
  -- whose key length the sender's id has, and the caller still listens, then the task of that node
  -- sends back its answer to the request, and this process delivers it to the caller's channel and
  -- to no other; all other waiting requests keep waiting. Both processes must find the receiving
  -- node first among those with its id, on the network of the sender.
  pub send_req-IsReplied :
      (tokens : List Key) (token : Key) (tx : Channel) (req : Request) (src dst : NodeInfo)
      (src_addr dst_addr : SocketAddr) (chan : Channel) (there back : NodeInfo) (chan' : Channel)
      → fresh_token a.pending tokens ≡ some token
      → contains src (names a.node_infos) ≡ true
      → closed tx ≡ false
      → Reaches b dst.id src.net_id (there, chan)
      → closed' chan ≡ false
      → Reaches a src.id n.node_info.net_id (back, chan')
      → IsReady n
      → IsKey n.key_length src.id
      → Returns
          (send_req a token tx req src dst)
          (IsReplied token tx req src dst src_addr dst_addr chan)
  unfolding serve rep send_req
  send_req-IsReplied tokens token tx req src dst src_addr dst_addr chan there back chan' fresh known
        open' reaches there_open returns ready from =
      let message : RpcMessage = record {
        token = token;
        src = src;
        dst = dst;
        msg = request req;
      } in
      let a₁ : Rpc = record a {
        pending = insert token tx a.pending;
        sent = a.sent ++ message ∷ [];
      } in
      let sent : send_req a token tx req src dst ≡ ok a₁ = rw (send_req, known) refl in
      let handle : ReqHandle = record {
        token = token;
        src = record src { addr = src_addr };
        req = req;
      } in
      let (out, e, (full, more, ready', updates, answers, tasks)) =
        handle_req-Answers d n ready handle.src from req in
      let (r₁, sent', (delivered, others, once)) =
        handle_rep-send_req closed a tokens token tx req src dst out.0 out.0 fresh known open' in
      let b' : Rpc = record b { handed = b.handed ++ (chan, handle) ∷ [] } in
      let message' : RpcMessage = record {
        token = token;
        src = n.node_info;
        dst = handle.src;
        msg = reply out.0;
      } in
      let same : r₁ ≡ a₁ = ok_inj (sym sent' ∙ sent) in
      (
        a₁,
        sent,
        (
          message,
          handle,
          refl,
          receive-request closed' b src_addr token src dst req (there, chan) reaches there_open,
          (
            (rep b' handle out.0 n.node_info, out.1, out.2),
            rw e refl,
            (
              out.0,
              message',
              answers,
              ready',
              refl,
              (
                (handle_rep closed a₁ token out.0, true),
                receive-reply closed a₁ dst_addr token n.node_info handle.src out.0 (back, chan')
                    returns,
                (
                  subst
                      (λ q.
                        (handle_rep closed q token out.0).delivered
                        ≡ a.delivered ++ (tx, some out.0) ∷ [])
                      same delivered,
                  subst
                      (λ q.
                        (other : Key)
                        → lookup other (handle_rep closed q token out.0).pending
                          ≡ lookup other a.pending)
                      same others,
                ),
              ),
            ),
          ),
        ),
      )
