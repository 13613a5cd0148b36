-- ===== src/Service/Ready.antt =====
-- Every node that the service starts is ready, whatever the bootstrap servers answer.
use noktulo.Prelude.{
  ℕ, ◌≡◌, refl, inl, inr, List, [], ◌∷◌, Option, none, some, ◌=ℕ=◌, =ℕ=_iff, length, All,
  All-append, Returns, arith, Bool-cases,
}
use noktulo.Prelude.Bytes.{AreBytes}
use noktulo.Digests.{Digests}
use noktulo.Key.{Key}
use noktulo.Post.{Signing}
use noktulo.UserDht.{is_valid_addr_pubkey_pair}
use noktulo.Rpc.NodeInfos.{testnet_user_dht}
use noktulo.Routing.{NodeInfo, SocketAddr}
use noktulo.Routing.Buckets.{IsKey}
use noktulo.Node.{Node, Request, Reply}
use noktulo.Node.Requests.{IsReady}
use noktulo.Node.Start.{start-IsReady}
use noktulo.ApiServer.Router.{pubsub_dht_key_length}
use noktulo.Service.{
  NetworkController, user_dht_key_length, bootstrap_nodeinfo, of_length, init, start_user_dht,
}

-- The ids that a server answers with are bytes, of any length.
abbrev pub HaveBytes : List NodeInfo → Type 0
HaveBytes = All λ n. AreBytes n.id

abbrev pub AnswerBytes : Option (List NodeInfo) → Type 0
AnswerBytes none = Unit
AnswerBytes (some infos) = HaveBytes infos

bootstrap_nodeinfo-HaveBytes :
    (answers : List (Option (List NodeInfo)))
    → All AnswerBytes answers
    → HaveBytes (bootstrap_nodeinfo answers)
unfolding bootstrap_nodeinfo
bootstrap_nodeinfo-HaveBytes [] h = tt
bootstrap_nodeinfo-HaveBytes (none ∷ rest) h = bootstrap_nodeinfo-HaveBytes rest h.1
bootstrap_nodeinfo-HaveBytes (some infos ∷ rest) h =
    All-append (λ n. AreBytes n.id) infos (bootstrap_nodeinfo rest) h.0
      (bootstrap_nodeinfo-HaveBytes rest h.1)

of_length-keys :
    (len : ℕ) (infos : List NodeInfo)
    → HaveBytes infos
    → All (λ n. IsKey len n.id) (of_length len infos)
unfolding of_length
of_length-keys len [] h = tt
of_length-keys len (n ∷ ns) h = elim (Bool-cases (length n.id =ℕ= len)) [
  | inl fits ↦ rw fits (((=ℕ=_iff (length n.id) len).0 fits, h.0), of_length-keys len ns h.1)
  | inr other ↦ rw other (of_length-keys len ns h.1)
]

-- The controller's node is ready, and its publishers can start from its bootstrap nodes.
pub record IsController (c : NetworkController) : Type 0 where
  pub ready : IsReady c.user_dht
  pub key_length : c.user_dht.key_length ≡ user_dht_key_length
  pub bootstrap : All (λ n. IsKey pubsub_dht_key_length n.id) c.pubsub_dht_bootstrap

module _ (rpc : NodeInfo → Request → Option Reply) (d : Digests) (s : Signing)
    (addr : SocketAddr) where
  -- Whatever nodes the bootstrap servers answer with, init starts a ready node of the user DHT.
  pub init-IsController :
      (random : Key) (answers : List (Option (List NodeInfo)))
      → IsKey user_dht_key_length random
      → All AnswerBytes answers
      → Returns (init rpc d s addr random answers) IsController
  unfolding init start_user_dht
  init-IsController random answers key bytes =
      let infos = bootstrap_nodeinfo answers in
      let have = bootstrap_nodeinfo-HaveBytes answers bytes in
      let (node, e, (ready, len, _)) =
        start-IsReady rpc testnet_user_dht user_dht_key_length random
          (is_valid_addr_pubkey_pair d s) addr (of_length user_dht_key_length infos) key
          (omega arith) (omega arith) (of_length-keys user_dht_key_length infos have) in
      (
        record { user_dht = node; pubsub_dht_bootstrap = of_length pubsub_dht_key_length infos },
        rw e refl,
        record {
          ready = ready;
          key_length = len;
          bootstrap = of_length-keys pubsub_dht_key_length infos have;
        },
      )
