-- ===== src/Service.antt =====
-- src/service/controller.rs and src/service/network.rs: the node of the user DHT and the nodes of
-- publishers, with the nodes that they start from.
pub mod Ready
use noktulo.Prelude.{
  ℕ, Bool, true, false, List, [], ◌∷◌, ◌++◌, Option, none, some, ◌=ℕ=◌, length, filter, String, Run,
  ok, ◌>>=◌,
}
use noktulo.Digests.{Digests}
use noktulo.Key.{Key, resize}
use noktulo.Address.{Address, from_pubkey}
use noktulo.Post.{Signing}
use noktulo.UserDht.{is_valid_addr_pubkey_pair, addr_key_pair, pubkey_of}
use noktulo.Routing.{NodeInfo, SocketAddr}
use noktulo.Node.{Node, Request, Reply}
use noktulo.Node.Calls.{put, multicast}
use noktulo.Node.Values.{get}
use noktulo.Node.Start.{start}
use noktulo.Rpc.NodeInfos.{testnet_user_dht, testnet_pubsub_dht}
use noktulo.ApiServer.Router.{pubsub_dht_key_length}

-- `USER_DHT_KEY_LENGTH`
abbrev pub user_dht_key_length : ℕ
user_dht_key_length = 32

pub record NetworkController : Type 0 where
  pub user_dht : Node
  pub pubsub_dht_bootstrap : List NodeInfo

-- The loop over `config.bootstrap`: what `get_nodeinfos` returned for each address.
unfoldable pub bootstrap_nodeinfo : List (Option (List NodeInfo)) → List NodeInfo
bootstrap_nodeinfo [] = []
bootstrap_nodeinfo (none ∷ rest) = bootstrap_nodeinfo rest
bootstrap_nodeinfo (some infos ∷ rest) = infos ++ bootstrap_nodeinfo rest

unfoldable pub of_length : ℕ → List NodeInfo → List NodeInfo
of_length len infos = filter (λ n. length n.id =ℕ= len) infos

-- `addr` is the address of the socket, and `random` gives the bytes of `Key::random`.
module _ (rpc : NodeInfo → Request → Option Reply) (d : Digests) (s : Signing)
    (addr : SocketAddr) where
  -- `UserDHT::start`
  unfoldable pub start_user_dht : Key → List NodeInfo → Run Node
  start_user_dht random bootstrap =
      start rpc testnet_user_dht user_dht_key_length random (is_valid_addr_pubkey_pair d s) addr
        bootstrap

  -- `NetworkController::init`
  unfoldable pub init : Key → List (Option (List NodeInfo)) → Run NetworkController
  unfolding start_user_dht bootstrap_nodeinfo of_length
  init random answers = do
    let infos = bootstrap_nodeinfo answers
    user_dht ← start_user_dht random (of_length user_dht_key_length infos)
    ok (record {
      user_dht = user_dht;
      pubsub_dht_bootstrap = of_length pubsub_dht_key_length infos;
    })

  -- `UserDHT::register_pubkey`
  unfoldable pub register_pubkey : Node → List ℕ → Run Node
  register_pubkey user_dht pubkey =
      put rpc d user_dht (from_pubkey d pubkey) (addr_key_pair d s pubkey)

  -- `UserDHT::get_pubkey`, and the controller's
  unfoldable pub get_pubkey :
      NetworkController → Address → Run (Option (List ℕ) × NetworkController)
  get_pubkey c a = do
    (found, user_dht) ← get rpc d c.user_dht a
    ok (pubkey_of d s found, record c { user_dht = user_dht })

  -- `Publisher::new`
  unfoldable pub new_publisher : Address → List NodeInfo → Run Node
  new_publisher a bootstrap =
      start rpc testnet_pubsub_dht pubsub_dht_key_length (resize a pubsub_dht_key_length)
        (λ bytes. false) addr bootstrap

  -- `NetworkController::create_publisher`
  unfoldable pub create_publisher : NetworkController → List ℕ → Run (Node × NetworkController)
  unfolding register_pubkey new_publisher
  create_publisher c pubkey = do
    user_dht ← register_pubkey c.user_dht pubkey
    node ← new_publisher (from_pubkey d pubkey) c.pubsub_dht_bootstrap
    ok (node, record c { user_dht = user_dht })

  -- `Publisher::publish`
  unfoldable pub publish : Node → List ℕ → Address → Run (List NodeInfo × Node)
  publish node msg dst = multicast rpc d node dst msg
