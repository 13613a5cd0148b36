-- ===== src/ApiServer/Server.antt =====
-- src/api_server/server.rs, `handle_client_message`: the server's answer to one message of a client.
use noktulo.Prelude.{
  ℕ, List, [], ◌∷◌, ◌++◌, ◌==◌, Option, none, some, nat_eq, list_eq, if◌then◌else◌, Run, ok, ◌>>=◌,
  Result, okay, err,
}
use noktulo.Prelude.Assoc.{lookup}
use noktulo.Digests.{Digests}
use noktulo.Key.{Key, resize}
use noktulo.Address.{Address, from_pubkey}
use noktulo.Post.{Signing, Post, SignedPost, addr_of, verify, VerifyError}
use noktulo.ApiServer.{
  ClientMessage, establish_req, challenge_responce, public_key, post, subscribe_req,
  unsubscribe_req, get_user_info, Channels, SendError, text, success, denied, established,
}
use noktulo.ApiServer.Client.{
  ClientInfo, send, send_challenge, send_invalid, or_insert, verify_challenge_sig, is_established,
  get_pubkey,
}
use noktulo.ApiServer.Router.{Router, subscribe, pubsub_dht_key_length}

-- `Publisher` of src/service/network.rs: the id of its node.
pub record Publisher : Type 0 where
  pub node_id : Key

-- `puts` are the pairs that `register_pubkey` put into the user DHT, and `published` the addresses
-- whose publisher was called, both in order.
pub record ApiServer : Type 0 where
  pub publishers : List (Address × Publisher)
  pub router : Router
  pub channels : Channels
  pub puts : List (Key × List ℕ)
  pub published : List Address

-- What a handler leaves: the result, the server and the client.
abbrev pub Outcome : Type 0
Outcome = Result (Unit {0}) SendError × ApiServer × ClientInfo

-- The last send of a branch, whose error is the result.
abbrev pub answered : ApiServer → ClientInfo → Result (Unit {0}) SendError × Channels → Outcome
answered server info (r, c) = (r, record server { channels = c }, info)

module _ (d : Digests) (s : Signing) (to_vec : Post → List ℕ) where
  -- `create_publisher`: `register_pubkey` and `Publisher::new`.
  unfoldable pub create_publisher : ApiServer → List ℕ → Publisher × ApiServer
  create_publisher server pk =
      let addr = from_pubkey d pk in
      (
        record { node_id = resize addr pubsub_dht_key_length },
        record server { puts = server.puts ++ (addr, addr ++ pk) ∷ [] },
      )

  -- `EstablishReq`; `challenge` is what the generator filled the array with.
  unfoldable pub establish : List ℕ → ApiServer → ClientInfo → List ℕ → List ℕ → Outcome
  establish challenge server info addr pubkey =
      let (r, c, info') = send_challenge server.channels info pubkey challenge in
      let refusal = answered server info (send_invalid server.channels info) in
      if s.is_point pubkey
      then (if addr == from_pubkey d pubkey
          then (r, record server { channels = c }, info')
          else refusal)
      else refusal

  -- After a verified challenge: the message, and the publisher of the address if there is none.
  abbrev pub welcome_sent :
      ApiServer → ClientInfo → List ℕ → Result (Unit {0}) SendError × Channels → Outcome
  welcome_sent server info pk (err e, c) = (err e, record server { channels = c }, info)
  welcome_sent server info pk (okay u, c) =
      let (publisher, server') = create_publisher server pk in
      (
        okay tt,
        record server' {
          channels = c;
          publishers = or_insert (from_pubkey d pk) publisher server.publishers;
        },
        info,
      )

  abbrev pub responded : ApiServer → Result (List ℕ) (Unit {0}) × ClientInfo → Outcome
  responded server (okay pk, info) =
      welcome_sent server info pk (send server.channels info (text established))
  responded server (err u, info) = answered server info (send_invalid server.channels info)

  unfoldable pub respond : ApiServer → ClientInfo → List ℕ → Outcome
  respond server info sig = responded server (verify_challenge_sig d s info sig)

  unfoldable pub handle_subscribe : (ℕ → List ℕ) → ApiServer → ClientInfo → Address → Run Outcome
  handle_subscribe fill server info addr =
      if is_established info
      then (do
        router ← subscribe fill server.router addr info.tx
        ok (
            answered (record server { router = router }) info
              (send server.channels info (text success))))
      else ok (answered server info (send_invalid server.channels info))

  -- `publishers.get_mut(&post.addr)`
  abbrev pub publish_by : ApiServer → Address → Option Publisher → ApiServer
  publish_by server addr none = server
  publish_by server addr (some p) = record server { published = server.published ++ addr ∷ [] }

  abbrev pub verified_post :
      ApiServer → ClientInfo → SignedPost → Result (Unit {0}) VerifyError → Outcome
  verified_post server info p (okay u) =
      (okay tt, publish_by server (addr_of p) (lookup (addr_of p) server.publishers), info)
  verified_post server info p (err e) = answered server info (send_invalid server.channels info)

  abbrev pub post_by : ApiServer → ClientInfo → SignedPost → Option (List ℕ) → Outcome
  post_by server info p (some pk) = verified_post server info p (verify d s to_vec p pk)
  post_by server info p none = answered server info (send server.channels info (text denied))

  unfoldable pub handle_post : ApiServer → ClientInfo → SignedPost → Outcome
  handle_post server info p =
      if is_established info
      then post_by server info p (get_pubkey info (addr_of p))
      else answered server info (send_invalid server.channels info)

  unfoldable pub handle_client_message :
      (ℕ → List ℕ) → List ℕ → ApiServer → ClientInfo → ClientMessage → Run Outcome
  handle_client_message fill challenge server info (establish_req addr pubkey) =
      ok (establish challenge server info addr pubkey)
  handle_client_message fill challenge server info (challenge_responce sig) =
      ok (respond server info sig)
  handle_client_message fill challenge server info (subscribe_req addr) =
      handle_subscribe fill server info addr
  handle_client_message fill challenge server info (post p) = ok (handle_post server info p)
  handle_client_message fill challenge server info (public_key pubkey) = ok (okay tt, server, info)
  handle_client_message fill challenge server info (unsubscribe_req addr) =
      ok (okay tt, server, info)
  handle_client_message fill challenge server info (get_user_info addr) = ok (okay tt, server, info)
