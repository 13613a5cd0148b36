-- ===== src/ApiServer/Keeping.antt =====
-- src/api_server/server.rs: what a handler leaves as it was for a client that still listens.
use mathlib.Core.List.{append-nil}
use noktulo.Prelude.{
  ℕ, ◌≤◌, ◌≡◌, refl, sym, Bool, true, false, List, [], ◌∷◌, ◌++◌, Option, none, some, list_eq,
  nat_eq, if◌then◌else◌, Returns, Result, okay, err, Bool-cases, inl, inr, length,
}
use noktulo.Digests.{Digests}
use noktulo.Address.{Address}
use noktulo.Prelude.Assoc.{lookup, insert}
use noktulo.Post.{Signing, Post, SignedPost, addr_of, verify, VerifyError, Ed25519Error}
use noktulo.ApiServer.{
  ClientMessage, establish_req, challenge_responce, public_key, post, subscribe_req,
  unsubscribe_req, get_user_info, Channels, Sender, Frame, text, success, denied, invalid,
  established as established_message, challenge as challenge_message, send as send_on,
}
use noktulo.ApiServer.Client.{
  ClientInfo, ClientStatus, not_established, sent_challenge, established, send, send_challenge,
  send_invalid, verified, verify_for, verify_challenge_sig, is_established, get_pubkey,
}
use noktulo.ApiServer.Router.{Router, senders_of, subscribe, pubsub_dht_key_length}
use noktulo.ApiServer.Server.{
  ApiServer, Publisher, Outcome, answered, establish, responded, respond, handle_subscribe,
  publish_by, verified_post, post_by, handle_post, handle_client_message,
}
use noktulo.ApiServer.Sent.{Grows}
use noktulo.ApiServer.Delivery.{send_open}
use noktulo.ApiServer.Subscriptions.{start_subscription_lem}

-- The second channels come from the first by sends, and the same receivers are there.
abbrev pub Follows : Channels → Channels → Type 0
Follows c c' = Grows c c' × (c'.is_closed ≡ c.is_closed)

-- The message that a client subscribes with names an address that fits a node id.
abbrev pub Fits : ClientMessage → Type 0
Fits (subscribe_req addr) = length addr ≤ pubsub_dht_key_length
Fits (establish_req addr pubkey) = Unit
Fits (challenge_responce sig) = Unit
Fits (public_key pubkey) = Unit
Fits (post p) = Unit
Fits (unsubscribe_req addr) = Unit
Fits (get_user_info addr) = Unit

subscribe-Returns :
    (fill : ℕ → List ℕ) (r : Router) (addr : Address) (tx : Sender)
    → length addr ≤ pubsub_dht_key_length
    → Returns (subscribe fill r addr tx) λ r'. Unit {0}
unfolding subscribe
subscribe-Returns fill r addr tx h =
    let (nodes, e, known) = start_subscription_lem fill r.nodes addr h in
    (
      record {
        routing_map = insert addr (senders_of (lookup addr r.routing_map) ++ tx ∷ []) r.routing_map;
        nodes = nodes;
      },
      rw (subscribe, e) refl,
      tt,
    )

module _ (server : ApiServer) (info : ClientInfo)
    (listens : server.channels.is_closed info.tx ≡ false) where
  -- No error, the client's channel is the same, and what was sent stays.
  abbrev pub Kept : Outcome → Type 0
  Kept out = (out.0 ≡ okay tt) × Follows server.channels out.1.channels × (out.2.tx ≡ info.tx)

  pub unchanged-Kept : Kept (okay tt, server, info)
  unchanged-Kept = (refl, (([], sym (append-nil server.channels.sent)), refl), refl)

  pub sent-Kept :
      (msg : Frame) (server' : ApiServer) (info' : ClientInfo)
      → info'.tx ≡ info.tx
      → Kept (answered server' info' (send_on server.channels info.tx msg))
  sent-Kept msg server' info' same =
      rw (send_open server.channels info.tx msg listens)
        (refl, (((info.tx, msg) ∷ [], refl), refl), same)

  if-Kept : (t : Bool) (a b : Outcome) → Kept a → Kept b → Kept (if t then a else b)
  if-Kept true a b ha hb = ha
  if-Kept false a b ha hb = hb

  refusal-Kept : Kept (answered server info (send_invalid server.channels info))
  unfolding send_invalid send
  refusal-Kept = sent-Kept (text invalid) server info refl

  module _ (d : Digests) (s : Signing) (to_vec : Post → List ℕ) where
    establish-Kept :
        (bytes addr pubkey : List ℕ) → Kept (establish d s to_vec bytes server info addr pubkey)
    unfolding establish send_challenge send
    establish-Kept bytes addr pubkey =
        if-Kept (s.is_point pubkey) _ _
          (if-Kept _ _ _
            (sent-Kept (text (challenge_message bytes)) server
              (record info { status = sent_challenge pubkey bytes }) refl)
            refusal-Kept)
          refusal-Kept

    verified-Kept :
        (pubkey : List ℕ) (r : Result (Unit {0}) Ed25519Error)
        → Kept (responded d s to_vec server (verified d s info pubkey r))
    unfolding send
    verified-Kept pubkey (okay u) =
        rw (send_open server.channels info.tx (text established_message) listens)
          (refl, (((info.tx, text established_message) ∷ [], refl), refl), refl)
    verified-Kept pubkey (err e) = refusal-Kept

    respond_on-Kept :
        (sig : List ℕ) (st : ClientStatus)
        → Kept (responded d s to_vec server (verify_for d s info sig st))
    respond_on-Kept sig (sent_challenge pubkey bytes) =
        verified-Kept pubkey (s.verify pubkey sig bytes)
    respond_on-Kept sig not_established = refusal-Kept
    respond_on-Kept sig established = refusal-Kept

    publish_by-Kept :
        (addr : Address) (o : Option Publisher)
        → Kept (okay tt, publish_by d s to_vec server addr o, info)
    publish_by-Kept addr none = unchanged-Kept
    publish_by-Kept addr (some p) = unchanged-Kept

    verified_post-Kept :
        (p : SignedPost) (r : Result (Unit {0}) VerifyError)
        → Kept (verified_post d s to_vec server info p r)
    verified_post-Kept p (okay u) =
        publish_by-Kept (addr_of p) (lookup (addr_of p) server.publishers)
    verified_post-Kept p (err e) = refusal-Kept

    post_by-Kept :
        (p : SignedPost) (o : Option (List ℕ)) → Kept (post_by d s to_vec server info p o)
    unfolding send
    post_by-Kept p none = sent-Kept (text denied) server info refl
    post_by-Kept p (some pk) = verified_post-Kept p (verify d s to_vec p pk)

    handle_subscribe-Kept :
        (fill : ℕ → List ℕ) (addr : Address)
        → length addr ≤ pubsub_dht_key_length
        → Returns (handle_subscribe d s to_vec fill server info addr) Kept
    unfolding handle_subscribe send
    handle_subscribe-Kept fill addr h = elim (Bool-cases (is_established info)) [
      | inl yes' ↦
          let (router, e, _) = subscribe-Returns fill server.router addr info.tx h in
          let server' : ApiServer = record server { router = router } in
          (
            answered server' info (send server.channels info (text success)),
            rw (handle_subscribe, yes', e) refl,
            sent-Kept (text success) server' info refl,
          )
      | inr no' ↦ (
        answered server info (send_invalid server.channels info),
        rw (handle_subscribe, no') refl,
        refusal-Kept,
      )
    ]

    -- The handler of a message that fits returns without an error.
    pub handle_client_message-Kept :
        (fill : ℕ → List ℕ) (bytes : List ℕ) (msg : ClientMessage)
        → Fits msg
        → Returns (handle_client_message d s to_vec fill bytes server info msg) Kept
    unfolding handle_client_message respond verify_challenge_sig handle_post
    handle_client_message-Kept fill bytes (establish_req addr pubkey) h =
        (_, refl, establish-Kept bytes addr pubkey)
    handle_client_message-Kept fill bytes (challenge_responce sig) h =
        (_, refl, respond_on-Kept sig info.status)
    handle_client_message-Kept fill bytes (subscribe_req addr) h = handle_subscribe-Kept fill addr h
    handle_client_message-Kept fill bytes (post p) h = (
      _,
      refl,
      if-Kept (is_established info) _ _ (post_by-Kept p (get_pubkey info (addr_of p))) refusal-Kept,
    )
    handle_client_message-Kept fill bytes (public_key pubkey) h = (_, refl, unchanged-Kept)
    handle_client_message-Kept fill bytes (unsubscribe_req addr) h = (_, refl, unchanged-Kept)
    handle_client_message-Kept fill bytes (get_user_info addr) h = (_, refl, unchanged-Kept)
