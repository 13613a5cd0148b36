-- ===== src/ApiServer/Authentication.antt =====
-- Which clients are established, and whose posts are published.
use noktulo.Prelude.{
  ℕ, ◌≡◌, refl, subst, Bool, true, false, List, Option, none, some, list_eq, nat_eq, if◌then◌else◌,
  All, All-mono, ok, >>=-eq-ok, ok_inj, Result, okay, err, Bool-cases, Option-cases, inl, inr,
}
use noktulo.Prelude.Assoc.{lookup, insert-All}
use noktulo.Digests.{Digests}
use noktulo.Address.{Address, from_pubkey}
use noktulo.Post.{Signing, Post, SignedPost, addr_of, verify, VerifyError, Ed25519Error}
use noktulo.ApiServer.{
  ClientMessage, establish_req, challenge_responce, public_key, post, subscribe_req,
  unsubscribe_req, get_user_info, Sender, Channels, SendError, Frame, text, success, denied,
  invalid, established as established_message, challenge, send as send_on,
}
use noktulo.ApiServer.Client.{
  ClientInfo, ClientStatus, not_established, sent_challenge, established, send, send_challenge,
  send_invalid, or_insert, verified, verify_for, verify_challenge_sig, is_established, get_pubkey,
}
use noktulo.ApiServer.Router.{subscribe}
use noktulo.ApiServer.Server.{
  ApiServer, Publisher, Outcome, answered, establish, welcome_sent, responded, respond,
  handle_subscribe, publish_by, verified_post, post_by, handle_post, handle_client_message,
}
use noktulo.ApiServer.Sent.{Grows, WasSent, WasSent-Grows, send-Grows, send-WasSent}

module _ (d : Digests) (s : Signing) (to_vec : Post → List ℕ) where
  -- The client at `tx` was sent a challenge and signed it with the key of the address.
  abbrev pub IsProven : Channels → Sender → Address × List ℕ → Type 0
  IsProven c tx entry =
      (entry.0 ≡ from_pubkey d entry.1)
      × ((bytes sig : List ℕ) × WasSent c tx (text (challenge bytes))
          × (s.verify entry.1 sig bytes ≡ okay tt))

  abbrev pub IsPending : Channels → Sender → ClientStatus → Type 0
  IsPending c tx (sent_challenge pubkey bytes) = WasSent c tx (text (challenge bytes))
  IsPending c tx not_established = Unit
  IsPending c tx established = Unit

  -- Every registered key is proven, and a pending challenge was sent.
  abbrev pub IsAuthentic : Channels → ClientInfo → Type 0
  IsAuthentic c info = All (IsProven c info.tx) info.registered × IsPending c info.tx info.status

  module _ (c c' : Channels) (tx : Sender) (grows : Grows c c') where
    IsPending-Grows : (st : ClientStatus) → IsPending c tx st → IsPending c' tx st
    IsPending-Grows (sent_challenge pubkey bytes) h =
        WasSent-Grows c c' tx grows (text (challenge bytes)) h
    IsPending-Grows not_established h = tt
    IsPending-Grows established h = tt

    IsProven-Grows : (entry : Address × List ℕ) → IsProven c tx entry → IsProven c' tx entry
    IsProven-Grows entry (address, (bytes, sig, sent, good)) =
        (address, (bytes, sig, WasSent-Grows c c' tx grows (text (challenge bytes)) sent, good))

  pub IsAuthentic-Grows :
      (c c' : Channels) (info : ClientInfo) → Grows c c' → IsAuthentic c info → IsAuthentic c' info
  IsAuthentic-Grows c c' info g h = (
    All-mono _ _ info.registered (IsProven-Grows c c' info.tx g) h.0,
    IsPending-Grows c c' info.tx g info.status h.1,
  )

  or_insert-All :
      (P : Address × List ℕ → Type 0) (k : Address) (v : List ℕ) (m : List (Address × List ℕ))
      → P (k, v)
      → All P m
      → All P (or_insert k v m)
  or_insert-All P k v m p h = elim (Option-cases (lookup k m)) [
    | inl none' ↦ rw (or_insert, All, none') (insert-All P k v m p h)
    | inr (w, found) ↦ rw (or_insert, All, found) h
  ]

  -- Where the handler did not fail, its client is authentic.
  abbrev Holds : Outcome → Type 0
  Holds out = out.0 ≡ okay tt → IsAuthentic out.1.channels out.2

  if-Holds : (t : Bool) (a b : Outcome) → Holds a → Holds b → Holds (if t then a else b)
  if-Holds true a b ha hb = ha
  if-Holds false a b ha hb = hb

  module _ (server : ApiServer) (info : ClientInfo) (auth : IsAuthentic server.channels info) where
    answered-Holds :
        (msg : Frame) (server' : ApiServer)
        → Holds (answered server' info (send server.channels info msg))
    unfolding send
    answered-Holds msg server' okay' =
        IsAuthentic-Grows server.channels (send_on server.channels info.tx msg).1 info
          (send-Grows server.channels info.tx msg) auth

    refusal-Holds : Holds (answered server info (send_invalid server.channels info))
    unfolding send_invalid
    refusal-Holds = answered-Holds (text invalid) server

    establish-Holds :
        (bytes addr pubkey : List ℕ) → Holds (establish d s to_vec bytes server info addr pubkey)
    unfolding establish send_challenge send
    establish-Holds bytes addr pubkey =
        if-Holds (s.is_point pubkey) _ _
          (if-Holds _ _ _
            (λ e. (
              (IsAuthentic-Grows server.channels
                  (send_on server.channels info.tx (text (challenge bytes))).1 info
                  (send-Grows server.channels info.tx (text (challenge bytes))) auth).0,
              send-WasSent server.channels info.tx (text (challenge bytes)) e,
            ))
            refusal-Holds)
          refusal-Holds

    welcome_sent-Holds :
        (info' : ClientInfo) (pk : List ℕ) (r : Result (Unit {0}) SendError × Channels)
        → Grows server.channels r.1
        → IsAuthentic server.channels info'
        → Holds (welcome_sent d s to_vec server info' pk r)
    welcome_sent-Holds info' pk (okay u, c) g auth' e =
        IsAuthentic-Grows server.channels c info' g auth'
    welcome_sent-Holds info' pk (err x, c) g auth' e =
        IsAuthentic-Grows server.channels c info' g auth'

    verified-Holds :
        (pubkey bytes sig : List ℕ) (r : Result (Unit {0}) Ed25519Error)
        → s.verify pubkey sig bytes ≡ r
        → WasSent server.channels info.tx (text (challenge bytes))
        → Holds (responded d s to_vec server (verified d s info pubkey r))
    unfolding send
    verified-Holds pubkey bytes sig (okay u) e sent =
        let entry : Address × List ℕ = (from_pubkey d pubkey, pubkey) in
        let info' : ClientInfo = record info {
          registered = or_insert (from_pubkey d pubkey) pubkey info.registered;
          status = established;
        } in
        let proven : IsProven server.channels info.tx entry = (refl, (bytes, sig, sent, e)) in
        welcome_sent-Holds info' pubkey (send server.channels info' (text established_message))
          (send-Grows server.channels info.tx (text established_message))
          (
            or_insert-All (IsProven server.channels info.tx) _ pubkey info.registered proven auth.0,
            tt,
          )
    verified-Holds pubkey bytes sig (err x) e sent = refusal-Holds

    respond_on-Holds :
        (sig : List ℕ) (st : ClientStatus)
        → IsPending server.channels info.tx st
        → Holds (responded d s to_vec server (verify_for d s info sig st))
    respond_on-Holds sig (sent_challenge pubkey bytes) sent =
        verified-Holds pubkey bytes sig (s.verify pubkey sig bytes) refl sent
    respond_on-Holds sig not_established sent = refusal-Holds
    respond_on-Holds sig established sent = refusal-Holds

    respond-Holds : (sig : List ℕ) → Holds (respond d s to_vec server info sig)
    unfolding respond verify_challenge_sig
    respond-Holds sig = respond_on-Holds sig info.status auth.1

    publish_by-Holds :
        (addr : Address) (o : Option Publisher)
        → Holds (okay tt, publish_by d s to_vec server addr o, info)
    publish_by-Holds addr none e = auth
    publish_by-Holds addr (some p) e = auth

    verified_post-Holds :
        (p : SignedPost) (r : Result (Unit {0}) VerifyError)
        → Holds (verified_post d s to_vec server info p r)
    verified_post-Holds p (okay u) =
        publish_by-Holds (addr_of p) (lookup (addr_of p) server.publishers)
    verified_post-Holds p (err e) = refusal-Holds

    post_by-Holds :
        (p : SignedPost) (o : Option (List ℕ)) → Holds (post_by d s to_vec server info p o)
    post_by-Holds p none = answered-Holds (text denied) server
    post_by-Holds p (some pk) = verified_post-Holds p (verify d s to_vec p pk)

    handle_post-Holds : (p : SignedPost) → Holds (handle_post d s to_vec server info p)
    unfolding handle_post
    handle_post-Holds p =
        if-Holds (is_established info) _ _ (post_by-Holds p (get_pubkey info (addr_of p)))
          refusal-Holds

  of_ok :
      (out : Outcome) (server' : ApiServer) (info' : ClientInfo)
      → Holds out
      → ok out ≡ ok (okay tt, server', info')
      → IsAuthentic server'.channels info'
  of_ok out server' info' h e =
      let same : out ≡ (okay tt, server', info') = ok_inj e in subst Holds same h refl

  handle_subscribe-IsAuthentic :
      (fill : ℕ → List ℕ) (server server' : ApiServer) (info info' : ClientInfo) (addr : Address)
      → IsAuthentic server.channels info
      → handle_subscribe d s to_vec fill server info addr ≡ ok (okay tt, server', info')
      → IsAuthentic server'.channels info'
  unfolding handle_subscribe
  handle_subscribe-IsAuthentic fill server server' info info' addr auth e =
      elim (Bool-cases (is_established info)) [
        | inl yes' ↦
            let (router, _, done) =
              >>=-eq-ok (subscribe fill server.router addr info.tx) _ (rw yes' at e) in
            of_ok _ server' info'
              (answered-Holds server info auth (text success) (record server { router = router }))
              done
        | inr no' ↦ of_ok _ server' info' (refusal-Holds server info auth) (rw no' at e)
      ]

  -- A handler that does not fail keeps its client authentic.
  pub handle-IsAuthentic :
      (fill : ℕ → List ℕ) (bytes : List ℕ) (server server' : ApiServer) (info info' : ClientInfo)
      (msg : ClientMessage)
      → IsAuthentic server.channels info
      → handle_client_message d s to_vec fill bytes server info msg ≡ ok (okay tt, server', info')
      → IsAuthentic server'.channels info'
  unfolding handle_client_message
  handle-IsAuthentic fill bytes server server' info info' (establish_req addr pubkey) auth e =
      of_ok _ server' info' (establish-Holds server info auth bytes addr pubkey) e
  handle-IsAuthentic fill bytes server server' info info' (challenge_responce sig) auth e =
      of_ok _ server' info' (respond-Holds server info auth sig) e
  handle-IsAuthentic fill bytes server server' info info' (subscribe_req addr) auth e =
      handle_subscribe-IsAuthentic fill server server' info info' addr auth e
  handle-IsAuthentic fill bytes server server' info info' (post p) auth e =
      of_ok _ server' info' (handle_post-Holds server info auth p) e
  handle-IsAuthentic fill bytes server server' info info' (public_key pubkey) auth e =
      of_ok _ server' info' (λ _. auth) e
  handle-IsAuthentic fill bytes server server' info info' (unsubscribe_req addr) auth e =
      of_ok _ server' info' (λ _. auth) e
  handle-IsAuthentic fill bytes server server' info info' (get_user_info addr) auth e =
      of_ok _ server' info' (λ _. auth) e
