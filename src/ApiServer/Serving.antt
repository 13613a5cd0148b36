-- ===== src/ApiServer/Serving.antt =====
-- src/api_server/server.rs: a connection from its start to the end of its web socket.
use noktulo.Prelude.{
  ℕ, ◌≡◌, refl, ap, ◌∙◌, false, List, [], ◌∷◌, ◌++◌, map, Option, none, some, list_eq, nat_eq, All,
  ok, inl, inr, subst, Returns, Result, Result-cases, okay, err,
}
use mathlib.Core.List.{append_assoc}
use noktulo.Digests.{Digests}
use noktulo.Post.{Signing, Post}
use noktulo.ApiServer.{
  ClientMessage, Channels, Sender, Frame, Message, text, binary, ping, pong, close, send as send_on,
}
use noktulo.ApiServer.Client.{ClientInfo, send, new}
use noktulo.ApiServer.Server.{ApiServer, answered}
use noktulo.ApiServer.Sent.{Grows, WasSent, WasSent-Grows, send-WasSent}
use noktulo.ApiServer.Established.{Reachable, connected, interleaved, handled}
use noktulo.ApiServer.Keeping.{Follows, Fits, sent-Kept, unchanged-Kept, handle_client_message-Kept}
use noktulo.ApiServer.Connection.{
  Arrival, ApiServerError, web_socket, Ended, with_error, on_message, on_item, from_client,
  handle_connection,
}

abbrev Incoming : Type 0
Incoming = Message (Option ClientMessage)

-- The reply that a frame gets at once.
abbrev IsAnswered : Channels → Sender → Incoming → Type 0
IsAnswered c tx (ping payload) = WasSent c tx (pong payload)
IsAnswered c tx (close cf) = WasSent c tx (close cf)
IsAnswered c tx (text msg) = Unit
IsAnswered c tx (binary payload) = Unit
IsAnswered c tx (pong payload) = Unit

-- Of what the web socket yields, each frame before the first error gets its reply.
abbrev pub AllAnswered : Channels → Sender → List (Result Incoming ℕ) → Type 0
AllAnswered c tx [] = Unit
AllAnswered c tx (okay msg ∷ rest) = IsAnswered c tx msg × AllAnswered c tx rest
AllAnswered c tx (err e ∷ rest) = Unit

-- How the loop ends: with the first error of the web socket.
abbrev pub first_error : List (Result Incoming ℕ) → Result (Unit {0}) ApiServerError
first_error [] = okay tt
first_error (okay msg ∷ rest) = first_error rest
first_error (err e ∷ rest) = err (web_socket e)

abbrev FrameFits : Result Incoming ℕ → Type 0
FrameFits (okay (text (some msg))) = Fits msg
FrameFits (okay (text none)) = Unit
FrameFits (okay (binary payload)) = Unit
FrameFits (okay (ping payload)) = Unit
FrameFits (okay (pong payload)) = Unit
FrameFits (okay (close cf)) = Unit
FrameFits (err e) = Unit

-- Other connections send, and the messages of this client fit.
abbrev pub IsOrderly : Arrival → Type 0
IsOrderly a =
    ((server : ApiServer) → Follows server.channels (a.others server).channels) × FrameFits a.item

Follows-trans : (a b c : Channels) → Follows a b → Follows b c → Follows a c
Follows-trans a b c (g, s) (h, t) =
    ((g.0 ++ h.0, h.1 ∙ ap (λ l. l ++ h.0) g.1 ∙ append_assoc a.sent g.0 h.0), t ∙ s)

module _ (d : Digests) (s : Signing) (to_vec : Post → List ℕ) where
  -- A round that goes on.
  abbrev GoesOn : ApiServer → ClientInfo → Incoming → Ended → Type 0
  GoesOn server info msg out =
      (out.0 ≡ okay tt)
      × Reachable d s to_vec out.1 out.2
      × Follows server.channels out.1.channels
      × (out.2.tx ≡ info.tx)
      × IsAnswered out.1.channels info.tx msg

  module _ (server : ApiServer) (info : ClientInfo)
      (listens : server.channels.is_closed info.tx ≡ false)
      (r : Reachable d s to_vec server info) where
    reply-GoesOn :
        (reply : Frame)
        → Returns (ok (with_error (answered server info (send server.channels info reply)))) λ out.
          (out.0 ≡ okay tt)
          × Reachable d s to_vec out.1 out.2
          × Follows server.channels out.1.channels
          × (out.2.tx ≡ info.tx)
          × WasSent out.1.channels info.tx reply
    unfolding send
    reply-GoesOn reply =
        let c = send_on server.channels info.tx reply in
        let (good, follows, same) = sent-Kept server info listens reply server info refl in
        let server' : ApiServer = record server { channels = c.1 } in
        (
          with_error (answered server info c),
          refl,
          (
            rw good refl,
            interleaved server server' info follows.0 r,
            follows,
            same,
            send-WasSent server.channels info.tx reply good,
          ),
        )

    on_message-GoesOn :
        (fill : ℕ → List ℕ) (challenge : List ℕ) (msg : Incoming)
        → FrameFits (okay msg)
        → Returns (on_message d s to_vec fill challenge server info msg) (GoesOn server info msg)
    unfolding on_message
    on_message-GoesOn fill challenge (text (some msg)) h =
        let (out, e, (good, follows, same)) =
          handle_client_message-Kept server info listens d s to_vec fill challenge msg h in
        (
          with_error out,
          rw e refl,
          (
            rw good refl,
            handled server out.1 info out.2 fill challenge msg
                (e ∙ ap (λ q. ok (q, out.1, out.2)) good) r,
            follows,
            same,
            tt,
          ),
        )
    on_message-GoesOn fill challenge (text none) h =
        ((okay tt, server, info), refl, (refl, r, (unchanged-Kept server info listens).1, refl, tt))
    on_message-GoesOn fill challenge (binary payload) h =
        ((okay tt, server, info), refl, (refl, r, (unchanged-Kept server info listens).1, refl, tt))
    on_message-GoesOn fill challenge (pong payload) h =
        ((okay tt, server, info), refl, (refl, r, (unchanged-Kept server info listens).1, refl, tt))
    on_message-GoesOn fill challenge (ping payload) h = reply-GoesOn (pong payload)
    on_message-GoesOn fill challenge (close cf) h = reply-GoesOn (close cf)

  module _ (server : ApiServer) (info : ClientInfo) where
    on_item_okay :
        (a : Arrival) (msg : Incoming)
        → a.item ≡ okay msg
        → on_item d s to_vec a server info
          ≡ on_message d s to_vec a.fill a.challenge server info msg
    unfolding on_item
    on_item_okay a msg e = rw (on_item, e) refl

    on_item_err :
        (a : Arrival) (x : ℕ)
        → a.item ≡ err x
        → on_item d s to_vec a server info ≡ ok (err (web_socket x), server, info)
    unfolding on_item
    on_item_err a x e = rw (on_item, e) refl

  IsAnswered-Grows :
      (c c' : Channels) (tx : Sender) (msg : Incoming)
      → Grows c c'
      → IsAnswered c tx msg
      → IsAnswered c' tx msg
  IsAnswered-Grows c c' tx (ping payload) g h = WasSent-Grows c c' tx g (pong payload) h
  IsAnswered-Grows c c' tx (close cf) g h = WasSent-Grows c c' tx g (close cf) h
  IsAnswered-Grows c c' tx (text msg) g h = tt
  IsAnswered-Grows c c' tx (binary payload) g h = tt
  IsAnswered-Grows c c' tx (pong payload) g h = tt

  abbrev pub Serves : ApiServer → ClientInfo → List Arrival → Ended → Type 0
  Serves server info arrivals out =
      (out.0 ≡ first_error (map (λ a. a.item) arrivals))
      × Reachable d s to_vec out.1 out.2
      × Follows server.channels out.1.channels
      × (out.2.tx ≡ info.tx)
      × AllAnswered out.1.channels info.tx (map (λ a. a.item) arrivals)

  from_client-goes_on :
      (a : Arrival) (rest : List Arrival) (server : ApiServer) (info : ClientInfo) (out : Ended)
      → on_item d s to_vec a (a.others server) info ≡ ok out
      → out.0 ≡ okay tt
      → from_client d s to_vec (a ∷ rest) server info ≡ from_client d s to_vec rest out.1 out.2
  unfolding from_client
  from_client-goes_on a rest server info out e good = rw (e, good) refl

  from_client-Serves :
      (arrivals : List Arrival) (server : ApiServer) (info : ClientInfo)
      → server.channels.is_closed info.tx ≡ false
      → Reachable d s to_vec server info
      → All IsOrderly arrivals
      → Returns (from_client d s to_vec arrivals server info) (Serves server info arrivals)
  unfolding from_client
  from_client-Serves [] server info listens r orderly =
      ((okay tt, server, info), refl, (refl, r, (unchanged-Kept server info listens).1, refl, tt))
  from_client-Serves (a ∷ rest) server info listens r orderly =
      let before = a.others server in
      let follows = orderly.0.0 server in
      let there : before.channels.is_closed info.tx ≡ false =
        ap (λ f. f info.tx) follows.1 ∙ listens in
      let reached = interleaved server before info follows.0 r in
      elim (Result-cases a.item) [
        | inl (msg, e) ↦
            let fits : FrameFits (okay msg) = subst FrameFits e orderly.0.1 in
            let (out, done, (good, reached', more, same, reply)) =
              on_message-GoesOn before info there reached a.fill a.challenge msg fits in
            let (last, ran, (result, reached'', later, kept, replies)) =
              from_client-Serves rest out.1 out.2
                (ap (λ f. f out.2.tx) more.1 ∙ ap before.channels.is_closed same ∙ there) reached'
                orderly.1 in
            let follows' =
              Follows-trans server.channels before.channels out.1.channels follows more in
            let items = map (λ b. b.item) rest in
            let answered' =
              IsAnswered-Grows out.1.channels last.1.channels info.tx msg later.0 reply in
            (
              last,
              from_client-goes_on a rest server info out (on_item_okay before info a msg e ∙ done)
                    good
                  ∙ ran,
              rw e (
                result,
                reached'',
                Follows-trans server.channels out.1.channels last.1.channels follows' later,
                kept ∙ same,
                (answered', subst (λ t. AllAnswered last.1.channels t items) same replies),
              ),
            )
        | inr (x, e) ↦ (
          (err (web_socket x), before, info),
          rw (on_item_err before info a x e) refl,
          rw e (refl, reached, follows, refl, tt),
        )
      ]

  -- With a client that listens, other connections that send and leave its receiver, and messages
  -- that name addresses no longer than a node id, the loop of a connection returns, with the first
  -- error of the web socket if there is one: each ping before that has got a pong with its
  -- payload, each close a close, and the server and the client are in a reachable state of the
  -- connection.
  pub handle_connection-Serves :
      (server : ApiServer) (tx : Sender) (arrivals : List Arrival)
      → server.channels.is_closed tx ≡ false
      → All IsOrderly arrivals
      → Returns (handle_connection d s to_vec server tx arrivals) (Serves server (new tx) arrivals)
  unfolding handle_connection new
  handle_connection-Serves server tx arrivals listens orderly =
      from_client-Serves arrivals server (new tx) listens (connected server tx) orderly
