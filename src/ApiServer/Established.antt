-- ===== src/ApiServer/Established.antt =====
-- Connections: what has happened before a client is established and before its posts are published.
use noktulo.Prelude.{ℕ, ◌≡◌, List, [], ◌∷◌, ◌++◌, some, list_eq, nat_eq, ok, okay, ◌⊎◌}
use noktulo.Prelude.Assoc.{lookup}
use noktulo.Digests.{Digests}
use noktulo.Post.{Signing, Post, SignedPost, addr_of, verify}
use noktulo.ApiServer.{ClientMessage, Sender}
use noktulo.ApiServer.Client.{ClientInfo, new}
use noktulo.ApiServer.Server.{ApiServer, Outcome, handle_client_message}
use noktulo.ApiServer.Sent.{Grows}
use noktulo.ApiServer.Authentication.{IsAuthentic, IsAuthentic-Grows, handle-IsAuthentic}

module _ (d : Digests) (s : Signing) (to_vec : Post → List ℕ) where
  -- The states of one connection: its own messages, and what other connections do to the server in
  -- between. The connection ends at the first message whose handler fails.
  pub data Reachable : ApiServer → ClientInfo → Type 0 where
    connected : (server : ApiServer) (tx : Sender) → Reachable server (new tx)
    interleaved :
        (server server' : ApiServer) (info : ClientInfo)
        → Grows server.channels server'.channels
        → Reachable server info
        → Reachable server' info
    handled :
        (server server' : ApiServer) (info info' : ClientInfo) (fill : ℕ → List ℕ) (bytes : List ℕ)
        (msg : ClientMessage)
        → handle_client_message d s to_vec fill bytes server info msg ≡ ok (okay tt, server', info')
        → Reachable server info
        → Reachable server' info'

  -- In every reachable state of a connection each key registered for the client is registered
  -- under its own address and has signed a challenge that was sent to the client.
  pub Reachable-IsAuthentic :
      (server : ApiServer) (info : ClientInfo)
      → Reachable server info
      → IsAuthentic d s to_vec server.channels info
  unfolding new
  Reachable-IsAuthentic server info (connected _ tx) = (tt, tt)
  Reachable-IsAuthentic server info (interleaved before after client g r) =
      IsAuthentic-Grows d s to_vec before.channels after.channels client g
        (Reachable-IsAuthentic before client r)
  Reachable-IsAuthentic server info (handled before after client client' fill bytes msg e r) =
      handle-IsAuthentic d s to_vec fill bytes before after client client' msg
        (Reachable-IsAuthentic before client r) e

  -- A publisher was called, for a post that verifies under a registered key.
  abbrev IsPublished : ApiServer → ClientInfo → SignedPost → ApiServer → Type 0
  IsPublished server info p server' =
      (pk : List ℕ) × (lookup (addr_of p) info.registered ≡ some pk)
      × (verify d s to_vec p pk ≡ okay tt)
      × (server'.published ≡ server.published ++ addr_of p ∷ [])

  abbrev MayPublish : ApiServer → ClientInfo → SignedPost → Outcome → Type 0
  MayPublish server info p out =
      (out.1.published ≡ server.published) ⊎ IsPublished server info p out.1
