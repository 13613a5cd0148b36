-- ===== src/ApiServer/Connection.antt =====
-- src/api_server/server.rs, `handle_connection`: the messages of one client, until its web socket
-- ends or fails.
use noktulo.Prelude.{
  ℕ, List, [], ◌∷◌, Option, none, some, nat_eq, list_eq, Run, ok, ◌>>=◌, Result, okay, err,
}
use noktulo.Digests.{Digests}
use noktulo.Post.{Signing, Post}
use noktulo.ApiServer.{ClientMessage, Sender, SendError, Message, text, binary, ping, pong, close}
use noktulo.ApiServer.Client.{ClientInfo, send, new}
use noktulo.ApiServer.Server.{ApiServer, Outcome, answered, handle_client_message}

-- An error of the system or of the web socket stands here by a number.
pub data ApiServerError : Type 0 where
  tcp web_socket : ℕ → ApiServerError
  sender : SendError → ApiServerError

-- One round of the loop: what other connections do to the server before it, what the generators
-- give in it, and what the web socket yields. A text is what `serde_json::from_str` makes of it.
pub record Arrival : Type 0 where
  pub others : ApiServer → ApiServer
  pub fill : ℕ → List ℕ
  pub challenge : List ℕ
  pub item : Result (Message (Option ClientMessage)) ℕ

abbrev pub Ended : Type 0
Ended = Result (Unit {0}) ApiServerError × ApiServer × ClientInfo

-- `map_err(|e| ApiServerError::Sender(e))`
abbrev pub sender_error : Result (Unit {0}) SendError → Result (Unit {0}) ApiServerError
sender_error (okay u) = okay u
sender_error (err e) = err (sender e)

abbrev pub with_error : Outcome → Ended
with_error (r, server, info) = (sender_error r, server, info)

module _ (d : Digests) (s : Signing) (to_vec : Post → List ℕ) where
  unfoldable pub on_message :
      (ℕ → List ℕ) → List ℕ → ApiServer → ClientInfo → Message (Option ClientMessage) → Run Ended
  on_message fill challenge server info (text none) = ok (okay tt, server, info)
  on_message fill challenge server info (text (some msg)) =
      handle_client_message d s to_vec fill challenge server info msg >>= λ out. ok (with_error out)
  on_message fill challenge server info (ping payload) =
      ok (with_error (answered server info (send server.channels info (pong payload))))
  on_message fill challenge server info (close cf) =
      ok (with_error (answered server info (send server.channels info (close cf))))
  on_message fill challenge server info (pong payload) = ok (okay tt, server, info)
  on_message fill challenge server info (binary payload) = ok (okay tt, server, info)

  -- The body of the loop.
  unfoldable pub on_item : Arrival → ApiServer → ClientInfo → Run Ended
  unfolding on_message
  on_item a server info = elim a.item [
    | okay msg ↦ on_message a.fill a.challenge server info msg
    | err e ↦ ok (err (web_socket e), server, info)
  ]

  -- The loop, over what the web socket yields.
  unfoldable pub from_client : List Arrival → ApiServer → ClientInfo → Run Ended
  unfolding on_item
  from_client [] server info = ok (okay tt, server, info)
  from_client (a ∷ rest) server info = on_item a (a.others server) info >>= λ out. elim out.0 [
    | okay u ↦ from_client rest out.1 out.2
    | err e ↦ ok out
  ]

  unfoldable pub handle_connection : ApiServer → Sender → List Arrival → Run Ended
  unfolding from_client
  handle_connection server tx arrivals = from_client arrivals server (new tx)
