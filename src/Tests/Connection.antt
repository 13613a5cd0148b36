-- ===== src/Tests/Connection.antt =====
-- A connection that is established, pings and fails, and a task of the router.
use mathlib.Core.List.{append-nil}
use noktulo.Prelude.{
  ℕ, ◌≡◌, refl, sym, List, [], ◌∷◌, ◌++◌, ◌==◌, Option, none, some, list_eq, nat_eq, Bool-cases,
  inl, inr, Returns, Result, okay, err, arith, All,
}
use noktulo.Digests.{checksums}
use noktulo.Address.Text.{from_pubkey-IsAddress}
use noktulo.Post.{SignedPost}
use noktulo.ApiServer.{
  ClientMessage, establish_req, challenge_responce, subscribe_req, post, Message, text, ping, close,
}
use noktulo.ApiServer.Client.{new}
use noktulo.ApiServer.Server.{ApiServer}
use noktulo.ApiServer.Router.{RecvError, closed, lagged, receive_loop}
use noktulo.ApiServer.Connection.{Arrival, handle_connection}
use noktulo.Prelude.Assoc.{lookup}
use noktulo.ApiServer.Keeping.{Follows}
use noktulo.ApiServer.Serving.{Serves, IsOrderly, handle_connection-Serves}
use noktulo.ApiServer.Subscriptions.{subscribers}
use noktulo.ApiServer.Feeds.{received, feed, AllListen, SameLists, receive_loop-feed}
use noktulo.Tests.Posts.{toy, toy_sign, ids_only, key, home, first_post}
use noktulo.Tests.Server.{server, fill, text as nonce, router, closed_from}

abbrev arrival : Result (Message (Option ClientMessage)) ℕ → Arrival
arrival item = record { others = λ sv. sv; fill = fill; challenge = nonce; item = item }

abbrev arrivals : List Arrival
arrivals =
    arrival (okay (text (some (establish_req home key))))
    ∷ arrival (okay (ping (7 ∷ [])))
    ∷ arrival (okay (text none))
    ∷ arrival (okay (text (some (challenge_responce (toy_sign key nonce)))))
    ∷ arrival (okay (text (some (subscribe_req home))))
    ∷ arrival (okay (text (some (post first_post))))
    ∷ arrival (okay (close none))
    ∷ arrival (err 104)
    ∷ arrival (okay (ping []))
    ∷ []

idle : (sv : ApiServer) → Follows sv.channels sv.channels
idle sv = (([], sym (append-nil sv.channels.sent)), refl)

arrivals-IsOrderly : All IsOrderly arrivals
arrivals-IsOrderly = (
  (idle, tt),
  (
    (idle, tt),
    (
      (idle, tt),
      (
        (idle, tt),
        (
          (idle, omega (arith, (from_pubkey-IsAddress checksums key).0)),
          ((idle, tt), ((idle, tt), ((idle, tt), ((idle, tt), tt)))),
        ),
      ),
    ),
  ),
)

handle_connection-Serves_example :
    Returns
      (handle_connection checksums toy ids_only server 1 arrivals)
      (Serves checksums toy ids_only server (new 1) arrivals)
handle_connection-Serves_example =
    handle_connection-Serves checksums toy ids_only server 1 arrivals refl arrivals-IsOrderly

abbrev items : List (Result SignedPost RecvError)
items = okay first_post ∷ err (lagged 2) ∷ okay first_post ∷ err closed ∷ okay first_post ∷ []

router-AllListen : AllListen (closed_from 9) (router (5 ∷ 6 ∷ []))
unfolding lookup
router-AllListen a = elim (Bool-cases (home == a)) [
  | inl e ↦ rw e (refl, (refl, tt))
  | inr e ↦ rw e tt
]

receive_loop-feed_example :
    Returns (receive_loop items (closed_from 9) (router (5 ∷ 6 ∷ []))) λ out.
      (out.0.sent ≡ [] ++ feed (subscribers (router (5 ∷ 6 ∷ []))) (received items))
      × SameLists (router (5 ∷ 6 ∷ [])) out.1
receive_loop-feed_example =
    receive_loop-feed items (closed_from 9) (router (5 ∷ 6 ∷ [])) router-AllListen
