-- ===== src/Tests/Server.antt =====
-- The server: subscribers that are gone, and a client that is established and posts.
use noktulo.Prelude.{
  ℕ, ◌≡◌, refl, not, List, [], ◌∷◌, ◌++◌, some, ◌=ℕ=◌, ltb, ◌==◌, list_eq, nat_eq, replicate,
  Bool-cases, inl, inr, filter, Run, ok, panic, Returns, okay, arith, if◌then◌else◌,
}
use mathlib.Core.List.{Perm}
use noktulo.Prelude.Assoc.{lookup}
use noktulo.Digests.{checksums}
use noktulo.Address.Text.{from_pubkey-IsAddress}
use noktulo.Address.{from_pubkey}
use noktulo.ApiServer.{
  Channels, Sender, ClientMessage, establish_req, challenge_responce, post, send as send_on,
}
use noktulo.ApiServer.Client
use noktulo.ApiServer.Client.{ClientInfo}
use noktulo.ApiServer.Router
use noktulo.ApiServer.Router.{Router, deliver, subscribe, unsubscribe}
use noktulo.ApiServer.Server.{ApiServer, Outcome, handle_client_message, establish, respond}
use noktulo.ApiServer.Delivery.{posts_to}
use noktulo.ApiServer.DeadClients.{deliver-one_dead, deliver-two_dead}
use noktulo.ApiServer.Subscriptions.{
  HasNodes, subscribers, subscribe-HasNodes, unsubscribe-HasNodes,
}
use noktulo.ApiServer.Authentication.{IsAuthentic}
use noktulo.ApiServer.Established.{Reachable, connected, handled, Reachable-IsAuthentic}
use noktulo.Tests.Posts.{toy, toy_sign, ids_only, key, home, first_post}

abbrev pub closed_from : ℕ → Channels
closed_from n = record { is_closed = λ t. ltb n t; sent = [] }

abbrev pub router : List Sender → Router
router v = record { routing_map = (home, v) ∷ []; nodes = (home, []) ∷ [] }

deliver-one_dead_example :
    Returns (deliver (closed_from 2) (router (1 ∷ 3 ∷ 2 ∷ [])) first_post) λ out.
      (out.0.sent ≡ posts_to first_post (1 ∷ 2 ∷ []))
      × (left : List Sender) × (lookup home out.1.routing_map ≡ some left)
      × Perm left (1 ∷ 2 ∷ [])
unfolding lookup from_pubkey
deliver-one_dead_example =
    deliver-one_dead (closed_from 2) (router (1 ∷ 3 ∷ 2 ∷ [])) first_post (1 ∷ []) 3 (2 ∷ []) refl
      (refl, tt) refl (refl, tt)

deliver-two_dead_example : deliver (closed_from 2) (router (3 ∷ 1 ∷ 4 ∷ [])) first_post ≡ panic
unfolding lookup from_pubkey
deliver-two_dead_example =
    deliver-two_dead (closed_from 2) (router (3 ∷ 1 ∷ 4 ∷ [])) first_post [] 3 (1 ∷ []) 4 refl refl
      refl

new-HasNodes : HasNodes Router.new
unfolding Router.new
new-HasNodes a = refl

router-HasNodes : (v : List Sender) → HasNodes (router v)
unfolding lookup
router-HasNodes v a = elim (Bool-cases (home == a)) [ inl e ↦ rw e refl | inr e ↦ rw e refl ]

subscribe-HasNodes_example : Returns (subscribe (λ n. replicate n 9) Router.new home 5) λ r'.
    HasNodes r'
    × ((a : List ℕ)
        → subscribers r' a
          ≡ (if home == a then subscribers Router.new home ++ 5 ∷ [] else subscribers Router.new a))
subscribe-HasNodes_example =
    subscribe-HasNodes (λ n. replicate n 9) Router.new home 5
      (omega (arith, (from_pubkey-IsAddress checksums key).0)) new-HasNodes

unsubscribe-HasNodes_example :
    HasNodes (unsubscribe (router (5 ∷ 6 ∷ [])) home 5)
    × ((a : List ℕ)
        → subscribers (unsubscribe (router (5 ∷ 6 ∷ [])) home 5) a ≡ (
            if home == a
            then filter (λ e. not (e =ℕ= 5)) (subscribers (router (5 ∷ 6 ∷ [])) home)
            else subscribers (router (5 ∷ 6 ∷ [])) a))
unsubscribe-HasNodes_example =
    unsubscribe-HasNodes (router (5 ∷ 6 ∷ [])) home 5 (router-HasNodes (5 ∷ 6 ∷ []))

abbrev pub server : ApiServer
server = record {
  publishers = [];
  router = Router.new;
  channels = closed_from 9;
  puts = [];
  published = [];
}

abbrev pub text : List ℕ
text = replicate 32 3

abbrev pub fill : ℕ → List ℕ
fill n = replicate n 9

abbrev handle : ApiServer → ClientInfo → ClientMessage → Run Outcome
handle = handle_client_message checksums toy ids_only fill text

-- What a handler leaves, where it does not panic.
abbrev after : Run Outcome → Outcome
after (ok out) = out
after panic = (okay tt, server, Client.new 1)

abbrev challenged : Outcome
challenged = after (handle server (Client.new 1) (establish_req home key))

abbrev welcomed : Outcome
welcomed = after (handle challenged.1 challenged.2 (challenge_responce (toy_sign key text)))

challenged-ok :
    handle server (Client.new 1) (establish_req home key) ≡ ok (okay tt, challenged.1, challenged.2)
unfolding handle_client_message establish from_pubkey Client.send_challenge send_on Client.new
challenged-ok = refl

welcomed-ok :
    handle challenged.1 challenged.2 (challenge_responce (toy_sign key text))
    ≡ ok (okay tt, welcomed.1, welcomed.2)
unfolding handle_client_message respond Client.verify_challenge_sig establish from_pubkey
    Client.send_challenge send_on Client.new
welcomed-ok = refl

welcomed-Reachable : Reachable checksums toy ids_only welcomed.1 welcomed.2
welcomed-Reachable =
    handled challenged.1 welcomed.1 challenged.2 welcomed.2 fill text
      (challenge_responce (toy_sign key text)) welcomed-ok
      (handled server challenged.1 (Client.new 1) challenged.2 fill text (establish_req home key)
        challenged-ok (connected server 1))

Reachable-IsAuthentic_example : IsAuthentic checksums toy ids_only welcomed.1.channels welcomed.2
Reachable-IsAuthentic_example =
    Reachable-IsAuthentic checksums toy ids_only welcomed.1 welcomed.2 welcomed-Reachable

abbrev posted : Outcome
posted = after (handle welcomed.1 welcomed.2 (post first_post))
