-- ===== src/ApiServer/Feeds.antt =====
-- src/api_server/subscription_router.rs: what the router's task sends while no client is dead.
use mathlib.Core.List.{append-nil, append_assoc}
use noktulo.Prelude.{
  ◌≡◌, refl, sym, ap, ◌∙◌, List, [], ◌∷◌, ◌++◌, some, list_eq, nat_eq, list_beq_iff, ◌==◌, All, ok,
  Returns, Result, okay, err, Bool-cases, Option-cases, inl, inr, subst,
}
use noktulo.Prelude.Assoc.{lookup, insert, lookup-insert}
use noktulo.Address.{Address}
use noktulo.Post.{SignedPost, addr_of}
use noktulo.ApiServer.{Sender, Channels, Frame}
use noktulo.ApiServer.Router.{
  Router, remove_all, deliver, RecvError, closed, lagged, receive_loop, senders_of,
}
use noktulo.ApiServer.Delivery.{posts_to, IsOpen, send_to_all_lem}
use noktulo.ApiServer.DeadClients.{dead_at-IsOpen, filter-IsOpen}
use noktulo.ApiServer.Subscriptions.{subscribers}

-- The posts that the receiver yields until its channel is closed.
abbrev pub received : List (Result SignedPost RecvError) → List SignedPost
received [] = []
received (okay msg ∷ rest) = msg ∷ received rest
received (err closed ∷ rest) = []
received (err (lagged n) ∷ rest) = received rest

-- Each post for each subscriber of its author, in order.
abbrev pub feed : (Address → List Sender) → List SignedPost → List (Sender × Frame)
feed subs [] = []
feed subs (p ∷ ps) = posts_to p (subs (addr_of p)) ++ feed subs ps

abbrev pub AllListen : Channels → Router → Type 0
AllListen c r = (a : Address) → All (IsOpen c.is_closed) (subscribers r a)

abbrev pub SameLists : Router → Router → Type 0
SameLists r r' = (a : Address) → lookup a r'.routing_map ≡ lookup a r.routing_map

insert-same :
    {V : Type 0} (k : Address) (v : V) (m : List (Address × V))
    → lookup k m ≡ some v
    → (a : Address) → lookup a (insert k v m) ≡ lookup a m
insert-same k v m e a = lookup-insert k a v m ∙ elim (Bool-cases (k == a)) [
  | inl same ↦
      let eq : k ≡ a = (list_beq_iff k a).0 same in rw same (sym e ∙ ap (λ b. lookup b m) eq)
  | inr other ↦ rw other refl
]

deliver-open :
    (c : Channels) (r : Router) (msg : SignedPost)
    → AllListen c r
    → (r' : Router) × (deliver c r msg
        ≡ ok (record c { sent = c.sent ++ posts_to msg (subscribers r (addr_of msg)) }, r'))
      × SameLists r r'
unfolding deliver remove_all
deliver-open c r msg open' = elim (Option-cases (lookup (addr_of msg) r.routing_map)) [
  | inl none' ↦ (r, rw (deliver, none', append-nil c.sent) refl, λ a. refl)
  | inr (v, found) ↦
      let all : All (IsOpen c.is_closed) v =
        subst (λ o. All (IsOpen c.is_closed) (senders_of o)) found (open' (addr_of msg)) in
      (
        record r { routing_map = insert (addr_of msg) v r.routing_map },
        rw
            (
              deliver,
              found,
              send_to_all_lem c 0 v msg,
              dead_at-IsOpen c.is_closed 0 v all,
              filter-IsOpen c.is_closed v all,
            )
            refl,
        insert-same (addr_of msg) v r.routing_map found,
      )
]

feed_ext :
    (subs subs' : Address → List Sender)
    → ((a : Address) → subs' a ≡ subs a)
    → (ps : List SignedPost) → feed subs' ps ≡ feed subs ps
feed_ext subs subs' e [] = refl
feed_ext subs subs' e (p ∷ ps) = rw (e (addr_of p), feed_ext subs subs' e ps) refl

-- While every subscriber listens, the task of the router returns at the end or where its channel
-- is closed. Every post that it receives before, less those that it is told it missed, goes to
-- each subscriber of its author, in order, and the lists of subscribers stay.
pub receive_loop-feed :
    (items : List (Result SignedPost RecvError)) (c : Channels) (r : Router)
    → AllListen c r
    → Returns
        (receive_loop items c r)
        λ out. (out.0.sent ≡ c.sent ++ feed (subscribers r) (received items)) × SameLists r out.1
unfolding receive_loop
receive_loop-feed [] c r h = ((c, r), refl, (sym (append-nil c.sent), λ a. refl))
receive_loop-feed (okay msg ∷ rest) c r h =
    let (r', e, same) = deliver-open c r msg h in
    let subs = subscribers r in
    let same_subs : (a : Address) → subscribers r' a ≡ subs a = λ a. ap senders_of (same a) in
    let c' : Channels = record c { sent = c.sent ++ posts_to msg (subs (addr_of msg)) } in
    let h' : AllListen c' r' = λ a. subst (All (IsOpen c.is_closed)) (sym (same_subs a)) (h a) in
    let (out, ran, (sent, lists)) = receive_loop-feed rest c' r' h' in
    (
      out,
      rw e ran,
      (
        sent
            ∙ ap (λ l. c'.sent ++ l) (feed_ext subs (subscribers r') same_subs (received rest))
            ∙ append_assoc c.sent (posts_to msg (subs (addr_of msg))) (feed subs (received rest)),
        λ a. lists a ∙ same a,
      ),
    )
receive_loop-feed (err closed ∷ rest) c r h = ((c, r), refl, (sym (append-nil c.sent), λ a. refl))
receive_loop-feed (err (lagged n) ∷ rest) c r h = receive_loop-feed rest c r h
