-- ===== src/ApiServer/Subscriptions.antt =====
-- The router against what it stands for: for each address the clients that get its posts, and a node
-- of the network for exactly the addresses that have a list of clients.
use noktulo.Prelude.{
  ℕ, ◌-◌, ◌≤◌, ◌≡◌, refl, sym, ap, ◌∙◌, Bool, true, false, not, List, [], ◌∷◌, ◌++◌, Option, none,
  some, ltb, ltb→lt, ◌=ℕ=◌, ◌==◌, list_eq, nat_eq, list_beq_iff, if◌then◌else◌, length, filter,
  is_empty, Returns, arith, Bool-cases, Option-cases, inl, inr,
}
use noktulo.Prelude.Assoc.{lookup, insert, lookup-insert, lookup-remove}
use noktulo.Key.{Key, resize_with_random}
use noktulo.Address.{Address}
use noktulo.ApiServer.{Sender}
use noktulo.ApiServer.Router.{
  Router, pubsub_dht_key_length, start_subscription, stop_subscription, senders_of, subscribe,
  unsubscribe_from, unsubscribe,
}

abbrev pub is_some {ℓ} : {A : Type ℓ} → Option A → Bool
is_some none = false
is_some (some a) = true

-- The clients that get the posts of an address.
abbrev pub subscribers : Router → Address → List Sender
subscribers r a = senders_of (lookup a r.routing_map)

abbrev pub HasNodes : Router → Type 0
HasNodes r = (a : Address) → is_some (lookup a r.routing_map) ≡ is_some (lookup a r.nodes)

is_empty_nil {ℓ} : {A : Type ℓ} (xs : List A) → is_empty xs ≡ true → xs ≡ []
is_empty_nil [] e = refl
is_empty_nil (x ∷ xs) e = cc

-- A function that has the value `b` at one address.
at_self {ℓ} :
    {B : Type ℓ} (addr a : Address) (f : Address → B) (b : B)
    → f addr ≡ b
    → f a ≡ (if addr == a then b else f a)
at_self addr a f b e = elim (Bool-cases (addr == a)) [
  | inl same ↦ let eq : addr ≡ a = (list_beq_iff addr a).0 same in rw same (ap f (sym eq) ∙ e)
  | inr other ↦ rw other refl
]

pub start_subscription_lem :
    (fill : ℕ → List ℕ) (nodes : List (Address × Key)) (addr : Address)
    → length addr ≤ pubsub_dht_key_length
    → Returns (start_subscription fill nodes addr) λ nodes'.
      (a : Address)
      → is_some (lookup a nodes') ≡ (if addr == a then true else is_some (lookup a nodes))
unfolding start_subscription resize_with_random
start_subscription_lem fill nodes addr h =
    let id = addr ++ fill (pubsub_dht_key_length - length addr) in
    elim (Bool-cases (ltb pubsub_dht_key_length (length addr))) [
      | inl long ↦ absurd (omega (arith, ltb→lt pubsub_dht_key_length (length addr) long, h))
      | inr short ↦ elim (Option-cases (lookup addr nodes)) [
        | inl e ↦ (
          insert addr id nodes,
          rw (start_subscription, resize_with_random, short, e) refl,
          λ a. rw (lookup-insert addr a id nodes) (ground arith),
        )
        | inr (v, e) ↦ (
          nodes,
          rw (start_subscription, resize_with_random, short, e) refl,
          λ a. at_self addr a (λ k. is_some (lookup k nodes)) true (rw e refl),
        )
      ]
    ]

-- With an address no longer than a node id, subscribe returns, appends the client to the list of
-- that address, leaves the other lists, and keeps one node of the network for exactly the
-- addresses that have a list.
pub subscribe-HasNodes :
    (fill : ℕ → List ℕ) (r : Router) (addr : Address) (tx : Sender)
    → length addr ≤ pubsub_dht_key_length
    → HasNodes r
    → Returns (subscribe fill r addr tx) λ r'.
      HasNodes r'
      × ((a : Address)
          → subscribers r' a
            ≡ (if addr == a then subscribers r addr ++ tx ∷ [] else subscribers r a))
unfolding subscribe
subscribe-HasNodes fill r addr tx h has =
    let (nodes, e, known) = start_subscription_lem fill r.nodes addr h in
    let senders = subscribers r addr ++ tx ∷ [] in
    (
      record { routing_map = insert addr senders r.routing_map; nodes = nodes },
      rw (subscribe, e) refl,
      (
        λ a. rw (lookup-insert addr a senders r.routing_map, known a) (ground (arith, has a)),
        λ a. rw (lookup-insert addr a senders r.routing_map) (ground arith),
      ),
    )

-- unsubscribe takes every mention of the client off the list of the address, leaves the other
-- lists, and keeps one node for exactly the addresses that have a list.
pub unsubscribe-HasNodes :
    (r : Router) (addr : Address) (tx : Sender)
    → HasNodes r
    → HasNodes (unsubscribe r addr tx)
      × ((a : Address)
          → subscribers (unsubscribe r addr tx) a ≡ (
              if addr == a
              then filter (λ e. not (e =ℕ= tx)) (subscribers r addr)
              else subscribers r a))
unfolding unsubscribe unsubscribe_from stop_subscription
unsubscribe-HasNodes r addr tx has = elim (Option-cases (lookup addr r.routing_map)) [
  | inl none' ↦
      rw (unsubscribe, none') (has, λ a. at_self addr a (subscribers r) [] (rw none' refl))
  | inr (v, found) ↦ elim (Bool-cases (is_empty (filter (λ e. not (e =ℕ= tx)) v))) [
    | inl empty ↦
        rw (unsubscribe, found, unsubscribe_from, empty)
          (
            λ a.
                rw (lookup-remove addr a r.routing_map, lookup-remove addr a r.nodes)
                  (ground (arith, has a)),
            λ a. rw (lookup-remove addr a r.routing_map, is_empty_nil _ empty) (ground arith),
          )
    | inr left ↦
        rw (unsubscribe, found, unsubscribe_from, left)
          (
            λ a. rw (lookup-insert addr a (filter (λ e. not (e =ℕ= tx)) v) r.routing_map) (
                let known =
                  at_self addr a (λ k. is_some (lookup k r.nodes)) true
                    (sym (has addr) ∙ rw found refl) in
                ground (arith, known, has a)),
            λ a.
                rw (lookup-insert addr a (filter (λ e. not (e =ℕ= tx)) v) r.routing_map)
                  (ground arith),
          )
  ]
]
