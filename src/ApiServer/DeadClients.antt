-- ===== src/ApiServer/DeadClients.antt =====
-- Subscribers whose connection is gone when a post of their author is delivered.
use mathlib.Core.List.{Perm}
use native.Mathlib.Nat.{zero-add}
use noktulo.Prelude.{
  ℕ, suc, ◌+◌, ◌≤◌, ◌≡◌, refl, ap, ◌∙◌, Bool, true, not, List, [], ◌∷◌, ◌++◌, some, list_eq, nat_eq,
  list_beq_refl, length, length-append, filter, All, panic, Returns, arith, Bool-cases, inl, inr,
}
use noktulo.Prelude.Assoc.{lookup, insert, lookup-insert}
use noktulo.Post.{SignedPost, addr_of}
use noktulo.ApiServer.{Sender, Channels}
use noktulo.ApiServer.Router.{Router, remove_all, deliver}
use noktulo.ApiServer.Delivery.{
  dead_at, posts_to, IsOpen, send_to_all_lem, swap_remove-perm, remove_all-far,
}

module _ (closed : Sender → Bool) where
  dead_at-append :
      (i : ℕ) (xs ys : List Sender)
      → dead_at closed i (xs ++ ys) ≡ dead_at closed i xs ++ dead_at closed (i + length xs) ys
  dead_at-append i [] ys = ap (λ n. dead_at closed n ys) (omega arith)
  dead_at-append i (x ∷ xs) ys =
      let index : suc i + length xs ≡ i + suc (length xs) = omega arith in
      let rest =
        dead_at-append (suc i) xs ys
        ∙ ap (λ n. dead_at closed (suc i) xs ++ dead_at closed n ys) index in
      elim (Bool-cases (closed x)) [ inl e ↦ rw e (ap (◌∷◌ i) rest) | inr e ↦ rw e rest ]

  -- A dead client is found somewhere.
  dead_at-some :
      (i : ℕ) (xs : List Sender) (tx : Sender) (ys : List Sender)
      → closed tx ≡ true
      → 1 ≤ length (dead_at closed i (xs ++ tx ∷ ys))
  dead_at-some i [] tx ys dead = rw dead (omega arith)
  dead_at-some i (x ∷ xs) tx ys dead =
      let rest = dead_at-some (suc i) xs tx ys dead in
      elim (Bool-cases (closed x)) [ inl e ↦ rw e (omega arith) | inr e ↦ rw e rest ]

  pub dead_at-IsOpen :
      (i : ℕ) (xs : List Sender) → All (IsOpen closed) xs → dead_at closed i xs ≡ []
  dead_at-IsOpen i [] h = refl
  dead_at-IsOpen i (x ∷ xs) h = rw (h.0, dead_at-IsOpen (suc i) xs h.1) refl

  pub filter-IsOpen :
      (xs : List Sender) → All (IsOpen closed) xs → filter (λ tx. not (closed tx)) xs ≡ xs
  filter-IsOpen [] h = refl
  filter-IsOpen (x ∷ xs) h = rw (h.0, filter-IsOpen xs h.1) refl

  -- One dead client is found at its place.
  dead_at-one :
      (i : ℕ) (xs : List Sender) (tx : Sender) (ys : List Sender)
      → All (IsOpen closed) xs
      → closed tx ≡ true
      → All (IsOpen closed) ys
      → dead_at closed i (xs ++ tx ∷ ys) ≡ (i + length xs) ∷ []
  dead_at-one i [] tx ys hx dead hy =
      let index : i + 0 ≡ i = omega arith in rw (dead, dead_at-IsOpen (suc i) ys hy, index) refl
  dead_at-one i (x ∷ xs) tx ys hx dead hy =
      let index : suc i + length xs ≡ i + suc (length xs) = omega arith in
      rw (hx.0, ← index, dead_at-one (suc i) xs tx ys hx.1 dead hy) refl

  filter-one :
      (xs : List Sender) (tx : Sender) (ys : List Sender)
      → All (IsOpen closed) xs
      → closed tx ≡ true
      → All (IsOpen closed) ys
      → filter (λ t. not (closed t)) (xs ++ tx ∷ ys) ≡ xs ++ ys
  filter-one [] tx ys hx dead hy = rw dead (filter-IsOpen ys hy)
  filter-one (x ∷ xs) tx ys hx dead hy = rw (hx.0, filter-one xs tx ys hx.1 dead hy) refl

module _ (c : Channels) (r : Router) (msg : SignedPost) where
  -- With exactly one dead subscriber among those of the post's author, delivery returns: the
  -- others get the post once, in order, and the dead one leaves the list.
  pub deliver-one_dead :
      (xs : List Sender) (tx : Sender) (ys : List Sender)
      → lookup (addr_of msg) r.routing_map ≡ some (xs ++ tx ∷ ys)
      → All (IsOpen c.is_closed) xs
      → c.is_closed tx ≡ true
      → All (IsOpen c.is_closed) ys
      → Returns (deliver c r msg) λ out.
        (out.0.sent ≡ c.sent ++ posts_to msg (xs ++ ys))
        × (left : List Sender) × (lookup (addr_of msg) out.1.routing_map ≡ some left)
        × Perm left (xs ++ ys)
  unfolding deliver remove_all
  deliver-one_dead xs tx ys found hx dead hy =
      let (left, removed, same) = swap_remove-perm xs tx ys in
      let one : dead_at c.is_closed 0 (xs ++ tx ∷ ys) ≡ length xs ∷ [] =
        rw (zero-add (length xs)) at (dead_at-one c.is_closed 0 xs tx ys hx dead hy) in
      let live = filter-one c.is_closed xs tx ys hx dead hy in
      let loop = send_to_all_lem c 0 (xs ++ tx ∷ ys) msg in
      (
        (
          record c { sent = c.sent ++ posts_to msg (xs ++ ys) },
          record r { routing_map = insert (addr_of msg) left r.routing_map },
        ),
        rw (deliver, found, loop, one, live, remove_all, removed) refl,
        (
          refl,
          left,
          rw
              (
                lookup-insert (addr_of msg) (addr_of msg) left r.routing_map,
                list_beq_refl (addr_of msg),
              )
              refl,
          same,
        ),
      )

  -- With a dead subscriber at the end of the author's list and another before it, delivery panics.
  pub deliver-two_dead :
      (xs : List Sender) (tx : Sender) (ys : List Sender) (last : Sender)
      → lookup (addr_of msg) r.routing_map ≡ some ((xs ++ tx ∷ ys) ++ last ∷ [])
      → c.is_closed tx ≡ true
      → c.is_closed last ≡ true
      → deliver c r msg ≡ panic
  unfolding deliver
  deliver-two_dead xs tx ys last found dead dead_last =
      let v = xs ++ tx ∷ ys in
      let n = 0 + length v in
      let split : dead_at c.is_closed 0 (v ++ last ∷ []) ≡ dead_at c.is_closed 0 v ++ n ∷ [] =
        rw dead_last at (dead_at-append c.is_closed 0 v (last ∷ [])) in
      let some' = dead_at-some c.is_closed 0 xs tx ys dead in
      let far =
        remove_all-far (v ++ last ∷ []) (dead_at c.is_closed 0 v) n
          (omega (arith, length-append v (last ∷ []), some')) in
      rw (deliver, found, send_to_all_lem c 0 (v ++ last ∷ []) msg, split, far) refl
