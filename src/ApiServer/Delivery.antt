-- ===== src/ApiServer/Delivery.antt =====
-- The delivery of a post to the subscribers of its author, and what a dead subscriber does to it.
use mathlib.Core.List.{Perm, perm_middle, append-nil, append_assoc}
use mathlib.Core.List.Perm
use noktulo.Prelude.{
  ℕ, suc, ◌+◌, ◌-◌, ◌≤◌, ◌<◌, ◌≡◌, refl, sym, ap, ◌∙◌, Bool, true, false, not, List, [], ◌∷◌, ◌++◌,
  map, some, ltb, ltb→lt, lt→ltb, list_eq, nat_eq, if◌then◌else◌, length, length-append, set, take,
  take-length_append, last?, filter, length-take, length-set, ok_inj, ok, panic, Returns, Run-cases,
  Result, okay, err, arith, Bool-cases, Option-cases, inl, inr, ◌⊎◌,
}
use noktulo.Post.{SignedPost}
use noktulo.ApiServer.{Sender, Channels, Frame, SendError, send_error, subscribed, text, send}
use noktulo.ApiServer.Router.{recorded, send_to_all, swap_remove, remove_all}

-- The positions, from `i` on, of the senders whose receiver is gone.
abbrev pub dead_at : (Sender → Bool) → ℕ → List Sender → List ℕ
dead_at closed i [] = []
dead_at closed i (tx ∷ txs) =
    let rest = dead_at closed (suc i) txs in if closed tx then i ∷ rest else rest

abbrev pub posts_to : SignedPost → List Sender → List (Sender × Frame)
posts_to p = map λ tx. (tx, text (subscribed p))

abbrev pub IsOpen : (Sender → Bool) → Sender → Type 0
IsOpen closed tx = closed tx ≡ false

module _ (c : Channels) (tx : Sender) (msg : Frame) where
  send_dead : c.is_closed tx ≡ true → send c tx msg ≡ (err (send_error msg), c)
  unfolding send
  send_dead e = rw (send, e) refl

  pub send_open :
      c.is_closed tx ≡ false
      → send c tx msg ≡ (okay tt, record c { sent = c.sent ++ (tx, msg) ∷ [] })
  unfolding send
  send_open e = rw (send, e) refl

send_to_all_cons :
    (c : Channels) (i : ℕ) (tx : Sender) (txs : List Sender) (p : SignedPost)
    (r : Result (Unit {0}) SendError × Channels)
    → send c tx (text (subscribed p)) ≡ r
    → send_to_all c i (tx ∷ txs) p ≡ recorded i r.0 (send_to_all r.1 (suc i) txs p)
unfolding send_to_all
send_to_all_cons c i tx txs p r e =
    ap
      (λ (q : Result (Unit {0}) SendError × Channels).
        recorded i q.0 (send_to_all q.1 (suc i) txs p))
      e

-- Every sender whose receiver is there gets the post, and the others are on the list.
pub send_to_all_lem :
    (c : Channels) (i : ℕ) (v : List Sender) (p : SignedPost)
    → send_to_all c i v p ≡ (
      record c { sent = c.sent ++ posts_to p (filter (λ tx. not (c.is_closed tx)) v) },
      dead_at c.is_closed i v,
    )
unfolding send_to_all
send_to_all_lem c i [] p = rw (append-nil c.sent) refl
send_to_all_lem c i (tx ∷ txs) p = elim (Bool-cases (c.is_closed tx)) [
  | inl closed ↦
      send_to_all_cons c i tx txs p _ (send_dead c tx (text (subscribed p)) closed)
      ∙ rw (send_to_all_lem c (suc i) txs p, closed) refl
  | inr open' ↦
      let c' : Channels = record c { sent = c.sent ++ (tx, text (subscribed p)) ∷ [] } in
      let open_txs = filter (λ t. not (c.is_closed t)) txs in
      send_to_all_cons c i tx txs p _ (send_open c tx (text (subscribed p)) open')
      ∙ rw
          (
            send_to_all_lem c' (suc i) txs p,
            append_assoc c.sent ((tx, text (subscribed p)) ∷ []) (posts_to p open_txs),
            open',
          )
          refl
]

module _ {ℓ} {A : Type ℓ} where
  last?-append : (xs : List A) (x : A) → last? (xs ++ x ∷ []) ≡ some x
  last?-append [] x = refl
  last?-append (y ∷ []) x = refl
  last?-append (y ∷ z ∷ xs) x = last?-append (z ∷ xs) x

  last?-some : (x : A) (xs : List A) → (y : A) × (last? (x ∷ xs) ≡ some y)
  last?-some x [] = (x, refl)
  last?-some x (y ∷ ys) = last?-some y ys

  snoc-cases : (xs : List A) → (xs ≡ []) ⊎ ((ys : List A) × (y : A) × (xs ≡ ys ++ y ∷ []))
  snoc-cases [] = inl refl
  snoc-cases (x ∷ xs) = elim (snoc-cases xs) [
    | inl e ↦ inr ([], x, ap (◌∷◌ x) e)
    | inr (ys, y, e) ↦ inr (x ∷ ys, y, ap (◌∷◌ x) e)
  ]

  set-middle :
      (ys : List A) (a b : A) (zs : List A) → set (ys ++ a ∷ zs) (length ys) b ≡ ys ++ b ∷ zs
  set-middle [] a b zs = refl
  set-middle (y ∷ ys) a b zs = ap (◌∷◌ y) (set-middle ys a b zs)

  swap_remove_at :
      (v : List A) (i : ℕ) (x : A)
      → last? v ≡ some x
      → i < length v
      → swap_remove v i ≡ ok (take (length v - 1) (set v i x))
  unfolding swap_remove
  swap_remove_at v i x e lt = rw (swap_remove, e, lt→ltb i (length v) lt) refl

  take-append_end : (n : ℕ) (xs : List A) (x : A) → n ≡ length xs → take n (xs ++ x ∷ []) ≡ xs
  take-append_end n xs x e = rw e (take-length_append xs (x ∷ []))

  -- `swap_remove` in range takes the element out, and keeps the others in some order.
  pub swap_remove-perm :
      (ys : List A) (a : A) (zs : List A)
      → Returns (swap_remove (ys ++ a ∷ zs) (length ys)) λ v. Perm v (ys ++ zs)
  unfolding swap_remove
  swap_remove-perm ys a zs = elim (snoc-cases zs) [
    | inl e ↦ rw e (
        let lt : length ys < length (ys ++ a ∷ []) = omega (arith, length-append ys (a ∷ [])) in
        (
          ys,
          swap_remove_at (ys ++ a ∷ []) (length ys) a (last?-append ys a) lt
              ∙ ap ok (
                  ap (take (length (ys ++ a ∷ []) - 1)) (set-middle ys a a [])
                  ∙ take-append_end _ ys a (omega (arith, length-append ys (a ∷ [])))),
          rw (append-nil ys) Perm.rfl,
        ))
    | inr (zs', l, e) ↦ rw e (
        let w = ys ++ a ∷ (zs' ++ l ∷ []) in
        let split : w ≡ (ys ++ a ∷ zs') ++ l ∷ [] = sym (append_assoc ys (a ∷ zs') (l ∷ [])) in
        let last : last? w ≡ some l = rw split (last?-append (ys ++ a ∷ zs') l) in
        let size = length-append ys (a ∷ (zs' ++ l ∷ [])) in
        let lt : length ys < length w = omega (arith, size) in
        let front : length w - 1 ≡ length (ys ++ l ∷ zs') =
          omega (arith, size, length-append ys (l ∷ zs'), length-append zs' (l ∷ [])) in
        (
          ys ++ l ∷ zs',
          swap_remove_at w (length ys) l last lt
              ∙ ap ok (
                  ap (take (length w - 1))
                    (set-middle ys a l (zs' ++ l ∷ []) ∙ sym (append_assoc ys (l ∷ zs') (l ∷ [])))
                  ∙ take-append_end (length w - 1) (ys ++ l ∷ zs') l front),
          Perm.append_left ys (Perm.symm (rw (append-nil zs') at (perm_middle {a = l} zs' []))),
        ))
  ]

  -- Out of range it panics, and else the vector is shorter by one.
  swap_remove_far : (v : List A) (i : ℕ) → length v ≤ i → swap_remove v i ≡ panic
  unfolding swap_remove
  swap_remove_far v i h = elim (Option-cases (last? v)) [
    | inl e ↦ rw (swap_remove, e) refl
    | inr (x, e) ↦ elim (Bool-cases (ltb i (length v))) [
      | inl lt ↦ absurd (omega (arith, ltb→lt i (length v) lt, h))
      | inr ge ↦ rw (swap_remove, e, ge) refl
    ]
  ]

  pub swap_remove-length :
      (v : List A) (i : ℕ) (w : List A) → swap_remove v i ≡ ok w → length w + 1 ≡ length v
  unfolding swap_remove
  swap_remove-length v i w e = elim (Option-cases (last? v)) [
    | inl none' ↦ let bad : panic ≡ ok w = rw (swap_remove, none') at e in cc
    | inr (x, some') ↦ elim (Bool-cases (ltb i (length v))) [
      | inr ge ↦ let bad : panic ≡ ok w = rw (swap_remove, some', ge) at e in cc
      | inl lt ↦
          let same : take (length v - 1) (set v i x) ≡ w =
            ok_inj (rw (swap_remove, some', lt) at e) in
          rw (sym same) (
            omega (
              arith,
              ltb→lt i (length v) lt,
              length-take (length v - 1) (set v i x),
              length-set v i x,
            ))
    ]
  ]

  pub swap_remove_lt :
      (v : List A) (i : ℕ) → i < length v → Returns (swap_remove v i) λ w. length w + 1 ≡ length v
  swap_remove_lt [] i lt = absurd (omega arith)
  swap_remove_lt (x ∷ xs) i lt =
      let (y, e) = last?-some x xs in
      let done = swap_remove_at (x ∷ xs) i y e lt in (_, done, swap_remove-length (x ∷ xs) i _ done)

  pub remove_all-far :
      (v : List A) (is' : List ℕ) (i : ℕ)
      → length v ≤ i + length is'
      → remove_all v (is' ++ i ∷ []) ≡ panic
  unfolding remove_all
  remove_all-far v [] i h = rw (swap_remove_far v i (omega arith)) refl
  remove_all-far v (j ∷ is') i h = elim (Run-cases (swap_remove v j)) [
    | inl e ↦ rw e refl
    | inr (w, e) ↦ rw e (remove_all-far w is' i (omega (arith, swap_remove-length v j w e)))
  ]
