-- ===== src/Timeline/Order.antt =====
-- What a client's timeline shows, the newest post first.
use noktulo.Prelude.{
  reversed, ℕ, zero, suc, ◌-◌, ◌<◌, ◌≡◌, refl, sym, ap, ◌∙◌, List, [], ◌∷◌, ◌++◌, some, ltb, ltb→lt,
  if◌then◌else◌, length, length-append, get_elem?, filter, ok, panic, arith, Bool-cases, inl, inr,
}
use noktulo.Post.{SignedPost, content_of}
use noktulo.Timeline.{Timeline, new, push, is_shown, get}
use mathlib.Core.List.{append-nil, append_assoc}

-- A client that receives posts, in order.
abbrev pub push_all : Timeline → List SignedPost → Timeline
push_all t [] = t
push_all t (p ∷ ps) = push_all (push t p) ps

module _ {ℓ} {A : Type ℓ} where
  length-reversed : (xs : List A) → length (reversed xs) ≡ length xs
  length-reversed [] = refl
  length-reversed (x ∷ xs) = omega (arith, length-append (reversed xs) (x ∷ []), length-reversed xs)

  get_elem?-append_left :
      (xs ys : List A) (i : ℕ) → i < length xs → get_elem? (xs ++ ys) i ≡ get_elem? xs i
  get_elem?-append_left [] ys i h = absurd (omega arith)
  get_elem?-append_left (x ∷ xs) ys zero h = refl
  get_elem?-append_left (x ∷ xs) ys (suc i) h = get_elem?-append_left xs ys i (omega arith)

  get_elem?-append_end : (xs : List A) (x : A) → get_elem? (xs ++ x ∷ []) (length xs) ≡ some x
  get_elem?-append_end [] x = refl
  get_elem?-append_end (y ∷ xs) x = get_elem?-append_end xs x

  from_the_end :
      (xs : List A) (i : ℕ)
      → i < length xs
      → get_elem? xs (length xs - i - 1) ≡ get_elem? (reversed xs) i
  from_the_end [] i h = absurd (omega arith)
  from_the_end (x ∷ xs) i h = elim (Bool-cases (ltb i (length xs))) [
    | inl lt ↦
        let inside : i < length xs = ltb→lt i (length xs) lt in
        let index : suc (length xs) - i - 1 ≡ suc (length xs - i - 1) = omega arith in
        rw index (
          from_the_end xs i inside
          ∙ sym
              (get_elem?-append_left (reversed xs) (x ∷ []) i (omega (arith, length-reversed xs))))
    | inr ge ↦
        let last : i ≡ length (reversed xs) = ground (arith, length-reversed xs) in
        let index : suc (length xs) - i - 1 ≡ 0 = omega (arith, last, length-reversed xs) in
        rw (index, last) (sym (get_elem?-append_end (reversed xs) x))
  ]

push_shown :
    (t : Timeline) (p : SignedPost)
    → push t p ≡ (if is_shown (content_of p) then record { posts = t.posts ++ p ∷ [] } else t)
unfolding push
push_shown t p = refl

posts-push_all :
    (t : Timeline) (ps : List SignedPost)
    → (push_all t ps).posts ≡ t.posts ++ filter (λ p. is_shown (content_of p)) ps
posts-push_all t [] = sym (append-nil t.posts)
posts-push_all t (p ∷ ps) = elim (Bool-cases (is_shown (content_of p))) [
  | inl yes' ↦
      let kept : push t p ≡ record { posts = t.posts ++ p ∷ [] } = rw yes' at (push_shown t p) in
      rw yes' (
        ap (λ u. (push_all u ps).posts) kept
        ∙ posts-push_all (record { posts = t.posts ++ p ∷ [] }) ps
        ∙ append_assoc t.posts (p ∷ []) (filter (λ q. is_shown (content_of q)) ps))
  | inr no' ↦
      let same : push t p ≡ t = rw no' at (push_shown t p) in
      rw no' (ap (λ u. (push_all u ps).posts) same ∙ posts-push_all t ps)
]

-- After any posts are pushed, get of an index below the number of those that are not deletions
-- returns the one of that index counted from the newest; every other index panics.
pub get-push_all :
    (ps : List SignedPost) (i : ℕ)
    → let shown = filter (λ p. is_shown (content_of p)) ps in
      get (push_all new ps) i
      ≡ (if ltb i (length shown) then ok (get_elem? (reversed shown) i) else panic)
unfolding get new
get-push_all ps i =
    let shown = filter (λ p. is_shown (content_of p)) ps in
    let all : (push_all new ps).posts ≡ shown = posts-push_all new ps in
    elim (Bool-cases (ltb i (length shown))) [
      | inl lt ↦ rw (get, all, lt) (ap ok (from_the_end shown i (ltb→lt i (length shown) lt)))
      | inr ge ↦ rw (get, all, ge) refl
    ]
