-- ===== src/Cli/Sessions.antt =====
-- What holds in every session of the command line.
use noktulo.Prelude.{
  ℕ, suc, ◌+◌, ◌^◌, ◌<◌, ◌≤◌, length, Option, ◌≡◌, refl, sym, ap, ◌∙◌, inl, inr, true, List, [],
  ◌∷◌, some, All, All-append, All-append_right, All-mono, last?, ok, Returns, ok_inj, >>=-eq-ok,
  Result, okay, err, arith, Bool-cases, Option-cases, some_inj, subst, list_eq, nat_eq,
}
use noktulo.Digests.{Digests}
use noktulo.Prelude.Assoc.{insert-All}
use noktulo.Address.{Address, from_pubkey}
use noktulo.Address.Text.{from_pubkey-IsAddress}
use noktulo.Post.Verify.{verify_iff}
use noktulo.Post.{
  SignedPost, UserAttribute, Post, PostKind, addr_of, content_of, id_of, Signing, verify,
  VerifyError,
}
use noktulo.User.{UserHandle, next_id, create_post, sign_post, addr, pubkey}
use noktulo.User.Ids.{HasNext}
use noktulo.User.Posting.{IsOwn, create_post-IsOwn}
use noktulo.Timeline
use noktulo.Timeline.{Timeline, is_shown}
use noktulo.Cli.{
  Session, Round, print, Notice, key_for, show_verified, show_post, show_all, publish,
}

-- The address of a following fits a node id.
abbrev pub IsKnown : Address × Option UserAttribute → Type 0
IsKnown entry = length entry.0 ≤ 64

-- The ids leave room for so many more posts.
abbrev pub HasRoom : ℕ → List SignedPost → Type 0
HasRoom k posts = All (λ p. id_of p + 1 + k < 2 ^ 128) posts

last_All {ℓ} :
    {A : Type 0} (P : A → Type ℓ) (xs : List A) (x : A) → All P xs → last? xs ≡ some x → P x
last_All P [] x h e = cc
last_All P (y ∷ []) x h e = subst P (some_inj e) h.0
last_All P (y ∷ z ∷ xs) x h e = last_All P (z ∷ xs) x h.1 e

next_id-room :
    (k : ℕ) (posts : List SignedPost) (id : ℕ)
    → k < 2 ^ 127
    → HasRoom (suc k) posts
    → next_id posts ≡ ok id
    → id + 1 + k < 2 ^ 128
unfolding next_id
next_id-room k posts id small room e = elim (Option-cases (last? posts)) [
  | inl none_left ↦ ground arith
  | inr (p, last) ↦
      let below : id_of p + 1 + suc k < 2 ^ 128 =
        last_All (λ q. id_of q + 1 + suc k < 2 ^ 128) posts p room last in
      ground arith
]

HasRoom-HasNext : (k : ℕ) (posts : List SignedPost) → HasRoom k posts → All HasNext posts
HasRoom-HasNext k posts = All-mono _ _ posts λ p h. omega (arith, h)

module _ (d : Digests) (s : Signing) (to_vec : Post → List ℕ) where
  -- A post that is shown verifies under some key, and is no deletion.
  abbrev pub Shown : SignedPost → Type 0
  Shown p =
      ((key : List ℕ) × (verify d s to_vec p key ≡ okay tt)) × (is_shown (content_of p) ≡ true)

  -- A post that is published verifies under the user's key, and goes to the user's address.
  abbrev pub Published : List ℕ → SignedPost × Address → Type 0
  Published key r = (verify d s to_vec r.0 key ≡ okay tt) × (r.1 ≡ from_pubkey d key)

  pub record IsSound (t : Session) : Type 0 where
    pub own : IsOwn d s to_vec t.user_handle
    pub known : All IsKnown t.user_handle.followings
    pub shown : All Shown t.timeline.posts
    pub published : All (Published (s.public_key t.user_handle.signing_key)) t.published

  pub print-IsSound : (notice : Notice) (t : Session) → IsSound t → IsSound (print notice t)
  print-IsSound notice t h = record {
    own = h.own;
    known = h.known;
    shown = h.shown;
    published = h.published;
  }

  push-Shown :
      (timeline : Timeline) (p : SignedPost) (key : List ℕ)
      → All Shown timeline.posts
      → verify d s to_vec p key ≡ okay tt
      → All Shown (Timeline.push timeline p).posts
  unfolding Timeline.push
  push-Shown timeline p key h e = elim (Bool-cases (is_shown (content_of p))) [
    | inl shown ↦ rw shown (All-append Shown timeline.posts (p ∷ []) h (((key, e), shown), tt))
    | inr hidden ↦ rw hidden h
  ]

  verify-IsKnown :
      (p : SignedPost) (key : List ℕ) → verify d s to_vec p key ≡ okay tt → length (addr_of p) ≤ 64
  verify-IsKnown p key e =
      let (same, _, _) = (verify_iff d s to_vec p key).0 e in
      rw same (omega (arith, (from_pubkey-IsAddress d key).0))

  show_verified-IsSound :
      (p : SignedPost) (key : List ℕ) (t : Session) (r : Result (Unit {0}) VerifyError)
      → verify d s to_vec p key ≡ r
      → IsSound t
      → IsSound (show_verified d s to_vec p t r)
  unfolding show_verified
  show_verified-IsSound p key t (err e) verified h = h
  show_verified-IsSound p key t (okay _) verified h = record {
    own = h.own;
    known =
        insert-All IsKnown (addr_of p) _ t.user_handle.followings (verify-IsKnown p key verified)
          h.known;
    shown = push-Shown t.timeline p key h.shown verified;
    published = h.published;
  }

  show_post-IsSound :
      (round : Round) (t : Session) (p : SignedPost)
      → IsSound t
      → IsSound (show_post d s to_vec round t p)
  unfolding show_post
  show_post-IsSound round t p h =
      elim (Option-cases (key_for d s to_vec round t.pubkey_dict (addr_of p))) [
        | inl e ↦ rw (show_post, e) h
        | inr ((key, dict), e) ↦
            rw (show_post, e)
              (show_verified-IsSound p key (record t { pubkey_dict = dict }) _ refl
                (record { own = h.own; known = h.known; shown = h.shown; published = h.published }))
      ]

  pub show_all-IsSound :
      (round : Round) (t : Session) (ps : List SignedPost)
      → IsSound t
      → IsSound (show_all d s to_vec round t ps)
  unfolding show_all
  show_all-IsSound round t [] h = h
  show_all-IsSound round t (p ∷ ps) h =
      show_all-IsSound round (show_post d s to_vec round t p) ps (show_post-IsSound round t p h)

  show_verified-posts :
      (p : SignedPost) (t : Session) (r : Result (Unit {0}) VerifyError)
      → (show_verified d s to_vec p t r).user_handle.posts ≡ t.user_handle.posts
  unfolding show_verified
  show_verified-posts p t (err e) = refl
  show_verified-posts p t (okay _) = refl

  show_post-posts :
      (round : Round) (t : Session) (p : SignedPost)
      → (show_post d s to_vec round t p).user_handle.posts ≡ t.user_handle.posts
  unfolding show_post
  show_post-posts round t p =
      elim (Option-cases (key_for d s to_vec round t.pubkey_dict (addr_of p))) [
        | inl e ↦ rw (show_post, e) refl
        | inr ((key, dict), e) ↦
            rw (show_post, e) (show_verified-posts p (record t { pubkey_dict = dict }) _)
      ]

  pub show_all-posts :
      (round : Round) (t : Session) (ps : List SignedPost)
      → (show_all d s to_vec round t ps).user_handle.posts ≡ t.user_handle.posts
  unfolding show_all
  show_all-posts round t [] = refl
  show_all-posts round t (p ∷ ps) =
      show_all-posts round (show_post d s to_vec round t p) ps ∙ show_post-posts round t p

  -- A new post is verified by the user's key and leaves room for one post less.
  pub create_post-room :
      (k now : ℕ) (h : UserHandle) (content : PostKind)
      → IsOwn d s to_vec h
      → k < 2 ^ 127
      → HasRoom (suc k) h.posts
      → Returns (create_post d s to_vec now h content) λ r.
        IsOwn d s to_vec r.1
        × (r.1.signing_key ≡ h.signing_key)
        × (r.1.followings ≡ h.followings)
        × (verify d s to_vec r.0 (s.public_key h.signing_key) ≡ okay tt)
        × HasRoom k r.1.posts
  unfolding create_post sign_post
  create_post-room k now h content own small room =
      let (r, e, (own', (shape, _, _))) =
        create_post-IsOwn d s to_vec now h content own (HasRoom-HasNext (suc k) h.posts room) in
      let (id, found, made) = >>=-eq-ok (next_id h.posts) _ e in
      let same : id ≡ id_of r.0 = ap (λ q. id_of (q.0)) (ok_inj made) in
      let signed = subst (λ (u : UserHandle). IsOwn d s to_vec u) shape own' in
      (
        r,
        e,
        (
          own',
          ap (λ (u : UserHandle). u.signing_key) shape,
          ap (λ (u : UserHandle). u.followings) shape,
          (All-append_right _ h.posts (r.0 ∷ []) signed.1).0,
          rw (ap (λ (u : UserHandle). u.posts) shape) (
              All-append _ h.posts (r.0 ∷ [])
                (All-mono _ _ h.posts (λ p below. omega (arith, below)) room)
                (omega (arith, next_id-room k h.posts id small room found, same), tt)),
        ),
      )

  pub publish-IsSound :
      (t : Session) (r : SignedPost × UserHandle)
      → IsSound t
      → IsOwn d s to_vec r.1
      → r.1.signing_key ≡ t.user_handle.signing_key
      → r.1.followings ≡ t.user_handle.followings
      → verify d s to_vec r.0 (s.public_key t.user_handle.signing_key) ≡ okay tt
      → IsSound (publish d s to_vec t r)
  unfolding publish addr pubkey
  publish-IsSound t (p, u) h own same follows verified = record {
    own = own;
    known = rw follows h.known;
    shown = h.shown;
    published =
        All-append (Published (s.public_key u.signing_key)) t.published
          ((p, from_pubkey d (s.public_key u.signing_key)) ∷ [])
          (subst (λ key. All (Published (s.public_key key)) t.published) (sym same) h.published)
          ((rw same verified, refl), tt);
  }
