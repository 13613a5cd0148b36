-- ===== src/User/Posting.antt =====
-- What a user's posts satisfy, before and after a post is made or deleted.
use noktulo.Prelude.{
  ℕ, ◌<◌, ◌≡◌, ◌≢◌, refl, List, [], ◌∷◌, ◌++◌, Option, none, some, =ℕ=_iff, list_eq, nat_eq,
  get_elem?, remove_at, All, All-append, Returns, okay, list_beq_refl,
}
use noktulo.Digests.{Digests}
use noktulo.Post.{
  SignedPost, Post, post, PostKind, delete, Signing, id_of, content_of, verify, verify_signed,
}
use noktulo.Address.{from_pubkey}
use noktulo.User.{UserHandle, pubkey, addr, sign_post, create_post}
use noktulo.User.Ids.{IsAscending, HasNext, IsAscending-append, next_id-fresh}

module _ (d : Digests) (s : Signing) (to_vec : Post → List ℕ) where
  abbrev pub IsSignedBy : List ℕ → SignedPost → Type 0
  IsSignedBy key p = verify d s to_vec p key ≡ okay tt

  -- The ids ascend, and the user's public key verifies every post.
  abbrev pub IsOwn : UserHandle → Type 0
  IsOwn h = IsAscending h.posts × All (IsSignedBy (s.public_key h.signing_key)) h.posts

  sign_post-verify :
      (h : UserHandle) (p : Post)
      → IsSignedBy (s.public_key h.signing_key) (sign_post d s to_vec h p)
  unfolding sign_post verify verify_signed addr pubkey
  sign_post-verify h p =
      rw
        (
          list_beq_refl (from_pubkey d (s.public_key h.signing_key)),
          (=ℕ=_iff _ _).1 (s.sign_length h.signing_key (to_vec p)),
          s.verify-sign h.signing_key (to_vec p),
        )
        refl

  -- What `create_post` does.
  abbrev pub Creates : UserHandle → PostKind → SignedPost × UserHandle → Type 0
  Creates h content r =
      (r.1 ≡ record h { posts = h.posts ++ r.0 ∷ [] })
      × (content_of r.0 ≡ content)
      × All (λ q. id_of q < id_of r.0) h.posts

  pub create_post-IsOwn :
      (now : ℕ) (h : UserHandle) (content : PostKind)
      → IsOwn h
      → All HasNext h.posts
      → Returns (create_post d s to_vec now h content) λ r. IsOwn r.1 × Creates h content r
  unfolding create_post sign_post
  create_post-IsOwn now h content own room =
      let (n, e, fresh) = next_id-fresh h.posts own.0 room in
      let p = post h.sig_attr.attr n content now in
      let made = sign_post d s to_vec h p in
      (
        (made, record h { posts = h.posts ++ made ∷ [] }),
        rw e refl,
        (
          (
            IsAscending-append h.posts made own.0 fresh.1,
            All-append (IsSignedBy (s.public_key h.signing_key)) h.posts (made ∷ []) own.1
                (sign_post-verify h p, tt),
          ),
          (refl, refl, fresh.1),
        ),
      )

  -- What `del` does on a user without a post of the id, and on one with such a post at `i`.
  pub data Deletes (h : UserHandle) (id : ℕ) (r : Option SignedPost × UserHandle) : Type 0 where
    absent : All (λ q. id_of q ≢ id) h.posts → r ≡ (none, h) → Deletes h id r
    deleted :
        (i : ℕ) (gone made : SignedPost)
        → get_elem? h.posts i ≡ some gone
        → id_of gone ≡ id
        → r.0 ≡ some made
        → Creates (record h { posts = remove_at i h.posts }) (delete id) (made, r.1)
        → Deletes h id r
