-- ===== src/User.antt =====
-- src/service/user_handle.rs: a user's own posts, in the order in which they were made.
pub mod Ids
pub mod Posting
use noktulo.Prelude.{
  ℕ, suc, ◌+◌, ◌^◌, Bool, List, [], ◌∷◌, ◌++◌, Option, none, some, ltb, ◌=ℕ=◌, if◌then◌else◌, last?,
  position, remove_at, String, Run, ok, panic, ◌>>=◌,
}
use noktulo.Digests.{Digests}
use noktulo.Address.{Address, from_pubkey}
use noktulo.Post.{
  UserAttribute, SignedUserAttribute, SignedPost, signed_post, Post, post, PostKind,
  hoot as hoot_kind, rehoot as rehoot_kind, delete, Hoot, hoot_of, to_optional, id_of, Signing,
}

pub record UserHandle : Type 0 where
  pub sig_attr : SignedUserAttribute
  pub signing_key : List ℕ
  pub followings : List (Address × Option UserAttribute)
  pub posts : List SignedPost

-- `last().post.id + 1` on a `u128`, and 0 where there is no post.
unfoldable pub next_id : List SignedPost → Run ℕ
next_id posts = elim (last? posts) [
  | none ↦ ok 0
  | some p ↦ if ltb (id_of p + 1) (2 ^ 128) then ok (id_of p + 1) else panic
]

module _ (d : Digests) (s : Signing) (to_vec : Post → List ℕ) where
  unfoldable pub pubkey : UserHandle → List ℕ
  pubkey h = s.public_key h.signing_key

  unfoldable pub addr : UserHandle → Address
  unfolding pubkey
  addr h = from_pubkey d (pubkey h)

  -- `SignedPost { addr, post, signature }`
  unfoldable pub sign_post : UserHandle → Post → SignedPost
  sign_post h p = signed_post (addr h) p (s.sign h.signing_key (to_vec p))

  -- `now` is the clock's time stamp, as a `u64`.
  unfoldable pub create_post : ℕ → UserHandle → PostKind → Run (SignedPost × UserHandle)
  create_post now h content = do
    id ← next_id h.posts
    let sigpost = sign_post h (post h.sig_attr.attr id content now)
    ok (sigpost, record h { posts = h.posts ++ sigpost ∷ [] })

  unfoldable pub hoot :
      ℕ
      → UserHandle
      → String
      → Option SignedPost
      → Option SignedPost
      → List Address
      → Run (SignedPost × UserHandle)
  hoot now h text quoted_posts reply_to mention_to =
      create_post now h
        (hoot_kind (hoot_of text (to_optional quoted_posts) (to_optional reply_to) mention_to))

  unfoldable pub rehoot : ℕ → UserHandle → SignedPost → Run (SignedPost × UserHandle)
  rehoot now h p = create_post now h (rehoot_kind p)

  -- `self.posts.remove(i)` and the rest of `del`.
  unfoldable pub del_at : ℕ → UserHandle → ℕ → ℕ → Run (Option SignedPost × UserHandle)
  del_at now h id i = do
    (p, h') ← create_post now (record h { posts = remove_at i h.posts }) (delete id)
    ok (some p, h')

  unfoldable pub del : ℕ → UserHandle → ℕ → Run (Option SignedPost × UserHandle)
  del now h id = elim (position (λ p. id_of p =ℕ= id) h.posts) [
    | none ↦ ok (none, h)
    | some i ↦ del_at now h id i
  ]
