-- ===== src/Timeline.antt =====
-- src/cli/timeline.rs: the posts that a client shows.
pub mod Order
use noktulo.Prelude.{
  ℕ, ◌-◌, Bool, true, false, List, [], ◌∷◌, ◌++◌, Option, none, some, ltb, ◌=ℕ=◌, if◌then◌else◌,
  length, get_elem?, position, Run, ok, panic,
}
use noktulo.Post.{SignedPost, PostKind, hoot, rehoot, delete, id_of, content_of}

pub record Timeline : Type 0 where
  pub posts : List SignedPost

unfoldable pub new : Timeline
new = record { posts = [] }

-- The `match` of `push`.
abbrev pub is_shown : PostKind → Bool
is_shown (delete id) = false
is_shown (hoot h) = true
is_shown (rehoot p) = true

unfoldable pub push : Timeline → SignedPost → Timeline
push t p = if is_shown (content_of p) then record { posts = t.posts ++ p ∷ [] } else t

unfoldable pub get_by_id : Timeline → ℕ → Option SignedPost
get_by_id t id = elim (position (λ p. id_of p =ℕ= id) t.posts) [
  | none ↦ none
  | some i ↦ get_elem? t.posts i
]

-- `self.posts.len() - index - 1` underflows where the index is not below the length.
unfoldable pub get : Timeline → ℕ → Run (Option SignedPost)
get t index =
    if ltb index (length t.posts)
    then ok (get_elem? t.posts (length t.posts - index - 1))
    else panic
