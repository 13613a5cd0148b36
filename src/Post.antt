-- ===== src/Post.antt =====
-- src/user/post.rs and the signed attributes of src/user/user.rs. A post holds posts, through `Box`,
-- `Option` and the hoot inside it, so the four types are one block.
pub mod Verify
use noktulo.Prelude.{
  ℕ, Bool, true, List, [], ◌∷◌, Option, none, some, ◌=ℕ=◌, ◌==◌, nat_eq, list_eq, if◌then◌else◌,
  length, String, Run, Result, okay, err, ◌≡◌,
}
use noktulo.Digests.{Digests}
use noktulo.Address.{Address, from_pubkey}

pub record UserAttribute : Type 0 where
  pub name : String
  pub created_at : ℕ
  pub description : String

pub record SignedUserAttribute : Type 0 where
  pub addr : Address
  pub attr : UserAttribute
  pub signature : List ℕ

mutual
  -- addr, post, signature
  pub data SignedPost : Type 0 where
    signed_post : Address → Post → List ℕ → SignedPost

  -- user_attr, id, content, created_at
  pub data Post : Type 0 where
    post : UserAttribute → ℕ → PostKind → ℕ → Post

  pub data PostKind : Type 0 where
    hoot : Hoot → PostKind
    rehoot : SignedPost → PostKind
    delete : ℕ → PostKind

  -- text, quoted_posts, reply_to, mention_to
  pub data Hoot : Type 0 where
    hoot_of : String → OptionalPost → OptionalPost → List Address → Hoot

  -- `Option<Box<SignedPost>>`
  pub data OptionalPost : Type 0 where
    no_post : OptionalPost
    boxed : SignedPost → OptionalPost

abbrev pub to_optional : Option SignedPost → OptionalPost
to_optional none = no_post
to_optional (some p) = boxed p

abbrev pub addr_of : SignedPost → Address
addr_of (signed_post addr p sig) = addr

abbrev pub post_of : SignedPost → Post
post_of (signed_post addr p sig) = p

abbrev pub signature_of : SignedPost → List ℕ
signature_of (signed_post addr p sig) = sig

abbrev pub id_of_post : Post → ℕ
id_of_post (post attr id content created_at) = id

abbrev pub content_of_post : Post → PostKind
content_of_post (post attr id content created_at) = content

-- `sigpost.post.id` and `sigpost.post.content`
abbrev pub id_of : SignedPost → ℕ
id_of p = id_of_post (post_of p)

abbrev pub content_of : SignedPost → PostKind
content_of p = content_of_post (post_of p)

pub data Ed25519Error : Type 0 where
  bad_point bad_signature : Ed25519Error

pub data VerifyError : Type 0 where
  wrong_address : VerifyError
  wrong_signature : Ed25519Error → VerifyError
  wrong_size : VerifyError

-- The signature scheme of the crate ed25519-dalek, over bytes, which `post.rs` names: `is_point` says
-- which bytes `PublicKey::from_bytes` accepts. A signature that was made verifies under the public key
-- of its maker.
pub record Signing : Type 0 where
  pub is_point : List ℕ → Bool
  pub public_key : List ℕ → List ℕ
  pub sign : List ℕ → List ℕ → List ℕ
  pub verify : List ℕ → List ℕ → List ℕ → Result (Unit {0}) Ed25519Error
  pub public_key_point : (key : List ℕ) → is_point (public_key key) ≡ true
  pub sign_length : (key message : List ℕ) → length (sign key message) ≡ 64
  pub verify-sign :
      (key message : List ℕ) → verify (public_key key) (sign key message) message ≡ okay tt

-- `map_err(|e| VerifyError::Signature(e))`
abbrev pub signature_error : Result (Unit {0}) Ed25519Error → Result (Unit {0}) VerifyError
signature_error (okay u) = okay u
signature_error (err e) = err (wrong_signature e)

-- The common body of the two `verify` methods, over the encoded value.
unfoldable pub verify_signed :
    Digests → Signing → Address → List ℕ → List ℕ → List ℕ → Result (Unit {0}) VerifyError
verify_signed d s addr signature encoded pubkey =
    if addr == from_pubkey d pubkey
    then (if length signature =ℕ= 64
        then signature_error (s.verify pubkey signature encoded)
        else err wrong_size)
    else err wrong_address

-- `SignedPost::verify`; the argument `to_vec` is `serde_json::to_vec` on posts.
unfoldable pub verify :
    Digests → Signing → (Post → List ℕ) → SignedPost → List ℕ → Result (Unit {0}) VerifyError
unfolding verify_signed
verify d s to_vec p pubkey =
    verify_signed d s (addr_of p) (signature_of p) (to_vec (post_of p)) pubkey

-- `SignedUserAttribute::verify`
unfoldable pub verify_attribute :
    Digests
    → Signing
    → (UserAttribute → List ℕ)
    → SignedUserAttribute
    → List ℕ
    → Result (Unit {0}) VerifyError
unfolding verify_signed
verify_attribute d s to_vec a pubkey = verify_signed d s a.addr a.signature (to_vec a.attr) pubkey
