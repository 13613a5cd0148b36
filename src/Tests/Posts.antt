-- ===== src/Tests/Posts.antt =====
-- Users, posts and the server, with a toy scheme whose signatures are 64 copies of a checksum.
use noktulo.Prelude.{
  ℕ, ◌≡◌, refl, true, List, [], ◌∷◌, ◌++◌, some, ◌==◌, nat_eq, list_eq, list_beq_refl,
  if◌then◌else◌, drop, replicate, length-replicate, ok, Result, okay, err, ◌>>=◌,
}
use noktulo.Digests.{checksums, sum_bytes}
use noktulo.Address.{Address, from_pubkey, from_str, to_string}
use noktulo.Address.Text.{from_str-to_string, from_pubkey-IsAddress}
use noktulo.Post.{
  Signing, UserAttribute, SignedPost, signed_post, Post, post, PostKind, hoot, delete, hoot_of,
  no_post, Ed25519Error, bad_signature, verify,
}
use noktulo.User.{UserHandle}
use noktulo.UserDht.{pubkey_of, addr_key_pair, is_valid_addr_pubkey_pair, pair_roundtrip}
use noktulo.Timeline
use noktulo.Timeline.{Timeline}
use noktulo.Timeline.Order.{push_all, get-push_all}

abbrev pub toy_sign : List ℕ → List ℕ → List ℕ
toy_sign key message = replicate 64 (sum_bytes (key ++ message))

abbrev toy_verify : List ℕ → List ℕ → List ℕ → Result (Unit {0}) Ed25519Error
toy_verify pubkey sig message =
    if sig == toy_sign pubkey message then okay tt else err bad_signature

pub toy_verify_lem :
    (key message : List ℕ) → toy_verify key (toy_sign key message) message ≡ okay tt
toy_verify_lem key message = rw (list_beq_refl (toy_sign key message)) refl

abbrev pub toy : Signing
toy = record {
  is_point = λ b. true;
  public_key = λ key. key;
  public_key_point = λ key. refl;
  sign = toy_sign;
  sign_length = λ key message. length-replicate {A = ℕ} 64 (sum_bytes (key ++ message));
  verify = toy_verify;
  verify-sign = toy_verify_lem;
}

-- An encoding that keeps the id only.
abbrev pub ids_only : Post → List ℕ
ids_only (post attr id content created_at) = id ∷ []

abbrev alice : UserAttribute
alice = record { name = "alice"; created_at = 0; description = "" }

abbrev pub key : List ℕ
key = replicate 32 7

abbrev pub home : Address
home = from_pubkey checksums key

abbrev handle : UserHandle
handle = record {
  sig_attr = record { addr = home; attr = alice; signature = replicate 64 0 };
  signing_key = key;
  followings = [];
  posts = [];
}

abbrev hello : PostKind
hello = hoot (hoot_of "hello" no_post no_post [])

abbrev pub first_post : SignedPost
first_post = signed_post home (post alice 0 hello 5) (toy_sign key (0 ∷ []))

abbrev busy : UserHandle
busy = record handle { posts = first_post ∷ [] }

from_str-to_string_example : (to_string checksums home >>= from_str checksums) ≡ ok (okay home)
from_str-to_string_example = from_str-to_string checksums home (from_pubkey-IsAddress checksums key)

pair_roundtrip_example :
    (pubkey_of checksums toy (some (addr_key_pair checksums toy key)) ≡ some key)
    × ((data' : List ℕ)
        → is_valid_addr_pubkey_pair checksums toy data' ≡ true
        → data' ≡ addr_key_pair checksums toy (drop 32 data'))
pair_roundtrip_example = pair_roundtrip checksums toy key refl refl

abbrev deletion : SignedPost
deletion = signed_post home (post alice 1 (delete 0) 6) []

get-push_all_example :
    Timeline.get (push_all Timeline.new (first_post ∷ deletion ∷ [])) 0 ≡ ok (some first_post)
get-push_all_example = get-push_all (first_post ∷ deletion ∷ []) 0
