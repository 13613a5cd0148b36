-- ===== src/Cli.antt =====
-- src/main.rs: the command line, over what the terminal, the network and the clock give it.
pub mod Lines
pub mod Commands
pub mod Loop
pub mod Users
pub mod Refused
pub mod Sessions
pub mod Rounds
pub mod Ending
pub mod Accounts
pub mod Menu
pub mod Visits
pub mod Runs
use noktulo.Prelude.{
  ℕ, zero, suc, ◌+◌, ◌-◌, ◌*◌, ◌^◌, Bool, true, false, List, [], ◌∷◌, ◌++◌, Option, none, some, ltb,
  ◌=ℕ=◌, ◌==◌, list_eq, nat_eq, if◌then◌else◌, length, get_elem?, set, String, Run, ok, panic,
  ◌>>=◌, Result, okay, err,
}
use noktulo.Prelude.Ascii.{ascii}
use noktulo.Prelude.Assoc.{lookup, insert, remove}
use noktulo.Digests.{Digests}
use noktulo.Key.{Key}
use noktulo.Address.{Address, AddressError, from_str, from_pubkey}
use noktulo.Post.{
  UserAttribute, SignedUserAttribute, SignedPost, signed_post, Post, post, addr_of, post_of,
  Signing, verify, VerifyError, verify_attribute,
}
use noktulo.User
use noktulo.User.{UserHandle}
use noktulo.UserDht.{pubkey_of}
use noktulo.Timeline
use noktulo.Timeline.{Timeline}
use noktulo.ApiServer.Router.{start_subscription, stop_subscription}
use noktulo.Cli.Lines.{Line, read_line, trim, parse_unsigned}

-- The words of the `match` in `timeline`; every other line is `unknown`.
pub data Command : Type 0 where
  update hoot rehoot del follow unfollow quit unknown : Command

unfoldable pub command_of : Line → Command
unfolding trim
command_of line =
    let word = trim line in
    if word == ascii "update"
    then update
    else if word == ascii "hoot"
    then hoot
    else if word == ascii "rehoot"
    then rehoot
    else if word == ascii "del"
    then del
    else if word == ascii "follow"
    then follow
    else if word == ascii "unfollow"
    then unfollow
    else if word == ascii "quit"
    then quit
    else unknown

pub data Notice : Type 0 where
  not_found invalid_input invalid_address : Notice

-- The variables of `timeline`, with the posts that were published, under which address, and the
-- lines that were printed.
pub record Session : Type 0 where
  pub user_handle : UserHandle
  pub timeline : Timeline
  pub nodes : List (Address × Key)
  pub pubkey_dict : List (Address × List ℕ)
  pub published : List (SignedPost × Address)
  pub printed : List Notice

-- What one round gets from outside: the new posts, the values that the user DHT finds, the clock.
pub record Round : Type 0 where
  pub incoming : List SignedPost
  pub found : Address → Option (List ℕ)
  pub now : ℕ

abbrev pub print : Notice → Session → Session
print notice t = record t { printed = t.printed ++ notice ∷ [] }

-- The attribute that a post carries.
abbrev pub attr_of : SignedPost → UserAttribute
attr_of (signed_post addr (post attr id content created_at) sig) = attr

module _ (d : Digests) (s : Signing) (to_vec : Post → List ℕ) where
  -- The public key of a post's author, and the dictionary with it.
  unfoldable pub key_for :
      Round → List (Address × List ℕ) → Address → Option (List ℕ × List (Address × List ℕ))
  key_for round dict addr = elim (lookup addr dict) [
    | some pk ↦ some (pk, dict)
    | none ↦ elim (pubkey_of d s (round.found addr)) [
      | some pk ↦ some (pk, insert addr pk dict)
      | none ↦ none
    ]
  ]

  -- `if sigpost.verify(&pubkey).is_ok()`
  unfoldable pub show_verified : SignedPost → Session → Result (Unit {0}) VerifyError → Session
  show_verified p t (err e) = t
  show_verified p t (okay u) = record t {
    user_handle = record (t.user_handle) {
      followings = insert (addr_of p) (some (attr_of p)) t.user_handle.followings;
    };
    timeline = Timeline.push t.timeline p;
  }

  unfoldable pub show_post : Round → Session → SignedPost → Session
  unfolding key_for show_verified
  show_post round t p = elim (key_for round t.pubkey_dict (addr_of p)) [
    | none ↦ t
    | some (pk, dict) ↦ show_verified p (record t { pubkey_dict = dict }) (verify d s to_vec p pk)
  ]

  -- `update`
  unfoldable pub show_all : Round → Session → List SignedPost → Session
  unfolding show_post
  show_all round t [] = t
  show_all round t (p ∷ ps) = show_all round (show_post round t p) ps

  -- `publisher.publish(..., &user_handle.addr())` of a post that the handle made
  unfoldable pub publish : Session → SignedPost × UserHandle → Session
  publish t (p, handle) = record t {
    user_handle = handle;
    published = t.published ++ (p, User.addr d s to_vec handle) ∷ [];
  }
