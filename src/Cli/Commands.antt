-- ===== src/Cli/Commands.antt =====
-- src/main.rs: the commands that make, delete or follow.
use noktulo.Prelude.{
  ℕ, ◌^◌, List, [], Option, none, some, list_eq, nat_eq, String, Run, ok, ◌>>=◌, Result, okay, err,
}
use noktulo.Prelude.Assoc.{lookup, insert, remove}
use noktulo.Digests.{Digests}
use noktulo.Address.{Address, AddressError, from_str}
use noktulo.Post.{UserAttribute, SignedPost, Post, Signing}
use noktulo.User
use noktulo.User.{UserHandle}
use noktulo.Timeline
use noktulo.Timeline.{Timeline}
use noktulo.ApiServer.Router.{start_subscription, stop_subscription}
use noktulo.Cli.Lines.{Line, parse_unsigned}
use noktulo.Cli.{not_found, invalid_input, invalid_address, Session, Round, print, publish}

module _ (d : Digests) (s : Signing) (to_vec : Post → List ℕ) where
  -- The answer of `hoot`, with the line as the text; of `rehoot` and of `del`.
  unfoldable pub run_hoot : (Line → String) → Round → Session → Line → Run Session
  unfolding publish
  run_hoot text_of round t line = do
    made ← User.hoot d s to_vec round.now t.user_handle (text_of line) none none []
    ok (publish d s to_vec t made)

  unfoldable pub run_rehoot : Round → Session → Line → Run Session
  unfolding publish
  run_rehoot round t line = elim (parse_unsigned (2 ^ 64) line) [
    | none ↦ ok (print invalid_input t)
    | some index ↦ Timeline.get t.timeline index >>= λ shown. elim shown [
      | none ↦ ok (print not_found t)
      | some p ↦ User.rehoot d s to_vec round.now t.user_handle p >>= λ made.
          ok (publish d s to_vec t made)
    ]
  ]

  -- `if let Some(sigpost) = user_handle.del(id)`
  unfoldable pub publish_deletion : Session → Option SignedPost × UserHandle → Session
  unfolding publish
  publish_deletion t (none, handle) = print not_found (record t { user_handle = handle })
  publish_deletion t (some p, handle) = publish d s to_vec t (p, handle)

  unfoldable pub run_del : Round → Session → Line → Run Session
  unfolding publish_deletion
  run_del round t line = elim (parse_unsigned (2 ^ 128) line) [
    | none ↦ ok (print invalid_input t)
    | some id ↦ User.del d s to_vec round.now t.user_handle id >>= λ r. ok (publish_deletion t r)
  ]

-- `if !contains_key(&addr) { insert(addr, None) }`, and the removal.
abbrev pub set_followings : List (Address × Option UserAttribute) → Session → Session
set_followings followings t = record t {
  user_handle = record (t.user_handle) { followings = followings };
}

abbrev pub followed :
    Address → List (Address × Option UserAttribute) → List (Address × Option UserAttribute)
followed addr followings = elim (lookup addr followings) [
  | none ↦ insert addr none followings
  | some attr ↦ followings
]

module _ (d : Digests) where
  unfoldable pub follow_address : (ℕ → List ℕ) → Session → Result Address AddressError → Run Session
  follow_address fill t (err e) = ok (print invalid_address t)
  follow_address fill t (okay addr) = do
    nodes ← start_subscription fill t.nodes addr
    ok (record (set_followings (followed addr t.user_handle.followings) t) { nodes = nodes })

  unfoldable pub run_follow : (ℕ → List ℕ) → Session → Line → Run Session
  unfolding follow_address
  run_follow fill t line = do parsed ← from_str d line; follow_address fill t parsed

  unfoldable pub unfollow_address : Session → Result Address AddressError → Session
  unfollow_address t (err e) = print invalid_address t
  unfollow_address t (okay addr) =
      record (set_followings (remove addr t.user_handle.followings) t) {
        nodes = stop_subscription t.nodes addr;
      }

  unfoldable pub run_unfollow : Session → Line → Run Session
  unfolding unfollow_address
  run_unfollow t line = do parsed ← from_str d line; ok (unfollow_address t parsed)
