-- ===== src/Cli/Rounds.antt =====
-- Rounds of the loop of `timeline`: no panic, and a quit at the end.
use noktulo.Prelude.{
  ℕ, suc, ◌^◌, ◌<◌, ◌≤◌, length, Option, none, Option-cases, ◌≡◌, ◌⊎◌, refl, inl, inr, List, [],
  ◌∷◌, ◌++◌, All, All-mono, String, ok, Returns, Result, okay, err, arith, list_eq, nat_eq,
}
use noktulo.Digests.{Digests}
use noktulo.Address.{Address, AddressError, IsAddress, from_str, to_string}
use noktulo.Address.Text.{from_str_inv}
use noktulo.Post.{hoot as hoot_kind, hoot_of, no_post, UserAttribute, Post, Signing}
use noktulo.User
use noktulo.User.{UserHandle, next_id, create_post, sign_post, addr, pubkey}
use noktulo.ApiServer.Subscriptions.{start_subscription_lem}
use noktulo.Cli.{
  Session, Round, Command, update, hoot, rehoot, del, follow, unfollow, quit, unknown, print,
  invalid_input, invalid_address, show_all, publish, command_of,
}
use noktulo.Prelude.Assoc.{lookup, insert-All, remove-All}
use noktulo.Cli.Lines.{Line, read_line}
use noktulo.Cli.Commands.{
  run_hoot, run_rehoot, run_del, run_follow, run_unfollow, follow_address, unfollow_address,
  followed, set_followings,
}
use noktulo.Cli.Loop.{Turn, stop, next, run_command, turn}
use noktulo.Cli.Refused.{
  IsRead, at_end, line_feed, parse_unsigned-IsRead, from_str-IsRead, from_str-to_string_line,
}
use noktulo.Cli.Sessions.{
  IsSound, IsKnown, HasRoom, print-IsSound, show_all-IsSound, show_all-posts, create_post-room,
  publish-IsSound,
}

-- `quit` and a line feed
abbrev pub quit_line : Line
quit_line = b'q' ∷ b'u' ∷ b'i' ∷ b't' ∷ line_feed ∷ []

-- A command leaves the lines behind it, or all of them but the one that it reads.
abbrev pub Leaves : List Line → List Line → Type 0
Leaves lines rest = (rest ≡ lines) ⊎ (rest ≡ (read_line lines).1)

pub read_line-IsRead :
    (lines : List Line)
    → All IsRead lines
    → IsRead (read_line lines).0 × All IsRead (read_line lines).1
read_line-IsRead [] h = (at_end, tt)
read_line-IsRead (line ∷ lines) h = (h.0, h.1)

pub Leaves-IsRead :
    (lines rest : List Line) → Leaves lines rest → All IsRead lines → All IsRead rest
Leaves-IsRead lines rest (inl e) h = rw e h
Leaves-IsRead lines rest (inr e) h = rw e (read_line-IsRead lines h).1

less_room :
    (k : ℕ) (t : Session) → HasRoom (suc k) t.user_handle.posts → HasRoom k t.user_handle.posts
less_room k t = All-mono _ _ t.user_handle.posts λ p h. omega (arith, h)

followed-IsKnown :
    (a : Address) (m : List (Address × Option UserAttribute))
    → length a ≤ 64
    → All IsKnown m
    → All IsKnown (followed a m)
followed-IsKnown a m len h = elim (Option-cases (lookup a m)) [
  | inl new' ↦ rw (followed, new') (insert-All IsKnown a none m len h)
  | inr (attr, old) ↦ rw (followed, old) h
]

module _ (d : Digests) (s : Signing) (to_vec : Post → List ℕ) (text_of : Line → String)
    (fill : ℕ → List ℕ) where
  -- What holds after a round with `k` more to come.
  abbrev pub After : ℕ → List Line → Turn → Type 0
  After k lines (stop t rest) =
      IsSound d s to_vec t × HasRoom k t.user_handle.posts × Leaves lines rest
  After k lines (next t rest) =
      IsSound d s to_vec t × HasRoom k t.user_handle.posts × Leaves lines rest

  -- On a line that ends in a line feed, or at the end of the input, rehoot and del report invalid
  -- input and change nothing else; on the text of an address as to_string prints it and a line
  -- feed, follow and unfollow report an invalid address and change nothing else.
  pub commands-refuse :
      (round : Round) (t : Session) (line : Line) (a : Address)
      → IsRead line
      → IsAddress a
      → (run_rehoot d s to_vec round t line ≡ ok (print invalid_input t))
        × (run_del d s to_vec round t line ≡ ok (print invalid_input t))
        × Returns (to_string d a) λ text.
          (run_follow d fill t (text ++ line_feed ∷ []) ≡ ok (print invalid_address t))
          × (run_unfollow d t (text ++ line_feed ∷ []) ≡ ok (print invalid_address t))
  unfolding run_rehoot run_del run_follow run_unfollow follow_address unfollow_address
  commands-refuse round t line a read h =
      let (text, printed, (r, parsed, (e, refused))) = from_str-to_string_line d a h in
      (
        rw (run_rehoot, parse_unsigned-IsRead (2 ^ 64) line read) refl,
        rw (run_del, parse_unsigned-IsRead (2 ^ 128) line read) refl,
        (text, printed, (rw (parsed, refused) refl, rw (parsed, refused) refl)),
      )

  hoot-After :
      (k : ℕ) (round : Round) (t : Session) (line : Line)
      → IsSound d s to_vec t
      → k < 2 ^ 127
      → HasRoom (suc k) t.user_handle.posts
      → Returns
          (run_hoot d s to_vec text_of round t line)
          λ t'. IsSound d s to_vec t' × HasRoom k t'.user_handle.posts
  unfolding run_hoot User.hoot publish
  hoot-After k round t line h small room =
      let (r, e, (own, same, follows, verified, left)) =
        create_post-room d s to_vec k round.now t.user_handle
          (hoot_kind (hoot_of (text_of line) no_post no_post [])) h.own small room in
      (
        publish d s to_vec t r,
        rw e refl,
        (publish-IsSound d s to_vec t r h own same follows verified, left),
      )

  -- Only the followings and the nodes change, or a notice is printed.
  abbrev Keeps : Session → Session → Type 0
  Keeps t t' = IsSound d s to_vec t' × (t'.user_handle.posts ≡ t.user_handle.posts)

  follow_address-Keeps :
      (t : Session) (line : Line) (r : Result Address AddressError)
      → from_str d line ≡ ok r
      → IsSound d s to_vec t
      → Returns (follow_address d fill t r) (Keeps t)
  unfolding follow_address
  follow_address-Keeps t line (err e) parsed h =
      (print invalid_address t, refl, (print-IsSound d s to_vec invalid_address t h, refl))
  follow_address-Keeps t line (okay a) parsed h =
      let (len, _) = from_str_inv d line a parsed in
      let (nodes, started, _) = start_subscription_lem fill t.nodes a (omega (arith, len)) in
      (
        record (set_followings (followed a t.user_handle.followings) t) { nodes = nodes },
        rw started refl,
        (
          record {
            own = h.own;
            known = followed-IsKnown a t.user_handle.followings (omega (arith, len)) h.known;
            shown = h.shown;
            published = h.published;
          },
          refl,
        ),
      )

  unfollow_address-Keeps :
      (t : Session) (r : Result Address AddressError)
      → IsSound d s to_vec t
      → Keeps t (unfollow_address d t r)
  unfolding unfollow_address
  unfollow_address-Keeps t (err e) h = (print-IsSound d s to_vec invalid_address t h, refl)
  unfollow_address-Keeps t (okay a) h = (
    record {
      own = h.own;
      known = remove-All IsKnown a t.user_handle.followings h.known;
      shown = h.shown;
      published = h.published;
    },
    refl,
  )

  follow-Keeps :
      (t : Session) (line : Line)
      → IsSound d s to_vec t
      → IsRead line
      → Returns (run_follow d fill t line) (Keeps t)
  unfolding run_follow
  follow-Keeps t line h read =
      let (r, parsed, _) = from_str-IsRead d line read in
      rw (run_follow, parsed) (follow_address-Keeps t line r parsed h)

  unfollow-Keeps :
      (t : Session) (line : Line)
      → IsSound d s to_vec t
      → IsRead line
      → Returns (run_unfollow d t line) (Keeps t)
  unfolding run_unfollow
  unfollow-Keeps t line h read =
      let (r, parsed, _) = from_str-IsRead d line read in
      (unfollow_address d t r, rw (run_unfollow, parsed) refl, unfollow_address-Keeps t r h)

  run_command-After :
      (k : ℕ) (round : Round) (t : Session) (command : Command) (lines : List Line)
      → IsSound d s to_vec t
      → k < 2 ^ 127
      → HasRoom (suc k) t.user_handle.posts
      → All IsRead lines
      → Returns (run_command d s to_vec text_of fill round t command lines) (After k lines)
  unfolding run_command
  run_command-After k round t update lines h small room read = (
    next (show_all d s to_vec round t round.incoming) lines,
    refl,
    (
      show_all-IsSound d s to_vec round t round.incoming h,
      rw (show_all-posts d s to_vec round t round.incoming) (less_room k t room),
      inl refl,
    ),
  )
  run_command-After k round t hoot lines h small room read =
      let (t', e, (sound, left)) = hoot-After k round t (read_line lines).0 h small room in
      (next t' (read_line lines).1, rw e refl, (sound, left, inr refl))
  run_command-After k round t rehoot lines h small room read = (
    next (print invalid_input t) (read_line lines).1,
    rw
        (
          run_rehoot,
          parse_unsigned-IsRead (2 ^ 64) (read_line lines).0 (read_line-IsRead lines read).0,
        )
        refl,
    (print-IsSound d s to_vec invalid_input t h, less_room k t room, inr refl),
  )
  run_command-After k round t del lines h small room read = (
    next (print invalid_input t) (read_line lines).1,
    rw
        (
          run_del,
          parse_unsigned-IsRead (2 ^ 128) (read_line lines).0 (read_line-IsRead lines read).0,
        )
        refl,
    (print-IsSound d s to_vec invalid_input t h, less_room k t room, inr refl),
  )
  run_command-After k round t follow lines h small room read =
      let (t', e, (sound, same)) =
        follow-Keeps t (read_line lines).0 h (read_line-IsRead lines read).0 in
      (next t' (read_line lines).1, rw e refl, (sound, rw same (less_room k t room), inr refl))
  run_command-After k round t unfollow lines h small room read =
      let (t', e, (sound, same)) =
        unfollow-Keeps t (read_line lines).0 h (read_line-IsRead lines read).0 in
      (next t' (read_line lines).1, rw e refl, (sound, rw same (less_room k t room), inr refl))
  run_command-After k round t quit lines h small room read =
      (stop t lines, refl, (h, less_room k t room, inl refl))
  run_command-After k round t unknown lines h small room read =
      (next t lines, refl, (h, less_room k t room, inl refl))

  pub turn-After :
      (k : ℕ) (round : Round) (t : Session) (lines : List Line)
      → IsSound d s to_vec t
      → k < 2 ^ 127
      → HasRoom (suc k) t.user_handle.posts
      → All IsRead lines
      → Returns (turn d s to_vec text_of fill round t lines) (After k (read_line lines).1)
  unfolding turn
  turn-After k round t lines h small room read =
      run_command-After k round t (command_of (read_line lines).0) (read_line lines).1 h small room
        (read_line-IsRead lines read).1
