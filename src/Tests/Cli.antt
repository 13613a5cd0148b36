-- ===== src/Tests/Cli.antt =====
-- Sessions of the command line with the toy scheme: a hoot, an address that is refused, two quits.
use noktulo.Prelude.{
  map, ap, ℕ, ◌≡◌, refl, List, [], ◌∷◌, ◌++◌, Option, none, some, length, replicate, String, Run,
  ok, Returns, arith,
}
use noktulo.Digests.{checksums}
use noktulo.Address.{to_string}
use noktulo.Address.Text.{from_pubkey-IsAddress}
use noktulo.Post.{UserAttribute, id_of}
use noktulo.User.{hoot, create_post, next_id, sign_post}
use noktulo.Timeline
use noktulo.Cli.{Session, Round, print, invalid_input, invalid_address, command_of, follow}
use noktulo.Cli.Lines.{Line, parse_unsigned}
use noktulo.Cli.Commands.{run_rehoot, run_del, run_follow, run_unfollow}
use noktulo.Cli.Loop.{Turn, stop, session_loop}
use noktulo.Cli.Users.{Client, new_handle, create_new_user}
use noktulo.Cli.Refused.{IsRead, whole, line_feed}
use noktulo.Cli.Rounds.{commands-refuse, quit_line}
use noktulo.Cli.Accounts.{create_new_user-IsAccount}
use noktulo.Tests.Posts.{toy, ids_only, key, home}

abbrev pub text_of : Line → String
text_of line = "text"

abbrev pub attr_bytes : UserAttribute → List ℕ
attr_bytes attr = attr.created_at ∷ []

abbrev pub fill : ℕ → List ℕ
fill n = replicate n 0

abbrev pub alone : Round
alone = record { incoming = []; found = λ addr. none; now = 5 }

abbrev pub hoot_line : Line
hoot_line = 32 ∷ b'h' ∷ b'o' ∷ b'o' ∷ b't' ∷ line_feed ∷ []

abbrev session : Session
session = record {
  user_handle = new_handle checksums toy attr_bytes text_of 5 key [] [];
  timeline = Timeline.new;
  nodes = [];
  pubkey_dict = [];
  published = [];
  printed = [];
}

pub hoot_line-IsRead : IsRead hoot_line
hoot_line-IsRead =
    whole (32 ∷ b'h' ∷ b'o' ∷ b'o' ∷ b't' ∷ [])
      (omega arith, (omega arith, (omega arith, (omega arith, (omega arith, tt)))))

-- The word `hoot`, and the text that follows it.
abbrev typed : List Line
typed = hoot_line ∷ hoot_line ∷ []

abbrev rounds : List Round
rounds = alone ∷ alone ∷ alone ∷ alone ∷ []

commands-refuse_example :
    (run_rehoot checksums toy ids_only alone session hoot_line ≡ ok (print invalid_input session))
    × (run_del checksums toy ids_only alone session hoot_line ≡ ok (print invalid_input session))
    × Returns (to_string checksums home) λ text.
      (run_follow checksums fill session (text ++ line_feed ∷ [])
        ≡ ok (print invalid_address session))
      × (run_unfollow checksums session (text ++ line_feed ∷ [])
          ≡ ok (print invalid_address session))
commands-refuse_example =
    commands-refuse checksums toy ids_only text_of fill alone session hoot_line home
      hoot_line-IsRead (from_pubkey-IsAddress checksums key)

-- The user hoots once, and leaves by the first `quit`.
hoots : Run Turn → Option (List ℕ × ℕ)
hoots (ok (stop t rest)) = some (map (λ r. id_of r.0) t.published, length rest)
hoots r = none

session_runs :
    hoots (
      session_loop checksums toy ids_only text_of fill rounds session
        (typed ++ quit_line ∷ quit_line ∷ []))
    ≡ some (0 ∷ [], 1)
unfolding hoots session_loop hoot create_post next_id new_handle sign_post
session_runs = refl

account_runs :
    Returns
      (create_new_user checksums toy attr_bytes text_of 5 key [] []
        (record { user_handles = []; pubkey_dict = [] }))
      λ client'. length client'.user_handles ≡ 1
account_runs =
    let (client', made, (handle, shape, _, _, _)) =
      create_new_user-IsAccount checksums toy ids_only attr_bytes text_of 5 key [] []
        (record { user_handles = []; pubkey_dict = [] }) in
    (client', made, ap (λ (c : Client). length c.user_handles) shape)

follow_runs : command_of (b'f' ∷ b'o' ∷ b'l' ∷ b'l' ∷ b'o' ∷ b'w' ∷ line_feed ∷ []) ≡ follow
unfolding command_of
follow_runs = refl

parse_runs :
    (parse_unsigned 1000 (b'1' ∷ b'2' ∷ []) ≡ some 12)
    × (parse_unsigned 1000 (b'+' ∷ b'7' ∷ []) ≡ some 7)
    × (parse_unsigned 1000 (b'1' ∷ b'0' ∷ b'0' ∷ b'0' ∷ []) ≡ none)
    × (parse_unsigned 1000 (b'1' ∷ line_feed ∷ []) ≡ none)
unfolding parse_unsigned
parse_runs = (refl, refl, refl, refl)
