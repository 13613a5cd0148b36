-- ===== src/Tests/Runs.antt =====
-- A run of the command line with the toy scheme: a new account, a session of it, and the end.
use noktulo.Prelude.{map, ℕ, ◌≡◌, refl, List, [], ◌∷◌, Option, none, some, length, Run, ok}
use noktulo.Digests.{checksums}
use noktulo.Address.{from_pubkey}
use noktulo.Post.{id_of, verify_attribute}
use noktulo.User.{create_post, next_id, sign_post, hoot}
use noktulo.Cli.Lines.{Line, parse_unsigned, trim}
use noktulo.Cli.Loop.{session_loop}
use noktulo.Cli.Users.{Client}
use noktulo.Cli.Refused.{line_feed}
use noktulo.Cli.Rounds.{quit_line}
use noktulo.Cli.Menu.{Visit, Screen, closed, cli}
use noktulo.Tests.Posts.{toy, ids_only, key}
use noktulo.Tests.Cli.{text_of, attr_bytes, fill, alone, hoot_line}

abbrev visit : Visit
visit = record { rounds = alone ∷ alone ∷ []; now = 5; secret_key = key }

abbrev nobody : Client
nobody = record { user_handles = []; pubkey_dict = [] }

abbrev digit_line : ℕ → Line
digit_line n = n ∷ line_feed ∷ []

-- The new account is the first entry of the menu, then the user is, and then the last leaves.
abbrev typed : List Line
typed =
    digit_line b'0'
    ∷ hoot_line
    ∷ hoot_line
    ∷ digit_line b'0'
    ∷ hoot_line
    ∷ hoot_line
    ∷ quit_line
    ∷ digit_line b'2'
    ∷ []

abbrev visits : List Visit
visits = visit ∷ visit ∷ visit ∷ []

-- The ids of the posts of each user, after the loop ends.
ids : Run Screen → Option (List (List ℕ) × ℕ)
ids (ok (closed client rest)) = some (map (λ h. map id_of h.posts) client.user_handles, length rest)
ids r = none

cli_runs :
    ids (cli checksums toy ids_only attr_bytes text_of fill visits nobody typed)
    ≡ some ((0 ∷ []) ∷ [], 0)
unfolding ids cli parse_unsigned trim verify_attribute from_pubkey session_loop hoot create_post
    next_id sign_post
cli_runs = refl
