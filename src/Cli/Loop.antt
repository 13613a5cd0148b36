-- ===== src/Cli/Loop.antt =====
-- src/main.rs: the loop of `timeline`.
use noktulo.Prelude.{ℕ, List, [], ◌∷◌, list_eq, nat_eq, String, Run, ok, ◌>>=◌}
use noktulo.Digests.{Digests}
use noktulo.Post.{Post, Signing}
use noktulo.Cli.Lines.{Line, read_line}
use noktulo.Cli.{
  Command, update, hoot, rehoot, del, follow, unfollow, quit, unknown, command_of, Session, Round,
  show_all,
}
use noktulo.Cli.Commands.{run_hoot, run_rehoot, run_del, run_follow, run_unfollow}

-- How a round of the loop ends: by `break`, or with the lines that are left.
pub data Turn : Type 0 where
  stop : Session → List Line → Turn
  next : Session → List Line → Turn

module _ (d : Digests) (s : Signing) (to_vec : Post → List ℕ) (text_of : Line → String)
    (fill : ℕ → List ℕ) where
  unfoldable pub run_command : Round → Session → Command → List Line → Run Turn
  unfolding show_all run_hoot run_rehoot run_del run_follow run_unfollow
  run_command round t update lines = ok (next (show_all d s to_vec round t round.incoming) lines)
  run_command round t hoot lines = do
    let (line, rest) = read_line lines
    t' ← run_hoot d s to_vec text_of round t line
    ok (next t' rest)
  run_command round t rehoot lines = do
    let (line, rest) = read_line lines
    t' ← run_rehoot d s to_vec round t line
    ok (next t' rest)
  run_command round t del lines = do
    let (line, rest) = read_line lines
    t' ← run_del d s to_vec round t line
    ok (next t' rest)
  run_command round t follow lines = do
    let (line, rest) = read_line lines
    t' ← run_follow d fill t line
    ok (next t' rest)
  run_command round t unfollow lines = do
    let (line, rest) = read_line lines
    t' ← run_unfollow d t line
    ok (next t' rest)
  run_command round t quit lines = ok (stop t lines)
  run_command round t unknown lines = ok (next t lines)

  unfoldable pub turn : Round → Session → List Line → Run Turn
  unfolding run_command command_of
  turn round t lines =
      let (line, rest) = read_line lines in run_command round t (command_of line) rest

  -- The loop of `timeline` for a number of rounds: `stop` where it ended in them.
  unfoldable pub session_loop : (rounds : List Round) → Session → List Line → Run Turn
  unfolding turn
  session_loop [] t lines = ok (next t lines)
  session_loop (round ∷ rounds) t lines = turn round t lines >>= λ r. elim r [
    | stop t' rest ↦ ok (stop t' rest)
    | next t' rest ↦ session_loop rounds t' rest
  ]
