-- ===== src/Cli/Menu.antt =====
-- src/main.rs: `cli`, the loop around the sessions of the users.
use noktulo.Prelude.{ℕ, List, [], ◌∷◌, list_eq, nat_eq, String, Run, ok, ◌>>=◌, unwrap, get_elem?}
use noktulo.Digests.{Digests}
use noktulo.Post.{UserAttribute, Post, Signing}
use noktulo.Cli.{Session, Round}
use noktulo.Cli.Lines.{Line, read_line}
use noktulo.Cli.Loop.{Turn, stop, next, session_loop}
use noktulo.Cli.Users.{
  Client, create_new_user, start_session, Choice, user, new_account, leave, invalid_index, choose,
  ended,
}

-- What one round of the loop gets from outside: the rounds of a session, and the clock and the
-- random key of a new account.
pub record Visit : Type 0 where
  pub rounds : List Round
  pub now : ℕ
  pub secret_key : List ℕ

-- Where the loop stands, with the lines that are left: at the menu, in a session whose rounds are
-- used up, or behind the loop.
pub data Screen : Type 0 where
  menu closed : Client → List Line → Screen
  running : Client → ℕ → Session → List Line → Screen

abbrev pub after_session : Client → ℕ → Turn → Screen
after_session client index (stop t rest) = menu (ended client index t) rest
after_session client index (next t rest) = running client index t rest

module _ (d : Digests) (s : Signing) (to_vec : Post → List ℕ) (attr_to_vec : UserAttribute → List ℕ)
    (text_of : Line → String) (fill : ℕ → List ℕ) where
  -- The branches.
  unfoldable pub enter : Visit → Client → List Line → Choice → Run Screen
  unfolding create_new_user start_session
  enter v client lines (user index) = do
    handle ← unwrap (get_elem? client.user_handles index)
    t ← start_session fill client handle
    r ← session_loop d s to_vec text_of fill v.rounds t lines
    ok (after_session client index r)
  enter v client lines new_account = do
    let (name, rest) = read_line lines
    let (description, rest') = read_line rest
    client' ← create_new_user d s attr_to_vec text_of v.now v.secret_key name description client
    ok (menu client' rest')
  enter v client lines leave = ok (closed client lines)
  enter v client lines invalid_index = ok (menu client lines)

  -- The body of the loop.
  unfoldable pub menu_turn : Visit → Client → List Line → Run Screen
  unfolding enter choose
  menu_turn v client lines = do
    let (line, rest) = read_line lines
    choice ← choose client line
    enter v client rest choice

  -- The loop of `cli`, for a number of rounds.
  unfoldable pub cli : List Visit → Client → List Line → Run Screen
  unfolding menu_turn
  cli [] client lines = ok (menu client lines)
  cli (v ∷ visits) client lines = menu_turn v client lines >>= λ screen. elim screen [
    | menu client' rest ↦ cli visits client' rest
    | closed client' rest ↦ ok (closed client' rest)
    | running client' index t rest ↦ ok (running client' index t rest)
  ]
