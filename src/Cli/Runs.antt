-- ===== src/Cli/Runs.antt =====
-- src/main.rs: whole runs of the command line.
use noktulo.Prelude.{ℕ, panic, ◌≡◌, List, ◌∷◌, ◌++◌, String, Run, ok, Returns, list_eq, nat_eq}
use noktulo.Digests.{Digests}
use noktulo.Post.{UserAttribute, Post, Signing}
use noktulo.Cli.Lines.{Line}
use noktulo.Cli.Users.{Client}
use noktulo.Cli.Visits.{AllUsers, client_of, IsMisread}
use noktulo.Cli.Menu.{Visit, Screen, menu, cli}

module _ (d : Digests) (s : Signing) (to_vec : Post → List ℕ) (attr_to_vec : UserAttribute → List ℕ)
    (text_of : Line → String) (fill : ℕ → List ℕ) where
  abbrev run : List Visit → Client → List Line → Run Screen
  run = cli d s to_vec attr_to_vec text_of fill

  -- Some round of the loop reads a line that is no number, and the run panics.
  abbrev pub Misreads : List Visit → Client → List Line → Type 0
  Misreads visits client lines =
      (before : List Visit) × (v : Visit) × (after : List Visit) × (client' : Client) × (rest : List
        Line)
      × (visits ≡ before ++ v ∷ after)
      × (cli d s to_vec attr_to_vec text_of fill before client lines ≡ ok (menu client' rest))
      × IsMisread d s to_vec attr_to_vec text_of fill rest
      × (cli d s to_vec attr_to_vec text_of fill visits client lines ≡ panic)

  abbrev pub Keeps : List Visit → Client → List Line → Type 0
  Keeps visits client lines =
      Returns (cli d s to_vec attr_to_vec text_of fill visits client lines) λ screen.
        AllUsers d s to_vec attr_to_vec text_of fill 0
          (client_of d s to_vec attr_to_vec text_of fill screen)
