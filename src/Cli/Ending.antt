-- ===== src/Cli/Ending.antt =====
-- Whole sessions: they never panic on lines that were read whole, and end by `quit`.
use noktulo.Prelude.{
  ℕ, suc, ◌+◌, All-mono, ◌^◌, ◌<◌, ◌≡◌, ◌⊎◌, refl, subst, List, [], ◌∷◌, ◌++◌, All, length, String,
  Run, ok, Returns, arith,
}
use noktulo.Digests.{Digests}
use noktulo.Post.{Post, Signing}
use noktulo.Cli.{Session, Round, quit, command_of}
use noktulo.Cli.Lines.{Line, trim, trim_start}
use noktulo.Cli.Loop.{Turn, stop, next, turn, session_loop}
use noktulo.Cli.Refused.{IsRead, whole}
use noktulo.Cli.Sessions.{IsSound, HasRoom}
use noktulo.Cli.Rounds.{After, Leaves, Leaves-IsRead, read_line-IsRead, quit_line, turn-After}

-- Lines that end in two lines `quit`, or the last one of them.
abbrev Quits : List Line → Type 0
Quits lines =
    ((before : List Line) × (lines ≡ before ++ quit_line ∷ quit_line ∷ []))
    ⊎ (lines ≡ quit_line ∷ [])

quit_line-quit : command_of quit_line ≡ quit
unfolding command_of trim trim_start
quit_line-quit = refl

module _ (d : Digests) (s : Signing) (to_vec : Post → List ℕ) (text_of : Line → String)
    (fill : ℕ → List ℕ) where
  -- The session of the last round.
  abbrev pub session_of : Turn → Session
  session_of (stop t rest) = t
  session_of (next t rest) = t

  abbrev run : List Round → Session → List Line → Run Turn
  run = session_loop d s to_vec text_of fill

  -- One round, by how it ends.
  session_loop-step :
      (Ends : Turn → Type 0) (round : Round) (rounds : List Round) (t : Session) (lines : List Line)
      (r : Turn)
      → turn d s to_vec text_of fill round t lines ≡ ok r
      → ((t' : Session) (rest : List Line) → r ≡ stop t' rest → Ends (stop t' rest))
      → ((t' : Session) (rest : List Line) → r ≡ next t' rest → Returns (run rounds t' rest) Ends)
      → Returns (run (round ∷ rounds) t lines) Ends
  unfolding session_loop
  session_loop-step Ends round rounds t lines (stop t' rest) e stops goes_on =
      (stop t' rest, rw e refl, stops t' rest refl)
  session_loop-step Ends round rounds t lines (next t' rest) e stops goes_on =
      let (r, ends, holds) = goes_on t' rest refl in (r, rw e ends, holds)

  After-stop :
      (k : ℕ) (lines : List Line) (r : Turn) (t : Session) (rest : List Line)
      → After d s to_vec text_of fill k lines r
      → r ≡ stop t rest
      → IsSound d s to_vec t × HasRoom k t.user_handle.posts × Leaves lines rest
  After-stop k lines r t rest h e = subst (After d s to_vec text_of fill k lines) e h

  After-next :
      (k : ℕ) (lines : List Line) (r : Turn) (t : Session) (rest : List Line)
      → After d s to_vec text_of fill k lines r
      → r ≡ next t rest
      → IsSound d s to_vec t × HasRoom k t.user_handle.posts × Leaves lines rest
  After-next k lines r t rest h e = subst (After d s to_vec text_of fill k lines) e h

  abbrev pub lines_of : Turn → List Line
  lines_of (stop t rest) = rest
  lines_of (next t rest) = rest

  -- The session stays sound, with room for `k` more posts, and the lines that are left were read.
  abbrev pub Lasts : ℕ → Turn → Type 0
  Lasts k r =
      IsSound d s to_vec (session_of r)
      × HasRoom k (session_of r).user_handle.posts
      × All IsRead (lines_of r)

  pub session_loop-Lasts :
      (k : ℕ) (rounds : List Round) (t : Session) (lines : List Line)
      → IsSound d s to_vec t
      → length rounds + k < 2 ^ 127
      → HasRoom (length rounds + k) t.user_handle.posts
      → All IsRead lines
      → Returns (session_loop d s to_vec text_of fill rounds t lines) (Lasts k)
  unfolding session_loop
  session_loop-Lasts k [] t lines h small room read = (
    next t lines,
    refl,
    (h, All-mono _ _ t.user_handle.posts (λ p b. omega (arith, b)) room, read),
  )
  session_loop-Lasts k (round ∷ rounds) t lines h small room read =
      let room' : HasRoom (suc (length rounds + k)) t.user_handle.posts =
        All-mono _ _ t.user_handle.posts (λ p b. omega (arith, b)) room in
      let (r, e, after) =
        turn-After d s to_vec text_of fill (length rounds + k) round t lines h (omega arith) room'
          read in
      let left = (read_line-IsRead lines read).1 in
      session_loop-step (Lasts k) round rounds t lines r e
        (λ t' rest same.
          let (sound, more, leaves) = After-stop _ _ r t' rest after same in
          (
            sound,
            All-mono _ _ t'.user_handle.posts (λ p b. omega (arith, b)) more,
            Leaves-IsRead _ rest leaves left,
          ))
        λ t' rest same.
          let (sound, more, leaves) = After-next _ _ r t' rest after same in
          session_loop-Lasts k rounds t' rest sound (omega arith) more
            (Leaves-IsRead _ rest leaves left)

  abbrev pub Stopped : Turn → Type 0
  Stopped r = (t : Session) × (rest : List Line) × (r ≡ stop t rest) × IsSound d s to_vec t

  pub quit_line-IsRead : IsRead quit_line
  quit_line-IsRead =
      whole (b'q' ∷ b'u' ∷ b'i' ∷ b't' ∷ [])
        (omega arith, (omega arith, (omega arith, (omega arith, tt))))
