-- ===== src/Cli/Visits.antt =====
-- src/main.rs: what a round of the menu keeps for every user.
use noktulo.Prelude.{
  ℕ, ◌+◌, ◌^◌, ◌<◌, ◌≤◌, panic, ◌≡◌, refl, inl, inr, List, [], ◌∷◌, All, All-mono, All-append,
  All-set, All-get_elem?, get_elem?-lt, length, String, Returns, some, none, arith, list_eq, nat_eq,
  Bool-cases, ltb, ltb→lt, ◌=ℕ=◌,
}
use noktulo.Digests.{Digests}
use noktulo.Post.{UserAttribute, Post, Signing}
use noktulo.User.{UserHandle}
use noktulo.User.Posting.{IsOwn}
use noktulo.Cli.Lines.{Line, read_line, parse_unsigned, trim}
use noktulo.Cli.Loop.{Turn, stop, next}
use noktulo.Cli.Refused.{IsRead}
use noktulo.Cli.Rounds.{read_line-IsRead}
use noktulo.Cli.Sessions.{IsKnown, HasRoom}
use noktulo.Cli.Ending.{Lasts, session_loop-Lasts}
use noktulo.Cli.Accounts.{start_session-IsSound, create_new_user-IsAccount}
use noktulo.Cli.Users.{Client, Choice, user, new_account, leave, invalid_index, choose, ended}
use noktulo.Cli.Menu.{Visit, Screen, menu, closed, running, after_session, enter, menu_turn}

-- The rounds of all sessions.
abbrev pub total : List Visit → ℕ
total [] = 0
total (v ∷ visits) = length v.rounds + total visits

module _ (d : Digests) (s : Signing) (to_vec : Post → List ℕ) (attr_to_vec : UserAttribute → List ℕ)
    (text_of : Line → String) (fill : ℕ → List ℕ) where
  -- The user's own posts ascend and verify, the addresses that the user follows fit, and the ids
  -- have room for `k` more posts.
  abbrev pub IsUser : ℕ → UserHandle → Type 0
  IsUser k h = IsOwn d s to_vec h × All IsKnown h.followings × HasRoom k h.posts

  abbrev pub AllUsers : ℕ → Client → Type 0
  AllUsers k client = All (IsUser k) client.user_handles

  -- The client with what the session that runs has made of its user.
  abbrev pub client_of : Screen → Client
  client_of (menu client rest) = client
  client_of (closed client rest) = client
  client_of (running client index t rest) = ended client index t

  abbrev pub lines_left : Screen → List Line
  lines_left (menu client rest) = rest
  lines_left (closed client rest) = rest
  lines_left (running client index t rest) = rest

  abbrev pub Stays : ℕ → Screen → Type 0
  Stays k screen = AllUsers k (client_of screen) × All IsRead (lines_left screen)

  pub AllUsers-less : (k j : ℕ) (client : Client) → j ≤ k → AllUsers k client → AllUsers j client
  AllUsers-less k j client le h =
      All-mono _ _ client.user_handles
        (λ u (own, known, room).
          (own, known, All-mono _ _ u.posts (λ p b. omega (arith, b, le)) room))
        h

  after_session-Stays :
      (k : ℕ) (client : Client) (index : ℕ) (r : Turn)
      → AllUsers k client
      → Lasts d s to_vec text_of fill k r
      → Stays k (after_session client index r)
  after_session-Stays k client index (stop t rest) h (sound, room, read) = (
    All-set (IsUser k) client.user_handles index t.user_handle h (sound.own, sound.known, room),
    read,
  )
  after_session-Stays k client index (next t rest) h (sound, room, read) = (
    All-set (IsUser k) client.user_handles index t.user_handle h (sound.own, sound.known, room),
    read,
  )

  -- A choice that the menu offers.
  abbrev IsOffered : Client → Choice → Type 0
  IsOffered client (user index) = index < length client.user_handles
  IsOffered client new_account = Unit
  IsOffered client leave = Unit
  IsOffered client invalid_index = Unit

  enter-Stays :
      (k : ℕ) (v : Visit) (client : Client) (lines : List Line) (choice : Choice)
      → length v.rounds + k < 2 ^ 127
      → AllUsers (length v.rounds + k) client
      → All IsRead lines
      → IsOffered client choice
      → Returns (enter d s to_vec attr_to_vec text_of fill v client lines choice) (Stays k)
  unfolding enter
  enter-Stays k v client lines (user index) small h read offered =
      let (handle, at) = get_elem?-lt client.user_handles index offered in
      let (own, known, room) = All-get_elem? _ client.user_handles index handle h at in
      let (t, started, (sound, same)) =
        start_session-IsSound d s to_vec attr_to_vec fill client handle own known in
      let room' : HasRoom (length v.rounds + k) t.user_handle.posts = rw same room in
      let (r, ran, lasts) =
        session_loop-Lasts d s to_vec text_of fill k v.rounds t lines sound small room' read in
      (
        after_session client index r,
        rw (enter, at, started, ran) refl,
        after_session-Stays k client index r (AllUsers-less _ k client (omega arith) h) lasts,
      )
  enter-Stays k v client lines new_account small h read offered =
      let (name, rest) = read_line lines in
      let (description, rest') = read_line rest in
      let (client', made, (handle, shape, _, empty, account)) =
        create_new_user-IsAccount d s to_vec attr_to_vec text_of v.now v.secret_key name description
          client in
      (
        menu client' rest',
        rw (enter, made) refl,
        (
          rw shape (
              All-append (IsUser k) client.user_handles (handle ∷ [])
                (AllUsers-less _ k client (omega arith) h)
                ((account.own, account.known, rw empty tt), tt)),
          (read_line-IsRead rest (read_line-IsRead lines read).1).1,
        ),
      )
  enter-Stays k v client lines leave small h read offered =
      (closed client lines, refl, (AllUsers-less _ k client (omega arith) h, read))
  enter-Stays k v client lines invalid_index small h read offered =
      (menu client lines, refl, (AllUsers-less _ k client (omega arith) h, read))

  choose-IsOffered :
      (client : Client) (line : Line) (n : ℕ)
      → parse_unsigned (2 ^ 64) (trim line) ≡ some n
      → Returns (choose client line) (IsOffered client)
  unfolding choose
  choose-IsOffered client line n e =
      let size = length client.user_handles in
      elim (Bool-cases (ltb n size)) [
        | inl old ↦ (user n, rw (choose, e, old) refl, ltb→lt n size old)
        | inr new' ↦ elim (Bool-cases (n =ℕ= size)) [
          | inl create ↦ (new_account, rw (choose, e, new', create) refl, tt)
          | inr other ↦ elim (Bool-cases (n =ℕ= size + 1)) [
            | inl quits ↦ (leave, rw (choose, e, new', other, quits) refl, tt)
            | inr far ↦ (invalid_index, rw (choose, e, new', other, far) refl, tt)
          ]
        ]
      ]

  -- The line that the menu reads is no number.
  abbrev pub IsMisread : List Line → Type 0
  IsMisread lines = parse_unsigned (2 ^ 64) (trim (read_line lines).0) ≡ none

  pub menu_turn-misread :
      (v : Visit) (client : Client) (lines : List Line)
      → IsMisread lines
      → menu_turn d s to_vec attr_to_vec text_of fill v client lines ≡ panic
  unfolding menu_turn choose
  menu_turn-misread v client lines e = rw e refl

  pub menu_turn-Stays :
      (k : ℕ) (v : Visit) (client : Client) (lines : List Line) (n : ℕ)
      → length v.rounds + k < 2 ^ 127
      → AllUsers (length v.rounds + k) client
      → All IsRead lines
      → parse_unsigned (2 ^ 64) (trim (read_line lines).0) ≡ some n
      → Returns (menu_turn d s to_vec attr_to_vec text_of fill v client lines) (Stays k)
  unfolding menu_turn
  menu_turn-Stays k v client lines n small h read e =
      let (choice, chosen, offered) = choose-IsOffered client (read_line lines).0 n e in
      let (screen, entered, stays) =
        enter-Stays k v client (read_line lines).1 choice small h (read_line-IsRead lines read).1
          offered in
      (screen, rw (menu_turn, chosen) entered, stays)
