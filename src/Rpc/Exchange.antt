-- ===== src/Rpc/Exchange.antt =====
-- The exchange of node infos of src/kad/rpc.rs, between its client and its server.
use mathlib.Core.List.{append_assoc}
use noktulo.Prelude.{
  ℕ, zero, suc, ◌≡◌, refl, ap, ◌∙◌, true, false, List, [], ◌∷◌, ◌++◌, Option, none, some,
  Option-cases, ◌=ℕ=◌, ◌==◌, list_eq, nat_eq, inl, inr, Bool-cases,
}
use noktulo.Prelude.Ascii.{ascii}
use noktulo.Routing.{NodeInfo}
use noktulo.Rpc.{Rpc}
use noktulo.Rpc.NodeInfos.{
  next_word, ok_response, respond, read_line, read_lines, get_nodeinfos, request,
}

-- At the end of a closed stream no read waits.
read_line-closed :
    (stream : List ℕ)
    → (line : List ℕ) × (after : List ℕ) × (read_line true stream ≡ some (line, after))
      × (line ++ after ≡ stream)
unfolding read_line
read_line-closed [] = ([], [], refl, refl)
read_line-closed (c ∷ cs) =
    let (line, after, e, split) = read_line-closed cs in
    elim (Bool-cases (c =ℕ= 10)) [
      | inl ends ↦ (c ∷ [], cs, rw (read_line, ends) refl, refl)
      | inr goes_on ↦ (c ∷ line, after, rw (read_line, goes_on, e) refl, ap (λ l. c ∷ l) split)
    ]

read_lines-closed :
    (n : ℕ) (buf stream : List ℕ)
    → (lines : List ℕ) × (rest : List ℕ) × (read_lines n true buf stream ≡ some (lines, rest))
      × (lines ++ rest ≡ buf ++ stream)
unfolding read_lines
read_lines-closed zero buf stream = (buf, stream, refl, refl)
read_lines-closed (suc n) buf stream =
    let (line, after, e, split) = read_line-closed stream in
    let (lines, rest, read, joined) = read_lines-closed n (buf ++ line) after in
    (
      lines,
      rest,
      rw (read_lines, e) read,
      joined ∙ append_assoc buf line after ∙ ap (λ l. buf ++ l) split,
    )

-- The buffer that is parsed holds the whole answer, with its header lines.
get_nodeinfos_lem :
    (from_json : List ℕ → Option (List NodeInfo)) (stream : List ℕ)
    → get_nodeinfos from_json stream ≡ from_json stream
unfolding get_nodeinfos
get_nodeinfos_lem from_json stream =
    let (lines, rest, e, joined) = read_lines-closed 4 [] stream in
    rw (get_nodeinfos, e) (ap from_json joined)

module _ (to_json : List NodeInfo → List ℕ) (decimal : ℕ → List ℕ) where
  respond-http :
      (r : Rpc) (first_line : List ℕ)
      → (rest : List ℕ) × (respond to_json decimal r first_line ≡ b'H' ∷ rest)
  unfolding respond ok_response
  respond-http r first_line = elim (Option-cases (next_word first_line)) [
    | inl e ↦ rw (respond, e) (_, refl)
    | inr ((method, rest), e) ↦ elim (Option-cases (next_word rest)) [
      | inl e' ↦ rw (respond, e, e') (_, refl)
      | inr ((query, more), e') ↦ elim (Bool-cases (method == ascii "GET")) [
        | inl get ↦ rw (respond, e, e', get) (_, refl)
        | inr other ↦ rw (respond, e, e', other) (_, refl)
      ]
    ]
  ]

  -- The request of get_nodeinfos has no line feed, so the read of the server does not end. If no
  -- JSON text starts with an H, get_nodeinfos fails on every answer of the server.
  pub nodeinfos-fail :
      (from_json : List ℕ → Option (List NodeInfo))
      → ((rest : List ℕ) → from_json (b'H' ∷ rest) ≡ none)
      → (read_line false request ≡ none)
        × ((r : Rpc) (first_line : List ℕ)
            → get_nodeinfos from_json (respond to_json decimal r first_line) ≡ none)
  unfolding read_line
  nodeinfos-fail from_json refuses = (
    refl,
    λ r first_line.
        let (rest, e) = respond-http r first_line in
        get_nodeinfos_lem from_json (respond to_json decimal r first_line)
        ∙ ap from_json e
        ∙ refuses rest,
  )
