-- ===== src/Rpc/Replies.antt =====
-- Which request a reply goes to.
use noktulo.Prelude.{
  ◌≡◌, refl, sym, ap, ◌∙◌, Bool, true, false, List, [], ◌∷◌, ◌++◌, Option, none, some, ◌==◌, nat_eq,
  list_eq, list_beq_refl, Returns, Option-cases, Bool-cases, list_beq_iff, some_inj, inl, inr,
}
use noktulo.Prelude.Assoc.{lookup, insert, remove, lookup-insert, lookup-remove}
use noktulo.Key.{Key}
use noktulo.Routing.{NodeInfo, node_eq}
use noktulo.Node.{Request, Reply, contains}
use noktulo.Rpc.{Rpc, Channel, request, names, fresh_token, send_req, settle, handle_rep}

-- The token that the loop ends with is not in use.
fresh_token-fresh :
    (pending : List (Key × Channel)) (tokens : List Key) (token : Key)
    → fresh_token pending tokens ≡ some token
    → lookup token pending ≡ none
unfolding fresh_token
fresh_token-fresh pending [] token e = cc
fresh_token-fresh pending (t ∷ ts) token e = elim (Option-cases (lookup t pending)) [
  | inl free ↦ let same : t ≡ token = some_inj (rw (fresh_token, free) at e) in rw (sym same) free
  | inr (tx, used) ↦ fresh_token-fresh pending ts token (rw (fresh_token, used) at e)
]

-- A token that was not in use, put in and taken out again.
restored :
    (pending : List (Key × Channel)) (token other : Key) (tx : Channel)
    → lookup token pending ≡ none
    → lookup other (remove token (insert token tx pending)) ≡ lookup other pending
restored pending token other tx free = elim (Bool-cases (token == other)) [
  | inl same ↦
      let eq : token ≡ other = (list_beq_iff token other).0 same in
      lookup-remove token other (insert token tx pending)
      ∙ rw same (sym free ∙ ap (λ k. lookup k pending) eq)
  | inr ne ↦
      lookup-remove token other (insert token tx pending)
      ∙ rw ne (lookup-insert token other tx pending ∙ rw ne refl)
]

module _ (is_closed : Channel → Bool) where
  settle-open :
      (r : Rpc) (token : Key) (tx : Channel) (v : Option Reply)
      → is_closed tx ≡ false
      → settle is_closed r token tx v
        ≡ record r { pending = remove token r.pending; delivered = r.delivered ++ (tx, v) ∷ [] }
  unfolding settle
  settle-open r token tx v e = rw (settle, e) refl

  handle_rep_found :
      (r : Rpc) (token : Key) (tx : Channel) (answer : Reply)
      → lookup token r.pending ≡ some tx
      → is_closed tx ≡ false
      → handle_rep is_closed r token answer ≡ record r {
        pending = remove token r.pending;
        delivered = r.delivered ++ (tx, some answer) ∷ [];
      }
  unfolding handle_rep
  handle_rep_found r token tx answer found open' =
      rw (handle_rep, found) (settle-open r token tx (some answer) open')

  handle_rep_unknown :
      (r : Rpc) (token : Key) (answer : Reply)
      → lookup token r.pending ≡ none
      → handle_rep is_closed r token answer ≡ r
  unfolding handle_rep
  handle_rep_unknown r token answer none' = rw (handle_rep, none') refl

  -- If a node of this process sends a request under the first random token that is not in use, and
  -- the caller still listens, then a reply with that token goes to the caller's channel and to no
  -- other, all other waiting requests keep waiting, the token is free again, and a second reply
  -- with it changes nothing.
  pub handle_rep-send_req :
      (r : Rpc) (tokens : List Key) (token : Key) (tx : Channel) (req : Request)
      (src dst : NodeInfo) (answer later : Reply)
      → fresh_token r.pending tokens ≡ some token
      → contains src (names r.node_infos) ≡ true
      → is_closed tx ≡ false
      → Returns (send_req r token tx req src dst) λ r₁.
        let r₂ = handle_rep is_closed r₁ token answer in
        (r₂.delivered ≡ r.delivered ++ (tx, some answer) ∷ [])
        × ((other : Key) → lookup other r₂.pending ≡ lookup other r.pending)
        × (handle_rep is_closed r₂ token later ≡ r₂)
  unfolding send_req
  handle_rep-send_req r tokens token tx req src dst answer later fresh known open' =
      let free = fresh_token-fresh r.pending tokens token fresh in
      let r₁ : Rpc = record r {
        pending = insert token tx r.pending;
        sent = r.sent ++ record { token = token; src = src; dst = dst; msg = request req } ∷ [];
      } in
      let r₂ : Rpc = record r₁ {
        pending = remove token (insert token tx r.pending);
        delivered = r.delivered ++ (tx, some answer) ∷ [];
      } in
      let waits : lookup token (insert token tx r.pending) ≡ some tx =
        rw (lookup-insert token token tx r.pending, list_beq_refl token) refl in
      let gone : lookup token r₂.pending ≡ none =
        rw (lookup-remove token token (insert token tx r.pending), list_beq_refl token) refl in
      let first : handle_rep is_closed r₁ token answer ≡ r₂ =
        handle_rep_found r₁ token tx answer waits open' in
      (
        r₁,
        rw (send_req, known) refl,
        (
          ap (λ (q : Rpc). q.delivered) first,
          λ other.
              ap (λ (q : Rpc). lookup other q.pending) first
              ∙ restored r.pending token other tx free,
          ap (λ q. handle_rep is_closed q token later) first
              ∙ handle_rep_unknown r₂ token later gone
              ∙ sym first,
        ),
      )
