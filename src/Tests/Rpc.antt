-- ===== src/Tests/Rpc.antt =====
-- A request that is sent, and its reply.
use noktulo.Prelude.{ℕ, ◌≡◌, refl, Bool, false, [], ◌∷◌, some, Returns, list_eq, nat_eq}
use noktulo.Prelude.Assoc.{lookup}
use noktulo.Key.{Key}
use noktulo.Node.{ping, pong}
use noktulo.Rpc.{Rpc, fresh_token, send_req, handle_rep}
use noktulo.Rpc.Replies.{handle_rep-send_req}
use noktulo.Tests.Tables.{node}

-- The token 1 is in use.
abbrev pub waiting : Rpc
waiting = record {
  pending = ((1 ∷ []), 4) ∷ [];
  node_infos = (node 0x10, 2) ∷ [];
  sent = [];
  delivered = [];
  handed = [];
}

abbrev pub all_open : ℕ → Bool
all_open c = false

pub drawn : fresh_token waiting.pending ((1 ∷ []) ∷ (9 ∷ []) ∷ []) ≡ some (9 ∷ [])
unfolding fresh_token lookup
drawn = refl

handle_rep-send_req_example :
    Returns (send_req waiting (9 ∷ []) 5 ping (node 0x10) (node 0x30)) λ r₁.
      let r₂ = handle_rep all_open r₁ (9 ∷ []) pong in
      (r₂.delivered ≡ (5, some pong) ∷ [])
      × ((other : Key) → lookup other r₂.pending ≡ lookup other waiting.pending)
      × (handle_rep all_open r₂ (9 ∷ []) pong ≡ r₂)
handle_rep-send_req_example =
    handle_rep-send_req all_open waiting ((1 ∷ []) ∷ (9 ∷ []) ∷ []) (9 ∷ []) 5 ping (node 0x10)
      (node 0x30) pong pong drawn refl refl
