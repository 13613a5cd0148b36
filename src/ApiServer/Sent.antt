-- ===== src/ApiServer/Sent.antt =====
-- What has been sent on the channels, which only grows.
use mathlib.Core.List.{append-nil, append_assoc}
use noktulo.Prelude.{
  ◌≡◌, ◌≢◌, refl, sym, ap, ◌∙◌, true, List, [], ◌∷◌, ◌++◌, list_eq, nat_eq, okay, err, Bool-cases,
  inl, inr,
}
use noktulo.ApiServer.{Sender, Channels, send_error, Frame, send as send_on}

-- The second channels come from the first by sends.
abbrev pub Grows : Channels → Channels → Type 0
Grows c c' = (more : List (Sender × Frame)) × (c'.sent ≡ c.sent ++ more)

abbrev pub WasSent : Channels → Sender → Frame → Type 0
WasSent c tx msg = (before after : List (Sender × Frame)) × (c.sent ≡ before ++ (tx, msg) ∷ after)

module _ (c c' : Channels) (tx : Sender) (grows : Grows c c') where
  pub WasSent-Grows : (msg : Frame) → WasSent c tx msg → WasSent c' tx msg
  WasSent-Grows msg (before, after, w) = (
    before,
    after ++ grows.0,
    grows.1 ∙ ap (λ l. l ++ grows.0) w ∙ append_assoc before ((tx, msg) ∷ after) grows.0,
  )

pub send-Grows : (c : Channels) (tx : Sender) (msg : Frame) → Grows c (send_on c tx msg).1
unfolding send_on
send-Grows c tx msg = elim (Bool-cases (c.is_closed tx)) [
  | inl closed ↦ rw closed ([], sym (append-nil c.sent))
  | inr open' ↦ rw open' ((tx, msg) ∷ [], refl)
]

send_closed :
    (c : Channels) (tx : Sender) (msg : Frame)
    → c.is_closed tx ≡ true
    → (send_on c tx msg).0 ≢ okay tt
unfolding send_on
send_closed c tx msg closed e = let bad : err (send_error msg) ≡ okay tt = rw closed at e in cc

pub send-WasSent :
    (c : Channels) (tx : Sender) (msg : Frame)
    → (send_on c tx msg).0 ≡ okay tt
    → WasSent (send_on c tx msg).1 tx msg
unfolding send_on
send-WasSent c tx msg e = elim (Bool-cases (c.is_closed tx)) [
  | inl closed ↦ absurd (send_closed c tx msg closed e)
  | inr open' ↦ rw open' (c.sent, [], refl)
]
