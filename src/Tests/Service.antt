-- ===== src/Tests/Service.antt =====
-- The controller of a process without neighbours, and the exchange of node infos.
use noktulo.Prelude.{ℕ, ◌≡◌, refl, false, List, [], ◌∷◌, Option, none, some, ◌=ℕ=◌, if◌then◌else◌}
use noktulo.Prelude.Ascii.{ascii}
use noktulo.Routing.{NodeInfo, SocketAddr}
use noktulo.Node.{Request, Reply}
use noktulo.Rpc.{Rpc}
use noktulo.Rpc.NodeInfos.{get_nodeinfos, respond, read_line, request}
use noktulo.Rpc.Exchange.{nodeinfos-fail}
use noktulo.Tests.Tables.{node}

abbrev silent : NodeInfo → Request → Option Reply
silent dst req = none

abbrev here : SocketAddr
here = (node 1).addr

-- A server that answers with a key of one byte, and one that does not answer.
abbrev answers : List (Option (List NodeInfo))
answers = some (node 3 ∷ []) ∷ none ∷ []

-- A reader that takes the empty list only.
abbrev read_empty : List ℕ → Option (List NodeInfo)
read_empty (c ∷ cs) = if c =ℕ= b'[' then some [] else none
read_empty [] = none

abbrev to_json : List NodeInfo → List ℕ
to_json infos = ascii "[]"

abbrev decimal : ℕ → List ℕ
decimal n = ascii "2"

nodeinfos-fail_example :
    (read_line false request ≡ none)
    × ((r : Rpc) (first_line : List ℕ)
        → get_nodeinfos read_empty (respond to_json decimal r first_line) ≡ none)
nodeinfos-fail_example = nodeinfos-fail to_json decimal read_empty (λ rest. refl)

respond_runs :
    respond to_json decimal
      (record { pending = []; node_infos = []; sent = []; delivered = []; handed = [] })
      (ascii "POST x\n")
    ≡ ascii "HTTP/1.1 400 Bad Request\r\n\r\n"
unfolding respond
respond_runs = refl

-- Without the header lines the answer would be read.
get_runs : get_nodeinfos read_empty (ascii "[]") ≡ some []
unfolding get_nodeinfos
get_runs = refl
