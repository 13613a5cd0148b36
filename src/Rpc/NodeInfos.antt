-- ===== src/Rpc/NodeInfos.antt =====
-- src/kad/rpc.rs: the server that tells other processes which nodes run here, and its client.
use noktulo.Prelude.{
  ℕ, zero, suc, Bool, true, ◌||◌, List, [], ◌∷◌, ◌++◌, Option, none, some, ◌==◌, ◌=ℕ=◌, nat_eq,
  list_eq, string_eq, if◌then◌else◌, length, filter, String,
}
use noktulo.Prelude.Ascii.{ascii, is_space}
use noktulo.Routing.{NodeInfo}
use noktulo.Rpc.{Rpc, names}

-- The constants of src/service/mod.rs
abbrev pub testnet_user_dht : String
testnet_user_dht = "test_user_dht"

abbrev pub testnet_pubsub_dht : String
testnet_pubsub_dht = "test_pubsub_dht"

abbrev pub mainnet_user_dht : String
mainnet_user_dht = "user_dht"

abbrev pub mainnet_pubsub_dht : String
mainnet_pubsub_dht = "pubsub_dht"

-- `node_infos`
unfoldable pub node_infos : Rpc → List NodeInfo
node_infos r = names r.node_infos

-- `split_whitespace`: the next word, and what follows it.
unfoldable pub word : List ℕ → List ℕ → List ℕ × List ℕ
word read [] = (read, [])
word read (c ∷ cs) = if is_space c then (read, cs) else word (read ++ c ∷ []) cs

unfoldable pub next_word : List ℕ → Option (List ℕ × List ℕ)
unfolding word
next_word [] = none
next_word (c ∷ cs) = if is_space c then next_word cs else some (word (c ∷ []) cs)

-- The `match query`
unfoldable pub asked_for : List ℕ → List NodeInfo → List NodeInfo
asked_for query infos =
    if query == ascii "test"
    then filter (λ x. x.net_id == testnet_user_dht || x.net_id == testnet_pubsub_dht) infos
    else if query == ascii "main"
    then filter (λ x. x.net_id == mainnet_user_dht || x.net_id == mainnet_pubsub_dht) infos
    else infos

abbrev pub spaces : List ℕ
spaces = ascii "                                    "

-- The two answers; `to_json` is `serde_json::to_string`, and `decimal` formats a number.
unfoldable pub ok_response : (List NodeInfo → List ℕ) → (ℕ → List ℕ) → List NodeInfo → List ℕ
ok_response to_json decimal infos =
    let msg = to_json infos in
    ascii "HTTP/1.1 200 OK\r\n\n"
    ++ (spaces
        ++ (ascii "Content-Type: application/json; charset=UTF-8\r\n\n"
            ++ (spaces
                ++ (ascii "Content-Length: "
                    ++ (decimal (length msg) ++ (ascii "\r\n\r\n" ++ msg))))))

-- The body of `start_nodeinfo_server`, on the first line of a connection.
unfoldable pub respond : (List NodeInfo → List ℕ) → (ℕ → List ℕ) → Rpc → List ℕ → List ℕ
unfolding node_infos next_word asked_for ok_response
respond to_json decimal r first_line = elim (next_word first_line) [
  | none ↦ ascii "HTTP/1.1 400 Bad Request\r\n\r\n"
  | some (method, rest) ↦ elim (next_word rest) [
    | none ↦ ascii "HTTP/1.1 400 Bad Request\r\n\r\n"
    | some (query, more) ↦
        if method == ascii "GET"
        then ok_response to_json decimal (asked_for query (node_infos r))
        else ascii "HTTP/1.1 400 Bad Request\r\n\r\n"
  ]
]

-- `read_line` on a stream of bytes: it waits for a line feed, or for the end of the stream.
unfoldable pub read_line : Bool → List ℕ → Option (List ℕ × List ℕ)
read_line closed [] = if closed then some ([], []) else none
read_line closed (c ∷ cs) =
    let rest = read_line closed cs in
    if c =ℕ= 10
    then some (c ∷ [], cs)
    else elim rest [ none ↦ none | some (line, after) ↦ some (c ∷ line, after) ]

-- What `get_nodeinfos` writes, and its reads of the answer into one buffer.
abbrev pub request : List ℕ
request = ascii "GET test"

unfoldable pub read_lines : ℕ → Bool → List ℕ → List ℕ → Option (List ℕ × List ℕ)
unfolding read_line
read_lines zero closed buf stream = some (buf, stream)
read_lines (suc n) closed buf stream = elim (read_line closed stream) [
  | none ↦ none
  | some (line, after) ↦ read_lines n closed (buf ++ line) after
]

-- After four lines the rest is read to the end, and the buffer is parsed; `from_json` is
-- `serde_json::from_str`.
unfoldable pub get_nodeinfos : (List ℕ → Option (List NodeInfo)) → List ℕ → Option (List NodeInfo)
unfolding read_lines
get_nodeinfos from_json stream = elim (read_lines 4 true [] stream) [
  | none ↦ none
  | some (buf, content) ↦ from_json (buf ++ content)
]
