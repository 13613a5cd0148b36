-- ===== src/Lib.antt =====
-- noktulo, a decentralized social networking service: users sign short posts, a Kademlia network
-- carries them, and a web-socket server connects clients to the network.
--
-- The parts, and the files that model them:
--
-- - src/kad/key.rs, keys and their XOR distance: Key, with Key/Bits (leading zeroes), Key/Prefix,
--   Key/Hex (text) and Key/Distance.
-- - src/kad/store.rs, the values that a node keeps: Store.
-- - src/kad/routing.rs, the routing table: Routing, with Routing/Buckets (the invariant),
--   Routing/Update, Routing/Remove, Routing/Order and Routing/Closest.
-- - src/kad/node.rs, a node: Node (the answer to a request), Node/Calls (the requests that a node
--   sends, lookups and multicast), Node/Values (lookup of a value), Node/Put, Node/Start,
--   Node/Serve (the task for a request) and Node/Broadcast, and the proofs in Node/Requests,
--   Node/Handler, Node/Lookup, Node/Targets and Node/Multicast.
-- - src/kad/rpc.rs, requests that wait for a reply: Rpc, with Rpc/Replies and Rpc/Receiving; and
--   the exchange of node infos: Rpc/NodeInfos and Rpc/Exchange. Rpc/RoundTrip is a request and its
--   reply between two processes.
-- - src/util/base64.rs: Base64. src/user/user.rs, addresses: Address, with Address/Text.
-- - src/user/post.rs and the attributes of src/user/user.rs: Post, with Post/Verify.
-- - src/crypto/ed25519.rs, signatures: Ed25519 (the curve) and Ed25519/Keys, with Ed25519/Bytes,
--   Ed25519/Field, Ed25519/Encoding, Ed25519/Multiples, Ed25519/Base, Keys/Secrets, Keys/Making and
--   Keys/Checking.
-- - src/service/user_handle.rs, the posts of one user: User, with User/Ids and User/Posting.
-- - src/service/network.rs and src/service/controller.rs: UserDht (the pairs of the user DHT), Service
--   (the nodes and their start), Service/Ready, and the subscriber's map of nodes in
--   ApiServer/Router.
-- - src/api_server: ApiServer (message.rs), ApiServer/Client (client_info.rs), ApiServer/Router
--   (subscription_router.rs) and ApiServer/Server (server.rs, where a publisher is the id of its
--   node). ApiServer/Connection is the loop of a connection. The proofs are in ApiServer/Sent,
--   ApiServer/Authentication and ApiServer/Established for clients, ApiServer/Keeping and
--   ApiServer/Serving for connections, in ApiServer/Delivery, ApiServer/DeadClients and
--   ApiServer/Feeds for the delivery of posts, and in ApiServer/Subscriptions.
-- - src/cli/timeline.rs: Timeline, with Timeline/Order.
-- - src/main.rs, the command line: Cli/Lines (lines of the terminal), Cli (the state of a session),
--   Cli/Commands, Cli/Loop, Cli/Users (accounts) and Cli/Menu (the loop around the sessions), with
--   the proofs in Cli/Refused, Cli/Sessions, Cli/Rounds, Cli/Ending, Cli/Accounts, Cli/Visits and
--   Cli/Runs.
--
-- A node's handler updates its routing table with the sender, then answers from its store and its
-- table; a lookup asks the closest nodes that it knows, and a multicast goes to those whose id has
-- the prefix. The server lets a client post only for addresses whose keys the client has proven, by
-- a signature of a challenge; it subscribes to addresses through nodes of the network, and the
-- router passes each post that arrives to the clients that asked for its author.
--
-- Conventions. Bytes and machine integers are natural numbers, arrays and vectors are lists, and the
-- length that an array has by its type is a hypothesis where a theorem needs it. A computation that
-- can panic is a Run; arithmetic panics on overflow and underflow, as in a build with debug
-- assertions. Hash maps are association lists with one live entry for a key. The loops go over lists
-- and are structural recursion, so no fuel is needed; scalar_mul recurs on half its coefficient, on
-- the proof that this order has no descent without end. The loop of send_req that draws random tokens
-- goes over the list of what the generator gives. The loops of timeline and cli in src/main.rs go over
-- lists of rounds, with what the network and the clock give in each, and the loop of a connection over
-- what its web socket yields.
--
-- A line of the terminal is its bytes; white space is that of ASCII.
--
-- Parameters: the digests (Digests, with their lengths), the signature scheme (Signing in Post: a
-- signature that was made verifies), the big numbers (BigUints in Ed25519) and SHA-512 of
-- src/crypto/ed25519.rs, the encoding of posts, the reader and writer of JSON and the decimal text
-- of lengths in Rpc/NodeInfos, the clock, random bytes, the network (a reply or a time-out for each
-- destination and request) and whether a channel has lost its receiver. Tasks that a handler spawns
-- are values in its result. Requests that the source sends at the same time are sent in the order
-- of the list, and a heap is drained in that order too.
--
-- Not modelled: sockets and the encoding of messages in src/kad/rpc.rs, the files of src/main.rs,
-- the listener of src/api_server/server.rs, and the printing of posts. What the spawned tasks of a
-- node do later, and the locks, are not modelled. In the Post branch of server.rs the call of
-- publish names a variable that is not declared there, so the model keeps the fact of the call and
-- the address only.
pub mod Prelude
pub mod Digests
pub mod Key
pub mod Base64
pub mod Store
pub mod Routing
pub mod Address
pub mod Post
pub mod User
pub mod Ed25519
pub mod UserDht
pub mod Timeline
pub mod ApiServer
pub mod Cli
pub mod Node
pub mod Rpc
pub mod Service
pub mod Tests
