-- ===== src/ApiServer.antt =====
-- src/api_server/message.rs, and the channels on which the server answers its clients.
pub mod Client
pub mod Router
pub mod Server
pub mod Delivery
pub mod DeadClients
pub mod Subscriptions
pub mod Sent
pub mod Authentication
pub mod Established
pub mod Connection
pub mod Feeds
pub mod Keeping
pub mod Serving
use noktulo.Prelude.{ℕ, Bool, List, [], ◌∷◌, ◌++◌, Option, if◌then◌else◌, Result, okay, err}
use noktulo.Address.{Address}
use noktulo.Post.{SignedPost, SignedUserAttribute}

pub data ClientMessage : Type 0 where
  establish_req : (addr pubkey : List ℕ) → ClientMessage
  challenge_responce : (sig : List ℕ) → ClientMessage
  public_key : (pubkey : List ℕ) → ClientMessage
  post : SignedPost → ClientMessage
  subscribe_req unsubscribe_req get_user_info : Address → ClientMessage

pub data ServerMessage : Type 0 where
  success denied invalid established : ServerMessage
  subscribed : SignedPost → ServerMessage
  user_info : SignedUserAttribute → ServerMessage
  challenge : List ℕ → ServerMessage

-- `Message` of a web socket, over what its texts carry: a text as a value, that serde_json makes or
-- reads.
pub data Message (A : Type 0) : Type 0 where
  text : A → Message A
  binary ping pong : List ℕ → Message A
  close : Option (ℕ × List ℕ) → Message A

abbrev pub Frame : Type 0
Frame = Message ServerMessage

-- `UnboundedSender<Message>`: `same_channel` compares the numbers.
abbrev pub Sender : Type 0
Sender = ℕ

-- The channels: which have lost their receiver, and what was sent, in order.
pub record Channels : Type 0 where
  pub is_closed : Sender → Bool
  pub sent : List (Sender × Frame)

-- `SendError<Message>`
pub data SendError : Type 0 where
  send_error : Frame → SendError

-- `UnboundedSender::send`
unfoldable pub send : Channels → Sender → Frame → Result (Unit {0}) SendError × Channels
send c tx msg =
    if c.is_closed tx
    then (err (send_error msg), c)
    else (okay tt, record c { sent = c.sent ++ (tx, msg) ∷ [] })
