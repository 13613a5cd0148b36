-- ===== src/ApiServer/Client.antt =====
-- src/api_server/client_info.rs: what the server knows of one client.
use noktulo.Prelude.{
  ℕ, Bool, not, List, [], Option, none, some, nat_eq, list_eq, Result, okay, err, is_empty,
}
use noktulo.Prelude.Assoc.{lookup, insert}
use noktulo.Digests.{Digests}
use noktulo.Address.{Address, from_pubkey}
use noktulo.Post.{Signing}
use noktulo.ApiServer.{
  Sender, Channels, SendError, Frame, text, challenge as challenge_message, invalid,
  send as send_on,
}

-- A `PublicKey` is the bytes that `from_bytes` accepted.
pub data ClientStatus : Type 0 where
  not_established : ClientStatus
  sent_challenge : (pubkey challenge : List ℕ) → ClientStatus
  established : ClientStatus

pub record ClientInfo : Type 0 where
  pub tx : Sender
  pub registered : List (Address × List ℕ)
  pub subscripted : List Address
  pub status : ClientStatus

unfoldable pub new : Sender → ClientInfo
new tx = record { tx = tx; registered = []; subscripted = []; status = not_established }

unfoldable pub send : Channels → ClientInfo → Frame → Result (Unit {0}) SendError × Channels
send c info msg = send_on c info.tx msg

-- The status is set before the message is sent.
unfoldable pub send_challenge :
    Channels → ClientInfo → List ℕ → List ℕ → Result (Unit {0}) SendError × Channels × ClientInfo
unfolding send
send_challenge c info pubkey challenge =
    let (r, c') = send c info (text (challenge_message challenge)) in
    (r, c', record info { status = sent_challenge pubkey challenge })

unfoldable pub send_invalid : Channels → ClientInfo → Result (Unit {0}) SendError × Channels
send_invalid c info = send c info (text invalid)

-- `HashMap::entry(k).or_insert(v)`
abbrev pub or_insert {ℓ} : {V : Type ℓ} → Address → V → List (Address × V) → List (Address × V)
or_insert k v m = elim (lookup k m) [ none ↦ insert k v m | some w ↦ m ]

module _ (d : Digests) (s : Signing) where
  -- The branch of `verify_challenge_sig` on what `pubkey.verify` returns.
  abbrev pub verified :
      {E : Type 0}
      → ClientInfo
      → List ℕ
      → Result (Unit {0}) E
      → Result (List ℕ) (Unit {0}) × ClientInfo
  verified info pubkey (okay u) = (
    okay pubkey,
    record info {
      registered = or_insert (from_pubkey d pubkey) pubkey info.registered;
      status = established;
    },
  )
  verified info pubkey (err e) = (err tt, info)

  abbrev pub verify_for :
      ClientInfo → List ℕ → ClientStatus → Result (List ℕ) (Unit {0}) × ClientInfo
  verify_for info sig (sent_challenge pubkey challenge) =
      verified info pubkey (s.verify pubkey sig challenge)
  verify_for info sig not_established = (err tt, info)
  verify_for info sig established = (err tt, info)

  unfoldable pub verify_challenge_sig :
      ClientInfo → List ℕ → Result (List ℕ) (Unit {0}) × ClientInfo
  verify_challenge_sig info sig = verify_for info sig info.status

unfoldable pub is_established : ClientInfo → Bool
is_established info = not (is_empty info.registered)

unfoldable pub get_pubkey : ClientInfo → Address → Option (List ℕ)
get_pubkey info addr = lookup addr info.registered
