-- ===== src/Address.antt =====
-- src/user/user.rs, the type `Address`: 32 bytes, and their text with a checksum. An array is a list;
-- `IsAddress` says that it has its length.
pub mod Text
use noktulo.Prelude.{
  ℕ, ◌≡◌, Bool, List, [], ◌∷◌, ◌++◌, ◌=ℕ=◌, ◌==◌, nat_eq, list_eq, if◌then◌else◌, length, take,
  drop, Run, ok, panic, Result, okay, err, ◌>>=◌,
}
use noktulo.Prelude.Bytes.{AreBytes}
use noktulo.Digests.{Digests}
use noktulo.Base64.{Base64Error, encode, decode}

-- `struct Address { address: [u8; 32] }`
abbrev pub Address : Type 0
Address = List ℕ

abbrev pub IsAddress : Address → Type 0
IsAddress a = (length a ≡ 32) × AreBytes a

pub data AddressError : Type 0 where
  wrong_length : AddressError
  wrong_checksum : AddressError
  base64 : Base64Error → AddressError

module _ (d : Digests) where
  -- `Address::hash`
  unfoldable pub hash : List ℕ → Address
  hash bytes = d.blake2s (d.blake2s (d.sha3_512 (d.sha3_512 bytes)))

  -- `From<PublicKey>`, given the bytes of the key.
  unfoldable pub from_pubkey : List ℕ → Address
  unfolding hash
  from_pubkey pubkey = hash pubkey

  unfoldable pub check_sum : Address → List ℕ
  check_sum a = take 4 (d.sha3_512 (d.sha3_512 a))

  unfoldable pub to_string : Address → Run (List ℕ)
  to_string a = encode (a ++ check_sum a)

  -- `from_str` on the bytes that the text decodes to.
  unfoldable pub from_payload : List ℕ → Result Address AddressError
  from_payload b =
      if length b =ℕ= 36
      then (if drop 32 b == check_sum (take 32 b) then okay (take 32 b) else err wrong_checksum)
      else err wrong_length

  -- The `match` of `from_str`.
  unfoldable pub from_decoded : Result (List ℕ) Base64Error → Result Address AddressError
  from_decoded (okay b) = from_payload b
  from_decoded (err e) = err (base64 e)

  unfoldable pub from_str : List ℕ → Run (Result Address AddressError)
  from_str s = do r ← decode s; ok (from_decoded r)
