-- ===== src/Ed25519/Keys.antt =====
-- src/crypto/ed25519.rs: secret keys, which are 32 bytes, signatures and their verification.
pub mod Secrets
pub mod Making
pub mod Checking
use noktulo.Prelude.{
  ℕ, ◌+◌, ◌-◌, ◌*◌, ◌/◌, ◌%◌, ◌^◌, ◌≡◌, Bool, true, false, ◌&&◌, List, ◌++◌, take, drop, ◌=ℕ=◌,
  if◌then◌else◌, length, Run, ok, panic, ◌>>=◌, ◌>>◌, assert, Result, okay, err,
}
use noktulo.Prelude.Bytes.{AreBytes}
use noktulo.Post.{Ed25519Error, bad_signature}
use noktulo.Ed25519.{
  BigUints, Ed25519Point, l, is_on_curve, add, scalar_mul, encode, decode, base_point,
}

-- SHA-512, of the crate sha2
pub record Sha512 : Type 0 where
  pub digest : List ℕ → List ℕ
  pub digest_length : (m : List ℕ) → length (digest m) ≡ 64
  pub digest_bytes : (m : List ℕ) → AreBytes (digest m)

-- The operator `?` on a `Result` that a run returns.
abbrev pub try {ℓ} : {A B E : Type ℓ} → Run (Result A E) → (A → Run (Result B E)) → Run (Result B E)
try panic next = panic
try (ok (err e)) next = ok (err e)
try (ok (okay a)) next = next a

-- The derived `PartialEq` of points.
abbrev pub point_beq : Ed25519Point → Ed25519Point → Bool
point_beq p r = p.x =ℕ= r.x && p.y =ℕ= r.y

module _ (n : BigUints) where
  -- The lowest 3 bits are cleared, bit 254 is set and bit 255 is ignored.
  unfoldable pub clamp : ℕ → ℕ
  clamp s =
      let cleared = n.set_bit (n.set_bit (n.set_bit s 0 false) 1 false) 2 false in
      n.set_bit (n.set_bit cleared 254 true) 255 false

  -- `PublicKey::from_bytes`
  unfoldable pub from_bytes : List ℕ → Run (Result (List ℕ) Ed25519Error)
  from_bytes bytes = try (decode n bytes) λ _. ok (okay bytes)

  -- The last part of `sign`; the two `try_into` panic on other lengths.
  unfoldable pub joined : List ℕ → ℕ → Run (List ℕ)
  joined rr ss =
      let ss_bytes = n.to_bytes_le ss in
      assert (length ss_bytes =ℕ= 32)
      >> assert (length (rr ++ ss_bytes) =ℕ= 64)
      >> ok (rr ++ ss_bytes)

module _ (n : BigUints) (sha : Sha512) where
  unfoldable pub h_int : List ℕ → ℕ
  h_int m = n.from_bytes_le (sha.digest m)

  -- The scalar of a secret key: the first half of its hash.
  unfoldable pub secret_scalar : List ℕ → ℕ
  unfolding clamp
  secret_scalar sk = clamp n (n.from_bytes_le (take 32 (sha.digest sk)))

  unfoldable pub public_key : List ℕ → Run (List ℕ)
  unfolding secret_scalar
  public_key sk = base_point n >>= λ b.
      let pk = scalar_mul n b (secret_scalar sk) in
      is_on_curve n pk >>= λ on_curve. assert on_curve >> ok (encode n pk)

  -- The nonce of a signature, its point, and its second half.
  unfoldable pub nonce : List ℕ → List ℕ → ℕ
  unfolding h_int
  nonce sk message = h_int (drop 32 (sha.digest sk) ++ message)

  unfoldable pub second_half : List ℕ → List ℕ → List ℕ → List ℕ → ℕ
  unfolding h_int secret_scalar nonce
  second_half sk message rr pk =
      let k = h_int (rr ++ pk ++ message) in (nonce sk message + k * secret_scalar sk) % l

  -- `SecretKey::sign`
  unfoldable pub sign : List ℕ → List ℕ → Run (List ℕ)
  unfolding nonce public_key second_half joined
  sign sk message = base_point n >>= λ b.
      let rr = encode n (scalar_mul n b (nonce sk message)) in
      public_key sk >>= λ pk. joined n rr (second_half sk message rr pk)

  -- `PublicKey::verify`
  unfoldable pub verify : List ℕ → List ℕ → List ℕ → Run (Result (Unit {0}) Ed25519Error)
  unfolding h_int
  verify pk signature m = try (decode n (take 32 signature)) λ r. try (decode n pk) λ a.
      let s = n.from_bytes_le (drop 32 signature) in
      let k = h_int (encode n r ++ pk ++ m) in
      base_point n >>= λ b. ok (
        if point_beq (scalar_mul n b s) (add n r (scalar_mul n a k))
        then okay tt
        else err bad_signature)
