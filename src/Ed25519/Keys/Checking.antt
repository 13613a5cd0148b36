-- ===== src/Ed25519/Keys/Checking.antt =====
-- What `verify` decides.
use noktulo.Prelude.{
  ℕ, ◌≡◌, ◌≢◌, ◌⊎◌, refl, sym, ap, ◌∙◌, inl, inr, true, false, List, ◌++◌, take, drop, length, ok,
  Returns, Result, okay, err, arith, Bool-cases, if◌then◌else◌, length-take, All-take,
}
use noktulo.Prelude.Bytes.{AreBytes, IsByte}
use noktulo.Post.{Ed25519Error, bad_point, bad_signature}
use noktulo.Ed25519.{BigUints, Ed25519Point, add, scalar_mul, decode}
use noktulo.Ed25519.Base.{base, base_point_lem}
use noktulo.Ed25519.Encoding.{Decodes, accepted, refused, decode-Decodes, encode-decode}
use noktulo.Ed25519.Keys.{Sha512, h_int, verify, point_beq}

point_beq_sound : (p r : Ed25519Point) → point_beq p r ≡ true → p ≡ r
point_beq_sound p r h = ground arith

point_beq_refl : (p : Ed25519Point) → point_beq p p ≡ true
point_beq_refl p = ground arith

true-ne-false : true ≢ false
true-ne-false e = cc

module _ (n : BigUints) (sha : Sha512) where
  -- The verdict on a signature, by the equation `s * B = R + k * A`.
  pub data Judges (pk signature m : List ℕ) : Result (Unit {0}) Ed25519Error → Type 0 where
    bad_first :
        decode n (take 32 signature) ≡ ok (err bad_point) → Judges pk signature m (err bad_point)
    bad_key :
        {r : Ed25519Point}
        → decode n (take 32 signature) ≡ ok (okay r)
        → decode n pk ≡ ok (err bad_point)
        → Judges pk signature m (err bad_point)
    valid :
        {r a : Ed25519Point}
        → decode n (take 32 signature) ≡ ok (okay r)
        → decode n pk ≡ ok (okay a)
        → scalar_mul n base (n.from_bytes_le (drop 32 signature))
          ≡ add n r (scalar_mul n a (h_int n sha (take 32 signature ++ pk ++ m)))
        → Judges pk signature m (okay tt)
    invalid :
        {r a : Ed25519Point}
        → decode n (take 32 signature) ≡ ok (okay r)
        → decode n pk ≡ ok (okay a)
        → scalar_mul n base (n.from_bytes_le (drop 32 signature))
          ≢ add n r (scalar_mul n a (h_int n sha (take 32 signature ++ pk ++ m)))
        → Judges pk signature m (err bad_signature)

  decode-cases :
      (bytes : List ℕ)
      → length bytes ≡ 32
      → AreBytes bytes
      → (decode n bytes ≡ ok (err bad_point))
        ⊎ ((p : Ed25519Point) × (decode n bytes ≡ ok (okay p)))
  decode-cases bytes len are_bytes = go (decode-Decodes n bytes len are_bytes)
    where
      go :
          Returns (decode n bytes) (Decodes n bytes)
          → (decode n bytes ≡ ok (err bad_point))
            ⊎ ((p : Ed25519Point) × (decode n bytes ≡ ok (okay p)))
      go (_, e, accepted {p} h on) = inr (p, e)
      go (_, e, refused h off) = inl e

  judged :
      (pk signature m : List ℕ) (r a : Ed25519Point)
      → decode n (take 32 signature) ≡ ok (okay r)
      → decode n pk ≡ ok (okay a)
      → Judges pk signature m (
          if point_beq
            (scalar_mul n base (n.from_bytes_le (drop 32 signature)))
            (add n r (scalar_mul n a (h_int n sha (take 32 signature ++ pk ++ m))))
          then okay tt
          else err bad_signature)
  judged pk signature m r a on key = elim (Bool-cases (point_beq left right)) [
    | inl e ↦ rw e (valid on key (point_beq_sound left right e))
    | inr e ↦ rw e (
        invalid on key λ same.
          true-ne-false (sym (point_beq_refl right) ∙ ap (λ p. point_beq p right) (sym same) ∙ e))
  ]
    where
      left : Ed25519Point
      left = scalar_mul n base (n.from_bytes_le (drop 32 signature))

      right : Ed25519Point
      right = add n r (scalar_mul n a (h_int n sha (take 32 signature ++ pk ++ m)))

  -- On a key of 32 bytes and a signature of 64, verify never panics. It reports a bad point if the
  -- signature's first half or the key does not decode, and else accepts exactly if s * B = R + k *
  -- A, with s the second half and k the hash of the first half, the key and the message.
  pub verify-Judges :
      (pk signature m : List ℕ)
      → length pk ≡ 32
      → AreBytes pk
      → length signature ≡ 64
      → AreBytes signature
      → Returns (verify n sha pk signature m) (Judges pk signature m)
  unfolding verify
  verify-Judges pk signature m pk_len pk_bytes len are_bytes =
      elim (decode-cases first first_length first_bytes) [
        | inl off ↦ rw off (err bad_point, refl, bad_first off)
        | inr (r, on) ↦ elim (decode-cases pk pk_len pk_bytes) [
          | inl off ↦ rw (on, off) (err bad_point, refl, bad_key on off)
          | inr (a, key) ↦
              rw (on, key, base_point_lem n, encode-decode n first r first_length first_bytes on)
                (_, refl, judged pk signature m r a on key)
        ]
      ]
    where
      first : List ℕ
      first = take 32 signature

      first_length : length first ≡ 32
      first_length = omega (arith, length-take 32 signature, len)

      first_bytes : AreBytes first
      first_bytes = All-take IsByte 32 signature are_bytes
