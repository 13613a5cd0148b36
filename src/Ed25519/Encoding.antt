-- ===== src/Ed25519/Encoding.antt =====
-- What `decode` accepts, and that `encode` gives the accepted bytes back.
use noktulo.Prelude.{
  ℕ, ◌-◌, ◌/◌, ◌%◌, ◌^◌, ◌≤◌, ◌<◌, ◌≡◌, refl, sym, ap, ◌∙◌, Bool, true, false, List, ◌=ℕ=◌, bool_eq,
  length, ok, Returns, Result, okay, err, arith, Bool-cases, inl, inr, ◌⊎◌, subst, ok_inj, =ℕ=_iff,
}
use noktulo.Prelude.Bytes.{AreBytes}
use noktulo.Post.{bad_point, Ed25519Error}
use noktulo.Ed25519.{
  BigUints, Ed25519Point, q, is_on_curve, new, xrecover, with_sign, decode, encode,
}
use noktulo.Ed25519.Bytes.{from_bytes_le-lt, resize-eq}
use noktulo.Ed25519.Field.{sub-ok, bit-zero, xrecover-even}

-- The sign bit of thirty-two bytes, and the number under it.
abbrev pub sign_bit : BigUints → List ℕ → ℕ
sign_bit n bytes = n.from_bytes_le bytes / 2 ^ 255

abbrev pub low_bits : BigUints → List ℕ → ℕ
low_bits n bytes = n.from_bytes_le bytes % 2 ^ 255

-- A point with the `y` and the sign that the bytes hold, and a root of `xrecover` up to that sign.
pub record HasBytes (n : BigUints) (bytes : List ℕ) (p : Ed25519Point) : Type 0 where
  pub y_low : p.y ≡ low_bits n bytes
  pub x_sign : p.x % 2 ≡ sign_bit n bytes
  pub x_bound : p.x ≤ q
  pub x_root : (root : ℕ) × (xrecover n p.y ≡ ok root) × ((p.x ≡ root) ⊎ (p.x ≡ q - root))

pub data Decodes (n : BigUints) (bytes : List ℕ) : Result Ed25519Point Ed25519Error → Type 0 where
  accepted :
      {p : Ed25519Point} → HasBytes n bytes p → is_on_curve n p ≡ ok true → Decodes n bytes (okay p)
  refused :
      {p : Ed25519Point}
      → HasBytes n bytes p
      → is_on_curve n p ≡ ok false
      → Decodes n bytes (err bad_point)

okay_inj : {A E : Type 0} {a b : A} → Path (Result A E) (okay a) (okay b) → a ≡ b
okay_inj e = cc

okay-ne-err : {A E : Type 0} {a : A} {e : E} → ¬ (okay a ≡ err e)
okay-ne-err e = cc

module _ (n : BigUints) where
  is_on_curve-returns : (p : Ed25519Point) → p.x ≤ q → Returns (is_on_curve n p) λ _. Unit {0}
  unfolding is_on_curve
  is_on_curve-returns p h = rw (sub-ok q p.x h) (_, refl, tt)

  -- With a sign, an even number below the prime becomes one of that parity.
  with_sign-parity :
      (sign : Bool) (x : ℕ)
      → x < q
      → x % 2 ≡ 0
      → Returns (with_sign n sign x) λ s. (s ≤ q) × ((s % 2 =ℕ= 1) ≡ sign) × ((s ≡ x) ⊎ (s ≡ q - x))
  unfolding with_sign
  with_sign-parity true x below even =
      let bit : n.bit x 0 ≡ false = bit-zero n x ∙ ground arith in
      rw (bit, sub-ok q x (omega arith)) (q - x, refl, (omega arith, ground arith, inr refl))
  with_sign-parity false x below even =
      let bit : n.bit x 0 ≡ false = bit-zero n x ∙ ground arith in
      rw bit (x, refl, (omega arith, ground arith, inl refl))

  new-Decodes :
      (bytes : List ℕ) (x y : ℕ)
      → HasBytes n bytes (record { x = x; y = y })
      → Returns (new n x y) (Decodes n bytes)
  unfolding new
  new-Decodes bytes x y h =
      let (on_curve, tested, _) = is_on_curve-returns (record { x = x; y = y }) h.x_bound in
      rw tested (elim (Bool-cases on_curve) [
        | inl on ↦ rw on (okay _, refl, accepted h (tested ∙ ap ok on))
        | inr off ↦ rw off (err bad_point, refl, refused h (tested ∙ ap ok off))
      ])

  number-lt :
      (bytes : List ℕ) → length bytes ≡ 32 → AreBytes bytes → n.from_bytes_le bytes < 2 ^ 256
  number-lt bytes len are_bytes =
      subst (λ k. n.from_bytes_le bytes < 256 ^ k) len (from_bytes_le-lt n bytes are_bytes)

  low_of : (m : ℕ) → m < 2 ^ 256 → n.set_bit m 255 false ≡ m % 2 ^ 255
  low_of m small = n.set_bit_false m 255 ∙ omega arith

  sign_of : (m x : ℕ) → m < 2 ^ 256 → (x % 2 =ℕ= 1) ≡ n.bit m 255 → x % 2 ≡ m / 2 ^ 255
  sign_of m x small parity =
      let same : (x % 2 =ℕ= 1) ≡ (m / 2 ^ 255 % 2 =ℕ= 1) = parity ∙ n.bit_lem m 255 in ground arith

  -- On 32 bytes decode never panics. It takes y from the low 255 bits and a root of xrecover,
  -- negated where its parity is not the highest bit; it accepts exactly if that point is on the
  -- curve, and else returns the error of a bad point.
  pub decode-Decodes :
      (bytes : List ℕ)
      → length bytes ≡ 32
      → AreBytes bytes
      → Returns (decode n bytes) (Decodes n bytes)
  unfolding decode
  decode-Decodes bytes len are_bytes =
      let number = n.from_bytes_le bytes in
      let small = number-lt bytes len are_bytes in
      let (root, found, (below, even)) = xrecover-even n (n.set_bit number 255 false) in
      let (x, signed, (bound, parity, which)) =
        with_sign-parity (n.bit number 255) root below even in
      rw (found, signed)
        (new-Decodes bytes x (n.set_bit number 255 false) (record {
          y_low = low_of number small;
          x_sign = sign_of number x small parity;
          x_bound = bound;
          x_root = (root, found, which);
        }))

  set_bit-restores :
      (m x : ℕ) → m < 2 ^ 256 → x % 2 ≡ m / 2 ^ 255 → n.set_bit (m % 2 ^ 255) 255 (n.bit x 0) ≡ m
  set_bit-restores m x small sign = elim (Bool-cases (x % 2 =ℕ= 1)) [
    | inl odd ↦
        let one : x % 2 ≡ 1 = (=ℕ=_iff (x % 2) 1).0 odd in
        rw (bit-zero n x, odd, n.set_bit_true (m % 2 ^ 255) 255) (omega arith)
    | inr even ↦
        let zero : x % 2 ≡ 0 = ground arith in
        rw (bit-zero n x, even, n.set_bit_false (m % 2 ^ 255) 255) (omega arith)
  ]

  -- Thirty-two bytes that decode accepts are the encoding of the point that it returns.
  pub encode-decode :
      (bytes : List ℕ) (p : Ed25519Point)
      → length bytes ≡ 32
      → AreBytes bytes
      → decode n bytes ≡ ok (okay p)
      → encode n p ≡ bytes
  unfolding encode
  encode-decode bytes p len are_bytes decoded =
      let (result, returned, decodes) = decode-Decodes bytes len are_bytes in
      let h = held decodes (ok_inj (sym returned ∙ decoded)) in
      resize-eq n _ bytes len are_bytes (
        sym (
          ap (λ y. n.set_bit y 255 (n.bit p.x 0)) h.y_low
          ∙ set_bit-restores _ p.x (number-lt bytes len are_bytes) h.x_sign))
    where
      held :
          {result : Result Ed25519Point Ed25519Error}
          → Decodes n bytes result
          → result ≡ okay p
          → HasBytes n bytes p
      held (accepted h on) e = subst (HasBytes n bytes) (okay_inj e) h
      held (refused h off) e = absurd (okay-ne-err (sym e))
