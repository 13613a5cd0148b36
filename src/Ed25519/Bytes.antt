-- ===== src/Ed25519/Bytes.antt =====
-- Numbers as little-endian bytes.
use native.Mathlib.Nat.{pow-succ'}
use noktulo.Prelude.{
  ℕ, zero, suc, ◌+◌, ◌-◌, ◌*◌, ◌^◌, ◌≤◌, ◌<◌, ◌≡◌, refl, sym, ◌∙◌, List, [], ◌∷◌, ◌++◌, All-append,
  All-replicate, All-take, length, length-append, length-replicate, length-take, subst, replicate,
  take, take-all, arith,
}
use noktulo.Prelude.Bytes.{AreBytes, IsByte}
use noktulo.Ed25519.{BigUints}

module _ (n : BigUints) where
  pub from_bytes_le-lt : (bs : List ℕ) → AreBytes bs → n.from_bytes_le bs < 256 ^ length bs
  from_bytes_le-lt [] h = omega (arith, n.from_bytes_le-nil)
  from_bytes_le-lt (b ∷ bs) h =
      rw (n.from_bytes_le-cons b bs, pow-succ' 256 (length bs))
        (omega (arith, from_bytes_le-lt bs h.1, h.0))

  -- Bytes are determined by their number and how many they are.
  pub from_bytes_le_inj :
      (cs bs : List ℕ)
      → AreBytes cs
      → AreBytes bs
      → length cs ≡ length bs
      → n.from_bytes_le cs ≡ n.from_bytes_le bs
      → cs ≡ bs
  from_bytes_le_inj [] [] ha hb len e = refl
  from_bytes_le_inj [] (b ∷ bs) ha hb len e = absurd (omega arith)
  from_bytes_le_inj (a ∷ cs) [] ha hb len e = absurd (omega arith)
  from_bytes_le_inj (a ∷ cs) (b ∷ bs) ha hb len e =
      let numbers : a + 256 * n.from_bytes_le cs ≡ b + 256 * n.from_bytes_le bs =
        sym (n.from_bytes_le-cons a cs) ∙ e ∙ n.from_bytes_le-cons b bs in
      let heads : a ≡ b = omega (arith, ha.0, hb.0) in
      let tails : cs ≡ bs =
        from_bytes_le_inj cs bs ha.1 hb.1 (omega arith) (omega (arith, ha.0, hb.0)) in
      rw (heads, tails) refl

  pub from_bytes_le-append_zeros :
      (bs : List ℕ) (k : ℕ) → n.from_bytes_le (bs ++ replicate k 0) ≡ n.from_bytes_le bs
  from_bytes_le-append_zeros [] zero = refl
  from_bytes_le-append_zeros [] (suc k) = omega (
    arith,
    n.from_bytes_le-cons 0 (replicate k 0),
    from_bytes_le-append_zeros [] k,
    n.from_bytes_le-nil,
  )
  from_bytes_le-append_zeros (b ∷ bs) k = omega (
    arith,
    n.from_bytes_le-cons b (bs ++ replicate k 0),
    n.from_bytes_le-cons b bs,
    from_bytes_le-append_zeros bs k,
  )

  -- Thirty-two bytes that spell a number of at most that size.
  pub resize-length : (r : List ℕ) → length (take 32 r ++ replicate (32 - length r) 0) ≡ 32
  resize-length r = omega (
    arith,
    length-append (take 32 r) (replicate (32 - length r) 0),
    length-take 32 r,
    length-replicate {A = ℕ} (32 - length r) 0,
  )

  pub resize-eq :
      (number : ℕ) (bytes : List ℕ)
      → length bytes ≡ 32
      → AreBytes bytes
      → n.from_bytes_le bytes ≡ number
      → (let r = n.to_bytes_le number in take 32 r ++ replicate (32 - length r) 0) ≡ bytes
  resize-eq number bytes len ok_bytes spells =
      from_bytes_le_inj _ bytes
        (All-append IsByte (take 32 r) zeros (All-take IsByte 32 r (n.to_bytes_le_bytes number))
          (All-replicate IsByte _ 0 (omega arith)))
        ok_bytes (resize-length r ∙ sym len)
        (rw
          (
            take-all 32 r short,
            from_bytes_le-append_zeros r (32 - length r),
            n.from_bytes_le-to_bytes_le number,
          )
          (sym spells))
    where
      r : List ℕ
      r = n.to_bytes_le number

      zeros : List ℕ
      zeros = replicate (32 - length r) 0

      below : number < 256 ^ 32
      below =
          subst (λ k. k < 256 ^ 32) spells
            (subst (λ k. n.from_bytes_le bytes < 256 ^ k) len (from_bytes_le-lt bytes ok_bytes))

      short : length r ≤ 32
      short = n.length-to_bytes_le number 31 below
