-- ===== src/Node/Targets.antt =====
-- Whom `multicast` sends a message to.
use noktulo.Prelude.{
  ℕ, ◌-◌, ◌*◌, ◌<◌, ◌≡◌, ◌↔◌, refl, sym, ap, ◌∙◌, Bool, true, false, List, [], ◌∷◌, ◌++◌, leb,
  leb→le, le→leb, length, length-append, length-replicate, take-all, replicate, filter, All,
  All-append, All-replicate, ok, arith,
}
use noktulo.Prelude.Bytes.{AreBytes, IsByte}
use noktulo.Key.{Key, resize, xor_bytes, zeroes_in_prefix, is_prefix}
use noktulo.Key.Bits.{zeroes_in_prefix-ge}
use noktulo.Key.Distance.{length-xor_bytes, xor_bytes-AreBytes, xor-zero_prefix_iff}
use noktulo.Routing.{NodeInfo}
use noktulo.Routing.Closest.{IsMeasured}
use noktulo.Node.Calls.{targets}

Bool-eq : (a b : Bool) → ((a ≡ true) ↔ (b ≡ true)) → a ≡ b
Bool-eq true b h = sym (h.0 refl)
Bool-eq false true h = h.1 refl
Bool-eq false false h = refl

module _ (len : ℕ) (prefix : Key) (bytes : AreBytes prefix) (shorter : length prefix < len) where
  -- The key that the lookup of `multicast` is for.
  item_lem : resize prefix len ≡ prefix ++ replicate (len - length prefix) 0
  unfolding resize
  item_lem = rw (take-all len prefix (omega (arith, shorter))) refl

  passes :
      (c : NodeInfo × Key)
      → IsMeasured len (resize prefix len) c
      → (z : ℕ) × (zeroes_in_prefix c.1 ≡ ok z)
        × (leb (length prefix * 8) z ≡ is_prefix prefix c.0.id)
  passes c (key, distance) =
      let rest = replicate (len - length prefix) 0 in
      let zero' : IsByte 0 = omega arith in
      let item_bytes : AreBytes (prefix ++ rest) =
        All-append IsByte prefix rest bytes (All-replicate IsByte (len - length prefix) 0 zero') in
      let size : length (prefix ++ rest) ≡ len = omega (
        arith,
        length-append prefix rest,
        length-replicate {A = ℕ} (len - length prefix) 0,
        shorter,
      ) in
      let d = xor_bytes c.0.id (prefix ++ rest) in
      let d_bytes = xor_bytes-AreBytes c.0.id (prefix ++ rest) key.1 item_bytes in
      let d_size : length d ≡ len =
        length-xor_bytes c.0.id (prefix ++ rest) (key.0 ∙ sym size) ∙ key.0 in
      let (z, e, reaches) =
        zeroes_in_prefix-ge d (length prefix) d_bytes (omega (arith, d_size, shorter)) in
      let zero_iff =
        xor-zero_prefix_iff prefix rest c.0.id (omega (arith, key.0, shorter)) bytes key.1 in
      let same : c.1 ≡ d = distance ∙ ap (xor_bytes c.0.id) item_lem in
      (
        z,
        ap zeroes_in_prefix same ∙ e,
        Bool-eq _ _ (
          λ h. zero_iff.0 (reaches.0 (leb→le _ _ h)),
          λ h. le→leb _ _ (reaches.1 (zero_iff.1 h)),
        ),
      )

  -- For a prefix of bytes shorter than a node's id, and candidates that carry their distance to
  -- the prefix filled up with zeroes, multicast's filter keeps exactly the candidates whose id
  -- starts with the prefix.
  pub targets_lem :
      (candidates : List (NodeInfo × Key))
      → All (IsMeasured len (resize prefix len)) candidates
      → targets prefix candidates
        ≡ ok (filter (λ (c : NodeInfo × Key). is_prefix prefix c.0.id) candidates)
  unfolding targets
  targets_lem [] h = refl
  targets_lem (c ∷ cs) h =
      let (z, e, same) = passes c h.0 in rw (targets, e, targets_lem cs h.1, same) refl
