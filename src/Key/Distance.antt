-- ===== src/Key/Distance.antt =====
-- The distance of keys, `BitXor`.
use noktulo.Prelude.{
  ◌≤◌, ◌≡◌, refl, sym, ap, ◌∙◌, ◌↔◌, true, [], ◌∷◌, ◌++◌, length, take, drop, replicate, ok, arith,
}
use noktulo.Prelude.Bytes.{AreBytes, xor-lt, xor_self, xor_cancel, eq_of_xor}
use noktulo.Key.{Key, xor, xor_bytes, is_prefix}
use noktulo.Key.Prefix.{is_prefix_iff}

pub length-xor_bytes : (a b : Key) → length a ≡ length b → length (xor_bytes a b) ≡ length a
unfolding xor_bytes
length-xor_bytes [] b h = refl
length-xor_bytes (x ∷ xs) [] h = absurd (omega arith)
length-xor_bytes (x ∷ xs) (y ∷ ys) h = omega (arith, length-xor_bytes xs ys (omega arith))

pub xor_bytes-AreBytes : (a b : Key) → AreBytes a → AreBytes b → AreBytes (xor_bytes a b)
unfolding xor_bytes
xor_bytes-AreBytes [] b ha hb = tt
xor_bytes-AreBytes (x ∷ xs) [] ha hb = tt
xor_bytes-AreBytes (x ∷ xs) (y ∷ ys) ha hb =
    (xor-lt x y ha.0 hb.0, xor_bytes-AreBytes xs ys ha.1 hb.1)

-- Two keys of one length have a distance, of that length.
pub xor_lem : (a b : Key) → length a ≡ length b → xor a b ≡ ok (xor_bytes a b)
unfolding xor
xor_lem a b h = ground arith

pub xor-inv : (a b d : Key) → xor a b ≡ ok d → (length a ≡ length b) × (d ≡ xor_bytes a b)
unfolding xor
xor-inv a b d h = ground arith

pub xor_bytes_self : (a : Key) → AreBytes a → xor_bytes a a ≡ replicate (length a) 0
unfolding xor_bytes
xor_bytes_self [] h = refl
xor_bytes_self (x ∷ xs) h = ground (arith, xor_self x, xor_bytes_self xs h.1)

pub xor_bytes_cancel :
    (a b : Key) → length a ≡ length b → AreBytes a → AreBytes b → xor_bytes (xor_bytes a b) b ≡ a
unfolding xor_bytes
xor_bytes_cancel [] b h ha hb = refl
xor_bytes_cancel (x ∷ xs) [] h ha hb = absurd (omega arith)
xor_bytes_cancel (x ∷ xs) (y ∷ ys) h ha hb =
    ground (arith, xor_cancel x y, xor_bytes_cancel xs ys (omega arith) ha.1 hb.1)

-- Two keys of bytes at the same XOR distance from a third are equal.
xor_injective :
    (a b item d : Key)
    → AreBytes a
    → AreBytes b
    → AreBytes item
    → xor a item ≡ ok d
    → xor b item ≡ ok d
    → a ≡ b
xor_injective a b item d ha hb hi p q =
    let (la, ea) = xor-inv a item d p in
    let (lb, eb) = xor-inv b item d q in
    sym (xor_bytes_cancel a item la ha hi)
    ∙ ap (λ c. xor_bytes c item) (sym ea ∙ eb)
    ∙ xor_bytes_cancel b item lb hb hi

xor-zero_prefix :
    (p rest tail : Key)
    → AreBytes p
    → take (length p) (xor_bytes (p ++ tail) (p ++ rest)) ≡ replicate (length p) 0
unfolding xor_bytes
xor-zero_prefix [] rest tail hp = refl
xor-zero_prefix (x ∷ p) rest tail hp =
    ground (arith, xor_self x hp.0, xor-zero_prefix p rest tail hp.1)

prefix_of_xor :
    (p rest id : Key)
    → length p ≤ length id
    → AreBytes p
    → AreBytes id
    → take (length p) (xor_bytes id (p ++ rest)) ≡ replicate (length p) 0
    → id ≡ p ++ drop (length p) id
unfolding xor_bytes
prefix_of_xor [] rest id h hp hid e = refl
prefix_of_xor (x ∷ p) rest [] h hp hid e = absurd (omega arith)
prefix_of_xor (x ∷ p) rest (y ∷ id) h hp hid e =
    ground (arith, eq_of_xor y x hid.0 hp.0, prefix_of_xor p rest id (omega arith) hp.1 hid.1)

-- The first bytes of a distance are zero exactly where the keys agree.
pub xor-zero_prefix_iff :
    (p rest id : Key)
    → length p ≤ length id
    → AreBytes p
    → AreBytes id
    → (take (length p) (xor_bytes id (p ++ rest)) ≡ replicate (length p) 0)
      ↔ (is_prefix p id ≡ true)
xor-zero_prefix_iff p rest id h hp hid = (
  λ e. (is_prefix_iff p id).1 (drop (length p) id, prefix_of_xor p rest id h hp hid e),
  λ t. let (tail, e) = (is_prefix_iff p id).0 t in rw e (xor-zero_prefix p rest tail hp),
)
