-- ===== src/Routing/Update.antt =====
-- `new`, `update` and `remove` keep the table well-formed, and what they change.
use mathlib.Core.List.{head?}
use noktulo.Prelude.{
  ap, ℕ, ◌*◌, ◌≤◌, ◌<◌, ◌≡◌, refl, sym, Bool, true, false, List, [], ◌∷◌, ◌++◌, Option, none, some,
  ltb, ◌=ℕ=◌, =ℕ=_iff, ◌==◌, nat_eq, list_eq, list_beq_iff, length, length-append, length-remove_at,
  All, All-append, All-remove_at, All-get_elem?, get_elem?, set, replicate, remove_at, position,
  position-some, position-none, get_elem?-replicate, get_elem?-some_lt, length-replicate, ok,
  Returns, arith, Bool-cases, Option-cases, inl, inr,
}
use noktulo.Key.{Key}
use noktulo.Routing.{
  NodeInfo, node_eq, RoutingTable, k_param, lookup_bucket_index, update_bucket, update, new,
}
use noktulo.Routing.Buckets.{
  IsKey, IsEntry, IsBucket, IsValid, IsBucket-of, set-IsValid, remove_at-IsDistinct,
  append-IsDistinct, remove_at-fresh,
}

-- `node.id == n.id`, the test of `position`.
abbrev pub has_id : Key → NodeInfo → Bool
has_id id x = x.id == id

-- What `update` does to the bucket of a node.
pub data Updated (b : List NodeInfo) (n : NodeInfo) : Option NodeInfo × List NodeInfo → Type 0 where
  moved :
      (i : ℕ) (x : NodeInfo)
      → get_elem? b i ≡ some x
      → x.id ≡ n.id
      → Updated b n (none, remove_at i b ++ x ∷ [])
  added : All (λ x. has_id n.id x ≡ false) b → length b < k_param → Updated b n (none, b ++ n ∷ [])
  full :
      (first : NodeInfo)
      → All (λ x. has_id n.id x ≡ false) b
      → head? b ≡ some first
      → k_param ≤ length b
      → Updated b n (some first, b)

head_of : (b : List NodeInfo) → 0 < length b → (x : NodeInfo) × (head? b ≡ some x)
head_of [] h = absurd (omega arith)
head_of (x ∷ xs) h = (x, refl)

pub update_bucket-Updated :
    (b : List NodeInfo) (n : NodeInfo) → Returns (update_bucket b n) (Updated b n)
unfolding update_bucket
update_bucket-Updated b n = elim (Option-cases (position (has_id n.id) b)) [
  | inr (i, e) ↦
      let (x, at, same, lt) = position-some (has_id n.id) b i e in
      (_, rw (e, update_bucket, at), moved i x at ((list_beq_iff x.id n.id).0 same))
  | inl e ↦ elim (Bool-cases (ltb (length b) k_param)) [
    | inl room ↦ (_, rw (e, update_bucket, room), added (position-none _ b e) (ground arith))
    | inr packed ↦
        let (x, first) = head_of b (ground arith) in
        (_, rw (e, update_bucket, packed, first), full x (position-none _ b e) first (ground arith))
  ]
]

module _ (len : ℕ) (own : Key) (i : ℕ) where
  -- The bucket stays small, ordered by place and free of duplicates.
  Updated-IsBucket :
      (b : List NodeInfo) (n : NodeInfo) (r : Option NodeInfo × List NodeInfo)
      → IsBucket len own i b
      → IsEntry len own i n
      → Updated b n r
      → IsBucket len own i r.1
  Updated-IsBucket b n _ v h (moved j x at same) = record {
    small = omega (
      arith,
      length-append (remove_at j b) (x ∷ []),
      length-remove_at b j (get_elem?-some_lt b j at),
    );
    entries =
        All-append (IsEntry len own i) (remove_at j b) (x ∷ [])
          (All-remove_at (IsEntry len own i) j b v.entries)
          (All-get_elem? (IsEntry len own i) b j x v.entries at, tt);
    distinct =
        append-IsDistinct (remove_at j b) x (remove_at-fresh b j x v.distinct at)
          (remove_at-IsDistinct b j v.distinct);
  }
  Updated-IsBucket b n _ v h (added fresh room) = record {
    small = omega (arith, length-append b (n ∷ []));
    entries = All-append (IsEntry len own i) b (n ∷ []) v.entries (h, tt);
    distinct = append-IsDistinct b n fresh v.distinct;
  }
  Updated-IsBucket b n _ v h (full first fresh at packed) = v

-- The effect of `update` on a table: one bucket is replaced, that of the node.
pub record Updates (t : RoutingTable) (n : NodeInfo) (r : Option NodeInfo × RoutingTable)
    : Type 0 where
  pub index : ℕ
  pub before : List NodeInfo
  pub after : List NodeInfo
  pub indexed : lookup_bucket_index t n.id ≡ ok index
  pub found : get_elem? t.buckets index ≡ some before
  pub updated : Updated before n (r.0, after)
  pub table : r.1 ≡ record t { buckets = set t.buckets index after }

pub IsEntry-of :
    (t : RoutingTable) (n : NodeInfo) (i : ℕ)
    → IsKey t.key_len n.id
    → lookup_bucket_index t n.id ≡ ok i
    → IsEntry t.key_len t.node_info.id i n
unfolding lookup_bucket_index
IsEntry-of t n i k e = (k, e)

-- On a well-formed routing table and a node with a key of its length, update returns, keeps the
-- table well-formed, and changes only the node's bucket: a known id moves to the end, a new node
-- is put at the end, and if the bucket is full nothing changes and its first node is returned for
-- a ping.
pub update-IsValid :
    (t : RoutingTable) (n : NodeInfo)
    → IsValid t
    → IsKey t.key_len n.id
    → Returns (update t n) λ r. IsValid r.1 × Updates t n r
unfolding update
update-IsValid t n v k =
    let (i, b, indexed, at, good) = IsBucket-of t n.id v k in
    let ((full', b'), ran, updated) = update_bucket-Updated b n in
    let size : (t.key_len =ℕ= length n.id) ≡ true = (=ℕ=_iff _ _).1 (sym k.0) in
    (
      (full', record t { buckets = set t.buckets i b' }),
      rw (size, indexed) (rw at (rw ran)),
      (
        set-IsValid t i b' v (
            Updated-IsBucket t.key_len t.node_info.id i b n (full', b') good
              (IsEntry-of t n i k indexed) updated),
        record {
          index = i;
          before = b;
          after = b';
          indexed = indexed;
          found = at;
          updated = updated;
          table = refl;
        },
      ),
    )

empty-IsBucket : (len : ℕ) (own : Key) (i : ℕ) (b : List NodeInfo) → b ≡ [] → IsBucket len own i b
empty-IsBucket len own i [] e = record { small = omega arith; entries = tt; distinct = tt }
empty-IsBucket len own i (x ∷ xs) e = cc

empty-IsValid :
    (n : NodeInfo) (len : ℕ)
    → IsKey len n.id
    → 0 < len
    → IsValid (record { key_len = len; node_info = n; buckets = replicate (len * 8) [] })
empty-IsValid n len k h = record {
  own = k;
  nonempty = h;
  width = length-replicate {A = List NodeInfo} (len * 8) [];
  placed = λ i b e. empty-IsBucket len n.id i b (get_elem?-replicate (len * 8) i [] e);
}

-- For a node with a nonempty key of the given length, new returns a well-formed table for keys of
-- that length.
pub new-IsValid :
    (n : NodeInfo) (len : ℕ)
    → IsKey len n.id
    → 0 < len
    → Returns (new n len) λ t. IsValid t × (t.key_len ≡ len)
unfolding new
new-IsValid n len k h =
    let (r, ran, (valid, updates)) = update-IsValid _ n (empty-IsValid n len k h) k in
    let size : (length n.id =ℕ= len) ≡ true = (=ℕ=_iff _ _).1 k.0 in
    (r.1, rw (size, ran), (valid, ap (λ (t : RoutingTable). t.key_len) updates.table))
