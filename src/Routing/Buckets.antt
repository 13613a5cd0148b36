-- ===== src/Routing/Buckets.antt =====
-- What a well-formed table is, and where a node belongs.
use mathlib.Core.Path.{subst₂}
use noktulo.Prelude.{
  ℕ, zero, suc, ◌*◌, ◌≤◌, ◌<◌, ◌≡◌, sym, ap, ◌∙◌, false, List, [], ◌∷◌, ◌++◌, some, ◌=ℕ=◌, =ℕ=_iff,
  ◌==◌, nat_eq, list_eq, list_beq_iff, length, All, All-append, All-remove_at, All-get_elem?, subst,
  get_elem?, set, remove_at, get_elem?-set_self, get_elem?-set_ne, get_elem?-some_lt, get_elem?-lt,
  length-set, Run, ok, ◌>>=◌, Returns, arith, Bool-cases, some_inj, inl, inr,
}
use noktulo.Prelude.Bytes.{AreBytes}
use noktulo.Key.{Key, xor, xor_bytes, zeroes_in_prefix}
use noktulo.Key.Bits.{zeroes_in_prefix-lt}
use noktulo.Key.Distance.{xor_lem, length-xor_bytes, xor_bytes-AreBytes}
use noktulo.Routing.{NodeInfo, RoutingTable, k_param, lookup_bucket_index}

-- The bucket of a node, from the own id: the count of zeroes in their distance.
abbrev pub index_of : Key → Key → Run ℕ
index_of own id = xor own id >>= zeroes_in_prefix

-- A key of `len` bytes.
abbrev pub IsKey : ℕ → Key → Type 0
IsKey len k = (length k ≡ len) × AreBytes k

abbrev pub IsEntry : ℕ → Key → ℕ → NodeInfo → Type 0
IsEntry len own i n = IsKey len n.id × (index_of own n.id ≡ ok i)

-- No id occurs twice.
abbrev pub IsDistinct : List NodeInfo → Type 0
IsDistinct [] = Unit {0}
IsDistinct (x ∷ xs) = All (λ y. (y.id == x.id) ≡ false) xs × IsDistinct xs

pub record IsBucket (len : ℕ) (own : Key) (i : ℕ) (b : List NodeInfo) : Type 0 where
  pub small : length b ≤ k_param
  pub entries : All (IsEntry len own i) b
  pub distinct : IsDistinct b

pub record IsValid (t : RoutingTable) : Type 0 where
  pub own : IsKey t.key_len t.node_info.id
  pub nonempty : 0 < t.key_len
  pub width : length t.buckets ≡ t.key_len * 8
  pub placed :
      (i : ℕ) (b : List NodeInfo)
      → get_elem? t.buckets i ≡ some b
      → IsBucket t.key_len t.node_info.id i b

-- A key of the table's length has a bucket.
pub index_of-lt :
    (len : ℕ) (own id : Key)
    → IsKey len own
    → IsKey len id
    → 0 < len
    → Returns (index_of own id) λ i. i < len * 8
index_of-lt len own id (lo, bo) (li, bi) h =
    let same : length own ≡ length id = lo ∙ sym li in
    let size = length-xor_bytes own id same in
    let (i, e, lt) =
      zeroes_in_prefix-lt (xor_bytes own id) (xor_bytes-AreBytes own id bo bi) (omega arith) in
    (i, rw (xor_lem own id same) e, omega arith)

-- The bucket that `update` and `remove` work on.
pub IsBucket-of :
    (t : RoutingTable) (id : Key)
    → IsValid t
    → IsKey t.key_len id
    → (i : ℕ) × (b : List NodeInfo) × (lookup_bucket_index t id ≡ ok i)
      × (get_elem? t.buckets i ≡ some b)
      × IsBucket t.key_len t.node_info.id i b
unfolding lookup_bucket_index
IsBucket-of t id v k =
    let (i, e, lt) = index_of-lt t.key_len t.node_info.id id v.own k v.nonempty in
    let (b, at) = get_elem?-lt t.buckets i (omega (arith, v.width)) in
    (i, b, e, at, v.placed i b at)

-- Writing a well-formed bucket back keeps the table well-formed.
pub set-IsValid :
    (t : RoutingTable) (i : ℕ) (b : List NodeInfo)
    → IsValid t
    → IsBucket t.key_len t.node_info.id i b
    → IsValid (record t { buckets = set t.buckets i b })
set-IsValid t i b v h = record {
  own = v.own;
  nonempty = v.nonempty;
  width = length-set t.buckets i b ∙ v.width;
  placed = placed;
}
  where
    placed :
        (j : ℕ) (c : List NodeInfo)
        → get_elem? (set t.buckets i b) j ≡ some c
        → IsBucket t.key_len t.node_info.id j c
    placed j c e = elim (Bool-cases (i =ℕ= j)) [
      | inl same ↦
          let at : i ≡ j = (=ℕ=_iff i j).0 same in
          let what : b ≡ c = some_inj (
            sym (
              get_elem?-set_self t.buckets i b (
                omega
                  (arith, get_elem?-some_lt (set t.buckets i b) j e, length-set t.buckets i b, at)))
            ∙ ap (get_elem? (set t.buckets i b)) at
            ∙ e) in
          subst₂ (IsBucket t.key_len t.node_info.id) at what h
      | inr other ↦ v.placed j c (rw (← get_elem?-set_ne t.buckets i j b (ground arith)) e)
    ]

pub remove_at-IsDistinct : (b : List NodeInfo) (j : ℕ) → IsDistinct b → IsDistinct (remove_at j b)
remove_at-IsDistinct [] zero d = tt
remove_at-IsDistinct [] (suc j) d = tt
remove_at-IsDistinct (x ∷ xs) zero d = d.1
remove_at-IsDistinct (x ∷ xs) (suc j) d =
    (All-remove_at (λ y. (y.id == x.id) ≡ false) j xs d.0, remove_at-IsDistinct xs j d.1)

-- A node whose id is new to the bucket may stand at its end.
pub append-IsDistinct :
    (b : List NodeInfo) (n : NodeInfo)
    → All (λ (x : NodeInfo). (x.id == n.id) ≡ false) b
    → IsDistinct b
    → IsDistinct (b ++ n ∷ [])
append-IsDistinct [] n fresh d = (tt, tt)
append-IsDistinct (x ∷ xs) n fresh d = (
  All-append _ xs (n ∷ []) d.0 (ground (arith, list_beq_iff x.id n.id, list_beq_iff n.id x.id), tt),
  append-IsDistinct xs n fresh.1 d.1,
)

-- The node that was taken out is the only one of its id.
pub remove_at-fresh :
    (b : List NodeInfo) (j : ℕ) (n : NodeInfo)
    → IsDistinct b
    → get_elem? b j ≡ some n
    → All (λ (x : NodeInfo). (x.id == n.id) ≡ false) (remove_at j b)
remove_at-fresh [] j n d e = cc
remove_at-fresh (x ∷ xs) zero n d e =
    subst (λ (m : NodeInfo). All (λ y. (y.id == m.id) ≡ false) xs) (some_inj e) d.0
remove_at-fresh (x ∷ xs) (suc j) n d e = (
  ground (
    arith,
    list_beq_iff x.id n.id,
    list_beq_iff n.id x.id,
    All-get_elem? (λ (y : NodeInfo). (y.id == x.id) ≡ false) xs j n d.0 e,
  ),
  remove_at-fresh xs j n d.1 e,
)
