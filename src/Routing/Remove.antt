-- ===== src/Routing/Remove.antt =====
-- `remove` keeps the table well-formed and leaves no copy of the node.
use noktulo.Prelude.{
  ok_inj, ◌<◌, ℕ, ◌≡◌, ◌≢◌, sym, ap, ◌∙◌, true, false, List, some, ◌=ℕ=◌, =ℕ=_iff, ◌==◌, nat_eq,
  list_eq, length, length-remove_at, All, All-mono, All-remove_at, get_elem?, get_elem?-set_self,
  get_elem?-set_ne, get_elem?-some_lt, set, remove_at, position, position-some, position-none,
  Returns, arith, Bool-cases, Option-cases, inl, inr, some_inj, subst,
}
use noktulo.Key.{Key}
use noktulo.Routing.{NodeInfo, node_eq, node_beq_iff, RoutingTable, remove_from, remove}
use noktulo.Routing.Buckets.{
  index_of, IsKey, IsEntry, IsBucket, IsValid, IsBucket-of, set-IsValid, remove_at-IsDistinct,
  remove_at-fresh,
}
use noktulo.Routing.Update.{IsEntry-of}

-- No bucket holds the node.
abbrev pub IsAbsent : RoutingTable → NodeInfo → Type 0
IsAbsent t n =
    (i : ℕ) (b : List NodeInfo) → get_elem? t.buckets i ≡ some b → All (λ x. (x == n) ≡ false) b

remove_at-IsBucket :
    (len : ℕ) (own : Key) (i j : ℕ) (b : List NodeInfo)
    → j < length b
    → IsBucket len own i b
    → IsBucket len own i (remove_at j b)
remove_at-IsBucket len own i j b lt v = record {
  small = omega (arith, length-remove_at b j lt);
  entries = All-remove_at (IsEntry len own i) j b v.entries;
  distinct = remove_at-IsDistinct b j v.distinct;
}

index_unique :
    (len : ℕ) (own : Key) (i j : ℕ) (n x : NodeInfo)
    → i ≢ j
    → IsEntry len own i n
    → IsEntry len own j x
    → (x == n) ≡ false
index_unique len own i j n x ne hn hx = elim (Bool-cases (x == n)) [
  | inl same ↦ absurd (
      ne (
        ok_inj (
          sym hn.1
          ∙ sym (ap (λ (m : NodeInfo). index_of own m.id) ((node_beq_iff x n).0 same))
          ∙ hx.1)))
  | inr other ↦ other
]

-- The node is in no bucket but its own.
elsewhere :
    (t : RoutingTable) (n : NodeInfo) (i j : ℕ) (b : List NodeInfo)
    → IsValid t
    → IsEntry t.key_len t.node_info.id i n
    → i ≢ j
    → get_elem? t.buckets j ≡ some b
    → All (λ x. (x == n) ≡ false) b
elsewhere t n i j b v hn ne at =
    All-mono (IsEntry t.key_len t.node_info.id j) _ b
      (λ x hx. index_unique t.key_len t.node_info.id i j n x ne hn hx) (v.placed j b at).entries

other_id : (x n : NodeInfo) → (x.id == n.id) ≡ false → (x == n) ≡ false
other_id x n e = rw e

module _ (t : RoutingTable) (n : NodeInfo) (v : IsValid t) (i : ℕ) (b : List NodeInfo)
    (hn : IsEntry t.key_len t.node_info.id i n) (at : get_elem? t.buckets i ≡ some b) where
  -- Nothing to remove.
  IsAbsent-before : All (λ x. (x == n) ≡ false) b → IsAbsent t n
  IsAbsent-before h j c e = elim (Bool-cases (i =ℕ= j)) [
    | inl same ↦
        subst (All (λ x. (x == n) ≡ false))
          (some_inj (sym at ∙ ap (get_elem? t.buckets) ((=ℕ=_iff i j).0 same) ∙ e)) h
    | inr other ↦ elsewhere t n i j c v hn (ground arith) e
  ]

  IsAbsent-after :
      (b' : List NodeInfo)
      → All (λ x. (x == n) ≡ false) b'
      → IsAbsent (record t { buckets = set t.buckets i b' }) n
  IsAbsent-after b' h j c e = elim (Bool-cases (i =ℕ= j)) [
    | inl same ↦
        subst (All (λ x. (x == n) ≡ false))
          (some_inj (
            sym (get_elem?-set_self t.buckets i b' (get_elem?-some_lt t.buckets i at))
            ∙ ap (get_elem? (set t.buckets i b')) ((=ℕ=_iff i j).0 same)
            ∙ e))
          h
    | inr other ↦
        elsewhere t n i j c v hn (ground arith)
          (sym (get_elem?-set_ne t.buckets i j b' (ground arith)) ∙ e)
  ]

-- On a well-formed table and a node with a key of its length, remove returns a well-formed table
-- and no bucket of it holds that node.
pub remove-IsValid :
    (t : RoutingTable) (n : NodeInfo)
    → IsValid t
    → IsKey t.key_len n.id
    → Returns (remove t n) λ r. IsValid r × IsAbsent r n
unfolding remove remove_from
remove-IsValid t n v k =
    let (i, b, indexed, at, good) = IsBucket-of t n.id v k in
    let size : (t.key_len =ℕ= length n.id) ≡ true = (=ℕ=_iff _ _).1 (sym k.0) in
    let entry = IsEntry-of t n i k indexed in
    elim (Option-cases (position (λ x. x == n) b)) [
      | inl e ↦ (
        t,
        rw (size, indexed) (rw at (rw (e, remove_from))),
        (v, IsAbsent-before t n v i b entry at (position-none _ b e)),
      )
      | inr (j, e) ↦
          let (x, there, same, lt) = position-some (λ x. x == n) b j e in
          let fresh =
            All-mono _ (λ y. (y == n) ≡ false) (remove_at j b) (λ y. other_id y n)
              (subst (λ (m : NodeInfo). All (λ y. (y.id == m.id) ≡ false) (remove_at j b))
                ((node_beq_iff x n).0 same) (remove_at-fresh b j x good.distinct there)) in
          (
            record t { buckets = set t.buckets i (remove_at j b) },
            rw (size, indexed) (rw at (rw (e, remove_from))),
            (
              set-IsValid t i (remove_at j b) v
                  (remove_at-IsBucket t.key_len t.node_info.id i j b lt good),
              IsAbsent-after t n v i b entry at (remove_at j b) fresh,
            ),
          )
    ]
