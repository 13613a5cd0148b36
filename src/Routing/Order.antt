-- ===== src/Routing/Order.antt =====
-- The order of distances, and the sort.
use mathlib.Core.List.{Perm}
use mathlib.Core.List.Perm
use noktulo.Prelude.{
  suc, ◌≡◌, refl, ap, ◌∙◌, true, false, List, [], ◌∷◌, length, All, arith, Bool-cases, inl, inr,
}
use noktulo.Key.{Key}
use noktulo.Routing.{NodeInfo, key_le, insert_by_distance, sort_by_distance}

pub key_le_total : (a b : Key) → key_le a b ≡ false → key_le b a ≡ true
unfolding key_le
key_le_total [] b h = ground arith
key_le_total (x ∷ xs) [] h = refl
key_le_total (x ∷ xs) (y ∷ ys) h = ground (arith, key_le_total xs ys)

pub key_le_trans : (a b c : Key) → key_le a b ≡ true → key_le b c ≡ true → key_le a c ≡ true
unfolding key_le
key_le_trans [] b c h k = refl
key_le_trans (x ∷ xs) [] c h k = ground arith
key_le_trans (x ∷ xs) (y ∷ ys) [] h k = ground arith
key_le_trans (x ∷ xs) (y ∷ ys) (z ∷ zs) h k = ground (arith, key_le_trans xs ys zs)

pub key_le_antisymm : (a b : Key) → key_le a b ≡ true → key_le b a ≡ true → a ≡ b
unfolding key_le
key_le_antisymm [] [] h k = refl
key_le_antisymm [] (y ∷ ys) h k = ground arith
key_le_antisymm (x ∷ xs) [] h k = ground arith
key_le_antisymm (x ∷ xs) (y ∷ ys) h k = ground (arith, key_le_antisymm xs ys)

-- `x` is at least as close as every node of the list.
abbrev pub IsClosest : NodeInfo × Key → List (NodeInfo × Key) → Type 0
IsClosest x ys = All (λ y. key_le x.1 y.1 ≡ true) ys

abbrev pub IsSorted : List (NodeInfo × Key) → Type 0
IsSorted [] = Unit {0}
IsSorted (x ∷ xs) = IsClosest x xs × IsSorted xs

IsClosest-trans :
    (x y : NodeInfo × Key) (ys : List (NodeInfo × Key))
    → key_le x.1 y.1 ≡ true
    → IsClosest y ys
    → IsClosest x ys
IsClosest-trans x y [] h k = tt
IsClosest-trans x y (z ∷ zs) h k = (key_le_trans x.1 y.1 z.1 h k.0, IsClosest-trans x y zs h k.1)

insert-IsClosest :
    (w x : NodeInfo × Key) (ys : List (NodeInfo × Key))
    → key_le w.1 x.1 ≡ true
    → IsClosest w ys
    → IsClosest w (insert_by_distance x ys)
unfolding insert_by_distance
insert-IsClosest w x [] h k = (h, tt)
insert-IsClosest w x (y ∷ ys) h k = ground (arith, insert-IsClosest w x ys h k.1)

insert-IsSorted :
    (x : NodeInfo × Key) (ys : List (NodeInfo × Key))
    → IsSorted ys
    → IsSorted (insert_by_distance x ys)
unfolding insert_by_distance
insert-IsSorted x [] s = (tt, tt)
insert-IsSorted x (y ∷ ys) s = elim (Bool-cases (key_le x.1 y.1)) [
  | inl e ↦ rw e ((e, IsClosest-trans x y ys e s.0), s)
  | inr e ↦ rw e (insert-IsClosest y x ys (key_le_total x.1 y.1 e) s.0, insert-IsSorted x ys s.1)
]

insert-perm :
    (x : NodeInfo × Key) (ys : List (NodeInfo × Key)) → Perm (insert_by_distance x ys) (x ∷ ys)
unfolding insert_by_distance
insert-perm x [] = Perm.rfl
insert-perm x (y ∷ ys) = elim (Bool-cases (key_le x.1 y.1)) [
  | inl e ↦ rw e Perm.rfl
  | inr e ↦ rw e (Perm.trans (Perm.cons y (insert-perm x ys)) (Perm.swap x y ys))
]

pub sort-IsSorted : (xs : List (NodeInfo × Key)) → IsSorted (sort_by_distance xs)
unfolding sort_by_distance
sort-IsSorted [] = tt
sort-IsSorted (x ∷ xs) = insert-IsSorted x _ (sort-IsSorted xs)

pub sort-perm : (xs : List (NodeInfo × Key)) → Perm (sort_by_distance xs) xs
unfolding sort_by_distance
sort-perm [] = Perm.rfl
sort-perm (x ∷ xs) = Perm.trans (insert-perm x _) (Perm.cons x (sort-perm xs))

length-insert_by_distance :
    (x : NodeInfo × Key) (ys : List (NodeInfo × Key))
    → length (insert_by_distance x ys) ≡ suc (length ys)
unfolding insert_by_distance
length-insert_by_distance x [] = refl
length-insert_by_distance x (y ∷ ys) = ground (arith, length-insert_by_distance x ys)

pub length-sort : (xs : List (NodeInfo × Key)) → length (sort_by_distance xs) ≡ length xs
unfolding sort_by_distance
length-sort [] = refl
length-sort (x ∷ xs) = length-insert_by_distance x (sort_by_distance xs) ∙ ap suc (length-sort xs)
