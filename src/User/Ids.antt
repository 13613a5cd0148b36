-- ===== src/User/Ids.antt =====
-- The ids of a user's posts.
use noktulo.Prelude.{
  ℕ, zero, suc, some_inj, lt→ltb, ◌+◌, ◌^◌, ◌≤◌, ◌<◌, ◌≡◌, refl, subst, List, [], ◌∷◌, ◌++◌, none,
  some, last?, remove_at, All, All-mono, All-append, All-remove_at, Returns, arith, Option-cases,
  inl, inr,
}
use noktulo.Post.{SignedPost, id_of}
use noktulo.User.{next_id}

-- Each id is smaller than all that follow it.
abbrev pub IsAscending : List SignedPost → Type 0
IsAscending [] = Unit
IsAscending (p ∷ ps) = All (λ q. id_of p < id_of q) ps × IsAscending ps

-- An id after which there is another one.
abbrev pub HasNext : SignedPost → Type 0
HasNext p = id_of p + 1 < 2 ^ 128

pub IsAscending-append :
    (ps : List SignedPost) (p : SignedPost)
    → IsAscending ps
    → All (λ q. id_of q < id_of p) ps
    → IsAscending (ps ++ p ∷ [])
IsAscending-append [] p h l = (tt, tt)
IsAscending-append (q ∷ ps) p h l =
    (All-append (λ r. id_of q < id_of r) ps (p ∷ []) h.0 (l.0, tt), IsAscending-append ps p h.1 l.1)

pub IsAscending-remove_at :
    (i : ℕ) (ps : List SignedPost) → IsAscending ps → IsAscending (remove_at i ps)
IsAscending-remove_at zero [] h = tt
IsAscending-remove_at (suc i) [] h = tt
IsAscending-remove_at zero (p ∷ ps) h = h.1
IsAscending-remove_at (suc i) (p ∷ ps) h =
    (All-remove_at (λ q. id_of p < id_of q) i ps h.0, IsAscending-remove_at i ps h.1)

last_is_greatest :
    (ps : List SignedPost) (p : SignedPost)
    → IsAscending ps
    → last? ps ≡ some p
    → All (λ q. id_of q ≤ id_of p) ps
last_is_greatest [] p h e = tt
last_is_greatest (q ∷ []) p h e = (subst (λ r. id_of q ≤ id_of r) (some_inj e) (omega arith), tt)
last_is_greatest (q ∷ r ∷ ps) p h e =
    let rest = last_is_greatest (r ∷ ps) p h.1 e in (omega (arith, h.0.0, rest.0), rest)

last_HasNext :
    (ps : List SignedPost) (p : SignedPost) → All HasNext ps → last? ps ≡ some p → HasNext p
last_HasNext [] p h e = cc
last_HasNext (q ∷ []) p h e = subst HasNext (some_inj e) h.0
last_HasNext (q ∷ r ∷ ps) p h e = last_HasNext (r ∷ ps) p h.1 e

no_last : (ps : List SignedPost) → last? ps ≡ none → ps ≡ []
no_last [] e = refl
no_last (q ∷ []) e = cc
no_last (q ∷ r ∷ ps) e = let nil = no_last (r ∷ ps) e in cc

-- The next id is above all ids of an ascending list.
pub next_id-fresh :
    (ps : List SignedPost)
    → IsAscending ps
    → All HasNext ps
    → Returns (next_id ps) λ n. (n < 2 ^ 128) × All (λ q. id_of q < n) ps
unfolding next_id
next_id-fresh ps h room = elim (Option-cases (last? ps)) [
  | inl e ↦ rw (no_last ps e) (0, refl, (omega arith, tt))
  | inr (p, e) ↦
      let above = last_is_greatest ps p h e in
      let next : id_of p + 1 < 2 ^ 128 = last_HasNext ps p room e in
      (
        id_of p + 1,
        rw (next_id, e, lt→ltb _ _ next) refl,
        (next, All-mono _ _ ps (λ q le. omega (arith, le)) above),
      )
]
