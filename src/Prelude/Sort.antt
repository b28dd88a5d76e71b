-- ===== src/Prelude/Sort.antt =====
-- sort.Strings, as a sort by insertion.
use Prim.{tt}
use Prim.Native.Nat.{ℕ, suc}
use mathlib.Core.Path.{◌≡◌, refl}
use mathlib.Core.Logic.{inl, inr}
use mathlib.Core.Bool.{true, false}
use mathlib.Core.List.{List, [], ◌∷◌}
use native.Mathlib.Omega.{arith}
use link_raft.Prelude.Tests.{if◌then◌else◌, Bool-cases}
use link_raft.Prelude.Strs.{Str, str_eq, str_leb}

insert_sorted : Str → List Str → List Str
insert_sorted k [] = k ∷ []
insert_sorted k (j ∷ js) =
    let rest = insert_sorted k js in if str_leb k j then k ∷ j ∷ js else j ∷ rest

unfoldable pub sort_strs : List Str → List Str
unfolding insert_sorted
sort_strs [] = []
sort_strs (k ∷ ks) = insert_sorted k (sort_strs ks)

-- Each string is at most the one behind it.
abbrev pub IsSorted : List Str → Type 0
IsSorted [] = Unit
IsSorted (k ∷ []) = Unit
IsSorted (k ∷ j ∷ js) = (str_leb k j ≡ true) × IsSorted (j ∷ js)

-- How often a string occurs.
unfoldable pub count : Str → List Str → ℕ
count k [] = 0
count k (j ∷ js) = let rest = count k js in if str_eq j k then suc rest else rest

str_leb-total : (a b : Str) → str_leb a b ≡ false → str_leb b a ≡ true
unfolding str_leb
str_leb-total [] b h = ground arith
str_leb-total (a ∷ as_) [] h = refl
str_leb-total (a ∷ as_) (b ∷ bs) h = ground (arith, str_leb-total as_ bs)

-- The head of the sorted list is `k` or the old head, so whatever was at most both is still in order.
IsSorted-insert_sorted :
    (h k : Str) (ks : List Str)
    → str_leb h k ≡ true
    → IsSorted (h ∷ ks)
    → IsSorted (h ∷ insert_sorted k ks)
unfolding insert_sorted
IsSorted-insert_sorted h k [] le s = (le, tt)
IsSorted-insert_sorted h k (j ∷ js) le s = elim (Bool-cases (str_leb k j)) [
  | inl at_most ↦ rw at_most (le, (at_most, s.1))
  | inr over ↦ rw over (s.0, IsSorted-insert_sorted j k js (str_leb-total k j over) s.1)
]

insert_sorted-IsSorted : (k : Str) (ks : List Str) → IsSorted ks → IsSorted (insert_sorted k ks)
unfolding insert_sorted
insert_sorted-IsSorted k [] s = tt
insert_sorted-IsSorted k (j ∷ js) s = elim (Bool-cases (str_leb k j)) [
  | inl at_most ↦ rw at_most (at_most, s)
  | inr over ↦ rw over (IsSorted-insert_sorted j k js (str_leb-total k j over) s)
]

pub sort_strs-IsSorted : (ks : List Str) → IsSorted (sort_strs ks)
unfolding sort_strs
sort_strs-IsSorted [] = tt
sort_strs-IsSorted (k ∷ ks) = insert_sorted-IsSorted k (sort_strs ks) (sort_strs-IsSorted ks)

count-insert_sorted : (k j : Str) (js : List Str) → count k (insert_sorted j js) ≡ count k (j ∷ js)
unfolding insert_sorted count
count-insert_sorted k j [] = refl
count-insert_sorted k j (i ∷ is) = ground (arith, count-insert_sorted k j is)

pub count-sort_strs : (k : Str) (ks : List Str) → count k (sort_strs ks) ≡ count k ks
unfolding sort_strs count
count-sort_strs k [] = refl
count-sort_strs k (j ∷ js) =
    rw (count-insert_sorted k j (sort_strs js)) (rw (count-sort_strs k js) refl)
