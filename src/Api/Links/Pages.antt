-- ===== src/Api/Links/Pages.antt =====
-- internal/api/handler/link.go: the pages of `ListLinks`.
use link_raft.Prelude.{
  ℕ, zero, suc, ◌+◌, ◌-◌, ◌*◌, ◌%◌, ◌≤◌, ◌<◌, ◌≡◌, refl, sym, ap, ◌∙◌, Bool, true, false, Option,
  none, some, List, [], ◌∷◌, ◌++◌, take, drop, length, select, ltb, leb, ◌==◌, ◌&&◌, u64_mod, ◌^◌,
  if◌then◌else◌, arith, Bool-cases, inl, inr, take-all, drop-all, length-drop,
}
use link_raft.Prelude.Int.{ℤ, pos, negsuc, max_int64, add_int64}
use link_raft.Prelude.Ordering.{IsChain, sort_stable, sort_stable-IsChain, select-sort_stable}
use link_raft.Prelude.Results.{Result, ok, err}
use link_raft.Api.Act.{Failure, panicked}
use link_raft.Api.Models.{Link}
use link_raft.Api.Repo.{id_eq, id_eq_iff}
use link_raft.Api.Links.Listing.{slice, cut, page_of, int_ltb, is_more_popular}

-- A sum that fits is no other on int64.
add_int64-pos : (m n : ℕ) → m + n ≤ max_int64 → add_int64 (pos m) (pos n) ≡ pos (m + n)
unfolding add_int64
add_int64-pos m n h = ground arith

slice-pos :
    {A : Type 0} (i j : ℕ) (xs : List A)
    → i ≤ j
    → j ≤ length xs
    → slice (pos i) (pos j) xs ≡ ok (take (j - i) (drop i xs))
unfolding slice
slice-pos i j xs low high = ground arith

at_end : (m n : ℕ) → (if int_ltb (pos m) (pos (m + n)) then pos m else pos (m + n)) ≡ pos m
at_end m n = elim (Bool-cases (ltb m (m + n))) [
  | inl e ↦ rw e refl
  | inr e ↦ rw e (ap pos (ground arith))
]

-- Behind the end, and up to the end.
cut-take :
    {A : Type 0} (start per_page : ℕ) (xs : List A)
    → length xs + per_page ≤ max_int64
    → cut (pos start) per_page xs ≡ ok (take per_page (drop start xs))
unfolding cut
cut-take start per_page xs small = elim (Bool-cases (ltb (length xs) start)) [
  | inl e ↦
      let none_left : length xs - length xs ≡ 0 = omega arith in
      rw e (
        rw (add_int64-pos (length xs) per_page small, at_end (length xs) per_page)
          (slice-pos (length xs) (length xs) xs (omega arith) (omega arith)
            ∙ ap ok (
                ap (λ n. take n (drop (length xs) xs)) none_left
                ∙ rw (drop-all start xs (ground arith))
                    (sym (take-all per_page [] (omega arith))))))
  | inr e ↦ rw e (
      rw (add_int64-pos start per_page (ground arith))
        (elim (Bool-cases (ltb (length xs) (start + per_page))) [
          | inl f ↦ rw f (
              slice-pos start (length xs) xs (ground arith) (omega arith)
              ∙ ap ok (
                  take-all (length xs - start) (drop start xs) (omega (arith, length-drop start xs))
                  ∙ sym (take-all per_page (drop start xs) (grind (arith, length-drop start xs)))))
          | inr f ↦ rw f (
              slice-pos start (start + per_page) xs (omega arith) (ground arith)
              ∙ ap (λ n. ok (take n (drop start xs))) (omega arith))
        ]))
]

cut-negsuc : {A : Type 0} (n per_page : ℕ) (xs : List A) → cut (negsuc n) per_page xs ≡ err panicked
unfolding cut slice
cut-negsuc n per_page xs = refl

-- If the product does not pass 2^64 and the list is not of such a length that the end of a page passes
-- the largest int64, a page is a part of the list, with every slice within its bounds, and empty behind
-- its end; except that with a product from 2^63 on, which is negative as an int64, the slice panics.
pub page_of-slice :
    {A : Type 0} (page per_page : ℕ) (xs : List A)
    → (page - 1) * per_page < u64_mod
    → length xs + per_page ≤ max_int64
    → page_of page per_page xs ≡ (
        if leb ((page - 1) * per_page) max_int64
        then ok (take per_page (drop ((page - 1) * per_page) xs))
        else err panicked)
unfolding page_of
page_of-slice page per_page xs h small =
    let start = (page - 1) * per_page in
    let same : start % u64_mod ≡ start = omega arith in
    rw same (elim (Bool-cases (ltb start (2 ^ 63))) [
      | inl e ↦
          let fits : leb start max_int64 ≡ true = ground arith in
          rw (e, fits) (cut-take start per_page xs small)
      | inr e ↦
          let wraps : leb start max_int64 ≡ false = ground arith in
          rw (e, wraps) (cut-negsuc (2 ^ 64 - 1 - start) per_page xs)
    ])

-- The pages 1 to `m`, one behind the other; none, if one of them panics.
join_page : {A : Type 0} → Option (List A) → Result Failure (List A) → Option (List A)
join_page none r = none
join_page (some xs) (ok ys) = some (xs ++ ys)
join_page (some xs) (err e) = none

abbrev pub pages : {A : Type 0} → ℕ → ℕ → List A → Option (List A)
unfolding join_page
pages zero per_page xs = some []
pages (suc m) per_page xs = join_page (pages m per_page xs) (page_of (suc m) per_page xs)

take-add : {A : Type 0} (m n : ℕ) (xs : List A) → take m xs ++ take n (drop m xs) ≡ take (m + n) xs
take-add zero n xs = ap (λ k. take k xs) (omega arith)
take-add (suc m) n [] = take-all n [] (omega arith) ∙ sym (take-all (suc m + n) [] (omega arith))
take-add (suc m) n (x ∷ xs) =
    let e : suc (m + n) ≡ suc m + n = omega arith in
    ap (λ r. x ∷ r) (take-add m n xs) ∙ ap (λ k. take k (x ∷ xs)) e

-- As long as the bounds do not overflow an int64, no slice panics and the pages from the first on, put together, are the list up to
-- the end of the last page: no link is left out, shown twice or out of order.
pub pages-take :
    {A : Type 0} (m per_page : ℕ) (xs : List A)
    → m * per_page ≤ max_int64
    → length xs + per_page ≤ max_int64
    → pages m per_page xs ≡ some (take (m * per_page) xs)
unfolding join_page
pages-take zero per_page xs h small =
    let none_yet : 0 ≡ 0 * per_page = omega arith in ap (λ k. some (take k xs)) none_yet
pages-take (suc m) per_page xs h small =
    let start : (suc m - 1) * per_page ≡ m * per_page = ap (λ k. k * per_page) (omega arith) in
    let next : m * per_page + per_page ≡ suc m * per_page = omega arith in
    let below : m * per_page ≤ max_int64 = omega arith in
    let fits : leb (m * per_page) max_int64 ≡ true = ground arith in
    let shown = page_of-slice (suc m) per_page xs (rw start (omega arith)) small in
    rw (pages-take m per_page xs below small, shown, start, fits)
      (ap some (take-add (m * per_page) per_page xs ∙ ap (λ k. take k xs) next))

rank-asym :
    (a b : ℤ) (t u : ℕ)
    → (if id_eq a b then ltb u t else int_ltb b a) ≡ true
    → (if id_eq b a then ltb t u else int_ltb a b) ≡ false
rank-asym (pos m) (pos n) t u e = ground arith
rank-asym (pos m) (negsuc n) t u e = ground arith
rank-asym (negsuc m) (pos n) t u e = ground arith
rank-asym (negsuc m) (negsuc n) t u e = ground arith

more-asym : (l m : Link) → is_more_popular l m ≡ true → is_more_popular m l ≡ false
unfolding is_more_popular
more-asym l m e = rank-asym l.vote_count m.vote_count l.created_at m.created_at e

-- The same count and the same instant.
abbrev pub same_rank : Link → Link → Bool
same_rank l m = id_eq l.vote_count m.vote_count && l.created_at == m.created_at

same_rank-alike :
    (l x y : Link) → same_rank l x ≡ true → same_rank l y ≡ true → is_more_popular x y ≡ false
unfolding is_more_popular
same_rank-alike l x y p q = ground (
  arith,
  id_eq_iff l.vote_count x.vote_count,
  id_eq_iff l.vote_count y.vote_count,
  id_eq_iff x.vote_count y.vote_count,
)

-- Sorted by popularity, no link stands behind one that is less popular, and links with the same count
-- and the same instant keep the order of the index.
pub sort_stable-popular :
    (ls : List Link)
    → IsChain is_more_popular (sort_stable is_more_popular ls)
      × ((l : Link)
          → select (same_rank l) (sort_stable is_more_popular ls) ≡ select (same_rank l) ls)
sort_stable-popular ls = (
  sort_stable-IsChain is_more_popular more-asym ls,
  λ l. select-sort_stable is_more_popular (same_rank l) (same_rank-alike l) ls,
)
