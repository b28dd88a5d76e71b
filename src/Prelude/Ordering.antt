-- ===== src/Prelude/Ordering.antt =====
-- Go's sort.SliceStable by a Boolean `less`.
use Prim.{tt}
use mathlib.Core.Path.{◌≡◌, refl}
use mathlib.Core.Bool.{Bool, true, false}
use mathlib.Core.List.{List, [], ◌∷◌}
use native.Mathlib.Omega.{arith}
use link_raft.Prelude.Lists.{select}
use link_raft.Prelude.Tests.{if◌then◌else◌}

module _ {ℓ} {A : Type ℓ} (less : A → A → Bool) where
  -- `x` stood in front of the list, and stays in front of its equals.
  unfoldable pub insert_stable : A → List A → List A
  insert_stable x [] = x ∷ []
  insert_stable x (y ∷ ys) =
      let rest = insert_stable x ys in if less y x then y ∷ rest else x ∷ y ∷ ys

  unfoldable pub sort_stable : List A → List A
  sort_stable [] = []
  sort_stable (x ∷ xs) = insert_stable x (sort_stable xs)

  -- No element is less than the one in front of it.
  abbrev pub IsChain : List A → Type 0
  IsChain [] = Unit
  IsChain (x ∷ []) = Unit
  IsChain (x ∷ y ∷ xs) = (less y x ≡ false) × IsChain (y ∷ xs)

module _ {ℓ} {A : Type ℓ} (less : A → A → Bool)
    (asym : (x y : A) → less x y ≡ true → less y x ≡ false) where
  insert_stable-IsChain :
      (x : A) (ys : List A) → IsChain less ys → IsChain less (insert_stable less x ys)
  unfolding insert_stable
  insert_stable-IsChain x [] h = tt
  insert_stable-IsChain x (y ∷ []) h = ground (arith, asym y x)
  insert_stable-IsChain x (y ∷ z ∷ ys) h =
      ground (arith, asym y x, asym z x, insert_stable-IsChain x (z ∷ ys) h.1)

  pub sort_stable-IsChain : (xs : List A) → IsChain less (sort_stable less xs)
  unfolding sort_stable
  sort_stable-IsChain [] = tt
  sort_stable-IsChain (x ∷ xs) =
      insert_stable-IsChain x (sort_stable less xs) (sort_stable-IsChain xs)

module _ {ℓ} {A : Type ℓ} (less : A → A → Bool) (p : A → Bool)
    (alike : (x y : A) → p x ≡ true → p y ≡ true → less x y ≡ false) where
  select-insert_stable :
      (x : A) (ys : List A) → select p (insert_stable less x ys) ≡ select p (x ∷ ys)
  unfolding insert_stable
  select-insert_stable x [] = refl
  select-insert_stable x (y ∷ ys) = ground (arith, alike y x, select-insert_stable x ys)

  -- Elements of which none is less than another keep their order.
  pub select-sort_stable : (xs : List A) → select p (sort_stable less xs) ≡ select p xs
  unfolding sort_stable
  select-sort_stable [] = refl
  select-sort_stable (x ∷ xs) =
      grind (arith, select-insert_stable x (sort_stable less xs), select-sort_stable xs)
