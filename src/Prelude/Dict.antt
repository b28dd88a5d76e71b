-- ===== src/Prelude/Dict.antt =====
-- Go's `map` as an association list with at most one entry for a key. Where the program ranges
-- over a map, the model takes the entries in the order of the list.
use mathlib.Core.Path.{◌≡◌, refl}
use mathlib.Core.Option.{Option, none, some}
use mathlib.Core.List.{List, [], ◌∷◌}
use native.Mathlib.Omega.{arith}
use link_raft.Prelude.Tests.{if◌then◌else◌}
use link_raft.Prelude.Strs.{Str, str_eq, str_eq_iff}

abbrev pub Dict {ℓ} : Type ℓ → Type ℓ
Dict V = List (Str × V)

module _ {ℓ} {V : Type ℓ} where
  -- v, ok := m[k]
  unfoldable pub lookup : Str → Dict V → Option V
  lookup k [] = none
  lookup k ((j, v) ∷ m) = if str_eq j k then some v else lookup k m

  -- m[k] = v
  unfoldable pub insert : Str → V → Dict V → Dict V
  insert k v [] = (k, v) ∷ []
  insert k v ((j, w) ∷ m) = if str_eq j k then (k, v) ∷ m else (j, w) ∷ insert k v m

  -- delete(m, k)
  unfoldable pub erase : Str → Dict V → Dict V
  erase k [] = []
  erase k ((j, v) ∷ m) = let rest = erase k m in if str_eq j k then rest else (j, v) ∷ rest

  abbrev pub keys : Dict V → List Str
  keys [] = []
  keys ((j, v) ∷ m) = j ∷ keys m

  -- No key has two entries.
  abbrev pub Distinct : Dict V → Type ℓ
  Distinct [] = Unit
  Distinct ((j, v) ∷ m) = (lookup j m ≡ none) × Distinct m

module _ {ℓ} {V : Type ℓ} where
  pub lookup-insert :
      (k j : Str) (v : V) (m : Dict V)
      → lookup j (insert k v m) ≡ (if str_eq k j then some v else lookup j m)
  unfolding lookup insert
  lookup-insert k j v [] = refl
  lookup-insert k j v ((i, w) ∷ m) =
      ground (arith, str_eq_iff k j, str_eq_iff i k, str_eq_iff i j, lookup-insert k j v m)

  pub lookup-erase :
      (k j : Str) (m : Dict V) → lookup j (erase k m) ≡ (if str_eq k j then none else lookup j m)
  unfolding lookup erase
  lookup-erase k j [] = ground arith
  lookup-erase k j ((i, w) ∷ m) =
      ground (arith, str_eq_iff k j, str_eq_iff i k, str_eq_iff i j, lookup-erase k j m)

  pub insert-Distinct : (k : Str) (v : V) (m : Dict V) → Distinct m → Distinct (insert k v m)
  unfolding lookup insert
  insert-Distinct k v [] h = (refl, tt)
  insert-Distinct k v ((i, w) ∷ m) h =
      ground (arith, str_eq_iff i k, str_eq_iff k i, lookup-insert k i v m, insert-Distinct k v m)

  pub erase-Distinct : (k : Str) (m : Dict V) → Distinct m → Distinct (erase k m)
  unfolding lookup erase
  erase-Distinct k [] h = tt
  erase-Distinct k ((i, w) ∷ m) h =
      ground (arith, str_eq_iff k i, lookup-erase k i m, erase-Distinct k m)

pub ruleset dict_laws = (lookup-insert, lookup-erase)
