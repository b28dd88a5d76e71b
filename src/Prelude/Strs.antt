-- ===== src/Prelude/Strs.antt =====
-- Go's strings and byte slices as lists of bytes: equality, prefixes and byte order.
use Prim.Native.Nat.{ℕ}
use Prim.Native.Char.{code}
use Prim.Native.String.{String}
use mathlib.Core.Path.{◌≡◌, refl}
use mathlib.Core.Logic.{◌↔◌}
use mathlib.Core.Bool.{Bool, true, false, ◌&&◌, ◌||◌}
use mathlib.Core.List.{List, [], ◌∷◌}
use native.Mathlib.Omega.{arith}
use link_raft.Prelude.Tests.{◌==◌, ltb}

abbrev pub Str : Type 0
Str = List ℕ

-- A literal of the source, which is ASCII.
abbrev pub codes : String → Str
codes String.[] = []
codes (String.◌∷◌ c s) = code c ∷ codes s

-- s == ""
abbrev pub is_empty : Str → Bool
is_empty [] = true
is_empty (_ ∷ _) = false

unfoldable pub str_eq : Str → Str → Bool
str_eq [] [] = true
str_eq (a ∷ s) (b ∷ t) = a == b && str_eq s t
str_eq _ _ = false

str_eq→ : (s t : Str) → str_eq s t ≡ true → s ≡ t
unfolding str_eq
str_eq→ [] [] h = refl
str_eq→ [] (b ∷ t) h = cc
str_eq→ (a ∷ s) [] h = cc
str_eq→ (a ∷ s) (b ∷ t) h = ground (arith, str_eq→ s t)

pub str_eq_refl : (s : Str) → str_eq s s ≡ true
unfolding str_eq
str_eq_refl [] = refl
str_eq_refl (a ∷ s) = ground (arith, str_eq_refl s)

pub str_eq_iff : (s t : Str) → (str_eq s t ≡ true) ↔ (s ≡ t)
str_eq_iff s t = (str_eq→ s t, λ e. rw e (str_eq_refl t))

-- strings.HasPrefix(s, prefix)
unfoldable pub starts_with : Str → Str → Bool
starts_with s [] = true
starts_with (a ∷ s) (b ∷ p) = a == b && starts_with s p
starts_with [] (b ∷ p) = false

-- s <= t in the order of sort.Strings
unfoldable pub str_leb : Str → Str → Bool
str_leb [] t = true
str_leb (a ∷ s) [] = false
str_leb (a ∷ s) (b ∷ t) = ltb a b || (a == b && str_leb s t)
