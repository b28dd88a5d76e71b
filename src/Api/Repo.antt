-- ===== src/Api/Repo.antt =====
-- internal/api/handler/repo.go: records as JSON and lists of ids over the key-value store.
use link_raft.Prelude.{
  ◌≡◌, ◌↔◌, arith, true, Str, Bool, false, not, ◌==◌, Option, none, some, List, [], ◌∷◌, ◌++◌,
  select,
}
use link_raft.Prelude.Int.{ℤ}
use link_raft.Api.Act.{Act, internal, pure, require, ◌>>=◌}
use link_raft.Api.Kv.{Kv}

-- Package encoding/json at one type: `Marshal`, and `Unmarshal` into a zero value.
pub record Json (A : Type 0) : Type 0 where
  pub marshal : A → Option Str
  pub unmarshal : Str → Option A

-- v == w on int64
abbrev pub id_eq : ℤ → ℤ → Bool
id_eq (ℤ.pos m) (ℤ.pos n) = m == n
id_eq (ℤ.negsuc m) (ℤ.negsuc n) = m == n
id_eq _ _ = false

pub id_eq_iff : (a b : ℤ) → (id_eq a b ≡ true) ↔ (a ≡ b)
id_eq_iff (ℤ.pos m) (ℤ.pos n) = ground arith
id_eq_iff (ℤ.pos m) (ℤ.negsuc n) = ground arith
id_eq_iff (ℤ.negsuc m) (ℤ.pos n) = ground arith
id_eq_iff (ℤ.negsuc m) (ℤ.negsuc n) = ground arith

abbrev pub ids_or_empty : Option (List ℤ) → List ℤ
ids_or_empty none = []
ids_or_empty (some ids) = ids

module _ {S : Type 0} (kv : Kv S) where
  abbrev pub decoded : {A : Type 0} → Json A → Option Str → Act S (Option A)
  decoded json none = pure none
  decoded json (some b) = require internal (json.unmarshal b) >>= λ a. pure (some a)

  -- `GetJSON`
  unfoldable pub get_json : {A : Type 0} → Json A → Str → Act S (Option A)
  get_json json key = do b ← kv.get key; decoded json b

  -- `SetJSON`
  unfoldable pub set_json : {A : Type 0} → Json A → Str → A → Act S (Unit {0})
  set_json json key a = do b ← require internal (json.marshal a); kv.set key b

  module _ (json : Json (List ℤ)) where
    -- `Index`
    unfoldable pub index : Str → Act S (List ℤ)
    index key = do o ← get_json json key; pure (ids_or_empty o)

    -- `PrependIndex`
    unfoldable pub prepend_index : Str → ℤ → Act S (Unit {0})
    prepend_index key id = do ids ← index key; set_json json key (id ∷ ids)

    -- `AppendIndex`
    unfoldable pub append_index : Str → ℤ → Act S (Unit {0})
    append_index key id = do ids ← index key; set_json json key (ids ++ id ∷ [])

    -- `RemoveIndex`
    unfoldable pub remove_index : Str → ℤ → Act S (Unit {0})
    remove_index key id = do ids ← index key; set_json json key (select (λ v. not (id_eq v id)) ids)
