-- ===== src/Api/Yields/Records.antt =====
-- internal/api/handler/repo.go: the rules for records and for lists of ids.
use link_raft.Prelude.{
  tt, arith, ap, true, Option-cases, inl, inr, ◌∙◌, ◌≡◌, refl, sym, Str, str_eq_refl, not, Option,
  none, some, List, [], ◌∷◌, ◌++◌, select,
}
use link_raft.Prelude.Dict.{Dict, lookup, insert, lookup-insert}
use link_raft.Prelude.Int.{ℤ}
use link_raft.Api.Act.{Act, internal, ◌>>=◌}
use link_raft.Api.Kv.{plain}
use link_raft.Api.Kv.Prefixes.{is_some}
use link_raft.Api.Repo.{
  Json, id_eq, ids_or_empty, decoded, get_json, set_json, index, prepend_index, append_index,
  remove_index,
}
use link_raft.Api.Yields.{
  Yields, Yields-pure, Yields-bind, Yields-require, Yields-get, Yields-set_last,
}

module _ {A : Type 0} (json : Json A) where
  unfoldable pub read_as : Option Str → Option A
  read_as none = none
  read_as (some b) = json.unmarshal b

  -- The record under a key, if there is one that can be read.
  unfoldable pub stored : Str → Dict Str → Option A
  unfolding read_as
  stored k d = read_as (lookup k d)

  Yields-decoded :
      (o : Option Str) {d : Dict Str}
      → Yields (decoded plain json o) d (λ r e. (d ≡ e) × (r ≡ read_as o))
  unfolding read_as
  Yields-decoded none = Yields-pure (refl, refl)
  Yields-decoded (some b) =
      Yields-require internal (json.unmarshal b) λ a e. Yields-pure (refl, sym e)

  Yields-get_json_self :
      (k : Str) {d : Dict Str}
      → Yields (get_json plain json k) d (λ r e. (d ≡ e) × (r ≡ stored k d))
  unfolding get_json stored
  Yields-get_json_self k {d} = Yields-get _ k (Yields-decoded (lookup k d))

  Yields-set_json_self :
      (k : Str) (a : A) {d : Dict Str}
      → Yields
          (set_json plain json k a)
          d
          (λ r e. (b : Str) × (json.marshal a ≡ some b) × (e ≡ insert k b d))
  unfolding set_json
  Yields-set_json_self k a {d} =
      Yields-require internal (json.marshal a) λ b e. Yields-set_last k b (b, e, refl)

  module _ {B : Type 0} {d : Dict Str} {R : B → Dict Str → Type 0} where
    pub Yields-get_json :
        (f : Option A → Act (Dict Str) B) (k : Str)
        → Yields (f (stored k d)) d R
        → Yields (get_json plain json k >>= f) d R
    Yields-get_json f k y = Yields-bind (Yields-get_json_self k) λ o e (p, q). rw (sym p, q) y

    pub Yields-set_json :
        (f : Unit {0} → Act (Dict Str) B) (k : Str) (a : A)
        → ((b : Str) → json.marshal a ≡ some b → Yields (f tt) (insert k b d) R)
        → Yields (set_json plain json k a >>= f) d R
    Yields-set_json f k a y = Yields-bind (Yields-set_json_self k a) λ u e (b, p, q). rw q (y b p)

  -- A record that is written, as the last statement.
  pub Yields-set_json_last :
      (k : Str) (a : A) {d : Dict Str} {Q : Unit {0} → Dict Str → Type 0}
      → ((b : Str) → json.marshal a ≡ some b → Q tt (insert k b d))
      → Yields (set_json plain json k a) d Q
  unfolding set_json
  Yields-set_json_last k a q =
      Yields-require internal (json.marshal a) λ b e. Yields-set_last k b (q b e)

-- What is written is read back, as encoding/json does for lists of integers.
pub record IsRoundTrip {A : Type 0} (json : Json A) : Type 0 where
  pub reads : (a : A) (b : Str) → json.marshal a ≡ some b → json.unmarshal b ≡ some a

module _ (json : Json (List ℤ)) where
  -- The ids under a key; none, if there is no list.
  unfoldable pub ids_at : Str → Dict Str → List ℤ
  ids_at k d = ids_or_empty (stored json k d)

  Yields-index_self :
      (k : Str) {d : Dict Str} → Yields (index plain json k) d (λ r e. (d ≡ e) × (r ≡ ids_at k d))
  unfolding index ids_at
  Yields-index_self k = Yields-get_json json _ k (Yields-pure (refl, refl))

  module _ {d : Dict Str} {Q : Unit {0} → Dict Str → Type 0} where
    Yields-rewritten :
        (f : List ℤ → List ℤ) (k : Str)
        → ((b : Str) → json.marshal (f (ids_at k d)) ≡ some b → Q tt (insert k b d))
        → Yields (index plain json k >>= λ is. set_json plain json k (f is)) d Q
    Yields-rewritten f k q =
        Yields-bind (Yields-index_self k)
          λ is e (p, r). rw (sym p, r) (Yields-set_json_last json k _ q)

    pub Yields-remove_index :
        (k : Str) (id : ℤ)
        → ((b : Str)
            → json.marshal (select (λ v. not (id_eq v id)) (ids_at k d)) ≡ some b
            → Q tt (insert k b d))
        → Yields (remove_index plain json k id) d Q
    unfolding remove_index
    Yields-remove_index k id = Yields-rewritten (λ is. select (λ v. not (id_eq v id)) is) k

    pub Yields-prepend_index :
        (k : Str) (id : ℤ)
        → ((b : Str) → json.marshal (id ∷ ids_at k d) ≡ some b → Q tt (insert k b d))
        → Yields (prepend_index plain json k id) d Q
    unfolding prepend_index
    Yields-prepend_index k id = Yields-rewritten (λ is. id ∷ is) k

    pub Yields-append_index :
        (k : Str) (id : ℤ)
        → ((b : Str) → json.marshal (ids_at k d ++ id ∷ []) ≡ some b → Q tt (insert k b d))
        → Yields (append_index plain json k id) d Q
    unfolding append_index
    Yields-append_index k id = Yields-rewritten (λ is. is ++ id ∷ []) k

  pub Yields-index :
      {B : Type 0} {d : Dict Str} {R : B → Dict Str → Type 0} (f : List ℤ → Act (Dict Str) B)
      (k : Str)
      → Yields (f (ids_at k d)) d R
      → Yields (index plain json k >>= f) d R
  Yields-index f k y = Yields-bind (Yields-index_self k) λ is e (p, q). rw (sym p, q) y

module _ {A : Type 0} (json : Json A) where
  read_as-some : (o : Option Str) {a : A} → read_as json o ≡ some a → is_some o ≡ true
  unfolding read_as
  read_as-some none e = cc
  read_as-some (some b) e = refl

  pub stored-some :
      (k : Str) (d : Dict Str) {a : A} → stored json k d ≡ some a → is_some (lookup k d) ≡ true
  unfolding stored
  stored-some k d e = read_as-some (lookup k d) e

  pub stored-lookup :
      (k j : Str) (d e : Dict Str) → lookup k d ≡ lookup j e → stored json k d ≡ stored json j e
  unfolding stored
  stored-lookup k j d e h = ap (read_as json) h

  pub stored-read :
      (k b : Str) (d : Dict Str) → lookup k d ≡ some b → stored json k d ≡ json.unmarshal b
  unfolding stored read_as
  stored-read k b d h = rw h refl

  pub stored-bytes :
      (k : Str) (d : Dict Str) {a : A}
      → stored json k d ≡ some a
      → (b : Str) × (lookup k d ≡ some b) × (json.unmarshal b ≡ some a)
  stored-bytes k d h = elim (Option-cases (lookup k d)) [
    | inl e ↦ absurd (grind (arith, stored-some k d h))
    | inr (b, e) ↦ (b, e, sym (stored-read k b d e) ∙ h)
  ]

pub ids_at-lookup :
    (ids : Json (List ℤ)) (k : Str) (d c : Dict Str)
    → lookup k c ≡ lookup k d
    → ids_at ids k c ≡ ids_at ids k d
unfolding ids_at
ids_at-lookup ids k d c h = ap ids_or_empty (stored-lookup ids k k c d h)

-- A list that was written is the one under the key.
pub ids_at-written :
    (ids : Json (List ℤ))
    → IsRoundTrip ids
    → (k b : Str) (vs : List ℤ) (d : Dict Str) → ids.marshal vs ≡ some b
    → ids_at ids k (insert k b d) ≡ vs
unfolding ids_at
ids_at-written ids law k b vs d w =
    let there : lookup k (insert k b d) ≡ some b = rw (lookup-insert k k b d, str_eq_refl k) refl in
    rw (stored-read ids k b (insert k b d) there, law.reads vs b w) refl
