-- ===== src/Api/Links/First.antt =====
-- internal/api/handler/link.go: an id that is put first on the lists of the indexes.
use link_raft.Prelude.{
  tt, ◌≡◌, refl, sym, ap, ◌∙◌, Str, str_eq, str_eq_refl, str_eq_iff, true, false, List, [], ◌∷◌,
  All, arith, Bool-cases, inl, inr,
}
use link_raft.Prelude.Dict.{Dict, lookup, lookup-insert}
use link_raft.Prelude.Int.{ℤ}
use link_raft.Kvs.Client.{contains}
use link_raft.Api.Act.{each}
use link_raft.Api.Kv.{plain}
use link_raft.Api.Keys.{index_tag}
use link_raft.Api.Keys.Apart.{tag-tag, swapped}
use link_raft.Api.Repo.{Json, prepend_index}
use link_raft.Api.Yields.{Yields, Yields-pure, Yields-bind, Yields-weaken}
use link_raft.Api.Yields.Records.{
  IsRoundTrip, ids_at, ids_at-lookup, ids_at-written, Yields-prepend_index,
}

-- Each text stands in the list once.
abbrev pub Once : List Str → Type 0
Once [] = Unit
Once (t ∷ ts) = (contains t ts ≡ false) × Once ts

contains-apart :
    (t u : Str) (ts : List Str)
    → contains t ts ≡ false
    → contains u ts ≡ true
    → str_eq (index_tag u) (index_tag t) ≡ false
contains-apart t u ts h g = elim (Bool-cases (str_eq u t)) [
  | inl e ↦ absurd (both (sym h ∙ ap (λ x. contains x ts) (sym ((str_eq_iff u t).0 e)) ∙ g))
  | inr e ↦ tag-tag u t ∙ e
]
  where
    both : false ≡ true → ⊥
    both e = cc

contains-tail : (u t : Str) (ts : List Str) → contains u ts ≡ true → contains u (t ∷ ts) ≡ true
unfolding contains
contains-tail u t ts h = ground arith

contains-head : (t : Str) (ts : List Str) → contains t (t ∷ ts) ≡ true
unfolding contains
contains-head t ts = ground (arith, str_eq_refl t)

module _ (ids : Json (List ℤ)) (id : ℤ) where
  -- From the content `d` to `e`, the list under `k` has got `id` in front.
  pub record IsFirst (d : Dict Str) (k : Str) (e : Dict Str) : Type 0 where
    pub first : ids_at ids k e ≡ id ∷ ids_at ids k d

  -- Only the lists of these tags are written.
  abbrev pub OnlyTags : List Str → Dict Str → Dict Str → Type 0
  OnlyTags tags d e =
      (j : Str)
      → ((t : Str) → contains t tags ≡ true → str_eq (index_tag t) j ≡ false)
      → lookup j e ≡ lookup j d

  pub IsFirst-lookup :
      (k : Str) (d c e f : Dict Str)
      → lookup k d ≡ lookup k c
      → lookup k f ≡ lookup k e
      → IsFirst d k e
      → IsFirst c k f
  IsFirst-lookup k d c e f p q h = record {
    first = ids_at-lookup ids k e f q ∙ h.first ∙ ap (λ r. id ∷ r) (ids_at-lookup ids k c d p);
  }

  pub All-IsFirst :
      (ts : List Str) (d c e : Dict Str)
      → ((t : Str) → contains t ts ≡ true → lookup (index_tag t) d ≡ lookup (index_tag t) c)
      → All (λ t. IsFirst d (index_tag t) e) ts
      → All (λ t. IsFirst c (index_tag t) e) ts
  All-IsFirst [] d c e same h = tt
  All-IsFirst (t ∷ ts) d c e same (h, hs) = (
    IsFirst-lookup (index_tag t) d c e e (same t (contains-head t ts)) refl h,
    All-IsFirst ts d c e (λ u g. same u (contains-tail u t ts g)) hs,
  )

  module _ (law : IsRoundTrip ids) where
    pub Yields-IsFirst :
        (k : Str) (d : Dict Str)
        → Yields
            (prepend_index plain ids k id)
            d
            (λ u e. IsFirst d k e × ((j : Str) → str_eq k j ≡ false → lookup j e ≡ lookup j d))
    Yields-IsFirst k d = Yields-prepend_index ids k id λ b w. (
      record { first = ids_at-written ids law k b (id ∷ ids_at ids k d) d w },
      λ j apart. rw (lookup-insert k j b d, apart) refl,
    )

    pub Yields-each-IsFirst :
        (tags : List Str) (d : Dict Str)
        → Once tags
        → Yields
            (each (λ t. prepend_index plain ids (index_tag t) id) tags)
            d
            (λ u e. All (λ t. IsFirst d (index_tag t) e) tags × OnlyTags tags d e)
    Yields-each-IsFirst [] d once = Yields-pure (tt, λ j a. refl)
    Yields-each-IsFirst (t ∷ tags) d (new, once) =
        Yields-bind (Yields-IsFirst (index_tag t) d) λ u c (first, frame).
          Yields-weaken (Yields-each-IsFirst tags c once) λ v e (firsts, only). (
            (
              IsFirst-lookup (index_tag t) d d c e refl
                  (only (index_tag t) (λ x g. contains-apart t x tags new g)) first,
              All-IsFirst tags c d e
                  (λ x g.
                    frame (index_tag x)
                      (swapped (index_tag x) (index_tag t) (contains-apart t x tags new g)))
                  firsts,
            ),
            λ j a.
                only j (λ x g. a x (contains-tail x t tags g))
                ∙ frame j (a t (contains-head t tags)),
          )
