-- ===== src/Api/Links/Erasure.antt =====
-- internal/api/handler/link.go: the statements of `DeleteLink`, on the indexes and on the rest.
use link_raft.Prelude.{
  tt, ◌≡◌, refl, ap, subst, sort_strs, ◌∙◌, Str, str_eq, str_eq_iff, starts_with, false, not, none,
  some, List, [], ◌∷◌, select, All, arith, if◌then◌else◌, map, Bool-cases, inl, inr, ◌⊎◌,
}
use link_raft.Prelude.Dict.{Dict, lookup, insert, erase, keys, lookup-insert, lookup-erase}
use link_raft.Prelude.Int.{ℤ}
use link_raft.Kvs.Store.{with_prefix}
use link_raft.Kvs.Client.{contains}
use link_raft.Api.Act.{each}
use link_raft.Api.Kv.{plain}
use link_raft.Api.Kv.Prefixes.{lookup-listed}
use link_raft.Api.Keys.{link_key, comment_key, vote_prefix, index_tag, index_link_comments}
use link_raft.Api.Keys.Apart.{IsIndex, tagged}
use link_raft.Api.Repo.{Json, id_eq, remove_index}
use link_raft.Api.Yields.{
  Yields, Yields-pure, Yields-bind, Yields-delete, Yields-keys, Yields-delete_last, Yields-weaken,
}
use link_raft.Api.Yields.Records.{
  IsRoundTrip, ids_at, ids_at-lookup, ids_at-written, Yields-index, Yields-remove_index,
}
use link_raft.Api.Links.{erase_link}

map_id : (ks : List Str) → map (λ k. k) ks ≡ ks
map_id [] = refl
map_id (k ∷ ks) = ap (λ r. k ∷ r) (map_id ks)

-- Deleting the keys `f x` one after the other.
Yields-each_delete :
    {X : Type 0} (f : X → Str) (xs : List X) (d : Dict Str)
    → Yields
        (each (λ x. plain.delete (f x)) xs)
        d
        (λ u e. (j : Str) → lookup j e ≡ (if contains j (map f xs) then none else lookup j d))
unfolding contains
Yields-each_delete f [] d = Yields-pure (λ j. refl)
Yields-each_delete f (x ∷ xs) d = Yields-delete _ (f x) (
    Yields-weaken (Yields-each_delete f xs (erase (f x) d)) (λ u e h j. grind (
      arith,
      h j,
      lookup-erase (f x) j d,
      Bool-cases (str_eq (f x) j),
      Bool-cases (contains j (map f xs)),
    )))

-- The list without one id.
abbrev pub without : ℤ → List ℤ → List ℤ
without id = select (λ v. not (id_eq v id))

without-without : (id : ℤ) (vs : List ℤ) → without id (without id vs) ≡ without id vs
without-without id [] = refl
without-without id (v ∷ vs) = ground (arith, without-without id vs)

module _ (ids : Json (List ℤ)) (id : ℤ) where
  -- From the content `d` to `e`, the list under `k` has lost `id` and nothing else.
  pub record IsOff (d : Dict Str) (k : Str) (e : Dict Str) : Type 0 where
    pub left : ids_at ids k e ≡ without id (ids_at ids k d)

  -- Only lists of the indexes are written, and they lose `id` at most.
  pub record OnlyOff (d e : Dict Str) : Type 0 where
    pub keeps : (k : Str) → (ids_at ids k e ≡ ids_at ids k d) ⊎ IsOff d k e
    pub frame : (j : Str) → ((k : Str) → IsIndex k → str_eq k j ≡ false) → lookup j e ≡ lookup j d

  pub IsOff-lookup :
      {k : Str} {c d e : Dict Str} → lookup k e ≡ lookup k d → IsOff c k d → IsOff c k e
  IsOff-lookup {k} {c} {d} {e} same h = record { left = ids_at-lookup ids k d e same ∙ h.left }

  kept-IsOff :
      {k : Str} {c d e : Dict Str}
      → (ids_at ids k e ≡ ids_at ids k d) ⊎ IsOff d k e
      → IsOff c k d
      → IsOff c k e
  kept-IsOff (inl same) h = record { left = same ∙ h.left }
  kept-IsOff (inr off) h = record {
    left = off.left ∙ ap (without id) h.left ∙ without-without id _;
  }

  -- What is taken off afterwards, and what has been before, is off.
  pub IsOff-after : {k : Str} {c d e : Dict Str} → OnlyOff d e → IsOff c k d → IsOff c k e
  IsOff-after {k} only h = kept-IsOff (only.keeps k) h

  IsOff-before_cases :
      {k : Str} {c d e : Dict Str}
      → (ids_at ids k d ≡ ids_at ids k c) ⊎ IsOff c k d
      → IsOff d k e
      → IsOff c k e
  IsOff-before_cases (inl same) h = record { left = h.left ∙ ap (without id) same }
  IsOff-before_cases (inr off) h = record {
    left = h.left ∙ ap (without id) off.left ∙ without-without id _;
  }

  pub IsOff-before : {k : Str} {c d e : Dict Str} → OnlyOff c d → IsOff d k e → IsOff c k e
  IsOff-before {k} only h = IsOff-before_cases (only.keeps k) h

  kept_trans :
      {k : Str} {c d e : Dict Str}
      → (ids_at ids k d ≡ ids_at ids k c) ⊎ IsOff c k d
      → (ids_at ids k e ≡ ids_at ids k d) ⊎ IsOff d k e
      → (ids_at ids k e ≡ ids_at ids k c) ⊎ IsOff c k e
  kept_trans (inl p) (inl q) = inl (q ∙ p)
  kept_trans p (inr q) = inr (IsOff-before_cases p q)
  kept_trans (inr p) q = inr (kept-IsOff q p)

  pub OnlyOff-trans : {d e f : Dict Str} → OnlyOff d e → OnlyOff e f → OnlyOff d f
  OnlyOff-trans h g = record {
    keeps = λ k. kept_trans (h.keeps k) (g.keeps k);
    frame = λ j a. g.frame j a ∙ h.frame j a;
  }

  pub All-IsOff :
      (ts : List Str) (c d e : Dict Str)
      → OnlyOff c d
      → All (λ t. IsOff d (index_tag t) e) ts
      → All (λ t. IsOff c (index_tag t) e) ts
  All-IsOff [] c d e only h = tt
  All-IsOff (t ∷ ts) c d e only (h, hs) = (IsOff-before only h, All-IsOff ts c d e only hs)

  module _ (law : IsRoundTrip ids) where
    IsOff-insert :
        (k b : Str) (d : Dict Str)
        → ids.marshal (without id (ids_at ids k d)) ≡ some b
        → IsOff d k (insert k b d)
    IsOff-insert k b d w = record { left = ids_at-written ids law k b _ d w }

    OnlyOff-insert :
        (k b : Str) (d : Dict Str)
        → ids.marshal (without id (ids_at ids k d)) ≡ some b
        → IsIndex k
        → OnlyOff d (insert k b d)
    OnlyOff-insert k b d w i = record {
      keeps = λ j. elim (Bool-cases (str_eq k j)) [
        | inl same ↦
            inr (
              subst (λ x. IsOff d x (insert k b d)) ((str_eq_iff k j).0 same)
                (IsOff-insert k b d w))
        | inr apart ↦
            inl (ids_at-lookup ids j d (insert k b d) (rw (lookup-insert k j b d, apart) refl))
      ];
      frame = λ j h. rw (lookup-insert k j b d, h k i) refl;
    }

    pub Yields-IsOff :
        (k : Str) (d : Dict Str)
        → IsIndex k
        → Yields (remove_index plain ids k id) d (λ u e. IsOff d k e × OnlyOff d e)
    Yields-IsOff k d i =
        Yields-remove_index ids k id λ b w. (IsOff-insert k b d w, OnlyOff-insert k b d w i)

    pub Yields-each-IsOff :
        (tags : List Str) (d : Dict Str)
        → Yields
            (each (λ t. remove_index plain ids (index_tag t) id) tags)
            d
            (λ u e. All (λ t. IsOff d (index_tag t) e) tags × OnlyOff d e)
    Yields-each-IsOff [] d = Yields-pure (tt, record { keeps = λ k. inl refl; frame = λ j a. refl })
    Yields-each-IsOff (t ∷ tags) d =
        Yields-bind (Yields-IsOff (index_tag t) d (tagged t)) λ u d' (off, only).
          Yields-weaken (Yields-each-IsOff tags d') λ v e (offs, more).
            ((IsOff-after more off, All-IsOff tags d d' e only offs), OnlyOff-trans only more)

  -- The content `e` is `d` without the link, its votes, its comments and their list.
  pub record IsErased (d e : Dict Str) : Type 0 where
    pub looked :
        (j : Str)
        → lookup j e ≡ (
            if str_eq (link_key id) j
            then none
            else if starts_with j (vote_prefix id)
            then none
            else if str_eq (index_link_comments id) j
            then none
            else if contains j (map comment_key (ids_at ids (index_link_comments id) d))
            then none
            else lookup j d)

  pub Yields-erase_link : (d : Dict Str) → Yields (erase_link plain ids id) d (λ u e. IsErased d e)
  unfolding erase_link
  Yields-erase_link d =
      let cids = ids_at ids (index_link_comments id) d in
      Yields-index ids _ (index_link_comments id) (
        Yields-bind (Yields-each_delete comment_key cids d) λ u c h.
          Yields-delete _ (index_link_comments id) (
            let f = erase (index_link_comments id) c in
            Yields-keys _ (vote_prefix id) (
              Yields-bind (Yields-each_delete (λ k. k) _ f) λ v g k.
                Yields-delete_last (link_key id) (record {
                  looked = λ j. grind (
                    arith,
                    lookup-erase (link_key id) j g,
                    k j,
                    lookup-listed j (vote_prefix id) f,
                    map_id (sort_strs (with_prefix (vote_prefix id) (keys f))),
                    lookup-erase (index_link_comments id) j c,
                    h j,
                  );
                }))))
