-- ===== src/Api/Links/Deleted.antt =====
-- internal/api/handler/link.go: what `DeleteLink` leaves behind.
use link_raft.Prelude.{
  tt, ◌≡◌, refl, ◌∙◌, Str, str_eq, str_eq_refl, starts_with, true, false, not, Option, none, some,
  List, [], ◌∷◌, All, arith, map, Bool-cases, inl, inr, ◌⊎◌,
}
use link_raft.Prelude.Dict.{Dict, lookup}
use link_raft.Prelude.Int.{ℤ, IsInt64}
use link_raft.Prelude.Results.{ok}
use link_raft.Kvs.Client.{contains}
use link_raft.Api.Models.{Link}
use link_raft.Api.Kv.{Kv, plain}
use link_raft.Api.Kv.Simulation.{Simulates}
use link_raft.Api.Keys.{
  index_recent, link_key, comment_key, vote_key, vote_prefix, index_tag, index_user_links,
  index_link_comments,
}
use link_raft.Api.Keys.Apart.{
  IsIndex, recent, user_links, tagged, swapped, link_comments-apart, comment_key-apart,
  link_key-apart, vote_prefix-apart, vote_key-apart, link_key-vote_key, starts_with-vote_prefix,
}
use link_raft.Api.Repo.{Json, id_eq}
use link_raft.Api.Auth.{Context, user_id}
use link_raft.Api.Simulated.{Sim-delete_link}
use link_raft.Api.Yields.{
  Yields, Yields-Sim, Yields-bind, Yields-require, Yields-reject, Yields-path_id, Yields-weaken,
}
use link_raft.Api.Yields.Records.{IsRoundTrip, stored, ids_at, ids_at-lookup, Yields-get_json}
use link_raft.Api.Links.{delete_traces, delete_link}
use link_raft.Api.Links.Erasure.{
  IsOff, OnlyOff, IsErased, IsOff-lookup, IsOff-after, IsOff-before, All-IsOff, OnlyOff-trans,
  Yields-IsOff, Yields-each-IsOff, Yields-erase_link,
}

-- From the content `d` to `e`, the caller's link has been deleted with all that belongs to it.
pub record IsDeleted (links : Json Link) (ids : Json (List ℤ)) (d : Dict Str) (id caller : ℤ)
    (e : Dict Str) : Type 0 where
  pub link : Link
  pub held : stored links (link_key id) d ≡ some link
  pub owned : id_eq link.user_id caller ≡ true
  pub gone : lookup (link_key id) e ≡ none
  pub votes : (k : Str) → starts_with k (vote_prefix id) ≡ true → lookup k e ≡ none
  pub comments :
      (k : Str)
      → contains k (map comment_key (ids_at ids (index_link_comments id) d)) ≡ true
      → lookup k e ≡ none
  pub list : lookup (index_link_comments id) e ≡ none
  pub off_recent : IsOff ids id d index_recent e
  pub off_user : IsOff ids id d (index_user_links link.user_id) e
  pub off_tags : All (λ t. IsOff ids id d (index_tag t) e) link.tags
  pub indexes : (k : Str) → IsIndex k → (ids_at ids k e ≡ ids_at ids k d) ⊎ IsOff ids id d k e
  pub others :
      (k : Str)
      → ((i : Str) → IsIndex i → str_eq i k ≡ false)
      → str_eq (link_key id) k ≡ false
      → starts_with k (vote_prefix id) ≡ false
      → str_eq (index_link_comments id) k ≡ false
      → contains k (map comment_key (ids_at ids (index_link_comments id) d)) ≡ false
      → lookup k e ≡ lookup k d
  pub other_links :
      (j : ℤ)
      → str_eq (link_key id) (link_key j) ≡ false
      → lookup (link_key j) e ≡ lookup (link_key j) d
  pub other_votes :
      (j u : ℤ)
      → IsInt64 id
      → IsInt64 j
      → (j ≡ id → ⊥)
      → lookup (vote_key j u) e ≡ lookup (vote_key j u) d

module _ (links : Json Link) (ids : Json (List ℤ)) where
  contains-comment_key :
      (k : Str) (cids : List ℤ)
      → ((c : ℤ) → str_eq (comment_key c) k ≡ false)
      → contains k (map comment_key cids) ≡ false
  unfolding contains
  contains-comment_key k [] h = refl
  contains-comment_key k (c ∷ cids) h = rw (h c) (contains-comment_key k cids h)

  IsErased-index :
      (id : ℤ) (k : Str) (d e : Dict Str)
      → IsErased ids id d e
      → IsIndex k
      → lookup k e ≡ lookup k d
  IsErased-index id k d e h i = grind (
    arith,
    h.looked k,
    link_key-apart k id i,
    vote_prefix-apart k id i,
    link_comments-apart k id i,
    contains-comment_key k (ids_at ids (index_link_comments id) d) (λ c. comment_key-apart k c i),
  )

  -- What is neither on an index nor part of the link.
  untouched :
      (id : ℤ) (k : Str) (d c e : Dict Str)
      → OnlyOff ids id d c
      → IsErased ids id c e
      → ids_at ids (index_link_comments id) c ≡ ids_at ids (index_link_comments id) d
      → ((i : Str) → IsIndex i → str_eq i k ≡ false)
      → str_eq (link_key id) k ≡ false
      → starts_with k (vote_prefix id) ≡ false
      → str_eq (index_link_comments id) k ≡ false
      → contains k (map comment_key (ids_at ids (index_link_comments id) d)) ≡ false
      → lookup k e ≡ lookup k d
  untouched id k d c e only h same off p q r t =
      h.looked k ∙ rw (p, q, r, same, t) (only.frame k off)

  vote_key-prefix :
      (id j u : ℤ)
      → IsInt64 id
      → IsInt64 j
      → (j ≡ id → ⊥)
      → starts_with (vote_key j u) (vote_prefix id) ≡ false
  vote_key-prefix id j u small small' other =
      elim (Bool-cases (starts_with (vote_key j u) (vote_prefix id))) [
        | inl e ↦ absurd (other (starts_with-vote_prefix j id u small' small e))
        | inr e ↦ e
      ]

  link_key-prefix : (id j : ℤ) → starts_with (link_key j) (vote_prefix id) ≡ false
  unfolding starts_with vote_prefix link_key
  link_key-prefix id j = refl

  link_key-list : (id j : ℤ) → str_eq (index_link_comments id) (link_key j) ≡ false
  unfolding index_link_comments link_key str_eq
  link_key-list id j = refl

  link_key-comment : (c j : ℤ) → str_eq (comment_key c) (link_key j) ≡ false
  unfolding comment_key link_key str_eq
  link_key-comment c j = refl

  vote_key-list : (id j u : ℤ) → str_eq (index_link_comments id) (vote_key j u) ≡ false
  unfolding index_link_comments vote_key str_eq
  vote_key-list id j u = refl

  vote_key-comment : (c j u : ℤ) → str_eq (comment_key c) (vote_key j u) ≡ false
  unfolding comment_key vote_key str_eq
  vote_key-comment c j u = refl

  kept-index :
      (id : ℤ) (k : Str) (d c e : Dict Str)
      → lookup k e ≡ lookup k c
      → (ids_at ids k c ≡ ids_at ids k d) ⊎ IsOff ids id d k c
      → (ids_at ids k e ≡ ids_at ids k d) ⊎ IsOff ids id d k e
  kept-index id k d c e same (inl p) = inl (ids_at-lookup ids k c e same ∙ p)
  kept-index id k d c e same (inr p) = inr (IsOff-lookup ids id same p)

  erased-IsDeleted :
      (id caller : ℤ) (link : Link) (d c e : Dict Str)
      → stored links (link_key id) d ≡ some link
      → not (id_eq link.user_id caller) ≡ false
      → IsOff ids id d index_recent c
      → IsOff ids id d (index_user_links link.user_id) c
      → All (λ t. IsOff ids id d (index_tag t) c) link.tags
      → OnlyOff ids id d c
      → IsErased ids id c e
      → IsDeleted links ids d id caller e
  erased-IsDeleted id caller link d c e held owner off_r off_u off_t only h =
      let keeps : (k : Str) → IsIndex k → lookup k e ≡ lookup k c =
        λ k i. IsErased-index id k c e h i in
      let same = ids_at-lookup ids (index_link_comments id) d c (
        only.frame (index_link_comments id)
          (λ k i. swapped (index_link_comments id) k (link_comments-apart k id i))) in
      let cids = ids_at ids (index_link_comments id) d in
      record {
        link = link;
        held = held;
        owned = ground arith;
        gone = grind (arith, h.looked (link_key id), str_eq_refl (link_key id));
        votes = λ k v. grind (arith, h.looked k, v);
        comments = λ k v. grind (arith, h.looked k, v, same);
        list =
            grind (arith, h.looked (index_link_comments id), str_eq_refl (index_link_comments id));
        off_recent = IsOff-lookup ids id (keeps index_recent recent) off_r;
        off_user = IsOff-lookup ids id (keeps _ (user_links link.user_id)) off_u;
        off_tags = All-off d link.tags c e (λ t. keeps (index_tag t) (tagged t)) off_t;
        indexes = λ k i. kept-index id k d c e (keeps k i) (only.keeps k);
        others = λ k. untouched id k d c e only h same;
        other_links = λ j apart.
            untouched id (link_key j) d c e only h same
              (λ k i. swapped (link_key j) k (link_key-apart k j i)) apart (link_key-prefix id j)
              (link_key-list id j)
              (contains-comment_key (link_key j) cids (λ x. link_key-comment x j));
        other_votes = λ j u small small' other.
            untouched id (vote_key j u) d c e only h same (λ k i. vote_key-apart k j u i)
              (link_key-vote_key id j u) (vote_key-prefix id j u small small' other)
              (vote_key-list id j u)
              (contains-comment_key (vote_key j u) cids (λ x. vote_key-comment x j u));
      }
    where
      All-off :
          (d : Dict Str) (ts : List Str) (c e : Dict Str)
          → ((t : Str) → lookup (index_tag t) e ≡ lookup (index_tag t) c)
          → All (λ t. IsOff ids id d (index_tag t) c) ts
          → All (λ t. IsOff ids id d (index_tag t) e) ts
      All-off d [] c e f h = tt
      All-off d (t ∷ ts) c e f h = (IsOff-lookup ids id (f t) h.0, All-off d ts c e f h.1)

  Yields-delete_link :
      (law : IsRoundTrip ids) (path : Option ℤ) (ctx : Context) (d : Dict Str)
      → Yields
          (delete_link plain links ids path ctx)
          d
          (λ u e. (id : ℤ) × (path ≡ some id) × IsDeleted links ids d id (user_id ctx) e)
  unfolding delete_link delete_traces
  Yields-delete_link law path ctx d = Yields-path_id _ path λ id p.
      Yields-get_json links _ (link_key id) (
        Yields-require _ (stored links (link_key id) d) λ link held. Yields-reject _ _ _ λ owner.
          Yields-bind (Yields-IsOff ids id law index_recent d recent) λ u a (off_r, only_r).
            Yields-bind
              (Yields-IsOff ids id law (index_user_links link.user_id) a (user_links link.user_id))
              λ v b (off_u, only_u).
                Yields-bind (Yields-each-IsOff ids id law link.tags b) λ w c (off_t, only_t).
                  let only_b = OnlyOff-trans ids id only_r only_u in
                  Yields-weaken (Yields-erase_link ids id c) λ x e h. (
                    id,
                    p,
                    erased-IsDeleted id (user_id ctx) link d c e held owner
                        (IsOff-after ids id only_t (IsOff-after ids id only_u off_r))
                        (IsOff-after ids id only_t (IsOff-before ids id only_r off_u))
                        (All-IsOff ids id link.tags d b c only_b off_t)
                        (OnlyOff-trans ids id only_b only_t) h,
                  ))

-- With lists of ids that are read back as they were written: when `DeleteLink` returns without an error,
-- the path's id names a link of the caller's. The link, its votes, its comments and their list are gone;
-- the recent links, the caller's links and the list of each of its tags have lost its id and nothing
-- else, and no other list of links has lost more; every other key, those of the other links and of the
-- votes on them among these, is as it was.
pub delete_link-IsDeleted :
    {S : Type 0} {view : S → Dict Str} {kv : Kv S}
    → Simulates view kv
    → (links : Json Link) (ids : Json (List ℤ)) → IsRoundTrip ids
    → (path : Option ℤ) (ctx : Context) (s t : S) → delete_link kv links ids path ctx s ≡ (t, ok tt)
    → (id : ℤ) × (path ≡ some id) × IsDeleted links ids (view s) id (user_id ctx) (view t)
delete_link-IsDeleted {view = view} sim links ids law path ctx s t =
    (Yields-Sim (Sim-delete_link sim links ids path ctx)
        (Yields-delete_link links ids law path ctx (view s))).at
      t tt
