-- ===== src/Api/Comments/Removed.antt =====
-- internal/api/handler/comment.go: what `DeleteComment` leaves behind.
use link_raft.Prelude.{
  tt, ◌≡◌, refl, sym, ◌∙◌, Str, str_eq, subst, str_eq_refl, Bool, true, false, not, Option, none,
  some, List, select, arith,
}
use link_raft.Prelude.Dict.{Dict, lookup, insert, erase, lookup-insert, lookup-erase}
use link_raft.Prelude.Int.{ℤ}
use link_raft.Prelude.Results.{ok}
use link_raft.Api.Models.{Link, Comment}
use link_raft.Api.Kv.{Kv, plain}
use link_raft.Api.Kv.Simulation.{Simulates}
use link_raft.Api.Keys.{link_key, comment_key, index_link_comments}
use link_raft.Api.Keys.Apart.{
  link_key-comment_key, link_key-link_comments, comment_key-link_comments, swapped,
}
use link_raft.Api.Repo.{Json, id_eq}
use link_raft.Api.Auth.{Context, user_id}
use link_raft.Api.Simulated.{Sim-delete_comment}
use link_raft.Api.Votes.{dec_positive}
use link_raft.Api.Yields.{
  Yields, Yields-Sim, Yields-pure, Yields-bind, Yields-require, Yields-reject, Yields-path_id,
  Yields-delete, Yields-when_last, Yields-weaken,
}
use link_raft.Api.Yields.Records.{
  stored, ids_at, stored-lookup, Yields-get_json, Yields-set_json_last, Yields-remove_index,
}
use link_raft.Api.Comments.{is_positive, uncount_comment, delete_comment}

-- From the content `d` to `e`, the link that was found has lost a comment, if it counted any.
pub record IsUncounted (links : Json Link) (link_id : ℤ) (found : Option Link) (d e : Dict Str)
    : Type 0 where
  pub counted :
      (l : Link)
      → found ≡ some l
      → is_positive l.comment_count ≡ true
      → (b : Str) × (links.marshal (record l { comment_count = dec_positive l.comment_count })
          ≡ some b)
        × (lookup (link_key link_id) e ≡ some b)
  pub uncounted :
      (l : Link)
      → found ≡ some l
      → is_positive l.comment_count ≡ false
      → lookup (link_key link_id) e ≡ lookup (link_key link_id) d

-- Only the link under this id may have been written.
abbrev OnlyLink : ℤ → Dict Str → Dict Str → Type 0
OnlyLink link_id d e = (k : Str) → str_eq (link_key link_id) k ≡ false → lookup k e ≡ lookup k d

-- From the content `d` to `e`, the caller's comment has been deleted, taken off its link and counted off.
pub record IsRemoved (links : Json Link) (comments : Json Comment) (ids : Json (List ℤ))
    (d : Dict Str) (id caller : ℤ) (e : Dict Str) : Type 0 where
  pub comment : Comment
  pub held : stored comments (comment_key id) d ≡ some comment
  pub owned : id_eq comment.user_id caller ≡ true
  pub gone : lookup (comment_key id) e ≡ none
  pub listed :
      (b : Str) × (ids.marshal
          (select (λ v. not (id_eq v id)) (ids_at ids (index_link_comments comment.link_id) d))
        ≡ some b)
      × (lookup (index_link_comments comment.link_id) e ≡ some b)
  pub others :
      (k : Str)
      → str_eq (comment_key id) k ≡ false
      → str_eq (index_link_comments comment.link_id) k ≡ false
      → str_eq (link_key comment.link_id) k ≡ false
      → lookup k e ≡ lookup k d
  pub less : IsUncounted links comment.link_id (stored links (link_key comment.link_id) d) d e

module _ (links : Json Link) (comments : Json Comment) (ids : Json (List ℤ)) where
  Yields-uncount_comment :
      (id : ℤ) (found : Option Link) (d : Dict Str)
      → Yields
          (uncount_comment plain links comments ids id found)
          d
          (λ u e. IsUncounted links id found d e × OnlyLink id d e)
  unfolding uncount_comment
  Yields-uncount_comment id none d =
      Yields-pure (record { counted = λ l e. absurd cc; uncounted = λ l e. absurd cc }, λ k a. refl)
  Yields-uncount_comment id (some l) d =
      let same : (m : Link) → some l ≡ some m → l ≡ m = λ m e. cc in
      Yields-when_last (is_positive l.comment_count)
        (λ any. Yields-set_json_last links (link_key id) _ λ b w. (
          record {
            counted = λ m e p. (
              b,
              subst
                  (λ (x : Link).
                    links.marshal (record x { comment_count = dec_positive x.comment_count })
                    ≡ some b)
                  (same m e) w,
              rw (lookup-insert (link_key id) (link_key id) b d, str_eq_refl (link_key id)) refl,
            );
            uncounted = λ m e p. absurd (
                clash any
                  (subst (λ (x : Link). is_positive x.comment_count ≡ false) (sym (same m e)) p));
          },
          λ k a. rw (lookup-insert (link_key id) k b d, a) refl,
        ))
        λ no_more. (
          record {
            counted = λ m e p. absurd (
                clash (subst (λ (x : Link). is_positive x.comment_count ≡ true) (sym (same m e)) p)
                  no_more);
            uncounted = λ m e p. refl;
          },
          λ k a. refl,
        )
    where
      clash : {b : Bool} → b ≡ true → b ≡ false → ⊥
      clash p q = cc

  removed :
      (comment : Comment) (id : ℤ) (b k : Str) (d : Dict Str)
      → str_eq (comment_key id) k ≡ false
      → str_eq (index_link_comments comment.link_id) k ≡ false
      → lookup k (erase (comment_key id) (insert (index_link_comments comment.link_id) b d))
        ≡ lookup k d
  removed comment id b k d p q =
      rw
        (
          lookup-erase (comment_key id) k (insert (index_link_comments comment.link_id) b d),
          p,
          lookup-insert (index_link_comments comment.link_id) k b d,
          q,
        )
        refl

  uncounted-IsRemoved :
      (comment : Comment) (id caller : ℤ) (b : Str) (d e : Dict Str)
      → stored comments (comment_key id) d ≡ some comment
      → not (id_eq comment.user_id caller) ≡ false
      → ids.marshal
          (select (λ v. not (id_eq v id)) (ids_at ids (index_link_comments comment.link_id) d))
        ≡ some b
      → (let f = erase (comment_key id) (insert (index_link_comments comment.link_id) b d) in
          IsUncounted links comment.link_id (stored links (link_key comment.link_id) f) f e
          × OnlyLink comment.link_id f e)
      → IsRemoved links comments ids d id caller e
  uncounted-IsRemoved comment id caller b d e held owner w (h, only) =
      let list = index_link_comments comment.link_id in
      let own = link_key comment.link_id in
      let f = erase (comment_key id) (insert list b d) in
      let own_kept : lookup own f ≡ lookup own d =
        removed comment id b own d
          (swapped own (comment_key id) (link_key-comment_key comment.link_id id))
          (swapped own list (link_key-link_comments comment.link_id comment.link_id)) in
      let found : stored links own f ≡ stored links own d =
        stored-lookup links own own f d own_kept in
      record {
        comment = comment;
        held = held;
        owned = ground arith;
        gone =
            only (comment_key id) (link_key-comment_key comment.link_id id)
            ∙ rw
                (
                  lookup-erase (comment_key id) (comment_key id) (insert list b d),
                  str_eq_refl (comment_key id),
                )
                refl;
        listed = (
          b,
          w,
          only list (link_key-link_comments comment.link_id comment.link_id)
              ∙ rw
                  (
                    lookup-erase (comment_key id) list (insert list b d),
                    comment_key-link_comments comment.link_id id,
                    lookup-insert list list b d,
                    str_eq_refl list,
                  )
                  refl,
        );
        others = λ k p q r. only k r ∙ removed comment id b k d p q;
        less = record {
          counted = λ l e. h.counted l (found ∙ e);
          uncounted = λ l e z. h.uncounted l (found ∙ e) z ∙ own_kept;
        };
      }

  Yields-delete_comment :
      (path : Option ℤ) (ctx : Context) (d : Dict Str)
      → Yields
          (delete_comment plain links comments ids path ctx)
          d
          (λ u e. (id : ℤ) × (path ≡ some id) × IsRemoved links comments ids d id (user_id ctx) e)
  unfolding delete_comment
  Yields-delete_comment path ctx d = Yields-path_id _ path λ id p.
      Yields-get_json comments _ (comment_key id) (
        Yields-require _ (stored comments (comment_key id) d) λ comment held.
          Yields-reject _ _ _ λ owner.
            let list = index_link_comments comment.link_id in
            Yields-bind
              (Yields-remove_index ids
                {Q = λ u c.
                  (b : Str) × (ids.marshal (select (λ v. not (id_eq v id)) (ids_at ids list d))
                    ≡ some b)
                  × (c ≡ insert list b d)}
                list id λ b w. (b, w, refl))
              λ u c (b, w, at). rw at (
                Yields-delete _ (comment_key id) (
                  Yields-get_json links _ (link_key comment.link_id) (
                    Yields-weaken (Yields-uncount_comment comment.link_id _ _) λ v e h.
                      (id, p, uncounted-IsRemoved comment id (user_id ctx) b d e held owner w h)))))

-- When `DeleteComment` returns without an error, the path's id names a comment of the caller's; the
-- comment is gone, the comments of its link have been written without it, the link, if it is there, counts
-- one comment less unless it counted none, and every other key is as it was.
pub delete_comment-IsRemoved :
    {S : Type 0} {view : S → Dict Str} {kv : Kv S}
    → Simulates view kv
    → (links : Json Link) (comments : Json Comment) (ids : Json (List ℤ)) (path : Option ℤ)
      (ctx : Context) (s t : S)
    → delete_comment kv links comments ids path ctx s ≡ (t, ok tt)
    → (id : ℤ) × (path ≡ some id) × IsRemoved links comments ids (view s) id (user_id ctx) (view t)
delete_comment-IsRemoved {view = view} sim links comments ids path ctx s t =
    (Yields-Sim (Sim-delete_comment sim links comments ids path ctx)
        (Yields-delete_comment links comments ids path ctx (view s))).at
      t tt
