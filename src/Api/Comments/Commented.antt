-- ===== src/Api/Comments/Commented.antt =====
-- internal/api/handler/comment.go: what `CreateComment` leaves behind.
use link_raft.Prelude.{
  ◌≡◌, refl, sym, ap, ◌∙◌, Str, str_eq_refl, true, Option, none, some, List, [], ◌∷◌, ◌++◌, arith,
}
use link_raft.Prelude.Dict.{Dict, lookup, insert, lookup-insert}
use link_raft.Prelude.Int.{ℤ, inc_int64}
use link_raft.Prelude.Results.{ok}
use link_raft.Kvs.Number.{format_int}
use link_raft.Kvs.Store.{current_int}
use link_raft.Api.Models.{Instant, Link, Comment}
use link_raft.Api.Kv.{Kv, plain}
use link_raft.Api.Kv.Simulation.{Simulates}
use link_raft.Api.Kv.Prefixes.{is_some-none}
use link_raft.Api.Keys.{seq_comment, link_key, comment_key, index_link_comments}
use link_raft.Api.Keys.Apart.{
  link_key-comment_key, link_key-link_comments, link_comments-comment_key,
  comment_key-link_comments, seq_comment-link_comments,
}
use link_raft.Api.Repo.{Json, id_eq}
use link_raft.Api.Auth.{Context, user_id}
use link_raft.Api.Text.{Texts}
use link_raft.Api.Simulated.{Sim-create_comment}
use link_raft.Api.Yields.{
  Yields, Yields-Sim, Yields-pure, Yields-bind, Yields-require, Yields-reject, Yields-path_id,
  Yields-incr, Yields-reject_last, Yields-weaken,
}
use link_raft.Api.Yields.Records.{
  stored, ids_at, ids_at-lookup, Yields-get_json, Yields-set_json, Yields-append_index,
}
use link_raft.Api.Comments.{
  CreateCommentRequest, belongs, check_parent, store_comment, create_comment,
}

module _ (comments : Json Comment) where
  -- A comment that is a reply is one to a comment on the same link that is no reply.
  pub record IsShallow (id : ℤ) (parent : Option ℤ) (d : Dict Str) : Type 0 where
    pub top :
        (p : ℤ)
        → parent ≡ some p
        → (c : Comment) × (stored comments (comment_key p) d ≡ some c)
          × (id_eq c.link_id id ≡ true)
          × (c.parent_id ≡ none)

  belongs-some :
      (id : ℤ) (o : Option Comment) (c : Comment)
      → belongs id o ≡ some c
      → (o ≡ some c) × (id_eq c.link_id id ≡ true)
  unfolding belongs
  belongs-some id none c e = absurd cc
  belongs-some id (some b) c e = ground arith

-- From the content `d` to `e`, the comment has been written, appended to the comments of its link, and
-- counted.
pub record IsCommented (links : Json Link) (comments : Json Comment) (ids : Json (List ℤ))
    (d : Dict Str) (id caller : ℤ) (r : Comment) (e : Dict Str) : Type 0 where
  pub link : Link
  pub held : stored links (link_key id) d ≡ some link
  pub of_link : r.link_id ≡ id
  pub of_caller : r.user_id ≡ caller
  pub shallow : IsShallow comments id r.parent_id d
  pub written : (b : Str) × (comments.marshal r ≡ some b) × (lookup (comment_key r.id) e ≡ some b)
  pub listed :
      (b : Str) × (ids.marshal (ids_at ids (index_link_comments id) d ++ r.id ∷ []) ≡ some b)
      × (lookup (index_link_comments id) e ≡ some b)
  pub counted :
      (b : Str) × (links.marshal (record link { comment_count = inc_int64 link.comment_count })
        ≡ some b)
      × (lookup (link_key id) e ≡ some b)

module _ (links : Json Link) (comments : Json Comment) (ids : Json (List ℤ)) where
  Yields-check_parent :
      (id : ℤ) (p : Option ℤ) (d : Dict Str)
      → Yields
          (check_parent plain links comments ids id p)
          d
          (λ u e. (d ≡ e) × IsShallow comments id p d)
  unfolding check_parent
  Yields-check_parent id none d = Yields-pure (refl, record { top = λ q e. absurd cc })
  Yields-check_parent id (some p) d = Yields-get_json comments _ (comment_key p) (
      Yields-require _ (belongs id (stored comments (comment_key p) d)) λ c found.
        Yields-reject_last _ _ λ no_reply.
          let (there, here) =
            belongs-some comments id (stored comments (comment_key p) d) c found in
          (refl, record { top = λ q e. (c, cc, here, is_some-none c.parent_id no_reply) }))

  -- The list of the link's comments, with one more at its end.
  record Appended (r : Comment) (f g : Dict Str) : Type 0 where
    bytes : Str
    written : ids.marshal (ids_at ids (index_link_comments r.link_id) f ++ r.id ∷ []) ≡ some bytes
    at : g ≡ insert (index_link_comments r.link_id) bytes f

  Yields-store_comment :
      (r : Comment) (link : Link) (caller n : ℤ) (d : Dict Str)
      → stored links (link_key r.link_id) d ≡ some link
      → r.user_id ≡ caller
      → IsShallow comments r.link_id r.parent_id d
      → Yields
          (store_comment plain links comments ids r link)
          (insert seq_comment (format_int n) d)
          (λ c e. IsCommented links comments ids d r.link_id caller c e)
  unfolding store_comment
  Yields-store_comment r link caller n d held mine shallow =
      let c = insert seq_comment (format_int n) d in
      Yields-set_json comments _ (comment_key r.id) r λ b w.
        let f = insert (comment_key r.id) b c in
        Yields-bind
          (Yields-append_index ids {Q = λ u g. Appended r f g} (index_link_comments r.link_id) r.id
            λ b' w'. record { bytes = b'; written = w'; at = refl })
          λ u g h. Yields-set_json links _ (link_key r.link_id) _ λ b'' w''.
            let same = ids_at-lookup ids (index_link_comments r.link_id) d f (
              grind (
                arith,
                lookup-insert (comment_key r.id) (index_link_comments r.link_id) b c,
                comment_key-link_comments r.link_id r.id,
                lookup-insert seq_comment (index_link_comments r.link_id) (format_int n) d,
                seq_comment-link_comments r.link_id,
              )) in
            Yields-pure (record {
              link = link;
              held = held;
              of_link = refl;
              of_caller = mine;
              shallow = shallow;
              written = (
                b,
                w,
                grind (
                  arith,
                  lookup-insert (link_key r.link_id) (comment_key r.id) b'' g,
                  link_key-comment_key r.link_id r.id,
                  h.at,
                  lookup-insert (index_link_comments r.link_id) (comment_key r.id) h.bytes f,
                  link_comments-comment_key r.link_id r.id,
                  lookup-insert (comment_key r.id) (comment_key r.id) b c,
                  str_eq_refl (comment_key r.id),
                ),
              );
              listed = (
                h.bytes,
                sym (ap (λ x. ids.marshal (x ++ r.id ∷ [])) same) ∙ h.written,
                grind (
                  arith,
                  lookup-insert (link_key r.link_id) (index_link_comments r.link_id) b'' g,
                  link_key-link_comments r.link_id r.link_id,
                  h.at,
                  lookup-insert (index_link_comments r.link_id) (index_link_comments r.link_id)
                      h.bytes f,
                  str_eq_refl (index_link_comments r.link_id),
                ),
              );
              counted = (
                b'',
                w'',
                grind (
                  arith,
                  lookup-insert (link_key r.link_id) (link_key r.link_id) b'' g,
                  str_eq_refl (link_key r.link_id),
                ),
              );
            })

  Yields-create_comment :
      (texts : Texts) (path : Option ℤ) (body : Option CreateCommentRequest) (ctx : Context)
      (now : Instant) (d : Dict Str)
      → Yields (create_comment plain links comments ids texts path body ctx now) d (λ r e.
        (id : ℤ) × (path ≡ some id) × IsCommented links comments ids d id (user_id ctx) r e)
  unfolding create_comment
  Yields-create_comment texts path body ctx now d = Yields-path_id _ path λ id p.
      Yields-require _ body λ req q. Yields-reject _ _ _ λ sized.
        Yields-get_json links _ (link_key id) (
          Yields-require _ (stored links (link_key id) d) λ link held.
            Yields-bind (Yields-check_parent id req.parent_id d) λ u d' (same, shallow).
              rw (sym same) (
                Yields-incr _ seq_comment (
                  Yields-weaken
                    (Yields-store_comment _ link (user_id ctx)
                      (inc_int64 (current_int seq_comment d)) d held refl shallow)
                    λ r e h. (id, p, h))))

-- When `CreateComment` returns a comment, the path's id names a link; the comment is the caller's and
-- on that link; if it is a reply, it is one to a comment on the same link that is no reply itself;
-- and it is stored, stands at the end of the link's comments, and has been counted.
pub create_comment-IsCommented :
    {S : Type 0} {view : S → Dict Str} {kv : Kv S}
    → Simulates view kv
    → (links : Json Link) (comments : Json Comment) (ids : Json (List ℤ)) (texts : Texts)
      (path : Option ℤ) (body : Option CreateCommentRequest) (ctx : Context) (now : Instant)
      (s t : S) (r : Comment)
    → create_comment kv links comments ids texts path body ctx now s ≡ (t, ok r)
    → (id : ℤ) × (path ≡ some id)
      × IsCommented links comments ids (view s) id (user_id ctx) r (view t)
create_comment-IsCommented {view = view} sim links comments ids texts path body ctx now s t r =
    (Yields-Sim (Sim-create_comment sim links comments ids texts path body ctx now)
        (Yields-create_comment links comments ids texts path body ctx now (view s))).at
      t r
