-- ===== src/Api/Comments.antt =====
-- internal/api/handler/comment.go: comments on links.
pub mod Commented
pub mod Removed
use link_raft.Prelude.{
  tt, ℕ, Str, codes, is_empty, Bool, true, false, not, ◌&&◌, ◌||◌, Option, none, some, List, [],
  ◌∷◌, ltb, if◌then◌else◌,
}
use link_raft.Prelude.Int.{ℤ, pos, negsuc, inc_int64}
use link_raft.Api.Act.{
  Act, bad_request, forbidden, not_found, pure, require, reject, when, ◌>>=◌, ◌>>◌,
}
use link_raft.Api.Models.{Instant, Link, Comment}
use link_raft.Api.Kv.{Kv}
use link_raft.Api.Keys.{seq_comment, link_key, comment_key, index_link_comments}
use link_raft.Api.Repo.{Json, id_eq, get_json, set_json, index, append_index, remove_index}
use link_raft.Api.Auth.{Context, user_id, user_name}
use link_raft.Api.Text.{Texts, path_id}
use link_raft.Api.Links.{cons_some}
use link_raft.Api.Votes.{is_some, dec_positive}

-- `createCommentRequest`
pub record CreateCommentRequest : Type 0 where
  pub body : Str
  pub parent_id : Option ℤ

-- The comment is one of this link's.
unfoldable pub belongs : ℤ → Option Comment → Option Comment
belongs link_id none = none
belongs link_id (some c) = if id_eq c.link_id link_id then some c else none

-- The link counts comments.
unfoldable pub is_positive : ℤ → Bool
is_positive (pos n) = ltb 0 n
is_positive (negsuc n) = false

module _ {S : Type 0} (kv : Kv S) (links : Json Link) (comments : Json Comment)
    (ids : Json (List ℤ)) where
  -- The loop of `ListComments`
  unfoldable pub fetch_comments : List ℤ → Act S (List Comment)
  fetch_comments [] = pure []
  fetch_comments (id ∷ rest) = do
    found ← get_json kv comments (comment_key id)
    cs ← fetch_comments rest
    pure (cons_some found cs)

  -- `ListComments`
  unfoldable pub list_comments : Option ℤ → Act S (List Comment)
  list_comments path = do
    link_id ← path_id path
    found ← get_json kv links (link_key link_id)
    link ← require (not_found (codes "link not found")) found
    comment_ids ← index kv ids (index_link_comments link_id)
    fetch_comments comment_ids

  -- The checks of a reply's parent.
  unfoldable pub check_parent : ℤ → Option ℤ → Act S (Unit {0})
  unfolding belongs
  check_parent link_id none = pure tt
  check_parent link_id (some parent_id) = do
    found ← get_json kv comments (comment_key parent_id)
    parent ← require (bad_request (codes "parent comment not found")) (belongs link_id found)
    reject (is_some parent.parent_id) (bad_request (codes "replies are limited to one level"))

  -- The part of `CreateComment` from the new id on.
  unfoldable pub store_comment : Comment → Link → Act S Comment
  store_comment comment link = do
    set_json kv comments (comment_key comment.id) comment
    append_index kv ids (index_link_comments comment.link_id) comment.id
    set_json kv links (link_key comment.link_id)
        (record link { comment_count = inc_int64 link.comment_count })
    pure comment

  -- `CreateComment`; a body that cannot be bound is `none`
  unfoldable pub create_comment :
      Texts → Option ℤ → Option CreateCommentRequest → Context → Instant → Act S Comment
  unfolding check_parent
  create_comment texts path body ctx now = do
    link_id ← path_id path
    req ← require (bad_request (codes "invalid request body")) body
    let text = texts.trim_space req.body
    reject (is_empty text || ltb 2000 (texts.rune_count text))
        (bad_request (codes "body must be 1-2000 characters"))
    found ← get_json kv links (link_key link_id)
    link ← require (not_found (codes "link not found")) found
    check_parent link_id req.parent_id
    id ← kv.incr seq_comment
    store_comment
        (record {
          id = id;
          link_id = link_id;
          user_id = user_id ctx;
          user_name = user_name ctx;
          body = text;
          parent_id = req.parent_id;
          vote_count = pos 0;
          created_at = now;
        })
        link

  -- The end of `DeleteComment`: one comment less, if the link is there and counts any.
  unfoldable pub uncount_comment : ℤ → Option Link → Act S (Unit {0})
  unfolding is_positive
  uncount_comment link_id none = pure tt
  uncount_comment link_id (some link) = when (is_positive link.comment_count) (
      set_json kv links (link_key link_id)
        (record link { comment_count = dec_positive link.comment_count }))

  -- `DeleteComment`
  unfoldable pub delete_comment : Option ℤ → Context → Act S (Unit {0})
  unfolding uncount_comment
  delete_comment path ctx = do
    id ← path_id path
    found ← get_json kv comments (comment_key id)
    comment ← require (not_found (codes "comment not found")) found
    reject (not (id_eq comment.user_id (user_id ctx)))
        (forbidden (codes "only the owner can delete this comment"))
    remove_index kv ids (index_link_comments comment.link_id) id
    kv.delete (comment_key id)
    link ← get_json kv links (link_key comment.link_id)
    uncount_comment comment.link_id link
