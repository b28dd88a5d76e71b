-- ===== src/Api/Links/Creation.antt =====
-- internal/api/handler/link.go: `CreateLink`.
use link_raft.Prelude.{
  ℕ, Str, codes, str_eq, is_empty, Bool, true, false, not, ◌&&◌, ◌||◌, Option, none, some, List, [],
  ◌∷◌, ◌++◌, length, ltb, leb, ◌==◌, if◌then◌else◌,
}
use link_raft.Prelude.Int.{ℤ, pos}
use link_raft.Prelude.Results.{Result, ok, err}
use link_raft.Kvs.Client.{contains}
use link_raft.Api.Act.{
  Act, Failure, bad_request, pure, returning, require, reject, each, ◌>>=◌, ◌>>◌,
}
use link_raft.Api.Models.{Instant, Link}
use link_raft.Api.Kv.{Kv}
use link_raft.Api.Keys.{seq_link, index_recent, link_key, index_tag, index_user_links}
use link_raft.Api.Repo.{Json, set_json, prepend_index}
use link_raft.Api.Auth.{Context, user_id, user_name}
use link_raft.Api.Text.{Url, Texts}
use link_raft.Api.Links.{LinkView}

-- `createLinkRequest`
pub record CreateLinkRequest : Type 0 where
  pub url : Str
  pub title : Str
  pub description : Str
  pub image_url : Str
  pub tags : List Str

is_tag_start : ℕ → Bool
is_tag_start c = (leb b'a' c && leb c b'z') || (leb b'0' c && leb c b'9')

are_tag_bytes : Str → Bool
unfolding is_tag_start
are_tag_bytes [] = true
are_tag_bytes (c ∷ s) = (is_tag_start c || c == b'_' || c == b'-') && are_tag_bytes s

-- `tagPattern`: ^[a-z0-9][a-z0-9_-]{0,29}$
unfoldable pub matches_tag : Str → Bool
unfolding is_tag_start are_tag_bytes
matches_tag [] = false
matches_tag (c ∷ s) = is_tag_start c && are_tag_bytes s && leb (length s) 29

-- A URL with the scheme http or https, and a host.
unfoldable pub is_http : Url → Bool
is_http u =
    (str_eq u.scheme (codes "http") || str_eq u.scheme (codes "https")) && not (is_empty u.host)

unfoldable pub http_url : Option Url → Option Url
unfolding is_http
http_url none = none
http_url (some u) = if is_http u then some u else none

unfoldable pub is_http_url : Option Url → Bool
unfolding is_http
is_http_url none = false
is_http_url (some u) = is_http u

module _ (texts : Texts) where
  unfoldable pub add_tag : Bool → Str → Result Failure (List Str) → Result Failure (List Str)
  add_tag seen t (err e) = err e
  add_tag true t (ok ts) = ok ts
  add_tag false t (ok ts) = ok (t ∷ ts)

  -- The loop over the tags, with those that were seen.
  unfoldable pub clean_tags : List Str → List Str → Result Failure (List Str)
  unfolding add_tag
  clean_tags seen [] = ok []
  clean_tags seen (raw ∷ raws) =
      let t = texts.to_lower (texts.trim_space raw) in
      let rest = clean_tags (t ∷ seen) raws in
      if matches_tag t
      then add_tag (contains t seen) t rest
      else err (bad_request (codes "invalid tag: " ++ t))

  -- The checks, as far as the id of the link.
  unfoldable pub checked_link :
      {S : Type 0} → CreateLinkRequest → Context → Instant → Act S (ℤ → Link)
  unfolding http_url is_http_url
  checked_link req ctx now = do
    let title = texts.trim_space req.title
    let description = texts.trim_space req.description
    u ←
        require (bad_request (codes "url must be a valid http(s) URL"))
          (http_url (texts.parse_url (texts.trim_space req.url)))
    let image_url = texts.trim_space req.image_url
    reject
        (not (is_empty image_url)
          && (not (is_http_url (texts.parse_url image_url)) || ltb 2000 (length image_url)))
        (bad_request (codes "image_url must be a valid http(s) URL"))
    reject (is_empty title || ltb 200 (texts.rune_count title))
        (bad_request (codes "title must be 1-200 characters"))
    reject (ltb 1000 (texts.rune_count description))
        (bad_request (codes "description must be at most 1000 characters"))
    reject (ltb 5 (length req.tags)) (bad_request (codes "at most 5 tags"))
    tags ← returning (clean_tags [] req.tags)
    pure λ id. record {
      id = id;
      url = u.text;
      title = title;
      description = description;
      image_url = image_url;
      user_id = user_id ctx;
      user_name = user_name ctx;
      tags = tags;
      vote_count = pos 0;
      comment_count = pos 0;
      created_at = now;
    }

module _ {S : Type 0} (kv : Kv S) (links : Json Link) (ids : Json (List ℤ)) (texts : Texts) where
  -- The part of `CreateLink` under the lock.
  unfoldable pub store_link : Link → Act S (Unit {0})
  store_link link = do
    set_json kv links (link_key link.id) link
    prepend_index kv ids index_recent link.id
    prepend_index kv ids (index_user_links link.user_id) link.id
    each (λ t. prepend_index kv ids (index_tag t) link.id) link.tags

  -- `CreateLink`; a body that cannot be bound is `none`
  unfoldable pub create_link : Option CreateLinkRequest → Context → Instant → Act S LinkView
  create_link body ctx now = do
    req ← require (bad_request (codes "invalid request body")) body
    make ← checked_link texts req ctx now
    id ← kv.incr seq_link
    store_link (make id)
    pure (record { link = make id; voted = false })
