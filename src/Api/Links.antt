-- ===== src/Api/Links.antt =====
-- internal/api/handler/link.go: `fetchLinks`, `withVoted` and the handlers for one link.
pub mod Listing
pub mod Creation
pub mod Pages
pub mod Erasure
pub mod Deleted
pub mod Created
pub mod First
pub mod Checked
use link_raft.Prelude.{
  tt, ℕ, Str, codes, Bool, true, false, not, Option, none, some, List, [], ◌∷◌, if◌then◌else◌,
}
use link_raft.Prelude.Int.{ℤ, pos}
use link_raft.Api.Act.{Act, Failure, not_found, forbidden, pure, require, reject, each, ◌>>=◌, ◌>>◌}
use link_raft.Api.Models.{Link}
use link_raft.Api.Kv.{Kv}
use link_raft.Api.Keys.{
  index_recent, link_key, comment_key, vote_key, vote_prefix, index_tag, index_user_links,
  index_link_comments,
}
use link_raft.Api.Repo.{Json, id_eq, get_json, index, remove_index}
use link_raft.Api.Auth.{Context, user_id}
use link_raft.Api.Text.{path_id}
use link_raft.Api.Votes.{is_some}

-- `linkView`
pub record LinkView : Type 0 where
  pub link : Link
  pub voted : Bool

abbrev pub cons_some : {A : Type 0} → Option A → List A → List A
cons_some none xs = xs
cons_some (some x) xs = x ∷ xs

module _ {S : Type 0} (kv : Kv S) (ids : Json (List ℤ)) where
  -- `DeleteLink` behind the indexes: the comments, the votes and the link itself.
  unfoldable pub erase_link : ℤ → Act S (Unit {0})
  erase_link id = do
    comment_ids ← index kv ids (index_link_comments id)
    each (λ cid. kv.delete (comment_key cid)) comment_ids
    kv.delete (index_link_comments id)
    vote_keys ← kv.keys (vote_prefix id)
    each (λ vk. kv.delete vk) vote_keys
    kv.delete (link_key id)

  -- `DeleteLink` from the removal from the indexes on
  unfoldable pub delete_traces : ℤ → Link → Act S (Unit {0})
  delete_traces id link = do
    remove_index kv ids index_recent id
    remove_index kv ids (index_user_links link.user_id) id
    each (λ t. remove_index kv ids (index_tag t) id) link.tags
    erase_link id

module _ {S : Type 0} (kv : Kv S) (links : Json Link) where
  -- `fetchLinks`
  unfoldable pub fetch_links : List ℤ → Act S (List Link)
  fetch_links [] = pure []
  fetch_links (id ∷ ids) = do
    found ← get_json kv links (link_key id)
    rest ← fetch_links ids
    pure (cons_some found rest)

  -- The value of `Voted` for one link.
  unfoldable pub has_voted : ℤ → ℤ → Act S Bool
  has_voted caller link_id =
      if id_eq caller (pos 0)
      then pure false
      else (kv.get (vote_key link_id caller) >>= λ v. pure (is_some v))

  -- `withVoted`
  unfoldable pub with_voted : List Link → ℤ → Act S (List LinkView)
  unfolding has_voted
  with_voted [] caller = pure []
  with_voted (l ∷ ls) caller = do
    voted ← has_voted caller l.id
    rest ← with_voted ls caller
    pure (record { link = l; voted = voted } ∷ rest)

  -- `GetLink`
  unfoldable pub get_link : Option ℤ → Context → Act S LinkView
  unfolding has_voted
  get_link path ctx = do
    id ← path_id path
    found ← get_json kv links (link_key id)
    link ← require (not_found (codes "link not found")) found
    voted ← has_voted (user_id ctx) link.id
    pure (record { link = link; voted = voted })

  module _ (ids : Json (List ℤ)) where
    -- `DeleteLink`
    unfoldable pub delete_link : Option ℤ → Context → Act S (Unit {0})
    delete_link path ctx = do
      id ← path_id path
      found ← get_json kv links (link_key id)
      link ← require (not_found (codes "link not found")) found
      reject (not (id_eq link.user_id (user_id ctx)))
          (forbidden (codes "only the owner can delete this link"))
      delete_traces kv ids id link
