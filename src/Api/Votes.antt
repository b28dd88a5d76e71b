-- ===== src/Api/Votes.antt =====
-- internal/api/handler/vote.go: votes on links.
pub mod Toggled
pub mod Tally
use link_raft.Prelude.{
  tt, ℕ, ◌-◌, Str, codes, Bool, true, false, not, Option, none, some, List, ltb, if◌then◌else◌,
}
use link_raft.Prelude.Int.{ℤ, pos, negsuc, inc_int64}
use link_raft.Api.Act.{Act, not_found, pure, require, ◌>>=◌, ◌>>◌}
use link_raft.Api.Models.{Instant, Link, Vote}
use link_raft.Api.Kv.{Kv}
pub use link_raft.Api.Kv.Prefixes.{is_some}
use link_raft.Api.Keys.{link_key, vote_key}
use link_raft.Api.Repo.{Json, get_json, set_json}
use link_raft.Api.Auth.{Context, user_id}
use link_raft.Api.Text.{path_id}

-- if n > 0 { n-- }
unfoldable pub dec_positive : ℤ → ℤ
dec_positive (pos n) = pos (n - 1)
dec_positive (negsuc n) = negsuc n

-- The response of `ToggleVote`.
pub record Voted : Type 0 where
  pub voted : Bool
  pub vote_count : ℤ

module _ {S : Type 0} (kv : Kv S) (links : Json Link) (votes : Json Vote) (now : Instant) where
  -- The two cases of a voter, with the count that the link has afterwards.
  abbrev pub change_vote : Bool → Str → ℤ → Act S ℤ
  change_vote true key n = do kv.delete key; pure (dec_positive n)
  change_vote false key n = do
    set_json kv votes key (record { created_at = now })
    pure (inc_int64 n)

  -- `ToggleVote`, from the path's id and the caller
  unfoldable pub toggle_vote : Option ℤ → Context → Act S Voted
  toggle_vote path ctx = do
    link_id ← path_id path
    found ← get_json kv links (link_key link_id)
    link ← require (not_found (codes "link not found")) found
    let key = vote_key link_id (user_id ctx)
    vote ← kv.get key
    n ← change_vote (is_some vote) key link.vote_count
    set_json kv links (link_key link_id) (record link { vote_count = n })
    pure (record { voted = not (is_some vote); vote_count = n })
