-- ===== src/Raft/Run/Frame.antt =====
-- The operations that leave the term, the vote and the meta file alone.
use link_raft.Prelude.{
  ℕ, zero, suc, ◌+◌, ◌≡◌, refl, inl, inr, ◌∙◌, Str, List, [], ◌∷◌, arith, Bool-cases,
}
use link_raft.Raft.Log.{Entry}
use link_raft.Raft.Node.{Node, Members, InstallSnapshotRequest, signal_apply, broadcast_append}
use link_raft.Raft.Commit.{is_committable, advance_from, advance_commit, become_leader}
use link_raft.Raft.Membership.{
  MembersCodec, track_peers, apply_config, recompute_config, maybe_apply_config_entry,
  propose_members, propose_config, add_member, remove_member, Checked,
}
use link_raft.Raft.Replication.{
  append_entry, truncate_conflict, accept_entry, accept_entries, follow_commit, propose,
  send_append_begin,
}
use link_raft.Raft.Reads.{wait_applied, apply_begin, apply_end}
use link_raft.Raft.Compaction.{
  SnapPoint, Snapshotter, maybe_snapshot_end, send_snapshot_begin, install,
}

pub record SameVote (n m : Node) : Type 0 where
  pub same_term : m.current_term ≡ n.current_term
  pub same_vote : m.voted_for ≡ n.voted_for
  pub same_meta : m.meta ≡ n.meta

pub SameVote-refl : (n : Node) → SameVote n n
SameVote-refl n = record { same_term = refl; same_vote = refl; same_meta = refl }

pub SameVote-trans : {n m k : Node} → SameVote n m → SameVote m k → SameVote n k
SameVote-trans p q = record {
  same_term = q.same_term ∙ p.same_term;
  same_vote = q.same_vote ∙ p.same_vote;
  same_meta = q.same_meta ∙ p.same_meta;
}

advance_from-SameVote : (r i : ℕ) (n : Node) → SameVote n (advance_from r i n)
unfolding advance_from
advance_from-SameVote zero i n = SameVote-refl n
advance_from-SameVote (suc r) i n = elim (Bool-cases (is_committable i n)) [
  | inl yes_ ↦ rw yes_ (
      SameVote-trans {m = record n { commit_index = i }}
        (record { same_term = refl; same_vote = refl; same_meta = refl })
        (advance_from-SameVote r (i + 1) (record n { commit_index = i })))
  | inr no_ ↦ rw no_ (advance_from-SameVote r (i + 1) n)
]

pub advance_commit-SameVote : (n : Node) → SameVote n (advance_commit n)
unfolding advance_commit signal_apply
advance_commit-SameVote n =
    let s = advance_from-SameVote _ (n.commit_index + 1) n in
    record { same_term = s.same_term; same_vote = s.same_vote; same_meta = s.same_meta }

pub become_leader-SameVote : (n : Node) → SameVote n (become_leader n)
unfolding become_leader broadcast_append
become_leader-SameVote n =
    let s = advance_commit-SameVote _ in
    record { same_term = s.same_term; same_vote = s.same_vote; same_meta = s.same_meta }

track_peers-SameVote : (n : Node) → SameVote n (track_peers n)
unfolding track_peers
track_peers-SameVote n = record { same_term = refl; same_vote = refl; same_meta = refl }

pub apply_config-SameVote :
    (members : Members) (i : ℕ) (n : Node) → SameVote n (apply_config members i n)
unfolding apply_config
apply_config-SameVote members i n = grind (arith, track_peers-SameVote)

module _ (codec : MembersCodec) where
  recompute_config-SameVote : (n : Node) → SameVote n (recompute_config codec n)
  unfolding recompute_config
  recompute_config-SameVote n = grind (arith, apply_config-SameVote)

  maybe_apply_config_entry-SameVote :
      (e : Entry) (n : Node) → SameVote n (maybe_apply_config_entry codec e n)
  unfolding maybe_apply_config_entry
  maybe_apply_config_entry-SameVote e n = grind (arith, apply_config-SameVote)

  append_entry-SameVote : (e : Entry) (n : Node) → SameVote n (append_entry codec e n).0
  unfolding append_entry
  append_entry-SameVote e n = grind (arith, maybe_apply_config_entry-SameVote)

  truncate_conflict-SameVote : (e : Entry) (n : Node) → SameVote n (truncate_conflict codec e n).0
  unfolding truncate_conflict
  truncate_conflict-SameVote e n = grind (arith, recompute_config-SameVote)

  accept_entry-SameVote : (e : Entry) (n : Node) → SameVote n (accept_entry codec e n).0
  unfolding accept_entry
  accept_entry-SameVote e n = ground (
    arith,
    append_entry-SameVote e n,
    truncate_conflict-SameVote e n,
    append_entry-SameVote e (truncate_conflict codec e n).0,
  )

  pub accept_entries-SameVote :
      (es : List Entry) (n : Node) → SameVote n (accept_entries codec es n).0
  unfolding accept_entries
  accept_entries-SameVote [] n = SameVote-refl n
  accept_entries-SameVote (e ∷ es) n =
      ground
        (arith, accept_entry-SameVote e n, accept_entries-SameVote es (accept_entry codec e n).0)

  propose_members-SameVote : (m : Members) (n : Node) → SameVote n (propose_members codec m n).0
  unfolding propose_members broadcast_append
  propose_members-SameVote m n = grind (arith, advance_commit-SameVote, apply_config-SameVote)

  propose_config-SameVote :
      (f : Members → Checked Members) (n : Node) → SameVote n (propose_config codec f n).0
  unfolding propose_config
  propose_config-SameVote f n = grind (arith, propose_members-SameVote)

  pub add_member-SameVote : (id addr : Str) (n : Node) → SameVote n (add_member codec id addr n).0
  unfolding add_member
  add_member-SameVote id addr n = grind (arith, propose_config-SameVote)

  pub remove_member-SameVote : (id : Str) (n : Node) → SameVote n (remove_member codec id n).0
  unfolding remove_member
  remove_member-SameVote id n = propose_config-SameVote _ n

pub follow_commit-SameVote : (i : ℕ) (n : Node) → SameVote n (follow_commit i n)
unfolding follow_commit
follow_commit-SameVote i n = ground arith

pub propose-SameVote : (c : Str) (n : Node) → SameVote n (propose c n).0
unfolding propose broadcast_append
propose-SameVote c n = grind (arith, advance_commit-SameVote)

pub send_append_begin-SameVote :
    (p : Str) (t : ℕ) (n : Node) → SameVote n (send_append_begin p t n).0
unfolding send_append_begin
send_append_begin-SameVote p t n = ground arith

pub wait_applied-SameVote : (i : ℕ) (n : Node) → SameVote n (wait_applied i n).0
unfolding wait_applied
wait_applied-SameVote i n = ground arith

pub apply_begin-SameVote : (n : Node) → SameVote n (apply_begin n).0
unfolding apply_begin
apply_begin-SameVote n = ground arith

pub apply_end-SameVote : (i : ℕ) (n : Node) → SameVote n (apply_end i n)
unfolding apply_end
apply_end-SameVote i n = ground arith

module _ {S : Type 0} (codec : MembersCodec) (machine : Snapshotter S) where
  pub send_snapshot_begin-SameVote :
      (p : Str) (t : ℕ) (n : Node) → SameVote n (send_snapshot_begin codec p t n).0
  unfolding send_snapshot_begin
  send_snapshot_begin-SameVote p t n = ground arith

  pub maybe_snapshot_end-SameVote :
      (p : SnapPoint) (c : Str) (n : Node) (s : S)
      → SameVote n (maybe_snapshot_end machine p c n s).0
  unfolding maybe_snapshot_end
  maybe_snapshot_end-SameVote p c n s = ground arith

  pub install-SameVote :
      (req : InstallSnapshotRequest) (m : Members) (n : Node) (s : S)
      → SameVote n (install codec machine req m n s).0
  unfolding install
  install-SameVote req m n s = grind (arith, apply_config-SameVote)
