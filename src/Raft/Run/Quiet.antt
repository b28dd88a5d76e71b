-- ===== src/Raft/Run/Quiet.antt =====
-- The operations that leave the state, the term, the applied index and the waiting readers alone.
use link_raft.Prelude.{
  ℕ, zero, suc, ◌+◌, ◌≡◌, refl, inl, inr, ◌∙◌, Str, List, [], ◌∷◌, arith, Bool-cases,
}
use link_raft.Raft.Log.{Entry}
use link_raft.Raft.Node.{Node, Members, signal_apply, broadcast_append}
use link_raft.Raft.Commit.{is_committable, advance_from, advance_commit}
use link_raft.Raft.Membership.{
  MembersCodec, track_peers, apply_config, recompute_config, maybe_apply_config_entry,
  propose_members, propose_config, add_member, remove_member, Checked,
}
use link_raft.Raft.Replication.{
  append_entry, truncate_conflict, accept_entry, accept_entries, follow_commit, propose,
  send_append_begin,
}
use link_raft.Raft.Compaction.{Snapshotter, send_snapshot_begin}

pub record IsQuiet (n m : Node) : Type 0 where
  pub same_state : m.state ≡ n.state
  pub same_term : m.current_term ≡ n.current_term
  pub same_applied : m.last_applied ≡ n.last_applied
  pub same_readers : m.apply_waiters ≡ n.apply_waiters

pub IsQuiet-refl : (n : Node) → IsQuiet n n
IsQuiet-refl n = record {
  same_state = refl;
  same_term = refl;
  same_applied = refl;
  same_readers = refl;
}

pub IsQuiet-trans : {n m k : Node} → IsQuiet n m → IsQuiet m k → IsQuiet n k
IsQuiet-trans p q = record {
  same_state = q.same_state ∙ p.same_state;
  same_term = q.same_term ∙ p.same_term;
  same_applied = q.same_applied ∙ p.same_applied;
  same_readers = q.same_readers ∙ p.same_readers;
}

advance_from-IsQuiet : (r i : ℕ) (n : Node) → IsQuiet n (advance_from r i n)
unfolding advance_from
advance_from-IsQuiet zero i n = IsQuiet-refl n
advance_from-IsQuiet (suc r) i n = elim (Bool-cases (is_committable i n)) [
  | inl yes_ ↦ rw yes_ (
      IsQuiet-trans {m = record n { commit_index = i }}
        (record { same_state = refl; same_term = refl; same_applied = refl; same_readers = refl })
        (advance_from-IsQuiet r (i + 1) (record n { commit_index = i })))
  | inr no_ ↦ rw no_ (advance_from-IsQuiet r (i + 1) n)
]

pub advance_commit-IsQuiet : (n : Node) → IsQuiet n (advance_commit n)
unfolding advance_commit signal_apply
advance_commit-IsQuiet n =
    let s = advance_from-IsQuiet _ (n.commit_index + 1) n in
    record {
      same_state = s.same_state;
      same_term = s.same_term;
      same_applied = s.same_applied;
      same_readers = s.same_readers;
    }

track_peers-IsQuiet : (n : Node) → IsQuiet n (track_peers n)
unfolding track_peers
track_peers-IsQuiet n = record {
  same_state = refl;
  same_term = refl;
  same_applied = refl;
  same_readers = refl;
}

pub apply_config-IsQuiet :
    (members : Members) (i : ℕ) (n : Node) → IsQuiet n (apply_config members i n)
unfolding apply_config
apply_config-IsQuiet members i n = grind (arith, track_peers-IsQuiet)

module _ (codec : MembersCodec) where
  recompute_config-IsQuiet : (n : Node) → IsQuiet n (recompute_config codec n)
  unfolding recompute_config
  recompute_config-IsQuiet n = grind (arith, apply_config-IsQuiet)

  maybe_apply_config_entry-IsQuiet :
      (e : Entry) (n : Node) → IsQuiet n (maybe_apply_config_entry codec e n)
  unfolding maybe_apply_config_entry
  maybe_apply_config_entry-IsQuiet e n = grind (arith, apply_config-IsQuiet)

  append_entry-IsQuiet : (e : Entry) (n : Node) → IsQuiet n (append_entry codec e n).0
  unfolding append_entry
  append_entry-IsQuiet e n = grind (arith, maybe_apply_config_entry-IsQuiet)

  truncate_conflict-IsQuiet : (e : Entry) (n : Node) → IsQuiet n (truncate_conflict codec e n).0
  unfolding truncate_conflict
  truncate_conflict-IsQuiet e n = grind (arith, recompute_config-IsQuiet)

  accept_entry-IsQuiet : (e : Entry) (n : Node) → IsQuiet n (accept_entry codec e n).0
  unfolding accept_entry
  accept_entry-IsQuiet e n = ground (
    arith,
    append_entry-IsQuiet e n,
    truncate_conflict-IsQuiet e n,
    append_entry-IsQuiet e (truncate_conflict codec e n).0,
  )

  pub accept_entries-IsQuiet :
      (es : List Entry) (n : Node) → IsQuiet n (accept_entries codec es n).0
  unfolding accept_entries
  accept_entries-IsQuiet [] n = IsQuiet-refl n
  accept_entries-IsQuiet (e ∷ es) n =
      ground (arith, accept_entry-IsQuiet e n, accept_entries-IsQuiet es (accept_entry codec e n).0)

  propose_members-IsQuiet : (m : Members) (n : Node) → IsQuiet n (propose_members codec m n).0
  unfolding propose_members broadcast_append
  propose_members-IsQuiet m n = grind (arith, advance_commit-IsQuiet, apply_config-IsQuiet)

  propose_config-IsQuiet :
      (f : Members → Checked Members) (n : Node) → IsQuiet n (propose_config codec f n).0
  unfolding propose_config
  propose_config-IsQuiet f n = grind (arith, propose_members-IsQuiet)

  pub add_member-IsQuiet : (id addr : Str) (n : Node) → IsQuiet n (add_member codec id addr n).0
  unfolding add_member
  add_member-IsQuiet id addr n = grind (arith, propose_config-IsQuiet)

  pub remove_member-IsQuiet : (id : Str) (n : Node) → IsQuiet n (remove_member codec id n).0
  unfolding remove_member
  remove_member-IsQuiet id n = propose_config-IsQuiet _ n

pub follow_commit-IsQuiet : (i : ℕ) (n : Node) → IsQuiet n (follow_commit i n)
unfolding follow_commit
follow_commit-IsQuiet i n = ground arith

pub propose-IsQuiet : (c : Str) (n : Node) → IsQuiet n (propose c n).0
unfolding propose broadcast_append
propose-IsQuiet c n = grind (arith, advance_commit-IsQuiet)

pub send_append_begin-IsQuiet : (p : Str) (t : ℕ) (n : Node) → IsQuiet n (send_append_begin p t n).0
unfolding send_append_begin
send_append_begin-IsQuiet p t n = ground arith

module _ {S : Type 0} (codec : MembersCodec) (machine : Snapshotter S) where
  pub send_snapshot_begin-IsQuiet :
      (p : Str) (t : ℕ) (n : Node) → IsQuiet n (send_snapshot_begin codec p t n).0
  unfolding send_snapshot_begin
  send_snapshot_begin-IsQuiet p t n = ground arith
