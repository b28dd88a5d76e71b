-- ===== src/Raft/Run/Snapshots.antt =====
-- internal/raft/raft.go: `maybeSnapshot` with nothing between its two locked parts, as a step.
use link_raft.Prelude.{◌≤◌, ◌≡◌, ◌⊎◌, refl, inl, inr, Str, Option, none, some, arith}
use link_raft.Raft.Node.{Node}
use link_raft.Raft.Membership.{MembersCodec}
use link_raft.Raft.Compaction.{
  SnapPoint, Snapshotter, maybe_snapshot_begin, maybe_snapshot_end, maybe_snapshot,
}
use link_raft.Raft.Run.{Step, snapshots}

index-maybe_snapshot_begin :
    (n : Node) (p : SnapPoint) → maybe_snapshot_begin n ≡ some p → p.index ≤ n.last_applied
unfolding maybe_snapshot_begin
index-maybe_snapshot_begin n p h = ground arith

module _ {S : Type 0} (codec : MembersCodec) (machine : Snapshotter S) (n : Node) (s : S) where
  -- Nothing has been done, or the second part.
  abbrev IsStep : Node → Type 0
  IsStep m = (m ≡ n) ⊎ Step codec machine n m

  abbrev finished : SnapPoint → Option Str → Node × S
  finished p none = (n, s)
  finished p (some content) = maybe_snapshot_end machine p content n s

  abbrev taken : Option SnapPoint → Node × S
  taken none = (n, s)
  taken (some p) = finished p (machine.snapshot s)

  finished-IsStep :
      (p : SnapPoint) → p.index ≤ n.last_applied → (c : Option Str) → IsStep (finished p c).0
  finished-IsStep p le none = inl refl
  finished-IsStep p le (some content) = inr (snapshots p content s le)

  taken-IsStep : (o : Option SnapPoint) → maybe_snapshot_begin n ≡ o → IsStep (taken o).0
  taken-IsStep none e = inl refl
  taken-IsStep (some p) e =
      finished-IsStep p (index-maybe_snapshot_begin n p e) (machine.snapshot s)

  maybe_snapshot-IsStep : IsStep (maybe_snapshot machine n s).0
  unfolding maybe_snapshot
  maybe_snapshot-IsStep = taken-IsStep (maybe_snapshot_begin n) refl
