-- ===== src/Raft/Run/Leader.antt =====
-- internal/raft/raft.go: the log of a leader, over the steps of a node.
use link_raft.Prelude.{ℕ, ◌+◌, ◌<◌, ◌≡◌, refl, inl, inr, Str, true, some, arith, u64_mod}
use link_raft.Raft.Log.{Entry, entry_at, last_index}
use link_raft.Raft.Log.Bounds.{IsWellFormed}
use link_raft.Raft.Node.{Node, follower, is_leader, next_io, later_io}
use link_raft.Raft.Membership.{MembersCodec, remove_member, remove_from}
use link_raft.Raft.Replication.{send_append_begin}
use link_raft.Raft.Compaction.{SnapPoint, Snapshotter, maybe_snapshot_end, send_snapshot_begin}
use link_raft.Raft.Start.{new_node, assemble, Config, Disk, World}
use link_raft.Raft.Run.{
  disk_of, Step, waits, ticks, pre_vote_ends, vote_ends, votes, appends, installs, sends, send_ends,
  snapshot_sends, snapshot_send_ends, confirms, proposes, gives_up, adds, removes, reads, applies,
  applied, snapshots, crashes,
}
use link_raft.Raft.Run.Quiet.{
  IsQuiet, propose-IsQuiet, add_member-IsQuiet, remove_member-IsQuiet, send_append_begin-IsQuiet,
  send_snapshot_begin-IsQuiet,
}
use link_raft.Raft.Run.Steady.{
  IsSteady, tick-IsSteady, on_pre_vote-IsSteady, on_vote-IsSteady, handle_request_vote-IsSteady,
  send_append_end-IsSteady, send_snapshot_end-IsSteady, confirm_response-IsSteady, give_up-IsSteady,
  wait_applied-IsSteady, apply_begin-IsSteady, apply_end-IsSteady, handle_append_entries-IsSteady,
  handle_install_snapshot-IsSteady,
}
use link_raft.Raft.Run.Keeps.{
  KeepsEntries, KeepsEntries-same, compact_to-KeepsEntries, propose_config-KeepsEntries,
  log-maybe_snapshot_end, add_member-KeepsEntries, propose-KeepsEntries,
}

-- A node that leads before and after a step, in the same term, with every entry above its boundary.
record IsAppendOnly (n m : Node) : Type 0 where
  entries : is_leader n.state ≡ true → is_leader m.state ≡ true → KeepsEntries n.log m.log
  in_term : is_leader n.state ≡ true → is_leader m.state ≡ true → m.current_term ≡ n.current_term

IsSteady-IsAppendOnly : {n m : Node} → IsSteady n m → IsAppendOnly n m
IsSteady-IsAppendOnly s = record {
  entries = λ l k. KeepsEntries-same (s.same_log l k);
  in_term = s.same_term;
}

IsQuiet-IsAppendOnly : {n m : Node} → IsQuiet n m → KeepsEntries n.log m.log → IsAppendOnly n m
IsQuiet-IsAppendOnly q kept = record { entries = λ l k. kept; in_term = λ l k. q.same_term }

state-new_node :
    (codec : MembersCodec) (cfg : Config) (d : Disk) (w : World) {m : Node}
    → new_node codec cfg d w ≡ some m
    → m.state ≡ follower
unfolding new_node assemble
state-new_node codec cfg d w e = ground arith

pub log-send_append_begin : (p : Str) (t : ℕ) (n : Node) → (send_append_begin p t n).0.log ≡ n.log
unfolding send_append_begin
log-send_append_begin p t n = ground arith

module _ {S : Type 0} (codec : MembersCodec) (machine : Snapshotter S) where
  term-maybe_snapshot_end :
      (p : SnapPoint) (c : Str) (n : Node) (s : S)
      → (maybe_snapshot_end machine p c n s).0.current_term ≡ n.current_term
  unfolding maybe_snapshot_end
  term-maybe_snapshot_end p c n s = ground arith

  pub log-send_snapshot_begin :
      (p : Str) (t : ℕ) (n : Node) → (send_snapshot_begin codec p t n).0.log ≡ n.log
  unfolding send_snapshot_begin
  log-send_snapshot_begin p t n = ground arith

  maybe_snapshot_end-KeepsEntries :
      (p : SnapPoint) (c : Str) (n : Node) (s : S)
      → IsWellFormed n.log
      → p.index + 1 < u64_mod
      → KeepsEntries n.log (maybe_snapshot_end machine p c n s).0.log
  maybe_snapshot_end-KeepsEntries p c n s w room =
      elim (log-maybe_snapshot_end codec machine p c n s) [
        | inl same ↦ KeepsEntries-same same
        | inr compacted ↦
            rw compacted
              (compact_to-KeepsEntries (next_io (later_io n.io)) n.log p.index p.term w room)
      ]

  module _ {n : Node} (w : IsWellFormed n.log) (room : last_index n.log + 2 < u64_mod)
      (in_range : n.last_applied + 1 < u64_mod) where
    Step-IsAppendOnly : {m : Node} → Step codec machine n m → IsAppendOnly n m
    Step-IsAppendOnly (waits now draws io) =
        IsSteady-IsAppendOnly (record { same_log = λ l k. refl; same_term = λ l k. refl })
    Step-IsAppendOnly (ticks fit) = IsSteady-IsAppendOnly (tick-IsSteady n)
    Step-IsAppendOnly (pre_vote_ends r resp fit) =
        IsSteady-IsAppendOnly (on_pre_vote-IsSteady r resp n)
    Step-IsAppendOnly (vote_ends r resp) = IsSteady-IsAppendOnly (on_vote-IsSteady r resp n)
    Step-IsAppendOnly (votes req) = IsSteady-IsAppendOnly (handle_request_vote-IsSteady req n)
    Step-IsAppendOnly (appends req) =
        IsSteady-IsAppendOnly (handle_append_entries-IsSteady codec req n)
    Step-IsAppendOnly (installs req s) =
        IsSteady-IsAppendOnly (handle_install_snapshot-IsSteady codec machine req n s)
    Step-IsAppendOnly (sends p term) =
        IsQuiet-IsAppendOnly (send_append_begin-IsQuiet p term n)
          (KeepsEntries-same (log-send_append_begin p term n))
    Step-IsAppendOnly (send_ends p term req resp) =
        IsSteady-IsAppendOnly (send_append_end-IsSteady p term req resp n)
    Step-IsAppendOnly (snapshot_sends p term) =
        IsQuiet-IsAppendOnly (send_snapshot_begin-IsQuiet codec machine p term n)
          (KeepsEntries-same (log-send_snapshot_begin p term n))
    Step-IsAppendOnly (snapshot_send_ends p term req resp) =
        IsSteady-IsAppendOnly (send_snapshot_end-IsSteady p term req resp n)
    Step-IsAppendOnly (confirms term resp) =
        IsSteady-IsAppendOnly (confirm_response-IsSteady term resp n)
    Step-IsAppendOnly (proposes cmd) =
        IsQuiet-IsAppendOnly (propose-IsQuiet cmd n) (propose-KeepsEntries cmd n w room)
    Step-IsAppendOnly (gives_up i) = IsSteady-IsAppendOnly (give_up-IsSteady i n)
    Step-IsAppendOnly (adds id addr) =
        IsQuiet-IsAppendOnly (add_member-IsQuiet codec id addr n)
          (add_member-KeepsEntries codec id addr n w room)
    Step-IsAppendOnly (removes id) =
        IsQuiet-IsAppendOnly (remove_member-IsQuiet codec id n)
          (unfold remove_member in propose_config-KeepsEntries codec (remove_from n.id id) n w room)
    Step-IsAppendOnly (reads i) = IsSteady-IsAppendOnly (wait_applied-IsSteady i n)
    Step-IsAppendOnly applies = IsSteady-IsAppendOnly (apply_begin-IsSteady n)
    Step-IsAppendOnly (applied i) = IsSteady-IsAppendOnly (apply_end-IsSteady i n)
    Step-IsAppendOnly (snapshots p c s le) = record {
      entries = λ l k. maybe_snapshot_end-KeepsEntries p c n s w (omega (arith, le, in_range));
      in_term = λ l k. term-maybe_snapshot_end p c n s;
    }
    Step-IsAppendOnly (crashes cfg d e) =
        let stopped = state-new_node codec cfg (disk_of n) d e in
        record {
          entries = λ l k. ground (arith, stopped);
          in_term = λ l k. ground (arith, stopped);
        }

    -- A step of a node whose log is well formed, with room below 2^64 for the log and the applied
    -- index, that leads before and after it, with file errors and crashes included: the node leads in
    -- the same term, and every entry that its log had above the new snapshot boundary is still there.
    pub Step-leader_append_only :
        {m : Node} (i : ℕ) (e : Entry)
        → Step codec machine n m
        → is_leader n.state ≡ true
        → is_leader m.state ≡ true
        → m.log.snap_index < i
        → entry_at i n.log ≡ some e
        → (m.current_term ≡ n.current_term) × (entry_at i m.log ≡ some e)
    Step-leader_append_only i e step led leads above held =
        let a = Step-IsAppendOnly step in
        (a.in_term led leads, (a.entries led leads).kept i e above held)
