-- ===== src/Raft/Run/WellFormed.antt =====
-- internal/raft/raft.go: the log in memory, over the steps of a node.
use link_raft.Prelude.{
  Str, ◌+◌, ◌≤◌, ◌<◌, ◌≡◌, sym, inl, inr, true, length, arith, subst, Bool-cases, u64_mod,
}
use link_raft.Raft.Log.{Log, last_index}
use link_raft.Raft.Log.Bounds.{Consecutive, IsWellFormed}
use link_raft.Raft.Log.Invariant.{compact_to-IsWellFormed}
use link_raft.Raft.Node.{
  Node, next_io, later_io, follow_leader, AppendEntriesRequest, InstallSnapshotRequest, Members,
}
use link_raft.Raft.Membership.{MembersCodec, remove_member, remove_from}
use link_raft.Raft.Replication.{is_consistent, handle_append_entries, accept_entries}
use link_raft.Raft.Replication.Matching.{accept_entries-Followed, log-apply_config}
use link_raft.Raft.Compaction.{
  SnapPoint, Snapshotter, maybe_snapshot_end, install, handle_install_snapshot,
}
use link_raft.Raft.Run.{
  Step, waits, ticks, pre_vote_ends, vote_ends, votes, appends, installs, sends, send_ends,
  snapshot_sends, snapshot_send_ends, confirms, proposes, gives_up, adds, removes, reads, applies,
  applied, snapshots, crashes,
}
use link_raft.Raft.Run.Leader.{log-send_append_begin, log-send_snapshot_begin}
use link_raft.Raft.Run.Keeps.{log-maybe_snapshot_end}
use link_raft.Raft.Run.Grown.{
  IsGrown, tick-IsGrown, on_pre_vote-IsGrown, on_vote-IsGrown, log-handle_request_vote,
  log-send_append_end, log-send_snapshot_end, log-confirm_response, log-give_up, log-wait_applied,
  log-apply_begin, log-apply_end, propose-IsGrown, log-follow_leader, log-follow_commit,
  propose_config-IsGrown, add_member-IsGrown,
}

module _ (codec : MembersCodec) where
  consistent :
      (req : AppendEntriesRequest) (n : Node)
      → is_consistent req n ≡ true
      → req.prev_log_index ≤ last_index n.log
  unfolding is_consistent
  consistent req n yes_ = ground arith

  handle_append_entries-IsWellFormed :
      (req : AppendEntriesRequest) (n : Node)
      → IsWellFormed n.log
      → Consecutive (req.prev_log_index + 1) req.entries
      → req.prev_log_index + length req.entries + 1 < u64_mod
      → IsWellFormed (handle_append_entries codec req n).0.log
  unfolding handle_append_entries
  handle_append_entries-IsWellFormed req n w c room =
      let led = follow_leader req.term req.leader_id n in
      let wl = subst IsWellFormed (sym (log-follow_leader req.term req.leader_id n)) w in
      elim (Bool-cases (is_consistent req led)) [
        | inl agreed ↦
            let f =
              accept_entries-Followed codec req.prev_log_index req.entries led wl c
                (consistent req led agreed) room in
            let taken = f.formed in
            ground (
              arith,
              agreed,
              wl,
              taken,
              log-follow_commit req.leader_commit (accept_entries codec req.entries led).0,
            )
        | inr differs ↦ ground (arith, differs, wl)
      ]

  module _ {S : Type 0} (machine : Snapshotter S) where
    maybe_snapshot_end-IsWellFormed :
        (p : SnapPoint) (c : Str) (n : Node) (s : S)
        → p.index + 1 < u64_mod
        → IsWellFormed n.log
        → IsWellFormed (maybe_snapshot_end machine p c n s).0.log
    maybe_snapshot_end-IsWellFormed p c n s room w =
        elim (log-maybe_snapshot_end codec machine p c n s) [
          | inl same ↦ rw same w
          | inr compacted ↦
              rw compacted
                (compact_to-IsWellFormed (next_io (later_io n.io)) n.log w p.index p.term room)
        ]

    install-IsWellFormed :
        (req : InstallSnapshotRequest) (m : Members) (n : Node) (s : S)
        → req.last_included_index + 1 < u64_mod
        → IsWellFormed n.log
        → IsWellFormed (install codec machine req m n s).0.log
    unfolding install
    install-IsWellFormed req m n s room w =
        grind (arith, w, compact_to-IsWellFormed, log-apply_config)

    handle_install_snapshot-IsWellFormed :
        (req : InstallSnapshotRequest) (n : Node) (s : S)
        → req.last_included_index + 1 < u64_mod
        → IsWellFormed n.log
        → IsWellFormed (handle_install_snapshot codec machine req n s).0.log
    unfolding handle_install_snapshot
    handle_install_snapshot-IsWellFormed req n s room w =
        let wl = subst IsWellFormed (sym (log-follow_leader req.term req.leader_id n)) w in
        grind (arith, wl, w, install-IsWellFormed)

    -- The steps that the theorem speaks of: no crash, and requests as a leader makes them, whose
    -- entries follow the previous index and whose indexes stay below 2^64.
    abbrev pub IsRegular : {n m : Node} → Step codec machine n m → Type 0
    IsRegular (appends req) =
        Consecutive (req.prev_log_index + 1) req.entries
        × (req.prev_log_index + length req.entries + 1 < u64_mod)
    IsRegular (installs req s) = req.last_included_index + 1 < u64_mod
    IsRegular (crashes cfg w e) = ⊥
    IsRegular _ = Unit

    module _ (n : Node) (w : IsWellFormed n.log) (room : last_index n.log + 2 < u64_mod)
        (in_range : n.last_applied + 1 < u64_mod) where
      grown : {l : Log} → IsGrown n.log l → IsWellFormed l
      grown g = g.formed w room

      -- A step of a node without a crash, whose requests are as a leader makes them, keeps the log in
      -- memory well formed, if there is room below 2^64 for two more entries and for the applied index;
      -- file errors are included.
      pub Step-IsWellFormed :
          {m : Node} (step : Step codec machine n m) → IsRegular step → IsWellFormed m.log
      Step-IsWellFormed (waits now draws io) r = w
      Step-IsWellFormed (ticks fit) r = grown (tick-IsGrown n)
      Step-IsWellFormed (pre_vote_ends rd resp fit) r = grown (on_pre_vote-IsGrown rd resp n)
      Step-IsWellFormed (vote_ends rd resp) r = grown (on_vote-IsGrown rd resp n)
      Step-IsWellFormed (votes req) r = rw (log-handle_request_vote req n) w
      Step-IsWellFormed (appends req) (c, fit) = handle_append_entries-IsWellFormed req n w c fit
      Step-IsWellFormed (installs req s) r = handle_install_snapshot-IsWellFormed req n s r w
      Step-IsWellFormed (sends p term) r = rw (log-send_append_begin p term n) w
      Step-IsWellFormed (send_ends p term req resp) r = rw (log-send_append_end p term req resp n) w
      Step-IsWellFormed (snapshot_sends p term) r =
          rw (log-send_snapshot_begin codec machine p term n) w
      Step-IsWellFormed (snapshot_send_ends p term req resp) r =
          rw (log-send_snapshot_end p term req resp n) w
      Step-IsWellFormed (confirms term resp) r = rw (log-confirm_response term resp n) w
      Step-IsWellFormed (proposes cmd) r = grown (propose-IsGrown cmd n)
      Step-IsWellFormed (gives_up i) r = rw (log-give_up i n) w
      Step-IsWellFormed (adds id addr) r = grown (add_member-IsGrown codec id addr n)
      Step-IsWellFormed (removes id) r =
          grown (unfold remove_member in propose_config-IsGrown codec (remove_from n.id id) n)
      Step-IsWellFormed (reads i) r = rw (log-wait_applied i n) w
      Step-IsWellFormed applies r = rw (log-apply_begin n) w
      Step-IsWellFormed (applied i) r = rw (log-apply_end i n) w
      Step-IsWellFormed (snapshots p c s le) r =
          maybe_snapshot_end-IsWellFormed p c n s (omega (arith, le, in_range)) w
      Step-IsWellFormed (crashes cfg d e) r = elim r [ ]
