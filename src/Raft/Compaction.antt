-- ===== src/Raft/Compaction.antt =====
-- internal/raft/raft.go and snapshot.go: snapshots and their transfer.
use link_raft.Prelude.{
  ℕ, Str, is_empty, str_eq, Bool, true, false, not, ◌||◌, Option, none, some, [], ltb, leb, ◌==◌,
  if◌then◌else◌, inc64, sub64, select, length,
}
use link_raft.Prelude.Dict.{insert}
use link_raft.Journal.{is_fine}
use link_raft.Raft.Log.{term_at, compact_to}
use link_raft.Raft.Node.{
  Node, Members, Snapshot, InstallSnapshotRequest, InstallSnapshotResponse, is_leader, next_io,
  later_io, set_log, become_follower, follow_leader,
}
use link_raft.Raft.Membership.{MembersCodec, apply_config}
use link_raft.Raft.Replication.{index_of}
use link_raft.Raft.Reads.{notify_apply_waiters}

-- `Snapshotter`, which the state machine implements. A Boolean says that no error was returned.
pub record Snapshotter (S : Type 0) : Type 0 where
  pub snapshot : S → Option Str
  pub restore : ℕ → Str → S → S × Bool
  pub compacted : ℕ → S → S × Bool

-- `SaveSnapshot`: the old file stays unless every step up to the rename succeeds.
unfoldable pub save_snapshot : Snapshot → Node → Node × Bool
save_snapshot snap n =
    if is_fine (next_io n.io)
    then (record n { snapshot = some snap; io = later_io n.io }, true)
    else (record n { io = later_io n.io }, false)

abbrev pub leave_flight : Str → Node → Node
leave_flight peer n = record n {
  snap_in_flight = select (λ p. not (str_eq p peer)) n.snap_in_flight;
}

-- What the goroutine of `maybeSnapshot` reads under its first lock: index, term, configuration.
pub record SnapPoint : Type 0 where
  pub index : ℕ
  pub term : ℕ
  pub members : Members

-- `maybeSnapshot` up to the serialization of the state machine.
unfoldable pub maybe_snapshot_begin : Node → Option SnapPoint
maybe_snapshot_begin n =
    let idx = n.last_applied in
    if not n.has_snapshotter
    then none
    else if idx == 0 || ltb (sub64 idx n.log.snap_index) n.snapshot_threshold
    then none
    else if term_at idx n.log == 0
    then none
    else some (record { index = idx; term = term_at idx n.log; members = n.members })

module _ {S : Type 0} (machine : Snapshotter S) where
  -- The rest of `maybeSnapshot`.
  unfoldable pub maybe_snapshot_end : SnapPoint → Str → Node → S → Node × S
  unfolding save_snapshot
  maybe_snapshot_end p content n s =
      let snap : Snapshot = record {
        index = p.index;
        term = p.term;
        content = content;
        members = p.members;
      } in
      let (saved, ok) = save_snapshot snap n in
      let noted = record saved { snap_members = p.members } in
      let compact = compact_to (next_io noted.io) p.index p.term noted.log in
      if leb p.index n.log.snap_index
      then (n, s)
      else if not ok
      then (saved, s)
      else if not compact.1
      then (set_log noted compact, s)
      else (set_log noted compact, (machine.compacted p.index s).0)

  -- `maybeSnapshot` with nothing between its two locked parts. (In the source an `InstallSnapshot` can come
  -- between them, which the test at the head of the second part is for.)
  unfoldable pub maybe_snapshot : Node → S → Node × S
  maybe_snapshot n s = elim (maybe_snapshot_begin n) [
    | none ↦ (n, s)
    | some p ↦ elim (machine.snapshot s) [
      | none ↦ (n, s)
      | some content ↦ maybe_snapshot_end p content n s
    ]
  ]

module _ (codec : MembersCodec) where
  -- `sendSnapshot` up to the call, on the snapshot file; `none` if there is nothing to send.
  unfoldable pub send_snapshot_begin : Str → ℕ → Node → Node × Option InstallSnapshotRequest
  send_snapshot_begin peer term n = elim n.snapshot [
    | none ↦ (leave_flight peer n, none)
    | some snap ↦ (
      n,
      some (record {
        term = term;
        leader_id = n.id;
        last_included_index = snap.index;
        last_included_term = snap.term;
        content = snap.content;
        members = if leb 1 (length snap.members) then codec.encode snap.members else [];
      }),
    )
  ]

-- `sendSnapshot` after the call; `none` is an error of the call.
unfoldable pub send_snapshot_end :
    Str → ℕ → InstallSnapshotRequest → Option InstallSnapshotResponse → Node → Node
send_snapshot_end peer term req none n = leave_flight peer n
send_snapshot_end peer term req (some resp) n =
    let old = index_of peer n.match_index in
    let match = if ltb old req.last_included_index then req.last_included_index else old in
    leave_flight peer (
      if ltb n.current_term resp.term
      then become_follower resp.term n
      else if not (is_leader n.state) || not (n.current_term == term)
      then n
      else record n {
        match_index =
            if ltb old req.last_included_index
            then insert peer req.last_included_index n.match_index
            else n.match_index;
        next_index = insert peer (inc64 match) n.next_index;
      })

module _ {S : Type 0} (codec : MembersCodec) (machine : Snapshotter S) where
  -- The configuration in the request: `none` if it cannot be decoded.
  unfoldable pub snap_members_of : InstallSnapshotRequest → Option Members
  snap_members_of req = if is_empty req.members then some [] else codec.decode req.members

  -- The part of `handleInstallSnapshot` behind its guards.
  unfoldable pub install : InstallSnapshotRequest → Members → Node → S → Node × S
  unfolding save_snapshot notify_apply_waiters
  install req members n s =
      let snap : Snapshot = record {
        index = req.last_included_index;
        term = req.last_included_term;
        content = req.content;
        members = members;
      } in
      let (saved, ok) = save_snapshot snap n in
      let (s', restored) = machine.restore req.last_included_index req.content s in
      let compact =
        compact_to (next_io saved.io) req.last_included_index req.last_included_term saved.log in
      let moved = notify_apply_waiters (record (set_log saved compact) {
        commit_index = req.last_included_index;
        last_applied = req.last_included_index;
      }) in
      let noted = record moved { snap_members = members } in
      if not ok
      then (saved, s)
      else if not restored
      then (saved, s')
      else if not (leb 1 (length members))
      then (moved, s')
      else if leb noted.config_index req.last_included_index
      then (apply_config members req.last_included_index noted, s')
      else (noted, s')

  -- `handleInstallSnapshot`
  unfoldable pub handle_install_snapshot :
      InstallSnapshotRequest → Node → S → Node × S × InstallSnapshotResponse
  unfolding snap_members_of
  handle_install_snapshot req n s =
      if ltb req.term n.current_term
      then (n, s, record { term = n.current_term })
      else let led = follow_leader req.term req.leader_id n in
        if leb req.last_included_index led.commit_index || not led.has_snapshotter
        then (led, s, record { term = led.current_term })
        else elim (snap_members_of req) [
          | none ↦ (led, s, record { term = led.current_term })
          | some members ↦
              (let (done, s') = install req members led s in
                (done, s', record { term = led.current_term }))
        ]
