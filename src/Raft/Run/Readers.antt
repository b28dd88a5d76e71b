-- ===== src/Raft/Run/Readers.antt =====
-- internal/raft/readindex.go: the waiting readers and the applied index, over the steps of a
-- node.
use link_raft.Prelude.{
  ℕ, ◌<◌, ◌≡◌, ◌⊎◌, inl, inr, false, not, ◌||◌, some, List, [], ◌∷◌, ltb, ltb→lt, leb, All,
  All-append, select, arith, tt, Bool-cases, Option-cases, inc64,
}
use link_raft.Raft.Log.{entry_at}
use link_raft.Raft.Node.{Node, follow_leader, InstallSnapshotRequest, Members}
use link_raft.Raft.Membership.{MembersCodec, remove_nat}
use link_raft.Raft.Reads.{wait_applied, notify_apply_waiters, apply_begin, apply_end}
use link_raft.Raft.Compaction.{Snapshotter, install, snap_members_of, handle_install_snapshot}
use link_raft.Raft.Start.{new_node, assemble, Config, World, Disk}
use link_raft.Raft.Run.{
  disk_of, Step, waits, ticks, pre_vote_ends, vote_ends, votes, appends, installs, sends, send_ends,
  snapshot_sends, snapshot_send_ends, confirms, proposes, gives_up, adds, removes, reads, applies,
  applied, snapshots, crashes, Reach, here, next,
}
use link_raft.Raft.Run.Quiet.{
  apply_config-IsQuiet, propose-IsQuiet, add_member-IsQuiet, remove_member-IsQuiet,
  send_append_begin-IsQuiet, send_snapshot_begin-IsQuiet,
}
use link_raft.Raft.Run.SameReaders.{
  SameReaders, IsQuiet-SameReaders, follow_leader-SameReaders, handle_request_vote-SameReaders,
  tick-SameReaders, on_pre_vote-SameReaders, on_vote-SameReaders, send_append_end-SameReaders,
  send_snapshot_end-SameReaders, confirm_response-SameReaders, give_up-SameReaders,
  handle_append_entries-SameReaders, maybe_snapshot_end-SameReaders,
}

-- Every reader that waits, waits for an index above the applied one.
abbrev pub IsPrompt : Node → Type 0
IsPrompt n = All (λ w. n.last_applied < w) n.apply_waiters

SameReaders-IsPrompt : {n m : Node} → SameReaders n m → IsPrompt n → IsPrompt m
SameReaders-IsPrompt s h = rw (s.same_applied, s.same_readers) h

select-above : (a : ℕ) (ws : List ℕ) → All (λ w. a < w) (select (λ w. ltb a w) ws)
select-above a [] = tt
select-above a (w ∷ ws) = elim (Bool-cases (ltb a w)) [
  | inl above ↦ rw above (ltb→lt a w above, select-above a ws)
  | inr below ↦ rw below (select-above a ws)
]

notify_apply_waiters-IsPrompt : (n : Node) → IsPrompt (notify_apply_waiters n)
unfolding notify_apply_waiters
notify_apply_waiters-IsPrompt n = select-above n.last_applied n.apply_waiters

above-of_leb : (i a : ℕ) → leb i a ≡ false → a < i
above-of_leb i a h = ground arith

wait_applied-IsPrompt : (i : ℕ) (n : Node) → IsPrompt n → IsPrompt (wait_applied i n).0
unfolding wait_applied
wait_applied-IsPrompt i n h = elim (Bool-cases (leb i n.last_applied)) [
  | inl done ↦ rw done h
  | inr waiting ↦ rw waiting (
      All-append (λ w. n.last_applied < w) n.apply_waiters (i ∷ []) h
        (above-of_leb i n.last_applied waiting, tt))
]

apply_begin-IsPrompt : (n : Node) → IsPrompt n → IsPrompt (apply_begin n).0
unfolding apply_begin
apply_begin-IsPrompt n h = elim (Bool-cases (leb n.commit_index n.last_applied)) [
  | inl idle_ ↦ rw idle_ h
  | inr behind ↦ elim (Option-cases (entry_at (inc64 n.last_applied) n.log)) [
    | inl none_ ↦
        rw (behind, none_)
          (notify_apply_waiters-IsPrompt (record n {
            last_applied = inc64 n.last_applied;
            waiters = remove_nat (inc64 n.last_applied) n.waiters;
          }))
    | inr (e, some_) ↦ rw (behind, some_) h
  ]
]

apply_end-IsPrompt : (i : ℕ) (n : Node) → IsPrompt (apply_end i n)
unfolding apply_end
apply_end-IsPrompt i n = grind (arith, notify_apply_waiters-IsPrompt)

readers-new_node :
    (codec : MembersCodec) (cfg : Config) (d : Disk) (w : World) {m : Node}
    → new_node codec cfg d w ≡ some m
    → m.apply_waiters ≡ []
unfolding new_node assemble
readers-new_node codec cfg d w e = ground arith

new_node-IsPrompt :
    (codec : MembersCodec) (cfg : Config) (d : Disk) (w : World) {m : Node}
    → new_node codec cfg d w ≡ some m
    → IsPrompt m
new_node-IsPrompt codec cfg d w e = rw (readers-new_node codec cfg d w e) tt

module _ {S : Type 0} (codec : MembersCodec) (machine : Snapshotter S) where
  install-SameReaders :
      (req : InstallSnapshotRequest) (members : Members) (n : Node) (s : S)
      → let m = (install codec machine req members n s).0 in
        SameReaders n m
        ⊎ SameReaders (notify_apply_waiters (record n { last_applied = req.last_included_index })) m
  unfolding install notify_apply_waiters
  install-SameReaders req members n s = grind (arith, apply_config-IsQuiet)

  install-IsPrompt :
      (req : InstallSnapshotRequest) (members : Members) (n : Node) (s : S)
      → IsPrompt n
      → IsPrompt (install codec machine req members n s).0
  install-IsPrompt req members n s h = elim (install-SameReaders req members n s) [
    | inl same ↦ SameReaders-IsPrompt same h
    | inr moved ↦ SameReaders-IsPrompt moved (notify_apply_waiters-IsPrompt _)
  ]

  handle_install_snapshot-IsPrompt :
      (req : InstallSnapshotRequest) (n : Node) (s : S)
      → IsPrompt n
      → IsPrompt (handle_install_snapshot codec machine req n s).0
  unfolding handle_install_snapshot
  handle_install_snapshot-IsPrompt req n s h =
      let led = follow_leader req.term req.leader_id n in
      let kept = SameReaders-IsPrompt (follow_leader-SameReaders req.term req.leader_id n) h in
      elim (Bool-cases (ltb req.term n.current_term)) [
        | inl old ↦ rw old h
        | inr current ↦
            elim (Bool-cases
              (leb req.last_included_index led.commit_index || not led.has_snapshotter)) [
                | inl covered ↦ rw (current, covered) kept
                | inr wanted ↦ elim (Option-cases (snap_members_of codec machine req)) [
                  | inl unread ↦ rw (current, wanted, unread) kept
                  | inr (members, decoded) ↦
                      rw (current, wanted, decoded) (install-IsPrompt req members led s kept)
                ]
              ]
      ]

  -- Each step of a node keeps every waiting reader's index above the applied one: whatever moves the
  -- applied index wakes the readers that it reaches.
  pub Step-IsPrompt : {n m : Node} → Step codec machine n m → IsPrompt n → IsPrompt m
  Step-IsPrompt (waits now draws io) h = h
  Step-IsPrompt {n} (ticks fit) h = SameReaders-IsPrompt (tick-SameReaders n) h
  Step-IsPrompt {n} (pre_vote_ends r resp fit) h =
      SameReaders-IsPrompt (on_pre_vote-SameReaders r resp n) h
  Step-IsPrompt {n} (vote_ends r resp) h = SameReaders-IsPrompt (on_vote-SameReaders r resp n) h
  Step-IsPrompt {n} (votes req) h = SameReaders-IsPrompt (handle_request_vote-SameReaders req n) h
  Step-IsPrompt {n} (appends req) h =
      SameReaders-IsPrompt (handle_append_entries-SameReaders codec req n) h
  Step-IsPrompt {n} (installs req s) h = handle_install_snapshot-IsPrompt req n s h
  Step-IsPrompt {n} (sends p term) h =
      SameReaders-IsPrompt (IsQuiet-SameReaders (send_append_begin-IsQuiet p term n)) h
  Step-IsPrompt {n} (send_ends p term req resp) h =
      SameReaders-IsPrompt (send_append_end-SameReaders p term req resp n) h
  Step-IsPrompt {n} (snapshot_sends p term) h =
      SameReaders-IsPrompt
        (IsQuiet-SameReaders (send_snapshot_begin-IsQuiet codec machine p term n)) h
  Step-IsPrompt {n} (snapshot_send_ends p term req resp) h =
      SameReaders-IsPrompt (send_snapshot_end-SameReaders p term req resp n) h
  Step-IsPrompt {n} (confirms term resp) h =
      SameReaders-IsPrompt (confirm_response-SameReaders term resp n) h
  Step-IsPrompt {n} (proposes cmd) h =
      SameReaders-IsPrompt (IsQuiet-SameReaders (propose-IsQuiet cmd n)) h
  Step-IsPrompt {n} (gives_up i) h = SameReaders-IsPrompt (give_up-SameReaders i n) h
  Step-IsPrompt {n} (adds id addr) h =
      SameReaders-IsPrompt (IsQuiet-SameReaders (add_member-IsQuiet codec id addr n)) h
  Step-IsPrompt {n} (removes id) h =
      SameReaders-IsPrompt (IsQuiet-SameReaders (remove_member-IsQuiet codec id n)) h
  Step-IsPrompt {n} (reads i) h = wait_applied-IsPrompt i n h
  Step-IsPrompt {n} applies h = apply_begin-IsPrompt n h
  Step-IsPrompt {n} (applied i) h = apply_end-IsPrompt i n
  Step-IsPrompt {n} (snapshots p c s le) h =
      SameReaders-IsPrompt (maybe_snapshot_end-SameReaders machine p c n s) h
  Step-IsPrompt {n} (crashes cfg w e) h = new_node-IsPrompt codec cfg (disk_of n) w e

  Reach-IsPrompt : {n m : Node} → Reach codec machine n m → IsPrompt n → IsPrompt m
  Reach-IsPrompt here h = h
  Reach-IsPrompt (next r s) h = Step-IsPrompt s (Reach-IsPrompt r h)

  -- From its start, through any steps, a node has no reader left waiting for an index that is
  -- applied: every index that a reader still waits for is above the applied one. No election of these
  -- steps passes the largest uint64 term.
  pub new_node-Reach_IsPrompt :
      (cfg : Config) (d : Disk) (w : World) {n m : Node}
      → new_node codec cfg d w ≡ some n
      → Reach codec machine n m
      → All (λ i. m.last_applied < i) m.apply_waiters
  new_node-Reach_IsPrompt cfg d w e r = Reach-IsPrompt r (new_node-IsPrompt codec cfg d w e)
