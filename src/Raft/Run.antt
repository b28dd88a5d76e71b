-- ===== src/Raft/Run.antt =====
-- The steps that one node can take, in any order: its timer, its RPC handlers, the ends of its own
-- calls, its clients' requests, the apply loop, and a crash with a start from its files.
pub mod Frame
pub mod Quiet
pub mod SameReaders
pub mod Readers
pub mod Steady
pub mod Keeps
pub mod Leader
pub mod Grown
pub mod WellFormed
pub mod Votes
pub mod Snapshots
pub mod Ballots
pub mod Elections
use link_raft.Prelude.{ℕ, ◌+◌, ◌<◌, ◌≤◌, ◌≡◌, Str, Bool, Option, some, List, u64_mod}
use link_raft.Journal.{Io}
use link_raft.Raft.Node.{
  Node, RequestVoteRequest, RequestVoteResponse, AppendEntriesRequest, AppendEntriesResponse,
  InstallSnapshotRequest, InstallSnapshotResponse,
}
use link_raft.Raft.Election.{Round, tick, on_pre_vote, on_vote, handle_request_vote}
use link_raft.Raft.Membership.{MembersCodec, add_member, remove_member}
use link_raft.Raft.Replication.{
  propose, give_up, send_append_begin, send_append_end, handle_append_entries,
}
use link_raft.Raft.Reads.{confirm_response, wait_applied, apply_begin, apply_end}
use link_raft.Raft.Compaction.{
  SnapPoint, Snapshotter, maybe_snapshot_end, send_snapshot_begin, send_snapshot_end,
  handle_install_snapshot,
}
use link_raft.Raft.Start.{Config, Disk, World, new_node}

-- What a crash leaves.
abbrev pub disk_of : Node → Disk
disk_of n = record { meta = n.meta; snapshot = n.snapshot; journal = n.log.file }

module _ {S : Type 0} (codec : MembersCodec) (machine : Snapshotter S) where
  -- The premises keep an election from passing the largest uint64 term. `snapshots` is the second locked
  -- part of `maybeSnapshot`, at a point that an earlier state has given: the first part changes nothing, and
  -- any steps may come between them.
  pub data Step (n : Node) : Node → Type 0 where
    waits :
        (now : ℕ) (draws : List ℕ) (io : List Io)
        → Step n (record n { now = now; draws = draws; io = io })
    ticks : n.current_term + 1 < u64_mod → Step n (tick n).0
    pre_vote_ends :
        (r : Round) (resp : RequestVoteResponse)
        → n.current_term + 1 < u64_mod
        → Step n (on_pre_vote r resp n).0
    vote_ends : (r : Round) (resp : RequestVoteResponse) → Step n (on_vote r resp n).0
    votes : (req : RequestVoteRequest) → Step n (handle_request_vote req n).0
    appends : (req : AppendEntriesRequest) → Step n (handle_append_entries codec req n).0
    installs :
        (req : InstallSnapshotRequest) (s : S)
        → Step n (handle_install_snapshot codec machine req n s).0
    sends : (peer : Str) (term : ℕ) → Step n (send_append_begin peer term n).0
    send_ends :
        (peer : Str) (term : ℕ) (req : AppendEntriesRequest) (resp : AppendEntriesResponse)
        → Step n (send_append_end peer term req resp n)
    snapshot_sends : (peer : Str) (term : ℕ) → Step n (send_snapshot_begin codec peer term n).0
    snapshot_send_ends :
        (peer : Str) (term : ℕ) (req : InstallSnapshotRequest)
        (resp : Option InstallSnapshotResponse)
        → Step n (send_snapshot_end peer term req resp n)
    confirms :
        (term : ℕ) (resp : Option AppendEntriesResponse) → Step n (confirm_response term resp n).0
    proposes : (command : Str) → Step n (propose command n).0
    gives_up : (index : ℕ) → Step n (give_up index n)
    adds : (id addr : Str) → Step n (add_member codec id addr n).0
    removes : (id : Str) → Step n (remove_member codec id n).0
    reads : (index : ℕ) → Step n (wait_applied index n).0
    applies : Step n (apply_begin n).0
    applied : (idx : ℕ) → Step n (apply_end idx n)
    snapshots :
        (p : SnapPoint) (content : Str) (s : S)
        → p.index ≤ n.last_applied
        → Step n (maybe_snapshot_end machine p content n s).0
    crashes :
        (cfg : Config) (w : World) {m : Node} → new_node codec cfg (disk_of n) w ≡ some m → Step n m

  pub data Reach (n : Node) : Node → Type 0 where
    here : Reach n n
    next : {m k : Node} → Reach n m → Step m k → Reach n k
