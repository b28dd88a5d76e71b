-- ===== src/Raft/Run/SameReaders.antt =====
-- The steps that leave the applied index and the waiting readers alone.
use link_raft.Prelude.{ℕ, ◌≡◌, refl, Str, Option, none, some, arith}
use link_raft.Raft.Node.{
  Node, RequestVoteRequest, RequestVoteResponse, become_follower, follow_leader, reset_election,
  broadcast_append, AppendEntriesRequest, AppendEntriesResponse, InstallSnapshotRequest,
  InstallSnapshotResponse,
}
use link_raft.Raft.Commit.{become_leader}
use link_raft.Raft.Election.{
  Round, tick, start_election, start_pre_vote, stand, open_round, on_pre_vote, on_vote,
  handle_request_vote, grant_vote,
}
use link_raft.Raft.Membership.{MembersCodec}
use link_raft.Raft.Replication.{handle_append_entries, accept_entries, send_append_end, give_up}
use link_raft.Raft.Reads.{confirm_response}
use link_raft.Raft.Compaction.{SnapPoint, Snapshotter, maybe_snapshot_end, send_snapshot_end}
use link_raft.Raft.Run.Quiet.{
  IsQuiet, advance_commit-IsQuiet, accept_entries-IsQuiet, follow_commit-IsQuiet,
}

pub record SameReaders (n m : Node) : Type 0 where
  pub same_applied : m.last_applied ≡ n.last_applied
  pub same_readers : m.apply_waiters ≡ n.apply_waiters

pub SameReaders-refl : (n : Node) → SameReaders n n
SameReaders-refl n = record { same_applied = refl; same_readers = refl }

pub IsQuiet-SameReaders : {n m : Node} → IsQuiet n m → SameReaders n m
IsQuiet-SameReaders q = record { same_applied = q.same_applied; same_readers = q.same_readers }

pub become_follower-SameReaders : (term : ℕ) (n : Node) → SameReaders n (become_follower term n)
unfolding become_follower
become_follower-SameReaders term n = ground arith

pub follow_leader-SameReaders :
    (term : ℕ) (l : Str) (n : Node) → SameReaders n (follow_leader term l n)
unfolding follow_leader
follow_leader-SameReaders term l n = ground (arith, become_follower-SameReaders term n)

pub become_leader-SameReaders : (n : Node) → SameReaders n (become_leader n)
unfolding become_leader broadcast_append
become_leader-SameReaders n =
    let s = advance_commit-IsQuiet _ in
    record { same_applied = s.same_applied; same_readers = s.same_readers }

pub handle_request_vote-SameReaders :
    (req : RequestVoteRequest) (n : Node) → SameReaders n (handle_request_vote req n).0
unfolding handle_request_vote grant_vote
handle_request_vote-SameReaders req n = ground (arith, become_follower-SameReaders req.term n)

pub start_election-SameReaders : (n : Node) → SameReaders n (start_election n).0
unfolding start_election stand open_round
start_election-SameReaders n = grind (arith, become_leader-SameReaders)

pub start_pre_vote-SameReaders : (n : Node) → SameReaders n (start_pre_vote n).0
unfolding start_pre_vote open_round reset_election
start_pre_vote-SameReaders n = grind (arith, start_election-SameReaders)

pub tick-SameReaders : (n : Node) → SameReaders n (tick n).0
unfolding tick broadcast_append
tick-SameReaders n = ground (arith, start_pre_vote-SameReaders n)

pub on_pre_vote-SameReaders :
    (r : Round) (resp : RequestVoteResponse) (n : Node) → SameReaders n (on_pre_vote r resp n).0
unfolding on_pre_vote
on_pre_vote-SameReaders r resp n =
    ground (arith, become_follower-SameReaders resp.term n, start_election-SameReaders n)

pub on_vote-SameReaders :
    (r : Round) (resp : RequestVoteResponse) (n : Node) → SameReaders n (on_vote r resp n).0
unfolding on_vote
on_vote-SameReaders r resp n =
    ground (arith, become_follower-SameReaders resp.term n, become_leader-SameReaders n)

pub send_append_end-SameReaders :
    (peer : Str) (term : ℕ) (req : AppendEntriesRequest) (resp : AppendEntriesResponse) (n : Node)
    → SameReaders n (send_append_end peer term req resp n)
unfolding send_append_end
send_append_end-SameReaders peer term req resp n =
    grind (arith, become_follower-SameReaders, advance_commit-IsQuiet)

pub send_snapshot_end-SameReaders :
    (peer : Str) (term : ℕ) (req : InstallSnapshotRequest) (resp : Option InstallSnapshotResponse)
    (n : Node)
    → SameReaders n (send_snapshot_end peer term req resp n)
unfolding send_snapshot_end
send_snapshot_end-SameReaders peer term req none n = ground arith
send_snapshot_end-SameReaders peer term req (some resp) n =
    ground (arith, become_follower-SameReaders resp.term n)

pub confirm_response-SameReaders :
    (term : ℕ) (resp : Option AppendEntriesResponse) (n : Node)
    → SameReaders n (confirm_response term resp n).0
unfolding confirm_response
confirm_response-SameReaders term none n = SameReaders-refl n
confirm_response-SameReaders term (some resp) n =
    ground (arith, become_follower-SameReaders resp.term n)

pub give_up-SameReaders : (i : ℕ) (n : Node) → SameReaders n (give_up i n)
unfolding give_up
give_up-SameReaders i n = record { same_applied = refl; same_readers = refl }

pub handle_append_entries-SameReaders :
    (codec : MembersCodec) (req : AppendEntriesRequest) (n : Node)
    → SameReaders n (handle_append_entries codec req n).0
unfolding handle_append_entries
handle_append_entries-SameReaders codec req n =
    let led = follow_leader req.term req.leader_id n in
    ground (
      arith,
      follow_leader-SameReaders req.term req.leader_id n,
      accept_entries-IsQuiet codec req.entries led,
      follow_commit-IsQuiet req.leader_commit (accept_entries codec req.entries led).0,
    )

module _ {S : Type 0} (machine : Snapshotter S) where
  pub maybe_snapshot_end-SameReaders :
      (p : SnapPoint) (c : Str) (n : Node) (s : S)
      → SameReaders n (maybe_snapshot_end machine p c n s).0
  unfolding maybe_snapshot_end
  maybe_snapshot_end-SameReaders p c n s = ground arith
