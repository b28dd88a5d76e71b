-- ===== src/Raft/Run/Votes.antt =====
-- internal/raft/raft.go: a vote in memory and on disk, over the steps of a node.
use link_raft.Prelude.{
  ℕ, ◌+◌, ◌<◌, ◌≡◌, ◌⊎◌, Str, is_empty, str_eq_iff, true, false, Option, none, some, u64_mod, inc64,
  arith,
}
use link_raft.Raft.Node.{
  Node, RequestVoteRequest, RequestVoteResponse, reset_election, become_follower, follow_leader,
  broadcast_append, AppendEntriesRequest, AppendEntriesResponse, InstallSnapshotRequest,
  InstallSnapshotResponse,
}
use link_raft.Raft.Election.{
  Round, tick, start_election, start_pre_vote, stand, vote_request, open_round, on_pre_vote,
  on_vote, handle_request_vote, grant_vote,
}
use link_raft.Raft.Membership.{MembersCodec}
use link_raft.Raft.Replication.{handle_append_entries, accept_entries, send_append_end, give_up}
use link_raft.Raft.Reads.{confirm_response}
use link_raft.Raft.Compaction.{Snapshotter, handle_install_snapshot, send_snapshot_end}
use link_raft.Raft.Start.{new_node, assemble, Config, World}
use link_raft.Raft.Run.{
  disk_of, Step, waits, ticks, pre_vote_ends, vote_ends, votes, appends, installs, sends, send_ends,
  snapshot_sends, snapshot_send_ends, confirms, proposes, gives_up, adds, removes, reads, applies,
  applied, snapshots, crashes, Reach, here, next,
}
use link_raft.Raft.Run.Frame.{
  SameVote, advance_commit-SameVote, become_leader-SameVote, accept_entries-SameVote,
  install-SameVote, follow_commit-SameVote, send_append_begin-SameVote,
  send_snapshot_begin-SameVote, propose-SameVote, add_member-SameVote, remove_member-SameVote,
  wait_applied-SameVote, apply_begin-SameVote, apply_end-SameVote, maybe_snapshot_end-SameVote,
}

-- The pair of a term and a vote can no longer vote for another than `c` in term `t`.
abbrev Settled : ℕ → Str → ℕ → Str → Type 0
Settled t c term voted_for = (t < term) ⊎ ((t ≡ term) × (c ≡ voted_for))

-- The vote of term `t` went to `c`, for good.
pub record HasVoted (t : ℕ) (c : Str) (n : Node) : Type 0 where
  pub in_memory : Settled t c n.current_term n.voted_for
  pub on_disk : Settled t c n.meta.term n.meta.voted_for

open_round-SameVote :
    (term : ℕ) (req : RequestVoteRequest) (n : Node) → SameVote n (open_round term req n).0
unfolding open_round
open_round-SameVote term req n = ground arith

reset_election-SameVote : (n : Node) → SameVote n (reset_election n)
unfolding reset_election
reset_election-SameVote n = ground arith

module _ (t : ℕ) (c : Str) (named : is_empty c ≡ false) where
  SameVote-HasVoted : (n m : Node) → SameVote n m → HasVoted t c n → HasVoted t c m
  SameVote-HasVoted n m s h = ground arith

  become_follower-HasVoted :
      (term : ℕ) (n : Node) → HasVoted t c n → HasVoted t c (become_follower term n)
  unfolding become_follower
  become_follower-HasVoted term n h = ground arith

  grant_vote-HasVoted :
      (cand : Str) (n : Node)
      → ((is_empty n.voted_for ≡ true) ⊎ (n.voted_for ≡ cand))
      → HasVoted t c n
      → HasVoted t c (grant_vote cand n).0
  unfolding grant_vote
  grant_vote-HasVoted cand n free h = ground arith

  handle_request_vote-HasVoted :
      (req : RequestVoteRequest) (n : Node)
      → HasVoted t c n
      → HasVoted t c (handle_request_vote req n).0
  unfolding handle_request_vote
  handle_request_vote-HasVoted req n h = ground (
    arith,
    str_eq_iff n.voted_for req.candidate_id,
    str_eq_iff (become_follower req.term n).voted_for req.candidate_id,
    become_follower-HasVoted req.term n h,
    grant_vote-HasVoted req.candidate_id n,
    grant_vote-HasVoted req.candidate_id (become_follower req.term n),
  )

  stand-HasVoted :
      (n : Node) → n.current_term + 1 < u64_mod → HasVoted t c n → HasVoted t c (stand n).0
  unfolding stand
  stand-HasVoted n fit h = ground arith

  start_election-HasVoted :
      (n : Node) → n.current_term + 1 < u64_mod → HasVoted t c n → HasVoted t c (start_election n).0
  unfolding start_election
  start_election-HasVoted n fit h = ground (
    arith,
    stand-HasVoted n fit h,
    become_leader-SameVote (stand n).0,
    open_round-SameVote (stand n).0.current_term
        (vote_request (stand n).0.current_term false (stand n).0) (stand n).0,
  )

  start_pre_vote-HasVoted :
      (n : Node) → n.current_term + 1 < u64_mod → HasVoted t c n → HasVoted t c (start_pre_vote n).0
  unfolding start_pre_vote
  start_pre_vote-HasVoted n fit h =
      let m = reset_election n in
      let k = SameVote-HasVoted n m (reset_election-SameVote n) h in
      ground (
        arith,
        reset_election-SameVote n,
        start_election-HasVoted m,
        open_round-SameVote m.current_term (vote_request (inc64 m.current_term) true m) m,
      )

  tick-HasVoted :
      (n : Node) → n.current_term + 1 < u64_mod → HasVoted t c n → HasVoted t c (tick n).0
  unfolding tick broadcast_append
  tick-HasVoted n fit h = ground (arith, start_pre_vote-HasVoted n fit h)

  on_pre_vote-HasVoted :
      (r : Round) (resp : RequestVoteResponse) (n : Node)
      → n.current_term + 1 < u64_mod
      → HasVoted t c n
      → HasVoted t c (on_pre_vote r resp n).0
  unfolding on_pre_vote
  on_pre_vote-HasVoted r resp n fit h =
      ground (arith, become_follower-HasVoted resp.term n h, start_election-HasVoted n fit h)

  on_vote-HasVoted :
      (r : Round) (resp : RequestVoteResponse) (n : Node)
      → HasVoted t c n
      → HasVoted t c (on_vote r resp n).0
  unfolding on_vote
  on_vote-HasVoted r resp n h =
      ground (arith, become_follower-HasVoted resp.term n h, become_leader-SameVote n)

  send_append_end-HasVoted :
      (peer : Str) (term : ℕ) (req : AppendEntriesRequest) (resp : AppendEntriesResponse) (n : Node)
      → HasVoted t c n
      → HasVoted t c (send_append_end peer term req resp n)
  unfolding send_append_end
  send_append_end-HasVoted peer term req resp n h =
      grind (arith, become_follower-HasVoted, advance_commit-SameVote)

  send_snapshot_end-HasVoted :
      (peer : Str) (term : ℕ) (req : InstallSnapshotRequest) (resp : Option InstallSnapshotResponse)
      (n : Node)
      → HasVoted t c n
      → HasVoted t c (send_snapshot_end peer term req resp n)
  unfolding send_snapshot_end
  send_snapshot_end-HasVoted peer term req none n h = ground arith
  send_snapshot_end-HasVoted peer term req (some resp) n h =
      ground (arith, become_follower-HasVoted resp.term n h)

  confirm_response-HasVoted :
      (term : ℕ) (resp : Option AppendEntriesResponse) (n : Node)
      → HasVoted t c n
      → HasVoted t c (confirm_response term resp n).0
  unfolding confirm_response
  confirm_response-HasVoted term none n h = h
  confirm_response-HasVoted term (some resp) n h =
      ground (arith, become_follower-HasVoted resp.term n h)

  follow_leader-HasVoted :
      (term : ℕ) (leader : Str) (n : Node)
      → HasVoted t c n
      → HasVoted t c (follow_leader term leader n)
  unfolding follow_leader
  follow_leader-HasVoted term leader n h = ground (arith, become_follower-HasVoted term n h)

  handle_append_entries-HasVoted :
      (codec : MembersCodec) (req : AppendEntriesRequest) (n : Node)
      → HasVoted t c n
      → HasVoted t c (handle_append_entries codec req n).0
  unfolding handle_append_entries
  handle_append_entries-HasVoted codec req n h =
      let led = follow_leader req.term req.leader_id n in
      ground (
        arith,
        follow_leader-HasVoted req.term req.leader_id n h,
        accept_entries-SameVote codec req.entries led,
        follow_commit-SameVote req.leader_commit (accept_entries codec req.entries led).0,
      )

  handle_install_snapshot-HasVoted :
      {S : Type 0} (codec : MembersCodec) (machine : Snapshotter S) (req : InstallSnapshotRequest)
      (n : Node) (s : S)
      → HasVoted t c n
      → HasVoted t c (handle_install_snapshot codec machine req n s).0
  unfolding handle_install_snapshot
  handle_install_snapshot-HasVoted codec machine req n s h =
      grind (arith, follow_leader-HasVoted, install-SameVote)

  new_node-HasVoted :
      (codec : MembersCodec) (cfg : Config) (n : Node) (w : World) {m : Node}
      → new_node codec cfg (disk_of n) w ≡ some m
      → HasVoted t c n
      → HasVoted t c m
  unfolding new_node assemble
  new_node-HasVoted codec cfg n w e h = ground arith

  module _ {S : Type 0} (codec : MembersCodec) (machine : Snapshotter S) where
    -- No step of the node, with file errors and crashes included, goes back on a vote.
    pub Step-HasVoted : {n m : Node} → Step codec machine n m → HasVoted t c n → HasVoted t c m
    Step-HasVoted (waits now draws io) h = ground arith
    Step-HasVoted {n} (ticks fit) h = tick-HasVoted n fit h
    Step-HasVoted {n} (pre_vote_ends r resp fit) h = on_pre_vote-HasVoted r resp n fit h
    Step-HasVoted {n} (vote_ends r resp) h = on_vote-HasVoted r resp n h
    Step-HasVoted {n} (votes req) h = handle_request_vote-HasVoted req n h
    Step-HasVoted {n} (appends req) h = handle_append_entries-HasVoted codec req n h
    Step-HasVoted {n} (installs req s) h = handle_install_snapshot-HasVoted codec machine req n s h
    Step-HasVoted {n} (sends p term) h =
        SameVote-HasVoted n _ (send_append_begin-SameVote p term n) h
    Step-HasVoted {n} (send_ends p term req resp) h = send_append_end-HasVoted p term req resp n h
    Step-HasVoted {n} (snapshot_sends p term) h =
        SameVote-HasVoted n _ (send_snapshot_begin-SameVote codec machine p term n) h
    Step-HasVoted {n} (snapshot_send_ends p term req resp) h =
        send_snapshot_end-HasVoted p term req resp n h
    Step-HasVoted {n} (confirms term resp) h = confirm_response-HasVoted term resp n h
    Step-HasVoted {n} (proposes cmd) h = SameVote-HasVoted n _ (propose-SameVote cmd n) h
    Step-HasVoted {n} (gives_up i) h = unfold give_up in ground arith
    Step-HasVoted {n} (adds id addr) h =
        SameVote-HasVoted n _ (add_member-SameVote codec id addr n) h
    Step-HasVoted {n} (removes id) h = SameVote-HasVoted n _ (remove_member-SameVote codec id n) h
    Step-HasVoted {n} (reads i) h = SameVote-HasVoted n _ (wait_applied-SameVote i n) h
    Step-HasVoted {n} applies h = SameVote-HasVoted n _ (apply_begin-SameVote n) h
    Step-HasVoted {n} (applied i) h = SameVote-HasVoted n _ (apply_end-SameVote i n) h
    Step-HasVoted {n} (snapshots p c s le) h =
        SameVote-HasVoted n _ (maybe_snapshot_end-SameVote codec machine p c n s) h
    Step-HasVoted {n} (crashes cfg w e) h = new_node-HasVoted codec cfg n w e h

    -- If the vote of a term went to a named candidate, in memory and on disk, then no sequence of
    -- steps, file errors, crashes and starts included, goes back on it: from then on, memory and
    -- disk are in a later term, or in that term with that vote. No election of these steps passes
    -- the largest uint64 term.
    pub Reach-HasVoted : {n m : Node} → Reach codec machine n m → HasVoted t c n → HasVoted t c m
    Reach-HasVoted here h = h
    Reach-HasVoted (next r s) h = Step-HasVoted s (Reach-HasVoted r h)
