-- ===== src/Raft/Run/Steady.antt =====
-- The steps that leave the log of a node alone that leads before and after them.
use link_raft.Prelude.{
  ℕ, zero, suc, ◌+◌, ◌≡◌, refl, inl, inr, Str, true, Option, none, some, arith, Bool-cases,
}
use link_raft.Raft.Node.{
  Node, follower, is_leader, RequestVoteRequest, RequestVoteResponse, become_follower,
  follow_leader, broadcast_append, signal_apply, AppendEntriesRequest, AppendEntriesResponse,
  InstallSnapshotRequest, InstallSnapshotResponse,
}
use link_raft.Raft.Commit.{is_committable, advance_from, advance_commit}
use link_raft.Raft.Election.{Round, tick, on_pre_vote, on_vote, handle_request_vote, grant_vote}
use link_raft.Raft.Membership.{MembersCodec}
use link_raft.Raft.Replication.{handle_append_entries, accept_entries, send_append_end, give_up}
use link_raft.Raft.Reads.{confirm_response, wait_applied, apply_begin, apply_end}
use link_raft.Raft.Compaction.{Snapshotter, install, handle_install_snapshot, send_snapshot_end}
use link_raft.Raft.Run.Quiet.{
  advance_commit-IsQuiet, apply_config-IsQuiet, accept_entries-IsQuiet, follow_commit-IsQuiet,
}

pub state-become_follower : (term : ℕ) (n : Node) → (become_follower term n).state ≡ follower
unfolding become_follower
state-become_follower term n = ground arith

pub state-follow_leader :
    (term : ℕ) (l : Str) (n : Node) → (follow_leader term l n).state ≡ follower
unfolding follow_leader
state-follow_leader term l n = ground (arith, state-become_follower term n)

-- A node that leads before and after has the same log in the same term.
pub record IsSteady (n m : Node) : Type 0 where
  pub same_log : is_leader n.state ≡ true → is_leader m.state ≡ true → m.log ≡ n.log
  pub same_term :
      is_leader n.state ≡ true → is_leader m.state ≡ true → m.current_term ≡ n.current_term

pub log-advance_from : (r i : ℕ) (n : Node) → (advance_from r i n).log ≡ n.log
unfolding advance_from
log-advance_from zero i n = refl
log-advance_from (suc r) i n = elim (Bool-cases (is_committable i n)) [
  | inl can ↦ rw (can, advance_from) (log-advance_from r (i + 1) (record n { commit_index = i }))
  | inr cannot ↦ rw (cannot, advance_from) (log-advance_from r (i + 1) n)
]

pub log-advance_commit : (n : Node) → (advance_commit n).log ≡ n.log
unfolding advance_commit signal_apply
log-advance_commit n = log-advance_from _ _ n

pub tick-IsSteady : (n : Node) → IsSteady n (tick n).0
unfolding tick broadcast_append
tick-IsSteady n = record { same_log = λ l k. ground arith; same_term = λ l k. ground arith }

pub on_pre_vote-IsSteady :
    (r : Round) (resp : RequestVoteResponse) (n : Node) → IsSteady n (on_pre_vote r resp n).0
unfolding on_pre_vote
on_pre_vote-IsSteady r resp n = record {
  same_log = λ l k. ground (arith, state-become_follower resp.term n);
  same_term = λ l k. ground (arith, state-become_follower resp.term n);
}

pub on_vote-IsSteady :
    (r : Round) (resp : RequestVoteResponse) (n : Node) → IsSteady n (on_vote r resp n).0
unfolding on_vote
on_vote-IsSteady r resp n = record {
  same_log = λ l k. ground (arith, state-become_follower resp.term n);
  same_term = λ l k. ground (arith, state-become_follower resp.term n);
}

pub handle_request_vote-IsSteady :
    (req : RequestVoteRequest) (n : Node) → IsSteady n (handle_request_vote req n).0
unfolding handle_request_vote grant_vote
handle_request_vote-IsSteady req n = record {
  same_log = λ l k. ground (arith, state-become_follower req.term n);
  same_term = λ l k. ground (arith, state-become_follower req.term n);
}

pub send_append_end-IsSteady :
    (peer : Str) (term : ℕ) (req : AppendEntriesRequest) (resp : AppendEntriesResponse) (n : Node)
    → IsSteady n (send_append_end peer term req resp n)
unfolding send_append_end
send_append_end-IsSteady peer term req resp n = record {
  same_log = λ l k. grind (arith, state-become_follower, log-advance_commit);
  same_term = λ l k. grind (arith, state-become_follower, advance_commit-IsQuiet);
}

pub send_snapshot_end-IsSteady :
    (peer : Str) (term : ℕ) (req : InstallSnapshotRequest) (resp : Option InstallSnapshotResponse)
    (n : Node)
    → IsSteady n (send_snapshot_end peer term req resp n)
unfolding send_snapshot_end
send_snapshot_end-IsSteady peer term req none n = record {
  same_log = λ l k. ground arith;
  same_term = λ l k. ground arith;
}
send_snapshot_end-IsSteady peer term req (some resp) n = record {
  same_log = λ l k. ground (arith, state-become_follower resp.term n);
  same_term = λ l k. ground (arith, state-become_follower resp.term n);
}

pub confirm_response-IsSteady :
    (term : ℕ) (resp : Option AppendEntriesResponse) (n : Node)
    → IsSteady n (confirm_response term resp n).0
unfolding confirm_response
confirm_response-IsSteady term none n = record { same_log = λ l k. refl; same_term = λ l k. refl }
confirm_response-IsSteady term (some resp) n = record {
  same_log = λ l k. ground (arith, state-become_follower resp.term n);
  same_term = λ l k. ground (arith, state-become_follower resp.term n);
}

pub give_up-IsSteady : (i : ℕ) (n : Node) → IsSteady n (give_up i n)
unfolding give_up
give_up-IsSteady i n = record { same_log = λ l k. refl; same_term = λ l k. refl }

pub wait_applied-IsSteady : (i : ℕ) (n : Node) → IsSteady n (wait_applied i n).0
unfolding wait_applied
wait_applied-IsSteady i n = record {
  same_log = λ l k. ground arith;
  same_term = λ l k. ground arith;
}

pub apply_begin-IsSteady : (n : Node) → IsSteady n (apply_begin n).0
unfolding apply_begin
apply_begin-IsSteady n = record { same_log = λ l k. ground arith; same_term = λ l k. ground arith }

pub apply_end-IsSteady : (i : ℕ) (n : Node) → IsSteady n (apply_end i n)
unfolding apply_end
apply_end-IsSteady i n = record { same_log = λ l k. ground arith; same_term = λ l k. ground arith }

module _ (codec : MembersCodec) where
  pub handle_append_entries-IsSteady :
      (req : AppendEntriesRequest) (n : Node) → IsSteady n (handle_append_entries codec req n).0
  unfolding handle_append_entries
  handle_append_entries-IsSteady req n =
      let led = follow_leader req.term req.leader_id n in
      record {
        same_log = λ l k. ground (
          arith,
          state-follow_leader req.term req.leader_id n,
          accept_entries-IsQuiet codec req.entries led,
          follow_commit-IsQuiet req.leader_commit (accept_entries codec req.entries led).0,
        );
        same_term = λ l k. ground (
          arith,
          state-follow_leader req.term req.leader_id n,
          accept_entries-IsQuiet codec req.entries led,
          follow_commit-IsQuiet req.leader_commit (accept_entries codec req.entries led).0,
        );
      }

  module _ {S : Type 0} (machine : Snapshotter S) where
    pub handle_install_snapshot-IsSteady :
        (req : InstallSnapshotRequest) (n : Node) (s : S)
        → IsSteady n (handle_install_snapshot codec machine req n s).0
    unfolding handle_install_snapshot install
    handle_install_snapshot-IsSteady req n s = record {
      same_log = λ l k. grind (arith, state-follow_leader, apply_config-IsQuiet);
      same_term = λ l k. grind (arith, state-follow_leader, apply_config-IsQuiet);
    }
