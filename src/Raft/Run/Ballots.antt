-- ===== src/Raft/Run/Ballots.antt =====
-- internal/raft/raft.go: granted votes, elections and pre-votes, over the steps of a node.
use link_raft.Prelude.{ℕ, ◌<◌, ◌≡◌, sym, inr, is_empty, Bool, true, false, some, [], arith}
use link_raft.Raft.Node.{Node, RequestVoteRequest, become_follower}
use link_raft.Raft.Election.{
  Round, start_election, stand, open_round, handle_request_vote, grant_vote, answer_pre_vote,
  is_up_to_date,
}
use link_raft.Raft.Membership.{MembersCodec}
use link_raft.Raft.Compaction.{Snapshotter}
use link_raft.Raft.Run.{Reach, votes}
use link_raft.Raft.Run.Votes.{HasVoted, Step-HasVoted, Reach-HasVoted}

abbrev pub grants : RequestVoteRequest → Node → Bool
grants req n = (handle_request_vote req n).1.vote_granted

abbrev pub after_vote : RequestVoteRequest → Node → Node
after_vote req n = (handle_request_vote req n).0

-- The node after it has granted a vote.
pub record IsBallot (req : RequestVoteRequest) (n : Node) : Type 0 where
  pub in_term : n.current_term ≡ req.term
  pub for_candidate : n.voted_for ≡ req.candidate_id
  pub saved_term : n.meta.term ≡ req.term
  pub saved_vote : n.meta.voted_for ≡ req.candidate_id

grant_vote-IsBallot :
    (req : RequestVoteRequest) (n : Node)
    → n.current_term ≡ req.term
    → (grant_vote req.candidate_id n).1.vote_granted ≡ true
    → IsBallot req (grant_vote req.candidate_id n).0
unfolding grant_vote
grant_vote-IsBallot req n e h = ground arith

become_follower_term :
    (term : ℕ) (n : Node) → n.current_term < term → (become_follower term n).current_term ≡ term
unfolding become_follower
become_follower_term term n h = ground arith

-- A request for a real vote is granted only when the term and the candidate are then in memory
-- and on disk.
pub handle_request_vote-IsBallot :
    (req : RequestVoteRequest) (n : Node)
    → req.pre_vote ≡ false
    → grants req n ≡ true
    → IsBallot req (after_vote req n)
unfolding handle_request_vote
handle_request_vote-IsBallot req n real yes_ = ground (
  arith,
  become_follower_term req.term n,
  grant_vote-IsBallot req n,
  grant_vote-IsBallot req (become_follower req.term n),
)

pub IsBallot-HasVoted :
    (req : RequestVoteRequest) (n : Node) → IsBallot req n → HasVoted req.term req.candidate_id n
IsBallot-HasVoted req n b = record {
  in_memory = inr (sym b.in_term, sym b.for_candidate);
  on_disk = inr (sym b.saved_term, sym b.saved_vote);
}

module _ {S : Type 0} (codec : MembersCodec) (machine : Snapshotter S) where
  -- Once a node has granted a real vote for a term to a named candidate, it grants real votes for
  -- that term to no other candidate, whatever steps come between: other requests, elections,
  -- failing file operations, crashes and starts, where no election passes the largest uint64 term.
  pub one_vote_per_term :
      (req req' : RequestVoteRequest) (n m : Node)
      → req.pre_vote ≡ false
      → req'.pre_vote ≡ false
      → is_empty req.candidate_id ≡ false
      → req.term ≡ req'.term
      → grants req n ≡ true
      → Reach codec machine (after_vote req n) m
      → grants req' m ≡ true
      → req.candidate_id ≡ req'.candidate_id
  one_vote_per_term req req' n m real real' named same yes_ run yes' =
      let first = IsBallot-HasVoted req _ (handle_request_vote-IsBallot req n real yes_) in
      let kept =
        Step-HasVoted req.term req.candidate_id named codec machine (votes req')
          (Reach-HasVoted req.term req.candidate_id named codec machine run first) in
      let second = handle_request_vote-IsBallot req' m real' yes' in
      ground (arith, kept.in_memory, second.in_term, second.for_candidate)

-- An election that asks for votes asks for them with the candidate's own vote for itself in
-- memory and on disk, in the term that it asks for.
pub start_election-HasVoted_self :
    (n : Node) (r : Round)
    → (start_election n).1 ≡ some r
    → HasVoted r.term n.id (start_election n).0
unfolding start_election open_round stand
start_election-HasVoted_self n r e = ground arith

-- A pre-vote that is granted tells the truth: it has changed nothing, and the same request as a
-- real one would be granted at once, if no file operation fails.
pub pre_vote_announces :
    (req : RequestVoteRequest) (n : Node)
    → req.pre_vote ≡ true
    → n.io ≡ []
    → grants req n ≡ true
    → (after_vote req n ≡ n) × (grants (record req { pre_vote = false }) n ≡ true)
unfolding handle_request_vote answer_pre_vote become_follower grant_vote is_up_to_date
pre_vote_announces req n pre files yes_ = ground arith
