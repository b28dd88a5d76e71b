-- ===== src/Examples/Nodes.antt =====
-- The theorems on a node's steps at the nodes of the fixtures.
use link_raft.Prelude.{◌≡◌, refl, inr, [], true, false, str_eq, arith, tt}
use link_raft.Raft.Log.{
  last_index, last_term, term_at, entry_at, truncate_from, append, rewrite, above_snap,
}
use link_raft.Raft.Node.{
  Node, follow_leader, become_follower, save_meta, reset_election, rand_timeout,
}
use link_raft.Raft.Election.{handle_request_vote, is_up_to_date, grant_vote, answer_pre_vote}
use link_raft.Raft.Commit.{advance_commit}
use link_raft.Raft.Commit.Advance.{IsLastReplicated, advance_commit-IsLastReplicated}
use link_raft.Raft.Membership.{maybe_apply_config_entry}
use link_raft.Raft.Replication.{
  is_consistent, accept_entry, truncate_conflict, append_entry, accept_entries,
  handle_append_entries,
}
use link_raft.Raft.Replication.Response.{Agrees, handle_append_entries-Agrees}
use link_raft.Raft.Run.{Reach, here, next, waits, votes}
use link_raft.Raft.Run.Votes.{HasVoted, Reach-HasVoted}
use link_raft.Raft.Run.Ballots.{
  IsBallot, grants, after_vote, handle_request_vote-IsBallot, one_vote_per_term, pre_vote_announces,
}
use link_raft.Examples.Fixtures.{
  text_codec, text_machine, name_b, name_c, node, vote_for, append_from_b,
}
use link_raft.Examples.Logs.{log-IsWellFormed}

-- The node after its vote for "b", two seconds later, asked by "c".
abbrev later : Node
later =
    after_vote (vote_for name_c false)
      (record (after_vote (vote_for name_b false) node) { now = 2500; draws = []; io = [] })

later-Reach : Reach text_codec text_machine (after_vote (vote_for name_b false) node) later
later-Reach = next (next here (waits 2500 [] [])) (votes (vote_for name_c false))

pub granted : grants (vote_for name_b false) node ≡ true
unfolding handle_request_vote become_follower save_meta reset_election rand_timeout is_up_to_date
    last_index last_term grant_vote
granted = refl

granted_again : grants (vote_for name_b false) later ≡ true
unfolding handle_request_vote become_follower save_meta reset_election rand_timeout is_up_to_date
    last_index last_term grant_vote str_eq
granted_again = refl

granted_before : grants (vote_for name_b true) node ≡ true
unfolding handle_request_vote answer_pre_vote is_up_to_date last_index last_term
granted_before = refl

has_voted : HasVoted 3 name_b (after_vote (vote_for name_b false) node)
unfolding handle_request_vote become_follower save_meta reset_election rand_timeout is_up_to_date
    last_index last_term grant_vote
has_voted = record { in_memory = inr (refl, refl); on_disk = inr (refl, refl) }

accepted : (handle_append_entries text_codec append_from_b node).1.success ≡ true
unfolding handle_append_entries follow_leader become_follower save_meta reset_election rand_timeout
    is_consistent last_index term_at entry_at accept_entries accept_entry truncate_conflict
    append_entry truncate_from append rewrite above_snap maybe_apply_config_entry
accepted = refl

one_vote_per_term_example : name_b ≡ name_b
one_vote_per_term_example =
    one_vote_per_term text_codec text_machine (vote_for name_b false) (vote_for name_b false) node
      later refl refl refl refl granted later-Reach granted_again

handle_request_vote-IsBallot_example :
    IsBallot (vote_for name_b false) (after_vote (vote_for name_b false) node)
handle_request_vote-IsBallot_example =
    handle_request_vote-IsBallot (vote_for name_b false) node refl granted

pre_vote_announces_example :
    (after_vote (vote_for name_b true) node ≡ node) × (grants (vote_for name_b false) node ≡ true)
pre_vote_announces_example = pre_vote_announces (vote_for name_b true) node refl refl granted_before

Reach-HasVoted_example : HasVoted 3 name_b later
Reach-HasVoted_example = Reach-HasVoted 3 name_b refl text_codec text_machine later-Reach has_voted

advance_commit-IsLastReplicated_example : IsLastReplicated node (advance_commit node).commit_index
advance_commit-IsLastReplicated_example = advance_commit-IsLastReplicated node

handle_append_entries-Agrees_example :
    Agrees text_codec append_from_b node (handle_append_entries text_codec append_from_b node).0
handle_append_entries-Agrees_example =
    handle_append_entries-Agrees text_codec append_from_b node log-IsWellFormed (refl, (refl, tt))
      (omega arith) (omega arith) accepted
