-- ===== src/Raft/Election.antt =====
-- internal/raft/raft.go: pre-vote, elections and votes.
use link_raft.Prelude.{
  ℕ, ◌+◌, ◌-◌, Str, is_empty, str_eq, Bool, true, false, not, ◌&&◌, ◌||◌, Option, none, some, List,
  [], ◌∷◌, ◌++◌, ltb, leb, ◌==◌, if◌then◌else◌, inc64,
}
use link_raft.Prelude.Dict.{lookup, keys}
use link_raft.Raft.Log.{last_index, last_term}
use link_raft.Raft.Node.{
  Node, Task, ask_vote, RequestVoteRequest, RequestVoteResponse, candidate, is_leader, is_candidate,
  cluster_size, majority, reset_election, save_meta, become_follower, broadcast_append,
}
use link_raft.Raft.Commit.{become_leader}

-- The variables `term` and `votes` that the goroutines of one round of votes share.
pub record Round : Type 0 where
  pub term : ℕ
  pub votes : ℕ

vote_tasks : RequestVoteRequest → List Str → List Task
vote_tasks req [] = []
vote_tasks req (p ∷ ps) = ask_vote p req ∷ vote_tasks req ps

unfoldable pub vote_request : ℕ → Bool → Node → RequestVoteRequest
vote_request term pre_vote n = record {
  term = term;
  candidate_id = n.id;
  last_log_index = last_index n.log;
  last_log_term = last_term n.log;
  pre_vote = pre_vote;
}

-- A vote of one's own, and a request to each peer.
unfoldable pub open_round : ℕ → RequestVoteRequest → Node → Node × Option Round
unfolding vote_tasks
open_round term req n = (
  record n { tasks = n.tasks ++ vote_tasks req (keys n.peers) },
  some (record { term = term; votes = 1 }),
)

-- `startElectionLocked` up to the save of its term and vote.
unfoldable pub stand : Node → Node × Bool
unfolding reset_election save_meta
stand n = save_meta (
    reset_election (record n {
      state = candidate;
      current_term = inc64 n.current_term;
      voted_for = n.id;
      leader_id = [];
      elections_total = n.elections_total + 1;
    }))

-- `startElectionLocked`
unfoldable pub start_election : Node → Node × Option Round
start_election n =
    let (saved, ok) = stand n in
    if not ok
    then (saved, none)
    else if cluster_size saved == 1
    then (become_leader saved, none)
    else open_round saved.current_term (vote_request saved.current_term false saved) saved

is_some {ℓ} : {A : Type ℓ} → Option A → Bool
is_some none = false
is_some (some a) = true

-- `startPreVoteLocked`
unfoldable pub start_pre_vote : Node → Node × Option Round
unfolding is_some
start_pre_vote n =
    let m = reset_election n in
    if m.joining
    then (m, none)
    else if not (is_some (lookup m.id m.members))
    then (m, none)
    else if cluster_size m == 1
    then start_election m
    else open_round m.current_term (vote_request (inc64 m.current_term) true m) m

-- The end of a goroutine of `startPreVoteLocked`. The last part is the election round that it opens.
unfoldable pub on_pre_vote : Round → RequestVoteResponse → Node → Node × Round × Option Round
on_pre_vote r resp n =
    if ltb n.current_term resp.term
    then (become_follower resp.term n, r, none)
    else if is_leader n.state || (not (n.current_term == r.term) || not resp.vote_granted)
    then (n, r, none)
    else let counted = record r { votes = r.votes + 1 } in
      if leb (majority n) counted.votes
      then (let (m, opened) = start_election n in (m, counted, opened))
      else (n, counted, none)

-- The end of a goroutine of `startElectionLocked`.
unfoldable pub on_vote : Round → RequestVoteResponse → Node → Node × Round
on_vote r resp n =
    if ltb n.current_term resp.term
    then (become_follower resp.term n, r)
    else if not (is_candidate n.state) || (not (n.current_term == r.term) || not resp.vote_granted)
    then (n, r)
    else let counted = record r { votes = r.votes + 1 } in
      if leb (majority n) counted.votes then (become_leader n, counted) else (n, counted)

-- The candidate's log is at least as up to date as this node's.
unfoldable pub is_up_to_date : RequestVoteRequest → Node → Bool
is_up_to_date req n =
    ltb (last_term n.log) req.last_log_term
    || (req.last_log_term == last_term n.log && leb (last_index n.log) req.last_log_index)

-- `handleRequestVote` on a pre-vote: an answer only.
unfoldable pub answer_pre_vote : RequestVoteRequest → Node → RequestVoteResponse
answer_pre_vote req n = record {
  term = n.current_term;
  vote_granted =
      not (leb req.term n.current_term)
      && (not (is_leader n.state)
          && (not (
                not (is_empty n.leader_id) && ltb (n.now - n.election_reset) n.election_timeout_min)
              && is_up_to_date req n));
}

-- The grant of a vote, which is answered only once it is saved.
unfoldable pub grant_vote : Str → Node → Node × RequestVoteResponse
unfolding save_meta reset_election
grant_vote candidate_id n =
    let (saved, ok) = save_meta (record n { voted_for = candidate_id }) in
    if ok
    then (reset_election saved, record { term = n.current_term; vote_granted = true })
    else (saved, record { term = n.current_term; vote_granted = false })

-- `handleRequestVote`
unfoldable pub handle_request_vote : RequestVoteRequest → Node → Node × RequestVoteResponse
handle_request_vote req n =
    if req.pre_vote
    then (n, answer_pre_vote req n)
    else let m = if ltb n.current_term req.term then become_follower req.term n else n in
      if ltb req.term m.current_term
      then (m, record { term = m.current_term; vote_granted = false })
      else if (is_empty m.voted_for || str_eq m.voted_for req.candidate_id) && is_up_to_date req m
      then grant_vote req.candidate_id m
      else (m, record { term = m.current_term; vote_granted = false })

-- `tick`: the leader's heartbeat, or the election timer of the others.
unfoldable pub tick : Node → Node × Option Round
tick n =
    if is_leader n.state
    then (if leb n.heartbeat_interval (n.now - n.last_heartbeat)
        then (broadcast_append (record n { last_heartbeat = n.now }), none)
        else (n, none))
    else if leb n.election_timeout (n.now - n.election_reset)
    then start_pre_vote n
    else (n, none)
