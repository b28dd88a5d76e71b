-- ===== src/Raft/Node.antt =====
-- internal/raft/raft.go, state.go, snapshot.go: the node's state, the messages, and the steps that
-- several parts share. A method that changes `*Node` under its lock is a function that returns the
-- new node.
use link_raft.Prelude.{
  ℕ, ◌+◌, ◌-◌, ◌/◌, ◌%◌, Str, codes, is_empty, str_eq, Bool, true, false, not, ◌||◌, Option, none,
  some, List, [], ◌∷◌, ◌++◌, ltb, leb, if◌then◌else◌, length,
}
use link_raft.Prelude.Dict.{Dict, lookup, keys}
use link_raft.Journal.{Io, fine, is_fine}
use link_raft.Raft.Log.{Entry, Log}

pub data State : Type 0 where
  follower candidate leader : State

-- `State.String`; a State has only the three values.
pub state_name : State → Str
state_name follower = codes "follower"
state_name candidate = codes "candidate"
state_name leader = codes "leader"

-- The file raft-meta.json.
pub record Meta : Type 0 where
  pub term : ℕ  -- uint64
  pub voted_for : Str

-- id -> addr
abbrev pub Members : Type 0
Members = Dict Str

-- The file raft-snapshot.json.
pub record Snapshot : Type 0 where
  pub index : ℕ
  pub term : ℕ
  pub content : Str
  pub members : Members

pub record NotLeaderError : Type 0 where
  pub leader_id : Str
  pub leader_addr : Str

-- Messages of proto/raft.proto.
pub record RequestVoteRequest : Type 0 where
  pub term : ℕ
  pub candidate_id : Str
  pub last_log_index : ℕ
  pub last_log_term : ℕ
  pub pre_vote : Bool

pub record RequestVoteResponse : Type 0 where
  pub term : ℕ
  pub vote_granted : Bool

pub record AppendEntriesRequest : Type 0 where
  pub term : ℕ
  pub leader_id : Str
  pub prev_log_index : ℕ
  pub prev_log_term : ℕ
  pub entries : List Entry
  pub leader_commit : ℕ

pub record AppendEntriesResponse : Type 0 where
  pub term : ℕ
  pub success : Bool
  pub match_index : ℕ

pub record InstallSnapshotRequest : Type 0 where
  pub term : ℕ
  pub leader_id : Str
  pub last_included_index : ℕ
  pub last_included_term : ℕ
  pub content : Str
  pub members : Str

pub record InstallSnapshotResponse : Type 0 where
  pub term : ℕ

-- A goroutine that a step has started.
pub data Task : Type 0 where
  ask_vote : Str → RequestVoteRequest → Task
  send_append : Str → ℕ → Task
  send_snapshot : Str → ℕ → Task

-- The fields of `Node` and, at the end, what it shares with the outside: the files, the goroutines
-- started, the errors sent to waiting callers, the clock, and the outcomes of the random draws and
-- file operations to come.
pub record Node : Type 0 where
  pub id : Str
  pub addr : Str
  pub peers : Members
  pub members : Members
  pub bootstrap_members : Members
  pub snap_members : Members
  pub config_index : ℕ
  pub joining : Bool
  pub state : State
  pub current_term : ℕ
  pub voted_for : Str
  pub leader_id : Str
  pub log : Log
  pub commit_index : ℕ
  pub last_applied : ℕ
  pub next_index : Dict ℕ
  pub match_index : Dict ℕ
  pub term_start_index : ℕ
  pub apply_waiters : List ℕ  -- the indexes that readers wait for
  pub election_reset : ℕ
  pub election_timeout : ℕ
  pub last_heartbeat : ℕ
  pub heartbeat_interval : ℕ
  pub election_timeout_min : ℕ
  pub election_timeout_max : ℕ
  pub waiters : List ℕ  -- the indexes that proposers wait for
  pub has_snapshotter : Bool
  pub snapshot_threshold : ℕ
  pub snap_in_flight : List Str
  pub elections_total : ℕ
  pub apply_signal : Bool  -- the one place of `applyCh`
  pub trans_peers : Members  -- the address table of the transport
  pub meta : Meta
  pub snapshot : Option Snapshot
  pub tasks : List Task
  pub refused : List (ℕ × NotLeaderError)
  pub now : ℕ
  pub draws : List ℕ
  pub io : List Io

abbrev pub is_leader : State → Bool
is_leader leader = true
is_leader _ = false

abbrev pub is_follower : State → Bool
is_follower follower = true
is_follower _ = false

abbrev pub is_candidate : State → Bool
is_candidate candidate = true
is_candidate _ = false

unfoldable pub cluster_size : Node → ℕ
cluster_size n = length n.peers + 1

unfoldable pub majority : Node → ℕ
unfolding cluster_size
majority n = cluster_size n / 2 + 1

abbrev pub str_or_empty : Option Str → Str
str_or_empty none = []
str_or_empty (some s) = s

-- `leaderAddrLocked`; a missing key of `peers` gives "".
unfoldable pub leader_addr : Node → Str
leader_addr n =
    if is_empty n.leader_id
    then []
    else if str_eq n.leader_id n.id
    then n.addr
    else str_or_empty (lookup n.leader_id n.peers)

unfoldable pub not_leader_error : Node → NotLeaderError
not_leader_error n = record { leader_id = n.leader_id; leader_addr = leader_addr n }

-- The outcome of the next file operation.
abbrev pub next_io : List Io → Io
next_io [] = fine
next_io (o ∷ rest) = o

abbrev pub later_io : List Io → List Io
later_io [] = []
later_io (o ∷ rest) = rest

abbrev next_draw : List ℕ → ℕ
next_draw [] = 0
next_draw (d ∷ rest) = d

abbrev later_draws : List ℕ → List ℕ
later_draws [] = []
later_draws (d ∷ rest) = rest

-- `randTimeout`; `Int63n(span)` is a draw below `span`.
unfoldable pub rand_timeout : Node → ℕ
rand_timeout n =
    let span = n.election_timeout_max - n.election_timeout_min in
    if leb n.election_timeout_max n.election_timeout_min
    then n.election_timeout_min
    else n.election_timeout_min + next_draw n.draws % span

-- `electionReset = time.Now()` and a new `electionTimeout`.
unfoldable pub reset_election : Node → Node
unfolding rand_timeout
reset_election n = record n {
  election_reset = n.now;
  election_timeout = rand_timeout n;
  draws = later_draws n.draws;
}

-- `saveMeta`: the old file stays unless every step up to the rename succeeds. The source does not sync the
-- file, so what is saved outlives a crash of the process and not one of the machine.
unfoldable pub save_meta : Node → Node × Bool
save_meta n =
    let written : Meta = record { term = n.current_term; voted_for = n.voted_for } in
    if is_fine (next_io n.io)
    then (record n { meta = written; io = later_io n.io }, true)
    else (record n { io = later_io n.io }, false)

abbrev pub set_log : Node → Log × Bool → Node
set_log n r = record n { log = r.0; io = later_io n.io }

-- `signalApply`
unfoldable pub signal_apply : Node → Node
signal_apply n = record n { apply_signal = true }

refuse : NotLeaderError → List ℕ → List (ℕ × NotLeaderError)
refuse e [] = []
refuse e (i ∷ is) = (i, e) ∷ refuse e is

-- The loop over the waiters of a leader that steps down.
unfoldable pub refuse_waiters : Node → Node
unfolding refuse
refuse_waiters n = record n {
  refused = n.refused ++ refuse (not_leader_error n) n.waiters;
  waiters = [];
}

-- `becomeFollowerLocked`
raise_term : ℕ → Node → Node
raise_term term n =
    if ltb n.current_term term
    then (save_meta (record n { current_term = term; voted_for = [] })).0
    else n

unfoldable pub become_follower : ℕ → Node → Node
unfolding raise_term save_meta reset_election refuse_waiters
become_follower term n =
    let m = reset_election (raise_term term (record n { state = follower })) in
    if is_leader n.state then refuse_waiters m else m

-- How `handleAppendEntries` and `handleInstallSnapshot` take the sender of a request whose term is
-- not old for the leader.
unfoldable pub follow_leader : ℕ → Str → Node → Node
follow_leader term leader_id n =
    let m =
      if ltb n.current_term term || not (is_follower n.state) then become_follower term n else n in
    record m { leader_id = leader_id; election_reset = m.now }

append_tasks : ℕ → List Str → List Task
append_tasks term [] = []
append_tasks term (p ∷ ps) = send_append p term ∷ append_tasks term ps

-- `broadcastAppendLocked`
unfoldable pub broadcast_append : Node → Node
unfolding append_tasks
broadcast_append n = record n { tasks = n.tasks ++ append_tasks n.current_term (keys n.peers) }
