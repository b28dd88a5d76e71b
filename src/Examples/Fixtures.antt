-- ===== src/Examples/Fixtures.antt =====
-- The data that the examples run on.
use link_raft.Prelude.{
  ℕ, Str, codes, Bool, true, false, ◌==◌, if◌then◌else◌, Option, none, some, List, [], ◌∷◌, ◌++◌,
}
use link_raft.Journal.{render}
use link_raft.Raft.Log.{Entry, Log, entry_normal}
use link_raft.Raft.Node.{Node, follower, Members, RequestVoteRequest, AppendEntriesRequest}
use link_raft.Raft.Membership.{MembersCodec}
use link_raft.Raft.Compaction.{Snapshotter}

-- A configuration as text: each id and each address with a byte 0 behind it.
abbrev encode : Members → Str
encode [] = []
encode ((id, addr) ∷ m) = id ++ 0 ∷ addr ++ 0 ∷ encode m

abbrev decode_from : Option Str → Str → Str → Option Members
decode_from none [] [] = some []
decode_from _ _ [] = none
decode_from none word (b ∷ bs) =
    if b == 0 then decode_from (some word) [] bs else decode_from none (word ++ b ∷ []) bs
decode_from (some id) word (b ∷ bs) =
    if b == 0
    then elim (decode_from none [] bs) [ none ↦ none | some m ↦ some ((id, word) ∷ m) ]
    else decode_from (some id) (word ++ b ∷ []) bs

abbrev pub text_codec : MembersCodec
text_codec = record { encode = encode; decode = decode_from none [] }

-- A state machine whose state is a text.
abbrev pub text_machine : Snapshotter Str
text_machine = record {
  snapshot = λ s. some s;
  restore = λ i saved s. (saved, true);
  compacted = λ i s. (s, true);
}

abbrev pub name_a : Str
name_a = codes "a"

abbrev pub name_b : Str
name_b = codes "b"

abbrev pub name_c : Str
name_c = codes "c"

abbrev pub command : ℕ → ℕ → Entry
command term index = record { term = term; index = index; command = codes "x"; kind = entry_normal }

-- The snapshot covers the first two entries; three more are held.
abbrev pub entries : List Entry
entries = command 1 3 ∷ command 1 4 ∷ command 2 5 ∷ []

abbrev pub log : Log
log = record {
  snap_index = 2;
  snap_term = 1;
  entries = entries;
  file = render entries;
  is_open = true;
}

abbrev pub everyone : Members
everyone = (name_a, codes "a:1") ∷ (name_b, codes "b:1") ∷ (name_c, codes "c:1") ∷ []

-- The follower "a" in term 2.
abbrev pub node : Node
node = record {
  id = name_a;
  addr = codes "a:1";
  peers = (name_b, codes "b:1") ∷ (name_c, codes "c:1") ∷ [];
  members = everyone;
  bootstrap_members = everyone;
  snap_members = everyone;
  config_index = 0;
  joining = false;
  state = follower;
  current_term = 2;
  voted_for = [];
  leader_id = [];
  log = log;
  commit_index = 3;
  last_applied = 3;
  next_index = [];
  match_index = [];
  term_start_index = 0;
  apply_waiters = [];
  election_reset = 0;
  election_timeout = 400;
  last_heartbeat = 0;
  heartbeat_interval = 50;
  election_timeout_min = 300;
  election_timeout_max = 600;
  waiters = [];
  has_snapshotter = true;
  snapshot_threshold = 1000;
  snap_in_flight = [];
  elections_total = 0;
  apply_signal = false;
  trans_peers = (name_b, codes "b:1") ∷ (name_c, codes "c:1") ∷ [];
  meta = record { term = 2; voted_for = [] };
  snapshot = none;
  tasks = [];
  refused = [];
  now = 500;
  draws = [];
  io = [];
}

abbrev pub vote_for : Str → Bool → RequestVoteRequest
vote_for id pre_vote = record {
  term = 3;
  candidate_id = id;
  last_log_index = 5;
  last_log_term = 2;
  pre_vote = pre_vote;
}

-- The leader "b" of term 3 replaces the last entry and commits the one before it.
abbrev pub append_from_b : AppendEntriesRequest
append_from_b = record {
  term = 3;
  leader_id = name_b;
  prev_log_index = 4;
  prev_log_term = 1;
  entries = command 3 5 ∷ command 3 6 ∷ [];
  leader_commit = 4;
}
