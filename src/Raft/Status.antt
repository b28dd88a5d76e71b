-- ===== src/Raft/Status.antt =====
-- internal/raft/raft.go: what a node tells about itself (`GetStatus`, `Members`, `IsLeader`).
use link_raft.Prelude.{ℕ, Str, sort_strs, str_eq, List, map, if◌then◌else◌}
use link_raft.Prelude.Dict.{lookup, keys}
use link_raft.Raft.Log.{last_index}
use link_raft.Raft.Node.{Node, Members, State, is_leader, cluster_size, leader_addr, str_or_empty}
use link_raft.Raft.Replication.{index_of}

pub record MemberInfo : Type 0 where
  pub id : Str
  pub addr : Str
  pub match_index : ℕ

pub record Status : Type 0 where
  pub id : Str
  pub state : State
  pub term : ℕ
  pub leader_id : Str
  pub leader_addr : Str
  pub commit_index : ℕ
  pub applied_index : ℕ
  pub last_log_index : ℕ
  pub snapshot_index : ℕ
  pub elections_total : ℕ
  pub peers : ℕ
  pub members : List MemberInfo

-- `memberIDs`
unfoldable pub member_ids : Members → List Str
member_ids m = sort_strs (keys m)

-- One turn of the loop over the members.
unfoldable pub member_info : Node → Str → MemberInfo
member_info n id = record {
  id = id;
  addr = str_or_empty (lookup id n.members);
  match_index =
      if is_leader n.state
      then (if str_eq id n.id then last_index n.log else index_of id n.match_index)
      else 0;
}

-- `GetStatus`
unfoldable pub get_status : Node → Status
get_status n = record {
  id = n.id;
  state = n.state;
  term = n.current_term;
  leader_id = n.leader_id;
  leader_addr = leader_addr n;
  commit_index = n.commit_index;
  applied_index = n.last_applied;
  last_log_index = last_index n.log;
  snapshot_index = n.log.snap_index;
  elections_total = n.elections_total;
  peers = cluster_size n;
  members = map (member_info n) (member_ids n.members);
}
