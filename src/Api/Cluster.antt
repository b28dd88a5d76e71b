-- ===== src/Api/Cluster.antt =====
-- internal/api/handler/cluster.go and health.go: the members of the cluster, the tags in use, and the
-- state of the nodes.
use link_raft.Prelude.{
  tt, ℕ, Str, codes, str_eq, str_leb, is_empty, Bool, not, ◌&&◌, ◌||◌, Option, none, some, List, [],
  ◌∷◌, map, drop, length, ltb, ◌==◌, if◌then◌else◌,
}
use link_raft.Prelude.Dict.{Dict, lookup, insert}
use link_raft.Prelude.Int.{ℤ}
use link_raft.Prelude.Ordering.{sort_stable}
use link_raft.Prelude.Results.{Result, ok, err}
use link_raft.Raft.Status.{MemberInfo}
use link_raft.Kvs.Client.Discovery.{NodeStatus}
use link_raft.Api.Act.{Act, Failure, bad_request, conflict, pure, raise, reject, ◌>>=◌, ◌>>◌}
use link_raft.Api.Kv.{Kv}
use link_raft.Api.Keys.{index_tag}
use link_raft.Api.Repo.{Json, index}
use link_raft.Api.Votes.{is_some}

-- The calls of `KV` about the cluster. A change of the members returns nil or the text of an error.
pub record ClusterKv (S : Type 0) : Type 0 where
  pub cluster_status : S → S × List NodeStatus
  pub add_member : Str → Str → S → S × Option Str
  pub remove_member : Str → S → S × Option Str

-- The body of `AddClusterMember`.
pub record AddMemberRequest : Type 0 where
  pub id : Str
  pub addr : Str

module _ {S : Type 0} (cluster : ClusterKv S) where
  change_reply : S × Option Str → S × Result Failure (Unit {0})
  change_reply (s, none) = (s, ok tt)
  change_reply (s, some e) = (s, err (conflict e))

  add_bound : AddMemberRequest → Act S (Unit {0})
  unfolding change_reply
  add_bound req = do
    reject (is_empty req.id || is_empty req.addr) (bad_request (codes "id and addr are required"))
    λ s. change_reply (cluster.add_member req.id req.addr s)

  -- `AddClusterMember`; a body that cannot be bound is `none`
  unfoldable pub add_cluster_member : Option AddMemberRequest → Act S (Unit {0})
  unfolding add_bound
  add_cluster_member none = raise (bad_request (codes "invalid request body"))
  add_cluster_member (some req) = add_bound req

  -- `RemoveClusterMember`
  unfoldable pub remove_cluster_member : Str → Act S (Unit {0})
  unfolding change_reply
  remove_cluster_member id = do
    reject (is_empty id) (bad_request (codes "id is required"))
    λ s. change_reply (cluster.remove_member id s)

-- `tagCount`
pub record TagCount : Type 0 where
  pub name : Str
  pub count : ℕ

-- The order of the tags: more links first, then by name.
unfoldable pub is_more_used : TagCount → TagCount → Bool
is_more_used t u =
    if t.count == u.count
    then str_leb t.name u.name && not (str_eq t.name u.name)
    else ltb u.count t.count

module _ {S : Type 0} (kv : Kv S) (ids : Json (List ℤ)) where
  counted : Str → List ℤ → List TagCount → List TagCount
  counted key [] rest = rest
  counted key (id ∷ more) rest =
      record { name = drop (length (index_tag [])) key; count = length (id ∷ more) } ∷ rest

  -- The loop over the keys.
  unfoldable pub count_tags : List Str → Act S (List TagCount)
  unfolding counted
  count_tags [] = pure []
  count_tags (key ∷ keys) = do
    found ← index kv ids key
    rest ← count_tags keys
    pure (counted key found rest)

  -- `ListTags`
  unfoldable pub list_tags : Act S (List TagCount)
  list_tags = do
    keys ← kv.keys (index_tag [])
    tags ← count_tags keys
    pure (sort_stable is_more_used tags)

-- `healthNode`
pub record HealthNode : Type 0 where
  pub id : Str
  pub address : Str
  pub state : Str
  pub is_leader : Bool
  pub is_member : Bool
  pub term : ℕ
  pub commit_index : ℕ
  pub applied_index : ℕ
  pub last_log_index : ℕ
  pub snapshot_index : ℕ
  pub keys_total : ℕ
  pub match_index : ℕ

-- The response of `Health`; a `healthMember` has the fields of a member's status.
pub record HealthReport : Type 0 where
  pub nodes : List HealthNode
  pub leader_id : Str
  pub term : ℕ
  pub last_log_index : ℕ
  pub members : List MemberInfo

-- The first node that calls itself the leader.
unfoldable pub find_leader : List NodeStatus → Option NodeStatus
find_leader [] = none
find_leader (st ∷ sts) =
    let rest = find_leader sts in if str_eq st.state (codes "leader") then some st else rest

-- The first leader that a node names.
unfoldable pub named_leader : List NodeStatus → Str
named_leader [] = []
named_leader (st ∷ sts) =
    let rest = named_leader sts in if is_empty st.leader_id then rest else st.leader_id

-- `memberAddrs` and `matchIndex`
unfoldable pub member_addrs : List MemberInfo → Dict Str → Dict Str
member_addrs [] d = d
member_addrs (m ∷ ms) d = member_addrs ms (insert m.id m.addr d)

unfoldable pub match_indexes : List MemberInfo → Dict ℕ → Dict ℕ
match_indexes [] d = d
match_indexes (m ∷ ms) d = match_indexes ms (insert m.id m.match_index d)

-- The member with this address, else the empty text.
unfoldable pub member_at : Str → Dict Str → Str
member_at address [] = []
member_at address ((id, addr) ∷ d) =
    let rest = member_at address d in if str_eq addr address then id else rest

index_or_zero : Option ℕ → ℕ
index_or_zero none = 0
index_or_zero (some n) = n

-- One turn of the loop over the statuses.
unfoldable pub health_node : Dict Str → Dict ℕ → NodeStatus → HealthNode
unfolding index_or_zero
health_node addrs matches st =
    let id = if is_empty st.node_id then member_at st.address addrs else st.node_id in
    record {
      id = id;
      address = st.address;
      state = st.state;
      is_leader = str_eq st.state (codes "leader");
      is_member = length addrs == 0 || is_some (lookup id addrs);
      term = st.term;
      commit_index = st.commit_index;
      applied_index = st.applied_index;
      last_log_index = st.last_log_index;
      snapshot_index = st.snapshot_index;
      keys_total = st.keys_total;
      match_index = index_or_zero (lookup id matches);
    }

report : List NodeStatus → Option NodeStatus → HealthReport
report sts none = record {
  nodes = map (health_node [] []) sts;
  leader_id = named_leader sts;
  term = 0;
  last_log_index = 0;
  members = [];
}
report sts (some l) = record {
  nodes = map (health_node (member_addrs l.members []) (match_indexes l.members [])) sts;
  leader_id = if is_empty l.node_id then named_leader sts else l.node_id;
  term = l.term;
  last_log_index = l.last_log_index;
  members = l.members;
}

-- `Health`, from the statuses of the nodes
unfoldable pub health : List NodeStatus → HealthReport
unfolding report
health sts = report sts (find_leader sts)
