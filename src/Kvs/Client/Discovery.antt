-- ===== src/Kvs/Client/Discovery.antt =====
-- internal/kvs/client.go: `ClusterStatus`, which asks every node and finds the nodes that have joined.
use link_raft.Prelude.{
  ℕ, Str, codes, is_empty, Bool, true, false, not, ◌&&◌, Option, none, some, List, [], ◌∷◌, ◌++◌,
  select, if◌then◌else◌,
}
use link_raft.Raft.Status.{MemberInfo}
use link_raft.Kvs.Server.{StatusResponse}
use link_raft.Kvs.Client.{Client, Network, client_for, contains}

-- `NodeStatus`; a `MemberStatus` has the fields of a member in a status response.
pub record NodeStatus : Type 0 where
  pub address : Str
  pub node_id : Str
  pub state : Str
  pub term : ℕ
  pub leader_id : Str
  pub commit_index : ℕ
  pub applied_index : ℕ
  pub last_log_index : ℕ
  pub snapshot_index : ℕ
  pub keys_total : ℕ
  pub members : List MemberInfo

abbrev pub down : Str → NodeStatus
down addr = record {
  address = addr;
  node_id = [];
  state = codes "down";
  term = 0;
  leader_id = [];
  commit_index = 0;
  applied_index = 0;
  last_log_index = 0;
  snapshot_index = 0;
  keys_total = 0;
  members = [];
}

abbrev pub node_status : Str → Option StatusResponse → NodeStatus
node_status addr none = down addr
node_status addr (some r) = record {
  address = addr;
  node_id = r.node_id;
  state = r.state;
  term = r.term;
  leader_id = r.leader_id;
  commit_index = r.commit_index;
  applied_index = r.applied_index;
  last_log_index = r.last_log_index;
  snapshot_index = r.snapshot_index;
  keys_total = r.keys_total;
  members = r.members;
}

-- The loop over the members of a response: the addresses queried so far, and the new ones.
unfoldable pub discover_members : List MemberInfo → List Str × List Str → List Str × List Str
discover_members [] (queried, extra) = (queried, extra)
discover_members (m ∷ ms) (queried, extra) = discover_members ms (
    if not (is_empty m.addr) && not (contains m.addr queried)
    then (m.addr ∷ queried, extra ++ m.addr ∷ [])
    else (queried, extra))

-- The loop over the responses.
unfoldable pub discover : List NodeStatus → List Str × List Str → List Str × List Str
discover [] found = found
discover (st ∷ sts) found = discover sts (discover_members st.members found)

module _ {W : Type 0} (net : Network W) (ask : Str → W → W × Option StatusResponse) where
  abbrev pub asked : Str → W → Client × Bool → (Client × W) × NodeStatus
  asked addr w (c, false) = ((c, w), down addr)
  asked addr w (c, true) = let (v, o) = ask addr w in ((c, v), node_status addr o)

  -- `statusOf`
  unfoldable pub status_of : Str → Client × W → (Client × W) × NodeStatus
  status_of addr (c, w) = asked addr w (client_for net addr w c)

  -- The goroutines for a list of addresses, one after the other; each fills the place of its address.
  unfoldable pub status_of_all : List Str → Client × W → (Client × W) × List NodeStatus
  status_of_all [] s = (s, [])
  status_of_all (a ∷ addrs) s =
      let (t, st) = status_of a s in let (u, sts) = status_of_all addrs t in (u, st ∷ sts)

  abbrev pub ask_extra : List Str → (Client × W) × List NodeStatus → (Client × W) × List NodeStatus
  ask_extra [] (s, out) = (s, out)
  ask_extra (a ∷ extra) (s, out) =
      let ((c, w), more) = status_of_all (a ∷ extra) s in
      (
        (record c { addrs = c.addrs ++ select (λ b. not (contains b c.addrs)) (a ∷ extra) }, w),
        out ++ more,
      )

  -- `ClusterStatus`
  unfoldable pub cluster_status : Client × W → (Client × W) × List NodeStatus
  cluster_status (c, w) =
      let (s, out) = status_of_all c.addrs (c, w) in
      ask_extra (discover out (c.addrs, [])).1 (s, out)
