-- ===== src/Kvs/Server.antt =====
-- internal/kvs/server.go: what the service answers, from the results of the raft node's calls and
-- the store.
pub mod Replies
use link_raft.Prelude.{tt, ℕ, Str, Bool, true, false, Option, none, some, List, [], map, length}
use link_raft.Prelude.Int.{ℤ}
use link_raft.Raft.Node.{Node, NotLeaderError, state_name}
use link_raft.Raft.Membership.{ChangeError}
use link_raft.Raft.Status.{MemberInfo, Status, get_status}
use link_raft.Kvs.Store.{Store, set, delete, incr, Command, Returned, get, keys_with, len}

-- The result of a call of the raft node: a value, NotLeaderError, or another error.
pub data Outcome {ℓ} (A : Type ℓ) : Type ℓ where
  result : A → Outcome A
  not_leader : NotLeaderError → Outcome A
  failed : Outcome A

-- A response message; `content` stands for the fields besides not_leader and leader_addr.
pub record Reply {ℓ} (A : Type ℓ) : Type ℓ where
  pub content : A
  pub not_leader : Bool
  pub leader_addr : Str

-- `propose` and `readIndex`: the value, or where the leader is. `none` is an error of the RPC.
unfoldable pub redirected {ℓ} : {A : Type ℓ} → Outcome A → Option (Reply (Option A))
redirected (result a) = some (record { content = some a; not_leader = false; leader_addr = [] })
redirected (not_leader e) =
    some (record { content = none; not_leader = true; leader_addr = e.leader_addr })
redirected failed = none

module _ {ℓ κ} {A : Type ℓ} {B : Type κ} where
  -- The checks that every handler starts with: an error of the RPC, a redirection that carries the
  -- message's zero values, or the handler's own answer.
  unfoldable pub answer : (A → Option B) → B → Option (Reply (Option A)) → Option (Reply B)
  answer f empty none = none
  answer f empty (some r) = elim r.content [
    | none ↦
        some (record { content = empty; not_leader = r.not_leader; leader_addr = r.leader_addr })
    | some a ↦ elim (f a) [
      | none ↦ none
      | some b ↦ some (record { content = b; not_leader = false; leader_addr = [] })
    ]
  ]

-- The commands that the handlers propose.
abbrev pub set_command : Str → Str → Command
set_command key value = record { op = set; key = key; value = value }

abbrev pub delete_command : Str → Command
delete_command key = record { op = delete; key = key; value = [] }

abbrev pub incr_command : Str → Command
incr_command key = record { op = incr; key = key; value = [] }

-- `Get`, from the result of `ReadIndex` and the store at that time: the value and whether it exists.
abbrev pub found_value : Option Str → Str × Bool
found_value none = ([], false)
found_value (some v) = (v, true)

unfoldable pub serve_get : Str → Outcome (Unit {0}) → Store → Option (Reply (Str × Bool))
serve_get key read s = answer (λ u. some (found_value (get key s))) ([], false) (redirected read)

-- `Keys`
unfoldable pub serve_keys : Str → Outcome (Unit {0}) → Store → Option (Reply (List Str))
serve_keys prefix read s = answer (λ u. some (keys_with prefix s)) [] (redirected read)

-- `Set` and `Delete`, from the result of `Propose`
unfoldable pub serve_write : Outcome Returned → Option (Reply (Unit {0}))
serve_write proposed = answer (λ r. some tt) tt (redirected proposed)

-- `Incr`: a result that is no int64 is an error.
unfoldable pub serve_incr : Outcome Returned → Option (Reply ℤ)
serve_incr proposed = answer (λ r. r) (ℤ.pos 0) (redirected proposed)

-- What `AddMember` and `RemoveMember` of the node return: nil, an error of theirs, or the context's.
pub data Changed : Type 0 where
  changed : Changed
  refused : ChangeError → Changed
  cancelled : Changed

-- `memberChangeResponse`. The content is the error whose text the response carries.
unfoldable pub member_change_response : Changed → Option (Reply (Option ChangeError))
member_change_response changed =
    some (record { content = none; not_leader = false; leader_addr = [] })
member_change_response (refused (ChangeError.not_leader e)) =
    some (record { content = none; not_leader = true; leader_addr = e.leader_addr })
member_change_response (refused e) =
    some (record { content = some e; not_leader = false; leader_addr = [] })
member_change_response cancelled = none

pub record StatusResponse : Type 0 where
  pub node_id : Str
  pub state : Str
  pub term : ℕ
  pub leader_id : Str
  pub commit_index : ℕ
  pub applied_index : ℕ
  pub snapshot_index : ℕ
  pub last_log_index : ℕ
  pub keys_total : ℕ
  pub members : List MemberInfo

-- `Status`
unfoldable pub serve_status : Node → Store → StatusResponse
serve_status n s =
    let st = get_status n in
    record {
      node_id = st.id;
      state = state_name st.state;
      term = st.term;
      leader_id = st.leader_id;
      commit_index = st.commit_index;
      applied_index = st.applied_index;
      snapshot_index = st.snapshot_index;
      last_log_index = st.last_log_index;
      keys_total = len s;
      members = st.members;
    }
