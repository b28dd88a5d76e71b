-- ===== src/Raft/Start.antt =====
-- internal/raft/raft.go: `NewNode`, on the content of its files.
use link_raft.Prelude.{
  ℕ, ◌*◌, Str, Bool, false, Option, none, some, List, [], ◌∷◌, ltb, leb, ◌==◌, if◌then◌else◌,
  length,
}
use link_raft.Prelude.Dict.{insert}
use link_raft.Journal.{Journal, Io}
use link_raft.Raft.Log.{Entry, Log, open_log, latest_config}
use link_raft.Raft.Node.{Node, Members, Meta, Snapshot, follower, reset_election}
use link_raft.Raft.Membership.{MembersCodec, peers_of}

-- The part of `Config` that the model uses; durations in nanoseconds.
pub record Config : Type 0 where
  pub id : Str
  pub addr : Str
  pub peers : Members
  pub join : Bool
  pub election_timeout_min : ℕ
  pub election_timeout_max : ℕ
  pub heartbeat_interval : ℕ
  pub applied_index : ℕ
  pub has_snapshotter : Bool
  pub snapshot_threshold : ℕ

-- What the files hold: a missing meta file gives the zero value, a missing log an empty one.
pub record Disk : Type 0 where
  pub meta : Meta
  pub snapshot : Option Snapshot
  pub journal : Journal Entry

-- The clock and the outcomes to come, for the new node.
pub record World : Type 0 where
  pub now : ℕ
  pub draws : List ℕ
  pub io : List Io

abbrev pub millisecond : ℕ
millisecond = 1000000

abbrev or_default : ℕ → ℕ → ℕ
or_default d v = if v == 0 then d else v

insert_all : Members → Members → Members
insert_all [] m = m
insert_all ((id, addr) ∷ more) m = insert_all more (insert id addr m)

unfoldable pub bootstrap : Config → Members
unfolding insert_all
bootstrap cfg = insert_all cfg.peers ((cfg.id, cfg.addr) ∷ [])

snap_index_of : Option Snapshot → ℕ
snap_index_of none = 0
snap_index_of (some s) = s.index

snap_term_of : Option Snapshot → ℕ
snap_term_of none = 0
snap_term_of (some s) = s.term

snap_members_of : Option Snapshot → Members
snap_members_of none = []
snap_members_of (some s) = s.members

-- The log, opened at the boundary of the snapshot.
unfoldable pub restored_log : Disk → Log
unfolding snap_index_of snap_term_of
restored_log d = open_log d.journal (snap_index_of d.snapshot) (snap_term_of d.snapshot)

module _ (codec : MembersCodec) where
  -- The configuration and its index: the bootstrap one, then the snapshot's, then the log's;
  -- `none` if the log's cannot be decoded.
  unfoldable pub restored_members : Config → Disk → Option (Members × ℕ)
  unfolding snap_index_of snap_members_of
  restored_members cfg d =
      let base : Members × ℕ =
        if leb 1 (length (snap_members_of d.snapshot))
        then (snap_members_of d.snapshot, snap_index_of d.snapshot)
        else (bootstrap cfg, 0) in
      elim (latest_config (restored_log d)) [
        | none ↦ some base
        | some e ↦ elim (codec.decode e.command) [ none ↦ none | some m ↦ some (m, e.index) ]
      ]

-- The fields that `NewNode` fills in once the files are read.
unfoldable pub assemble : Config → Disk → World → Members × ℕ → Node
unfolding snap_index_of snap_members_of reset_election
assemble cfg d w (members, config_index) =
    let snap = snap_index_of d.snapshot in
    let applied = if ltb cfg.applied_index snap then snap else cfg.applied_index in
    let made : Node = record {
      id = cfg.id;
      addr = cfg.addr;
      peers = peers_of members cfg.id;
      members = members;
      bootstrap_members = bootstrap cfg;
      snap_members = snap_members_of d.snapshot;
      config_index = config_index;
      joining = cfg.join;
      state = follower;
      current_term = d.meta.term;
      voted_for = d.meta.voted_for;
      leader_id = [];
      log = restored_log d;
      commit_index = applied;
      last_applied = applied;
      next_index = [];
      match_index = [];
      term_start_index = 0;
      apply_waiters = [];
      election_reset = w.now;
      election_timeout = 0;
      last_heartbeat = 0;
      heartbeat_interval = or_default (50 * millisecond) cfg.heartbeat_interval;
      election_timeout_min = or_default (300 * millisecond) cfg.election_timeout_min;
      election_timeout_max = or_default (600 * millisecond) cfg.election_timeout_max;
      waiters = [];
      has_snapshotter = cfg.has_snapshotter;
      snapshot_threshold = or_default 1000 cfg.snapshot_threshold;
      snap_in_flight = [];
      elections_total = 0;
      apply_signal = false;
      trans_peers = peers_of members cfg.id;
      meta = d.meta;
      snapshot = d.snapshot;
      tasks = [];
      refused = [];
      now = w.now;
      draws = w.draws;
      io = w.io;
    } in
    reset_election made

unfoldable pub new_node : MembersCodec → Config → Disk → World → Option Node
new_node codec cfg d w = elim (restored_members codec cfg d) [
  | none ↦ none
  | some m ↦ some (assemble cfg d w m)
]
