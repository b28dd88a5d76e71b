-- ===== src/Examples/Clusters.antt =====
-- The theorems on readers, leaders and membership at nodes of the fixtures.
use link_raft.Prelude.{
  tt, ◌+◌, ◌*◌, ◌≡◌, ◌<◌, refl, [], ◌∷◌, true, false, some, none, codes, All, ltb, ap, arith,
}
use link_raft.Journal.{scan}
use link_raft.Raft.Log.{last_index, append, entry_at, term_at, open_log, latest_config}
use link_raft.Raft.Node.{
  Node, leader, follower, is_leader, cluster_size, majority, broadcast_append, follow_leader,
  signal_apply,
}
use link_raft.Raft.Commit.{advance_commit, advance_from, is_committable, count_matches}
use link_raft.Raft.Replication.{
  propose, handle_append_entries, is_consistent, accept_entries, follow_commit,
}
use link_raft.Raft.Reads.{confirm_begin, confirm_request, confirm_response, confirmed, wait_applied}
use link_raft.Raft.Reads.Confirm.{acknowledged, confirmed-majority, confirm_response-in_term}
use link_raft.Raft.Start.{
  Config, Disk, World, new_node, restored_members, restored_log, bootstrap, assemble,
}
use link_raft.Raft.Run.{here, next, proposes, reads, appends}
use link_raft.Raft.Run.Quiet.{propose-IsQuiet}
use link_raft.Raft.Run.Readers.{new_node-Reach_IsPrompt}
use link_raft.Raft.Log.Bounds.{IsWellFormed}
use link_raft.Raft.Run.WellFormed.{Step-IsWellFormed}
use link_raft.Raft.Run.Leader.{Step-leader_append_only}
use link_raft.Examples.Fixtures.{
  text_codec, text_machine, name_a, name_b, node, command, append_from_b,
}
use link_raft.Examples.Logs.{log-IsWellFormed}

-- The node "a" as leader of its term.
abbrev leading : Node
leading = record node { state = leader; leader_id = name_a; term_start_index = 3 }

boundary : (propose (codes "x") leading).0.log.snap_index ≡ 2
unfolding propose append advance_commit advance_from is_committable count_matches term_at entry_at
    last_index majority cluster_size broadcast_append signal_apply
boundary = refl

held : entry_at 4 leading.log ≡ some (command 1 4)
unfolding entry_at last_index
held = refl

Step-leader_append_only_example :
    ((propose (codes "x") leading).0.current_term ≡ 2)
    × (entry_at 4 (propose (codes "x") leading).0.log ≡ some (command 1 4))
Step-leader_append_only_example =
    Step-leader_append_only text_codec text_machine {n = leading} log-IsWellFormed
      (unfold last_index in omega arith) (omega arith) 4 (command 1 4) (proposes (codes "x")) refl
      (ap is_leader (propose-IsQuiet (codes "x") leading).same_state) (omega (arith, boundary)) held

abbrev config : Config
config = record {
  id = name_a;
  addr = codes "a:1";
  peers = (name_b, codes "b:1") ∷ [];
  join = false;
  election_timeout_min = 0;
  election_timeout_max = 0;
  heartbeat_interval = 0;
  applied_index = 0;
  has_snapshotter = true;
  snapshot_threshold = 0;
}

abbrev disk : Disk
disk = record { meta = record { term = 1; voted_for = [] }; snapshot = none; journal = [] }

abbrev world : World
world = record { now = 5; draws = 7 ∷ []; io = [] }

abbrev started : Node
started = assemble config disk world (bootstrap config, 0)

started-new_node : new_node text_codec config disk world ≡ some started
unfolding new_node restored_members restored_log open_log latest_config scan
started-new_node = refl

-- Two readers come: one waits for the first entry, one has nothing to wait for.
abbrev read_twice : Node
read_twice = (wait_applied 0 (wait_applied 1 started).0).0

new_node-Reach_IsPrompt_example : All (λ i. read_twice.last_applied < i) read_twice.apply_waiters
new_node-Reach_IsPrompt_example =
    new_node-Reach_IsPrompt text_codec text_machine config disk world started-new_node
      (next (next here (reads 1)) (reads 0))

confirmed-majority_example :
    confirmed 1 (false ∷ true ∷ []) ≡ ltb 3 (2 * (acknowledged (false ∷ true ∷ []) + 1))
confirmed-majority_example =
    confirmed-majority 2 1 leading (false ∷ true ∷ [])
      (unfold confirm_begin majority cluster_size in refl)

acknowledged_by_a :
    (confirm_response 2
      (some (handle_append_entries text_codec (confirm_request 2 leading) node).1)
      leading).1
    ≡ true
unfolding confirm_response handle_append_entries confirm_request follow_leader is_consistent
    last_index accept_entries follow_commit
acknowledged_by_a = refl

confirm_response-in_term_example :
    let (after, resp) = handle_append_entries text_codec (confirm_request 2 leading) node in
    (after.current_term ≡ 2) × (after.state ≡ follower)
confirm_response-in_term_example =
    confirm_response-in_term text_codec 2 leading node acknowledged_by_a

Step-IsWellFormed_example : IsWellFormed (handle_append_entries text_codec append_from_b node).0.log
Step-IsWellFormed_example =
    Step-IsWellFormed text_codec text_machine node log-IsWellFormed
      (unfold last_index in omega arith) (omega arith) (appends append_from_b)
      ((refl, (refl, tt)), omega arith)
