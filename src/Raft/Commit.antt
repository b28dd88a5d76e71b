-- ===== src/Raft/Commit.antt =====
-- internal/raft/raft.go: the commit index and the change to leader.
pub mod Advance
use link_raft.Prelude.{
  ℕ, zero, suc, ◌+◌, ◌-◌, Str, Bool, true, false, ◌&&◌, Option, none, some, List, [], ◌∷◌, ltb, leb,
  ◌==◌, if◌then◌else◌, inc64,
}
use link_raft.Prelude.Dict.{Dict, keys}
use link_raft.Raft.Log.{Entry, Log, entry_normal, last_index, term_at, append}
use link_raft.Raft.Node.{
  Node, leader, is_leader, majority, next_io, set_log, signal_apply, broadcast_append,
}

-- How many of the peers' match indexes reach `idx`.
unfoldable pub count_matches : ℕ → Dict ℕ → ℕ
count_matches idx [] = 0
count_matches idx ((p, m) ∷ rest) =
    let others = count_matches idx rest in if leb idx m then suc others else others

-- The test of the loop: the entry is of this term, and a majority with this node has it.
unfoldable pub is_committable : ℕ → Node → Bool
is_committable idx n =
    term_at idx n.log == n.current_term && leb (majority n) (count_matches idx n.match_index + 1)

-- The loop over the indexes above the commit index, of which there are `rounds`; they do not reach 2^64.
unfoldable pub advance_from : ℕ → ℕ → Node → Node
advance_from zero idx n = n
advance_from (suc rounds) idx n =
    advance_from rounds (idx + 1)
      (if is_committable idx n then record n { commit_index = idx } else n)

-- `advanceCommitLocked`
unfoldable pub advance_commit : Node → Node
advance_commit n =
    signal_apply (advance_from (last_index n.log - n.commit_index) (n.commit_index + 1) n)

-- The same value for each peer.
unfoldable pub for_peers : ℕ → List Str → Dict ℕ
for_peers v [] = []
for_peers v (p ∷ ps) = (p, v) ∷ for_peers v ps

-- `becomeLeaderLocked`
unfoldable pub become_leader : Node → Node
become_leader n =
    let last = last_index n.log in
    let noop : Entry = record {
      term = n.current_term;
      index = inc64 last;
      command = [];
      kind = entry_normal;
    } in
    let m = record n {
      state = leader;
      leader_id = n.id;
      next_index = for_peers (inc64 last) (keys n.peers);
      match_index = for_peers 0 (keys n.peers);
    } in
    let logged = set_log m (append (next_io m.io) (noop ∷ []) m.log) in
    let started = advance_commit (record logged { term_start_index = noop.index }) in
    broadcast_append (record started { last_heartbeat = started.now })
