-- ===== src/Raft/Reads.antt =====
-- internal/raft/readindex.go: linearizable reads; and the apply loop of raft.go, which wakes them.
pub mod Confirm
use link_raft.Prelude.{
  ℕ, ◌+◌, ◌-◌, is_empty, Bool, true, false, not, ◌&&◌, ◌||◌, Option, none, some, List, [], ◌∷◌,
  ◌++◌, ltb, leb, ◌==◌, if◌then◌else◌, inc64, select,
}
use link_raft.Raft.Log.{Entry, entry_normal, entry_at}
use link_raft.Raft.Node.{
  Node, NotLeaderError, AppendEntriesRequest, AppendEntriesResponse, is_leader, cluster_size,
  majority, not_leader_error, become_follower,
}
use link_raft.Raft.Membership.{remove_nat}

-- What `ReadIndex` has read when it gives up the lock.
pub record ReadPoint : Type 0 where
  pub term : ℕ
  pub read_index : ℕ
  pub single : Bool

pub data ReadStart : Type 0 where
  refused : NotLeaderError → ReadStart
  reading : ReadPoint → ReadStart

-- `ReadIndex` up to `confirmLeadership`.
unfoldable pub read_index_begin : Node → ReadStart
read_index_begin n =
    if not (is_leader n.state)
    then refused (not_leader_error n)
    else reading (record {
      term = n.current_term;
      read_index =
          if ltb n.commit_index n.term_start_index then n.term_start_index else n.commit_index;
      single = cluster_size n == 1;
    })

-- `confirmLeadership` up to its calls: `none` if this is no longer the leader of the term, and
-- otherwise the number of acknowledgements that it needs.
unfoldable pub confirm_begin : ℕ → Node → Option ℕ
confirm_begin term n =
    if not (is_leader n.state) || not (n.current_term == term) then none else some (majority n - 1)

-- The request of `confirmLeadership`, which checks no log and brings no commit index.
unfoldable pub confirm_request : ℕ → Node → AppendEntriesRequest
confirm_request term n = record {
  term = term;
  leader_id = n.id;
  prev_log_index = 0;
  prev_log_term = 0;
  entries = [];
  leader_commit = 0;
}

-- A goroutine of `confirmLeadership`: the response, if the call did not fail, as an acknowledgement.
unfoldable pub confirm_response : ℕ → Option AppendEntriesResponse → Node → Node × Bool
confirm_response term none n = (n, false)
confirm_response term (some resp) n =
    if ltb term resp.term
    then (if ltb n.current_term resp.term then become_follower resp.term n else n, false)
    else (n, true)

-- The loop that counts the acknowledgements that arrive before the timeout.
unfoldable pub gather : ℕ → ℕ → List Bool → Bool
gather need got [] = false
gather need got (ack ∷ acks) =
    let got' = if ack then got + 1 else got in
    let rest = gather need got' acks in if ack && leb need got' then true else rest

-- `confirmLeadership` after its calls, over the acknowledgements in the order of their arrival.
unfoldable pub confirmed : ℕ → List Bool → Bool
unfolding gather
confirmed need acks = if leb need 0 then true else gather need 0 acks

-- `waitApplied` up to its wait; the Boolean says that there is nothing to wait for.
unfoldable pub wait_applied : ℕ → Node → Node × Bool
wait_applied index n =
    if leb index n.last_applied
    then (n, true)
    else (record n { apply_waiters = n.apply_waiters ++ index ∷ [] }, false)

-- `notifyApplyWaitersLocked`: the waiters that stay; the others' channels are closed.
unfoldable pub notify_apply_waiters : Node → Node
notify_apply_waiters n = record n {
  apply_waiters = select (λ w. ltb n.last_applied w) n.apply_waiters;
}

-- The waiters that `notify_apply_waiters` wakes.
unfoldable pub woken : Node → List ℕ
woken n = select (λ w. leb w n.last_applied) n.apply_waiters

abbrev pub is_waiting : ℕ → List ℕ → Bool
is_waiting i [] = false
is_waiting i (j ∷ js) = j == i || is_waiting i js

-- What a round of `applyLoop` takes from the node under its first lock.
pub data Round : Type 0 where
  idle : Round
  missing : ℕ → Round
  apply : ℕ → Entry → Bool → Round

unfoldable pub apply_begin : Node → Node × Round
unfolding notify_apply_waiters
apply_begin n =
    let idx = inc64 n.last_applied in
    let rest = record n { waiters = remove_nat idx n.waiters } in
    if leb n.commit_index n.last_applied then (n, idle) else elim (entry_at idx n.log) [
      | none ↦ (notify_apply_waiters (record rest { last_applied = idx }), missing idx)
      | some e ↦ (rest, apply idx e (is_waiting idx n.waiters))
    ]

-- The entries that go to the state machine.
unfoldable pub is_command : Entry → Bool
is_command e = e.kind == entry_normal && not (is_empty e.command)

-- The second lock of the round, after the state machine has applied the entry.
unfoldable pub apply_end : ℕ → Node → Node
unfolding notify_apply_waiters
apply_end idx n =
    notify_apply_waiters (if ltb n.last_applied idx then record n { last_applied = idx } else n)
