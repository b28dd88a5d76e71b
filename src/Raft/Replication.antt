-- ===== src/Raft/Replication.antt =====
-- internal/raft/raft.go: proposing, and the replication of the log.
pub mod Matching
pub mod Response
use link_raft.Prelude.{
  ℕ, ◌+◌, ◌-◌, ◌%◌, Str, str_eq, Bool, true, false, not, ◌&&◌, ◌||◌, Option, none, some, List, [],
  ◌∷◌, ◌++◌, ltb, leb, ◌==◌, if◌then◌else◌, inc64, sub64, u64_mod, length,
}
use link_raft.Prelude.Dict.{Dict, lookup, insert}
use link_raft.Raft.Log.{
  Entry, Log, entry_normal, last_index, term_at, entries_from, append, truncate_from,
}
use link_raft.Raft.Node.{
  Node, NotLeaderError, AppendEntriesRequest, AppendEntriesResponse, Task, send_snapshot, is_leader,
  is_follower, not_leader_error, next_io, set_log, signal_apply, become_follower, follow_leader,
  broadcast_append,
}
use link_raft.Raft.Commit.{advance_commit}
use link_raft.Raft.Membership.{MembersCodec, recompute_config, maybe_apply_config_entry, remove_nat}

-- What `Propose` comes to before it waits: the index whose result it waits for, or an error.
pub data Proposed : Type 0 where
  waiting : ℕ → Proposed
  not_leader : NotLeaderError → Proposed
  append_failed : Proposed

-- `Propose` up to its wait.
unfoldable pub propose : Str → Node → Node × Proposed
propose command n =
    if not (is_leader n.state)
    then (n, not_leader (not_leader_error n))
    else let index = inc64 (last_index n.log) in
      let entry : Entry = record {
        term = n.current_term;
        index = index;
        command = command;
        kind = entry_normal;
      } in
      let logged = append (next_io n.io) (entry ∷ []) n.log in
      if not logged.1
      then (set_log n logged, append_failed)
      else let waited = record (set_log n logged) {
        waiters = index ∷ remove_nat index n.waiters;
      } in
        (broadcast_append (advance_commit waited), waiting index)

-- `Propose` or `proposeConfig` whose context ends while it waits.
unfoldable pub give_up : ℕ → Node → Node
give_up index n = record n { waiters = remove_nat index n.waiters }

-- A read of a map of numbers: a missing key gives 0.
abbrev pub index_of : Str → Dict ℕ → ℕ
index_of p d = elim (lookup p d) [ none ↦ 0 | some i ↦ i ]

abbrev pub member_of : Str → List Str → Bool
member_of p [] = false
member_of p (q ∷ ps) = str_eq q p || member_of p ps

-- `sendAppend` up to the call: nothing is sent if a snapshot has to be.
unfoldable pub send_append_begin : Str → ℕ → Node → Node × Option AppendEntriesRequest
send_append_begin peer term n =
    let next = index_of peer n.next_index in
    if not (is_leader n.state) || not (n.current_term == term)
    then (n, none)
    else if leb next n.log.snap_index
    then (
      if member_of peer n.snap_in_flight then n else record n {
        snap_in_flight = peer ∷ n.snap_in_flight;
        tasks = n.tasks ++ send_snapshot peer term ∷ [];
      },
      none,
    )
    else (
      n,
      some (record {
        term = term;
        leader_id = n.id;
        prev_log_index = next - 1;
        prev_log_term = term_at (next - 1) n.log;
        entries = entries_from next n.log;
        leader_commit = n.commit_index;
      }),
    )

-- The new next index after a refusal.
unfoldable pub step_back : ℕ → ℕ → ℕ
step_back next hint =
    let new = if leb next (inc64 hint) then sub64 next 1 else inc64 hint in
    if ltb new 1 then 1 else new

-- The match index after a success.
unfoldable pub matched : AppendEntriesRequest → Str → Node → ℕ
matched req peer n =
    let match = (req.prev_log_index + length req.entries) % u64_mod in
    let old = index_of peer n.match_index in if ltb old match then match else old

-- `n.matchIndex[peer] = match` if it is larger.
unfoldable pub raise_match : AppendEntriesRequest → Str → Node → Dict ℕ
raise_match req peer n =
    let match = (req.prev_log_index + length req.entries) % u64_mod in
    if ltb (index_of peer n.match_index) match
    then insert peer match n.match_index
    else n.match_index

-- `sendAppend` after the call.
unfoldable pub send_append_end :
    Str → ℕ → AppendEntriesRequest → AppendEntriesResponse → Node → Node
send_append_end peer term req resp n =
    if ltb n.current_term resp.term
    then become_follower resp.term n
    else if not (is_leader n.state) || not (n.current_term == term)
    then n
    else if resp.success
    then advance_commit (record n {
      match_index = raise_match req peer n;
      next_index = insert peer (inc64 (matched req peer n)) n.next_index;
    })
    else record n {
      next_index =
          insert peer (step_back (index_of peer n.next_index) resp.match_index) n.next_index;
    }

-- The log check of `handleAppendEntries`.
unfoldable pub is_consistent : AppendEntriesRequest → Node → Bool
is_consistent req n =
    leb req.prev_log_index 0
    || (leb req.prev_log_index (last_index n.log)
        && term_at req.prev_log_index n.log == req.prev_log_term)

-- The hint of a refusal.
unfoldable pub refusal_hint : AppendEntriesRequest → Node → ℕ
refusal_hint req n =
    let last = last_index n.log in
    if ltb (req.prev_log_index - 1) last then req.prev_log_index - 1 else last

-- The commit index that a request brings along.
unfoldable pub follow_commit : ℕ → Node → Node
unfolding signal_apply
follow_commit leader_commit n =
    if ltb n.commit_index leader_commit
    then signal_apply (record n {
      commit_index =
          if ltb (last_index n.log) leader_commit then last_index n.log else leader_commit;
    })
    else n

module _ (codec : MembersCodec) where
  -- The `default` case of the loop, which the conflict case falls through to.
  unfoldable pub append_entry : Entry → Node → Node × Bool
  append_entry e n =
      let logged = append (next_io n.io) (e ∷ []) n.log in
      if logged.1
      then (maybe_apply_config_entry codec e (set_log n logged), true)
      else (set_log n logged, false)

  -- The conflict case up to the fall-through.
  unfoldable pub truncate_conflict : Entry → Node → Node × Bool
  truncate_conflict e n =
      let cut = truncate_from (next_io n.io) e.index n.log in
      if not cut.1 then (set_log n cut, false) else (
        if leb e.index n.config_index
            then recompute_config codec (set_log n cut)
            else set_log n cut,
        true,
      )

  -- One round of the loop over the entries. The Boolean is false at an early return.
  unfoldable pub accept_entry : Entry → Node → Node × Bool
  accept_entry e n =
      if leb e.index n.log.snap_index
      then (n, true)
      else if leb e.index (last_index n.log) && term_at e.index n.log == e.term
      then (n, true)
      else if leb e.index (last_index n.log)
      then (let (m, cut) = truncate_conflict e n in if cut then append_entry e m else (m, false))
      else append_entry e n

  unfoldable pub accept_entries : List Entry → Node → Node × Bool
  accept_entries [] n = (n, true)
  accept_entries (e ∷ es) n =
      let (m, went_on) = accept_entry e n in
      let rest = accept_entries es m in if went_on then rest else (m, false)

  -- `handleAppendEntries`
  unfoldable pub handle_append_entries : AppendEntriesRequest → Node → Node × AppendEntriesResponse
  handle_append_entries req n =
      let last = last_index n.log in
      if ltb req.term n.current_term
      then (n, record { term = n.current_term; success = false; match_index = last })
      else let led = follow_leader req.term req.leader_id n in
        if not (is_consistent req led)
        then (
          led,
          record { term = led.current_term; success = false; match_index = refusal_hint req led },
        )
        else let (taken, all) = accept_entries req.entries led in
          if not all
          then (taken, record { term = led.current_term; success = false; match_index = last })
          else (
            follow_commit req.leader_commit taken,
            record {
              term = led.current_term;
              success = true;
              match_index = (req.prev_log_index + length req.entries) % u64_mod;
            },
          )
