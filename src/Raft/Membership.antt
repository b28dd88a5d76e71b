-- ===== src/Raft/Membership.antt =====
-- internal/raft/membership.go: cluster configurations and their changes.
pub mod Quorums
pub mod Shared
pub mod Changes
use link_raft.Prelude.{
  ℕ, Str, is_empty, str_eq, Bool, true, false, not, ◌||◌, Option, none, some, List, [], ◌∷◌, ltb,
  leb, ◌==◌, if◌then◌else◌, inc64, length, select,
}
use link_raft.Prelude.Dict.{Dict, lookup, insert, erase, keys}
use link_raft.Raft.Log.{Entry, entry_config, last_index, latest_config, append}
use link_raft.Raft.Node.{
  Node, Members, NotLeaderError, is_leader, not_leader_error, next_io, set_log, broadcast_append,
}
use link_raft.Raft.Commit.{advance_commit}

-- The JSON form of a configuration: json.Marshal and json.Unmarshal at map[string]string.
pub record MembersCodec : Type 0 where
  pub encode : Members → Str
  pub decode : Str → Option Members

-- `peersOf`
unfoldable pub peers_of : Members → Str → Members
peers_of [] self = []
peers_of ((id, addr) ∷ m) self =
    let rest = peers_of m self in if str_eq id self then rest else (id, addr) ∷ rest

abbrev pub has_key {ℓ} : {V : Type ℓ} → Str → Dict V → Bool
has_key k m = elim (lookup k m) [ none ↦ false | some v ↦ true ]

-- The first loop of a leader: new peers start with nothing replicated.
unfoldable pub add_missing : ℕ → List Str → Dict ℕ × Dict ℕ → Dict ℕ × Dict ℕ
add_missing next [] d = d
add_missing next (p ∷ ps) d =
    add_missing next ps (if has_key p d.0 then d else (insert p next d.0, insert p 0 d.1))

-- The second loop: what has a next index and is no peer is forgotten. `m` is the map that the loop
-- goes over.
unfoldable pub drop_removed : Members → Dict ℕ → Dict ℕ × Dict ℕ → Dict ℕ × Dict ℕ
drop_removed peers [] d = d
drop_removed peers ((id, next) ∷ m) d =
    drop_removed peers m (if has_key id peers then d else (erase id d.0, erase id d.1))

-- The same loop at the transfers in flight.
drop_transfers : Members → Dict ℕ → List Str → List Str
drop_transfers peers [] l = l
drop_transfers peers ((id, next) ∷ m) l =
    drop_transfers peers m (if has_key id peers then l else select (λ p. not (str_eq p id)) l)

-- `applyConfigLocked`
unfoldable pub track_peers : Node → Node
unfolding drop_transfers
track_peers n =
    let (next, match) =
      add_missing (inc64 (last_index n.log)) (keys n.peers) (n.next_index, n.match_index) in
    let (next', match') = drop_removed n.peers next (next, match) in
    record n {
      next_index = next';
      match_index = match';
      snap_in_flight = drop_transfers n.peers next n.snap_in_flight;
    }

unfoldable pub apply_config : Members → ℕ → Node → Node
apply_config members index n =
    let m = record n {
      members = members;
      config_index = index;
      peers = peers_of members n.id;
      trans_peers = peers_of members n.id;
    } in
    let tracked = if is_leader m.state then track_peers m else m in
    if has_key n.id members then record tracked { joining = false } else tracked

-- Why a change of the configuration is refused.
pub data ChangeError : Type 0 where
  not_leader : NotLeaderError → ChangeError
  change_in_progress : ChangeError
  fields_required : ChangeError
  already_member : Str → Str → ChangeError
  remove_leader : ChangeError
  no_such_member : Str → ChangeError
  append_failed : ChangeError

pub data Checked {ℓ} (A : Type ℓ) : Type ℓ where
  ok : A → Checked A
  err : ChangeError → Checked A

-- The two mutations of `proposeConfig`.
unfoldable pub add_to : Str → Str → Members → Checked Members
add_to id addr members = elim (lookup id members) [
  | none ↦ ok (insert id addr members)
  | some cur ↦ err (already_member id cur)
]

unfoldable pub remove_from : Str → Str → Members → Checked Members
remove_from self id members =
    if str_eq id self
    then err remove_leader
    else if has_key id members
    then ok (erase id members)
    else err (no_such_member id)

abbrev pub remove_nat : ℕ → List ℕ → List ℕ
remove_nat i = select (λ j. not (j == i))

module _ (codec : MembersCodec) where
  -- `recomputeConfigLocked`
  unfoldable pub recompute_config : Node → Node
  recompute_config n =
      let fallback =
        if leb 1 (length n.snap_members)
        then apply_config n.snap_members n.log.snap_index n
        else apply_config n.bootstrap_members 0 n in
      elim (latest_config n.log) [
        | none ↦ fallback
        | some e ↦ elim (codec.decode e.command) [
          | none ↦ fallback
          | some m ↦ apply_config m e.index n
        ]
      ]

  -- `maybeApplyConfigEntryLocked`
  unfoldable pub maybe_apply_config_entry : Entry → Node → Node
  maybe_apply_config_entry e n =
      if not (e.kind == entry_config)
      then n
      else elim (codec.decode e.command) [ none ↦ n | some m ↦ apply_config m e.index n ]

  -- `proposeConfig` up to its wait, once the mutation has given the new configuration. On success
  -- the result is the index that the caller waits for.
  unfoldable pub propose_members : Members → Node → Node × Checked ℕ
  propose_members members n =
      let index = inc64 (last_index n.log) in
      let entry : Entry = record {
        term = n.current_term;
        index = index;
        command = codec.encode members;
        kind = entry_config;
      } in
      let logged = append (next_io n.io) (entry ∷ []) n.log in
      if not logged.1
      then (set_log n logged, err append_failed)
      else let waiting = record (set_log n logged) {
        waiters = index ∷ remove_nat index n.waiters;
      } in
        (broadcast_append (advance_commit (apply_config members index waiting)), ok index)

  -- `proposeConfig`
  unfoldable pub propose_config : (Members → Checked Members) → Node → Node × Checked ℕ
  unfolding propose_members
  propose_config mutate n =
      if not (is_leader n.state)
      then (n, err (not_leader (not_leader_error n)))
      else if ltb n.commit_index n.config_index
      then (n, err change_in_progress)
      else elim (mutate n.members) [ err e ↦ (n, err e) | ok members ↦ propose_members members n ]

  -- `AddMember`
  unfoldable pub add_member : Str → Str → Node → Node × Checked ℕ
  add_member id addr n =
      if is_empty id || is_empty addr
      then (n, err fields_required)
      else propose_config (add_to id addr) n

  -- `RemoveMember`
  unfoldable pub remove_member : Str → Node → Node × Checked ℕ
  remove_member id n = propose_config (remove_from n.id id) n
