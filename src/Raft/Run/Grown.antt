-- ===== src/Raft/Run/Grown.antt =====
-- The steps that leave a log alone or add one entry to it.
use link_raft.Prelude.{
  ℕ, ◌+◌, ◌<◌, ◌≡◌, refl, inl, inr, Str, Option, none, some, [], ◌∷◌, arith, tt, inc64, u64_mod,
}
use link_raft.Journal.{Io}
use link_raft.Raft.Log.{Entry, Log, entry_normal, last_index, append}
use link_raft.Raft.Log.Bounds.{IsWellFormed}
use link_raft.Raft.Log.Invariant.{append-IsWellFormed}
use link_raft.Raft.Node.{
  Node, next_io, RequestVoteRequest, RequestVoteResponse, become_follower, follow_leader,
  reset_election, broadcast_append, AppendEntriesRequest, AppendEntriesResponse,
  InstallSnapshotRequest, InstallSnapshotResponse, Members,
}
use link_raft.Raft.Commit.{become_leader}
use link_raft.Raft.Election.{
  Round, tick, stand, start_election, start_pre_vote, open_round, on_pre_vote, on_vote,
  handle_request_vote, grant_vote,
}
use link_raft.Raft.Membership.{
  MembersCodec, propose_members, propose_config, add_member, add_to, Checked,
}
use link_raft.Raft.Replication.{follow_commit, propose, send_append_end, give_up}
use link_raft.Raft.Reads.{confirm_response, wait_applied, apply_begin, apply_end}
use link_raft.Raft.Compaction.{send_snapshot_end}
use link_raft.Raft.Run.Steady.{log-advance_commit}
use link_raft.Raft.Run.Keeps.{log-propose, log-propose_members}

pub appended-IsWellFormed :
    (io : Io) (l : Log) (e : Entry)
    → IsWellFormed l
    → last_index l + 2 < u64_mod
    → e.index ≡ inc64 (last_index l)
    → IsWellFormed (append io (e ∷ []) l).0
appended-IsWellFormed io l e w room index =
    append-IsWellFormed io l w (e ∷ []) (omega (arith, index), tt) (omega arith)

pub log-become_follower : (term : ℕ) (n : Node) → (become_follower term n).log ≡ n.log
unfolding become_follower
log-become_follower term n = ground arith

pub log-become_leader :
    (n : Node)
    → (become_leader n).log
      ≡ (append
          (next_io n.io)
          (record {
            term = n.current_term;
            index = inc64 (last_index n.log);
            command = [];
            kind = entry_normal;
          }
            ∷ [])
          n.log).0
unfolding become_leader broadcast_append
log-become_leader n = grind (arith, log-advance_commit)

-- The new log is well formed if the old one is, with room for two more indexes.
pub record IsGrown (l l' : Log) : Type 0 where
  pub formed : IsWellFormed l → last_index l + 2 < u64_mod → IsWellFormed l'

pub IsGrown-same : {l l' : Log} → l' ≡ l → IsGrown l l'
IsGrown-same same = record { formed = λ w room. rw same w }

pub IsGrown-append :
    (io : Io) (l : Log) (e : Entry)
    → e.index ≡ inc64 (last_index l)
    → IsGrown l (append io (e ∷ []) l).0
IsGrown-append io l e index = record {
  formed = λ w room. appended-IsWellFormed io l e w room index;
}

pub become_leader-IsGrown : (n : Node) → IsGrown n.log (become_leader n).log
become_leader-IsGrown n = rw (log-become_leader n) (IsGrown-append (next_io n.io) n.log _ refl)

pub log-stand : (n : Node) → (stand n).0.log ≡ n.log
unfolding stand
log-stand n = ground arith

pub start_election-IsGrown : (n : Node) → IsGrown n.log (start_election n).0.log
unfolding start_election open_round
start_election-IsGrown n =
    ground (arith, log-stand n, IsGrown-same (log-stand n), become_leader-IsGrown (stand n).0)

pub start_pre_vote-IsGrown : (n : Node) → IsGrown n.log (start_pre_vote n).0.log
unfolding start_pre_vote open_round reset_election
start_pre_vote-IsGrown n = grind (arith, IsGrown-same {l = n.log} refl, start_election-IsGrown)

pub tick-IsGrown : (n : Node) → IsGrown n.log (tick n).0.log
unfolding tick broadcast_append
tick-IsGrown n = ground (arith, IsGrown-same {l = n.log} refl, start_pre_vote-IsGrown n)

pub on_pre_vote-IsGrown :
    (r : Round) (resp : RequestVoteResponse) (n : Node) → IsGrown n.log (on_pre_vote r resp n).0.log
unfolding on_pre_vote
on_pre_vote-IsGrown r resp n = ground (
  arith,
  IsGrown-same {l = n.log} refl,
  log-become_follower resp.term n,
  start_election-IsGrown n,
)

pub on_vote-IsGrown :
    (r : Round) (resp : RequestVoteResponse) (n : Node) → IsGrown n.log (on_vote r resp n).0.log
unfolding on_vote
on_vote-IsGrown r resp n =
    ground (
      arith,
      IsGrown-same {l = n.log} refl,
      log-become_follower resp.term n,
      become_leader-IsGrown n,
    )

pub log-handle_request_vote :
    (req : RequestVoteRequest) (n : Node) → (handle_request_vote req n).0.log ≡ n.log
unfolding handle_request_vote grant_vote
log-handle_request_vote req n = ground (arith, log-become_follower req.term n)

pub log-send_append_end :
    (peer : Str) (term : ℕ) (req : AppendEntriesRequest) (resp : AppendEntriesResponse) (n : Node)
    → (send_append_end peer term req resp n).log ≡ n.log
unfolding send_append_end
log-send_append_end peer term req resp n = grind (arith, log-become_follower, log-advance_commit)

pub log-send_snapshot_end :
    (peer : Str) (term : ℕ) (req : InstallSnapshotRequest) (resp : Option InstallSnapshotResponse)
    (n : Node)
    → (send_snapshot_end peer term req resp n).log ≡ n.log
unfolding send_snapshot_end
log-send_snapshot_end peer term req none n = ground arith
log-send_snapshot_end peer term req (some resp) n = ground (arith, log-become_follower resp.term n)

pub log-confirm_response :
    (term : ℕ) (resp : Option AppendEntriesResponse) (n : Node)
    → (confirm_response term resp n).0.log ≡ n.log
unfolding confirm_response
log-confirm_response term none n = refl
log-confirm_response term (some resp) n = ground (arith, log-become_follower resp.term n)

pub log-give_up : (i : ℕ) (n : Node) → (give_up i n).log ≡ n.log
unfolding give_up
log-give_up i n = refl

pub log-wait_applied : (i : ℕ) (n : Node) → (wait_applied i n).0.log ≡ n.log
unfolding wait_applied
log-wait_applied i n = ground arith

pub log-apply_begin : (n : Node) → (apply_begin n).0.log ≡ n.log
unfolding apply_begin
log-apply_begin n = ground arith

pub log-apply_end : (i : ℕ) (n : Node) → (apply_end i n).log ≡ n.log
unfolding apply_end
log-apply_end i n = ground arith

pub propose-IsGrown : (c : Str) (n : Node) → IsGrown n.log (propose c n).0.log
propose-IsGrown c n = elim (log-propose c n) [
  | inl same ↦ IsGrown-same same
  | inr added ↦ rw added (IsGrown-append (next_io n.io) n.log _ refl)
]

pub log-follow_leader : (term : ℕ) (l : Str) (n : Node) → (follow_leader term l n).log ≡ n.log
unfolding follow_leader
log-follow_leader term l n = ground (arith, log-become_follower term n)

pub log-follow_commit : (i : ℕ) (n : Node) → (follow_commit i n).log ≡ n.log
unfolding follow_commit
log-follow_commit i n = ground arith

module _ (codec : MembersCodec) where
  pub propose_members-IsGrown :
      (m : Members) (n : Node) → IsGrown n.log (propose_members codec m n).0.log
  propose_members-IsGrown m n = elim (log-propose_members codec m n) [
    | inl same ↦ IsGrown-same same
    | inr added ↦ rw added (IsGrown-append (next_io n.io) n.log _ refl)
  ]

  pub propose_config-IsGrown :
      (f : Members → Checked Members) (n : Node) → IsGrown n.log (propose_config codec f n).0.log
  unfolding propose_config
  propose_config-IsGrown f n = grind (arith, IsGrown-same {l = n.log} refl, propose_members-IsGrown)

  pub add_member-IsGrown :
      (id addr : Str) (n : Node) → IsGrown n.log (add_member codec id addr n).0.log
  unfolding add_member
  add_member-IsGrown id addr n =
      ground (arith, IsGrown-same {l = n.log} refl, propose_config-IsGrown (add_to id addr) n)
