-- ===== src/Raft/Run/Keeps.antt =====
-- The operations that change a leader's log, and the entries that they keep.
use link_raft.Prelude.{
  ℕ, ◌+◌, ◌≤◌, ◌<◌, ◌≡◌, ◌⊎◌, refl, inl, inr, Str, not, some, [], ◌∷◌, ltb, leb, arith, Bool-cases,
  inc64, u64_mod,
}
use link_raft.Journal.{Io}
use link_raft.Raft.Log.{
  Entry, Log, entry_normal, entry_config, entry_at, last_index, append, compact_to,
}
use link_raft.Raft.Log.Bounds.{IsWellFormed, snap_index-compact_to}
use link_raft.Raft.Log.Lookup.{entry_at-append, entry_at-compact_to}
use link_raft.Raft.Node.{Node, is_leader, broadcast_append, next_io, later_io, Members}
use link_raft.Raft.Membership.{
  MembersCodec, propose_members, propose_config, add_member, add_to, Checked, ok, err,
}
use link_raft.Raft.Replication.{propose}
use link_raft.Raft.Replication.Matching.{log-apply_config}
use link_raft.Raft.Compaction.{SnapPoint, Snapshotter, maybe_snapshot_end}
use link_raft.Raft.Run.Steady.{log-advance_commit}

-- Above its boundary the new log has every entry that the old one had.
pub record KeepsEntries (l l' : Log) : Type 0 where
  pub kept :
      (i : ℕ) (e : Entry) → l'.snap_index < i → entry_at i l ≡ some e → entry_at i l' ≡ some e

pub KeepsEntries-same : {l l' : Log} → l' ≡ l → KeepsEntries l l'
KeepsEntries-same same = record { kept = λ i e above held. rw same held }

pub held-below : (i : ℕ) (l : Log) (e : Entry) → entry_at i l ≡ some e → i ≤ last_index l
unfolding entry_at
held-below i l e held = ground arith

pub append-KeepsEntries :
    (io : Io) (l : Log) (e : Entry)
    → IsWellFormed l
    → last_index l + 2 < u64_mod
    → e.index ≡ inc64 (last_index l)
    → KeepsEntries l (append io (e ∷ []) l).0
append-KeepsEntries io l e w room next_ = record {
  kept = λ i f above held. ground (arith, entry_at-append io l w e i, held-below i l f held);
}

pub compact_to-KeepsEntries :
    (io : Io) (l : Log) (i term : ℕ)
    → IsWellFormed l
    → i + 1 < u64_mod
    → KeepsEntries l (compact_to io i term l).0
unfolding compact_to
compact_to-KeepsEntries io l i term w room = elim (Bool-cases (leb i l.snap_index)) [
  | inl covered ↦ KeepsEntries-same (rw covered refl)
  | inr above ↦ record {
    kept = λ j f beyond held.
        ground
          (arith, entry_at-compact_to io l w i term j room, snap_index-compact_to io l w i term);
  }
]

pub log-propose :
    (c : Str) (n : Node)
    → ((propose c n).0.log ≡ n.log)
      ⊎ ((propose c n).0.log
          ≡ (append
              (next_io n.io)
              (record {
                term = n.current_term;
                index = inc64 (last_index n.log);
                command = c;
                kind = entry_normal;
              }
                ∷ [])
              n.log).0)
unfolding propose broadcast_append
log-propose c n = grind (arith, log-advance_commit)

module _ (codec : MembersCodec) where
  pub log-propose_members :
      (m : Members) (n : Node)
      → ((propose_members codec m n).0.log ≡ n.log)
        ⊎ ((propose_members codec m n).0.log
            ≡ (append
                (next_io n.io)
                (record {
                  term = n.current_term;
                  index = inc64 (last_index n.log);
                  command = codec.encode m;
                  kind = entry_config;
                }
                  ∷ [])
                n.log).0)
  unfolding propose_members broadcast_append
  log-propose_members m n = grind (arith, log-advance_commit, log-apply_config)

  pub propose_members-KeepsEntries :
      (m : Members) (n : Node)
      → IsWellFormed n.log
      → last_index n.log + 2 < u64_mod
      → KeepsEntries n.log (propose_members codec m n).0.log
  propose_members-KeepsEntries m n w room = elim (log-propose_members m n) [
    | inl same ↦ KeepsEntries-same same
    | inr added ↦ rw added (append-KeepsEntries (next_io n.io) n.log _ w room refl)
  ]

  pub chosen-KeepsEntries :
      (n : Node) (c : Checked Members)
      → IsWellFormed n.log
      → last_index n.log + 2 < u64_mod
      → KeepsEntries n.log
          (elim c as (λ x. Node × Checked ℕ) [
            | err e ↦ (n, err e)
            | ok members ↦ propose_members codec members n
          ]).0.log
  chosen-KeepsEntries n (ok members) w room = propose_members-KeepsEntries members n w room
  chosen-KeepsEntries n (err e) w room = KeepsEntries-same refl

  pub propose_config-KeepsEntries :
      (f : Members → Checked Members) (n : Node)
      → IsWellFormed n.log
      → last_index n.log + 2 < u64_mod
      → KeepsEntries n.log (propose_config codec f n).0.log
  unfolding propose_config
  propose_config-KeepsEntries f n w room = elim (Bool-cases (not (is_leader n.state))) [
    | inl refused ↦ KeepsEntries-same (rw refused refl)
    | inr leads ↦ elim (Bool-cases (ltb n.commit_index n.config_index)) [
      | inl pending ↦ KeepsEntries-same (rw (leads, pending) refl)
      | inr settled ↦ rw (leads, settled) (chosen-KeepsEntries n (f n.members) w room)
    ]
  ]

  module _ {S : Type 0} (machine : Snapshotter S) where
    pub log-maybe_snapshot_end :
        (p : SnapPoint) (c : Str) (n : Node) (s : S)
        → ((maybe_snapshot_end machine p c n s).0.log ≡ n.log)
          ⊎ ((maybe_snapshot_end machine p c n s).0.log
              ≡ (compact_to (next_io (later_io n.io)) p.index p.term n.log).0)
    unfolding maybe_snapshot_end
    log-maybe_snapshot_end p c n s = ground arith

  pub add_member-KeepsEntries :
      (id addr : Str) (n : Node)
      → IsWellFormed n.log
      → last_index n.log + 2 < u64_mod
      → KeepsEntries n.log (add_member codec id addr n).0.log
  unfolding add_member
  add_member-KeepsEntries id addr n w room = ground (
    arith,
    KeepsEntries-same {l = n.log} refl,
    propose_config-KeepsEntries (add_to id addr) n w room,
  )

pub propose-KeepsEntries :
    (c : Str) (n : Node)
    → IsWellFormed n.log
    → last_index n.log + 2 < u64_mod
    → KeepsEntries n.log (propose c n).0.log
propose-KeepsEntries c n w room = elim (log-propose c n) [
  | inl same ↦ KeepsEntries-same same
  | inr added ↦ rw added (append-KeepsEntries (next_io n.io) n.log _ w room refl)
]
