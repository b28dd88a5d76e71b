-- ===== src/Raft/Replication/Response.antt =====
-- internal/raft/raft.go: the responses of `handleAppendEntries`.
use link_raft.Prelude.{
  ℕ, ◌+◌, ◌≤◌, ◌<◌, ◌≡◌, refl, ◌∙◌, ◌⊎◌, true, List, [], ◌∷◌, ltb, if◌then◌else◌, length, u64_mod,
  arith, Str,
}
use link_raft.Raft.Log.{Entry, last_index, term_at}
use link_raft.Raft.Log.Bounds.{Consecutive, IsWellFormed}
use link_raft.Raft.Node.{Node, Members, AppendEntriesRequest, become_follower, follow_leader}
use link_raft.Raft.Membership.{
  MembersCodec, apply_config, track_peers, recompute_config, maybe_apply_config_entry,
}
use link_raft.Raft.Replication.{
  is_consistent, follow_commit, append_entry, truncate_conflict, accept_entry, accept_entries,
  handle_append_entries,
}
use link_raft.Raft.Run.Frame.{accept_entries-SameVote, follow_commit-SameVote}
use link_raft.Raft.Replication.Matching.{Followed, accept_entries-Followed}

commit-apply_config :
    (m : Members) (i : ℕ) (n : Node) → (apply_config m i n).commit_index ≡ n.commit_index
unfolding apply_config track_peers
commit-apply_config m i n = ground arith

-- What `follow_leader` leaves alone, and the term that it brings.
record Led (term : ℕ) (n m : Node) : Type 0 where
  log : m.log ≡ n.log
  commit : m.commit_index ≡ n.commit_index
  in_term : m.current_term ≡ term

follow_leader-Led :
    (term : ℕ) (leader : Str) (n : Node)
    → n.current_term ≤ term
    → Led term n (follow_leader term leader n)
unfolding follow_leader become_follower
follow_leader-Led term leader n h = ground arith

module _ (codec : MembersCodec) where
  commit-recompute_config : (n : Node) → (recompute_config codec n).commit_index ≡ n.commit_index
  unfolding recompute_config
  commit-recompute_config n = grind (arith, commit-apply_config)

  commit-append_entry :
      (e : Entry) (n : Node) → (append_entry codec e n).0.commit_index ≡ n.commit_index
  unfolding append_entry maybe_apply_config_entry
  commit-append_entry e n = grind (arith, commit-apply_config)

  commit-accept_entry :
      (e : Entry) (n : Node) → (accept_entry codec e n).0.commit_index ≡ n.commit_index
  unfolding accept_entry truncate_conflict
  commit-accept_entry e n = grind (arith, commit-append_entry, commit-recompute_config)

  commit-accept_entries :
      (es : List Entry) (n : Node) → (accept_entries codec es n).0.commit_index ≡ n.commit_index
  unfolding accept_entries
  commit-accept_entries [] n = refl
  commit-accept_entries (e ∷ es) n =
      ground (arith, commit-accept_entry e n, commit-accept_entries es (accept_entry codec e n).0)

  -- The follower `m` after a request that it has answered with success: its term is the leader's, the
  -- check passed, its log agrees with the request up to the last entry sent, and its commit index is
  -- the larger of its own and the leader's.
  pub record Agrees (req : AppendEntriesRequest) (n m : Node) : Type 0 where
    pub in_term : m.current_term ≡ req.term
    pub checked : (req.prev_log_index ≡ 0) ⊎ (term_at req.prev_log_index n.log ≡ req.prev_log_term)
    pub followed : Followed req.prev_log_index req.entries n.log m.log true
    pub commit :
        m.commit_index
        ≡ (if ltb n.commit_index req.leader_commit then req.leader_commit else n.commit_index)

  module _ (req : AppendEntriesRequest) (n : Node) where
    consistent :
        (m : Node)
        → Led req.term n m
        → is_consistent req m ≡ true
        → (req.prev_log_index ≤ last_index n.log)
          × ((req.prev_log_index ≡ 0) ⊎ (term_at req.prev_log_index n.log ≡ req.prev_log_term))
    unfolding is_consistent
    consistent m l h = rw (← l.log) (ground arith)

    log-follow_commit : (i : ℕ) (m : Node) → (follow_commit i m).log ≡ m.log
    unfolding follow_commit
    log-follow_commit i m = ground arith

    commit-follow_commit :
        (i : ℕ) (m : Node)
        → i ≤ last_index m.log
        → (follow_commit i m).commit_index ≡ (if ltb m.commit_index i then i else m.commit_index)
    unfolding follow_commit
    commit-follow_commit i m h = ground arith

    taken-Agrees :
        (m : Node)
        → Led req.term n m
        → IsWellFormed n.log
        → Consecutive (req.prev_log_index + 1) req.entries
        → req.prev_log_index + length req.entries + 1 < u64_mod
        → req.leader_commit ≤ req.prev_log_index + length req.entries
        → is_consistent req m ≡ true
        → (accept_entries codec req.entries m).1 ≡ true
        → Agrees req n (follow_commit req.leader_commit (accept_entries codec req.entries m).0)
    taken-Agrees m l w c fit sent same all =
        let p = consistent m l same in
        let f = rw all at (
          accept_entries-Followed codec req.prev_log_index req.entries m (rw l.log w) c
            (rw l.log p.0) fit) in
        record {
          in_term =
              (follow_commit-SameVote req.leader_commit _).same_term
              ∙ (accept_entries-SameVote codec req.entries m).same_term
              ∙ l.in_term;
          checked = p.1;
          followed = rw (log-follow_commit, ← l.log) f;
          commit = ground (
            arith,
            commit-follow_commit req.leader_commit (accept_entries codec req.entries m).0,
            commit-accept_entries req.entries m,
            l.commit,
            f.reaches refl,
          );
        }

    -- If the follower's log is well formed and the request's entries follow its previous index,
    -- with no overflow and a leader commit within them, then a response of success means: the
    -- follower is in the leader's term; the previous entry agreed; the new log is well formed,
    -- unchanged up to the previous index, and has the term of each entry sent above the boundary;
    -- and the commit index is the larger of the old one and the leader's.
    pub handle_append_entries-Agrees :
        IsWellFormed n.log
        → Consecutive (req.prev_log_index + 1) req.entries
        → req.prev_log_index + length req.entries + 1 < u64_mod
        → req.leader_commit ≤ req.prev_log_index + length req.entries
        → (handle_append_entries codec req n).1.success ≡ true
        → Agrees req n (handle_append_entries codec req n).0
    unfolding handle_append_entries
    handle_append_entries-Agrees w c fit sent done = ground (
      arith,
      follow_leader-Led req.term req.leader_id n,
      taken-Agrees (follow_leader req.term req.leader_id n),
    )
