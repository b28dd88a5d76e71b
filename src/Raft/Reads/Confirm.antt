-- ===== src/Raft/Reads/Confirm.antt =====
-- internal/raft/readindex.go: the count and the meaning of the answers in `confirmLeadership`.
use link_raft.Prelude.{
  ℕ, ◌+◌, ◌*◌, ◌≤◌, ◌<◌, ◌≡◌, Bool, true, false, some, List, [], ◌∷◌, ltb, leb, length, select, Str,
  arith,
}
use link_raft.Raft.Node.{Node, cluster_size, majority, follower, become_follower, follow_leader}
use link_raft.Raft.Membership.{MembersCodec}
use link_raft.Raft.Replication.{handle_append_entries, accept_entries, follow_commit, is_consistent}
use link_raft.Raft.Reads.{confirm_begin, confirm_request, confirm_response, gather, confirmed}

-- The peers that have acknowledged.
abbrev pub acknowledged : List Bool → ℕ
acknowledged acks = length (select (λ ack. ack) acks)

gather-acknowledged :
    (need got : ℕ) (acks : List Bool)
    → got < need
    → gather need got acks ≡ leb need (got + acknowledged acks)
unfolding gather
gather-acknowledged need got [] lt = ground arith
gather-acknowledged need got (true ∷ acks) lt =
    ground (arith, gather-acknowledged need (got + 1) acks)
gather-acknowledged need got (false ∷ acks) lt = ground (arith, gather-acknowledged need got acks)

confirmed-acknowledged :
    (need : ℕ) (acks : List Bool) → confirmed need acks ≡ leb need (acknowledged acks)
unfolding confirmed
confirmed-acknowledged need acks = ground (arith, gather-acknowledged need 0 acks)

-- For the leader of the term asked about, `confirmLeadership` answers yes exactly if the leader and
-- the peers that have acknowledged are more than half of the cluster, in whatever order the answers
-- arrive.
pub confirmed-majority :
    (term need : ℕ) (n : Node) (acks : List Bool)
    → confirm_begin term n ≡ some need
    → confirmed need acks ≡ ltb (length n.peers + 1) (2 * (acknowledged acks + 1))
unfolding confirm_begin majority cluster_size
confirmed-majority term need n acks asks = ground (arith, confirmed-acknowledged need acks)

follow_leader-follower :
    (term : ℕ) (l : Str) (n : Node)
    → n.current_term ≤ term
    → ((follow_leader term l n).current_term ≡ term) × ((follow_leader term l n).state ≡ follower)
unfolding follow_leader become_follower
follow_leader-follower term l n le = ground arith

-- An answer that is counted as an acknowledgement comes from a node that, when it answered, was a
-- follower in the term that the leader asks about.
pub confirm_response-in_term :
    (codec : MembersCodec) (term : ℕ) (leader peer : Node)
    → let (after, resp) = handle_append_entries codec (confirm_request term leader) peer in
      (confirm_response term (some resp) leader).1 ≡ true
      → (after.current_term ≡ term) × (after.state ≡ follower)
unfolding confirm_response confirm_request handle_append_entries accept_entries follow_commit
    is_consistent
confirm_response-in_term codec term leader peer counted =
    ground (arith, follow_leader-follower term leader.id peer)
