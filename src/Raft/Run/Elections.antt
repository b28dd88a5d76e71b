-- ===== src/Raft/Run/Elections.antt =====
-- internal/raft/raft.go: the votes of a cluster, each node with its own history.
use link_raft.Prelude.{
  ℕ, zero, suc, ◌+◌, ◌/◌, ◌<◌, ◌≤◌, ◌≡◌, sym, subst, inl, inr, Str, is_empty, Bool, true, false,
  some, List, [], ◌∷◌, length, select, leb, arith, Bool-cases,
}
use link_raft.Raft.Node.{Node, RequestVoteRequest}
use link_raft.Raft.Election.{Round, start_election, stand, open_round}
use link_raft.Raft.Membership.{MembersCodec}
use link_raft.Raft.Compaction.{Snapshotter}
use link_raft.Raft.Run.{Step, Reach, here, next}
use link_raft.Raft.Run.Votes.{HasVoted, Reach-HasVoted}
use link_raft.Raft.Run.Ballots.{
  IsBallot, grants, after_vote, handle_request_vote-IsBallot, IsBallot-HasVoted,
  start_election-HasVoted_self,
}

select-overlap :
    (p q : Str → Bool) (ids : List Str)
    → length ids < length (select p ids) + length (select q ids)
    → (v : Str) × (p v ≡ true) × (q v ≡ true)
select-overlap p q [] more = absurd (omega (arith, more))
select-overlap p q (v ∷ ids) more = elim (Bool-cases (p v)) [
  | inl yes_ ↦ elim (Bool-cases (q v)) [
    | inl both ↦ (v, yes_, both)
    | inr no_ ↦ select-overlap p q ids (ground arith)
  ]
  | inr no_ ↦ select-overlap p q ids (ground arith)
]

-- The node is in the term and has its vote for the candidate in memory and on disk.
record Holds (t : ℕ) (c : Str) (n : Node) : Type 0 where
  in_term : n.current_term ≡ t
  for_candidate : n.voted_for ≡ c
  voted : HasVoted t c n

Holds-moved : {t u : ℕ} {c d : Str} {n m : Node} → t ≡ u → c ≡ d → m ≡ n → Holds t c n → Holds u d m
Holds-moved {t} {u} {c} {d} {n} {m} p q r h =
    subst (Holds u d) (sym r) (subst (λ x. Holds x d n) p (subst (λ x. Holds t x n) q h))

IsBallot-Holds :
    (req : RequestVoteRequest) (n : Node) → IsBallot req n → Holds req.term req.candidate_id n
IsBallot-Holds req n b = record {
  in_term = b.in_term;
  for_candidate = b.for_candidate;
  voted = IsBallot-HasVoted req n b;
}

start_election-Holds :
    (n : Node) (r : Round) → (start_election n).1 ≡ some r → Holds r.term n.id (start_election n).0
unfolding start_election open_round stand
start_election-Holds n r e = record {
  in_term = ground arith;
  for_candidate = ground arith;
  voted = start_election-HasVoted_self n r e;
}

module _ {S : Type 0} (codec : MembersCodec) (machine : Snapshotter S)
    (history : Str → ℕ → Node) where
  -- In its history the node has voted for the candidate in the term: it has granted a request for a
  -- vote, or stood itself.
  pub data Voted (t : ℕ) (c v : Str) : Type 0 where
    granted :
        (i : ℕ) (req : RequestVoteRequest)
        → req.pre_vote ≡ false
        → req.term ≡ t
        → req.candidate_id ≡ c
        → grants req (history v i) ≡ true
        → history v (suc i) ≡ after_vote req (history v i)
        → Voted t c v
    stood :
        (i : ℕ) (r : Round)
        → (start_election (history v i)).1 ≡ some r
        → r.term ≡ t
        → (history v i).id ≡ c
        → history v (suc i) ≡ (start_election (history v i)).0
        → Voted t c v

  -- More than half of the cluster has voted for the candidate in the term.
  pub record IsElected (ids : List Str) (t : ℕ) (c : Str) : Type 0 where
    pub voters : Str → Bool
    pub most : length ids / 2 + 1 ≤ length (select voters ids)
    pub votes : (v : Str) → voters v ≡ true → Voted t c v

  Voted-Holds : {t : ℕ} {c v : Str} → Voted t c v → (i : ℕ) × Holds t c (history v i)
  Voted-Holds {v = v} (granted i req real term cand yes_ at) =
      let ballot = handle_request_vote-IsBallot req (history v i) real yes_ in
      (suc i, Holds-moved term cand at (IsBallot-Holds req _ ballot))
  Voted-Holds {v = v} (stood i r opened term self at) =
      (suc i, Holds-moved term self at (start_election-Holds (history v i) r opened))

  module _ (steps : (v : Str) (i : ℕ) → Step codec machine (history v i) (history v (suc i))) where
    history-Reach : (v : Str) (i j : ℕ) → i ≤ j → Reach codec machine (history v i) (history v j)
    history-Reach v i zero le =
        let same : i ≡ zero = omega (arith, le) in
        subst (λ x. Reach codec machine (history v i) (history v x)) same here
    history-Reach v i (suc j) le = elim (Bool-cases (leb i j)) [
      | inl before ↦ next (history-Reach v i j (ground arith)) (steps v j)
      | inr now ↦
          let same : i ≡ suc j = ground arith in
          subst (λ x. Reach codec machine (history v i) (history v x)) same here
    ]

    Holds-agree :
        (t : ℕ) (c c' v : Str) (i j : ℕ)
        → is_empty c ≡ false
        → i ≤ j
        → Holds t c (history v i)
        → Holds t c' (history v j)
        → c ≡ c'
    Holds-agree t c c' v i j named le h h' =
        let kept = Reach-HasVoted t c named codec machine (history-Reach v i j le) h.voted in
        ground (arith, kept.in_memory, h'.in_term, h'.for_candidate)

    Voted-agree :
        (t : ℕ) (c c' v : Str)
        → is_empty c ≡ false
        → is_empty c' ≡ false
        → Voted t c v
        → Voted t c' v
        → c ≡ c'
    Voted-agree t c c' v named named' vote vote' =
        let (i, h) = Voted-Holds vote in
        let (j, h') = Voted-Holds vote' in
        elim (Bool-cases (leb i j)) [
          | inl before ↦ Holds-agree t c c' v i j named (ground arith) h h'
          | inr after ↦ sym (Holds-agree t c' c v j i named' (ground arith) h' h)
        ]

    -- In a cluster whose nodes take any steps, crashes and starts among them, where no election passes the
    -- largest uint64 term, two candidates with a name that more than half of the same members have voted for
    -- in the same term are the same candidate.
    pub elected_unique :
        (ids : List Str) (t : ℕ) (c c' : Str)
        → is_empty c ≡ false
        → is_empty c' ≡ false
        → IsElected ids t c
        → IsElected ids t c'
        → c ≡ c'
    elected_unique ids t c c' named named' e e' =
        let most = e.most in
        let most' = e'.most in
        let (v, yes_, yes') = select-overlap e.voters e'.voters ids (omega (arith, most, most')) in
        Voted-agree t c c' v named named' (e.votes v yes_) (e'.votes v yes')
