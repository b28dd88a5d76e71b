-- ===== src/Examples/Elections.antt =====
-- The theorem on elections, at a cluster of three whose nodes vote for "b".
use link_raft.Prelude.{ℕ, zero, suc, ◌≡◌, refl, Str, str_eq, not, false, [], ◌∷◌, arith}
use link_raft.Raft.Node.{Node}
use link_raft.Raft.Run.{Step, waits, votes}
use link_raft.Raft.Run.Ballots.{after_vote}
use link_raft.Raft.Run.Elections.{granted, IsElected, elected_unique}
use link_raft.Examples.Fixtures.{text_codec, text_machine, name_a, name_b, name_c, node, vote_for}
use link_raft.Examples.Nodes

-- A node grants its vote at once and then waits.
abbrev history : Str → ℕ → Node
history v zero = node
history v (suc i) = after_vote (vote_for name_b false) node

history-Step : (v : Str) (i : ℕ) → Step text_codec text_machine (history v i) (history v (suc i))
history-Step v zero = votes (vote_for name_b false)
history-Step v (suc i) = let n = after_vote (vote_for name_b false) node in waits n.now n.draws n.io

b-IsElected : IsElected text_codec text_machine history (name_a ∷ name_b ∷ name_c ∷ []) 3 name_b
b-IsElected = record {
  voters = λ v. not (str_eq v name_b);
  most = unfold str_eq in omega arith;
  votes = λ v p. granted 0 (vote_for name_b false) refl refl refl Nodes.granted refl;
}

elected_unique_example : name_b ≡ name_b
elected_unique_example =
    elected_unique text_codec text_machine history history-Step (name_a ∷ name_b ∷ name_c ∷ []) 3
      name_b name_b refl refl b-IsElected b-IsElected
