-- ===== src/Raft/Commit/Advance.antt =====
-- internal/raft/raft.go: the index that `advanceCommitLocked` moves the commit index to.
use link_raft.Prelude.{
  ℕ, zero, suc, ◌+◌, ◌-◌, ◌≤◌, ◌<◌, ◌≡◌, refl, sym, ◌∙◌, ◌⊎◌, inl, inr, true, false, arith,
  Bool-cases, subst, ltb, ltb→lt, ltb→le, leb, length, select, [], ◌∷◌, ◌*◌,
}
use link_raft.Prelude.Dict.{Dict}
use link_raft.Raft.Log.{last_index, term_at}
use link_raft.Raft.Node.{Node, majority, cluster_size, signal_apply}
use link_raft.Raft.Commit.{count_matches, is_committable, advance_from, advance_commit}

antisym : (a b : ℕ) → a ≤ b → b ≤ a → a ≡ b
antisym a b p q = omega arith

committable_other :
    (i j : ℕ) (n : Node) → is_committable i (record n { commit_index = j }) ≡ is_committable i n
unfolding is_committable majority
committable_other i j n = refl

-- After the loop over `rounds` indexes from `i` on.
record Advanced (rounds i : ℕ) (n : Node) (commit : ℕ) : Type 0 where
  grows : n.commit_index ≤ commit
  stands :
      (commit ≡ n.commit_index)
      ⊎ ((is_committable commit n ≡ true) × (i ≤ commit) × (commit < i + rounds))
  rest : (j : ℕ) → commit < j → i ≤ j → j < i + rounds → is_committable j n ≡ false

step_over :
    (r i : ℕ) (n : Node)
    → is_committable i n ≡ true
    → advance_from (suc r) i n ≡ advance_from r (i + 1) (record n { commit_index = i })
unfolding advance_from
step_over r i n can = rw (can, advance_from)

pass_by :
    (r i : ℕ) (n : Node)
    → is_committable i n ≡ false
    → advance_from (suc r) i n ≡ advance_from r (i + 1) n
unfolding advance_from
pass_by r i n cannot = rw (cannot, advance_from)

advance_from-Advanced :
    (rounds i : ℕ) (n : Node)
    → n.commit_index < i
    → Advanced rounds i n (advance_from rounds i n).commit_index
unfolding advance_from
advance_from-Advanced zero i n lt = record {
  grows = omega arith;
  stands = inl refl;
  rest = λ j a b c. absurd (omega arith);
}
advance_from-Advanced (suc r) i n lt = elim (Bool-cases (is_committable i n)) [
  | inl can ↦
      let m = record n { commit_index = i } in
      let a = advance_from-Advanced r (i + 1) m (omega arith) in
      subst (λ k. Advanced (suc r) i n k.commit_index) (sym (step_over r i n can))
        (record {
          grows = omega (arith, a.grows);
          stands = inr (
              ground (
                arith,
                a.stands,
                a.grows,
                committable_other (advance_from r (i + 1) m).commit_index i n,
              ));
          rest = λ j p q s.
              sym (committable_other j i n) ∙ a.rest j p (omega (arith, a.grows)) (omega arith);
        })
  | inr cannot ↦
      let a = advance_from-Advanced r (i + 1) n (omega arith) in
      subst (λ k. Advanced (suc r) i n k.commit_index) (sym (pass_by r i n cannot))
        (record {
          grows = a.grows;
          stands = ground (arith, a.stands);
          rest = λ j p q s. elim (Bool-cases (ltb i j)) [
            | inl above ↦ a.rest j p (omega (arith, ltb→lt i j above)) (omega arith)
            | inr same ↦ rw (antisym j i (ltb→le i j same) q) cannot
          ];
        })
]

-- This node and the peers whose log is known to reach `idx`.
abbrev pub holders : ℕ → Node → ℕ
holders idx n = length (select (λ p. leb idx p.1) n.match_index) + 1

-- The entry is of the current term, and more than half of the cluster holds it.
pub record IsReplicated (idx : ℕ) (n : Node) : Type 0 where
  pub in_term : term_at idx n.log ≡ n.current_term
  pub by_majority : length n.peers + 1 < 2 * holders idx n

count_matches-holders :
    (idx : ℕ) (d : Dict ℕ) → count_matches idx d ≡ length (select (λ p. leb idx p.1) d)
unfolding count_matches
count_matches-holders idx [] = refl
count_matches-holders idx ((p, m) ∷ d) = ground (arith, count_matches-holders idx d)

is_committable-IsReplicated :
    (idx : ℕ) (n : Node) → is_committable idx n ≡ true → IsReplicated idx n
unfolding is_committable majority cluster_size
is_committable-IsReplicated idx n can = ground (arith, count_matches-holders idx n.match_index)

not_committable : (idx : ℕ) (n : Node) → is_committable idx n ≡ false → ¬ IsReplicated idx n
unfolding is_committable majority cluster_size
not_committable idx n cannot r =
    ground (arith, count_matches-holders idx n.match_index, r.in_term, r.by_majority)

-- The new commit index is the old one or one that is replicated; and no index above it, up to the end
-- of the log, is replicated.
pub record IsLastReplicated (n : Node) (commit : ℕ) : Type 0 where
  pub grows : n.commit_index ≤ commit
  pub stands : (commit ≡ n.commit_index) ⊎ (IsReplicated commit n × (commit ≤ last_index n.log))
  pub last : (j : ℕ) → commit < j → j ≤ last_index n.log → ¬ IsReplicated j n

-- `advanceCommitLocked` moves the commit index to the last index of the log whose entry is of the
-- current term and is held, by the match indexes that the node keeps, by more than half of the
-- cluster, or leaves it where it is; it never goes back, and no index above the new one has such an
-- entry.
pub advance_commit-IsLastReplicated :
    (n : Node) → IsLastReplicated n (advance_commit n).commit_index
unfolding advance_commit signal_apply
advance_commit-IsLastReplicated n =
    let a =
      advance_from-Advanced (last_index n.log - n.commit_index) (n.commit_index + 1) n
        (omega arith) in
    record {
      grows = a.grows;
      stands = elim a.stands [
        | inl same ↦ inl same
        | inr (can, above, below) ↦ inr (is_committable-IsReplicated _ n can, omega arith)
      ];
      last = λ j p q. not_committable j n (a.rest j p (omega (arith, a.grows)) (omega arith));
    }
