-- ===== src/Raft/Membership/Shared.antt =====
-- internal/raft/membership.go: a member that two majorities share, before and after a change.
use link_raft.Prelude.{
  ℕ, ◌+◌, ◌≤◌, ◌<◌, ◌≡◌, refl, Str, str_eq_refl, str_eq_iff, Bool, true, none, [], ◌∷◌, length,
  select, arith, Bool-cases, inl, inr,
}
use link_raft.Prelude.Dict.{lookup, insert, erase, keys, Distinct}
use link_raft.Raft.Node.{Node, Members, majority}
use link_raft.Raft.Membership.{peers_of, has_key}

-- The number of members that are in a set.
abbrev pub votes_of : (Str → Bool) → Members → ℕ
votes_of voters ms = length (select voters (keys ms))

-- A set has a majority of the members that a node knows.
abbrev pub IsMajority : (Str → Bool) → Node → Type 0
IsMajority voters n = majority n ≤ votes_of voters n.members

has_key-head : (v a : Str) (ms : Members) → has_key v ((v, a) ∷ ms) ≡ true
unfolding lookup
has_key-head v a ms = ground (arith, str_eq_refl v)

has_key-tail : (v j a : Str) (ms : Members) → has_key v ms ≡ true → has_key v ((j, a) ∷ ms) ≡ true
unfolding lookup
has_key-tail v j a ms h = ground arith

-- Two sets that have together more members than there are have one in common.
pub shared_member :
    (p q : Str → Bool) (ms : Members)
    → length ms < votes_of p ms + votes_of q ms
    → (v : Str) × (has_key v ms ≡ true) × (p v ≡ true) × (q v ≡ true)
shared_member p q [] more = absurd (omega (arith, more))
shared_member p q ((j, a) ∷ ms) more =
    let later : length ms < votes_of p ms + votes_of q ms
        → (v : Str) × (has_key v ((j, a) ∷ ms) ≡ true) × (p v ≡ true) × (q v ≡ true) =
      λ less.
        let (v, there, in_p, in_q) = shared_member p q ms less in
        (v, has_key-tail v j a ms there, in_p, in_q) in
    elim (Bool-cases (p j)) [
      | inl yes_ ↦ elim (Bool-cases (q j)) [
        | inl both ↦ (j, has_key-head j a ms, yes_, both)
        | inr no_ ↦ later (ground arith)
      ]
      | inr no_ ↦ later (ground arith)
    ]

pub votes-insert :
    (q : Str → Bool) (id addr : Str) (ms : Members)
    → lookup id ms ≡ none
    → votes_of q (insert id addr ms) ≤ votes_of q ms + 1
unfolding insert lookup
votes-insert q id addr [] fresh = ground arith
votes-insert q id addr ((j, a) ∷ ms) fresh = ground (arith, votes-insert q id addr ms)

pub votes-erase :
    (q : Str → Bool) (id : Str) (ms : Members) → votes_of q (erase id ms) ≤ votes_of q ms
unfolding erase
votes-erase q id [] = omega arith
votes-erase q id ((j, a) ∷ ms) = ground (arith, votes-erase q id ms)

absent-peers : (self : Str) (ms : Members) → lookup self ms ≡ none → peers_of ms self ≡ ms
unfolding peers_of lookup
absent-peers self [] absent = refl
absent-peers self ((j, a) ∷ ms) absent = ground (arith, absent-peers self ms)

-- A cluster is its members, if the node is one.
pub size-members :
    (self : Str) (ms : Members)
    → Distinct ms
    → has_key self ms ≡ true
    → length (peers_of ms self) + 1 ≡ length ms
unfolding peers_of lookup
size-members self [] d held = ground arith
size-members self ((j, a) ∷ ms) (fresh, d) held =
    ground (arith, size-members self ms d, absent-peers self ms, str_eq_iff j self)
