-- ===== src/Raft/Membership/Changes.antt =====
-- internal/raft/membership.go: the two changes of the members, as one.
use link_raft.Prelude.{ℕ, ◌≤◌, ◌≡◌, Str, str_eq, Bool, true, false, none}
use link_raft.Prelude.Dict.{lookup, insert, erase}
use link_raft.Raft.Node.{Node, Members, is_leader}
use link_raft.Raft.Membership.{MembersCodec, Checked, add_member, remove_member, has_key, peers_of}
use link_raft.Raft.Membership.Shared.{IsMajority}

pub data Change : Type 0 where
  adds : Str → Str → Change
  removes : Str → Change

-- The new configuration is the old one with one member more or one less.
abbrev pub IsNext : Change → Str → Members → Members → Type 0
IsNext (adds id addr) self old new = (lookup id old ≡ none) × (new ≡ insert id addr old)
IsNext (removes id) self old new =
    (str_eq id self ≡ false) × (has_key id old ≡ true) × (new ≡ erase id old)

-- What a change that is accepted makes of the node `n`.
pub record IsChanged (c : Change) (n : Node) (index : ℕ) (m : Node) : Type 0 where
  pub leads : is_leader n.state ≡ true
  pub settled : n.config_index ≤ n.commit_index
  pub next : IsNext c n.id n.members m.members
  pub peers : m.peers ≡ peers_of m.members n.id
  pub pending : m.config_index ≡ index
  pub shared :
      (p q : Str → Bool)
      → IsMajority p n
      → IsMajority q m
      → (v : Str) × (has_key v n.members ≡ true) × (p v ≡ true) × (q v ≡ true)

module _ (codec : MembersCodec) where
  unfoldable pub change : Change → Node → Node × Checked ℕ
  change (adds id addr) n = add_member codec id addr n
  change (removes id) n = remove_member codec id n
