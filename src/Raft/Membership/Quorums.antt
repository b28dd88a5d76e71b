-- ===== src/Raft/Membership/Quorums.antt =====
-- internal/raft/membership.go: the sizes of the cluster and of its majorities around a change.
use link_raft.Prelude.{
  ◌≤◌, ℕ, zero, suc, ◌+◌, ◌-◌, ◌∙◌, ◌<◌, ◌≡◌, refl, sym, inl, inr, Str, str_eq, str_eq_iff, true,
  false, none, [], ◌∷◌, length, arith, Bool-cases, subst,
}
use link_raft.Prelude.Dict.{lookup, insert, erase, Distinct}
use link_raft.Raft.Node.{
  Node, Members, is_leader, cluster_size, majority, broadcast_append, signal_apply,
}
use link_raft.Raft.Log.{last_index}
use link_raft.Raft.Commit.{is_committable, advance_from, advance_commit}
use link_raft.Raft.Membership.{
  MembersCodec, peers_of, has_key, track_peers, apply_config, Checked, ok, err, add_to, remove_from,
  propose_members, propose_config, add_member, ChangeError,
}

pub length-peers_insert :
    (id addr self : Str) (m : Members)
    → lookup id m ≡ none
    → str_eq id self ≡ false
    → length (peers_of (insert id addr m) self) ≡ length (peers_of m self) + 1
unfolding peers_of insert lookup
length-peers_insert id addr self [] fresh other = ground arith
length-peers_insert id addr self ((j, a) ∷ m) fresh other =
    ground (arith, length-peers_insert id addr self m)

pub erase-absent : (id : Str) (m : Members) → lookup id m ≡ none → erase id m ≡ m
unfolding erase lookup
erase-absent id [] absent = refl
erase-absent id ((j, a) ∷ m) absent = ground (arith, erase-absent id m)

pub length-peers_erase :
    (id self : Str) (m : Members)
    → Distinct m
    → has_key id m ≡ true
    → str_eq id self ≡ false
    → length (peers_of (erase id m) self) + 1 ≡ length (peers_of m self)
unfolding peers_of erase lookup
length-peers_erase id self [] d held other = ground arith
length-peers_erase id self ((j, a) ∷ m) (fresh, d) held other = ground (
  arith,
  length-peers_erase id self m d,
  erase-absent id m,
  str_eq_iff j id,
  str_eq_iff j self,
  str_eq_iff id self,
)

peers-advance_from : (r i : ℕ) (n : Node) → (advance_from r i n).peers ≡ n.peers
unfolding advance_from
peers-advance_from zero i n = refl
peers-advance_from (suc r) i n = elim (Bool-cases (is_committable i n)) [
  | inl can ↦ rw (can, advance_from) (peers-advance_from r (i + 1) (record n { commit_index = i }))
  | inr cannot ↦ rw (cannot, advance_from) (peers-advance_from r (i + 1) n)
]

peers-advance_commit : (n : Node) → (advance_commit n).peers ≡ n.peers
unfolding advance_commit signal_apply
peers-advance_commit n = peers-advance_from _ _ n

-- What a change of the configuration leaves as it is.
record SameConfig (n m : Node) : Type 0 where
  members : m.members ≡ n.members
  config : m.config_index ≡ n.config_index

SameConfig-trans : {n m k : Node} → SameConfig n m → SameConfig m k → SameConfig n k
SameConfig-trans h g = record { members = g.members ∙ h.members; config = g.config ∙ h.config }

SameConfig-advance_from : (r i : ℕ) (n : Node) → SameConfig n (advance_from r i n)
unfolding advance_from
SameConfig-advance_from zero i n = record { members = refl; config = refl }
SameConfig-advance_from (suc r) i n = elim (Bool-cases (is_committable i n)) [
  | inl can ↦ rw can (
      SameConfig-trans {n = n} {m = record n { commit_index = i }}
        (record { members = refl; config = refl })
        (SameConfig-advance_from r (i + 1) (record n { commit_index = i })))
  | inr cannot ↦ rw cannot (SameConfig-advance_from r (i + 1) n)
]

SameConfig-advance_commit : (n : Node) → SameConfig n (advance_commit n)
unfolding advance_commit signal_apply
SameConfig-advance_commit n =
    let h = SameConfig-advance_from (last_index n.log - n.commit_index) (n.commit_index + 1) n in
    record { members = h.members; config = h.config }

members-advance_commit : (n : Node) → (advance_commit n).members ≡ n.members
members-advance_commit n = (SameConfig-advance_commit n).members

config-advance_commit : (n : Node) → (advance_commit n).config_index ≡ n.config_index
config-advance_commit n = (SameConfig-advance_commit n).config

members-apply_config : (ms : Members) (i : ℕ) (n : Node) → (apply_config ms i n).members ≡ ms
unfolding apply_config track_peers
members-apply_config ms i n = ground arith

config-apply_config : (ms : Members) (i : ℕ) (n : Node) → (apply_config ms i n).config_index ≡ i
unfolding apply_config track_peers
config-apply_config ms i n = ground arith

peers-apply_config :
    (members : Members) (i : ℕ) (n : Node)
    → (apply_config members i n).peers ≡ peers_of members n.id
unfolding apply_config track_peers
peers-apply_config members i n = ground arith

pub add_to-ok :
    (id addr : Str) (ms m : Members)
    → add_to id addr ms ≡ ok m
    → (lookup id ms ≡ none) × (m ≡ insert id addr ms)
unfolding add_to
add_to-ok id addr ms m chosen = ground arith

pub remove_from-ok :
    (self id : Str) (ms m : Members)
    → remove_from self id ms ≡ ok m
    → (str_eq id self ≡ false) × (has_key id ms ≡ true) × (m ≡ erase id ms)
unfolding remove_from
remove_from-ok self id ms m chosen = ground arith

pub other_key :
    (id self : Str) (ms : Members)
    → lookup id ms ≡ none
    → has_key self ms ≡ true
    → str_eq id self ≡ false
other_key id self ms fresh held = ground (arith, str_eq_iff id self)

-- Two clusters that differ by one node.
pub overlap :
    (m n : Node)
    → length m.peers ≡ length n.peers + 1
    → (cluster_size m ≡ cluster_size n + 1) × (cluster_size m < majority n + majority m)
unfolding cluster_size majority
overlap m n grown = (omega (arith, grown), omega (arith, grown))

module _ (codec : MembersCodec) where
  peers-propose_members :
      (m : Members) (n : Node) {index : ℕ}
      → (propose_members codec m n).1 ≡ ok index
      → (propose_members codec m n).0.peers ≡ peers_of m n.id
  unfolding propose_members broadcast_append
  peers-propose_members m n done = grind (arith, peers-advance_commit, peers-apply_config)

  members-propose_members :
      (m : Members) (n : Node) {index : ℕ}
      → (propose_members codec m n).1 ≡ ok index
      → ((propose_members codec m n).0.members ≡ m)
        × ((propose_members codec m n).0.config_index ≡ index)
  unfolding propose_members broadcast_append
  members-propose_members m n done = (
    grind (arith, members-advance_commit, members-apply_config),
    grind (arith, config-advance_commit, config-apply_config),
  )

  abbrev proceed : Node → Checked Members → Node × Checked ℕ
  proceed n (ok members) = propose_members codec members n
  proceed n (err e) = (n, err e)

  -- What a proposal that was accepted has made of the node.
  pub record IsProposed (n : Node) (c : Checked Members) (index : ℕ) (m : Node) : Type 0 where
    pub chosen : Members
    pub passed : c ≡ ok chosen
    pub peers : m.peers ≡ peers_of chosen n.id
    pub members : m.members ≡ chosen
    pub config : m.config_index ≡ index

  proceed-IsProposed :
      (n : Node) (c : Checked Members) (index : ℕ)
      → (proceed n c).1 ≡ ok index
      → IsProposed n c index (proceed n c).0
  proceed-IsProposed n (ok members) index done =
      let (same, config) = members-propose_members members n done in
      record {
        chosen = members;
        passed = refl;
        peers = peers-propose_members members n done;
        members = same;
        config = config;
      }
  proceed-IsProposed n (err e) index done = absurd (refused e index done)
    where
      refused : (e : ChangeError) (i : ℕ) → err e ≡ ok i → ⊥
      refused e i h = cc

  propose_config-proceed :
      (f : Members → Checked Members) (n : Node) (index : ℕ)
      → (propose_config codec f n).1 ≡ ok index
      → propose_config codec f n ≡ proceed n (f n.members)
  unfolding propose_config
  propose_config-proceed f n index done = ground arith

  -- Only a leader proposes, and only when its last configuration is committed.
  pub propose_config-allowed :
      (f : Members → Checked Members) (n : Node) (index : ℕ)
      → (propose_config codec f n).1 ≡ ok index
      → (is_leader n.state ≡ true) × (n.config_index ≤ n.commit_index)
  unfolding propose_config
  propose_config-allowed f n index done = (ground arith, ground arith)

  -- A configuration that is proposed is the changed one.
  pub propose_config-IsProposed :
      (f : Members → Checked Members) (n : Node) (index : ℕ)
      → (propose_config codec f n).1 ≡ ok index
      → IsProposed n (f n.members) index (propose_config codec f n).0
  propose_config-IsProposed f n index done =
      let same = propose_config-proceed f n index done in
      subst (λ r. IsProposed n (f n.members) index r.0) (sym same)
        (proceed-IsProposed n (f n.members) index (subst (λ r. r.1 ≡ ok index) same done))

  pub add_member-proceed :
      (id addr : Str) (n : Node) (index : ℕ)
      → (add_member codec id addr n).1 ≡ ok index
      → add_member codec id addr n ≡ propose_config codec (add_to id addr) n
  unfolding add_member
  add_member-proceed id addr n index done = ground arith
