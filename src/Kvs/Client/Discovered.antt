-- ===== src/Kvs/Client/Discovered.antt =====
-- internal/kvs/client.go: the addresses that a client knows after `ClusterStatus`.
use link_raft.Prelude.{
  tt, ◌+◌, ◌≤◌, ◌≡◌, refl, sym, ap, ◌∙◌, Str, str_eq, str_eq_iff, str_eq_refl, is_empty, Bool, true,
  false, not, ◌&&◌, ◌||◌, Option, none, some, List, [], ◌∷◌, ◌++◌, map, select, count,
  if◌then◌else◌, ◌==◌, arith, Bool-cases, inl, inr, append-nil, All,
}
use link_raft.Raft.Status.{MemberInfo}
use link_raft.Kvs.Server.{StatusResponse}
use link_raft.Kvs.Client.{Client, Network, client_for, contains}
use link_raft.Kvs.Client.Discovery.{
  NodeStatus, node_status, discover_members, discover, asked, status_of, status_of_all, ask_extra,
  cluster_status,
}

count-append : (a : Str) (bs cs : List Str) → count a (bs ++ cs) ≡ count a bs + count a cs
unfolding count
count-append a [] cs = omega arith
count-append a (b ∷ bs) cs = grind (arith, count-append a bs cs)

-- `set[a]` by the number of entries.
pub contains-count : (a : Str) (bs : List Str) → contains a bs ≡ not (count a bs == 0)
unfolding contains count
contains-count a [] = refl
contains-count a (b ∷ bs) = ground (arith, contains-count a bs)

contains-append :
    (a : Str) (bs cs : List Str) → contains a (bs ++ cs) ≡ (contains a bs || contains a cs)
unfolding contains
contains-append a [] cs = refl
contains-append a (b ∷ bs) cs = ground (arith, contains-append a bs cs)

-- What the loops keep, from the addresses `known` at first: the new ones are new, there are no two of
-- them, and both lists hold the same addresses.
record IsFound (known : List Str) (f : List Str × List Str) : Type 0 where
  queried : (a : Str) → contains a f.0 ≡ (contains a known || contains a f.1)
  fresh : (a : Str) → count a f.1 ≤ (if contains a known then 0 else 1)

IsFound-add :
    (known q x : List Str) (b : Str)
    → contains b q ≡ false
    → IsFound known (q, x)
    → IsFound known (b ∷ q, x ++ b ∷ [])
unfolding contains count
IsFound-add known q x b new h = record {
  queried = λ a. ground (arith, h.queried a, contains-append a x (b ∷ []));
  fresh = λ a. ground (
    arith,
    new,
    h.queried a,
    h.fresh a,
    str_eq_iff b a,
    count-append a x (b ∷ []),
    contains-count a x,
  );
}

discover_members-IsFound :
    (known : List Str) (ms : List MemberInfo) (f : List Str × List Str)
    → IsFound known f
    → IsFound known (discover_members ms f)
unfolding discover_members
discover_members-IsFound known [] f h = h
discover_members-IsFound known (m ∷ ms) (q, x) h =
    discover_members-IsFound known ms _
      (elim (Bool-cases (not (is_empty m.addr) && not (contains m.addr q))) [
        | inl b ↦ rw b (IsFound-add known q x m.addr (ground arith) h)
        | inr b ↦ rw b h
      ])

discover-IsFound :
    (known : List Str) (sts : List NodeStatus) (f : List Str × List Str)
    → IsFound known f
    → IsFound known (discover sts f)
unfolding discover
discover-IsFound known [] f h = h
discover-IsFound known (st ∷ sts) f h =
    discover-IsFound known sts _ (discover_members-IsFound known st.members f h)

-- An address that has been queried stays so.
discover_members-contains :
    (a : Str) (ms : List MemberInfo) (f : List Str × List Str)
    → contains a f.0 ≡ true
    → contains a (discover_members ms f).0 ≡ true
unfolding discover_members contains
discover_members-contains a [] f h = h
discover_members-contains a (m ∷ ms) (q, x) h = discover_members-contains a ms _ (ground arith)

discover-contains :
    (a : Str) (sts : List NodeStatus) (f : List Str × List Str)
    → contains a f.0 ≡ true
    → contains a (discover sts f).0 ≡ true
unfolding discover
discover-contains a [] f h = h
discover-contains a (st ∷ sts) f h =
    discover-contains a sts _ (discover_members-contains a st.members f h)

-- `addr`, if it is not empty, is in the set.
abbrev pub IsQueried : List Str → MemberInfo → Type 0
IsQueried q m = (is_empty m.addr || contains m.addr q) ≡ true

discover_members-IsQueried :
    (ms : List MemberInfo) (f : List Str × List Str) → All (IsQueried (discover_members ms f).0) ms
unfolding discover_members contains
discover_members-IsQueried [] f = tt
discover_members-IsQueried (m ∷ ms) (q, x) = (
  ground (
    arith,
    str_eq_refl m.addr,
    discover_members-contains m.addr ms (m.addr ∷ q, x ++ m.addr ∷ []),
    discover_members-contains m.addr ms (q, x),
  ),
  discover_members-IsQueried ms _,
)

All-mono :
    (ms : List MemberInfo) (q r : List Str)
    → ((a : Str) → contains a q ≡ true → contains a r ≡ true)
    → All (IsQueried q) ms
    → All (IsQueried r) ms
All-mono [] q r f h = tt
All-mono (m ∷ ms) q r f h = (grind (arith, f m.addr, h.0), All-mono ms q r f h.1)

All-members_mono :
    (sts : List NodeStatus) (q r : List Str)
    → ((a : Str) → contains a q ≡ true → contains a r ≡ true)
    → All (λ st. All (IsQueried q) st.members) sts
    → All (λ st. All (IsQueried r) st.members) sts
All-members_mono [] q r f h = tt
All-members_mono (st ∷ sts) q r f h =
    (All-mono st.members q r f h.0, All-members_mono sts q r f h.1)

discover-IsQueried :
    (sts : List NodeStatus) (f : List Str × List Str)
    → All (λ st. All (IsQueried (discover sts f).0) st.members) sts
unfolding discover
discover-IsQueried [] f = tt
discover-IsQueried (st ∷ sts) f =
    let g = discover_members st.members f in
    (
      All-mono st.members g.0 (discover sts g).0 (λ a. discover-contains a sts g)
          (discover_members-IsQueried st.members f),
      discover-IsQueried sts g,
    )

select-all :
    (p : Str → Bool) (xs : List Str) → ((a : Str) → p a ≡ false → count a xs ≡ 0) → select p xs ≡ xs
unfolding count
select-all p [] h = refl
select-all p (x ∷ xs) h = grind (
  arith,
  Bool-cases (p x),
  h x,
  str_eq_refl x,
  select-all p xs (λ a e. grind (arith, h a e, Bool-cases (str_eq x a))),
)

map-append :
    (xs ys : List NodeStatus)
    → map (λ st. st.address) (xs ++ ys) ≡ map (λ st. st.address) xs ++ map (λ st. st.address) ys
map-append [] ys = refl
map-append (x ∷ xs) ys = ap (λ zs. x.address ∷ zs) (map-append xs ys)

node_status-address : (a : Str) (o : Option StatusResponse) → (node_status a o).address ≡ a
node_status-address a none = refl
node_status-address a (some r) = refl

module _ {W : Type 0} (net : Network W) (ask : Str → W → W × Option StatusResponse) where
  asked-address : (a : Str) (w : W) (d : Client × Bool) → (asked net ask a w d).1.address ≡ a
  asked-address a w (c, false) = refl
  asked-address a w (c, true) = node_status-address a (ask a w).1

  asked-addrs : (a : Str) (w : W) (d : Client × Bool) → (asked net ask a w d).0.0.addrs ≡ d.0.addrs
  asked-addrs a w (c, false) = refl
  asked-addrs a w (c, true) = refl

  client_for-addrs : (a : Str) (w : W) (c : Client) → (client_for net a w c).0.addrs ≡ c.addrs
  unfolding client_for
  client_for-addrs a w c = grind arith

  status_of-same :
      (a : Str) (s : Client × W)
      → ((status_of net ask a s).1.address ≡ a) × ((status_of net ask a s).0.0.addrs ≡ s.0.addrs)
  unfolding status_of
  status_of-same a (c, w) = (
    asked-address a w (client_for net a w c),
    asked-addrs a w (client_for net a w c) ∙ client_for-addrs a w c,
  )

  status_of_all-same :
      (bs : List Str) (s : Client × W)
      → (map (λ st. st.address) (status_of_all net ask bs s).1 ≡ bs)
        × ((status_of_all net ask bs s).0.0.addrs ≡ s.0.addrs)
  unfolding status_of_all
  status_of_all-same [] s = (refl, refl)
  status_of_all-same (b ∷ bs) s =
      let (e, f) = status_of-same b s in
      let (g, h) = status_of_all-same bs (status_of net ask b s).0 in (cc, h ∙ f)

  ask_extra-same :
      (bs : List Str) (s : Client × W) (out : List NodeStatus)
      → map (λ st. st.address) out ≡ s.0.addrs
      → ((a : Str) → count a bs ≤ (if contains a s.0.addrs then 0 else 1))
      → ((ask_extra net ask bs (s, out)).0.0.addrs ≡ s.0.addrs ++ bs)
        × (map (λ st. st.address) (ask_extra net ask bs (s, out)).1 ≡ s.0.addrs ++ bs)
  ask_extra-same [] s out h fresh = (sym (append-nil s.0.addrs), h ∙ sym (append-nil s.0.addrs))
  ask_extra-same (b ∷ bs) s out h fresh =
      let (e, f) = status_of_all-same (b ∷ bs) s in
      let t = (status_of_all net ask (b ∷ bs) s).0.0.addrs in
      let new =
        select-all (λ a. not (contains a t)) (b ∷ bs)
          (λ a p. grind (arith, fresh a, f, Bool-cases (contains a t))) in
      (
        ap (λ cs. t ++ cs) new ∙ ap (λ cs. cs ++ b ∷ bs) f,
        map-append out (status_of_all net ask (b ∷ bs) s).1 ∙ rw (h, e) refl,
      )

  discovered : Client × W → List Str
  discovered (c, w) = (discover (status_of_all net ask c.addrs (c, w)).1 (c.addrs, [])).1

  discovered-IsFound :
      (s : Client × W)
      → IsFound s.0.addrs (discover (status_of_all net ask s.0.addrs s).1 (s.0.addrs, []))
  unfolding contains count
  discovered-IsFound s =
      discover-IsFound s.0.addrs _ (s.0.addrs, [])
        (record { queried = λ a. ground arith; fresh = λ a. ground arith })

  cluster_status-same :
      (s : Client × W)
      → ((cluster_status net ask s).0.0.addrs ≡ s.0.addrs ++ discovered s)
        × (map (λ st. st.address) (cluster_status net ask s).1 ≡ s.0.addrs ++ discovered s)
  unfolding cluster_status discovered
  cluster_status-same (c, w) =
      let (t, out) = status_of_all net ask c.addrs (c, w) in
      let (e, f) = status_of_all-same c.addrs (c, w) in
      let same =
        ask_extra-same (discovered (c, w)) t out (e ∙ sym f)
          (rw f (discovered-IsFound (c, w)).fresh) in
      (same.0 ∙ ap (λ cs. cs ++ discovered (c, w)) f, same.1 ∙ ap (λ cs. cs ++ discovered (c, w)) f)

  -- `ClusterStatus` returns one status for each address that the client knows afterwards, in the same
  -- order, and the client has forgotten none of the addresses that it knew.
  pub cluster_status-addresses :
      (s : Client × W)
      → (map (λ st. st.address) (cluster_status net ask s).1 ≡ (cluster_status net ask s).0.0.addrs)
        × (extra : List Str) × ((cluster_status net ask s).0.0.addrs ≡ s.0.addrs ++ extra)
  cluster_status-addresses s = let (e, f) = cluster_status-same s in (f ∙ sym e, discovered s, e)

  -- After `ClusterStatus` the client knows every address that the nodes it knew have named for a
  -- member, and if it knew no address twice, it still knows none twice.
  pub cluster_status-discovers :
      (s : Client × W)
      → All
          (λ st. All (IsQueried (cluster_status net ask s).0.0.addrs) st.members)
          (status_of_all net ask s.0.addrs s).1
        × (((a : Str) → count a s.0.addrs ≤ 1)
            → (a : Str) → count a (cluster_status net ask s).0.0.addrs ≤ 1)
  unfolding discovered
  cluster_status-discovers s =
      let (e, f) = cluster_status-same s in
      let found = discovered-IsFound s in
      let sts = (status_of_all net ask s.0.addrs s).1 in
      (
        All-members_mono sts (discover sts (s.0.addrs, [])).0 (cluster_status net ask s).0.0.addrs
            (λ a h. grind (arith, found.queried a, e, contains-append a s.0.addrs (discovered s)))
            (discover-IsQueried sts (s.0.addrs, [])),
        λ h a. grind (
          arith,
          h a,
          found.fresh a,
          e,
          count-append a s.0.addrs (discovered s),
          contains-count a s.0.addrs,
        ),
      )
