-- ===== src/Api/Votes/Tally.antt =====
-- internal/api/handler/vote.go: the vote count of a link and the votes that are stored for it.
use link_raft.Prelude.{
  ℕ, ◌+◌, ◌<◌, ◌≡◌, sym, ap, subst, ◌∙◌, Str, str_eq, str_eq_refl, starts_with, Bool, true, false,
  not, some, arith, if◌then◌else◌, Bool-cases, inl, inr,
}
use link_raft.Prelude.Dict.{Dict, Distinct}
use link_raft.Prelude.Int.{ℤ, pos, inc_int64, max_int64, IsInt64}
use link_raft.Prelude.Results.{ok}
use link_raft.Api.Models.{Instant, Link, Vote}
use link_raft.Api.Kv.{Kv}
use link_raft.Api.Kv.Simulation.{Simulates}
use link_raft.Api.Kv.Prefixes.{count_keys, one_if}
use link_raft.Api.Keys.{link_key, vote_key, vote_prefix}
use link_raft.Api.Keys.Apart.{
  vote_key-link_key, link_key-inj, starts_with-vote_prefix, starts_with-vote_key,
}
use link_raft.Api.Repo.{Json}
use link_raft.Api.Auth.{Context, user_id}
use link_raft.Api.Yields.Records.{stored, stored-lookup, stored-read, stored-bytes}
use link_raft.Api.Votes.{dec_positive, Voted, toggle_vote}
use link_raft.Api.Votes.Toggled.{IsToggled, toggle_vote-IsToggled}

-- The number of the votes on a link.
abbrev pub tally : ℤ → Dict Str → ℕ
tally id d = count_keys (vote_prefix id) d

-- Every stored link counts its votes, and no key has two entries.
pub record IsTallied (links : Json Link) (d : Dict Str) : Type 0 where
  pub distinct : Distinct d
  pub counts :
      (id : ℤ) (l : Link)
      → IsInt64 id
      → stored links (link_key id) d ≡ some l
      → l.vote_count ≡ pos (tally id d)

-- A link that was read is read back after it is written with another count.
pub record IsReadBack (links : Json Link) : Type 0 where
  pub again :
      (l : Link) (n : ℤ) (b c : Str)
      → links.unmarshal b ≡ some l
      → links.marshal (record l { vote_count = n }) ≡ some c
      → links.unmarshal c ≡ some (record l { vote_count = n })

-- The response's count, by the number of the votes before and after.
voted-count :
    (v : Bool) (n m : ℕ)
    → m + one_if (not v) ≡ n + one_if v
    → n < max_int64
    → (if v then inc_int64 (pos n) else dec_positive (pos n)) ≡ pos m
unfolding inc_int64 dec_positive
voted-count true n m e below = ground arith
voted-count false n m e below = ground arith

module _ (links : Json Link) (again : IsReadBack links) (d e : Dict Str) (id caller : ℤ) (r : Voted)
    (h : IsTallied links d) (t : IsToggled links d id caller r e) (i : IsInt64 id)
    (below : tally id d < max_int64) where
  toggled-count : r.vote_count ≡ pos (tally id e)
  toggled-count =
      let v = t.tallied (vote_prefix id) h.distinct in
      let s = starts_with-vote_key id caller in
      let moved : tally id e + one_if (not r.voted) ≡ tally id d + one_if r.voted = grind arith in
      rw (h.counts id t.link i t.held) at t.counts
      ∙ voted-count r.voted (tally id d) (tally id e) moved below

  toggled-same :
      (j : ℤ) (l : Link)
      → IsInt64 j
      → str_eq (link_key id) (link_key j) ≡ true
      → stored links (link_key j) e ≡ some l
      → l.vote_count ≡ pos (tally j e)
  toggled-same j l g same held =
      let q = link_key-inj id j i g same in
      let (b, found, was) = stored-bytes links (link_key id) d t.held in
      let now = again.again t.link r.vote_count b t.bytes was t.written in
      let there = stored-read links (link_key id) t.bytes e t.stays in
      let l_is : l ≡ record t.link { vote_count = r.vote_count } = cc in
      ap (λ x. x.vote_count) l_is ∙ toggled-count ∙ ap (λ x. pos (tally x e)) q

  toggled-apart :
      (j : ℤ) (l : Link)
      → IsInt64 j
      → str_eq (link_key id) (link_key j) ≡ false
      → stored links (link_key j) e ≡ some l
      → l.vote_count ≡ pos (tally j e)
  toggled-apart j l g apart held =
      let still = t.others (link_key j) (vote_key-link_key j id caller) apart in
      let was =
        h.counts j l g (sym (stored-lookup links (link_key j) (link_key j) e d still) ∙ held) in
      let away : starts_with (vote_key id caller) (vote_prefix j) ≡ false = grind (
        arith,
        apart,
        Bool-cases (starts_with (vote_key id caller) (vote_prefix j)),
        starts_with-vote_prefix id j caller i g,
        str_eq_refl (link_key id),
      ) in
      let v = t.tallied (vote_prefix j) h.distinct in grind (arith, was, v, away)

  toggled-IsTallied : IsTallied links e
  toggled-IsTallied = record {
    distinct = t.distinct h.distinct;
    counts = λ j l g held. elim (Bool-cases (str_eq (link_key id) (link_key j))) [
      | inl same ↦ toggled-same j l g same held
      | inr apart ↦ toggled-apart j l g apart held
    ];
  }

-- When `ToggleVote` returns a response, and every stored link counted its votes, then every stored link
-- counts its votes afterwards too. The path's id is an int64, there is room for one more vote, and a
-- link that was read is read back after it is written with another count.
pub toggle_vote-IsTallied :
    {S : Type 0} {view : S → Dict Str} {kv : Kv S}
    → Simulates view kv
    → (links : Json Link) → IsReadBack links
    → (votes : Json Vote) (now : Instant) (id : ℤ) (ctx : Context) (s t : S) (r : Voted)
    → IsInt64 id
    → tally id (view s) < max_int64
    → IsTallied links (view s)
    → toggle_vote kv links votes now (some id) ctx s ≡ (t, ok r)
    → IsTallied links (view t)
toggle_vote-IsTallied {view = view} sim links again votes now id ctx s t r i below h e =
    let (j, p, toggled) = toggle_vote-IsToggled links votes now sim (some id) ctx s t r e in
    let q : id ≡ j = cc in
    toggled-IsTallied links again (view s) (view t) j (user_id ctx) r h toggled (subst IsInt64 q i)
      (subst (λ x. tally x (view s) < max_int64) q below)
