-- ===== src/Api/Votes/Toggled.antt =====
-- internal/api/handler/vote.go: what `ToggleVote` leaves behind.
use link_raft.Prelude.{
  ◌+◌, ◌≡◌, refl, Str, starts_with, ◌&&◌, str_eq, str_eq_refl, Bool, true, false, not, Option, some,
  arith, if◌then◌else◌,
}
use link_raft.Prelude.Dict.{
  Dict, lookup, Distinct, lookup-insert, lookup-erase, insert-Distinct, erase-Distinct,
}
use link_raft.Prelude.Int.{ℤ, inc_int64}
use link_raft.Prelude.Results.{ok}
use link_raft.Api.Models.{Instant, Link, Vote}
use link_raft.Api.Kv.{Kv, plain}
use link_raft.Api.Kv.Simulation.{Simulates}
use link_raft.Api.Kv.Prefixes.{count_keys, one_if, count_keys-insert, count_keys-erase}
use link_raft.Api.Keys.{link_key, vote_key}
use link_raft.Api.Keys.Apart.{link_key-vote_key, vote_key-link_key}
use link_raft.Api.Repo.{Json}
use link_raft.Api.Auth.{Context, user_id}
use link_raft.Api.Simulated.{Sim-toggle_vote}
use link_raft.Api.Yields.{
  Yields, Yields-Sim, Yields-pure, Yields-bind, Yields-require, Yields-path_id, Yields-get,
  Yields-delete,
}
use link_raft.Api.Yields.Records.{stored, stored-some, Yields-get_json, Yields-set_json}
use link_raft.Api.Votes.{dec_positive, is_some, Voted, change_vote, toggle_vote}

-- From the content `d` to `e`, the caller's vote on the link has been turned around.
pub record IsToggled (links : Json Link) (d : Dict Str) (id caller : ℤ) (r : Voted) (e : Dict Str)
    : Type 0 where
  pub link : Link
  pub held : stored links (link_key id) d ≡ some link
  pub flips : r.voted ≡ not (is_some (lookup (vote_key id caller) d))
  pub kept : is_some (lookup (vote_key id caller) e) ≡ r.voted
  pub counts :
      r.vote_count ≡ (if r.voted then inc_int64 link.vote_count else dec_positive link.vote_count)
  pub bytes : Str
  pub written : links.marshal (record link { vote_count = r.vote_count }) ≡ some bytes
  pub stays : lookup (link_key id) e ≡ some bytes
  pub others :
      (k : Str)
      → str_eq (vote_key id caller) k ≡ false
      → str_eq (link_key id) k ≡ false
      → lookup k e ≡ lookup k d
  pub distinct : Distinct d → Distinct e
  -- The number of keys with any prefix goes with the vote.
  pub tallied :
      (p : Str)
      → Distinct d
      → count_keys p e + one_if (not r.voted && starts_with (vote_key id caller) p)
        ≡ count_keys p d + one_if (r.voted && starts_with (vote_key id caller) p)

module _ (links : Json Link) (votes : Json Vote) (now : Instant) where
  -- The content after the vote itself has changed.
  record IsChanged (b : Bool) (k : Str) (n m : ℤ) (d e : Dict Str) : Type 0 where
    vote : is_some (lookup k e) ≡ not b
    count : m ≡ (if not b then inc_int64 n else dec_positive n)
    others : (j : Str) → str_eq k j ≡ false → lookup j e ≡ lookup j d
    distinct : Distinct d → Distinct e
    tallied :
        (p : Str)
        → Distinct d
        → count_keys p e + one_if (b && starts_with k p)
          ≡ count_keys p d + one_if (not b && starts_with k p)

  Yields-change_vote :
      (b : Bool) (k : Str) (n : ℤ) (d : Dict Str)
      → is_some (lookup k d) ≡ b
      → Yields (change_vote plain links votes now b k n) d (λ m e. IsChanged b k n m d e)
  Yields-change_vote true k n d held = Yields-delete _ k (
      Yields-pure (record {
        vote = grind (arith, lookup-erase k k d, str_eq_refl k);
        count = refl;
        others = λ j h. grind (arith, lookup-erase k j d);
        distinct = erase-Distinct k d;
        tallied = λ p h. grind (arith, held, count_keys-erase p k d h);
      }))
  Yields-change_vote false k n d held =
      Yields-set_json votes _ k (record { created_at = now })
        λ b e. Yields-pure (record {
          vote = grind (arith, lookup-insert k k b d, str_eq_refl k);
          count = refl;
          others = λ j h. grind (arith, lookup-insert k j b d);
          distinct = insert-Distinct k b d;
          tallied = λ p h. grind (arith, held, count_keys-insert p k b d);
        })

  Yields-toggle_vote :
      (path : Option ℤ) (ctx : Context) (d : Dict Str)
      → Yields
          (toggle_vote plain links votes now path ctx)
          d
          (λ r e. (id : ℤ) × (path ≡ some id) × IsToggled links d id (user_id ctx) r e)
  unfolding toggle_vote
  Yields-toggle_vote path ctx d = Yields-path_id _ path λ id p.
      Yields-get_json links _ (link_key id) (
        Yields-require _ (stored links (link_key id) d) λ link held.
          let k = vote_key id (user_id ctx) in
          Yields-get _ k (
            Yields-bind (Yields-change_vote (is_some (lookup k d)) k link.vote_count d refl)
              λ n e h.
                Yields-set_json links _ (link_key id) (record link { vote_count = n })
                  λ b w. Yields-pure (
                    id,
                    p,
                    record {
                      link = link;
                      held = held;
                      flips = refl;
                      kept = grind (
                        arith,
                        lookup-insert (link_key id) k b e,
                        link_key-vote_key id id (user_id ctx),
                        h.vote,
                      );
                      counts = h.count;
                      bytes = b;
                      written = w;
                      stays = grind (
                        arith,
                        lookup-insert (link_key id) (link_key id) b e,
                        str_eq_refl (link_key id),
                      );
                      others =
                          λ j v l. grind (arith, lookup-insert (link_key id) j b e, h.others j v);
                      distinct = λ q. insert-Distinct (link_key id) b e (h.distinct q);
                      tallied = λ p q. grind (
                        arith,
                        h.tallied p q,
                        count_keys-insert p (link_key id) b e,
                        h.others (link_key id) (vote_key-link_key id id (user_id ctx)),
                        stored-some links (link_key id) d held,
                      );
                    },
                  )))

  -- When `ToggleVote` returns a response, the path's id names a link; the caller's vote on it is there
  -- exactly if it was not before, which is what the response says; the link is stored with a count
  -- that is one higher, or one lower but not below zero from above, as the response says; and
  -- nothing else in the store has changed.
  pub toggle_vote-IsToggled :
      {S : Type 0} {view : S → Dict Str} {kv : Kv S}
      → Simulates view kv
      → (path : Option ℤ) (ctx : Context) (s t : S) (r : Voted)
      → toggle_vote kv links votes now path ctx s ≡ (t, ok r)
      → (id : ℤ) × (path ≡ some id) × IsToggled links (view s) id (user_id ctx) r (view t)
  toggle_vote-IsToggled {view = view} h path ctx s t r =
      (Yields-Sim (Sim-toggle_vote h links votes now path ctx)
          (Yields-toggle_vote path ctx (view s))).at
        t r
