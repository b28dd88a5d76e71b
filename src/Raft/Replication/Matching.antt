-- ===== src/Raft/Replication/Matching.antt =====
-- internal/raft/raft.go: the log around the loop of `handleAppendEntries`.
use link_raft.Prelude.{
  ℕ, zero, suc, ◌+◌, ◌≤◌, ◌<◌, ◌≡◌, refl, subst, ◌∙◌, inl, inr, Bool, true, false, some, List, [],
  ◌∷◌, length, get_elem?, u64_mod, arith, Bool-cases,
}
use link_raft.Raft.Log.{Entry, Log, last_index, entry_at, term_at, append, truncate_from}
use link_raft.Raft.Log.Bounds.{
  Consecutive, IsWellFormed, last_index-eq, snap_index-append, snap_index-truncate_from,
  term_at-entry_at,
}
use link_raft.Raft.Log.Invariant.{append-IsWellFormed, truncate_from-IsWellFormed}
use link_raft.Raft.Log.Lookup.{
  entry_at-append, entry_at-truncate_from, last_index-append, last_index-truncate_from,
}
use link_raft.Raft.Node.{Node, Members, next_io}
use link_raft.Raft.Membership.{
  MembersCodec, apply_config, track_peers, recompute_config, maybe_apply_config_entry,
}
use link_raft.Raft.Replication.{append_entry, truncate_conflict, accept_entry, accept_entries}

-- Changes of the configuration leave the log alone.
pub log-apply_config : (m : Members) (i : ℕ) (n : Node) → (apply_config m i n).log ≡ n.log
unfolding apply_config track_peers
log-apply_config m i n = ground arith

module _ (codec : MembersCodec) where
  log-recompute_config : (n : Node) → (recompute_config codec n).log ≡ n.log
  unfolding recompute_config
  log-recompute_config n = grind (arith, log-apply_config)

  log-maybe_apply_config_entry :
      (e : Entry) (n : Node) → (maybe_apply_config_entry codec e n).log ≡ n.log
  unfolding maybe_apply_config_entry
  log-maybe_apply_config_entry e n = grind (arith, log-apply_config)

  log-append_entry :
      (e : Entry) (n : Node)
      → (append_entry codec e n).0.log ≡ (append (next_io n.io) (e ∷ []) n.log).0
  unfolding append_entry
  log-append_entry e n = grind (arith, log-maybe_apply_config_entry)

  ok-append_entry :
      (e : Entry) (n : Node) → (append_entry codec e n).1 ≡ (append (next_io n.io) (e ∷ []) n.log).1
  unfolding append_entry
  ok-append_entry e n = ground arith

  log-truncate_conflict :
      (e : Entry) (n : Node)
      → (truncate_conflict codec e n).0.log ≡ (truncate_from (next_io n.io) e.index n.log).0
  unfolding truncate_conflict
  log-truncate_conflict e n = grind (arith, log-recompute_config)

  -- One entry that continues at index `k` in a log `l`, and the log after it.
  record Taken (e : Entry) (l l' : Log) (ok : Bool) : Type 0 where
    formed : IsWellFormed l'
    boundary : l'.snap_index ≡ l.snap_index
    below : (i : ℕ) → i < e.index → entry_at i l' ≡ entry_at i l
    reaches : ok ≡ true → e.index ≤ last_index l'
    agrees : ok ≡ true → l.snap_index < e.index → term_at e.index l' ≡ e.term

  append-Taken :
      (e : Entry) (n : Node)
      → IsWellFormed n.log
      → e.index ≡ last_index n.log + 1
      → last_index n.log + 2 < u64_mod
      → Taken e n.log (append_entry codec e n).0.log (append_entry codec e n).1
  append-Taken e n w next fit =
      rw (log-append_entry, ok-append_entry)
        (record {
          formed = append-IsWellFormed (next_io n.io) n.log w (e ∷ []) (omega arith) (omega arith);
          boundary = snap_index-append n.log (next_io n.io) (e ∷ []);
          below = λ i lt. ground (arith, entry_at-append (next_io n.io) n.log w e i next fit);
          reaches = λ ok. ground (arith, last_index-append (next_io n.io) n.log w e next fit);
          agrees = λ ok lt.
              term_at-entry_at (append (next_io n.io) (e ∷ []) n.log).0 e.index {e = e}
                (rw snap_index-append lt)
                (ground (arith, entry_at-append (next_io n.io) n.log w e e.index next fit));
        })

  Taken-skip :
      (e : Entry) (l : Log)
      → IsWellFormed l
      → e.index ≤ last_index l
      → (l.snap_index < e.index → term_at e.index l ≡ e.term)
      → Taken e l l true
  Taken-skip e l w hi same = record {
    formed = w;
    boundary = refl;
    below = λ i lt. refl;
    reaches = λ ok. hi;
    agrees = λ ok lt. same lt;
  }

  -- A conflicting entry and all behind it give way.
  replace-Taken :
      (e : Entry) (n : Node)
      → IsWellFormed n.log
      → n.log.snap_index < e.index
      → e.index ≤ last_index n.log
      → e.index + 1 < u64_mod
      → let m = (truncate_conflict codec e n).0 in
        Taken e n.log (append_entry codec e m).0.log (append_entry codec e m).1
  replace-Taken e n w lo hi fit =
      let m = (truncate_conflict codec e n).0 in
      let cut = log-truncate_conflict e n in
      let last = last_index-truncate_from (next_io n.io) n.log w e.index lo hi in
      let t =
        append-Taken e m (rw cut (truncate_from-IsWellFormed (next_io n.io) n.log w e.index))
          (rw cut (omega (arith, last))) (rw cut (omega (arith, last))) in
      record {
        formed = t.formed;
        boundary = t.boundary ∙ rw cut (snap_index-truncate_from (next_io n.io) n.log w e.index);
        below = λ i lt.
            t.below i lt
            ∙ rw cut (ground (arith, entry_at-truncate_from (next_io n.io) n.log w e.index i));
        reaches = t.reaches;
        agrees = λ ok lt.
            t.agrees ok (rw cut (rw (snap_index-truncate_from (next_io n.io) n.log w e.index) lt));
      }

  -- The conflict case where the truncation fails.
  cut-Taken :
      (e : Entry) (n : Node)
      → IsWellFormed n.log
      → Taken e n.log (truncate_conflict codec e n).0.log false
  cut-Taken e n w =
      let cut = log-truncate_conflict e n in
      record {
        formed = rw cut (truncate_from-IsWellFormed (next_io n.io) n.log w e.index);
        boundary = rw cut (snap_index-truncate_from (next_io n.io) n.log w e.index);
        below = λ i lt.
            rw cut (ground (arith, entry_at-truncate_from (next_io n.io) n.log w e.index i));
        reaches = λ ok. cc;
        agrees = λ ok lt. cc;
      }

  accept-Taken :
      (e : Entry) (n : Node)
      → IsWellFormed n.log
      → e.index ≤ last_index n.log + 1
      → e.index + 1 < u64_mod
      → Taken e n.log (accept_entry codec e n).0.log (accept_entry codec e n).1
  unfolding accept_entry
  accept-Taken e n w hi fit = ground (
    arith,
    last_index-eq n.log w,
    Taken-skip e n.log w,
    append-Taken e n w,
    replace-Taken e n w,
    cut-Taken e n w,
  )

-- The entries of a request that continues behind index `k` of the log `l`, and the log after them.
-- The log stays well formed and keeps all up to `k`, whatever becomes of its file; and once the loop
-- has come to its end, the log reaches the last of the entries and agrees with the term of each.
pub record Followed (k : ℕ) (es : List Entry) (l l' : Log) (ok : Bool) : Type 0 where
  pub formed : IsWellFormed l'
  pub boundary : l'.snap_index ≡ l.snap_index
  pub below : (i : ℕ) → i ≤ k → entry_at i l' ≡ entry_at i l
  pub reaches : ok ≡ true → k + length es ≤ last_index l'
  pub agrees :
      ok ≡ true
      → (j : ℕ) (e : Entry) → get_elem? es j ≡ some e
      → l.snap_index < e.index
      → term_at e.index l' ≡ e.term

term_at-same :
    (i : ℕ) (l l' : Log)
    → l'.snap_index ≡ l.snap_index
    → l.snap_index < i
    → entry_at i l' ≡ entry_at i l
    → term_at i l' ≡ term_at i l
unfolding term_at
term_at-same i l l' b lo e = ground arith

module _ (codec : MembersCodec) where
  Followed-cons :
      (k : ℕ) (e : Entry) (es : List Entry) (l m l' : Log) (ok : Bool)
      → e.index ≡ k + 1
      → Taken codec e l m true
      → Followed (k + 1) es m l' ok
      → Followed k (e ∷ es) l l' ok
  Followed-cons k e es l m l' ok next t f = record {
    formed = f.formed;
    boundary = f.boundary ∙ t.boundary;
    below = λ i h. f.below i (omega arith) ∙ t.below i (omega arith);
    reaches = λ done. omega (arith, f.reaches done);
    agrees = λ done j x found lo. agree j x done found lo;
  }
    where
      agree :
          (j : ℕ) (x : Entry)
          → ok ≡ true
          → get_elem? (e ∷ es) j ≡ some x
          → l.snap_index < x.index
          → term_at x.index l' ≡ x.term
      agree zero x done found lo =
          let same : e ≡ x = cc in
          let lo' : l.snap_index < e.index = rw same lo in
          subst (λ (y : Entry). term_at y.index l' ≡ y.term) same
            (term_at-same e.index m l' f.boundary (rw t.boundary lo')
                (f.below e.index (omega arith))
              ∙ t.agrees refl lo')
      agree (suc j) x done found lo = f.agrees done j x found (rw t.boundary lo)

  Followed-stop :
      (k : ℕ) (e : Entry) (es : List Entry) (l m : Log) (ok : Bool)
      → e.index ≡ k + 1
      → Taken codec e l m ok
      → Followed k (e ∷ es) l m false
  Followed-stop k e es l m ok next t = record {
    formed = t.formed;
    boundary = t.boundary;
    below = λ i h. t.below i (omega arith);
    reaches = λ done. cc;
    agrees = λ done j x found lo. cc;
  }

  -- If the follower's log is well formed and reaches to `k`, and the entries follow `k` without
  -- an overflow, then after the loop over them the log is well formed and unchanged up to `k`; if
  -- the loop ran to its end, the log reaches to the last of them and has the term of each above
  -- the boundary.
  pub accept_entries-Followed :
      (k : ℕ) (es : List Entry) (n : Node)
      → IsWellFormed n.log
      → Consecutive (k + 1) es
      → k ≤ last_index n.log
      → k + length es + 1 < u64_mod
      → Followed k es n.log (accept_entries codec es n).0.log (accept_entries codec es n).1
  unfolding accept_entries
  accept_entries-Followed k [] n w c le fit = record {
    formed = w;
    boundary = refl;
    below = λ i h. refl;
    reaches = λ ok. omega arith;
    agrees = λ ok j e found lo. cc;
  }
  accept_entries-Followed k (e ∷ es) n w c le fit =
      let t = accept-Taken codec e n w (omega (arith, c.0)) (omega (arith, c.0)) in
      elim (Bool-cases (accept_entry codec e n).1) [
        | inl went_on ↦
            rw (went_on, accept_entries)
              (Followed-cons k e es n.log (accept_entry codec e n).0.log _ _ c.0 (rw went_on at t) (
                accept_entries-Followed (k + 1) es (accept_entry codec e n).0 t.formed c.1
                  (omega (arith, t.reaches went_on, c.0)) (omega arith)))
        | inr stopped ↦
            rw (stopped, accept_entries)
              (Followed-stop k e es n.log (accept_entry codec e n).0.log _ c.0 t)
      ]
