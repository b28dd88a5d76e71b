-- ===== src/Raft/Log/Invariant.antt =====
-- internal/raft/log.go: well-formedness under the operations of the log.
use link_raft.Prelude.{
  ℕ, ◌+◌, ◌-◌, ◌<◌, ◌≡◌, subst, inl, inr, List, ◌++◌, leb, length, take, drop, u64_mod, arith,
  length-append, length-take, length-drop, Bool-cases,
}
use link_raft.Journal.{Io}
use link_raft.Raft.Log.{Entry, Log, last_index, append, truncate_from, compact_to}
use link_raft.Raft.Log.Bounds.{
  Consecutive, Consecutive-append, Consecutive-take, Consecutive-drop, IsWellFormed, last_index-eq,
  entries-append, snap_index-append, entries-truncate_from, snap_index-truncate_from,
  entries-compact_to, snap_index-compact_to,
}

-- A log is well formed by what its two fields in memory are.
well_formed :
    (l : Log) (n : ℕ) (es : List Entry)
    → l.snap_index ≡ n
    → l.entries ≡ es
    → Consecutive (n + 1) es
    → n + length es + 1 < u64_mod
    → IsWellFormed l
well_formed l n es p q c fit = record { indexed = rw (p, q) c; fits = rw (p, q) fit }

module _ (io : Io) (l : Log) (w : IsWellFormed l) where
  -- A well-formed log is well formed after `append` of entries that follow its last one without
  -- an overflow, whatever becomes of the file.
  pub append-IsWellFormed :
      (es : List Entry)
      → Consecutive (last_index l + 1) es
      → last_index l + length es + 1 < u64_mod
      → IsWellFormed (append io es l).0
  append-IsWellFormed es c fit = elim (Bool-cases (append io es l).1) [
    | inl done ↦
        well_formed _ l.snap_index (l.entries ++ es) (snap_index-append l io es)
          (rw (entries-append, done))
          (Consecutive-append (l.snap_index + 1) l.entries es w.indexed
            (subst (λ n. Consecutive n es) (omega (arith, last_index-eq l w)) c))
          (omega (arith, last_index-eq l w, length-append l.entries es))
    | inr not_done ↦
        well_formed _ l.snap_index l.entries (snap_index-append l io es)
          (rw (entries-append, not_done)) w.indexed w.fits
  ]

  -- A well-formed log is well formed after `truncate_from`, whatever becomes of the file.
  pub truncate_from-IsWellFormed : (i : ℕ) → IsWellFormed (truncate_from io i l).0
  truncate_from-IsWellFormed i =
      well_formed _ l.snap_index (take (i - l.snap_index - 1) l.entries)
        (snap_index-truncate_from io l w i) (entries-truncate_from io l w i)
        (Consecutive-take (l.snap_index + 1) (i - l.snap_index - 1) l.entries w.indexed)
        (omega (arith, w.fits, length-take (i - l.snap_index - 1) l.entries))

  -- A well-formed log is well formed after `compact_to` to an index below the largest, whatever
  -- becomes of the file.
  pub compact_to-IsWellFormed :
      (i term : ℕ) → i + 1 < u64_mod → IsWellFormed (compact_to io i term l).0
  compact_to-IsWellFormed i term fit = elim (Bool-cases (leb i l.snap_index)) [
    | inl old ↦
        well_formed _ l.snap_index (drop (i - l.snap_index) l.entries)
          (rw (snap_index-compact_to io l w i term, old)) (entries-compact_to io l w i term)
          (subst (λ k. Consecutive (l.snap_index + 1) (drop k l.entries)) {x = 0} (ground arith)
            w.indexed)
          (ground (arith, length-drop (i - l.snap_index) l.entries, w.fits))
    | inr new ↦
        well_formed _ i (drop (i - l.snap_index) l.entries)
          (rw (snap_index-compact_to io l w i term, new)) (entries-compact_to io l w i term)
          (subst (λ n. Consecutive n (drop (i - l.snap_index) l.entries)) (ground arith)
            (Consecutive-drop (l.snap_index + 1) (i - l.snap_index) l.entries w.indexed))
          (ground (arith, length-drop (i - l.snap_index) l.entries, w.fits))
  ]
