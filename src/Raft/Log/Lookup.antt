-- ===== src/Raft/Log/Lookup.antt =====
-- internal/raft/log.go: `At` and `TermAt` after each operation, index by index.
use link_raft.Prelude.{
  ℕ, ◌+◌, ◌-◌, ◌≤◌, ◌<◌, ◌≡◌, refl, inl, inr, none, some, [], ◌∷◌, ltb, if◌then◌else◌, sym,
  length-append, length-take, ap, ◌∙◌, ltb→lt, get_elem?, u64_mod, arith, get_elem?-drop,
  get_elem?-take, get_elem?-snoc, Bool-cases,
}
use link_raft.Journal.{Io}
use link_raft.Raft.Log.{
  Entry, Log, last_index, entry_at, term_at, append, truncate_from, compact_to,
}
use link_raft.Raft.Log.Bounds.{
  IsWellFormed, last_index-eq, entry_at-get_elem?, term_at-boundary, entries-append,
  snap_index-append, entries-truncate_from, snap_index-truncate_from, entries-compact_to,
  snap_index-compact_to, snap_term-compact_to,
}
use link_raft.Raft.Log.Invariant.{
  append-IsWellFormed, truncate_from-IsWellFormed, compact_to-IsWellFormed,
}

index_shift : (s i j : ℕ) → s < i → i < j → i - s + (j - i - 1) ≡ j - s - 1
index_shift s i j p q = omega arith

module _ (io : Io) (l : Log) (w : IsWellFormed l) where
  -- On a well-formed log, after `append` of one entry that follows the last, without an overflow:
  -- if no error is reported, `entry_at` answers that entry at its index, nothing above it, and
  -- below it what it answered before; after an error it answers as before.
  pub entry_at-append :
      (e : Entry) (i : ℕ)
      → e.index ≡ last_index l + 1
      → last_index l + 2 < u64_mod
      → entry_at i (append io (e ∷ []) l).0 ≡ (
          if (append io (e ∷ []) l).1
          then (if ltb i e.index then entry_at i l else if ltb e.index i then none else some e)
          else entry_at i l)
  entry_at-append e i next fit =
      let kept = append-IsWellFormed io l w (e ∷ []) (omega arith) (omega arith) in
      elim (Bool-cases (append io (e ∷ []) l).1) [
        | inl done ↦
            rw (done, entry_at-get_elem? _ kept, entry_at-get_elem? l w, entries-append, done)
              (rw snap_index-append (
                ground
                  (arith, last_index-eq l w, get_elem?-snoc l.entries e (i - l.snap_index - 1))))
        | inr not_done ↦
            rw
              (
                not_done,
                entry_at-get_elem? _ kept,
                entry_at-get_elem? l w,
                entries-append,
                not_done,
              )
              (rw snap_index-append refl)
      ]

  -- On a well-formed log, `truncate_from` removes the entries from its index on and no other,
  -- whatever becomes of the file.
  pub entry_at-truncate_from :
      (i j : ℕ) → entry_at j (truncate_from io i l).0 ≡ (if ltb j i then entry_at j l else none)
  entry_at-truncate_from i j =
      rw
        (
          entry_at-get_elem? _ (truncate_from-IsWellFormed io l w i),
          entry_at-get_elem? l w,
          entries-truncate_from io l w,
          snap_index-truncate_from io l w,
        )
        (ground (arith, get_elem?-take (i - l.snap_index - 1) (j - l.snap_index - 1) l.entries))

  -- On a well-formed log, `compact_to` to an index above the boundary forgets the entries up to
  -- that index, keeps all others, and makes `term_at` answer the given term there.
  pub entry_at-compact_to :
      (i term j : ℕ)
      → i + 1 < u64_mod
      → l.snap_index < i
      → (entry_at j (compact_to io i term l).0 ≡ (if ltb i j then entry_at j l else none))
        × (term_at i (compact_to io i term l).0 ≡ term)
  entry_at-compact_to i term j fit new =
      let kept = compact_to-IsWellFormed io l w i term fit in
      (
        rw
            (
              entry_at-get_elem? _ kept,
              entry_at-get_elem? l w,
              entries-compact_to io l w i term,
              snap_index-compact_to io l w i term,
            )
            (elim (Bool-cases (ltb i j)) [
              | inl above ↦ ground (
                arith,
                get_elem?-drop (i - l.snap_index) (j - i - 1) l.entries,
                ap (get_elem? l.entries) (index_shift l.snap_index i j new (ltb→lt i j above)),
              )
              | inr below ↦ ground arith
            ]),
        term_at-boundary _ i (rw snap_index-compact_to (ground arith))
            ∙ rw snap_term-compact_to (ground arith),
      )

  pub last_index-append :
      (e : Entry)
      → e.index ≡ last_index l + 1
      → last_index l + 2 < u64_mod
      → last_index (append io (e ∷ []) l).0
        ≡ (if (append io (e ∷ []) l).1 then last_index l + 1 else last_index l)
  last_index-append e next fit =
      let kept = append-IsWellFormed io l w (e ∷ []) (omega arith) (omega arith) in
      elim (Bool-cases (append io (e ∷ []) l).1) [
        | inl done ↦
            rw (done, last_index-eq _ kept, entries-append, done, snap_index-append)
              (omega (arith, last_index-eq l w, length-append l.entries (e ∷ [])))
        | inr not_done ↦
            rw (not_done, last_index-eq _ kept, entries-append, not_done, snap_index-append)
              (sym (last_index-eq l w))
      ]

  pub last_index-truncate_from :
      (i : ℕ) → l.snap_index < i → i ≤ last_index l → last_index (truncate_from io i l).0 + 1 ≡ i
  last_index-truncate_from i lo hi =
      rw
        (
          last_index-eq _ (truncate_from-IsWellFormed io l w i),
          entries-truncate_from io l w,
          snap_index-truncate_from io l w,
        )
        (omega (arith, last_index-eq l w, length-take (i - l.snap_index - 1) l.entries))
