-- ===== src/Raft/Log/Recovery.antt =====
-- internal/raft/log.go: the files that the operations leave, and `OpenLog` on them.
use link_raft.Prelude.{
  ℕ, zero, suc, ◌+◌, ◌-◌, ◌≤◌, ◌<◌, ◌≡◌, refl, ap, sym, ◌∙◌, ◌⊎◌, inl, inr, true, List, [], ◌∷◌,
  ◌++◌, ltb, leb, drop, select, u64_mod, arith, Bool-cases, ltb→lt, ltb→le, append-nil,
}
use link_raft.Journal.{Io, fine, torn, unended, late, read, render, write}
use link_raft.Journal.Laws.{read-render, render-append, read-torn_crash, read-torn_write}
use link_raft.Raft.Log.{
  Entry, Log, last_index, above_snap, append, rewrite, truncate_from, compact_to, open_log,
  is_above,
}
use link_raft.Raft.Log.Bounds.{
  Consecutive, IsWellFormed, last_index-eq, entries-append, snap_index-append, entries-compact_to,
}
use link_raft.Raft.Log.Invariant.{truncate_from-IsWellFormed, compact_to-IsWellFormed}

-- The file holds whole records, of which those above the boundary are the entries in memory.
pub record IsDurable (l : Log) : Type 0 where
  pub records : List Entry
  pub written : l.file ≡ render records
  pub held : select (is_above l.snap_index) records ≡ l.entries

-- Reopening the file of a durable log at its boundary gives the entries that it held.
pub open_log-IsDurable :
    (l : Log) → IsDurable l → (open_log l.file l.snap_index l.snap_term).entries ≡ l.entries
unfolding open_log
open_log-IsDurable l d = rw (d.written, read-render) d.held

select-append :
    (n : ℕ) (es fs : List Entry)
    → select (is_above n) (es ++ fs) ≡ select (is_above n) es ++ select (is_above n) fs
select-append n [] fs = refl
select-append n (e ∷ es) fs = ground (arith, select-append n es fs)

-- Entries with consecutive indexes above the boundary all pass.
select-Consecutive :
    (n k : ℕ) (es : List Entry) → n < k → Consecutive k es → select (is_above n) es ≡ es
select-Consecutive n k [] h c = refl
select-Consecutive n k (e ∷ es) h c = ground (arith, select-Consecutive n (k + 1) es)

drop-nil : (n : ℕ) → [] ≡ drop {A = Entry} n []
drop-nil zero = refl
drop-nil (suc n) = refl

minus_suc : (n k : ℕ) → k < n → n - k ≡ suc (n - (k + 1))
minus_suc n k h = omega arith

minus_zero : (n k : ℕ) → n ≤ k → n - k ≡ 0
minus_zero n k h = omega arith

-- A higher boundary drops as many of consecutive entries as it passes.
select-drop :
    (n k : ℕ) (es : List Entry) → Consecutive (k + 1) es → select (is_above n) es ≡ drop (n - k) es
select-drop n k [] c = drop-nil (n - k)
select-drop n k (e ∷ es) c = elim (Bool-cases (ltb k n)) [
  | inl below ↦ rw (minus_suc n k (ltb→lt k n below)) (ground (arith, select-drop n (k + 1) es))
  | inr above ↦
      rw (minus_zero n k (ltb→le k n above))
        (select-Consecutive n (k + 1) (e ∷ es) (omega (arith, ltb→le k n above)) c)
]

-- Restricting twice is restricting to the higher boundary.
select-select :
    (m n : ℕ) (es : List Entry)
    → m ≤ n
    → select (is_above n) (select (is_above m) es) ≡ select (is_above n) es
select-select m n [] h = refl
select-select m n (e ∷ es) h = ground (arith, select-select m n es h)

-- A log whose file was just written from memory.
rewritten : (l : Log) → IsWellFormed l → l.file ≡ render l.entries → IsDurable l
rewritten l w f = record {
  records = l.entries;
  written = f;
  held = select-Consecutive l.snap_index (l.snap_index + 1) l.entries (omega arith) w.indexed;
}

-- Without an error the file of a rewritten log is what memory holds.
file-rewrite :
    (io : Io) (l : Log)
    → (rewrite io l).1 ≡ true
    → (rewrite io l).0.file ≡ render (rewrite io l).0.entries
unfolding rewrite
file-rewrite fine l h = ground arith
file-rewrite (torn k) l h = cc
file-rewrite (unended k) l h = cc
file-rewrite late l h = ground arith

file-append :
    (io : Io) (l : Log) (es : List Entry)
    → (append io es l).1 ≡ true
    → (append io es l).0.file ≡ l.file ++ render es
unfolding append write render
file-append io l [] h = sym (append-nil l.file)
file-append fine l (e ∷ es) h = ground arith
file-append (torn k) l (e ∷ es) h = ground arith
file-append (unended k) l (e ∷ es) h = ground arith
file-append late l (e ∷ es) h = ground arith

-- An operation that reports no error left the log alone or rewrote the file.
abbrev Rewritten : Log → Log → Type 0
Rewritten l l' = (l' ≡ l) ⊎ (l'.file ≡ render l'.entries)

Rewritten-truncate_from :
    (io : Io) (l : Log) (i : ℕ)
    → (truncate_from io i l).1 ≡ true
    → Rewritten l (truncate_from io i l).0
unfolding truncate_from
Rewritten-truncate_from io l i h = elim (Bool-cases (ltb (last_index l) (above_snap i l))) [
  | inl past ↦ inl (rw past refl)
  | inr within ↦ inr (rw within (file-rewrite io _ (rw within at h)))
]

Rewritten-compact_to :
    (io : Io) (l : Log) (i term : ℕ)
    → (compact_to io i term l).1 ≡ true
    → Rewritten l (compact_to io i term l).0
unfolding compact_to
Rewritten-compact_to io l i term h = elim (Bool-cases (leb i l.snap_index)) [
  | inl old ↦ inl (rw old refl)
  | inr new ↦ inr (rw new (file-rewrite io _ (rw new at h)))
]

IsDurable-of_records : (l l' : Log) → IsDurable l → IsWellFormed l' → Rewritten l l' → IsDurable l'
IsDurable-of_records l l' d w (inl same) = rw same d
IsDurable-of_records l l' d w (inr file) = rewritten l' w file

module _ (io : Io) (l : Log) (w : IsWellFormed l) (d : IsDurable l) where
  -- A well-formed and durable log is durable after an `append` of entries that follow its last
  -- one, if it reports no error.
  pub append-IsDurable :
      (es : List Entry)
      → Consecutive (last_index l + 1) es
      → (append io es l).1 ≡ true
      → IsDurable (append io es l).0
  append-IsDurable es c ok = record {
    records = d.records ++ es;
    written = file-append io l es ok ∙ rw (d.written, render-append) refl;
    held =
        rw
          (
            snap_index-append l io es,
            select-append l.snap_index d.records es,
            d.held,
            entries-append l io es,
            ok,
          )
          (ap (λ r. l.entries ++ r)
            (select-Consecutive l.snap_index (last_index l + 1) es
              (omega (arith, last_index-eq l w)) c));
  }

  -- A well-formed and durable log is durable after a `truncate_from` that reports no error.
  pub truncate_from-IsDurable :
      (i : ℕ) → (truncate_from io i l).1 ≡ true → IsDurable (truncate_from io i l).0
  truncate_from-IsDurable i ok =
      IsDurable-of_records l _ d (truncate_from-IsWellFormed io l w i)
        (Rewritten-truncate_from io l i ok)

  -- A well-formed and durable log is durable after a `compact_to` below the largest index that
  -- reports no error.
  pub compact_to-IsDurable :
      (i term : ℕ)
      → i + 1 < u64_mod
      → (compact_to io i term l).1 ≡ true
      → IsDurable (compact_to io i term l).0
  compact_to-IsDurable i term fit ok =
      IsDurable-of_records l _ d (compact_to-IsWellFormed io l w i term fit)
        (Rewritten-compact_to io l i term ok)

-- A crash after the snapshot up to `i` was saved and before the log was compacted: for a
-- well-formed and durable log and an `i` above its boundary, reopening the old file at the new
-- boundary gives the entries that the compaction keeps.
pub open_log_after_snapshot :
    (l : Log) (i term : ℕ)
    → IsWellFormed l
    → IsDurable l
    → l.snap_index < i
    → (open_log l.file i term).entries ≡ (compact_to fine i term l).0.entries
unfolding open_log
open_log_after_snapshot l i term w d new =
    ap (λ f. select (is_above i) (read f)) d.written
    ∙ ap (select (is_above i)) (read-render d.records)
    ∙ sym (select-select l.snap_index i d.records (omega arith))
    ∙ ap (select (is_above i)) d.held
    ∙ select-drop i l.snap_index l.entries w.indexed
    ∙ sym (entries-compact_to fine l w i term)

-- After a crash has cut a write to a durable log short within its first record and the log was
-- opened again, an append reports success and is not found by the start after it: what was cut
-- short swallows the new record.
pub append_after_torn_lost :
    (l : Log) (cut e : Entry) (rest : List Entry)
    → IsDurable l
    → let opened = open_log (write (torn 0) (cut ∷ []) l.file) l.snap_index l.snap_term in
      let (appended, ok) = append fine (e ∷ rest) opened in
      (ok ≡ true)
      × (appended.entries ≡ l.entries ++ e ∷ rest)
      × ((open_log appended.file l.snap_index l.snap_term).entries ≡ l.entries)
unfolding append open_log
append_after_torn_lost l cut e rest d =
    let s = select (is_above l.snap_index) in
    (
      refl,
      ap (λ es. es ++ e ∷ rest)
          (ap (λ f. s (read (write (torn 0) (cut ∷ []) f))) d.written
            ∙ ap s (read-torn_crash d.records (cut ∷ []))
            ∙ d.held),
      ap (λ f. s (read (write fine (e ∷ rest) (write (torn 0) (cut ∷ []) f)))) d.written
          ∙ ap s (read-torn_write d.records (cut ∷ []) (e ∷ rest))
          ∙ d.held,
    )
