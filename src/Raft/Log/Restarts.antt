-- ===== src/Raft/Log/Restarts.antt =====
-- internal/raft/log.go: runs of operations on a log, and the starts from its file.
use link_raft.Prelude.{
  false, tt, ℕ, ◌+◌, ◌≤◌, ◌<◌, ◌≡◌, refl, ◌∙◌, true, inl, inr, [], length, ltb, leb, arith, u64_mod,
  Bool-cases,
}
use link_raft.Journal.{Io, fine, render, scan}
use link_raft.Journal.Laws.{read-render}
use link_raft.Raft.Log.{Log, last_index, compact_to, open_log}
use link_raft.Raft.Log.Bounds.{Consecutive, IsWellFormed, snap_index-compact_to}
use link_raft.Raft.Log.Invariant.{
  append-IsWellFormed, truncate_from-IsWellFormed, compact_to-IsWellFormed,
}
use link_raft.Raft.Log.Recovery.{IsDurable, open_log-IsDurable, open_log_after_snapshot}
use link_raft.Raft.Log.Operations.{
  Change, appends, truncates, compacts, change, IsFit, change-IsDurable,
}

-- What is appended stays below the largest index.
abbrev pub IsSmall : Log → Change → Type 0
IsSmall l (appends es) = last_index l + length es + 1 < u64_mod
IsSmall l (truncates i) = Unit
IsSmall l (compacts i term) = Unit

-- Operations that report no error, and starts from the file at the boundary of the last snapshot or at one
-- of a snapshot that was saved since.
pub data Runs (l : Log) : Log → Type 0 where
  rests : Runs l l
  changes :
      {m : Log}
      → Runs l m
      → (io : Io) (c : Change) → IsFit m c
      → IsSmall m c
      → (change io c m).1 ≡ true
      → Runs l (change io c m).0
  restarts :
      {m : Log}
      → Runs l m
      → (i term : ℕ) → m.snap_index ≤ i
      → i + 1 < u64_mod
      → Runs l (open_log m.file i term)

change-IsWellFormed :
    (io : Io) (l : Log) (c : Change)
    → IsWellFormed l
    → IsFit l c
    → IsSmall l c
    → IsWellFormed (change io c l).0
unfolding change
change-IsWellFormed io l (appends es) w fit small = append-IsWellFormed io l w es fit small
change-IsWellFormed io l (truncates i) w fit small = truncate_from-IsWellFormed io l w i
change-IsWellFormed io l (compacts i term) w fit small = compact_to-IsWellFormed io l w i term fit

same-IsWellFormed :
    (l m : Log)
    → m.snap_index ≡ l.snap_index
    → m.entries ≡ l.entries
    → IsWellFormed l
    → IsWellFormed m
same-IsWellFormed l m p q w = record { indexed = rw (p, q) w.indexed; fits = rw (p, q) w.fits }

snap_index-open_log : (l : Log) (i term : ℕ) → (open_log l.file i term).snap_index ≡ i
unfolding open_log
snap_index-open_log l i term = refl

entries-open_log :
    (l : Log) (i j : ℕ) (term u : ℕ)
    → i ≡ j
    → (open_log l.file i term).entries ≡ (open_log l.file j u).entries
unfolding open_log
entries-open_log l i j term u e = rw e refl

open_log-IsWellFormed :
    (l : Log) (i term : ℕ)
    → IsWellFormed l
    → IsDurable l
    → l.snap_index ≤ i
    → i + 1 < u64_mod
    → IsWellFormed (open_log l.file i term)
open_log-IsWellFormed l i term w d le fit = elim (Bool-cases (ltb l.snap_index i)) [
  | inl above ↦
      let new : leb i l.snap_index ≡ false = ground arith in
      same-IsWellFormed (compact_to fine i term l).0 (open_log l.file i term)
        (rw (snap_index-open_log l i term, snap_index-compact_to fine l w i term, new) refl)
        (open_log_after_snapshot l i term w d (ground arith))
        (compact_to-IsWellFormed fine l w i term fit)
  | inr here_ ↦
      let same : i ≡ l.snap_index = ground arith in
      same-IsWellFormed l (open_log l.file i term) (rw (snap_index-open_log l i term) same)
        (entries-open_log l i l.snap_index term l.snap_term same ∙ open_log-IsDurable l d) w
]

open_log-keeps_IsDurable : (l : Log) (i term : ℕ) → IsDurable l → IsDurable (open_log l.file i term)
unfolding open_log
open_log-keeps_IsDurable l i term d = record {
  records = d.records;
  written = d.written;
  held = rw (d.written, read-render d.records) refl;
}

new_log-IsWellFormed : IsWellFormed (open_log [] 0 0)
unfolding open_log scan
new_log-IsWellFormed = record { indexed = tt; fits = omega arith }

new_log-IsDurable : IsDurable (open_log [] 0 0)
unfolding open_log scan render
new_log-IsDurable = record { records = []; written = refl; held = refl }

Runs-IsSound : {l m : Log} → Runs l m → IsWellFormed l × IsDurable l → IsWellFormed m × IsDurable m
Runs-IsSound rests h = h
Runs-IsSound (changes {m} run io c fit small done) h =
    let (w, d) = Runs-IsSound run h in
    (change-IsWellFormed io m c w fit small, change-IsDurable io m c w d fit done)
Runs-IsSound (restarts {m} run i term le fit) h =
    let (w, d) = Runs-IsSound run h in
    (open_log-IsWellFormed m i term w d le fit, open_log-keeps_IsDurable m i term d)

-- From an empty log, after any appends of entries that follow the last one, truncations and compactions that
-- report no error, and any starts in between, also after a crash between the saving of a snapshot and
-- the compaction, all below the largest index: the entries in memory have consecutive indexes from the
-- boundary on, and a start from the file at that boundary finds exactly them.
pub open_log-Runs :
    (l : Log)
    → Runs (open_log [] 0 0) l
    → Consecutive (l.snap_index + 1) l.entries
      × ((open_log l.file l.snap_index l.snap_term).entries ≡ l.entries)
open_log-Runs l run =
    let (w, d) = Runs-IsSound run (new_log-IsWellFormed, new_log-IsDurable) in
    (w.indexed, open_log-IsDurable l d)
