-- ===== src/Raft/Log/Operations.antt =====
-- internal/raft/log.go: the operations that change a log, as one.
use link_raft.Prelude.{ℕ, ◌+◌, ◌<◌, ◌≡◌, Bool, true, List, u64_mod}
use link_raft.Journal.{Io}
use link_raft.Raft.Log.{Entry, Log, last_index, append, truncate_from, compact_to}
use link_raft.Raft.Log.Bounds.{IsWellFormed, Consecutive}
use link_raft.Raft.Log.Recovery.{
  IsDurable, append-IsDurable, truncate_from-IsDurable, compact_to-IsDurable,
}

pub data Change : Type 0 where
  appends : List Entry → Change
  truncates : ℕ → Change
  compacts : ℕ → ℕ → Change

unfoldable pub change : Io → Change → Log → Log × Bool
change io (appends es) l = append io es l
change io (truncates i) l = truncate_from io i l
change io (compacts i term) l = compact_to io i term l

-- The entries that are appended follow the last one; a log is compacted below the largest index.
abbrev pub IsFit : Log → Change → Type 0
IsFit l (appends es) = Consecutive (last_index l + 1) es
IsFit l (truncates i) = Unit
IsFit l (compacts i term) = i + 1 < u64_mod

-- A well-formed and durable log is durable after an append of entries that follow its last one, a
-- truncation, or a compaction below the largest index, if it reports no error.
pub change-IsDurable :
    (io : Io) (l : Log) (c : Change)
    → IsWellFormed l
    → IsDurable l
    → IsFit l c
    → (change io c l).1 ≡ true
    → IsDurable (change io c l).0
unfolding change
change-IsDurable io l (appends es) w d fit done = append-IsDurable io l w d es fit done
change-IsDurable io l (truncates i) w d fit done = truncate_from-IsDurable io l w d i done
change-IsDurable io l (compacts i term) w d fit done = compact_to-IsDurable io l w d i term fit done
