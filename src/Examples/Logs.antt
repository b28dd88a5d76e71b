-- ===== src/Examples/Logs.antt =====
-- The raft log's theorems at the log of the fixtures.
use link_raft.Prelude.{tt, refl, ◌≡◌, [], ◌∷◌, ◌++◌, true, arith}
use link_raft.Journal.{fine, torn, render, write, scan}
use link_raft.Raft.Log.{
  Log, append, truncate_from, compact_to, rewrite, above_snap, open_log, last_index,
}
use link_raft.Raft.Log.Bounds.{Consecutive, IsWellFormed}
use link_raft.Raft.Log.Recovery.{IsDurable, open_log_after_snapshot, append_after_torn_lost}
use link_raft.Raft.Log.Restarts.{Runs, rests, changes, restarts, open_log-Runs}
use link_raft.Raft.Log.Operations.{appends, truncates, change, change-IsDurable}
use link_raft.Examples.Fixtures.{command, entries, log}

pub log-IsWellFormed : IsWellFormed log
log-IsWellFormed = record { indexed = (refl, (refl, (refl, tt))); fits = omega arith }

log-IsDurable : IsDurable log
log-IsDurable = record { records = entries; written = refl; held = refl }

-- Two appends, a snapshot up to 1, and a crash before the compaction.
written_log : Log
written_log = (change fine (appends (command 1 1 ∷ command 1 2 ∷ [])) (open_log [] 0 0)).0

written_log-Runs : Runs (open_log [] 0 0) (open_log written_log.file 1 1)
unfolding written_log change append open_log last_index scan
written_log-Runs =
    restarts
      (changes rests fine (appends (command 1 1 ∷ command 1 2 ∷ [])) (refl, (refl, tt))
        (omega arith) refl)
      1 1 (omega arith) (omega arith)

open_log-Runs_example :
    Consecutive 2 (command 1 2 ∷ [])
    × ((open_log (render (command 1 1 ∷ command 1 2 ∷ [])) 1 1).entries ≡ command 1 2 ∷ [])
unfolding written_log written_log-Runs change append open_log last_index scan render write
open_log-Runs_example = open_log-Runs (open_log written_log.file 1 1) written_log-Runs

open_log_after_snapshot_example :
    (open_log (render entries) 4 1).entries ≡ (compact_to fine 4 1 log).0.entries
open_log_after_snapshot_example =
    open_log_after_snapshot log 4 1 log-IsWellFormed log-IsDurable (omega arith)

append_after_torn_lost_example :
    let opened = open_log (write (torn 0) (command 2 6 ∷ []) (render entries)) 2 1 in
    let (appended, ok) = append fine (command 2 6 ∷ []) opened in
    (ok ≡ true)
    × (appended.entries ≡ entries ++ command 2 6 ∷ [])
    × ((open_log appended.file 2 1).entries ≡ entries)
append_after_torn_lost_example =
    append_after_torn_lost log (command 2 6) (command 2 6) [] log-IsDurable

change-IsDurable_example : IsDurable (change fine (truncates 4) log).0
change-IsDurable_example =
    change-IsDurable fine log (truncates 4) log-IsWellFormed log-IsDurable tt
      (unfold change truncate_from last_index rewrite above_snap in refl)
