-- ===== src/Examples/Stores.antt =====
-- The store's theorems at a store with one key.
use link_raft.Prelude.{
  ◌≡◌, refl, [], ◌∷◌, true, false, some, none, Str, codes, arith, tt, str_eq, starts_with, IsSorted,
  count, ◌&&◌, if◌then◌else◌,
}
use link_raft.Prelude.Int.{pos, inc_int64}
use link_raft.Prelude.Dict.{Dict, lookup}
use link_raft.Journal.{fine, torn, unended, late, render, write, scan}
use link_raft.Kvs.Number.{format_int, parse_int}
use link_raft.Kvs.Store.{
  incr, Command, Wal, Store, apply, apply_locked, get, done, open_store_at, restore, current_int,
  replay, wal_append, wal_truncate, keys_with,
}
use link_raft.Kvs.Store.Counters.{get-apply}
use link_raft.Kvs.Store.Replay.{IsRecoverable, apply-IsRecoverable, Restarts, apply-cut_restart}
use link_raft.Kvs.Store.Restarts.{Runs, rests, applies, open_store_at-Runs}
use link_raft.Kvs.Store.Listing.{is_found, keys_with-IsSorted}
use link_raft.Kvs.Server.{result, set_command, delete_command, serve_get}
use link_raft.Kvs.Server.Replies.{served, serve_get-write}

abbrev hits : Str
hits = codes "hits"

abbrev content : Dict Str
content = (hits, codes "41") ∷ []

abbrev wal : Wal
wal = record { file = []; stuck = false }

-- A store that was started from a snapshot of the first five commands.
abbrev store : Store
store = record { content = content; wal = some wal; applied_index = 5 }

abbrev incr_hits : Command
incr_hits = record { op = incr; key = hits; value = [] }

store-IsRecoverable : IsRecoverable 5 content store
unfolding render replay
store-IsRecoverable = record {
  log = wal;
  attached = refl;
  clear = refl;
  records = [];
  written = refl;
  replayed = refl;
}

counted : (apply fine 6 incr_hits store).1 ≡ done (some (pos 42))
unfolding apply apply_locked current_int lookup str_eq parse_int inc_int64 wal_append
counted = refl

get-apply_example :
    get hits (apply fine 6 incr_hits store).0
    ≡ some (format_int (inc_int64 (current_int hits content)))
unfolding str_eq
get-apply_example = get-apply fine 6 incr_hits hits store

-- A snapshot after the sixth command, and a seventh.
abbrev after_six : Store
after_six = (apply fine 6 incr_hits (open_store_at [] 5 content)).0

six-Runs : Runs (open_store_at [] 5 content) after_six
unfolding apply apply_locked current_int lookup str_eq parse_int inc_int64 wal_append open_store_at
    replay scan
six-Runs = applies rests fine 6 incr_hits (some (pos 42)) refl refl

abbrev after_seven : Store
after_seven = (apply fine 7 (set_command hits (codes "7")) after_six).0

seven-Runs : Runs after_six after_seven
unfolding apply apply_locked current_int lookup str_eq parse_int inc_int64 wal_append open_store_at
    replay scan
seven-Runs = applies rests fine 7 (set_command hits (codes "7")) none refl refl

abbrev two_records : Wal
two_records = record {
  file = render (
      record { index = 6; command = incr_hits }
      ∷ record { index = 7; command = set_command hits (codes "7") }
      ∷ []);
  stuck = false;
}

seven-wal : after_seven.wal ≡ some two_records
unfolding apply wal_append open_store_at replay scan render write
seven-wal = refl

open_store_at-Runs_example :
    (open_store_at two_records.file 5 content ≡ after_seven)
    × (open_store_at two_records.file after_six.applied_index after_six.content ≡ after_seven)
open_store_at-Runs_example =
    open_store_at-Runs 5 content after_six after_seven two_records six-Runs seven-Runs seven-wal

apply-IsRecoverable_example : IsRecoverable 5 content (apply fine 6 incr_hits store).0
apply-IsRecoverable_example =
    apply-IsRecoverable fine 6 incr_hits 5 content store (some (pos 42)) (omega arith)
      store-IsRecoverable counted

abbrev spoiled : Wal
spoiled = record {
  file = write (torn 0) (record { index = 6; command = incr_hits } ∷ []) [];
  stuck = true;
}

torn_wal : (apply (torn 0) 6 incr_hits store).0.wal ≡ some spoiled
unfolding apply wal_append
torn_wal = refl

abbrev unended_file : Wal
unended_file = record {
  file = write (unended 0) (record { index = 6; command = incr_hits } ∷ []) [];
  stuck = true;
}

unended_wal : (apply (unended 0) 6 incr_hits store).0.wal ≡ some unended_file
unfolding apply wal_append
unended_wal = refl

apply-cut_restart_example :
    Restarts 5 content (apply (torn 0) 6 incr_hits store) spoiled content 5
    × Restarts 5 content
        (apply (unended 0) 6 incr_hits store)
        unended_file
        (apply_locked incr_hits content).0
        6
apply-cut_restart_example =
    apply-cut_restart 0 6 incr_hits 5 content store spoiled unended_file (omega arith)
      store-IsRecoverable refl torn_wal unended_wal

restored : (restore fine 9 [] store).1 ≡ true
unfolding restore wal_truncate
restored = refl

keys_with-IsSorted_example :
    IsSorted (keys_with (codes "h") store)
    × ((k : Str)
        → count k (keys_with (codes "h") store)
          ≡ (if starts_with k (codes "h") && is_found (get k store) then 1 else 0))
keys_with-IsSorted_example = keys_with-IsSorted (codes "h") store (unfold lookup in (refl, tt))

serve_get-write_example :
    (serve_get hits (result tt) (apply late 6 (set_command hits (codes "7")) store).0
      ≡ served (codes "7", true))
    × (serve_get hits (result tt) (apply late 6 (delete_command hits) store).0 ≡ served ([], false))
serve_get-write_example = serve_get-write late 6 hits store refl (codes "7")
