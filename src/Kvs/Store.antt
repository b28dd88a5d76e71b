-- ===== src/Kvs/Store.antt =====
-- internal/kvs/store.go and wal.go: the key-value state machine and its write-ahead log.
pub mod Counters
pub mod Replay
pub mod Restarts
pub mod Listing
use link_raft.Prelude.{
  ℕ, zero, suc, ◌+◌, Str, codes, str_eq, starts_with, sort_strs, Bool, true, false, not, ◌&&◌,
  Option, none, some, List, [], ◌∷◌, ltb, leb, ◌==◌, if◌then◌else◌, length,
}
use link_raft.Prelude.Int.{ℤ, pos, inc_int64}
use link_raft.Prelude.Dict.{Dict, lookup, insert, erase, keys}
use link_raft.Journal.{Journal, Io, fine, torn, unended, late, read, write, is_fine}
use link_raft.Kvs.Number.{format_int, parse_int}

-- `Command.Op`, with every other text as `other`.
pub data Op : Type 0 where
  set delete incr : Op
  other : Str → Op

pub record Command : Type 0 where
  pub op : Op
  pub key : Str
  pub value : Str

-- `walRecord`
pub record WalRecord : Type 0 where
  pub index : ℕ
  pub command : Command

-- `WAL`; its writer reports every write as failed once one has failed (bufio.Writer).
pub record Wal : Type 0 where
  pub file : Journal WalRecord
  pub stuck : Bool

-- `WAL.Append`. The Boolean says that no error was returned.
unfoldable pub wal_append : Io → ℕ → Command → Wal → Wal × Bool
wal_append io index cmd w =
    let r : WalRecord = record { index = index; command = cmd } in
    if w.stuck then (w, false) else elim io [
      | fine ↦ (record w { file = write fine (r ∷ []) w.file }, true)
      | torn k ↦ (record { file = write (torn 0) (r ∷ []) w.file; stuck = true }, false)
      | unended k ↦ (record { file = write (unended 0) (r ∷ []) w.file; stuck = true }, false)
      | late ↦ (record w { file = write late (r ∷ []) w.file }, false)
    ]

-- `WAL.Truncate`
unfoldable pub wal_truncate : Io → Wal → Wal × Bool
wal_truncate io w =
    if w.stuck
    then (w, false)
    else if is_fine io
    then (record w { file = [] }, true)
    else (w, false)

pub record Store : Type 0 where
  pub content : Dict Str
  pub wal : Option Wal
  pub applied_index : ℕ

-- What an operation on the state returns: nil, or the int64 of an increment.
abbrev pub Returned : Type 0
Returned = Option ℤ

int_or_zero : Option ℤ → ℤ
int_or_zero none = pos 0
int_or_zero (some z) = z

parse_or_zero : Option Str → ℤ
unfolding int_or_zero
parse_or_zero none = pos 0
parse_or_zero (some v) = int_or_zero (parse_int v)

-- `currentInt`
unfoldable pub current_int : Str → Dict Str → ℤ
unfolding parse_or_zero
current_int key d = parse_or_zero (lookup key d)

-- `applyLocked`
apply_op : Op → Str → Str → Dict Str → Dict Str × Returned
apply_op set key value d = (insert key value d, none)
apply_op delete key value d = (erase key d, none)
apply_op incr key value d =
    let n = inc_int64 (current_int key d) in (insert key (format_int n) d, some n)
apply_op (other _) key value d = (d, none)

unfoldable pub apply_locked : Command → Dict Str → Dict Str × Returned
unfolding apply_op
apply_locked cmd d = apply_op cmd.op cmd.key cmd.value d

pub data Applied : Type 0 where
  done : Returned → Applied
  wal_error : Applied

abbrev is_incr : Op → Bool
is_incr incr = true
is_incr _ = false

-- `Apply`. An index of 0 is a use without Raft.
with_wal : Option (Wal × Bool) → ℕ → Dict Str × Returned → Store → Store × Applied
with_wal none index r s = (
  record s {
    content = r.0;
    applied_index = if ltb s.applied_index index then index else s.applied_index;
  },
  done r.1,
)
with_wal (some (w, true)) index r s = (
  record s {
    content = r.0;
    wal = some w;
    applied_index = if ltb s.applied_index index then index else s.applied_index;
  },
  done r.1,
)
with_wal (some (w, false)) index r s = (record s { content = r.0; wal = some w }, wal_error)

appended : Io → ℕ → Command → Option Wal → Option (Wal × Bool)
appended io index cmd none = none
appended io index cmd (some w) = some (wal_append io index cmd w)

unfoldable pub apply : Io → ℕ → Command → Store → Store × Applied
unfolding with_wal appended
apply io index cmd s =
    if not (index == 0) && leb index s.applied_index
    then (s, done (if is_incr cmd.op then some (current_int cmd.key s.content) else none))
    else with_wal (appended io index cmd s.wal) index (apply_locked cmd s.content) s

-- `NewStore`, and the operations of a store without Raft.
abbrev pub new_store : Store
new_store = record { content = []; wal = none; applied_index = 0 }

unfoldable pub store_set : Io → Str → Str → Store → Store × Applied
store_set io key value = apply io 0 (record { op = set; key = key; value = value })

unfoldable pub store_delete : Io → Str → Store → Store × Applied
store_delete io key = apply io 0 (record { op = delete; key = key; value = [] })

unfoldable pub store_incr : Io → Str → Store → Store × Applied
store_incr io key = apply io 0 (record { op = incr; key = key; value = [] })

-- `Get`
unfoldable pub get : Str → Store → Option Str
get key s = lookup key s.content

-- `Keys`
unfoldable pub with_prefix : Str → List Str → List Str
with_prefix prefix [] = []
with_prefix prefix (k ∷ ks) =
    let rest = with_prefix prefix ks in if starts_with k prefix then k ∷ rest else rest

unfoldable pub keys_with : Str → Store → List Str
unfolding with_prefix
keys_with prefix s = sort_strs (with_prefix prefix (keys s.content))

-- `Len`
unfoldable pub len : Store → ℕ
len s = length s.content

-- One record of the replay in `OpenStoreAt`.
unfoldable pub replay_record : ℕ → WalRecord → Dict Str × ℕ → Dict Str × ℕ
replay_record snap_index r (d, applied) =
    if not (r.index == 0) && leb r.index snap_index
    then (d, applied)
    else ((apply_locked r.command d).0, if ltb applied r.index then r.index else applied)

unfoldable pub replay : ℕ → List WalRecord → Dict Str × ℕ → Dict Str × ℕ
replay snap_index [] state = state
replay snap_index (r ∷ rs) state = replay snap_index rs (replay_record snap_index r state)

-- `OpenStoreAt`, with the snapshot's content decoded (none: the empty map).
unfoldable pub open_store_at : Journal WalRecord → ℕ → Dict Str → Store
open_store_at file snap_index content =
    let (d, applied) = replay snap_index (read file) (content, snap_index) in
    record {
      content = d;
      wal = some (record { file = file; stuck = false });
      applied_index = applied;
    }

-- `Compacted`
compacted_wal : Io → Option Wal → Option Wal × Bool
compacted_wal io none = (none, true)
compacted_wal io (some w) = let (w', ok) = wal_truncate io w in (some w', ok)

unfoldable pub compacted : Io → ℕ → Store → Store × Bool
unfolding compacted_wal
compacted io index s =
    if ltb index s.applied_index
    then (s, true)
    else let (w, ok) = compacted_wal io s.wal in (record s { wal = w }, ok)

-- `Restore` with the snapshot's content decoded.
unfoldable pub restore : Io → ℕ → Dict Str → Store → Store × Bool
unfolding compacted_wal
restore io index content s =
    let (w, ok) = compacted_wal io s.wal in
    (record { content = content; wal = w; applied_index = index }, ok)
