-- ===== src/Raft/Log.antt =====
-- internal/raft/log.go: the replicated log, its file, and its compaction boundary.
pub mod Bounds
pub mod Invariant
pub mod Lookup
pub mod Recovery
pub mod Operations
pub mod Restarts
use link_raft.Prelude.{
  ℕ, ◌+◌, ◌-◌, Str, Bool, true, false, ◌||◌, Option, none, some, List, [], ◌∷◌, ◌++◌, ltb, leb,
  ◌==◌, if◌then◌else◌, take, drop, get_elem?, get_last?, select, inc64,
}
use link_raft.Journal.{Journal, Io, fine, torn, unended, late, read, render, write, is_fine}

abbrev pub entry_normal : ℕ
entry_normal = 0

abbrev pub entry_config : ℕ
entry_config = 1

pub record Entry : Type 0 where
  pub term : ℕ  -- uint64
  pub index : ℕ  -- uint64, from 1
  pub command : Str
  pub kind : ℕ  -- uint32, `Type` in the source

-- `file` and `is_open` are the file behind the handle `f`.
pub record Log : Type 0 where
  pub snap_index : ℕ
  pub snap_term : ℕ
  pub entries : List Entry
  pub file : Journal Entry
  pub is_open : Bool

index_or : ℕ → Option Entry → ℕ
index_or d none = d
index_or d (some e) = e.index

term_or : ℕ → Option Entry → ℕ
term_or d none = d
term_or d (some e) = e.term

unfoldable pub last_index : Log → ℕ
unfolding index_or
last_index l = index_or l.snap_index (get_last? l.entries)

unfoldable pub last_term : Log → ℕ
unfolding term_or
last_term l = term_or l.snap_term (get_last? l.entries)

-- `At`; the access to the slice is in range in a well-formed log (Log/Bounds).
unfoldable pub entry_at : ℕ → Log → Option Entry
entry_at index l =
    if leb index l.snap_index || ltb (last_index l) index
    then none
    else get_elem? l.entries (index - l.snap_index - 1)

unfoldable pub term_at : ℕ → Log → ℕ
unfolding term_or
term_at index l = if index == l.snap_index then l.snap_term else term_or 0 (entry_at index l)

-- The bound that `From` and `TruncateFrom` put below the index.
unfoldable pub above_snap : ℕ → Log → ℕ
above_snap index l = if leb index l.snap_index then inc64 l.snap_index else index

unfoldable pub entries_from : ℕ → Log → List Entry
unfolding above_snap
entries_from index l =
    let i = above_snap index l in
    if ltb (last_index l) i then [] else drop (i - l.snap_index - 1) l.entries

last_config : List Entry → Option Entry
last_config [] = none
last_config (e ∷ es) = elim (last_config es) [
  | some c ↦ some c
  | none ↦ if e.kind == entry_config then some e else none
]

unfoldable pub latest_config : Log → Option Entry
unfolding last_config
latest_config l = last_config l.entries

-- `rewrite`: the entries in memory replace the file. The old handle is closed first, and a failure
-- on the way leaves the log without one.
unfoldable pub rewrite : Io → Log → Log × Bool
rewrite fine l = if l.is_open then (record l { file = render l.entries }, true) else (l, false)
rewrite (torn _) l = (record l { is_open = false }, false)
rewrite (unended _) l = (record l { is_open = false }, false)
rewrite late l =
    if l.is_open then (record l { file = render l.entries; is_open = false }, false) else (l, false)

-- `Append`. The Boolean says that no error was returned.
unfoldable pub append : Io → List Entry → Log → Log × Bool
append io [] l = (l, true)
append io (e ∷ es) l =
    if l.is_open
    then (
      record l {
        entries = if is_fine io then l.entries ++ e ∷ es else l.entries;
        file = write io (e ∷ es) l.file;
      },
      is_fine io,
    )
    else (l, false)

unfoldable pub truncate_from : Io → ℕ → Log → Log × Bool
unfolding above_snap rewrite
truncate_from io index l =
    let i = above_snap index l in
    if ltb (last_index l) i
    then (l, true)
    else rewrite io (record l { entries = take (i - l.snap_index - 1) l.entries })

unfoldable pub compact_to : Io → ℕ → ℕ → Log → Log × Bool
unfolding rewrite
compact_to io index term l =
    if leb index l.snap_index
    then (l, true)
    else rewrite io (record l {
      entries = if leb (last_index l) index then [] else drop (index - l.snap_index) l.entries;
      snap_index = index;
      snap_term = term;
    })

-- What the scan of `OpenLog` keeps: entries above the snapshot boundary.
abbrev pub is_above : ℕ → Entry → Bool
is_above snap_index e = ltb snap_index e.index

-- `OpenLog` on the content of the file, which is empty where the file does not exist. The file is
-- then opened for appending as it stands.
unfoldable pub open_log : Journal Entry → ℕ → ℕ → Log
open_log file snap_index snap_term = record {
  snap_index = snap_index;
  snap_term = snap_term;
  entries = select (is_above snap_index) (read file);
  file = file;
  is_open = true;
}
