-- ===== src/Kvs/Store/Replay.antt =====
-- internal/kvs/store.go and wal.go: the write-ahead log, and the start from it after a crash.
use link_raft.Prelude.{
  ℕ, ◌≤◌, ◌≡◌, refl, sym, ap, inl, inr, Str, Bool, true, false, not, ◌&&◌, ◌||◌, Option, some, List,
  [], ◌∷◌, ◌++◌, All, ltb, leb, ◌==◌, if◌then◌else◌, arith, Bool-cases, subst,
}
use link_raft.Prelude.Int.{ℤ}
use link_raft.Prelude.Dict.{Dict}
use link_raft.Journal.{Io, fine, torn, unended, late, read, render, write}
use link_raft.Journal.Laws.{read-render, render-append, read-torn_crash, read-unended}
use link_raft.Kvs.Store.Counters.{is_fresh}
use link_raft.Kvs.Store.{
  Command, WalRecord, Wal, Store, apply_locked, done, with_wal, appended, compacted_wal, wal_error,
  Applied, wal_append, wal_truncate, apply, replay_record, replay, open_store_at, restore,
}

replay-append :
    (n : ℕ) (rs qs : List WalRecord) (st : Dict Str × ℕ)
    → replay n (rs ++ qs) st ≡ replay n qs (replay n rs st)
unfolding replay
replay-append n [] qs st = refl
replay-append n (r ∷ rs) qs st = replay-append n rs qs (replay_record n r st)

-- The store `s` is what a start from the snapshot (`n`, `base`) and its write-ahead log gives.
pub record IsRecoverable (n : ℕ) (base : Dict Str) (s : Store) : Type 0 where
  pub log : Wal
  pub attached : s.wal ≡ some log
  pub clear : log.stuck ≡ false
  pub records : List WalRecord
  pub written : log.file ≡ render records
  pub replayed : replay n records (base, n) ≡ (s.content, s.applied_index)

-- A start from the snapshot and the write-ahead log of a recoverable store gives back its
-- content, its applied index and its log.
pub open_store_at-IsRecoverable :
    (n : ℕ) (base : Dict Str) (s : Store)
    → (r : IsRecoverable n base s) → open_store_at r.log.file n base ≡ s
unfolding open_store_at
open_store_at-IsRecoverable n base s r =
    let same : read r.log.file ≡ r.records = rw (r.written) (read-render r.records) in
    rw (same, r.replayed) (cc (r.attached, r.clear))

replay_record-fresh :
    (n index applied : ℕ) (cmd : Command) (d : Dict Str)
    → n ≤ applied
    → (index == 0 || ltb applied index) ≡ true
    → replay_record n (record { index = index; command = cmd }) (d, applied)
      ≡ ((apply_locked cmd d).0, if ltb applied index then index else applied)
unfolding replay_record
replay_record-fresh n index applied cmd d le fresh = ground arith

-- The store and the file after a fresh command that `apply` reports as done.
pub apply-done :
    (io : Io) (index : ℕ) (cmd : Command) (s : Store) (log : Wal) (r : Option ℤ)
    → s.wal ≡ some log
    → log.stuck ≡ false
    → is_fresh index s ≡ true
    → (apply io index cmd s).1 ≡ done r
    → let w : WalRecord = record { index = index; command = cmd } in
      (apply io index cmd s).0 ≡ record {
        content = (apply_locked cmd s.content).0;
        wal = some (record log { file = log.file ++ render (w ∷ []) });
        applied_index = if ltb s.applied_index index then index else s.applied_index;
      }
unfolding apply with_wal appended wal_append write
apply-done fine index cmd s log r attached clear fresh ok = ground arith
apply-done (torn k) index cmd s log r attached clear fresh ok = ground arith
apply-done (unended k) index cmd s log r attached clear fresh ok = ground arith
apply-done late index cmd s log r attached clear fresh ok = ground arith

pub apply-stale :
    (io : Io) (index : ℕ) (cmd : Command) (s : Store)
    → is_fresh index s ≡ false
    → (apply io index cmd s).0 ≡ s
unfolding apply
apply-stale io index cmd s stale = ground arith

appended-IsRecoverable :
    (index : ℕ) (cmd : Command) (n : ℕ) (base : Dict Str) (s : Store)
    → n ≤ s.applied_index
    → is_fresh index s ≡ true
    → (r : IsRecoverable n base s)
    → let w : WalRecord = record { index = index; command = cmd } in
      IsRecoverable n base (record {
        content = (apply_locked cmd s.content).0;
        wal = some (record r.log { file = r.log.file ++ render (w ∷ []) });
        applied_index = if ltb s.applied_index index then index else s.applied_index;
      })
appended-IsRecoverable index cmd n base s le fresh r =
    let w : WalRecord = record { index = index; command = cmd } in
    record {
      log = record r.log { file = r.log.file ++ render (w ∷ []) };
      attached = refl;
      clear = r.clear;
      records = r.records ++ (w ∷ []);
      written = rw (r.written) (sym (render-append r.records (w ∷ [])));
      replayed =
          rw (replay-append n r.records (w ∷ []) (base, n), r.replayed)
            (unfold replay in replay_record-fresh n index s.applied_index cmd s.content le fresh);
    }

-- A store that is recoverable from a snapshot, not behind it, is recoverable after any command
-- that `apply` reports as done: the command is in the file.
pub apply-IsRecoverable :
    (io : Io) (index : ℕ) (cmd : Command) (n : ℕ) (base : Dict Str) (s : Store) (r : Option ℤ)
    → n ≤ s.applied_index
    → IsRecoverable n base s
    → (apply io index cmd s).1 ≡ done r
    → IsRecoverable n base (apply io index cmd s).0
apply-IsRecoverable io index cmd n base s r le h ok = elim (Bool-cases (is_fresh index s)) [
  | inl fresh ↦
      subst (IsRecoverable n base)
        (sym (apply-done io index cmd s h.log r h.attached h.clear fresh ok))
        (appended-IsRecoverable index cmd n base s le fresh h)
  | inr stale ↦ subst (IsRecoverable n base) (sym (apply-stale io index cmd s stale)) h
]

-- What a write that stops before its end leaves.
torn-wal :
    (k index : ℕ) (cmd : Command) (s : Store) (log w : Wal)
    → s.wal ≡ some log
    → log.stuck ≡ false
    → is_fresh index s ≡ true
    → (apply (torn k) index cmd s).0.wal ≡ some w
    → ((apply (torn k) index cmd s).1 ≡ wal_error)
      × (w.file ≡ write (torn 0) (record { index = index; command = cmd } ∷ []) log.file)
unfolding apply with_wal appended wal_append
torn-wal k index cmd s log w attached clear fresh after = ground arith

unended-wal :
    (k index : ℕ) (cmd : Command) (s : Store) (log w : Wal)
    → s.wal ≡ some log
    → log.stuck ≡ false
    → is_fresh index s ≡ true
    → (apply (unended k) index cmd s).0.wal ≡ some w
    → ((apply (unended k) index cmd s).1 ≡ wal_error)
      × (w.file ≡ write (unended 0) (record { index = index; command = cmd } ∷ []) log.file)
unfolding apply with_wal appended wal_append
unended-wal k index cmd s log w attached clear fresh after = ground arith

-- A failed append: `apply` has reported the error, and the start from the file gives this state.
abbrev pub Restarts : ℕ → Dict Str → Store × Applied → Wal → Dict Str → ℕ → Type 0
Restarts n base r w content applied =
    (r.1 ≡ wal_error)
    × ((open_store_at w.file n base).content ≡ content)
    × ((open_store_at w.file n base).applied_index ≡ applied)

-- If the write of a new command to the write-ahead log of a recoverable store stops before its end,
-- `apply` reports the error. Where it stops within the record's text, the start from that file has the
-- content and the applied index from before the command. Where it stops just before the line end,
-- the start has replayed the command all the same.
pub apply-cut_restart :
    (k index : ℕ) (cmd : Command) (n : ℕ) (base : Dict Str) (s : Store) (w w' : Wal)
    → n ≤ s.applied_index
    → IsRecoverable n base s
    → is_fresh index s ≡ true
    → (apply (torn k) index cmd s).0.wal ≡ some w
    → (apply (unended k) index cmd s).0.wal ≡ some w'
    → Restarts n base (apply (torn k) index cmd s) w s.content s.applied_index
      × Restarts n base
          (apply (unended k) index cmd s)
          w'
          (apply_locked cmd s.content).0
          (if ltb s.applied_index index then index else s.applied_index)
unfolding open_store_at
apply-cut_restart k index cmd n base s w w' le r fresh after after' =
    let e : WalRecord = record { index = index; command = cmd } in
    let (failed, left) = torn-wal k index cmd s r.log w r.attached r.clear fresh after in
    let (failed', left') = unended-wal k index cmd s r.log w' r.attached r.clear fresh after' in
    let same : read w.file ≡ r.records =
      rw (left, r.written) (read-torn_crash r.records (e ∷ [])) in
    let more : read w'.file ≡ r.records ++ e ∷ [] =
      rw (left', r.written) (read-unended r.records e) in
    let replayed = replay-append n r.records (e ∷ []) (base, n) in
    let step = replay_record-fresh n index s.applied_index cmd s.content le fresh in
    (
      (failed, rw (same, r.replayed) refl, rw (same, r.replayed) refl),
      (
        failed',
        rw (more, replayed, r.replayed) (unfold replay in rw step refl),
        rw (more, replayed, r.replayed) (unfold replay in rw step refl),
      ),
    )

-- Whether Raft has numbered the record, at or below `n`.
abbrev pub is_covered : ℕ → WalRecord → Bool
is_covered n r = not (r.index == 0) && leb r.index n

replay_record-covered :
    (n : ℕ) (r : WalRecord) (st : Dict Str × ℕ) → is_covered n r ≡ true → replay_record n r st ≡ st
unfolding replay_record
replay_record-covered n r st covered = ground arith

pub replay-covered :
    (n : ℕ) (rs : List WalRecord) (st : Dict Str × ℕ)
    → All (λ r. is_covered n r ≡ true) rs
    → replay n rs st ≡ st
unfolding replay
replay-covered n [] st covered = refl
replay-covered n (r ∷ rs) st (here, rest) =
    rw (replay_record-covered n r st here) (replay-covered n rs st rest)

-- A crash between the saving of a snapshot and the truncation of the write-ahead log: a start
-- from the snapshot and a file whose records the snapshot all covers gives the content and the
-- index of the snapshot.
pub open_store_at-covered :
    (n : ℕ) (content : Dict Str) (rs : List WalRecord)
    → All (λ r. is_covered n r ≡ true) rs
    → ((open_store_at (render rs) n content).content ≡ content)
      × ((open_store_at (render rs) n content).applied_index ≡ n)
unfolding open_store_at
open_store_at-covered n content rs covered =
    let same : replay n (read (render rs)) (content, n) ≡ (content, n) =
      rw (read-render rs) (replay-covered n rs (content, n) covered) in
    (rw same refl, rw same refl)

truncated :
    (io : Io) (w : Wal)
    → (wal_truncate io w).1 ≡ true
    → (wal_truncate io w).0 ≡ record { file = []; stuck = false }
unfolding wal_truncate
truncated io w ok = ground arith

-- A `restore` that reports no error, of a store with a write-ahead log, leaves a store that the
-- start from that snapshot gives back.
pub restore-IsRecoverable :
    (io : Io) (index : ℕ) (content : Dict Str) (s : Store) (w : Wal)
    → s.wal ≡ some w
    → (restore io index content s).1 ≡ true
    → IsRecoverable index content (restore io index content s).0
unfolding restore compacted_wal
restore-IsRecoverable io index content s w attached ok = record {
  log = record { file = []; stuck = false };
  attached =
      rw attached
        (ap some (truncated io w (subst (λ x. (compacted_wal io x).1 ≡ true) attached ok)));
  clear = refl;
  records = [];
  written = unfold render in refl;
  replayed = unfold replay in refl;
}
