-- ===== src/Kvs/Store/Restarts.antt =====
-- internal/kvs/store.go and wal.go: runs of commands, and the starts after them.
use link_raft.Prelude.{
  tt, ℕ, ◌≤◌, ◌≡◌, refl, sym, subst, inl, inr, Str, true, false, Option, some, List, [], ◌∷◌, ◌++◌,
  All, ◌==◌, arith, Bool-cases,
}
use link_raft.Prelude.Int.{ℤ}
use link_raft.Prelude.Dict.{Dict}
use link_raft.Journal.{Io, render, scan}
use link_raft.Journal.Laws.{render-append}
use link_raft.Kvs.Store.Counters.{is_fresh}
use link_raft.Kvs.Store.{Command, WalRecord, Wal, Store, done, apply, replay, open_store_at}
use link_raft.Kvs.Store.Replay.{
  IsRecoverable, open_store_at-IsRecoverable, apply-IsRecoverable, apply-done, apply-stale,
  is_covered, replay-covered,
}

-- Commands that Raft has numbered, one after the other, each reported as done.
pub data Runs (s : Store) : Store → Type 0 where
  rests : Runs s s
  applies :
      {t : Store}
      → Runs s t
      → (io : Io) (index : ℕ) (cmd : Command) (r : Option ℤ) → (index == 0) ≡ false
      → (apply io index cmd t).1 ≡ done r
      → Runs s (apply io index cmd t).0

-- The file holds whole records, all of which are numbered and applied.
record IsCovered (s : Store) : Type 0 where
  log : Wal
  attached : s.wal ≡ some log
  clear : log.stuck ≡ false
  records : List WalRecord
  written : log.file ≡ render records
  covered : All (λ r. is_covered s.applied_index r ≡ true) records

covered-append :
    (m n index : ℕ) (cmd : Command) (rs : List WalRecord)
    → m ≤ n
    → index ≤ n
    → (index == 0) ≡ false
    → All (λ r. is_covered m r ≡ true) rs
    → All (λ r. is_covered n r ≡ true) (rs ++ record { index = index; command = cmd } ∷ [])
covered-append m n index cmd [] le at numbered h = (ground arith, tt)
covered-append m n index cmd (r ∷ rs) le at numbered (h, hs) =
    (ground arith, covered-append m n index cmd rs le at numbered hs)

apply-IsCovered :
    (io : Io) (index : ℕ) (cmd : Command) (s : Store) (r : Option ℤ)
    → (index == 0) ≡ false
    → (apply io index cmd s).1 ≡ done r
    → IsCovered s
    → IsCovered (apply io index cmd s).0
apply-IsCovered io index cmd s r numbered ok h = elim (Bool-cases (is_fresh index s)) [
  | inl fresh ↦
      let w : WalRecord = record { index = index; command = cmd } in
      subst IsCovered (sym (apply-done io index cmd s h.log r h.attached h.clear fresh ok))
        (record {
          log = record h.log { file = h.log.file ++ render (w ∷ []) };
          attached = refl;
          clear = h.clear;
          records = h.records ++ w ∷ [];
          written = rw (h.written) (sym (render-append h.records (w ∷ [])));
          covered =
              covered-append s.applied_index _ index cmd h.records (ground arith) (ground arith)
                numbered h.covered;
        })
  | inr stale ↦ subst IsCovered (sym (apply-stale io index cmd s stale)) h
]

apply-grows :
    (io : Io) (index : ℕ) (cmd : Command) (s : Store) (r : Option ℤ)
    → IsCovered s
    → (apply io index cmd s).1 ≡ done r
    → s.applied_index ≤ (apply io index cmd s).0.applied_index
apply-grows io index cmd s r h ok = elim (Bool-cases (is_fresh index s)) [
  | inl fresh ↦ rw (apply-done io index cmd s h.log r h.attached h.clear fresh ok) (ground arith)
  | inr stale ↦ rw (apply-stale io index cmd s stale) (omega arith)
]

Runs-IsCovered : {s t : Store} → Runs s t → IsCovered s → IsCovered t
Runs-IsCovered rests h = h
Runs-IsCovered (applies {t} run io index cmd r numbered ok) h =
    apply-IsCovered io index cmd t r numbered ok (Runs-IsCovered run h)

Runs-grows : {s t : Store} → Runs s t → IsCovered s → s.applied_index ≤ t.applied_index
Runs-grows rests h = omega arith
Runs-grows (applies {t} run io index cmd r numbered ok) h =
    let before = Runs-grows run h in
    let step = apply-grows io index cmd t r (Runs-IsCovered run h) ok in omega (arith, before, step)

Runs-IsRecoverable :
    (n : ℕ) (base : Dict Str) {s t : Store}
    → Runs s t
    → n ≤ s.applied_index
    → IsCovered s
    → IsRecoverable n base s
    → IsRecoverable n base t
Runs-IsRecoverable n base rests le c h = h
Runs-IsRecoverable n base {s} (applies {t} run io index cmd r numbered ok) le c h =
    let grown = Runs-grows run c in
    apply-IsRecoverable io index cmd n base t r (omega (arith, le, grown))
      (Runs-IsRecoverable n base run le c h) ok

-- The state itself as the snapshot: what the file holds is skipped.
IsCovered-IsRecoverable : (s : Store) → IsCovered s → IsRecoverable s.applied_index s.content s
IsCovered-IsRecoverable s h = record {
  log = h.log;
  attached = h.attached;
  clear = h.clear;
  records = h.records;
  written = h.written;
  replayed = replay-covered s.applied_index h.records (s.content, s.applied_index) h.covered;
}

reopened :
    (n : ℕ) (base : Dict Str) (s : Store) (w : Wal)
    → IsRecoverable n base s
    → s.wal ≡ some w
    → open_store_at w.file n base ≡ s
reopened n base s w r attached =
    let same : r.log ≡ w = cc (r.attached, attached) in
    subst (λ (x : Wal). open_store_at x.file n base ≡ s) same
      (open_store_at-IsRecoverable n base s r)

started-IsCovered : (n : ℕ) (base : Dict Str) → IsCovered (open_store_at [] n base)
unfolding open_store_at replay render
started-IsCovered n base = record {
  log = record { file = []; stuck = false };
  attached = refl;
  clear = refl;
  records = [];
  written = refl;
  covered = tt;
}

started-IsRecoverable : (n : ℕ) (base : Dict Str) → IsRecoverable n base (open_store_at [] n base)
unfolding open_store_at replay render scan
started-IsRecoverable n base = record {
  log = record { file = []; stuck = false };
  attached = refl;
  clear = refl;
  records = [];
  written = refl;
  replayed = refl;
}

started-index : (n : ℕ) (base : Dict Str) → (open_store_at [] n base).applied_index ≡ n
unfolding open_store_at replay scan
started-index n base = refl

-- From a start with a snapshot and an empty write-ahead log, some commands lead to a store `s` and more
-- commands to a store `t`, all numbered by Raft and reported as done. A start from the file of `t`
-- gives `t` back, with the old snapshot; and also with a snapshot of `s`, after which the file was not
-- truncated: the records that the snapshot covers are skipped, and the others replayed.
pub open_store_at-Runs :
    (n : ℕ) (base : Dict Str) (s t : Store) (w : Wal)
    → Runs (open_store_at [] n base) s
    → Runs s t
    → t.wal ≡ some w
    → (open_store_at w.file n base ≡ t) × (open_store_at w.file s.applied_index s.content ≡ t)
open_store_at-Runs n base s t w run more attached =
    let at_s = Runs-IsCovered run (started-IsCovered n base) in
    let start : n ≤ (open_store_at [] n base).applied_index =
      rw (started-index n base) (omega arith) in
    let grown = Runs-grows run (started-IsCovered n base) in
    let r =
      Runs-IsRecoverable n base run start (started-IsCovered n base)
        (started-IsRecoverable n base) in
    (
      reopened n base t w (Runs-IsRecoverable n base more (omega (arith, start, grown)) at_s r)
          attached,
      reopened s.applied_index s.content t w
          (Runs-IsRecoverable s.applied_index s.content more (omega arith) at_s
            (IsCovered-IsRecoverable s at_s))
          attached,
    )
