-- ===== src/Journal.antt =====
-- Append-only files of JSON lines: the raft log (internal/raft/log.go) and the write-ahead log
-- (internal/kvs/wal.go), both written record by record and read back by a bufio.Scanner, whose limit of
-- 16 MiB for a line is left out.
pub mod Laws
use link_raft.Prelude.{ℕ, Bool, true, false, List, [], ◌∷◌, ◌++◌, take, drop}

-- The content of a file: the JSON text of a record, a line end, or a proper part of a record's
-- text, which is left where a write was cut short and which no JSON reader accepts.
pub data Piece {ℓ} (A : Type ℓ) : Type ℓ where
  text : A → Piece A
  newline : Piece A
  fragment : Piece A

abbrev pub Journal {ℓ} : Type ℓ → Type ℓ
Journal A = List (Piece A)

-- The outcome of one sequence of file operations: all is well; the write stops after some whole
-- records, within the text of the next one or just before its line end; or the data is in place and a later step (sync, reopen) reports an error.
pub data Io : Type 0 where
  fine : Io
  torn : ℕ → Io
  unended : ℕ → Io
  late : Io

-- Whether the write reported no error.
abbrev pub is_fine : Io → Bool
is_fine fine = true
is_fine _ = false

-- What the scanner has read of the line that it is in.
pub data Line {ℓ} (A : Type ℓ) : Type ℓ where
  blank : Line A
  whole : A → Line A
  spoiled : Line A

module _ {ℓ} {A : Type ℓ} where
  extend : Line A → Piece A → Line A
  extend blank (text a) = whole a
  extend _ _ = spoiled

  -- The records of a file: blank lines are skipped, and the reading ends at the first line that
  -- is not JSON. A last line needs no line end.
  unfoldable pub scan : Line A → Journal A → List A
  unfolding extend
  scan blank [] = []
  scan (whole a) [] = a ∷ []
  scan spoiled [] = []
  scan blank (newline ∷ ps) = scan blank ps
  scan (whole a) (newline ∷ ps) = a ∷ scan blank ps
  scan spoiled (newline ∷ ps) = []
  scan l (text a ∷ ps) = scan (extend l (text a)) ps
  scan l (fragment ∷ ps) = scan spoiled ps

  abbrev pub read : Journal A → List A
  read = scan blank

  -- The bytes of whole records, each with its line end.
  unfoldable pub render : List A → Journal A
  render [] = []
  render (a ∷ rs) = text a ∷ newline ∷ render rs

  -- The text of the first record, without its line end.
  abbrev pub head_text : List A → Journal A
  head_text [] = []
  head_text (a ∷ rs) = text a ∷ []

  -- One write of records at the end of the file.
  unfoldable pub write : Io → List A → Journal A → Journal A
  unfolding render
  write fine rs file = file ++ render rs
  write (torn k) rs file = file ++ (render (take k rs) ++ fragment ∷ [])
  write (unended k) rs file = file ++ (render (take k rs) ++ head_text (drop k rs))
  write late rs file = file ++ render rs
