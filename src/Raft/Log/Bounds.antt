-- ===== src/Raft/Log/Bounds.antt =====
-- internal/raft/log.go: well-formed logs, and the entries and boundaries after each operation.
use link_raft.Prelude.{
  ℕ, zero, suc, ◌+◌, ◌-◌, ◌≤◌, ◌<◌, ◌≡◌, refl, ap, sym, ◌⊎◌, inl, inr, ◌∙◌, none, some, List, [],
  ◌∷◌, ◌++◌, ltb, leb, if◌then◌else◌, length, take, drop, take-all, drop-all, get_elem?, u64_mod,
  arith, append-nil, get_elem?-none, get_elem?-some, get_last?-get_elem?, Bool-cases, subst,
}
use link_raft.Journal.{Io}
use link_raft.Raft.Log.{
  Entry, Log, last_index, entry_at, term_at, append, above_snap, rewrite, truncate_from, compact_to,
}

-- The entries have the indexes n, n + 1, and so on.
abbrev pub Consecutive : ℕ → List Entry → Type 0
Consecutive n [] = Unit
Consecutive n (e ∷ es) = (e.index ≡ n) × Consecutive (n + 1) es

-- The invariant that the source states at the field `entries`, with room below 2^64 for one more.
pub record IsWellFormed (l : Log) : Type 0 where
  pub indexed : Consecutive (l.snap_index + 1) l.entries
  pub fits : l.snap_index + length l.entries + 1 < u64_mod

pub Consecutive-get_elem? :
    (n : ℕ) (es : List Entry) (i : ℕ) {e : Entry}
    → Consecutive n es
    → get_elem? es i ≡ some e
    → e.index ≡ n + i
Consecutive-get_elem? n [] i c h = cc
Consecutive-get_elem? n (x ∷ es) zero c h = ground arith
Consecutive-get_elem? n (x ∷ es) (suc i) {e} c h =
    omega (arith, Consecutive-get_elem? (n + 1) es i {e = e} c.1 h)

pub Consecutive-append :
    (n : ℕ) (es fs : List Entry)
    → Consecutive n es
    → Consecutive (n + length es) fs
    → Consecutive n (es ++ fs)
Consecutive-append n [] fs c d = subst (λ m. Consecutive m fs) (omega arith) d
Consecutive-append n (x ∷ es) fs c d =
    (c.0, Consecutive-append (n + 1) es fs c.1 (subst (λ m. Consecutive m fs) (omega arith) d))

pub Consecutive-take : (n k : ℕ) (es : List Entry) → Consecutive n es → Consecutive n (take k es)
Consecutive-take n zero es c = tt
Consecutive-take n (suc k) [] c = tt
Consecutive-take n (suc k) (x ∷ es) c = (c.0, Consecutive-take (n + 1) k es c.1)

pub Consecutive-drop :
    (n k : ℕ) (es : List Entry) → Consecutive n es → Consecutive (n + k) (drop k es)
Consecutive-drop n zero es c = subst (λ m. Consecutive m es) (omega arith) c
Consecutive-drop n (suc k) [] c = tt
Consecutive-drop n (suc k) (x ∷ es) c =
    subst (λ m. Consecutive m (drop k es)) (omega arith) (Consecutive-drop (n + 1) k es c.1)

last-eq :
    (l : Log) (es : List Entry)
    → l.entries ≡ es
    → Consecutive (l.snap_index + 1) es
    → last_index l ≡ l.snap_index + length es
unfolding last_index
last-eq l [] p c = rw p (omega arith)
last-eq l (x ∷ es) p c =
    let (e, found) = get_elem?-some (x ∷ es) (length es) (omega arith) in
    let place = Consecutive-get_elem? (l.snap_index + 1) (x ∷ es) (length es) {e = e} c found in
    rw (p, get_last?-get_elem? x es, found) (omega (arith, place))

-- The last index is the boundary plus the number of entries held.
pub last_index-eq : (l : Log) → IsWellFormed l → last_index l ≡ l.snap_index + length l.entries
last_index-eq l w = last-eq l l.entries refl w.indexed

module _ (l : Log) (w : IsWellFormed l) where
  -- On a well-formed log, an index above the boundary and at most the last index is held, and the
  -- entry found there carries that index.
  pub entry_at-some :
      (i : ℕ)
      → l.snap_index < i
      → i ≤ last_index l
      → (e : Entry) × (entry_at i l ≡ some e) × (e.index ≡ i)
  unfolding entry_at
  entry_at-some i lo hi =
      let n = last_index-eq l w in
      let (e, found) = get_elem?-some l.entries (i - l.snap_index - 1) (omega arith) in
      let place =
        Consecutive-get_elem? (l.snap_index + 1) l.entries (i - l.snap_index - 1) {e = e} w.indexed
          found in
      (e, ground (arith, found), omega (arith, place))

  pub entry_at-none : (i : ℕ) → (i ≤ l.snap_index) ⊎ (last_index l < i) → entry_at i l ≡ none
  unfolding entry_at
  entry_at-none i h = ground arith

  -- `entry_at` without its bound from above, which the list has by itself.
  pub entry_at-get_elem? :
      (i : ℕ)
      → entry_at i l
        ≡ (if ltb l.snap_index i then get_elem? l.entries (i - l.snap_index - 1) else none)
  unfolding entry_at
  entry_at-get_elem? i = ground (
    arith,
    last_index-eq l w,
    λ (h : length l.entries ≤ i - l.snap_index - 1).
        get_elem?-none l.entries (i - l.snap_index - 1) h,
  )

pub term_at-boundary : (l : Log) (i : ℕ) → l.snap_index ≡ i → term_at i l ≡ l.snap_term
unfolding term_at
term_at-boundary l i h = ground arith

pub term_at-entry_at :
    (l : Log) (i : ℕ) {e : Entry} → l.snap_index < i → entry_at i l ≡ some e → term_at i l ≡ e.term
unfolding term_at
term_at-entry_at l i lo found = ground (arith, found)

module _ (io : Io) (l : Log) where
  entries-rewrite : (rewrite io l).0.entries ≡ l.entries
  unfolding rewrite
  entries-rewrite = ground arith

  snap_index-rewrite : (rewrite io l).0.snap_index ≡ l.snap_index
  unfolding rewrite
  snap_index-rewrite = ground arith

  snap_term-rewrite : (rewrite io l).0.snap_term ≡ l.snap_term
  unfolding rewrite
  snap_term-rewrite = ground arith

ruleset rewrite_laws = (entries-rewrite, snap_index-rewrite, snap_term-rewrite)

module _ (io : Io) (l : Log) (w : IsWellFormed l) where
  -- `truncate_from` keeps the entries below the index, whatever becomes of the file.
  pub entries-truncate_from :
      (i : ℕ) → (truncate_from io i l).0.entries ≡ take (i - l.snap_index - 1) l.entries
  unfolding truncate_from
  entries-truncate_from i = elim (Bool-cases (ltb (last_index l) (above_snap i l))) [
    | inl past ↦ rw past (
        sym (take-all (i - l.snap_index - 1) l.entries (ground (arith, last_index-eq l w, w.fits))))
    | inr within ↦
        rw within (entries-rewrite io _ ∙ ap (λ k. take k l.entries) (ground (arith, w.fits)))
  ]

  pub snap_index-truncate_from : (i : ℕ) → (truncate_from io i l).0.snap_index ≡ l.snap_index
  unfolding truncate_from
  snap_index-truncate_from i = elim (Bool-cases (ltb (last_index l) (above_snap i l))) [
    | inl past ↦ rw past
    | inr within ↦ rw within (snap_index-rewrite io _)
  ]

  -- `compact_to` drops the entries up to the index and moves the boundary there.
  pub entries-compact_to :
      (i term : ℕ) → (compact_to io i term l).0.entries ≡ drop (i - l.snap_index) l.entries
  unfolding compact_to
  entries-compact_to i term = elim (Bool-cases (leb i l.snap_index)) [
    | inl old ↦ rw old (ap (λ k. drop k l.entries) {x = 0} (ground arith))
    | inr new ↦ rw new (
        entries-rewrite io _
        ∙ ground (arith, last_index-eq l w, drop-all (i - l.snap_index) l.entries))
  ]

  pub snap_index-compact_to :
      (i term : ℕ)
      → (compact_to io i term l).0.snap_index ≡ (if leb i l.snap_index then l.snap_index else i)
  unfolding compact_to
  snap_index-compact_to i term = elim (Bool-cases (leb i l.snap_index)) [
    | inl old ↦ rw old
    | inr new ↦ rw new (snap_index-rewrite io _)
  ]

  pub snap_term-compact_to :
      (i term : ℕ)
      → (compact_to io i term l).0.snap_term ≡ (if leb i l.snap_index then l.snap_term else term)
  unfolding compact_to
  snap_term-compact_to i term = elim (Bool-cases (leb i l.snap_index)) [
    | inl old ↦ rw old
    | inr new ↦ rw new (snap_term-rewrite io _)
  ]

module _ (l : Log) where
  pub snap_index-append : (io : Io) (es : List Entry) → (append io es l).0.snap_index ≡ l.snap_index
  unfolding append
  snap_index-append io [] = refl
  snap_index-append io (e ∷ es) = ground arith

  pub snap_term-append : (io : Io) (es : List Entry) → (append io es l).0.snap_term ≡ l.snap_term
  unfolding append
  snap_term-append io [] = refl
  snap_term-append io (e ∷ es) = ground arith

  -- Memory takes the new entries exactly if no error is reported.
  pub entries-append :
      (io : Io) (es : List Entry)
      → (append io es l).0.entries ≡ (if (append io es l).1 then l.entries ++ es else l.entries)
  unfolding append
  entries-append io [] = sym (append-nil l.entries)
  entries-append io (e ∷ es) = ground arith
