-- ===== src/Journal/Laws.antt =====
-- Reading back what was written.
use link_raft.Prelude.{ℕ, ◌≡◌, refl, ap, ◌∙◌, List, [], ◌∷◌, ◌++◌, take, append_assoc, append-nil}
use link_raft.Journal.{
  Journal, Piece, fragment, fine, torn, unended, spoiled, scan, read, render, write,
}

module _ {ℓ} {A : Type ℓ} where
  pub scan-render : (rs : List A) (ps : Journal A) → read (render rs ++ ps) ≡ rs ++ read ps
  unfolding scan render
  scan-render [] ps = refl
  scan-render (a ∷ rs) ps = ap (λ r. a ∷ r) (scan-render rs ps)

  scan-spoiled : (ps : Journal A) → scan spoiled ps ≡ []
  unfolding scan
  scan-spoiled [] = refl
  scan-spoiled (Piece.text a ∷ ps) = scan-spoiled ps
  scan-spoiled (Piece.newline ∷ ps) = refl
  scan-spoiled (fragment ∷ ps) = scan-spoiled ps

  pub read-render : (rs : List A) → read (render rs) ≡ rs
  unfolding scan
  read-render rs = rw (← append-nil (render rs)) (rw (scan-render rs []) (append-nil rs))

  pub render-append : (rs bs : List A) → render (rs ++ bs) ≡ render rs ++ render bs
  unfolding render
  render-append [] bs = refl
  render-append (a ∷ rs) bs = ap (λ r. Piece.text a ∷ Piece.newline ∷ r) (render-append rs bs)

  -- A write that succeeds adds its records to those that are read back.
  pub write_fine : (rs bs : List A) → write fine bs (render rs) ≡ render (rs ++ bs)
  unfolding write
  write_fine rs bs = rw render-append refl

  pub write_append : (bs : List A) (file : Journal A) → write fine bs file ≡ file ++ render bs
  unfolding write
  write_append bs file = refl

  -- What a write cut short leaves is read rs the whole records that it wrote, whatever is
  -- appended behind it.
  pub read-torn :
      (rs : List A) (k : ℕ) (bs : List A) (ps : Journal A)
      → read (write (torn k) bs (render rs) ++ ps) ≡ rs ++ take k bs
  unfolding write scan
  read-torn rs k bs ps =
      rw (append_assoc (render rs), scan-render rs)
        (rw (append_assoc (render (take k bs)), scan-render (take k bs), scan-spoiled)
          (ap (λ r. rs ++ r) (append-nil (take k bs))))

  -- A write cut short within its first record is read as if it had not been.
  pub read-torn_crash : (rs bs : List A) → read (write (torn 0) bs (render rs)) ≡ rs
  read-torn_crash rs bs =
      rw (← append-nil (write (torn 0) bs (render rs))) (read-torn rs 0 bs [] ∙ append-nil rs)

  -- No later write adds to what is read behind it.
  pub read-torn_write :
      (rs bs cs : List A) → read (write fine cs (write (torn 0) bs (render rs))) ≡ rs
  read-torn_write rs bs cs =
      rw (write_append cs (write (torn 0) bs (render rs)))
        (read-torn rs 0 bs (render cs) ∙ append-nil rs)

  -- A record whose line end is missing is read as if the write had succeeded.
  pub read-unended :
      (rs : List A) (b : A) → read (write (unended 0) (b ∷ []) (render rs)) ≡ rs ++ b ∷ []
  unfolding write scan render
  read-unended rs b = scan-render rs (Piece.text b ∷ [])
