-- ===== src/Content/Lines/Folding.antt =====
-- Lines that any writer has folded are unfolded to the lines that it had.
use mailclient.Base.{ℕ, ◌≡◌, refl, false, [], ◌∷◌, ◌++◌, ◌==◌}
use mailclient.Base.Text.{Text}
use mailclient.Content.Lines.{unfold_from, unfold_lines, blank_ahead}

-- The end of a line.
pub data Eol : Text → Type 0 where
  lf : Eol (b'\n' ∷ [])
  crlf : Eol (b'\r' ∷ b'\n' ∷ [])

pub data Blank : ℕ → Type 0 where
  space : Blank b' '
  tab : Blank b'\t'

-- The second text is the first one with a line end and a blank put in at any places; the lines of
-- the first end in a newline, those of the second in either way, and none but a folded one starts
-- with a blank. The first has no carriage returns.
pub data Folds : Text → Text → Type 0 where
  done : Folds [] []
  keeps :
      (c : ℕ) {s t : Text}
      → (c == b'\r') ≡ false
      → (c == b'\n') ≡ false
      → Folds s t
      → Folds (c ∷ s) (c ∷ t)
  ends :
      {eol s t : Text} → Eol eol → blank_ahead t ≡ false → Folds s t → Folds (b'\n' ∷ s) (eol ++ t)
  folds :
      {eol s t : Text} {blank : ℕ} → Eol eol → Blank blank → Folds s t → Folds s (eol ++ blank ∷ t)

-- However the lines are folded, at any places, before a space or a tab, with either line end,
-- unfolding gives back the lines. They have no carriage returns, and none but a folded one
-- starts with a blank.
pub unfold_lines-Folds : (s t : Text) → Folds s t → unfold_lines t ≡ s
unfolding unfold_lines unfold_from
unfold_lines-Folds s t done = refl
unfold_lines-Folds s t (keeps c {s = s'} {t = t'} no_cr no_lf h) =
    rw (no_cr, no_lf, unfold_lines-Folds s' t' h) refl
unfold_lines-Folds s t (ends {s = s'} {t = t'} lf no_blank h) =
    rw (no_blank, unfold_lines-Folds s' t' h) refl
unfold_lines-Folds s t (ends {s = s'} {t = t'} crlf no_blank h) =
    rw (no_blank, unfold_lines-Folds s' t' h) refl
unfold_lines-Folds s t (folds {t = t'} lf space h) = unfold_lines-Folds s t' h
unfold_lines-Folds s t (folds {t = t'} lf tab h) = unfold_lines-Folds s t' h
unfold_lines-Folds s t (folds {t = t'} crlf space h) = unfold_lines-Folds s t' h
unfold_lines-Folds s t (folds {t = t'} crlf tab h) = unfold_lines-Folds s t' h
