-- ===== src/Undo/Moves/Silent.antt =====
-- When a delete goes ahead without a question.
use mailclient.Base.{
  ◌≡◌, refl, Bool, true, false, Option, none, some, List, [], ◌∷◌, is_empty, All, or_left, or_right,
}
use mailclient.Undo.Moves.{any_destroys, delete_prompt}

none_destroys : (ps : List (Option Bool)) → any_destroys ps ≡ false → All (λ p. p ≡ some false) ps
unfolding any_destroys
none_destroys [] h = tt
none_destroys (none ∷ ps) h = cc
none_destroys (some true ∷ ps) h = cc
none_destroys (some false ∷ ps) h = (refl, none_destroys ps h)

-- A delete goes ahead without a question only for known folders, from each of which it can be
-- undone, and neither in bulk nor when the user wants to be asked.
pub silent_delete_undoable :
    (confirm_pref bulk : Bool) (permanent : List (Option Bool))
    → (delete_prompt confirm_pref bulk permanent).ask ≡ false
    → (is_empty permanent ≡ false)
      × All (λ p. p ≡ some false) permanent
      × (bulk ≡ false)
      × (confirm_pref ≡ false)
unfolding delete_prompt
silent_delete_undoable confirm_pref bulk permanent h =
    let lost = or_left _ _ h in
    let asked = or_right _ _ h in
    (
      or_left _ _ lost,
      none_destroys permanent (or_right _ _ lost),
      or_left _ _ asked,
      or_right _ _ asked,
    )
