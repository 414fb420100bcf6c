-- ===== src/Imap/Paths/Again.antt =====
-- A normalized folder path is its own normal form.
use mailclient.Base.{
  ℕ, ◌≡◌, refl, sym, ap, ◌∙◌, Bool, false, List, [], ◌∷◌, ◌==◌, is_empty, map, Bool-cases, inl, inr,
}
use mailclient.Base.Results.{Result, ok, err}
use mailclient.Base.Text.{Text}
use mailclient.Base.Strings.{any, attach, trim, join}
use mailclient.Imap.Paths.{
  PathError, is_wildcard, is_control, split, any_text, join_levels, unified, normalize_folder_path,
}
use mailclient.Imap.Paths.Levels.{
  None, Levels, split-None, split-Free, trim-None, trim-Levels, trim-same, trimmed_same, join-there,
  any-join, replace-none, any-replace, replaced, split-join,
}

err_ok : {x : PathError} {p : Text} → err x ≡ ok p → ⊥
err_ok e = cc

ok_same : {p q : Text} → ◌≡◌ {A = Result PathError Text} (ok p) (ok q) → p ≡ q
ok_same e = cc

-- What a joined path tells of its levels.
join_levels-ok :
    (d : ℕ) (levels : List Text) (p : Text)
    → join_levels d levels ≡ ok p
    → (any_text is_empty levels ≡ false) × (join (d ∷ []) levels ≡ p)
unfolding join_levels
join_levels-ok d levels p e = elim (Bool-cases (any_text is_empty levels)) [
  | inl hole ↦ absurd (err_ok (rw (hole, join_levels) at e))
  | inr whole ↦ elim (Bool-cases (any_text (any is_control) levels)) [
    | inl bad ↦ absurd (err_ok (rw (whole, bad, join_levels) at e))
    | inr fine ↦ (whole, ok_same (rw (whole, fine, join_levels) at e))
  ]
]

unified_same :
    (d : ℕ) (s : Text) → ((d == b'/') ≡ false → any (λ c. c == b'/') s ≡ false) → unified d s ≡ s
unified_same d s h = elim (Bool-cases (d == b'/')) [
  | inl slash ↦ rw (slash) refl
  | inr other ↦ rw (other) (replace-none d s (h other))
]

normalize_joined :
    (d : ℕ) (levels : List Text) (p : Text)
    → is_empty levels ≡ false
    → is_wildcard d ≡ false
    → Levels levels
    → None (λ c. c == d) levels
    → None is_wildcard levels
    → ((d == b'/') ≡ false → None (λ c. c == b'/') levels)
    → join_levels d levels ≡ ok p
    → normalize_folder_path (join (d ∷ []) levels) d ≡ ok p
unfolding normalize_folder_path
normalize_joined d [] p there plain whole free tame slashes e = cc
normalize_joined d (s ∷ ss) p there plain whole free tame slashes e =
    let path = join (d ∷ []) (s ∷ ss) in
    let (path_there, flush, tight) = join-there d s ss whole in
    let same : unified d path ≡ path =
      unified_same d path (λ other. any-join (λ c. c == b'/') d (s ∷ ss) other (slashes other)) in
    rw
      (
        normalize_folder_path,
        trimmed_same path flush tight,
        path_there,
        any-join is_wildcard d (s ∷ ss) plain tame,
        same,
        split-join d s ss free,
      )
      (ap (join_levels d) (trim-same (s ∷ ss) whole) ∙ e)

attach-there : (c : ℕ) (ss : List Text) → is_empty (map trim (attach c ss)) ≡ false
unfolding attach
attach-there c [] = refl
attach-there c (s ∷ ss) = refl

split-there : (d : ℕ) (s : Text) → is_empty (map trim (split d s)) ≡ false
unfolding split attach
split-there d [] = refl
split-there d (c ∷ cs) = elim (Bool-cases (c == d)) [
  | inl here ↦ rw (here) refl
  | inr other ↦ rw (other) (attach-there c (split d cs))
]

-- What a path that is accepted comes from.
accepted :
    (input : Text) (d : ℕ) (p : Text)
    → normalize_folder_path input d ≡ ok p
    → (any is_wildcard (trim input) ≡ false)
      × (join_levels d (map trim (split d (unified d (trim input)))) ≡ ok p)
unfolding normalize_folder_path
accepted input d p e = elim (Bool-cases (is_empty (trim input))) [
  | inl blank ↦ absurd (err_ok (rw (blank, normalize_folder_path) at e))
  | inr there ↦ elim (Bool-cases (any is_wildcard (trim input))) [
    | inl wild ↦ absurd (err_ok (rw (there, wild, normalize_folder_path) at e))
    | inr tame ↦ (tame, rw (there, tame, normalize_folder_path) at e)
  ]
]

any-unified :
    (test : ℕ → Bool) (d : ℕ) (s : Text)
    → test d ≡ false
    → any test s ≡ false
    → any test (unified d s) ≡ false
any-unified test d s h h' = elim (Bool-cases (d == b'/')) [
  | inl slash ↦ rw (slash) h'
  | inr other ↦ rw (other) (any-replace test d s h h')
]

-- A path that was accepted is accepted as it is, and gives itself: with a delimiter that is no
-- wildcard, normalizing again changes nothing.
pub normalize_folder_path-again :
    (input : Text) (d : ℕ) (p : Text)
    → is_wildcard d ≡ false
    → normalize_folder_path input d ≡ ok p
    → normalize_folder_path p d ≡ ok p
normalize_folder_path-again input d p plain e =
    let (tame, joined) = accepted input d p e in
    let parts = split d (unified d (trim input)) in
    let (whole, path) = join_levels-ok d (map trim parts) p joined in
    ap (λ s. normalize_folder_path s d) (sym path)
    ∙ normalize_joined d (map trim parts) p (split-there d (unified d (trim input))) plain
        (trim-Levels parts whole)
        (trim-None (λ c. c == d) parts (split-Free d (unified d (trim input))))
        (trim-None is_wildcard parts (
          split-None is_wildcard d (unified d (trim input))
            (any-unified is_wildcard d (trim input) plain tame)))
        (λ other.
          trim-None (λ c. c == b'/') parts
            (split-None (λ c. c == b'/') d (unified d (trim input))
              (rw (other) (replaced d (trim input) other))))
        joined
