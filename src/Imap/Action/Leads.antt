-- ===== src/Imap/Action/Leads.antt =====
-- Where a step of a sync leads, by its result.
use mailclient.Base.{◌≡◌, refl, sym, ◌∙◌, Bool, true, false, List}
use mailclient.Base.Results.{Result, ok, err}
use mailclient.Errors.{StoreError}
use mailclient.Imap.Action.{Local, Sync, ◌>>=◌, ask, reads, writes, when}
use mailclient.Imap.Cache.{Row}

ok-err : {E A : Type 0} {a : A} {e : E} → ok a ≡ err e → ⊥
ok-err p = cc

-- From `l` the step `m` ends well in a state that is `good` for its value, or fails in a `bad` one.
pub data Leads {Content A : Type 0} (m : Sync Content A) (l : Local Content)
    (good : A → Local Content → Type 0) (bad : Local Content → Type 0) : Type 0 where
  ends : (a : A) → (m l).1 ≡ ok a → good a (m l).0 → Leads m l good bad
  fails : (e : StoreError) → (m l).1 ≡ err e → bad (m l).0 → Leads m l good bad

module _ {Content B : Type 0} {good : B → Local Content → Type 0}
    {bad : Local Content → Type 0} where
  pub >>=-Leads :
      {A : Type 0} {m : Sync Content A} {k : A → Sync Content B} {l : Local Content}
      (mid : A → Local Content → Type 0)
      → Leads m l mid bad
      → ((a : A) (l' : Local Content) → mid a l' → Leads (k a) l' good bad)
      → Leads (m >>= k) l good bad
  unfolding ◌>>=◌
  >>=-Leads {m = m} {l = l} mid (ends a e fits) next = elim (next a (m l).0 fits) [
    | ends b e' good' ↦ ends b (rw (e, ◌>>=◌) e') (rw (e, ◌>>=◌) good')
    | fails x e' bad' ↦ fails x (rw (e, ◌>>=◌) e') (rw (e, ◌>>=◌) bad')
  ]
  >>=-Leads mid (fails x e failed) next = fails x (rw (e, ◌>>=◌) refl) (rw (e, ◌>>=◌) failed)

  pub reading-Leads :
      {A : Type 0} (f : Local Content → A) (k : A → Sync Content B) {l : Local Content}
      → Leads (k (f l)) l good bad
      → Leads (reads f >>= k) l good bad
  unfolding ◌>>=◌ reads
  reading-Leads f k (ends b e h) = ends b e h
  reading-Leads f k (fails x e h) = fails x e h

  pub asking-Leads :
      {A : Type 0} {r : Result StoreError A} {a : A} (k : A → Sync Content B) {l : Local Content}
      → r ≡ ok a
      → Leads (k a) l good bad
      → Leads (ask r >>= k) l good bad
  unfolding ◌>>=◌ ask
  asking-Leads k e (ends b e' h) = ends b (rw (e) e') (rw (e) h)
  asking-Leads k e (fails x e' h) = fails x (rw (e) e') (rw (e) h)

  pub asked-Leads :
      (r : Result StoreError B) (l : Local Content)
      → ((b : B) → r ≡ ok b → good b l)
      → bad l
      → Leads (ask r) l good bad
  unfolding ask
  asked-Leads (ok b) l h failed = ends b refl (h b refl)
  asked-Leads (err e) l h failed = fails e refl failed

  pub reads-Leads :
      (f : Local Content → B) {l : Local Content} → good (f l) l → Leads (reads f) l good bad
  unfolding reads
  reads-Leads f {l = l} h = ends (f l) refl h

module _ {Content : Type 0} {good : Unit {0} → Local Content → Type 0}
    {bad : Local Content → Type 0} where
  pub writes-Leads :
      (f : List (Row Content) → List (Row Content)) {l : Local Content}
      → good tt (record l { rows = f l.rows })
      → Leads (writes f) l good bad
  unfolding writes
  writes-Leads f h = ends tt refl h

  pub when-Leads :
      (test : Bool) {m : Sync Content (Unit {0})} {l : Local Content}
      → (test ≡ true → Leads m l good bad)
      → (test ≡ false → good tt l)
      → Leads (when test m) l good bad
  unfolding when
  when-Leads true run skip = run refl
  when-Leads false run skip = ends tt refl (skip refl)

module _ {Content A : Type 0} {m : Sync Content A} {l : Local Content} where
  -- A step that cannot fail.
  pub never_fails :
      {good : A → Local Content → Type 0}
      → Leads m l good (λ _. ⊥)
      → (a : A) × ((m l).1 ≡ ok a) × good a (m l).0
  never_fails (ends a e h) = (a, e, h)
  never_fails (fails x e bad) = absurd bad

  -- A step that did not fail.
  pub did_well :
      {good : Local Content → Type 0} {bad : Local Content → Type 0} {a : A}
      → (m l).1 ≡ ok a
      → Leads m l (λ _ l'. good l') bad
      → good (m l).0
  did_well e (ends b e' h) = h
  did_well e (fails x e' h) = absurd (ok-err (sym e ∙ e'))
