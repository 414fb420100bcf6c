-- ===== src/Imap/Sync/Loops.antt =====
-- What each loop of a sync does to the row of one UID, with a server that answers.

use mailclient.Base.{
  ℕ, ◌≡◌, refl, sym, ap, ◌∙◌, Bool, true, false, not, ◌&&◌, Option, none, List, [], ◌∷◌, leb, ◌==◌,
  if◌then◌else◌, arith, Bool-cases, inl, inr, ==_iff,
}
use mailclient.Base.Order.{contains}
use mailclient.Base.Results.{Result, ok}
use mailclient.Errors.{StoreError}
use mailclient.Imap.Action.{Local, Sync, ◌>>=◌, ask, reads, writes, when}
use mailclient.Imap.Action.Leads.{
  Leads, ends, >>=-Leads, reading-Leads, asking-Leads, reads-Leads, writes-Leads, when-Leads,
}
use mailclient.Imap.Cache.{Row, lookup}
use mailclient.Imap.Cache.Lookup.{lookup-delete_many, lookup-delete}
use mailclient.Imap.Sync.{delete_each, expunge}
use mailclient.Imap.Sync.Chunks.{in_chunks}

module _ {Content : Type 0} (u : ℕ) where
  -- The step ends well, and takes the row of `u` from `x` to `y`.
  abbrev pub Turns :
      {A : Type 0} → Option (Row Content) → Option (Row Content) → Sync Content A → Type 0
  Turns x y m =
      (l : Local Content) → lookup u l.rows ≡ x → Leads m l (λ _ l'. lookup u l'.rows ≡ y) (λ _. ⊥)

  pub >>=-Turns :
      {A B : Type 0} {x y z : Option (Row Content)} {m : Sync Content A} {k : A → Sync Content B}
      → Turns x y m
      → ((a : A) → Turns y z (k a))
      → Turns x z (m >>= k)
  >>=-Turns {y = y} first next l e =
      >>=-Leads (λ _ l'. lookup u l'.rows ≡ y) (first l e) (λ a. next a)

  pub ask-Turns :
      {A B : Type 0} {x y : Option (Row Content)} {r : Result StoreError A} {a : A}
      (k : A → Sync Content B)
      → r ≡ ok a
      → Turns x y (k a)
      → Turns x y (ask r >>= k)
  ask-Turns k e next l h = asking-Leads k e (next l h)

  pub reads-Turns :
      {A : Type 0} {x : Option (Row Content)} (h : Local Content → A) → Turns x x (reads h)
  reads-Turns h l e = reads-Leads h e

  -- What is read may depend on the row of `u`.
  pub reading-Turns :
      {A B : Type 0} {x y : Option (Row Content)} (h : Local Content → A) (k : A → Sync Content B)
      → ((l : Local Content) → lookup u l.rows ≡ x → Turns x y (k (h l)))
      → Turns x y (reads h >>= k)
  reading-Turns h k next l e = reading-Leads h k (next l e l e)

  pub writes-Turns :
      {x : Option (Row Content)} (h : List (Row Content) → List (Row Content))
      (f : Option (Row Content) → Option (Row Content))
      → ((rows : List (Row Content)) → lookup u (h rows) ≡ f (lookup u rows))
      → Turns x (f x) (writes h)
  writes-Turns h f law l e = writes-Leads h (law l.rows ∙ ap f e)

  pub when-Turns :
      {x y : Option (Row Content)} (test : Bool) {m : Sync Content (Unit {0})}
      → Turns x y m
      → Turns x (if test then y else x) (when test m)
  when-Turns {x = x} {y = y} true run l e = when-Leads true (λ _. run l e) (λ f. cc)
  when-Turns false run l e = when-Leads false (λ f. cc) (λ _. e)

  pub pure-Turns :
      {A : Type 0} {a : A} {x : Option (Row Content)} → Turns x x (λ (l : Local Content). (l, ok a))
  pure-Turns {a = a} l e = ends a refl e

  pub Turns-to :
      {A : Type 0} {x y z : Option (Row Content)} {m : Sync Content A}
      → y ≡ z
      → Turns x y m
      → Turns x z m
  Turns-to e turns l h = rw (sym e) (turns l h)

  pub delete_each-Turns :
      (x : Option (Row Content)) (uids : List (List ℕ))
      → Turns x (if in_chunks u uids then none else x) (delete_each uids)
  unfolding delete_each
  delete_each-Turns x [] = pure-Turns
  delete_each-Turns x (chunk ∷ rest) =
      let del : Option (Row Content) → Option (Row Content) =
        λ y. (if contains u chunk then none else y) in
      >>=-Turns (reads-Turns _) λ _.
        >>=-Turns (writes-Turns _ del (lookup-delete_many u chunk)) λ _.
          >>=-Turns (Turns-to (ground arith) (delete_each-Turns (del x) rest)) λ _. reads-Turns _

  pub expunge-Turns :
      (x : Option (Row Content)) (lo : ℕ) (server_uids local_uids : List ℕ)
      → Turns x
          (if contains u local_uids && (leb lo u && not (contains u server_uids)) then none else x)
          (expunge lo server_uids local_uids)
  unfolding expunge contains
  expunge-Turns x lo server_uids [] = pure-Turns
  expunge-Turns x lo server_uids (v ∷ uids) =
      let del : Option (Row Content) → Option (Row Content) = λ y. (if u == v then none else y) in
      let gone = leb lo v && not (contains v server_uids) in
      let same : (v == u) ≡ true → v ≡ u = (==_iff v u).0 in
      >>=-Turns (when-Turns gone (writes-Turns _ del (lookup-delete u v))) λ _.
        >>=-Turns
          (Turns-to
            (elim (Bool-cases (v == u)) [
              | inl hit ↦ rw (same hit) (ground arith)
              | inr miss ↦ ground arith
            ])
            (expunge-Turns (if gone then del x else x) lo server_uids uids))
          λ _. reads-Turns _
