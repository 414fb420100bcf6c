-- ===== src/Imap/Cache/Lookup.antt =====
-- What each statement does to the row of a UID.
use mathlib.Core.Option
use mailclient.Base.{
  ℕ, ◌≡◌, refl, Bool, true, false, not, ◌&&◌, Option, none, some, List, [], ◌∷◌, ◌++◌, ◌==◌,
  if◌then◌else◌, arith, Bool-cases, Option-cases, inl, inr, ==_iff, is_empty, ap, sym,
}
use mailclient.Base.Order.{contains}
use mailclient.Base.Table.{delete_where, select_where, find_where}
use mailclient.Base.Table.Laws.{find-update_where, find_where-test}
use mailclient.Imap.Cache.{
  Row, NewMessage, has_uid, lookup, list_uids, list_unread_uids, set_flags_by_uid, outdated, merged,
  inserted, upsert, delete_by_uid, delete_many_by_uids, clean_unread, set_read_clean_by_uids,
}

-- What flags from the server make of a row.
abbrev pub refreshed : {Content : Type 0} → Bool → Bool → Bool → Row Content → Row Content
refreshed read starred draft r =
    if r.flags_dirty then r else record r { is_read = read; is_starred = starred; is_draft = draft }

empty_contains : (a : ℕ) (xs : List ℕ) → is_empty xs ≡ true → contains a xs ≡ false
unfolding contains
empty_contains a [] h = refl
empty_contains a (x ∷ xs) h = cc

module _ {Content : Type 0} where
  abbrev pub is_cached : ℕ → List (Row Content) → Bool
  is_cached u rows = elim (lookup u rows) [ none ↦ false | some r ↦ true ]

  pub contains-list_uids :
      (u : ℕ) (rows : List (Row Content)) → contains u (list_uids rows) ≡ is_cached u rows
  unfolding list_uids lookup find_where contains
  contains-list_uids u [] = refl
  contains-list_uids u (r ∷ rows) = ground (arith, contains-list_uids u rows)

  pub lookup-delete_many :
      (u : ℕ) (uids : List ℕ) (rows : List (Row Content))
      → lookup u (delete_many_by_uids uids rows) ≡ (if contains u uids then none else lookup u rows)
  unfolding lookup delete_many_by_uids find_where delete_where
  lookup-delete_many u uids [] = ground arith
  lookup-delete_many u uids (r ∷ rows) =
      let same : (r.uid == u) ≡ true → contains r.uid uids ≡ contains u uids =
        λ h. ap (λ n. contains n uids) ((==_iff r.uid u).0 h) in
      elim (Bool-cases (r.uid == u)) [
        | inl hit ↦ ground (arith, same hit, lookup-delete_many u uids rows)
        | inr miss ↦ ground (arith, lookup-delete_many u uids rows)
      ]

  pub lookup-delete :
      (u uid : ℕ) (rows : List (Row Content))
      → lookup u (delete_by_uid uid rows) ≡ (if u == uid then none else lookup u rows)
  unfolding lookup delete_by_uid find_where delete_where
  lookup-delete u uid [] = ground arith
  lookup-delete u uid (r ∷ rows) = ground (arith, lookup-delete u uid rows)

  set_row :
      (u uid : ℕ) (read starred draft : Bool) (r : Row Content)
      → has_uid u r ≡ true
      → (if outdated uid read starred draft r
          then record r { is_read = read; is_starred = starred; is_draft = draft }
          else r)
        ≡ (if u == uid then refreshed read starred draft r else r)
  set_row u uid read starred draft r h = ground arith

  pub lookup-set_flags :
      (u uid : ℕ) (read starred draft : Bool) (rows : List (Row Content))
      → lookup u (set_flags_by_uid uid read starred draft rows) ≡ (
          if u == uid
          then Option.map (refreshed read starred draft) (lookup u rows)
          else lookup u rows)
  unfolding lookup set_flags_by_uid
  lookup-set_flags u uid read starred draft rows =
      let law =
        find-update_where (has_uid u) (outdated uid read starred draft)
          (λ r. record r { is_read = read; is_starred = starred; is_draft = draft }) rows
          (λ r. refl) in
      elim (Option-cases (find_where (has_uid u) rows)) [
        | inl e ↦ ground (arith, law)
        | inr (r, e) ↦
            rw (law, e)
              (ground
                (arith, set_row u uid read starred draft r, find_where-test (has_uid u) rows e))
      ]

  -- The row that `upsert` leaves.
  abbrev pub upserted : NewMessage Content → Option (Row Content) → Row Content
  upserted m none = inserted m
  upserted m (some r) = merged m r

  lookup-append :
      (u : ℕ) (rows : List (Row Content)) (r : Row Content)
      → lookup u (rows ++ r ∷ [])
        ≡ elim (lookup u rows) [ some x ↦ some x | none ↦ if r.uid == u then some r else none ]
  unfolding lookup find_where
  lookup-append u [] r = refl
  lookup-append u (x ∷ rows) r = ground (arith, lookup-append u rows r)

  -- The upsert of a message with another UID, and with this one.
  lookup-upsert_eq :
      (u : ℕ) (m : NewMessage Content) (rows : List (Row Content))
      → (u == m.uid) ≡ true
      → lookup m.uid rows ≡ lookup u rows
  lookup-upsert_eq u m rows h = ap (λ n. lookup n rows) (sym ((==_iff u m.uid).0 h))

  pub lookup-upsert :
      (u : ℕ) (m : NewMessage Content) (rows : List (Row Content))
      → lookup u (upsert m rows)
        ≡ (if u == m.uid then some (upserted m (lookup u rows)) else lookup u rows)
  unfolding upsert lookup
  lookup-upsert u m rows =
      let same = lookup-upsert_eq u m rows in
      elim (Option-cases (lookup m.uid rows)) [
        | inl e ↦
            rw (e, upsert)
              (ground
                (arith, same, lookup-append u rows (inserted m), Option-cases (lookup u rows)))
        | inr (r, e) ↦
            rw (e, upsert)
              (let law =
                  find-update_where (has_uid u) (has_uid m.uid) (merged m) rows (λ x. refl) in
                elim (Option-cases (find_where (has_uid u) rows)) [
                  | inl gone ↦ ground (arith, law, same)
                  | inr (x, found) ↦
                      rw (law, found, lookup)
                        (ground (arith, find_where-test (has_uid u) rows found))
                ])
      ]

  -- What the sweep of the trash makes of a row.
  abbrev pub swept : Bool → Row Content → Row Content
  swept queue_push r =
      if not r.is_read && not r.flags_dirty
      then record r { is_read = true; flags_dirty = queue_push }
      else r

  unread-listed :
      (u : ℕ) (rows : List (Row Content)) {r : Row Content}
      → find_where (has_uid u) rows ≡ some r
      → r.is_read ≡ false
      → contains r.uid (list_unread_uids rows) ≡ true
  unfolding find_where list_unread_uids select_where contains
  unread-listed u [] e h = cc
  unread-listed u (x ∷ rows) {r} e h = ground (arith, unread-listed u rows {r = r})

  -- With no row unread, the sweep has nothing to change.
  pub none_unread :
      (u : ℕ) (queue_push : Bool) (rows : List (Row Content))
      → is_empty (list_unread_uids rows) ≡ true
      → Option.map (swept queue_push) (lookup u rows) ≡ lookup u rows
  unfolding lookup contains
  none_unread u queue_push rows h = elim (Option-cases (find_where (has_uid u) rows)) [
    | inl e ↦ rw (e) refl
    | inr (r, e) ↦
        rw (e) (
          ground
            (arith, unread-listed u rows {r = r}, empty_contains r.uid (list_unread_uids rows)))
  ]

  pub lookup-swept :
      (u : ℕ) (queue_push : Bool) (rows : List (Row Content))
      → lookup u (set_read_clean_by_uids (list_unread_uids rows) queue_push rows)
        ≡ Option.map (swept queue_push) (lookup u rows)
  unfolding lookup set_read_clean_by_uids
  lookup-swept u queue_push rows =
      let uids = list_unread_uids rows in
      let law =
        find-update_where (has_uid u) (clean_unread uids)
          (λ (r : Row Content). record r { is_read = true; flags_dirty = queue_push }) rows
          (λ r. refl) in
      elim (Option-cases (find_where (has_uid u) rows)) [
        | inl e ↦ ground (arith, law)
        | inr (r, e) ↦ rw (law, e) (ground (arith, unread-listed u rows {r = r}))
      ]
