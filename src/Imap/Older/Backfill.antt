-- ===== src/Imap/Older/Backfill.antt =====
-- What a backfill adds to the cache.
use mathlib.Core.Path.{fun_ext}
use mailclient.Base.{
  ℕ, ◌≡◌, refl, ap, ◌∙◌, Bool, true, false, not, ◌&&◌, Option, none, some, List, [], ◌∷◌, ◌≤◌, All,
  Bool-cases, Option-cases, inl, inr, ltb, if◌then◌else◌, arith,
}
use mailclient.Base.Order.{contains, maximum, sort, filter, reverse}
use mailclient.Base.Membership.{contains-take-drop, contains-filter, contains-sort}
use mailclient.Base.Results.{Result, ok}
use mailclient.Errors.{StoreError}
use mailclient.Imap.Action.{Folder, Local, ◌>>=◌, ask, reads}
use mailclient.Imap.Action.Leads.{
  Leads, ends, >>=-Leads, reading-Leads, asking-Leads, reads-Leads, never_fails, did_well,
}
use mailclient.Imap.Cache.{Row, inserted, lookup, list_uids}
use mailclient.Imap.Cache.Lookup.{is_cached, contains-list_uids}
use mailclient.Imap.Mailbox.{Mailbox, Serves}
use mailclient.Imap.Server.{SelectResult, Server}
use mailclient.Imap.Older.{missing, max_uid, older_marks, set_older_state, backfill, sync_older}
use mailclient.Imap.Sync.{SyncReport, changed, chunks, or_else}
use mailclient.Base.Sorted.{contains-newest}
use mailclient.Base.Table.{count_where}
use mailclient.Imap.Sync.Chunks.{in_chunks, in_chunks-chunks}
use mailclient.Imap.Sync.Fetches.{message, stored, fetch_new-Turns}
use mailclient.Imap.Sync.Loops.{>>=-Turns, reads-Turns, Turns-to}
use mailclient.Imap.Sync.Marks.{Stamps, >>=-Stamps, ask-Stamps, reads-Stamps, fetch_new-Stamps}

-- The row of a UID: one that was there stays, and one is made of a mail that was missing.
abbrev pub added :
    {Content : Type 0} → Bool → Row Content → Option (Row Content) → Option (Row Content)
added is_missing new (some r) = some r
added is_missing new none = if is_missing then some new else none

abbrev pub first_or_0 : Option ℕ → Option ℕ → ℕ
first_or_0 none none = 0
first_or_0 none (some b) = b
first_or_0 (some a) b = a

abbrev present : {Content : Type 0} → Option (Row Content) → Bool
present none = false
present (some r) = true

-- The folder's row behind a backfill: the modseq stays, and so do UIDVALIDITY and UIDNEXT where
-- there were some; the count is the server's.
abbrev pub counted : SelectResult → Folder → Folder
counted mb f = record f {
  uid_validity = some (first_or_0 f.uid_validity mb.uid_validity);
  uid_next = some (first_or_0 f.uid_next mb.uid_next);
  server_total = some mb.exists;
}

-- A UID that the search found, that is not cached, and that has fewer than `batch` greater ones of
-- that kind.
abbrev pub is_newest : {Content : Type 0} → ℕ → List ℕ → List (Row Content) → ℕ → Bool
is_newest batch uids rows u =
    (contains u uids && not (is_cached u rows))
    && ltb (count_where (λ v. not (is_cached v rows) && ltb u v) uids) batch

-- What is missing is not cached.
contains-missing :
    (u batch : ℕ) (server_uids local_uids : List ℕ)
    → contains u local_uids ≡ true
    → contains u (missing batch server_uids local_uids) ≡ false
unfolding missing
contains-missing u batch server_uids local_uids cached =
    let left = filter (λ v. not (contains v local_uids)) (reverse (sort server_uids)) in
    ground (
      arith,
      contains-take-drop u batch left,
      contains-filter u (λ v. not (contains v local_uids)) (reverse (sort server_uids)),
    )

either_validity : (a b : Option ℕ) → changed a b ≡ false → or_else a b ≡ first_or_0 b a
either_validity none none h = refl
either_validity none (some b) h = refl
either_validity (some a) none h = refl
either_validity (some a) (some b) h = ground arith

first_of : (a b : Option ℕ) → or_else a b ≡ first_or_0 a b
first_of none none = refl
first_of none (some b) = refl
first_of (some a) b = refl

older_marks-counted :
    (mb : SelectResult) (f : Folder)
    → changed mb.uid_validity f.uid_validity ≡ false
    → older_marks mb f ≡ counted mb f
older_marks-counted mb f same =
    let validity : or_else mb.uid_validity f.uid_validity
        ≡ first_or_0 f.uid_validity mb.uid_validity =
      either_validity mb.uid_validity f.uid_validity same in
    rw (validity, first_of f.uid_next mb.uid_next) refl

missing-newest :
    {Content : Type 0} (batch : ℕ) (uids : List ℕ) (u : ℕ) (rows : List (Row Content))
    → contains u (missing batch uids (list_uids rows)) ≡ is_newest batch uids rows u
unfolding missing
missing-newest batch uids u rows =
    contains-newest u batch (λ v. not (contains v (list_uids rows))) uids
    ∙ ap
        (λ (cached : ℕ → Bool).
          (contains u uids && not (cached u))
          && ltb (count_where (λ v. not (cached v) && ltb u v) uids) batch)
        (fun_ext (λ v. contains-list_uids v rows))

abbrev BelowSome : Option ℕ → ℕ → Type 0
BelowSome none hi = Unit
BelowSome (some m) hi = m ≤ hi

maximum-BelowSome : (hi : ℕ) (xs : List ℕ) → All (λ v. v ≤ hi) xs → BelowSome (maximum xs) hi
unfolding maximum
maximum-BelowSome hi [] h = tt
maximum-BelowSome hi (x ∷ xs) (h, hs) = elim (Option-cases (maximum xs)) [
  | inl e ↦ rw (e) h
  | inr (m, e) ↦ (let low = rw (e) at (maximum-BelowSome hi xs hs) in rw (e) (ground arith))
]

-- The greatest element is the maximum.
maximum-greatest :
    (hi : ℕ) (xs : List ℕ) → contains hi xs ≡ true → All (λ v. v ≤ hi) xs → maximum xs ≡ some hi
unfolding maximum contains
maximum-greatest hi [] c h = cc
maximum-greatest hi (x ∷ xs) c (h, hs) = elim (Bool-cases (contains hi xs)) [
  | inl later ↦ rw (maximum-greatest hi xs later hs) (ground arith)
  | inr first ↦ elim (Option-cases (maximum xs)) [
    | inl e ↦ rw (e) (ground arith)
    | inr (m, e) ↦ (let low = rw (e) at (maximum-BelowSome hi xs hs) in rw (e) (ground arith))
  ]
]

module _ {Content Raw : Type 0} (server : Server Raw)
    (parse : ℕ → Raw → Result StoreError Content) where
  backfill-Stamps :
      {f : Folder} (batch : ℕ) (mb : SelectResult) (hi : ℕ)
      → Stamps f (older_marks mb f) (backfill server parse batch mb hi)
  unfolding backfill set_older_state
  backfill-Stamps {f = f} batch mb hi = >>=-Stamps (ask-Stamps _) λ server_uids.
      >>=-Stamps (reads-Stamps _) λ local_uids.
        >>=-Stamps (fetch_new-Stamps server parse false _) λ fetched. λ l e.
          >>=-Leads (λ _ l'. l'.folder ≡ older_marks mb f) (ends tt refl (ap (older_marks mb) e))
            λ _ l' e'. reads-Leads _ e'

  module _ (box : Mailbox Content) {uid_next : Option ℕ} (serves : Serves server parse box uid_next)
      (u : ℕ) where
    stored-added :
        (wanted : Bool) (x : Option (Row Content))
        → (present x ≡ true → wanted ≡ false)
        → (if wanted && box.has u then stored u box false x else x)
          ≡ added (wanted && box.has u) (inserted (message u box false)) x
    stored-added wanted none h = refl
    stored-added wanted (some r) h = rw (h refl) refl

    backfill-Leads :
        (batch hi : ℕ) (mb : SelectResult) (l : Local Content) (uids : List ℕ)
        → server.search_range 1 hi ≡ ok uids
        → Leads
            (backfill server parse batch mb hi)
            l
            (λ _ l'.
              lookup u l'.rows
              ≡ added
                  (contains u (missing batch uids (list_uids l.rows)) && box.has u)
                  (inserted (message u box false))
                  (lookup u l.rows))
            (λ _. ⊥)
    unfolding backfill set_older_state
    backfill-Leads batch hi mb l uids searched =
        let x = lookup u l.rows in
        let wanted = missing batch uids (list_uids l.rows) in
        let turn : (if in_chunks u (chunks (sort wanted)) && box.has u
              then stored u box false x
              else x)
            ≡ added (contains u wanted && box.has u) (inserted (message u box false)) x =
          ap (λ b. (if b && box.has u then stored u box false x else x))
            (in_chunks-chunks u (sort wanted) ∙ contains-sort u wanted)
          ∙ stored-added (contains u wanted) x (λ cached.
            contains-missing u batch uids (list_uids l.rows)
              (contains-list_uids u l.rows ∙ cached)) in
        asking-Leads _ searched (
          reading-Leads _ _ (
            >>=-Turns u (Turns-to u turn (fetch_new-Turns u server parse box serves x false _))
              (λ fetched. >>=-Turns u (λ l' e. ends tt refl e) λ _. reads-Turns u _) l refl))

  older-backfill :
      (batch : ℕ) (mb : SelectResult) (hi : ℕ) (l : Local Content)
      → server.select none ≡ ok mb
      → changed mb.uid_validity l.folder.uid_validity ≡ false
      → max_uid l.rows ≡ some hi
      → sync_older server parse batch l ≡ backfill server parse batch mb hi l
  unfolding sync_older ◌>>=◌ ask reads maximum list_uids
  older-backfill batch mb hi l answer same newest = rw (answer, same, newest) refl

  -- With a server that answers about one state of the mailbox, loading older mail into a folder
  -- that has cached mail and the same UIDVALIDITY ends well: every cached row stays as it is;
  -- the search goes up to the greatest cached UID, and of the UIDs that it finds and the cache
  -- does not have, exactly those are added that the mailbox has and that have fewer than a
  -- batch of greater ones of that kind; the modseq of the folder stays, its UIDVALIDITY and
  -- UIDNEXT stay if it has them, and the count is the server's.
  pub sync_older-added :
      (box : Mailbox Content) (batch : ℕ) (mb : SelectResult) (hi : ℕ) (l : Local Content)
      → server.select none ≡ ok mb
      → Serves server parse box mb.uid_next
      → changed mb.uid_validity l.folder.uid_validity ≡ false
      → is_cached hi l.rows ≡ true
      → All (λ v. v ≤ hi) (list_uids l.rows)
      → (report : SyncReport) × (uids : List ℕ) × ((sync_older server parse batch l).1 ≡ ok report)
        × (server.search_range 1 hi ≡ ok uids)
        × ((sync_older server parse batch l).0.folder ≡ counted mb l.folder)
        × ((u : ℕ)
            → lookup u (sync_older server parse batch l).0.rows
              ≡ added
                  (is_newest batch uids l.rows u && box.has u)
                  (inserted (message u box false))
                  (lookup u l.rows))
  unfolding max_uid
  sync_older-added box batch mb hi l answer serves same cached greatest =
      let newest : max_uid l.rows ≡ some hi =
        maximum-greatest hi (list_uids l.rows) (contains-list_uids hi l.rows ∙ cached) greatest in
      let (uids, searched, found) = serves.searched.in_range 1 hi in
      let run : sync_older server parse batch l ≡ backfill server parse batch mb hi l =
        older-backfill batch mb hi l answer same newest in
      let rows = λ (u : ℕ). never_fails (backfill-Leads box serves u batch hi mb l uids searched) in
      let (report, result, _) = rows 0 in
      (
        report,
        uids,
        rw (run) result,
        searched,
        rw (run) (did_well result (backfill-Stamps batch mb hi l refl))
            ∙ older_marks-counted mb l.folder same,
        λ u.
            rw (run) ((rows u).2)
            ∙ ap (λ b. added (b && box.has u) (inserted (message u box false)) (lookup u l.rows))
                (missing-newest batch uids u l.rows),
      )
