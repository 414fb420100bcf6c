-- ===== src/Imap/Sync/Refines.antt =====
-- What a sync of a selected folder makes of the row of one UID.
use mathlib.Core.Option
use mailclient.Base.{
  ℕ, ◌≡◌, refl, ap, ◌∙◌, Bool, true, false, not, ◌&&◌, ◌||◌, Option, none, some, List, [], ◌∷◌, ltb,
  leb, if◌then◌else◌, arith, Bool-cases, inl, inr, is_empty, length,
}
use mailclient.Base.Order.{contains, filter}
use mailclient.Base.Membership.{filter_all, contains-filter}
use mailclient.Base.Results.{Result, ok}
use mailclient.Errors.{StoreError}
use mailclient.Imap.Action.{Local}
use mailclient.Imap.Action.Leads.{Leads, ends, fails, >>=-Leads, reading-Leads, asking-Leads}
use mailclient.Imap.Cache.{Row, lookup, list_uids, inserted}
use mailclient.Imap.Cache.Lookup.{contains-list_uids, swept}
use mailclient.Imap.Mailbox.{Mailbox, newer, Serves}
use mailclient.Imap.Server.{SelectResult, Server}
use mailclient.Imap.Sync.{in_vanished, drop_vanished}
use mailclient.Imap.Sync.Loops.{Turns-to}
use mailclient.Imap.Sync.{Folder, changed, relevant, folder_unchanged, sync_selected, in_window}
use mailclient.Imap.Sync.Flags.{fresh_flags}
use mailclient.Imap.Sync.Fetches.{message, stored}
use mailclient.Imap.Sync.Vanished.{drop_vanished-Turns, none_vanished}
use mailclient.Imap.Search.{search_recent_uids}
use mailclient.Imap.Sync.Steps.{steps, sync_changes-Turns}

-- The row of a UID after a sync: `old` where the mailbox has it, the message that the server tells,
-- and the row with the flags that the server tells. The search asked about the UIDs from `lo` on,
-- and `recent` are those in the window.
module _ {Content : Type 0} where
  abbrev pub in_line :
      (has asked recent older told_gone : Bool)
      → (Row Content → Row Content)
      → Row Content
      → Option (Row Content)
      → Option (Row Content)
  in_line true asked recent older told_gone fresh new none =
      if asked && recent then some new else none
  in_line true asked recent older told_gone fresh new (some r) =
      if (asked && recent) || (older && not recent) then some (fresh r) else some r
  in_line false asked recent older told_gone fresh new x = if told_gone || asked then none else x

module _ {Content Raw : Type 0} (server : Server Raw) (box : Mailbox Content) (u : ℕ)
    (f : Folder) where
  -- With CONDSTORE, the row of a mail that has not changed since the modseq of the folder has the
  -- flags of the server already.
  abbrev pub Agrees : Option (Row Content) → Type 0
  Agrees x =
      box.has u ≡ true
      → server.condstore_enabled ≡ true
      → newer box f.highest_modseq u ≡ false
      → Option.map (fresh_flags u box f.is_trash) x ≡ x

  abbrev pub after : Bool → Bool → Bool → Option (Row Content) → Option (Row Content)
  after asked recent told_gone x =
      let y =
        in_line (box.has u) asked recent (server.condstore_enabled && ltb 0 f.highest_modseq)
          told_gone (fresh_flags u box f.is_trash) (inserted (message u box f.is_trash)) x in
      if f.is_trash then Option.map (swept false) y else y

  abbrev present : Option (Row Content) → Bool
  present none = false
  present (some r) = true

  -- The row after step 1, and whether there is one.
  abbrev unvanished : Bool → Option (Row Content) → Option (Row Content)
  unvanished told_gone x = if told_gone && not (box.has u) then none else x

  abbrev kept : Bool → Option (Row Content) → Bool
  kept told_gone x = present (unvanished told_gone x)

  -- What is left after step 1 was there before it.
  not_mine :
      (told_gone : Bool) (x y : Option (Row Content))
      → y ≡ unvanished told_gone x
      → (present y && not (present x)) ≡ false
  not_mine told_gone none y e = rw (e) (ground arith)
  not_mine told_gone (some r) y e = ground arith

  -- The row after a sync that finds another UIDVALIDITY: `x` is of the mailbox before it.
  abbrev pub rebuilt : Bool → Bool → Option (Row Content) → Option (Row Content)
  rebuilt asked recent x =
      let y =
        if box.has u && asked then (if recent then stored u box f.is_trash x else x) else none in
      if f.is_trash then Option.map (swept false) y else y

  steps-rebuilt :
      (lo : ℕ) (recent told_gone : Bool) (x : Option (Row Content))
      → steps server box u f true
          (present x)
          false
          (box.has u && leb lo u)
          recent
          lo
          (unvanished told_gone x)
        ≡ rebuilt (leb lo u) recent x
  steps-rebuilt lo recent told_gone none = ground arith
  steps-rebuilt lo recent told_gone (some r) = ground arith

  steps-after :
      (lo : ℕ) (recent told_gone mine : Bool) (x : Option (Row Content))
      → Agrees x
      → mine ≡ kept told_gone x
      → steps server box u f false false mine
          (box.has u && leb lo u)
          recent
          lo
          (unvanished told_gone x)
        ≡ after (leb lo u) recent told_gone x
  steps-after lo recent told_gone mine none agrees h = ground arith
  steps-after lo recent told_gone mine (some r) agrees h = ground arith

module _ {Content Raw : Type 0} (server : Server Raw) (parse : ℕ → Raw → Result StoreError Content)
    (box : Mailbox Content) {uid_next : Option ℕ} (serves : Serves server parse box uid_next)
    (u : ℕ) (f : Folder) where
  -- Step 1 with what it leaves of the table when the server names no ranges.
  vanished-Leads :
      (vanished : List (ℕ × ℕ)) (l : Local Content)
      → Leads
          (drop_vanished server vanished)
          l
          (λ _ l'.
            (lookup u l'.rows
              ≡ unvanished server box u f (in_vanished vanished u) (lookup u l.rows))
            × (is_empty vanished ≡ true → l'.rows ≡ l.rows))
          (λ _. ⊥)
  unfolding in_vanished
  vanished-Leads [] l =
      let e = none_vanished server l in ends 0 (rw (e) refl) (rw (e) refl, λ _. rw (e) refl)
  vanished-Leads (range ∷ ranges) l =
      elim (drop_vanished-Turns server parse box serves u (lookup u l.rows) (range ∷ ranges) l
        refl) [
          | ends n result row ↦ ends n result (row, λ h. cc)
          | fails e result bad ↦ fails e result bad
        ]

  pub selected-Leads :
      (window : Option ℕ) (mb : SelectResult) (l : Local Content) (server_uids : List ℕ) (lo : ℕ)
      → changed mb.uid_validity f.uid_validity ≡ false
      → (is_empty mb.vanished && folder_unchanged f mb (length (list_uids l.rows)) window) ≡ false
      → Agrees server box u f (lookup u l.rows)
      → search_recent_uids server window mb.uid_next ≡ ok (server_uids, lo)
      → contains u server_uids ≡ (box.has u && leb lo u)
      → Leads
          (sync_selected server parse window f mb)
          l
          (λ _ l'.
            lookup u l'.rows
            ≡ after server box u f
                (leb lo u)
                (in_window (relevant window server_uids) u)
                (in_vanished mb.vanished u)
                (lookup u l.rows))
          (λ _. ⊥)
  unfolding sync_selected contains
  selected-Leads window mb l server_uids lo same busy agrees searched found =
      let x = lookup u l.rows in
      let told_gone = in_vanished mb.vanished u in
      rw (same, sync_selected)
        (reading-Leads _ _ (
          >>=-Leads
            (λ _ l'.
              (lookup u l'.rows ≡ unvanished server box u f told_gone x)
              × (is_empty mb.vanished ≡ true → l'.rows ≡ l.rows))
            (vanished-Leads mb.vanished l)
            λ vanished l' (row, kept_rows).
              let local_uids = filter (λ v. true) (list_uids l'.rows) in
              let all : local_uids ≡ list_uids l'.rows =
                filter_all (λ v. true) (list_uids l'.rows) (λ v. refl) in
              let mine : contains u local_uids ≡ kept server box u f told_gone x =
                ap (contains u) all
                ∙ contains-list_uids u l'.rows
                ∙ ap (present server box u f) row in
              let slow : (is_empty mb.vanished && folder_unchanged f mb (length local_uids) window)
                  ≡ false =
                elim (Bool-cases (is_empty mb.vanished)) [
                  | inl quiet ↦
                      ap
                        (λ uids. is_empty mb.vanished && folder_unchanged f mb (length uids) window)
                        (all ∙ ap list_uids (kept_rows quiet))
                      ∙ busy
                  | inr ranges ↦ rw (ranges) refl
                ] in
              let turn : steps server box u f false (contains u []) (contains u local_uids)
                    (contains u server_uids) (in_window (relevant window server_uids) u) lo
                    (unvanished server box u f told_gone x)
                  ≡ after server box u f (leb lo u) (in_window (relevant window server_uids) u)
                      told_gone x =
                rw (mine, found)
                  (steps-after server box u f lo (in_window (relevant window server_uids) u)
                    told_gone _ x agrees refl) in
              reading-Leads _ _ (
                rw (slow) (
                  asking-Leads _ searched (
                    Turns-to u turn
                      (sync_changes-Turns server parse box serves u
                        (unvanished server box u f told_gone x) f mb false [] local_uids vanished
                        server_uids lo (relevant window server_uids))
                      l' row)))))

  pub rebuilt-Leads :
      (window : Option ℕ) (mb : SelectResult) (l : Local Content) (server_uids : List ℕ) (lo : ℕ)
      → changed mb.uid_validity f.uid_validity ≡ true
      → search_recent_uids server window mb.uid_next ≡ ok (server_uids, lo)
      → contains u server_uids ≡ (box.has u && leb lo u)
      → Leads
          (sync_selected server parse window f mb)
          l
          (λ _ l'.
            lookup u l'.rows
            ≡ rebuilt server box u f
                (leb lo u)
                (in_window (relevant window server_uids) u)
                (lookup u l.rows))
          (λ _. ⊥)
  unfolding sync_selected
  rebuilt-Leads window mb l server_uids lo anew searched found =
      let x = lookup u l.rows in
      let told_gone = in_vanished mb.vanished u in
      let old_uids = list_uids l.rows in
      let recent = in_window (relevant window server_uids) u in
      rw (anew, sync_selected)
        (reading-Leads _ _ (
          >>=-Leads (λ _ l'. lookup u l'.rows ≡ unvanished server box u f told_gone x)
            (drop_vanished-Turns server parse box serves u x mb.vanished l refl)
            λ vanished l' row.
              let local_uids = filter (λ v. not (contains v old_uids)) (list_uids l'.rows) in
              let mine : contains u local_uids ≡ false =
                contains-filter u (λ v. not (contains v old_uids)) (list_uids l'.rows)
                ∙ rw (contains-list_uids u l'.rows, contains-list_uids u l.rows)
                    (not_mine server box u f told_gone (lookup u l.rows) (lookup u l'.rows) row) in
              let turn : steps server box u f true (contains u old_uids) (contains u local_uids)
                    (contains u server_uids) recent lo (unvanished server box u f told_gone x)
                  ≡ rebuilt server box u f (leb lo u) recent x =
                rw (mine, found, contains-list_uids u l.rows)
                  (steps-rebuilt server box u f lo recent told_gone x) in
              reading-Leads _ _ (
                asking-Leads _ searched (
                  Turns-to u turn
                    (sync_changes-Turns server parse box serves u
                      (unvanished server box u f told_gone x) f mb true old_uids local_uids vanished
                      server_uids lo (relevant window server_uids))
                    l' row))))
