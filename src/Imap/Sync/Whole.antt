-- ===== src/Imap/Sync/Whole.antt =====
-- A sync from the SELECT on brings the cache in line with the mailbox.

use mailclient.Base.{ℕ, ◌≡◌, Bool, true, false, ◌&&◌, Option, List, leb, is_empty, length}
use mailclient.Base.Results.{Result, ok}
use mailclient.Errors.{StoreError}
use mailclient.Imap.Action.{Local, ◌>>=◌, ask, reads}
use mailclient.Imap.Action.Leads.{never_fails, Leads}
use mailclient.Imap.Cache.{Row, lookup, list_uids}
use mailclient.Imap.Mailbox.{Mailbox, Serves}
use mailclient.Imap.Server.{SelectResult, Server}
use mailclient.Imap.Sync.{in_vanished}
use mailclient.Imap.Sync.{SyncReport, changed, relevant, folder_unchanged, sync_selected, in_window}
use mailclient.Imap.Search.{search_recent_uids}
use mailclient.Imap.Sync.{sync_folder_window}
use mailclient.Imap.Sync.Marks.{selected}
use mailclient.Imap.Search.Covers.{search_recent_uids-Recent}
use mailclient.Imap.Sync.Refines.{Agrees, after, rebuilt, selected-Leads, rebuilt-Leads}

module _ {Content Raw : Type 0} (server : Server Raw) (parse : ℕ → Raw → Result StoreError Content)
    (box : Mailbox Content) where
  -- The sync ends well, and makes `row lo recent x` of the row `x` of each UID, where the search
  -- found the UIDs from `lo` on, and `recent` tells those in the window.
  abbrev pub Makes :
      Option ℕ
      → SelectResult
      → Local Content
      → (ℕ → ℕ → Bool → Option (Row Content) → Option (Row Content))
      → Type 0
  Makes window mb l row =
      (report : SyncReport) × (lo : ℕ) × (uids : List ℕ) × ((sync_folder_window server parse window
          l).1
        ≡ ok report)
      × (search_recent_uids server window mb.uid_next ≡ ok (uids, lo))
      × ((u : ℕ)
          → lookup u (sync_folder_window server parse window l).0.rows
            ≡ row u lo (in_window (relevant window uids) u) (lookup u l.rows))

  whole :
      (window : Option ℕ) (mb : SelectResult) (l : Local Content) (uids : List ℕ) (lo : ℕ)
      (row : ℕ → ℕ → Bool → Option (Row Content) → Option (Row Content))
      → selected server parse l.folder ≡ ok mb
      → search_recent_uids server window mb.uid_next ≡ ok (uids, lo)
      → ((u : ℕ)
          → Leads
              (sync_selected server parse window l.folder mb)
              l
              (λ _ l'.
                lookup u l'.rows ≡ row u lo (in_window (relevant window uids) u) (lookup u l.rows))
              (λ _. ⊥))
      → Makes window mb l row
  unfolding sync_folder_window ◌>>=◌ ask reads
  whole window mb l uids lo row answer searched leads =
      let (report, result, _) = never_fails (leads 0) in
      (report, lo, uids, rw (answer) result, searched, λ u. rw (answer) ((never_fails (leads u)).2))

  -- With a server that answers about one state of the mailbox, a sync of a folder that has news
  -- and the same UIDVALIDITY ends well and brings the row of every UID in line with the
  -- mailbox: the search covers the UIDs from some UID on; a mail that the mailbox has is
  -- fetched if it is covered, in the window and not cached, and its cached row gets the flags
  -- of the server if it is covered and in the window, or with CONDSTORE outside of it, but for
  -- flags that the server has not been told; a row that the mailbox does not have goes if it is
  -- covered or named by a VANISHED range; every other row stays. In the trash, rows without
  -- such flags end up read. With CONDSTORE, rows whose mails have not changed since the
  -- folder's modseq had the server's flags before.
  pub sync_folder_window-after :
      (window : Option ℕ) (mb : SelectResult) (l : Local Content)
      → selected server parse l.folder ≡ ok mb
      → Serves server parse box mb.uid_next
      → changed mb.uid_validity l.folder.uid_validity ≡ false
      → (is_empty mb.vanished && folder_unchanged l.folder mb (length (list_uids l.rows)) window)
        ≡ false
      → ((u : ℕ) → Agrees server box u l.folder (lookup u l.rows))
      → Makes window mb l
          (λ u lo recent. after server box u l.folder (leb lo u) recent (in_vanished mb.vanished u))
  sync_folder_window-after window mb l answer serves same busy agrees =
      let ((uids, lo), searched, found, low) =
        search_recent_uids-Recent server box.has window mb.uid_next serves.searched in
      whole window mb l uids lo
        (λ u lo1 recent. after server box u l.folder (leb lo1 u) recent (in_vanished mb.vanished u))
        answer searched
        (λ u.
          selected-Leads server parse box serves u l.folder window mb l uids lo same busy (agrees u)
            searched (found u))

  -- With a server that answers about one state of the mailbox, a sync after a change of
  -- UIDVALIDITY ends well; a row whose UID the search finds stays, and takes the content of the
  -- mail now under that UID if that is in the window, a mail in the window without a row is
  -- fetched, and any other row goes. In the trash, rows without flags of their own end up read.
  pub sync_folder_window-rebuilt :
      (window : Option ℕ) (mb : SelectResult) (l : Local Content)
      → selected server parse l.folder ≡ ok mb
      → Serves server parse box mb.uid_next
      → changed mb.uid_validity l.folder.uid_validity ≡ true
      → Makes window mb l (λ u lo recent. rebuilt server box u l.folder (leb lo u) recent)
  sync_folder_window-rebuilt window mb l answer serves anew =
      let ((uids, lo), searched, found, low) =
        search_recent_uids-Recent server box.has window mb.uid_next serves.searched in
      whole window mb l uids lo (λ u lo1 recent. rebuilt server box u l.folder (leb lo1 u) recent)
        answer searched
        (λ u.
          rebuilt-Leads server parse box serves u l.folder window mb l uids lo anew searched
            (found u))
