-- ===== src/Imap/Sync/Steps.antt =====
-- What steps 2 to 6 of a sync make of the row of one UID.
use mathlib.Core.Option
use mailclient.Base.{
  ℕ, refl, ap, Bool, false, not, ◌&&◌, Option, none, List, ltb, leb, if◌then◌else◌,
}
use mailclient.Base.Order.{contains}
use mailclient.Base.Results.{Result}
use mailclient.Errors.{StoreError}
use mailclient.Imap.Action.{Local, ◌>>◌, reads}
use mailclient.Imap.Action.Leads.{ends}
use mailclient.Imap.Cache.{Row}
use mailclient.Imap.Cache.Lookup.{swept}
use mailclient.Imap.Mailbox.{Mailbox, newer, Serves}
use mailclient.Imap.Server.{SelectResult, Server}
use mailclient.Imap.Sync.Chunks.{in_chunks-filter, in_chunks-sort-filter}
use mailclient.Imap.Sync.Loops.{
  Turns, >>=-Turns, reads-Turns, when-Turns, Turns-to, delete_each-Turns, expunge-Turns,
}
use mailclient.Imap.Sync.{Folder, in_window, set_sync_state, sync_changes}
use mailclient.Imap.Sync.Flags.{fresh_flags, refresh_flags-Turns}
use mailclient.Imap.Sync.Fetches.{stored, fetch_new-Turns}
use mailclient.Imap.Sync.Vanished.{sweep-Turns}

module _ {Content Raw : Type 0} (server : Server Raw) (box : Mailbox Content) (u : ℕ) where
  -- The steps 2 to 5, each with the test that the UID is among those it asks about.
  abbrev flagged : Bool → ℕ → Bool → Option (Row Content) → Option (Row Content)
  flagged trash since asked x =
      if asked && (box.has u && newer box since u)
      then Option.map (fresh_flags u box trash) x
      else x

  abbrev fetched_as : Bool → Bool → Option (Row Content) → Option (Row Content)
  fetched_as trash asked x = if asked && box.has u then stored u box trash x else x

  abbrev dropped : Bool → Option (Row Content) → Option (Row Content)
  dropped gone x = if gone then none else x

  -- The row after steps 2 to 6, from what is known of `u`: that it was cached under this
  -- UIDVALIDITY (`mine`) or before a change of it (`old`), found by the search, and in the window.
  abbrev pub steps :
      Folder → Bool → Bool → Bool → Bool → Bool → ℕ → Option (Row Content) → Option (Row Content)
  steps f validity_changed old mine found recent lo x =
      let trash = f.is_trash in
      let condstore = server.condstore_enabled in
      let since = if condstore && not validity_changed then f.highest_modseq else 0 in
      let x1 = flagged trash since (found && (mine && recent)) x in
      let x2 =
        if condstore && ltb 0 f.highest_modseq
        then flagged trash f.highest_modseq (mine && not recent) x1
        else x1 in
      let x3 = fetched_as trash (found && (not mine && recent)) x2 in
      let x4 = dropped (old && (validity_changed && not found)) x3 in
      let x5 = dropped (mine && (leb lo u && not found)) x4 in
      if trash then Option.map (swept false) x5 else x5

module _ {Content Raw : Type 0} (server : Server Raw) (parse : ℕ → Raw → Result StoreError Content)
    (box : Mailbox Content) {uid_next : Option ℕ} (serves : Serves server parse box uid_next)
    (u : ℕ) where
  finish-Turns :
      {A : Type 0} (x : Option (Row Content)) (mb : SelectResult) (modseq : ℕ)
      (h : Local Content → A)
      → Turns u x x (set_sync_state mb modseq >> reads h)
  unfolding set_sync_state
  finish-Turns x mb modseq h = >>=-Turns u (λ l e. ends tt refl e) λ _. reads-Turns u h

  pub sync_changes-Turns :
      (x : Option (Row Content)) (f : Folder) (mb : SelectResult) (validity_changed : Bool)
      (old_uids local_uids : List ℕ) (vanished : ℕ) (server_uids : List ℕ) (lo : ℕ)
      (newest : Option (List ℕ))
      → Turns u x
          (steps server box u f validity_changed
            (contains u old_uids)
            (contains u local_uids)
            (contains u server_uids)
            (in_window newest u)
            lo
            x)
          (sync_changes server parse f mb validity_changed old_uids local_uids vanished server_uids
            lo newest)
  unfolding sync_changes
  sync_changes-Turns x f mb validity_changed old_uids local_uids vanished server_uids lo newest =
      let trash = f.is_trash in
      let condstore = server.condstore_enabled in
      let since = if condstore && not validity_changed then f.highest_modseq else 0 in
      let older = condstore && ltb 0 f.highest_modseq in
      let found = contains u server_uids in
      let mine = contains u local_uids in
      let recent = in_window newest u in
      let x1 = flagged server box u trash since (found && (mine && recent)) x in
      let x2 =
        if older then flagged server box u trash f.highest_modseq (mine && not recent) x1 else x1 in
      let x3 = fetched_as server box u trash (found && (not mine && recent)) x2 in
      >>=-Turns u
        (Turns-to u
          (ap (λ b. flagged server box u trash since b x) (in_chunks-filter u _ server_uids))
          (refresh_flags-Turns u server parse box serves x trash since _))
        λ _.
          >>=-Turns u
            (when-Turns u older (
              Turns-to u
                (ap (λ b. flagged server box u trash f.highest_modseq b x1)
                  (in_chunks-filter u _ local_uids))
                (refresh_flags-Turns u server parse box serves x1 trash f.highest_modseq _)))
            λ _.
              >>=-Turns u
                (Turns-to u
                  (ap (λ b. fetched_as server box u trash b x2)
                    (in_chunks-sort-filter u _ server_uids))
                  (fetch_new-Turns u server parse box serves x2 trash _))
                λ fetched.
                  >>=-Turns u
                    (Turns-to u
                      (ap (λ b. dropped server box u b x3) (in_chunks-filter u _ old_uids))
                      (delete_each-Turns u x3 _))
                    λ purged. >>=-Turns u (expunge-Turns u _ lo server_uids local_uids) λ expunged.
                      >>=-Turns u (when-Turns u trash (sweep-Turns server parse box serves u _))
                        λ _. finish-Turns _ mb _ _
