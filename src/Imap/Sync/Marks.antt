-- ===== src/Imap/Sync/Marks.antt =====
-- The marks of the folder (UIDVALIDITY, UIDNEXT, the total and the modseq) are written at the end
-- of a sync and nowhere else.
use mathlib.Core.Option
use mailclient.Base.{
  ℕ, ◌≡◌, refl, Bool, false, not, ◌&&◌, Option, some, List, [], ◌∷◌, if◌then◌else◌, arith,
  Bool-cases, inl, inr, ap, is_empty, length,
}
use mailclient.Base.Results.{Result, ok, err, Result-cases}
use mailclient.Errors.{StoreError}
use mailclient.Imap.Action.{Folder, Local, Sync, ◌>>=◌, ◌>>◌, ask, reads, writes, when}
use mailclient.Imap.Action.Leads.{
  Leads, ends, fails, >>=-Leads, asked-Leads, reads-Leads, writes-Leads, when-Leads,
}
use mailclient.Imap.Cache.{Row, list_unread_uids}
use mailclient.Imap.Server.{Fetched, SelectResult, Server}
use mailclient.Imap.Sync.{
  SyncReport, or_else, value_or, changed, folder_unchanged, relevant, refresh_flags, store_messages,
  fetch_new, delete_each, drop_vanished, expunge, sweep_trash_seen, set_sync_state, sync_changes,
  unchanged_path, sync_selected, sync_folder_window,
}

abbrev stamped_with : SelectResult → ℕ → Folder → Folder
stamped_with mb modseq f = record f {
  uid_validity = some (or_else mb.uid_validity f.uid_validity);
  uid_next = some (or_else mb.uid_next f.uid_next);
  server_total = some mb.exists;
  highest_modseq = modseq;
}

-- The folder's row after a sync that ends well. The modseq of a mailbox that was made anew under
-- the same name is not carried over.
abbrev pub stamped : SelectResult → Folder → Folder
stamped mb f =
    stamped_with mb
      (value_or mb.highest_modseq
        (if changed mb.uid_validity f.uid_validity then 0 else f.highest_modseq))
      f

module _ {Content : Type 0} where
  -- The step leaves the folder's row `g` when it ends well, and `f` when it fails.
  abbrev pub Stamps : {A : Type 0} → Folder → Folder → Sync Content A → Type 0
  Stamps f g m =
      (l : Local Content) → l.folder ≡ f → Leads m l (λ _ l'. l'.folder ≡ g) (λ l'. l'.folder ≡ f)

  pub >>=-Stamps :
      {A B : Type 0} {f g : Folder} {m : Sync Content A} {k : A → Sync Content B}
      → Stamps f f m
      → ((a : A) → Stamps f g (k a))
      → Stamps f g (m >>= k)
  >>=-Stamps {f = f} keeps next l e = >>=-Leads (λ _ l'. l'.folder ≡ f) (keeps l e) (λ a. next a)

  module _ {f : Folder} where
    pure-Stamps : {A : Type 0} {a : A} → Stamps f f (λ (l : Local Content). (l, ok a))
    pure-Stamps {a = a} l e = ends a refl e

    pub ask-Stamps : {A : Type 0} (r : Result StoreError A) → Stamps f f (ask {Content = Content} r)
    ask-Stamps r l e = asked-Leads r l (λ _ _. e) e

    pub reads-Stamps : {A : Type 0} (h : Local Content → A) → Stamps f f (reads h)
    reads-Stamps h l e = reads-Leads h e

    writes-Stamps : (h : List (Row Content) → List (Row Content)) → Stamps f f (writes h)
    writes-Stamps h l e = writes-Leads h e

    when-Stamps :
        (test : Bool) {m : Sync Content (Unit {0})} → Stamps f f m → Stamps f f (when test m)
    when-Stamps test keeps l e = when-Leads test (λ _. keeps l e) (λ _. e)

    delete_each-Stamps : (uids : List (List ℕ)) → Stamps f f (delete_each uids)
    unfolding delete_each
    delete_each-Stamps [] = pure-Stamps
    delete_each-Stamps (chunk ∷ rest) = >>=-Stamps (reads-Stamps _) λ _.
        >>=-Stamps (writes-Stamps _) λ _. >>=-Stamps (delete_each-Stamps rest) λ _. reads-Stamps _

    expunge-Stamps :
        (lo : ℕ) (server_uids local_uids : List ℕ) → Stamps f f (expunge lo server_uids local_uids)
    unfolding expunge
    expunge-Stamps lo server_uids [] = pure-Stamps
    expunge-Stamps lo server_uids (u ∷ uids) =
        >>=-Stamps (when-Stamps _ (writes-Stamps _))
          λ _. >>=-Stamps (expunge-Stamps lo server_uids uids) λ _. reads-Stamps _

module _ {Content Raw : Type 0} (server : Server Raw) {f : Folder} where
  refresh_flags-Stamps :
      (is_trash : Bool) (since : ℕ) (uids : List (List ℕ))
      → Stamps f f (refresh_flags {Content = Content} server is_trash since uids)
  unfolding refresh_flags
  refresh_flags-Stamps is_trash since [] = pure-Stamps
  refresh_flags-Stamps is_trash since (chunk ∷ rest) =
      >>=-Stamps (ask-Stamps _)
        λ answers. >>=-Stamps (writes-Stamps _) λ _. refresh_flags-Stamps is_trash since rest

  drop_vanished-Stamps :
      (vanished : List (ℕ × ℕ)) → Stamps f f (drop_vanished {Content = Content} server vanished)
  unfolding drop_vanished
  drop_vanished-Stamps vanished =
      >>=-Stamps (reads-Stamps _)
        λ named. >>=-Stamps (ask-Stamps _) λ still_there. delete_each-Stamps _

  sweep-Stamps : Stamps f f (sweep_trash_seen {Content = Content} server)
  unfolding sweep_trash_seen
  sweep-Stamps l e = elim (Bool-cases (is_empty (list_unread_uids l.rows))) [
    | inl none_left ↦ ends tt (rw (none_left) refl) (rw (none_left) e)
    | inr some_left ↦ ends tt (rw (some_left) refl) (rw (some_left) e)
  ]

module _ {Content Raw : Type 0} (server : Server Raw) (parse : ℕ → Raw → Result StoreError Content)
    {f : Folder} where
  store_messages-Stamps :
      (is_trash : Bool) (fetched : List (Fetched Raw))
      → Stamps f f (store_messages server parse is_trash fetched)
  unfolding store_messages
  store_messages-Stamps is_trash [] = pure-Stamps
  store_messages-Stamps is_trash (m ∷ fetched) = >>=-Stamps (ask-Stamps _) λ row.
      >>=-Stamps (writes-Stamps _)
        λ _. >>=-Stamps (store_messages-Stamps is_trash fetched) λ _. reads-Stamps _

  pub fetch_new-Stamps :
      (is_trash : Bool) (uids : List (List ℕ)) → Stamps f f (fetch_new server parse is_trash uids)
  unfolding fetch_new
  fetch_new-Stamps is_trash [] = pure-Stamps
  fetch_new-Stamps is_trash (chunk ∷ rest) = >>=-Stamps (ask-Stamps _) λ fetched.
      >>=-Stamps (store_messages-Stamps is_trash fetched)
        λ _. >>=-Stamps (fetch_new-Stamps is_trash rest) λ _. reads-Stamps _

  finish-Stamps :
      {A : Type 0} (mb : SelectResult) (modseq : ℕ) (h : Local Content → A)
      → Stamps f (stamped_with mb modseq f) (set_sync_state mb modseq >> reads h)
  unfolding set_sync_state
  finish-Stamps mb modseq h l e =
      >>=-Leads (λ _ l'. l'.folder ≡ stamped_with mb modseq f)
        (ends tt refl (ap (stamped_with mb modseq) e)) λ _ l' e'. reads-Leads h e'

  module _ (mb : SelectResult) where
    sync_changes-Stamps :
        (old_uids local_uids : List ℕ) (vanished : ℕ) (server_uids : List ℕ) (lo : ℕ)
        (newest : Option (List ℕ))
        → Stamps f (stamped mb f) (
            sync_changes server parse f mb
              (changed mb.uid_validity f.uid_validity)
              old_uids
              local_uids
              vanished
              server_uids
              lo
              newest)
    unfolding sync_changes
    sync_changes-Stamps old_uids local_uids vanished server_uids lo newest =
        >>=-Stamps (refresh_flags-Stamps server f.is_trash _ _) λ _.
          >>=-Stamps (when-Stamps _ (refresh_flags-Stamps server f.is_trash _ _)) λ _.
            >>=-Stamps (fetch_new-Stamps f.is_trash _) λ fetched.
              >>=-Stamps (delete_each-Stamps _) λ purged.
                >>=-Stamps (expunge-Stamps lo server_uids local_uids) λ expunged.
                  >>=-Stamps (when-Stamps _ (sweep-Stamps server)) λ _. finish-Stamps mb _ _

    unchanged_path-Stamps :
        changed mb.uid_validity f.uid_validity ≡ false
        → Stamps f (stamped mb f) (unchanged_path {Content = Content} server f mb)
    unfolding unchanged_path
    unchanged_path-Stamps same =
        >>=-Stamps (when-Stamps _ (sweep-Stamps server))
          λ _. rw (same) (finish-Stamps mb (value_or mb.highest_modseq f.highest_modseq) _)

    sync_selected-Stamps :
        (window : Option ℕ) → Stamps f (stamped mb f) (sync_selected server parse window f mb)
    unfolding sync_selected
    sync_selected-Stamps window =
        let validity_changed = changed mb.uid_validity f.uid_validity in
        >>=-Stamps (reads-Stamps _) λ old_uids.
          >>=-Stamps (drop_vanished-Stamps server mb.vanished) λ vanished.
            >>=-Stamps (reads-Stamps _) λ local_uids.
              elim (Bool-cases (
                not validity_changed
                && (is_empty mb.vanished && folder_unchanged f mb (length local_uids) window))) [
                  | inl quiet ↦ rw (quiet) (unchanged_path-Stamps (ground arith))
                  | inr news ↦ rw (news) (
                      >>=-Stamps (ask-Stamps _) λ found.
                        sync_changes-Stamps old_uids local_uids vanished found.0 found.1
                          (relevant window found.0))
                ]

module _ {Content Raw : Type 0} (server : Server Raw)
    (parse : ℕ → Raw → Result StoreError Content) where
  abbrev pub selected : Folder → Result StoreError SelectResult
  selected f = server.select (Option.map (λ v. (v, f.highest_modseq)) f.uid_validity)

  -- The folder's row after a sync, by the answer to the SELECT and the result.
  abbrev pub marks : Result StoreError SelectResult → Result StoreError SyncReport → Folder → Folder
  marks (ok mb) (ok report) f = stamped mb f
  marks (ok mb) (err e) f = f
  marks (err e) result f = f

  -- Whatever the server answers, a sync that fails leaves UIDVALIDITY, UIDNEXT, total and
  -- modseq of the folder as they were, and one that ends well writes those of the SELECT it
  -- began with; the modseq starts over where UIDVALIDITY has changed and the server names none.
  pub sync_folder_window-marks :
      (window : Option ℕ) (l : Local Content)
      → (sync_folder_window server parse window l).0.folder
        ≡ marks (selected l.folder) (sync_folder_window server parse window l).1 l.folder
  unfolding sync_folder_window ◌>>=◌ ask reads
  sync_folder_window-marks window l =
      let f : Folder = l.folder in
      elim (Result-cases (selected f)) [
        | inr (x, e) ↦ rw (e) refl
        | inl (mb, e) ↦
            elim (sync_selected-Stamps server parse mb window l refl)
              as (λ _.
                (sync_folder_window server parse window l).0.folder
                ≡ marks (selected f) (sync_folder_window server parse window l).1 f) [
                  | ends a result stamps ↦ rw (e, result) stamps
                  | fails x result keeps ↦ rw (e, result) keeps
                ]
      ]
