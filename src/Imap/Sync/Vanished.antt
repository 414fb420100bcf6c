-- ===== src/Imap/Sync/Vanished.antt =====
-- What the VANISHED ranges and the sweep of the trash make of the row of one UID.
use mathlib.Core.Option
use mailclient.Base.{
  ℕ, ◌≡◌, refl, sym, ap, ◌∙◌, false, not, ◌&&◌, Option, none, List, [], ◌∷◌, ◌++◌, if◌then◌else◌,
  arith, Bool-cases, Option-cases, inl, inr, is_empty,
}
use mailclient.Base.Order.{contains, filter}
use mailclient.Base.Membership.{filter_none, contains-append, contains-filter}
use mailclient.Base.Results.{Result, ok}
use mailclient.Errors.{StoreError}
use mailclient.Imap.Action.{Local, ◌>>=◌, ask, reads}
use mailclient.Imap.Action.Leads.{ends}
use mailclient.Imap.Cache.{Row, list_uids, list_unread_uids}
use mailclient.Imap.Cache.Lookup.{contains-list_uids, swept, lookup-swept, none_unread}
use mailclient.Imap.Mailbox.{Mailbox, Serves}
use mailclient.Imap.Server.{Server}
use mailclient.Imap.Sync.{
  chunks, chunks_from, in_vanished, search_each, delete_each, drop_vanished, sweep_trash_seen,
}
use mailclient.Imap.Sync.Chunks.{in_chunks, in_chunks-chunks}
use mailclient.Imap.Sync.Loops.{Turns, reading-Turns, ask-Turns, Turns-to, delete_each-Turns}

module _ {Content Raw : Type 0} (server : Server Raw) where
  -- Without ranges nothing is asked and nothing is dropped.
  pub none_vanished : (l : Local Content) → drop_vanished server [] l ≡ (l, ok 0)
  unfolding drop_vanished ◌>>=◌ ask reads delete_each search_each chunks chunks_from
  none_vanished l = rw (filter_none (in_vanished []) (list_uids l.rows) (λ a. refl)) refl

module _ {Content Raw : Type 0} (server : Server Raw) (parse : ℕ → Raw → Result StoreError Content)
    (box : Mailbox Content) {uid_next : Option ℕ} (serves : Serves server parse box uid_next) where
  found_each :
      (chunks : List (List ℕ))
      → (uids : List ℕ) × (search_each server chunks ≡ ok uids)
        × ((u : ℕ) → contains u uids ≡ (in_chunks u chunks && box.has u))
  unfolding search_each contains
  found_each [] = ([], refl, λ u. refl)
  found_each (chunk ∷ rest) =
      let (uids, e, found) = serves.finds_uids chunk in
      let (more, e', found') = found_each rest in
      (
        uids ++ more,
        rw (e, e') refl,
        λ u. ground (arith, contains-append u uids more, found u, found' u),
      )

  pub drop_vanished-Turns :
      (u : ℕ) (x : Option (Row Content)) (vanished : List (ℕ × ℕ))
      → Turns u x
          (if in_vanished vanished u && not (box.has u) then none else x)
          (drop_vanished server vanished)
  unfolding drop_vanished
  drop_vanished-Turns u x vanished = reading-Turns u _ _ λ l e.
      let named = filter (in_vanished vanished) (list_uids l.rows) in
      let (still_there, searched, found) = found_each (chunks named) in
      let gone = filter (λ v. not (contains v still_there)) named in
      ask-Turns u _ searched (
        Turns-to u
          (elim (Option-cases x) [
            | inl missing ↦ rw (missing) (ground arith)
            | inr (r, present) ↦ ground (
              arith,
              in_chunks-chunks u gone,
              in_chunks-chunks u named,
              found u,
              contains-filter u (λ v. not (contains v still_there)) named,
              contains-filter u (in_vanished vanished) (list_uids l.rows),
              contains-list_uids u l.rows,
              e,
              present,
            )
          ])
          (delete_each-Turns u x (chunks gone)))

  pub sweep-Turns :
      (u : ℕ) (x : Option (Row Content))
      → Turns u x (Option.map (swept false) x) (sweep_trash_seen server)
  unfolding sweep_trash_seen
  sweep-Turns u x l e =
      let law = lookup-swept u false l.rows in
      elim (Bool-cases (is_empty (list_unread_uids l.rows))) [
        | inl quiet ↦
            ends tt (rw (quiet) refl) (
              rw (quiet) (sym (none_unread u false l.rows quiet) ∙ ap (Option.map (swept false)) e))
        | inr unread ↦ ends tt (rw (unread) refl) (
            rw (unread, serves.stores_seen (list_unread_uids l.rows))
              (law ∙ ap (Option.map (swept false)) e))
      ]
