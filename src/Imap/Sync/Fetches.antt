-- ===== src/Imap/Sync/Fetches.antt =====
-- What the messages that the server tells make of the row of one UID.

use mailclient.Base.{
  ℕ, ◌≡◌, refl, ap, Bool, ◌&&◌, ◌||◌, Option, none, some, List, [], ◌∷◌, ◌==◌, if◌then◌else◌, arith,
  Bool-cases, inl, inr, ==_iff,
}
use mailclient.Base.Results.{Result, ok}
use mailclient.Errors.{StoreError}
use mailclient.Imap.Cache.{Row, NewMessage, lookup, upsert}
use mailclient.Imap.Cache.Lookup.{upserted, lookup-upsert}
use mailclient.Imap.Mailbox.{Mailbox, in_fetched, TellsMessages, Serves}
use mailclient.Imap.Server.{Fetched, Server, flag_state}
use mailclient.Imap.Sync.{new_message, store_messages, fetch_new}
use mailclient.Imap.Sync.Chunks.{in_chunks}
use mailclient.Imap.Sync.Loops.{
  Turns, >>=-Turns, ask-Turns, reads-Turns, writes-Turns, pure-Turns, Turns-to,
}

module _ {Content : Type 0} (u : ℕ) (box : Mailbox Content) where
  -- The message that a sync makes of what the server has under `u`.
  abbrev pub message : Bool → NewMessage Content
  message is_trash =
      let (read, starred, draft) = box.state u in
      record {
        uid = u;
        content = box.content u;
        is_read = is_trash || (read || draft);
        is_starred = starred;
        is_draft = draft;
      }

  abbrev pub stored : Bool → Option (Row Content) → Option (Row Content)
  stored is_trash x = some (upserted (message is_trash) x)

  pub stored_twice :
      (is_trash : Bool) (x : Option (Row Content))
      → stored is_trash (stored is_trash x) ≡ stored is_trash x
  stored_twice is_trash none = ground arith
  stored_twice is_trash (some r) = ground arith

module _ {Content Raw : Type 0} (u : ℕ) (server : Server Raw)
    (parse : ℕ → Raw → Result StoreError Content) (box : Mailbox Content) where
  told_message :
      (is_trash : Bool) (f : Fetched Raw)
      → flag_state f.flags ≡ box.state f.uid
      → parse f.uid f.raw ≡ ok (box.content f.uid)
      → new_message server parse is_trash f ≡ ok (message f.uid box is_trash)
  unfolding new_message
  told_message is_trash f flags content = rw (content, flags) refl

  lookup-stored :
      (is_trash : Bool) (uid : ℕ) (rows : List (Row Content))
      → lookup u (upsert (message uid box is_trash) rows)
        ≡ (if uid == u then stored u box is_trash (lookup u rows) else lookup u rows)
  lookup-stored is_trash uid rows =
      let law = lookup-upsert u (message uid box is_trash) rows in
      elim (Bool-cases (uid == u)) [
        | inl hit ↦
            ground
              (arith, law, ap (λ n. stored n box is_trash (lookup u rows)) ((==_iff uid u).0 hit))
        | inr miss ↦ ground (arith, law)
      ]

  store_messages-Turns :
      (x : Option (Row Content)) (is_trash : Bool) (fetched : List (Fetched Raw))
      → TellsMessages box parse fetched
      → Turns u x
          (if in_fetched u fetched then stored u box is_trash x else x)
          (store_messages server parse is_trash fetched)
  unfolding store_messages
  store_messages-Turns x is_trash [] tells = pure-Turns u
  store_messages-Turns x is_trash (f ∷ fetched) ((flags, content), tells) =
      let put : Option (Row Content) → Option (Row Content) =
        λ y. (if f.uid == u then stored u box is_trash y else y) in
      ask-Turns u _ (told_message is_trash f flags content) (
        >>=-Turns u (writes-Turns u _ put (lookup-stored is_trash f.uid)) λ _.
          >>=-Turns u
            (Turns-to u (ground (arith, stored_twice u box is_trash x))
              (store_messages-Turns (put x) is_trash fetched tells))
            λ _. reads-Turns u _)

  pub fetch_new-Turns :
      {uid_next : Option ℕ}
      → Serves server parse box uid_next
      → (x : Option (Row Content)) (is_trash : Bool) (uids : List (List ℕ))
      → Turns u x
          (if in_chunks u uids && box.has u then stored u box is_trash x else x)
          (fetch_new server parse is_trash uids)
  unfolding fetch_new
  fetch_new-Turns serves x is_trash [] = pure-Turns u
  fetch_new-Turns serves x is_trash (chunk ∷ rest) =
      let (fetched, e, tells, named) = serves.tells_messages chunk in
      let put : Option (Row Content) → Option (Row Content) =
        λ y. (if in_fetched u fetched then stored u box is_trash y else y) in
      ask-Turns u _ e (
        >>=-Turns u (store_messages-Turns x is_trash fetched tells) λ n.
          >>=-Turns u
            (Turns-to u (ground (arith, named u, stored_twice u box is_trash x))
              (fetch_new-Turns serves (put x) is_trash rest))
            λ m. reads-Turns u _)
