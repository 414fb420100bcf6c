-- ===== src/Imap/Sync/Flags.antt =====
-- What the flags that the server tells make of the row of one UID.
use mathlib.Core.Option
use mailclient.Base.{
  ℕ, ◌≡◌, refl, ap, ◌∙◌, Bool, ◌&&◌, ◌||◌, Option, none, some, List, [], ◌∷◌, ◌==◌, if◌then◌else◌,
  arith, Bool-cases, inl, inr, ==_iff,
}
use mailclient.Base.Results.{Result}
use mailclient.Errors.{StoreError}
use mailclient.Imap.Cache.{Row, lookup, set_flags_by_uid}
use mailclient.Imap.Cache.Lookup.{refreshed, lookup-set_flags}
use mailclient.Imap.Mailbox.{Mailbox, in_answers, newer, TellsFlags, Serves}
use mailclient.Imap.Server.{Flag, Server, flag_state}
use mailclient.Imap.Sync.{apply_flags, refresh_flags}
use mailclient.Imap.Sync.Chunks.{in_chunks}
use mailclient.Imap.Sync.Loops.{Turns, >>=-Turns, ask-Turns, writes-Turns, pure-Turns, Turns-to}

module _ {Content : Type 0} (u : ℕ) (box : Mailbox Content) where
  -- A row with the flags of the server, and the row of `u` with those that the server has for it.
  abbrev with_flags : Bool → Bool × Bool × Bool → Row Content → Row Content
  with_flags is_trash (read, starred, draft) = refreshed ((read || is_trash) || draft) starred draft

  abbrev pub fresh_flags : Bool → Row Content → Row Content
  fresh_flags is_trash = with_flags is_trash (box.state u)

  fresh_flags_twice :
      (is_trash : Bool) (x : Option (Row Content))
      → Option.map (fresh_flags is_trash) (Option.map (fresh_flags is_trash) x)
        ≡ Option.map (fresh_flags is_trash) x
  fresh_flags_twice is_trash none = refl
  fresh_flags_twice is_trash (some r) = ground arith

  lookup-set_fresh :
      (is_trash : Bool) (uid : ℕ) (flags : List Flag) (rows : List (Row Content))
      → flag_state flags ≡ box.state uid
      → lookup u (
          set_flags_by_uid uid
            (((flag_state flags).0 || is_trash) || (flag_state flags).2)
            (flag_state flags).1
            (flag_state flags).2
            rows)
        ≡ (if uid == u then Option.map (fresh_flags is_trash) (lookup u rows) else lookup u rows)
  lookup-set_fresh is_trash uid flags rows told =
      let (read, starred, draft) = flag_state flags in
      let law = lookup-set_flags u uid ((read || is_trash) || draft) starred draft rows in
      elim (Bool-cases (uid == u)) [
        | inl hit ↦
            (let state : flag_state flags ≡ box.state u =
                told ∙ ap box.state ((==_iff uid u).0 hit) in
              ground
                (arith, law, ap (λ st. Option.map (with_flags is_trash st) (lookup u rows)) state))
        | inr miss ↦ ground (arith, law)
      ]

  lookup-apply_flags :
      (is_trash : Bool) (answers : List (ℕ × List Flag)) (rows : List (Row Content))
      → TellsFlags box answers
      → lookup u (apply_flags is_trash answers rows) ≡ (
          if in_answers u answers
          then Option.map (fresh_flags is_trash) (lookup u rows)
          else lookup u rows)
  unfolding apply_flags
  lookup-apply_flags is_trash [] rows tells = refl
  lookup-apply_flags is_trash ((uid, flags) ∷ answers) rows (told, tells) =
      let (read, starred, draft) = flag_state flags in
      let rows1 = set_flags_by_uid uid ((read || is_trash) || draft) starred draft rows in
      ground (
        arith,
        lookup-set_fresh is_trash uid flags rows told,
        lookup-apply_flags is_trash answers rows1 tells,
        fresh_flags_twice is_trash (lookup u rows),
      )

module _ {Content Raw : Type 0} (u : ℕ) (server : Server Raw)
    (parse : ℕ → Raw → Result StoreError Content) (box : Mailbox Content) {uid_next : Option ℕ}
    (serves : Serves server parse box uid_next) where
  pub refresh_flags-Turns :
      (x : Option (Row Content)) (is_trash : Bool) (since : ℕ) (uids : List (List ℕ))
      → Turns u x
          (if in_chunks u uids && (box.has u && newer box since u)
            then Option.map (fresh_flags u box is_trash) x
            else x)
          (refresh_flags server is_trash since uids)
  unfolding refresh_flags
  refresh_flags-Turns x is_trash since [] = pure-Turns u
  refresh_flags-Turns x is_trash since (chunk ∷ rest) =
      let (answers, e, tells, named) = serves.tells_flags chunk since in
      let fresh : Option (Row Content) → Option (Row Content) =
        λ y. (if in_answers u answers then Option.map (fresh_flags u box is_trash) y else y) in
      ask-Turns u _ e (
        >>=-Turns u
          (writes-Turns u _ fresh (λ rows. lookup-apply_flags u box is_trash answers rows tells))
          λ _.
            Turns-to u (ground (arith, named u, fresh_flags_twice u box is_trash x))
              (refresh_flags-Turns (fresh x) is_trash since rest))
