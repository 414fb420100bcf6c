-- ===== src/Imap/Toggles/Tests.antt =====
-- A toggle while a push runs.
use mathlib.Core.Option
use mailclient.Base.{ℕ, ◌≡◌, refl, Bool, true, false, List, [], ◌∷◌}
use mailclient.Base.Table.{update_where, select_where, find_where}
use mailclient.Imap.Toggles.{
  Message, Event, toggle, list, store, clear, pull, set_flags, list_flags_dirty, clear_flags_dirty,
  pull_flags, idle, run,
}
use mailclient.Imap.Toggles.Latest.{latest, flags_of, run-latest}
use mailclient.Imap.Toggles.Settled.{agrees, row}

abbrev unread : List Message
unread = record { id = 1; is_read = false; is_starred = false; flags_dirty = false } ∷ []

abbrev unseen : ℕ → Bool × Bool
unseen id = (false, false)

-- The mail is read, and made unread again before the push has cleared its row.
abbrev clicks : List Event
clicks = toggle 1 true false ∷ list ∷ store ∷ toggle 1 false false ∷ clear ∷ pull 1 ∷ []

stays_dirty :
    (run clicks (idle unread unseen)).rows
    ≡ record { id = 1; is_read = false; is_starred = false; flags_dirty = true } ∷ []
unfolding run set_flags update_where list_flags_dirty select_where clear_flags_dirty pull_flags
stays_dirty = refl

run-latest_example :
    (Option.map flags_of (row 1 (run clicks (idle unread unseen)).rows)
      ≡ Option.map (latest 1 clicks) (Option.map flags_of (row 1 unread)))
    × (agrees
          ((run clicks (idle unread unseen)).remote 1)
          (row 1 (run clicks (idle unread unseen)).rows)
        ≡ true)
unfolding find_where
run-latest_example = run-latest 1 clicks unread unseen refl refl
