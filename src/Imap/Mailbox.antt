-- ===== src/Imap/Mailbox.antt =====
-- A server that answers about one state of a mailbox: what a sync relies on, as RFC 3501 and RFC
-- 7162 document the commands.
use mailclient.Base.{ℕ, ◌≡◌, Bool, false, ◌&&◌, ◌||◌, Option, List, [], ◌∷◌, ltb, ◌==◌, All}
use mailclient.Base.Order.{contains}
use mailclient.Base.Results.{Result, ok}
use mailclient.Errors.{StoreError}
use mailclient.Imap.Search.Covers.{IsSearched}
use mailclient.Imap.Server.{Flag, Fetched, Server, flag_state}

-- For each UID: whether the mailbox has it, its flags (read, starred, draft), what the mail says
-- and the modseq of its last change.
pub record Mailbox (Content : Type 0) : Type 0 where
  pub has : ℕ → Bool
  pub state : ℕ → Bool × Bool × Bool
  pub content : ℕ → Content
  pub modseq : ℕ → ℕ

abbrev pub in_answers : ℕ → List (ℕ × List Flag) → Bool
in_answers u [] = false
in_answers u ((uid, flags) ∷ answers) = (uid == u) || in_answers u answers

abbrev pub in_fetched : {Raw : Type 0} → ℕ → List (Fetched Raw) → Bool
in_fetched u [] = false
in_fetched u (f ∷ fetched) = (f.uid == u) || in_fetched u fetched

-- What CHANGEDSINCE selects; without it, and with 0, all.
abbrev pub newer : {Content : Type 0} → Mailbox Content → ℕ → ℕ → Bool
newer box since u = (since == 0) || ltb since (box.modseq u)

abbrev pub TellsFlags : {Content : Type 0} → Mailbox Content → List (ℕ × List Flag) → Type 0
TellsFlags box answers =
    All (λ (answer : ℕ × List Flag). flag_state answer.1 ≡ box.state answer.0) answers

module _ {Content Raw : Type 0} (box : Mailbox Content)
    (parse : ℕ → Raw → Result StoreError Content) where
  abbrev pub TellsMessages : List (Fetched Raw) → Type 0
  TellsMessages fetched =
      All
        (λ (f : Fetched Raw).
          (flag_state f.flags ≡ box.state f.uid) × (parse f.uid f.raw ≡ ok (box.content f.uid)))
        fetched

pub record Serves {Content Raw : Type 0} (server : Server Raw)
    (parse : ℕ → Raw → Result StoreError Content) (box : Mailbox Content) (uid_next : Option ℕ)
    : Type 0 where
  pub searched : IsSearched server box.has uid_next
  pub finds_uids :
      (asked : List ℕ)
      → (uids : List ℕ) × (server.search_uids asked ≡ ok uids)
        × ((u : ℕ) → contains u uids ≡ (contains u asked && box.has u))
  pub tells_flags :
      (asked : List ℕ) (since : ℕ)
      → (answers : List (ℕ × List Flag)) × (server.fetch_flags asked since ≡ ok answers)
        × TellsFlags box answers
        × ((u : ℕ) → in_answers u answers ≡ (contains u asked && (box.has u && newer box since u)))
  pub tells_messages :
      (asked : List ℕ)
      → (fetched : List (Fetched Raw)) × (server.fetch_messages asked ≡ ok fetched)
        × TellsMessages box parse fetched
        × ((u : ℕ) → in_fetched u fetched ≡ (contains u asked && box.has u))
  pub stores_seen : (uids : List ℕ) → server.store_seen uids ≡ ok tt
