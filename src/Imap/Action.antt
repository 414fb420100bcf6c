-- ===== src/Imap/Action.antt =====
-- A step of a sync, `async fn .. -> Result<T>` with `&Db`: it takes the cache and the row of one
-- folder and gives them with a result; an error ends the sync with what was written before it.
pub mod Leads
use mailclient.Base.{ℕ, ◌≡◌, refl, Bool, true, false, Option, List}
use mailclient.Base.Results.{Result, ok, err}
use mailclient.Errors.{StoreError}
use mailclient.Imap.Cache.{Row}

-- The columns of a folder's row that a sync reads or writes.
pub record Folder : Type 0 where
  pub is_trash : Bool
  pub uid_validity : Option ℕ
  pub uid_next : Option ℕ
  pub server_total : Option ℕ
  pub highest_modseq : ℕ

pub record Local (Content : Type 0) : Type 0 where
  pub rows : List (Row Content)
  pub folder : Folder

abbrev pub Sync : Type 0 → Type 0 → Type 0
Sync Content A = Local Content → Local Content × Result StoreError A

module _ {Content : Type 0} where
  infixl 5 ◌>>=◌ ◌>>◌
  unfoldable pub ◌>>=◌ : {A B : Type 0} → Sync Content A → (A → Sync Content B) → Sync Content B
  ◌>>=◌ m f l = let (l', result) = m l in elim result [ err e ↦ (l', err e) | ok a ↦ f a l' ]

  abbrev pub ◌>>◌ : {B : Type 0} → Sync Content (Unit {0}) → Sync Content B → Sync Content B
  m >> k = m >>= λ _. k

  -- A command to the server, and statements on the cache.
  unfoldable pub ask : {A : Type 0} → Result StoreError A → Sync Content A
  ask result l = (l, result)

  unfoldable pub reads : {A : Type 0} → (Local Content → A) → Sync Content A
  reads f l = (l, ok (f l))

  unfoldable pub writes : (List (Row Content) → List (Row Content)) → Sync Content (Unit {0})
  writes f l = (record l { rows = f l.rows }, ok tt)

  unfoldable pub when : Bool → Sync Content (Unit {0}) → Sync Content (Unit {0})
  when true m = m
  when false m = λ l. (l, ok tt)
