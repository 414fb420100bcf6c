-- ===== src/Sync/Accounts.antt =====
-- `resolve_account` and `job_account` of crates/mailcore/src/sync/pool.rs over the accounts in the
-- order of their names, as `accounts::list` reads them. An account is its id and whatever else it
-- has. A database that cannot be read is not modelled.
use mailclient.Base.{
  ℕ, ◌≡◌, refl, String, Bool, Option, none, some, List, [], ◌∷◌, ◌==◌, inl, inr, ◌⊎◌, ==_iff, ap,
  sym,
}
use mailclient.Base.Ints.{ℤ, pos, negsuc}
use mailclient.Base.Results.{Result, ok, err, ok_or}
use mailclient.Base.Table.{find_where}
use mailclient.Base.Table.Laws.{find_where-test}

pub record Account (Fields : Type 0) : Type 0 where
  pub id : ℕ
  pub fields : Fields

ok_or-some : {A : Type 0} (o : Option A) (e : String) (a : A) → ok_or o e ≡ ok a → o ≡ some a
ok_or-some none e a h = cc
ok_or-some (some b) e a h = (let same : b ≡ a = cc in ap some same)

module _ {Fields : Type 0} where
  abbrev pub has_account_id : ℕ → Account Fields → Bool
  has_account_id id a = a.id == id

  -- `accounts::get`
  unfoldable pub get_account : List (Account Fields) → ℕ → Option (Account Fields)
  get_account accounts id = find_where (has_account_id id) accounts

  unfoldable pub first_account : List (Account Fields) → Result String (Account Fields)
  first_account [] = err "no account — add one first"
  first_account (a ∷ accounts) = ok a

  unfoldable pub resolve_account : List (Account Fields) → ℤ → Result String (Account Fields)
  unfolding get_account first_account
  resolve_account accounts (negsuc n) = first_account accounts
  resolve_account accounts (pos id) = elim (get_account accounts id) [
    | none ↦ first_account accounts
    | some a ↦ ok a
  ]

  unfoldable pub job_account : List (Account Fields) → ℤ → Result String (Account Fields)
  unfolding resolve_account
  job_account accounts (negsuc n) = resolve_account accounts (negsuc n)
  job_account accounts (pos id) =
      ok_or (get_account accounts id) "the account was removed before this action could run"

  -- A job never runs for another account than the one that it was queued for: if it gets an
  -- account, that has the captured id, or nothing was selected and it is the first account.
  pub job_account-never_substitutes :
      (captured : ℤ) (accounts : List (Account Fields)) (a : Account Fields)
      → job_account accounts captured ≡ ok a
      → (captured ≡ pos a.id) ⊎ ((n : ℕ) × (captured ≡ negsuc n) × (first_account accounts ≡ ok a))
  unfolding job_account
  job_account-never_substitutes (negsuc n) accounts a h = inr (n, refl, h)
  job_account-never_substitutes (pos id) accounts a h = inl (
      ap pos (
        sym
          ((==_iff a.id id).0 (find_where-test (has_account_id id) accounts (ok_or-some _ _ a h)))))
