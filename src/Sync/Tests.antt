-- ===== src/Sync/Tests.antt =====
-- Tests of the session pool, and its theorems at inputs where their hypotheses hold.
use mailclient.Base.Table.{find_where}
use mailclient.Base.{ℕ, ◌≡◌, refl, String, some, none, List, [], ◌∷◌, arith, true, ◌⊎◌}
use mailclient.Base.Ints.{pos, negsuc}
use mailclient.Base.Results.{ok}
use mailclient.Sync.Pool.{
  Event, begins, connects, returns, evicts, take_session, pick, run, idle_jobs,
}
use mailclient.Sync.Pool.Reuse.{Since, evicted_not_reused}
use mailclient.Sync.Accounts.{
  Account, get_account, first_account, job_account, job_account-never_substitutes,
}

-- A session is checked in, another one is leased while the account is edited.
abbrev edited : List Event
edited =
    begins 1
    ∷ connects 0 true true
    ∷ begins 1
    ∷ connects 0 true true
    ∷ returns 1 true
    ∷ evicts 1
    ∷ returns 0 true
    ∷ []

abbrev reopened : List Event
reopened = evicts 1 ∷ begins 1 ∷ connects 0 true true ∷ returns 0 true ∷ []

edited_gone : (take_session 1 (run edited idle_jobs).pool).1.0 ≡ none
unfolding take_session run pick
edited_gone = refl

reopened_kept : (take_session 1 (run reopened idle_jobs).pool).1.0 ≡ some (record { opened = 1 })
unfolding take_session run pick
reopened_kept = refl

evicted_not_reused_example :
    Since ((run reopened idle_jobs).evictions 1) (take_session 1 (run reopened idle_jobs).pool).1.0
evicted_not_reused_example = evicted_not_reused reopened 1 (omega arith)

abbrev accounts : List (Account String)
accounts = record { id = 4; fields = "a" } ∷ record { id = 2; fields = "b" } ∷ []

job_account-never_substitutes_example :
    (pos 2 ≡ pos 2)
    ⊎ ((n : ℕ) × (pos 2 ≡ negsuc n)
        × (first_account accounts ≡ ok (record { id = 2; fields = "b" })))
unfolding job_account get_account find_where
job_account-never_substitutes_example =
    job_account-never_substitutes (pos 2) accounts (record { id = 2; fields = "b" }) refl
