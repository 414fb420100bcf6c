-- ===== src/Background/QuietHours.antt =====
-- crates/mailcore/src/store/account_settings/quiet_hours.rs: a daily window of local time. An
-- instant is a number of nanoseconds since the epoch, a local time one since the epoch's midnight,
-- a time of day one since midnight.
pub mod Changes
use mailclient.Base.{
  ℕ, ◌+◌, ◌-◌, ◌*◌, ◌/◌, ◌%◌, Bool, ◌&&◌, ◌||◌, Option, none, some, List, [], ◌∷◌, ltb, leb, ◌==◌,
  if◌then◌else◌,
}
use mailclient.Base.Order.{filter, minimum}

abbrev pub day : ℕ
day = 86400000000000

abbrev pub hour : ℕ
hour = 3600000000000

-- `chrono::LocalResult`
pub data LocalResult : Type 0 where
  single : ℕ → LocalResult
  ambiguous : ℕ → ℕ → LocalResult
  skipped : LocalResult

-- A time zone, as chrono asks it.
pub record TimeZone : Type 0 where
  pub naive_local : ℕ → ℕ
  pub from_local_datetime : ℕ → LocalResult

pub record QuietHours : Type 0 where
  pub start : ℕ
  pub end : ℕ

unfoldable pub contains : QuietHours → ℕ → Bool
contains q t =
    if leb q.start q.end then leb q.start t && ltb t q.end else leb q.start t || ltb t q.end

unfoldable pub contains_at : TimeZone → QuietHours → ℕ → Bool
unfolding contains
contains_at tz q now = contains q (tz.naive_local now % day)

unfoldable pub resolve : TimeZone → ℕ → ℕ
resolve tz at = elim (tz.from_local_datetime at) [
  | single t ↦ t
  | ambiguous t _ ↦ t
  | skipped ↦ elim (tz.from_local_datetime (at + hour)) [
    | single t ↦ t
    | ambiguous t _ ↦ t
    | skipped ↦ at
  ]
]

unfoldable pub next_change : TimeZone → QuietHours → ℕ → Option ℕ
unfolding resolve filter minimum
next_change tz q now =
    let local = tz.naive_local now in
    let today = (local / day) * day in
    let ahead =
      filter (λ at. ltb local at)
        ((today + q.start)
          ∷ (today + q.end)
          ∷ (today + day + q.start)
          ∷ (today + day + q.end)
          ∷ []) in
    if q.start == q.end
    then none
    else elim (minimum ahead) [ none ↦ none | some at ↦ some (resolve tz at) ]
