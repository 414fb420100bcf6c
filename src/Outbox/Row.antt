-- ===== src/Outbox/Row.antt =====
-- A row of `send_queue` (crates/mailcore/src/models.rs, crates/mailcore/src/db/schema.sql) and the
-- clock. An instant is a number of nanoseconds since 1970; a stored time is text in one fixed
-- shape, whole seconds in UTC, which compares as its number of seconds does. Row ids and account
-- ids are rowids, which SQLite counts from 1.
use mailclient.Base.{
  ℕ, ◌*◌, ◌/◌, String, Bool, true, false, Option, none, some, List, [], ◌∷◌, ◌==◌, leb,
}

pub data QueueStatus : Type 0 where
  queued sending sent failed scheduled : QueueStatus

unfoldable pub as_str : QueueStatus → String
as_str queued = "queued"
as_str sending = "sending"
as_str sent = "sent"
as_str failed = "failed"
as_str scheduled = "scheduled"

pub record QueuedSend : Type 0 where
  pub id : ℕ
  pub account_id : ℕ
  pub message_id : Option ℕ
  pub status : QueueStatus
  pub last_error : Option String
  pub retries : ℕ
  pub raw_mime : Option (List ℕ)
  pub envelope_from : Option String
  pub envelope_to : List String
  pub created_at : ℕ
  pub updated_at : ℕ
  pub send_at : Option ℕ
  pub request_dsn : Bool
  pub notify_self : Bool
  pub next_attempt_at : Option ℕ
  -- A column that the store reads in SQL only.
  pub failure_noticed : Bool

-- The table, and the id that the next insert gets (`autoincrement`).
pub record Outbox : Type 0 where
  pub rows : List QueuedSend
  pub next_id : ℕ

abbrev pub nanos_per_sec : ℕ
nanos_per_sec = 1_000_000_000

-- `to_rfc3339_opts(SecondsFormat::Secs, true)`: fractions of a second are cut off.
abbrev pub stamp : ℕ → ℕ
stamp now = now / nanos_per_sec

-- `Duration::seconds`
abbrev pub seconds : ℕ → ℕ
seconds n = n * nanos_per_sec

-- `raw_mime is not null and length(raw_mime) > 0`
abbrev pub has_bytes : Option (List ℕ) → Bool
has_bytes none = false
has_bytes (some []) = false
has_bytes (some (b ∷ bs)) = true

-- `column <= t`, which a null fails.
abbrev pub reached : Option ℕ → ℕ → Bool
reached none t = false
reached (some a) t = leb a t

-- `column is null or column <= t`
abbrev pub null_or_reached : Option ℕ → ℕ → Bool
null_or_reached none t = true
null_or_reached (some a) t = leb a t

-- `column is not null`
abbrev pub is_some {ℓ} : {A : Type ℓ} → Option A → Bool
is_some none = false
is_some (some a) = true

abbrev pub has_id : ℕ → QueuedSend → Bool
has_id id r = r.id == id
