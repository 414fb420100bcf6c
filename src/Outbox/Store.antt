-- ===== src/Outbox/Store.antt =====
-- crates/mailcore/src/store/queue.rs: reading rows, inserting them, and every change of status
-- but the retries of scheduled sends (Outbox/Schedule.antt). Each operation takes the instant at
-- which it runs and returns the table that it leaves beside its result. A statement is taken to
-- succeed: errors of the database itself are not modelled.
pub mod Steps
pub mod Ownership
pub mod Final
pub mod Outcomes
pub mod Early
use mailclient.Base.{
  ℕ, suc, ◌+◌, ◌-◌, ◌*◌, String, Bool, true, false, not, ◌&&◌, ◌||◌, Option, none, some, List, [],
  ◌∷◌, ◌++◌, ◌==◌, ltb, leb, if◌then◌else◌,
}
use mailclient.Base.Results.{Result, ok, err}
use mailclient.Base.Table.{
  update_where, count_where, select_where, delete_where, find_where, order_by,
}
use mailclient.Errors.{StoreError, not_found, invalid_input, queue_entry, text}
use mailclient.Outbox.Row.{
  QueueStatus, queued, sending, sent, failed, scheduled, QueuedSend, Outbox, stamp, seconds,
  has_bytes, reached, null_or_reached, has_id,
}

abbrev pub max_send_retries : ℕ
max_send_retries = 5

abbrev pub sent_retention_days : ℕ
sent_retention_days = 30

abbrev pub stale_sending_minutes : ℕ
stale_sending_minutes = 30

abbrev pub schedule_lead_secs : ℕ
schedule_lead_secs = 60

-- Timestamp `days` before `now`.
abbrev pub days_ago : ℕ → ℕ → ℕ
days_ago days now = stamp (now - seconds (days * 86400))

-- `parsed` is what chrono read from the trimmed text, `none` for its refusal.
unfoldable pub normalize_future_send_at : Option ℕ → ℕ → Result StoreError ℕ
normalize_future_send_at none now = err (invalid_input (text "pick a valid date and time"))
normalize_future_send_at (some utc) now =
    if leb utc (now + seconds schedule_lead_secs)
    then err (invalid_input (text "pick a time at least a minute in the future"))
    else ok (stamp utc)

abbrev insert : QueuedSend → Outbox → Outbox × ℕ
insert row o = (record o { rows = o.rows ++ row ∷ []; next_id = suc o.next_id }, o.next_id)

pub record ScheduledMime : Type 0 where
  pub message_id : Option ℕ
  pub raw_mime : List ℕ
  pub envelope_from : String
  pub envelope_to : List String
  pub request_dsn : Bool
  pub notify_self : Bool
  pub send_at : Option ℕ

insert_scheduled : ℕ → ScheduledMime → ℕ → ℕ → Outbox → Outbox × ℕ
insert_scheduled account_id mime send_at now o =
    insert
      (record {
        id = o.next_id;
        account_id = account_id;
        message_id = mime.message_id;
        status = scheduled;
        last_error = none;
        retries = 0;
        raw_mime = some mime.raw_mime;
        envelope_from = some mime.envelope_from;
        envelope_to = mime.envelope_to;
        created_at = stamp now;
        updated_at = stamp now;
        send_at = some send_at;
        request_dsn = mime.request_dsn;
        notify_self = mime.notify_self;
        next_attempt_at = none;
        failure_noticed = false;
      })
      o

unfoldable pub enqueue_scheduled_mime :
    ℕ → ScheduledMime → ℕ → Outbox → Outbox × Result StoreError ℕ
unfolding insert_scheduled
enqueue_scheduled_mime account_id mime now o = elim (normalize_future_send_at mime.send_at now) [
  | err e ↦ (o, err e)
  | ok at ↦ (let (o', id) = insert_scheduled account_id mime at now o in (o', ok id))
]

-- The row is born `sending`: its caller owns it.
unfoldable pub enqueue_mime :
    ℕ → Option ℕ → List ℕ → String → List String → Bool → ℕ → Outbox → Outbox × ℕ
enqueue_mime account_id message_id raw_mime envelope_from envelope_to request_dsn now o =
    insert
      (record {
        id = o.next_id;
        account_id = account_id;
        message_id = message_id;
        status = sending;
        last_error = none;
        retries = 0;
        raw_mime = some raw_mime;
        envelope_from = some envelope_from;
        envelope_to = envelope_to;
        created_at = stamp now;
        updated_at = stamp now;
        send_at = none;
        request_dsn = request_dsn;
        notify_self = false;
        next_attempt_at = none;
        failure_noticed = false;
      })
      o

-- `status in ('queued', 'failed')`
abbrev pub unclaimed : QueueStatus → Bool
unclaimed queued = true
unclaimed failed = true
unclaimed _ = false

-- `status in ('scheduled', 'queued', 'failed')`
abbrev pub held : QueueStatus → Bool
held scheduled = true
held queued = true
held failed = true
held _ = false

abbrev pub is_sending : QueueStatus → Bool
is_sending sending = true
is_sending _ = false

abbrev pub is_queued : QueueStatus → Bool
is_queued queued = true
is_queued _ = false

abbrev pub is_scheduled : QueueStatus → Bool
is_scheduled scheduled = true
is_scheduled _ = false

abbrev pub is_sent : QueueStatus → Bool
is_sent sent = true
is_sent _ = false

abbrev pub is_failed : QueueStatus → Bool
is_failed failed = true
is_failed _ = false

-- `status in ('queued', 'sending', 'failed', 'scheduled')`
abbrev pub pending : QueueStatus → Bool
pending sent = false
pending _ = true

unfoldable pub list_pending : Outbox → List QueuedSend
list_pending o = order_by (λ r. r.created_at) (select_where (λ r. pending r.status) o.rows)

-- The `where` clause of `list_submittable`; `due` is the current second.
abbrev pub submittable : ℕ → ℕ → QueuedSend → Bool
submittable account_id due r =
    (r.account_id == account_id)
    && (unclaimed r.status
        && (has_bytes r.raw_mime
            && (ltb r.retries max_send_retries
                && (null_or_reached r.send_at due && null_or_reached r.next_attempt_at due))))

unfoldable pub list_submittable : ℕ → ℕ → Outbox → List QueuedSend
list_submittable account_id now o =
    order_by (λ r. r.created_at) (select_where (submittable account_id (stamp now)) o.rows)

unfoldable pub get : ℕ → Outbox → Result StoreError QueuedSend
get id o = elim (find_where (has_id id) o.rows) [
  | none ↦ err (not_found (queue_entry id))
  | some r ↦ ok r
]

abbrev claimable : ℕ → QueuedSend → Bool
claimable id r = (r.id == id) && unclaimed r.status

unfoldable pub claim : ℕ → ℕ → Outbox → Outbox × Bool
claim id now o = (
  record o {
    rows =
        update_where (claimable id) (λ r. record r { status = sending; updated_at = stamp now })
          o.rows;
  },
  count_where (claimable id) o.rows == 1,
)

-- The time before which an untouched `sending` row is an orphan.
abbrev pub stale_cutoff : ℕ → ℕ
stale_cutoff now = stamp (now - seconds (stale_sending_minutes * 60))

abbrev orphaned : ℕ → ℕ → QueuedSend → Bool
orphaned account_id cutoff r =
    is_sending r.status
    && ((r.account_id == account_id) && (ltb r.updated_at cutoff && has_bytes r.raw_mime))

abbrev bytes_lost : ℕ → ℕ → QueuedSend → Bool
bytes_lost account_id cutoff r =
    (r.account_id == account_id)
    && (not (has_bytes r.raw_mime)
        && (is_queued r.status || (is_sending r.status && ltb r.updated_at cutoff)))

unfoldable pub requeue_interrupted : ℕ → ℕ → Outbox → Outbox × ℕ
requeue_interrupted account_id now o =
    let requeued =
      update_where (orphaned account_id (stale_cutoff now))
        (λ (r : QueuedSend). record r { status = queued; updated_at = stamp now }) o.rows in
    (
      record o {
        rows =
            update_where (bytes_lost account_id (stale_cutoff now))
              (λ r. record r {
                status = failed;
                last_error = some "aborted or missing message bytes";
                updated_at = stamp now;
              })
              requeued;
      },
      count_where (orphaned account_id (stale_cutoff now)) o.rows,
    )

abbrev pub due_to_queue : ℕ → ℕ → QueuedSend → Bool
due_to_queue account_id due r =
    is_scheduled r.status
    && ((r.account_id == account_id) && (reached r.send_at due && has_bytes r.raw_mime))

unfoldable pub promote_due : ℕ → ℕ → Outbox → Outbox × ℕ
promote_due account_id now o = (
  record o {
    rows =
        update_where (due_to_queue account_id (stamp now))
          (λ r. record r { status = queued; updated_at = stamp now }) o.rows;
  },
  count_where (due_to_queue account_id (stamp now)) o.rows,
)

abbrev movable : ℕ → ℕ → QueuedSend → Bool
movable account_id id r =
    (r.id == id) && ((r.account_id == account_id) && (held r.status && has_bytes r.raw_mime))

-- Why a conditional update of row `id` touched nothing.
unchanged_reason : ℕ → ℕ → Outbox → StoreError
unfolding get
unchanged_reason account_id id o = elim (get id o) [
  | err e ↦ e
  | ok r ↦
      (if r.account_id == account_id
        then (if held r.status
            then invalid_input (text "this entry has no message data left; send it again by hand")
            else invalid_input (text "this entry is already being sent"))
        else not_found (text "outbox entry"))
]

-- `reschedule` once the time has been checked.
move_to : ℕ → ℕ → ℕ → ℕ → Outbox → Outbox × Result StoreError ℕ
unfolding unchanged_reason
move_to account_id id send_at now o =
    let o' : Outbox = record o {
      rows =
          update_where (movable account_id id)
            (λ r. record r {
              status = scheduled;
              send_at = some send_at;
              retries = 0;
              last_error = none;
              next_attempt_at = none;
              failure_noticed = false;
              updated_at = stamp now;
            })
            o.rows;
    } in
    (
      o',
      if count_where (movable account_id id) o.rows == 0
          then err (unchanged_reason account_id id o')
          else ok send_at,
    )

unfoldable pub reschedule : ℕ → ℕ → Option ℕ → ℕ → Outbox → Outbox × Result StoreError ℕ
unfolding move_to
reschedule account_id id parsed now o = elim (normalize_future_send_at parsed now) [
  | err e ↦ (o, err e)
  | ok at ↦ move_to account_id id at now o
]

unfoldable pub send_now : ℕ → ℕ → ℕ → Outbox → Outbox × Result StoreError (Unit {0})
unfolding unchanged_reason
send_now account_id id now o =
    let o' : Outbox = record o {
      rows =
          update_where (movable account_id id)
            (λ r. record r {
              status = queued;
              send_at = some (stamp now);
              retries = 0;
              last_error = none;
              next_attempt_at = none;
              failure_noticed = false;
              updated_at = stamp now;
            })
            o.rows;
    } in
    (
      o',
      if count_where (movable account_id id) o.rows == 0
          then err (unchanged_reason account_id id o')
          else ok tt,
    )

unfoldable pub update_raw_mime : ℕ → List ℕ → ℕ → Outbox → Outbox
update_raw_mime id raw now o = record o {
  rows =
      update_where (has_id id) (λ r. record r { raw_mime = some raw; updated_at = stamp now })
        o.rows;
}

-- An update of one row by id that reports a missing row.
abbrev update_or_missing :
    ℕ → (QueuedSend → QueuedSend) → Outbox → Outbox × Result StoreError (Unit {0})
update_or_missing id set o = (
  record o { rows = update_where (has_id id) set o.rows },
  if count_where (has_id id) o.rows == 0 then err (not_found (queue_entry id)) else ok tt,
)

unfoldable pub mark_sent : ℕ → ℕ → Outbox → Outbox × Result StoreError (Unit {0})
mark_sent id now o =
    update_or_missing id
      (λ r. record r { status = sent; last_error = none; raw_mime = none; updated_at = stamp now })
      o

unfoldable pub mark_failed : ℕ → String → ℕ → Outbox → Outbox × Result StoreError (Unit {0})
mark_failed id error now o =
    update_or_missing id
      (λ r. record r {
        status = failed;
        last_error = some error;
        retries = r.retries + 1;
        updated_at = stamp now;
      })
      o

unfoldable pub discard_mime : ℕ → ℕ → Outbox → Outbox
discard_mime id now o = record o {
  rows =
      update_where (has_id id) (λ r. record r { raw_mime = none; updated_at = stamp now }) o.rows;
}

-- `case when status = 'failed' and last_error is not null then last_error else ?1 end`
abbrev kept_error : QueueStatus → Option String → String → Option String
kept_error failed (some e) error = some e
kept_error _ _ error = some error

unfoldable pub fail_and_discard : ℕ → String → ℕ → Outbox → Outbox
fail_and_discard id error now o = record o {
  rows =
      update_where (has_id id)
        (λ r. record r {
          last_error = kept_error r.status r.last_error error;
          status = failed;
          raw_mime = none;
          updated_at = stamp now;
        })
        o.rows;
}

unfoldable pub delete : ℕ → Outbox → Outbox
delete id o = record o { rows = delete_where (has_id id) o.rows }

abbrev pub past_retention : ℕ → QueuedSend → Bool
past_retention now r = is_sent r.status && ltb r.updated_at (days_ago sent_retention_days now)

unfoldable pub prune_sent : ℕ → Outbox → Outbox × ℕ
prune_sent now o = (
  record o { rows = delete_where (past_retention now) o.rows },
  count_where (past_retention now) o.rows,
)
