-- ===== src/Outbox/Flush/Tests.antt =====
-- Runs of flushes against a server that refuses the first submission it is handed.
use mailclient.Base.{
  ℕ, ◌*◌, ◌≡◌, refl, String, true, false, none, some, List, [], ◌∷◌, ◌==◌, arith, if◌then◌else◌,
}
use mailclient.Base.Results.{Result, ok, err}
use mailclient.Base.Text.{codes}
use mailclient.Base.Table.{find_where}
use mailclient.Errors.{StoreError, smtp}
use mailclient.Outbox.DateHeader.{refresh_date_header}
use mailclient.Outbox.Row.{QueuedSend, sending, nanos_per_sec}
use mailclient.Outbox.Store.{ScheduledMime}
use mailclient.Outbox.Store.Steps.{Holds, schedules}
use mailclient.Outbox.Flush.{
  Smtp, Session, Submitted, submit_claimed_via, outgoing, flush_outbox, row_envelope, submit_raw,
}
use mailclient.Outbox.Flush.Once.{Event, flushes, changes, history, never_accepted_twice}
use mailclient.Outbox.Flush.Logged.{Distinct}
use mailclient.Outbox.Flush.Report.{Reports, flush-Reports}
use mailclient.Outbox.Flush.Outcome.{settled, with_raw, submit_outcome}

abbrev Envelope : Type 0
Envelope = String × List String

abbrev server : Smtp String Envelope (Unit {0}) (Unit {0})
server = record {
  own_address = "me@example.com";
  parse_address = λ a. ok a;
  new_envelope = λ from to. ok (from, to);
  connect_params = ok tt;
  build_transport = ok tt;
  send_with_dsn = λ n connect envelope raw. ok true;
  send_raw = λ n transport envelope raw. if n == 0 then err (smtp false "busy") else ok tt;
  self_receipt_mime = λ own row. ok (codes "Subject: sent\n\nok");
  date = λ now. codes "Tue";
  to_string = λ e. "busy";
}

abbrev empty : Session (Unit {0})
empty = record {
  outbox = record { rows = []; next_id = 1 };
  wire = record { transport = none; attempts = 0 };
  accepted = [];
}

abbrev at : ℕ → ℕ
at seconds = seconds * nanos_per_sec

abbrev later_mail : ScheduledMime
later_mail = record {
  message_id = none;
  raw_mime = codes "Date: Mon\n\nhi";
  envelope_from = "me@example.com";
  envelope_to = "you@example.com" ∷ [];
  request_dsn = false;
  notify_self = true;
  send_at = some (at 5000);
}

-- Scheduled, flushed too early, refused, flushed during the pause, then delivered, flushed again.
abbrev events : List Event
events =
    changes (at 1000) (schedules 7 later_mail)
    ∷ flushes 7 (at 2000)
    ∷ flushes 7 (at 5000)
    ∷ flushes 7 (at 5001)
    ∷ flushes 7 (at 90_000)
    ∷ flushes 7 (at 90_001)
    ∷ []

never_accepted_twice_example : Distinct (history server events empty).accepted
never_accepted_twice_example = never_accepted_twice server events empty (omega arith) refl

flush-Reports_example :
    (let (s', result) = flush_outbox server 7 (at 5000) empty in Reports result [] s'.accepted)
flush-Reports_example = flush-Reports server 7 (at 5000) empty

abbrev own_row : QueuedSend
own_row = record {
  id = 1;
  account_id = 7;
  message_id = none;
  status = sending;
  last_error = none;
  retries = 0;
  raw_mime = some (codes "Date: Mon\n\nhi");
  envelope_from = some "me@example.com";
  envelope_to = "you@example.com" ∷ [];
  created_at = 1000;
  updated_at = 1000;
  send_at = some 5000;
  request_dsn = true;
  notify_self = false;
  next_attempt_at = none;
  failure_noticed = false;
}

abbrev own_session : Session (Unit {0})
own_session = record empty { outbox = record { rows = own_row ∷ []; next_id = 2 } }

submit_outcome_example :
    (let sent_raw = codes "Date: Tue\n\nhi" in
      let answer : Result StoreError Submitted =
        ok (record { dsn_unsupported = false; raw = [] }) in
      let (s', result) = submit_claimed_via server 1 (at 5000) own_session in
      Holds 1 (settled server own_row (codes "Date: Mon\n\nhi") (at 5000) answer) s'.outbox
      × (result ≡ with_raw server sent_raw answer))
unfolding find_where row_envelope submit_raw outgoing refresh_date_header
submit_outcome_example =
    submit_outcome server 1 (at 5000) own_session own_row (codes "Date: Mon\n\nhi") "me@example.com"
      ("you@example.com" ∷ []) refl refl refl
