-- ===== src/Outbox/Flush/Outcome.antt =====
-- What a submission leaves of its row.
use mailclient.Base.{
  ℕ, ◌+◌, ◌≡◌, refl, Bool, true, false, some, List, String, arith, inl, inr, if◌then◌else◌,
}
use mailclient.Base.Results.{Result, ok, err, Result-cases}
use mailclient.Base.Table.{find_where, update_where}
use mailclient.Base.Table.Laws.{find-update_where, find_where-test}
use mailclient.Errors.{StoreError}
use mailclient.Outbox.DateHeader.{Bytes}
use mailclient.Outbox.Row.{failed, QueuedSend, Outbox, has_id, is_some, stamp}
use mailclient.Outbox.Schedule.Backoff.{after_failure, attempt_outcome}
use mailclient.Outbox.Store.{get, mark_failed, update_raw_mime}
use mailclient.Outbox.Store.Final.{delivered, mark_sent-Holds}
use mailclient.Outbox.Store.Steps.{Holds}
use mailclient.Outbox.Flush.{
  Smtp, Session, Submitted, stored_bytes, row_envelope, submit_raw, submit_row, submit_loaded,
  outgoing, keep_outgoing, submit_claimed_via, record_failure, is_permanent,
}

set-Holds :
    (j : ℕ) (set : QueuedSend → QueuedSend) (o : Outbox) {r : QueuedSend}
    → ((x : QueuedSend) → (set x).id ≡ x.id)
    → Holds j r o
    → find_where (has_id j) (update_where (has_id j) set o.rows) ≡ some (set r)
set-Holds j set o {r} keep e =
    rw (find-update_where (has_id j) (has_id j) set o.rows (λ x. rw (keep x) refl), e)
      (ground (arith, find_where-test (has_id j) o.rows e))

if-Holds :
    (j : ℕ) (b : Bool) (x y : QueuedSend) (o o' : Outbox)
    → Holds j x o
    → Holds j y o'
    → Holds j (if b then x else y) (if b then o else o')
if-Holds j true x y o o' h h' = h
if-Holds j false x y o o' h h' = h'

module _ {Address Envelope Connect Transport : Type 0}
    (server : Smtp Address Envelope Connect Transport) where
  -- The row with the bytes that go out.
  abbrev kept : QueuedSend → Bytes → ℕ → QueuedSend
  kept row raw now =
      if is_some row.send_at
      then record row { raw_mime = some (outgoing server row raw now); updated_at = stamp now }
      else row

  -- A refused row: a scheduled send backs off or gives up, any other counts the failure.
  abbrev refused : Bool → QueuedSend → StoreError → ℕ → QueuedSend
  refused scheduled row e now =
      if scheduled
      then after_failure (server.to_string e) (is_permanent e) now row
      else record row {
        status = failed;
        last_error = some (server.to_string e);
        retries = row.retries + 1;
        updated_at = stamp now;
      }

  -- The row that a submission with this answer leaves.
  abbrev pub settled : QueuedSend → Bytes → ℕ → Result StoreError Submitted → QueuedSend
  settled row raw now (ok submitted) = delivered now (kept row raw now)
  settled row raw now (err e) = refused (is_some row.send_at) (kept row raw now) e now

  -- The answer with the bytes that went out.
  abbrev pub with_raw : Bytes → Result StoreError Submitted → Result StoreError Submitted
  with_raw raw (ok submitted) = ok (record submitted { raw = raw })
  with_raw raw (err e) = err e

  kept-Holds :
      (j : ℕ) (row : QueuedSend) (raw : Bytes) (now : ℕ) (o : Outbox)
      → Holds j row o
      → Holds j (kept row raw now) (keep_outgoing server j row raw now o)
  unfolding keep_outgoing update_raw_mime
  kept-Holds j row raw now o e =
      if-Holds j (is_some row.send_at) _ _ _ _ (set-Holds j _ o (λ x. refl) e) e

  refused-Holds :
      (j : ℕ) (orig row : QueuedSend) (e : StoreError) (now : ℕ) (o : Outbox)
      → Holds j row o
      → Holds j (refused (is_some orig.send_at) row e now) (record_failure server j orig e now o)
  unfolding record_failure mark_failed
  refused-Holds j orig row e now o h =
      if-Holds j (is_some orig.send_at) _ _ _ _
        (attempt_outcome j (server.to_string e) (is_permanent e) now o row h).1
        (set-Holds j _ o (λ x. refl) h)

  -- Of a row with bytes, a sender and recipients, a submission hands these to the server, with the
  -- date renewed if the row was scheduled. An accepted row is sent and has no bytes; a refused one
  -- is failed with one more failure counted, or backs off or gives up if it was scheduled.
  pub submit_outcome :
      (j now : ℕ) (s : Session Transport) (row : QueuedSend) (raw : Bytes) (from : String)
      (to : List String)
      → Holds j row s.outbox
      → stored_bytes row.raw_mime ≡ some raw
      → row_envelope row ≡ ok (from, to)
      → (let sent_raw = outgoing server row raw now in
          let answer = (submit_raw server from to sent_raw row.request_dsn s.wire).1 in
          let (s', result) = submit_claimed_via server j now s in
          Holds j (settled row raw now answer) s'.outbox × (result ≡ with_raw sent_raw answer))
  unfolding submit_claimed_via submit_loaded submit_row get
  submit_outcome j now s row raw from to e h v =
      let o = keep_outgoing server j row raw now s.outbox in
      let held = kept-Holds j row raw now s.outbox e in
      elim (Result-cases
        (submit_raw server from to (outgoing server row raw now) row.request_dsn s.wire).1) [
          | inl (done, a) ↦
              rw (e, h, v, a, submit_claimed_via, submit_loaded, submit_row, get)
                (mark_sent-Holds j now o held, refl)
          | inr (why, a) ↦
              rw (e, h, v, a, submit_claimed_via, submit_loaded, submit_row, get)
                (refused-Holds j row (kept row raw now) why now o held, refl)
        ]
