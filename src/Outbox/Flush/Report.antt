-- ===== src/Outbox/Flush/Report.antt =====
-- What a submission and a flush report, and what they leave of a row.
use mailclient.Base.{
  ℕ, zero, suc, ◌+◌, ◌≤◌, ◌≡◌, refl, Bool, true, false, Option, none, some, List, [], ◌∷◌, arith,
  String, Bool-cases, Option-cases, inl, inr, if◌then◌else◌, length,
}
use mailclient.Base.Results.{Result, ok, err, Result-cases}
use mailclient.Errors.{StoreError}
use mailclient.Outbox.DateHeader.{Bytes}
use mailclient.Outbox.Row.{QueuedSend}
use mailclient.Outbox.Store.{claim, get, enqueue_mime, list_submittable}
use mailclient.Outbox.Flush.{
  Smtp, Session, Submitted, Flushing, stored_bytes, row_envelope, submit_raw, submit_row,
  submit_loaded, outgoing, keep_outgoing, submit_claimed_via, send_self_receipt, flush_won,
  flush_row, flush_rows, prepare, flush_outbox, report,
}

-- The log after a submission of row `j` with this result.
abbrev logged : Result StoreError Submitted → ℕ → List ℕ → List ℕ
logged (ok submitted) j xs = j ∷ xs
logged (err e) j xs = xs

-- What a flush's report promises of the log before and after it.
abbrev pub Reports : Result StoreError ℕ → List ℕ → List ℕ → Type 0
Reports (ok n) before after = length before + n ≤ length after
Reports (err e) before after = after ≡ before

report-Reports :
    (n : ℕ) (first : Option StoreError) (before after : List ℕ)
    → length before + n ≤ length after
    → (n ≡ 0 → after ≡ before)
    → Reports (report n first) before after
report-Reports zero (some e) before after h h0 = h0 refl
report-Reports zero none before after h h0 = h
report-Reports (suc n) first before after h h0 = h

module _ {Address Envelope Connect Transport : Type 0}
    (server : Smtp Address Envelope Connect Transport) where
  row-logged :
      (j : ℕ) (row : QueuedSend) (raw : Bytes) (envelope : String × List String) (now : ℕ)
      (s : Session Transport)
      → (let (s', result) = submit_row server j row raw envelope now s in
          s'.accepted ≡ logged result j s.accepted)
  unfolding submit_row
  row-logged j row raw (from, to) now s =
      elim (Result-cases (submit_raw server from to raw row.request_dsn s.wire).1) [
        | inl (done, e) ↦ rw (e, submit_row) refl
        | inr (why, e) ↦ rw (e, submit_row) refl
      ]

  loaded-logged :
      (j : ℕ) (row : QueuedSend) (now : ℕ) (s : Session Transport)
      → (let (s', result) = submit_loaded server j row now s in
          s'.accepted ≡ logged result j s.accepted)
  unfolding submit_loaded
  loaded-logged j row now s = elim (Option-cases (stored_bytes row.raw_mime)) [
    | inl e ↦ rw (e, submit_loaded) refl
    | inr (raw, e) ↦ elim (Result-cases (row_envelope row)) [
      | inl (envelope, e') ↦
          rw (e, e', submit_loaded)
            (row-logged j row (outgoing server row raw now) envelope now
              (record s { outbox = keep_outgoing server j row raw now s.outbox }))
      | inr (why, e') ↦ rw (e, e', submit_loaded) refl
    ]
  ]

  submit-logged :
      (j now : ℕ) (s : Session Transport)
      → (let (s', result) = submit_claimed_via server j now s in
          s'.accepted ≡ logged result j s.accepted)
  unfolding submit_claimed_via
  submit-logged j now s = elim (Result-cases (get j s.outbox)) [
    | inl (row, e) ↦ rw (e, submit_claimed_via) (loaded-logged j row now s)
    | inr (why, e) ↦ rw (e, submit_claimed_via) refl
  ]

  -- A receipt adds to the log, or leaves it.
  receipt-logged :
      (account : ℕ) (row : QueuedSend) (now : ℕ) (s : Session Transport)
      → length s.accepted ≤ length (send_self_receipt server account row now s).accepted
  unfolding send_self_receipt
  receipt-logged account row now s =
      elim (Result-cases (server.self_receipt_mime server.own_address row)) [
        | inr (why, e) ↦ rw (e, send_self_receipt) (omega arith)
        | inl (raw, e) ↦
            (let own = server.own_address in
              let (o, id) = enqueue_mime account none raw own (own ∷ []) false now s.outbox in
              let s0 : Session Transport = record s { outbox = o } in
              let log = submit-logged id now s0 in
              elim (Result-cases (submit_claimed_via server id now s0).1) [
                | inl (done, e') ↦ rw (e, e', send_self_receipt) (ground arith)
                | inr (why, e') ↦ rw (e, e', send_self_receipt) (ground arith)
              ])
      ]

  -- What the loop's variables say of the log, which began as `xs`.
  abbrev Counted : List ℕ → Flushing server → Type 0
  Counted xs f =
      (length xs + f.sent_count ≤ length f.session.accepted)
      × (f.sent_count ≡ 0 → f.session.accepted ≡ xs)

  notified-logged :
      (account : ℕ) (row : QueuedSend) (now : ℕ) (notify : Bool) (s : Session Transport)
      → length s.accepted
        ≤ length (if notify then send_self_receipt server account row now s else s).accepted
  notified-logged account row now true s = receipt-logged account row now s
  notified-logged account row now false s = omega arith

  won-Counted :
      (account : ℕ) (row : QueuedSend) (now : ℕ) (xs : List ℕ) (f : Flushing server)
      → Counted xs f
      → Counted xs (flush_won server account row now f)
  unfolding flush_won
  won-Counted account row now xs f (bound, none_yet) =
      let s = f.session in
      let s' = (submit_claimed_via server row.id now s).0 in
      let log = submit-logged row.id now s in
      elim (Result-cases (submit_claimed_via server row.id now s).1) [
        | inr (why, e) ↦
            (let same : s'.accepted ≡ s.accepted = rw (log, e) refl in
              rw (e, flush_won) (rw (same) bound, λ z. rw (same) (none_yet z)))
        | inl (done, e) ↦
            (let more = notified-logged account row now row.notify_self s' in
              rw (e, flush_won) (ground arith, λ z. ground arith))
      ]

  row-Counted :
      (account : ℕ) (row : QueuedSend) (now : ℕ) (xs : List ℕ) (f : Flushing server)
      → Counted xs f
      → Counted xs (flush_row server account row now f)
  unfolding flush_row
  row-Counted account row now xs f h =
      let o = f.session.outbox in
      let s' : Session Transport = record f.session { outbox = (claim row.id now o).0 } in
      elim (Bool-cases (claim row.id now o).1) [
        | inr lost ↦ rw (lost, flush_row) h
        | inl won ↦
            rw (won, flush_row) (won-Counted account row now xs (record f { session = s' }) h)
      ]

  rows-Counted :
      (account : ℕ) (rows : List QueuedSend) (now : ℕ) (xs : List ℕ) (f : Flushing server)
      → Counted xs f
      → Counted xs (flush_rows server account rows now f)
  unfolding flush_rows
  rows-Counted account [] now xs f h = h
  rows-Counted account (row ∷ rows) now xs f h =
      rows-Counted account rows now xs (flush_row server account row now f)
        (row-Counted account row now xs f h)

  -- A flush that reports `n` sends had at least `n` messages accepted, receipts on top; a flush
  -- that reports an error had none accepted.
  pub flush-Reports :
      (account now : ℕ) (s : Session Transport)
      → (let (s', result) = flush_outbox server account now s in
          Reports result s.accepted s'.accepted)
  unfolding flush_outbox
  flush-Reports account now s =
      let o = prepare server account now s.outbox in
      let start : Session Transport = record s {
        outbox = o;
        wire = record { transport = none; attempts = s.wire.attempts };
      } in
      let f0 : Flushing server = record { session = start; sent_count = 0; first_error = none } in
      let rows = list_submittable account now o in
      let f = flush_rows server account rows now f0 in
      let (bound, none_yet) =
        rows-Counted account rows now s.accepted f0 (omega arith, λ z. refl) in
      report-Reports f.sent_count f.first_error s.accepted f.session.accepted bound none_yet
