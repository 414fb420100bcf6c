-- ===== src/Outbox/Flush/Once.antt =====
-- No message goes out twice: the ids that the server accepted, over any history of flushes and of
-- what the user does between them.
use mailclient.Base.{
  ℕ, suc, ◌≤◌, ◌≡◌, Bool, true, false, none, List, [], ◌∷◌, arith, Bool-cases, inl, inr,
  if◌then◌else◌,
}
use mailclient.Base.Results.{Result-cases}
use mailclient.Outbox.Keys.{IsKeyed, found_below, Change-next_id}
use mailclient.Outbox.Row.{QueuedSend}
use mailclient.Outbox.Store.{claim, enqueue_mime, delete, list_submittable}
use mailclient.Outbox.Store.Steps.{
  Op, claims, requeues, promotes, prunes, enqueues, step, run, claim-Holds,
}
use mailclient.Outbox.Flush.{
  Smtp, Session, Flushing, submit_claimed_via, send_self_receipt, flush_won, flush_row, flush_rows,
  prepare, flush_outbox,
}
use mailclient.Outbox.Flush.Spent.{Only-trans, delete-Only, delete-Spent}
use mailclient.Outbox.Flush.Logged.{
  Fresh, Distinct, Logged, with_outbox, claim-Fresh, next-Fresh, Logged-run, Logged-Outcome,
  submit_claimed-Outcome,
}

-- What happens to the outbox: a flush of an account, or an operation of Outbox/Store/Steps.antt, by
-- the user or by another process.
pub data Event : Type 0 where
  flushes : ℕ → ℕ → Event
  changes : ℕ → Op → Event

module _ {Address Envelope Connect Transport : Type 0}
    (server : Smtp Address Envelope Connect Transport) where
  unfoldable pub history : List Event → Session Transport → Session Transport
  history [] s = s
  history (flushes account now ∷ events) s = history events (flush_outbox server account now s).0
  history (changes now op ∷ events) s = history events (with_outbox (step now op s.outbox) s)

  submit-Logged :
      (j now : ℕ) (s : Session Transport)
      → Logged s
      → Fresh j s.accepted
      → suc j ≤ s.outbox.next_id
      → Logged (submit_claimed_via server j now s).0
  submit-Logged j now s log fresh room =
      Logged-Outcome j s (submit_claimed_via server j now s).0 log fresh
        (submit_claimed-Outcome server j now s room)

  delete-Logged :
      (j now : ℕ) (s : Session Transport)
      → Logged s
      → Fresh j s.accepted
      → suc j ≤ s.outbox.next_id
      → (let s' = (submit_claimed_via server j now s).0 in
          Logged (with_outbox (delete j s'.outbox) s'))
  delete-Logged j now s log fresh room =
      let s' = (submit_claimed_via server j now s).0 in
      let (c, logged) = submit_claimed-Outcome server j now s room in
      let c' = Only-trans j s.outbox s'.outbox (delete j s'.outbox) c (delete-Only j s'.outbox) in
      let gone = delete-Spent j s'.outbox (omega (arith, Change-next_id c.0)) in
      Logged-Outcome j s (with_outbox (delete j s'.outbox) s') log fresh
        (c', elim logged [ inl e ↦ inl e | inr (e, h) ↦ inr (e, gone) ])

  receipt-Logged :
      (account : ℕ) (row : QueuedSend) (now : ℕ) (s : Session Transport)
      → Logged s
      → Logged (send_self_receipt server account row now s)
  unfolding send_self_receipt enqueue_mime run step
  receipt-Logged account row now s log =
      elim (Result-cases (server.self_receipt_mime server.own_address row)) [
        | inr (why, e) ↦ rw (e, send_self_receipt) log
        | inl (raw, e) ↦
            (let own = server.own_address in
              let o = (enqueue_mime account none raw own (own ∷ []) false now s.outbox).0 in
              let log' =
                Logged-run ((now, enqueues account none raw own (own ∷ []) false) ∷ []) s log in
              let fresh = next-Fresh s.outbox s.accepted log.1 in
              elim (Result-cases
                (submit_claimed_via server s.outbox.next_id now (with_outbox o s)).1) [
                  | inl (done, e') ↦
                      rw (e, e', send_self_receipt)
                        (submit-Logged s.outbox.next_id now (with_outbox o s) log' fresh
                          (omega arith))
                  | inr (why, e') ↦
                      rw (e, e', send_self_receipt)
                        (delete-Logged s.outbox.next_id now (with_outbox o s) log' fresh
                          (omega arith))
                ])
      ]

  notified-Logged :
      (account : ℕ) (row : QueuedSend) (now : ℕ) (notify : Bool) (s : Session Transport)
      → Logged s
      → Logged (if notify then send_self_receipt server account row now s else s)
  notified-Logged account row now true s log = receipt-Logged account row now s log
  notified-Logged account row now false s log = log

  won-Logged :
      (account : ℕ) (row : QueuedSend) (now : ℕ) (f : Flushing server)
      → Logged f.session
      → Fresh row.id f.session.accepted
      → suc row.id ≤ f.session.outbox.next_id
      → Logged (flush_won server account row now f).session
  unfolding flush_won
  won-Logged account row now f log fresh room =
      let s' = (submit_claimed_via server row.id now f.session).0 in
      let log' = submit-Logged row.id now f.session log fresh room in
      elim (Result-cases (submit_claimed_via server row.id now f.session).1) [
        | inr (why, e) ↦ rw (e, flush_won) log'
        | inl (done, e) ↦
            rw (e, flush_won) (notified-Logged account row now row.notify_self s' log')
      ]

  row-Logged :
      (account : ℕ) (row : QueuedSend) (now : ℕ) (f : Flushing server)
      → Logged f.session
      → Logged (flush_row server account row now f).session
  unfolding flush_row run step
  row-Logged account row now f log =
      let o = f.session.outbox in
      let s' = with_outbox (claim row.id now o).0 f.session in
      let log' = Logged-run ((now, claims row.id) ∷ []) f.session log in
      elim (Bool-cases (claim row.id now o).1) [
        | inr lost ↦ rw (lost, flush_row) log'
        | inl won ↦
            (let (r, e, free, e') = claim-Holds row.id now o log.0 won in
              let room = found_below row.id s'.outbox.rows 0 s'.outbox.next_id log'.0 e' in
              let fresh = claim-Fresh row.id now o f.session.accepted log.0 won log.1 in
              rw (won, flush_row)
                (won-Logged account row now (record f { session = s' }) log' fresh room))
      ]

  rows-Logged :
      (account : ℕ) (rows : List QueuedSend) (now : ℕ) (f : Flushing server)
      → Logged f.session
      → Logged (flush_rows server account rows now f).session
  unfolding flush_rows
  rows-Logged account [] now f log = log
  rows-Logged account (row ∷ rows) now f log =
      rows-Logged account rows now (flush_row server account row now f)
        (row-Logged account row now f log)

  flush-Logged :
      (account now : ℕ) (s : Session Transport)
      → Logged s
      → Logged (flush_outbox server account now s).0
  unfolding flush_outbox prepare run step
  flush-Logged account now s log =
      let log' =
        Logged-run ((now, requeues account) ∷ (now, promotes account) ∷ (now, prunes) ∷ []) s log in
      rows-Logged account (list_submittable account now (prepare server account now s.outbox)) now _
        log'

  history-Logged :
      (events : List Event) (s : Session Transport) → Logged s → Logged (history events s)
  unfolding history run
  history-Logged [] s log = log
  history-Logged (flushes account now ∷ events) s log =
      history-Logged events (flush_outbox server account now s).0 (flush-Logged account now s log)
  history-Logged (changes now op ∷ events) s log =
      history-Logged events (with_outbox (step now op s.outbox) s)
        (Logged-run ((now, op) ∷ []) s log)

  -- No message is accepted twice: over any history of flushes, whatever the server answers, and of
  -- changes by the user between them, the ids of the accepted rows are distinct.
  pub never_accepted_twice :
      (events : List Event) (s : Session Transport)
      → IsKeyed s.outbox
      → s.accepted ≡ []
      → Distinct (history events s).accepted
  never_accepted_twice events s k e = (history-Logged events s (k, rw (e) tt, rw (e) tt)).2
