-- ===== src/Outbox/Schedule/Writes.antt =====
-- Everything that another process or the user may do to the outbox: the operations of
-- Outbox/Store/Steps.antt, the writes addressed to one row by its id, the failure of all due rows,
-- and the deletions. What a write leaves of a row, by the row alone.
pub mod Due
pub mod Stays
use mailclient.Base.{
  ℕ, suc, ◌≤◌, ◌≡◌, refl, String, Bool, true, false, ◌||◌, List, [], ◌∷◌, ◌==◌, map, arith, All,
  ◌⊎◌, inl, inr, Bool-cases, Option-cases, some, none,
}
use mailclient.Base.Results.{Result, ok, err, Result-cases}
use mailclient.Base.Table.{find_where, update_where, delete_where, select_where}
use mailclient.Base.Table.Laws.{find-update_where, find-delete_where, find_where-test}
use mailclient.Errors.{StoreError}
use mailclient.Outbox.Row.{QueuedSend, Outbox, has_id, stamp}
use mailclient.Outbox.Keys.{
  IsKeyed, Ascending, Change, same, next, updates, deletes, Change-trans, Change-IsKeyed,
  Change-absent, Change-next_id, find-delete_hit, found_below,
}
use mailclient.Outbox.Page.{dismissable, dismiss, delete_account}
use mailclient.Outbox.Store.{
  prune_sent, past_retention, update_raw_mime, mark_sent, mark_failed, discard_mime,
  fail_and_discard, delete, get,
}
use mailclient.Outbox.Store.Steps.{
  Op, claims, requeues, promotes, prunes, reschedules, sends_now, enqueues, schedules, step, Holds,
  update-Holds, touches, step-Holds, step-Change,
}
use mailclient.Outbox.Schedule.{fail_scheduled_attempt, due_attempt, fail_each, fail_due_scheduled}

pub data Write : Type 0 where
  does : Op → Write
  fails_due : ℕ → String → Write
  marks_sent : ℕ → Write
  marks_failed : ℕ → String → Write
  fails_attempt : ℕ → String → Bool → Write
  renews : ℕ → List ℕ → Write
  discards : ℕ → Write
  gives_up : ℕ → String → Write
  notices : ℕ → Write
  deletes_row : ℕ → Write
  dismisses : ℕ → ℕ → Write
  deletes_account : ℕ → Write

unfoldable pub write : ℕ → Write → Outbox → Outbox
write now (does op) o = step now op o
write now (fails_due account error) o = (fail_due_scheduled account error now o).0
write now (marks_sent id) o = (mark_sent id now o).0
write now (marks_failed id error) o = (mark_failed id error now o).0
write now (fails_attempt id error permanent) o = (fail_scheduled_attempt id error permanent now o).0
write now (renews id raw) o = update_raw_mime id raw now o
write now (discards id) o = discard_mime id now o
write now (gives_up id error) o = fail_and_discard id error now o
write now (notices id) o = record o {
  rows = update_where (has_id id) (λ r. record r { failure_noticed = true }) o.rows;
}
write now (deletes_row id) o = delete id o
write now (dismisses account id) o = (dismiss account id o).0
write now (deletes_account account) o = delete_account account o

unfoldable pub writes : List (ℕ × Write) → Outbox → Outbox
writes [] o = o
writes ((now, w) ∷ ws) o = writes ws (write now w o)

-- A write is not addressed by id to row `i`, unless to delete it.
abbrev pub Elsewhere : ℕ → Write → Type 0
Elsewhere i (marks_sent id) = (id == i) ≡ false
Elsewhere i (marks_failed id error) = (id == i) ≡ false
Elsewhere i (fails_attempt id error permanent) = (id == i) ≡ false
Elsewhere i (renews id raw) = (id == i) ≡ false
Elsewhere i (discards id) = (id == i) ≡ false
Elsewhere i (gives_up id error) = (id == i) ≡ false
Elsewhere i (notices id) = (id == i) ≡ false
Elsewhere i _ = Unit

-- Whether a write deletes this row.
abbrev pub removes : ℕ → Write → QueuedSend → Bool
removes now (does prunes) r = past_retention now r
removes now (deletes_row id) r = r.id == id
removes now (dismisses account id) r = dismissable account id r
removes now (deletes_account account) r = r.account_id == account
removes now _ r = false

-- Whether one of the writes deletes this row.
abbrev pub removed : QueuedSend → List (ℕ × Write) → Bool
removed r [] = false
removed r ((now, w) ∷ ws) = removes now w r || removed r ws

-- Whether a write changes this row without deleting it.
abbrev pub rewrites : ℕ → Write → QueuedSend → Bool
rewrites now (does prunes) r = false
rewrites now (does op) r = touches now op r
rewrites now (fails_due account error) r = due_attempt account (stamp now) r
rewrites now (marks_sent id) r = r.id == id
rewrites now (marks_failed id error) r = r.id == id
rewrites now (fails_attempt id error permanent) r = r.id == id
rewrites now (renews id raw) r = r.id == id
rewrites now (discards id) r = r.id == id
rewrites now (gives_up id error) r = r.id == id
rewrites now (notices id) r = r.id == id
rewrites now (deletes_row id) r = false
rewrites now (dismisses account id) r = false
rewrites now (deletes_account account) r = false
