-- ===== src/Outbox/Schedule/Writes/Stays.antt =====
-- What any sequence of writes leaves of a row that none of them rewrites.
use mailclient.Base.{
  ℕ, suc, ◌≤◌, ◌≡◌, refl, Bool, true, false, ◌||◌, List, [], ◌∷◌, ◌==◌, arith, All, ◌⊎◌, inl, inr,
  Bool-cases,
}
use mailclient.Base.Table.{delete_where}
use mailclient.Base.Table.Laws.{find-delete_where}
use mailclient.Outbox.Row.{QueuedSend, Outbox, has_id}
use mailclient.Outbox.Keys.{
  IsKeyed, Change, same, next, updates, deletes, Change-trans, Change-IsKeyed, Change-absent,
  Change-next_id, find-delete_hit, found_below,
}
use mailclient.Outbox.Page.{dismissable, dismiss, delete_account}
use mailclient.Outbox.Store.{
  prune_sent, past_retention, update_raw_mime, mark_sent, mark_failed, discard_mime,
  fail_and_discard, delete,
}
use mailclient.Outbox.Store.Steps.{
  Op, claims, requeues, prunes, step, Holds, Absent, update-Holds, step-Holds, step-Change,
}
use mailclient.Outbox.Schedule.Writes.{
  Write, does, fails_due, marks_sent, marks_failed, fails_attempt, renews, discards, gives_up,
  notices, deletes_row, dismisses, deletes_account, write, writes, removes, removed, rewrites,
}
use mailclient.Outbox.Schedule.Writes.Due.{attempt-Change, attempt-Holds, due-Change, due-Holds}

pub write-Change : (now : ℕ) (w : Write) (o : Outbox) → Change o (write now w o)
unfolding write update_raw_mime mark_sent mark_failed discard_mime fail_and_discard delete dismiss
    delete_account
write-Change now (does op) o = step-Change now op o
write-Change now (fails_due account error) o = due-Change account error now o
write-Change now (marks_sent id) o = next same (updates (has_id id) _ (λ r. refl))
write-Change now (marks_failed id error) o = next same (updates (has_id id) _ (λ r. refl))
write-Change now (fails_attempt id error permanent) o = attempt-Change id error permanent now o
write-Change now (renews id raw) o = next same (updates (has_id id) _ (λ r. refl))
write-Change now (discards id) o = next same (updates (has_id id) _ (λ r. refl))
write-Change now (gives_up id error) o = next same (updates (has_id id) _ (λ r. refl))
write-Change now (notices id) o = next same (updates (has_id id) _ (λ r. refl))
write-Change now (deletes_row id) o = next same (deletes (has_id id))
write-Change now (dismisses account id) o = next same (deletes (dismissable account id))
write-Change now (deletes_account account) o = next same (deletes (λ r. r.account_id == account))

pub writes-Change : (ws : List (ℕ × Write)) (o : Outbox) → Change o (writes ws o)
unfolding writes
writes-Change [] o = same
writes-Change ((now, w) ∷ ws) o =
    Change-trans (write-Change now w o) (writes-Change ws (write now w o))

-- The row is as it was, or one of the deletions met it.
abbrev pub Stays : ℕ → QueuedSend → Bool → Outbox → Type 0
Stays i r gone o = Holds i r o ⊎ ((gone ≡ true) × Absent i o)

delete-Stays :
    (i : ℕ) (test : QueuedSend → Bool) (o : Outbox) (r : QueuedSend)
    → IsKeyed o
    → Holds i r o
    → Stays i r (test r) (record o { rows = delete_where test o.rows })
delete-Stays i test o r k e = elim (Bool-cases (test r)) [
  | inl hit ↦ inr (hit, find-delete_hit i test o.rows 0 o.next_id k e hit)
  | inr miss ↦ inl (find-delete_where (has_id i) test o.rows e miss)
]

step-Stays :
    (i now : ℕ) (op : Op) (o : Outbox) (r : QueuedSend)
    → IsKeyed o
    → Holds i r o
    → rewrites now (does op) r ≡ false
    → Stays i r (removes now (does op) r) (step now op o)
unfolding step prune_sent
step-Stays i now prunes o r k e h = delete-Stays i (past_retention now) o r k e
step-Stays i now (claims id) o r k e h = inl (step-Holds i now (claims id) o r h e)
step-Stays i now (requeues account) o r k e h = inl (step-Holds i now (requeues account) o r h e)
step-Stays i now op o r k e h = inl (step-Holds i now op o r h e)

write-Stays :
    (i now : ℕ) (w : Write) (o : Outbox) (r : QueuedSend)
    → IsKeyed o
    → Holds i r o
    → rewrites now w r ≡ false
    → Stays i r (removes now w r) (write now w o)
unfolding write update_raw_mime mark_sent mark_failed discard_mime fail_and_discard delete dismiss
    delete_account
write-Stays i now (does op) o r k e h = step-Stays i now op o r k e h
write-Stays i now (fails_due account error) o r k e h =
    inl (due-Holds i account error now o r k e h)
write-Stays i now (marks_sent id) o r k e h =
    inl (update-Holds i (has_id id) _ o.rows (λ x. refl) e h)
write-Stays i now (marks_failed id error) o r k e h =
    inl (update-Holds i (has_id id) _ o.rows (λ x. refl) e h)
write-Stays i now (fails_attempt id error permanent) o r k e h =
    inl (attempt-Holds i id error permanent now o r h e)
write-Stays i now (renews id raw) o r k e h =
    inl (update-Holds i (has_id id) _ o.rows (λ x. refl) e h)
write-Stays i now (discards id) o r k e h =
    inl (update-Holds i (has_id id) _ o.rows (λ x. refl) e h)
write-Stays i now (gives_up id error) o r k e h =
    inl (update-Holds i (has_id id) _ o.rows (λ x. refl) e h)
write-Stays i now (notices id) o r k e h = inl (update-Holds i (has_id id) _ o.rows (λ x. refl) e h)
write-Stays i now (deletes_row id) o r k e h = delete-Stays i (has_id id) o r k e
write-Stays i now (dismisses account id) o r k e h = delete-Stays i (dismissable account id) o r k e
write-Stays i now (deletes_account account) o r k e h =
    delete-Stays i (λ r. r.account_id == account) o r k e

pub writes-Absent :
    (i : ℕ) (ws : List (ℕ × Write)) (o : Outbox)
    → suc i ≤ o.next_id
    → Absent i o
    → Absent i (writes ws o)
writes-Absent i ws o room gone = Change-absent i (writes-Change ws o) room gone

either_removes :
    (i : ℕ) (r : QueuedSend) (a b : Bool) (o : Outbox) → Stays i r b o → Stays i r (a || b) o
either_removes i r a b o (inl e) = inl e
either_removes i r a b o (inr (gone, e)) = inr (ground arith, e)

-- Writes none of which rewrites the row leave it as it is, or delete it.
pub writes-Stays :
    (i : ℕ) (ws : List (ℕ × Write)) (o : Outbox) (r : QueuedSend)
    → IsKeyed o
    → Holds i r o
    → All (λ p. rewrites p.0 p.1 r ≡ false) ws
    → Stays i r (removed r ws) (writes ws o)
unfolding writes
writes-Stays i [] o r k e h = inl e
writes-Stays i ((now, w) ∷ ws) o r k e (h, hs) =
    let change = write-Change now w o in
    let room = found_below i o.rows 0 o.next_id k e in
    elim (write-Stays i now w o r k e h) [
      | inl e' ↦
          either_removes i r (removes now w r) (removed r ws) (writes ws (write now w o))
            (writes-Stays i ws (write now w o) r (Change-IsKeyed change k) e' hs)
      | inr (hit, gone) ↦ inr (
        ground arith,
        writes-Absent i ws (write now w o) (omega (arith, Change-next_id change)) gone,
      )
    ]
