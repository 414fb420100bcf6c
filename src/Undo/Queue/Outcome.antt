-- ===== src/Undo/Queue/Outcome.antt =====
-- Which messages an action hides, and that undo shows them again.
use mailclient.Base.{
  ℕ, ◌+◌, ◌≡◌, refl, sym, ap, ◌∙◌, Bool, true, false, not, ◌&&◌, ◌||◌, List, [], ◌∷◌, ◌==◌, length,
  map, arith, inl, inr,
}
use mailclient.Base.Order.{sort, dedup, dedup_from, contains}
use mailclient.Base.Membership.{contains-append, contains-sort}
use mailclient.Base.Results.{Result, ok, err, Result-cases}
use mailclient.Base.Table.{select_where, order_by}
use mailclient.Base.Table.Laws.{contains-order_by}
use mailclient.Imap.Sync.{chunks_from}
use mailclient.Imap.Sync.Chunks.{in_chunks, in_chunks-chunks_from}
use mailclient.Outbox.Row.{stamp, seconds}
use mailclient.Undo.Moves.{Pending, is_hidden, any_row}
use mailclient.Undo.Moves.Restore.{elsewhere, queue-hidden, queue-elsewhere}
use mailclient.Undo.Queue.{
  Mail, Message, MoveTarget, QueueError, Share, pending_share, permanent, already_there, Course,
  goes, stops, of_chunk, ids_of_chunks, ids_by_uids, insert_rows, course_of, queue_into,
}

unfoldable pub any_message : (Message → Bool) → List Message → Bool
any_message test [] = false
any_message test (x ∷ xs) = test x || any_message test xs

-- The cached message `m` of the folder has one of the UIDs.
abbrev pub is_of : ℕ → ℕ → List ℕ → Message → Bool
is_of m folder_id uids x = (x.id == m) && ((x.folder_id == folder_id) && contains x.uid uids)

contains-dedup_from :
    (a x : ℕ) (xs : List ℕ) → contains a (x ∷ dedup_from x xs) ≡ contains a (x ∷ xs)
unfolding contains dedup_from
contains-dedup_from a x [] = refl
contains-dedup_from a x (y ∷ ys) = ground (arith, contains-dedup_from a y ys)

contains-dedup : (a : ℕ) (xs : List ℕ) → contains a (dedup xs) ≡ contains a xs
unfolding dedup
contains-dedup a [] = refl
contains-dedup a (x ∷ xs) = contains-dedup_from a x xs

contains-select_where :
    (m folder_id : ℕ) (chunk : List ℕ) (rows : List Message)
    → contains m (map (λ (x : Message). x.id) (select_where (of_chunk folder_id chunk) rows))
      ≡ any_message (is_of m folder_id chunk) rows
unfolding contains select_where any_message of_chunk
contains-select_where m folder_id chunk [] = refl
contains-select_where m folder_id chunk (x ∷ rows) =
    ground (arith, contains-select_where m folder_id chunk rows)

any-either :
    (m folder_id : ℕ) (chunk : List ℕ) (others : List (List ℕ)) (rows : List Message)
    → (any_message (is_of m folder_id chunk) rows
        || any_message
            (λ x. (x.id == m) && ((x.folder_id == folder_id) && in_chunks x.uid others))
            rows)
      ≡ any_message
          (λ x. (x.id == m) && ((x.folder_id == folder_id) && in_chunks x.uid (chunk ∷ others)))
          rows
unfolding any_message
any-either m folder_id chunk others [] = refl
any-either m folder_id chunk others (x ∷ rows) =
    ground (arith, any-either m folder_id chunk others rows)

any-never :
    (m folder_id : ℕ) (rows : List Message)
    → any_message (λ x. (x.id == m) && ((x.folder_id == folder_id) && false)) rows ≡ false
unfolding any_message
any-never m folder_id [] = refl
any-never m folder_id (x ∷ rows) = ground (arith, any-never m folder_id rows)

contains-ids_of_chunks :
    (m folder_id : ℕ) (rows : List Message) (chunks : List (List ℕ))
    → contains m (ids_of_chunks folder_id rows chunks)
      ≡ any_message
          (λ x. (x.id == m) && ((x.folder_id == folder_id) && in_chunks x.uid chunks))
          rows
unfolding ids_of_chunks contains
contains-ids_of_chunks m folder_id rows [] = sym (any-never m folder_id rows)
contains-ids_of_chunks m folder_id rows (chunk ∷ rest) =
    rw
      (
        contains-append m
            (map (λ (x : Message). x.id)
              (order_by (λ (x : Message). x.uid) (select_where (of_chunk folder_id chunk) rows)))
            (ids_of_chunks folder_id rows rest),
        contains-order_by (λ (x : Message). x.uid) (λ (x : Message). x.id) m
            (select_where (of_chunk folder_id chunk) rows),
        contains-select_where m folder_id chunk rows,
        contains-ids_of_chunks m folder_id rows rest,
      )
      (any-either m folder_id chunk rest rows)

any-same :
    (f g : Message → Bool) (rows : List Message)
    → ((x : Message) → f x ≡ g x)
    → any_message f rows ≡ any_message g rows
unfolding any_message
any-same f g [] same = refl
any-same f g (x ∷ rows) same = rw (same x, any-same f g rows same) refl

-- The ids are those of the folder's messages with these UIDs.
pub contains-ids_by_uids :
    (m folder_id : ℕ) (uids : List ℕ) (rows : List Message)
    → contains m (ids_by_uids folder_id uids rows) ≡ any_message (is_of m folder_id uids) rows
unfolding ids_by_uids
contains-ids_by_uids m folder_id uids rows =
    let clean = dedup (sort uids) in
    contains-ids_of_chunks m folder_id rows (chunks_from (length clean) 900 clean)
    ∙ any-same _ (is_of m folder_id uids) rows (λ x.
      ap (λ b. (x.id == m) && ((x.folder_id == folder_id) && b))
        (in_chunks-chunks_from x.uid (length clean) 899 clean (omega arith)
          ∙ contains-dedup x.uid (sort uids)
          ∙ contains-sort x.uid uids))

abbrev pub is_goes : Course → Bool
is_goes (goes action dest place) = true
is_goes (stops share) = false

-- Whether a target leads somewhere from the folder.
abbrev pub leads : Result QueueError Course → Bool
leads (err e) = false
leads (ok way) = is_goes way

-- The message is one that the action on the folder moves.
abbrev pub taken : Mail → ℕ → MoveTarget → ℕ → ℕ × List ℕ → Bool
taken db account_id target m (folder_id, uids) =
    leads (course_of db account_id folder_id uids target)
    && any_message (is_of m folder_id uids) db.messages

-- What an action does to the rows for a message, when it takes it or not.
pub record Effect (m batch : ℕ) (hit : Bool) (rows rows' : Pending) : Type 0 where
  pub hides : is_hidden m rows' ≡ (is_hidden m rows || hit)
  pub keeps : any_row (elsewhere m batch) rows' ≡ (any_row (elsewhere m batch) rows && not hit)

pub nothing-Effect : (m batch : ℕ) (rows : Pending) → Effect m batch false rows rows
nothing-Effect m batch rows = record { hides = ground arith; keeps = ground arith }

pub Effect-trans :
    {m batch : ℕ} {a b : Bool} {rows rows' rows'' : Pending}
    → Effect m batch a rows rows'
    → Effect m batch b rows' rows''
    → Effect m batch (a || b) rows rows''
Effect-trans e e' = record {
  hides = ground (arith, e.hides, e'.hides);
  keeps = ground (arith, e.keeps, e'.keeps);
}

insert_rows-Effect :
    (m : ℕ) (rows : Pending) (ids : List ℕ) (way : Course) (batch grace_secs now : ℕ)
    (share : Share)
    → (insert_rows rows ids way batch grace_secs now).1 ≡ ok share
    → Effect m batch
        (is_goes way && contains m ids)
        rows
        (insert_rows rows ids way batch grace_secs now).0
unfolding insert_rows
insert_rows-Effect m rows ids (stops s) batch grace_secs now share e = nothing-Effect m batch rows
insert_rows-Effect m rows [] (goes action dest place) batch grace_secs now share e = cc
insert_rows-Effect m rows (id ∷ ids) (goes action dest place) batch grace_secs now share e =
    (let due = stamp (now + seconds grace_secs) in
      record {
        hides = queue-hidden m (id ∷ ids) action dest batch due (stamp now) rows;
        keeps = queue-elsewhere m (id ∷ ids) action dest batch due (stamp now) rows;
      })

insert_rows-err :
    (rows : Pending) (ids : List ℕ) (way : Course) (batch grace_secs now : ℕ) (x : QueueError)
    → (insert_rows rows ids way batch grace_secs now).1 ≡ err x
    → (insert_rows rows ids way batch grace_secs now).0 ≡ rows
unfolding insert_rows
insert_rows-err rows ids (stops s) batch grace_secs now x e = refl
insert_rows-err rows [] (goes action dest place) batch grace_secs now x e = refl
insert_rows-err rows (id ∷ ids) (goes action dest place) batch grace_secs now x e = cc

abbrev pub is_pending : Share → Bool
is_pending (pending_share n action place) = true
is_pending _ = false

insert_rows-still :
    (rows : Pending) (ids : List ℕ) (way : Course) (batch grace_secs now : ℕ) (share : Share)
    → is_pending share ≡ false
    → (insert_rows rows ids way batch grace_secs now).1 ≡ ok share
    → (insert_rows rows ids way batch grace_secs now).0 ≡ rows
unfolding insert_rows
insert_rows-still rows ids (stops s) batch grace_secs now share still e = refl
insert_rows-still rows [] (goes action dest place) batch grace_secs now share still e = refl
insert_rows-still rows (id ∷ ids) (goes action dest place) batch grace_secs now
      (pending_share n a p) still e =
    cc
insert_rows-still rows (id ∷ ids) (goes action dest place) batch grace_secs now permanent still e =
    cc
insert_rows-still rows (id ∷ ids) (goes action dest place) batch grace_secs now already_there still
      e =
    cc

pub err_ok : {A : Type 0} {x : QueueError} {a : A} → err x ≡ ok a → ⊥
err_ok e = cc

module _ (db : Mail) (rows : Pending) (account_id folder_id : ℕ) (uids : List ℕ)
    (target : MoveTarget) (batch grace_secs now : ℕ) where
  queue_into-way :
      (way : Course)
      → course_of db account_id folder_id uids target ≡ ok way
      → queue_into db rows account_id folder_id uids target batch grace_secs now
        ≡ insert_rows rows (ids_by_uids folder_id uids db.messages) way batch grace_secs now
  unfolding queue_into
  queue_into-way way e = rw (queue_into, e) refl

  queue_into-refused :
      (x : QueueError)
      → course_of db account_id folder_id uids target ≡ err x
      → queue_into db rows account_id folder_id uids target batch grace_secs now ≡ (rows, err x)
  unfolding queue_into
  queue_into-refused x e = rw (queue_into, e) refl

  -- A share that is queued, permanent or already there.
  pub queue_into-Effect :
      (m : ℕ) (share : Share)
      → (queue_into db rows account_id folder_id uids target batch grace_secs now).1 ≡ ok share
      → Effect m batch
          (taken db account_id target m (folder_id, uids))
          rows
          (queue_into db rows account_id folder_id uids target batch grace_secs now).0
  queue_into-Effect m share e =
      elim (Result-cases (course_of db account_id folder_id uids target)) [
        | inr (x, bad) ↦ absurd (err_ok (rw (queue_into-refused x bad) at e))
        | inl (way, found) ↦
            (let ids = ids_by_uids folder_id uids db.messages in
              let same : contains m ids ≡ any_message (is_of m folder_id uids) db.messages =
                contains-ids_by_uids m folder_id uids db.messages in
              rw (queue_into-way way found, found, sym same)
                (insert_rows-Effect m rows ids way batch grace_secs now share
                  (rw (queue_into-way way found) at e)))
      ]

  -- A refusal changes nothing.
  pub queue_into-err :
      (x : QueueError)
      → (queue_into db rows account_id folder_id uids target batch grace_secs now).1 ≡ err x
      → (queue_into db rows account_id folder_id uids target batch grace_secs now).0 ≡ rows
  queue_into-err x e = elim (Result-cases (course_of db account_id folder_id uids target)) [
    | inr (y, bad) ↦ rw (queue_into-refused y bad) refl
    | inl (way, found) ↦ rw (queue_into-way way found) (
        insert_rows-err rows (ids_by_uids folder_id uids db.messages) way batch grace_secs now x
          (rw (queue_into-way way found) at e))
  ]

  -- Only a share that is queued changes the rows.
  pub queue_into-still :
      (share : Share)
      → is_pending share ≡ false
      → (queue_into db rows account_id folder_id uids target batch grace_secs now).1 ≡ ok share
      → (queue_into db rows account_id folder_id uids target batch grace_secs now).0 ≡ rows
  queue_into-still share still e =
      elim (Result-cases (course_of db account_id folder_id uids target)) [
        | inr (y, bad) ↦ rw (queue_into-refused y bad) refl
        | inl (way, found) ↦ rw (queue_into-way way found) (
            insert_rows-still rows (ids_by_uids folder_id uids db.messages) way batch grace_secs now
              share still (rw (queue_into-way way found) at e))
      ]
