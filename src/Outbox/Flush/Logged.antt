-- ===== src/Outbox/Flush/Logged.antt =====
-- What a submission does to the log of accepted rows: it is sound if every row in it is spent and
-- none stands in it twice.
use mailclient.Base.{
  ℕ, suc, ◌≤◌, ◌≡◌, refl, true, false, List, [], ◌∷◌, arith, Option-cases, ◌⊎◌, inl, inr, All, ◌==◌,
  String,
}
use mailclient.Base.Lists.{All-mono}
use mailclient.Base.Results.{Result-cases}
use mailclient.Outbox.DateHeader.{Bytes}
use mailclient.Outbox.Keys.{IsKeyed, Change-IsKeyed, Change-next_id}
use mailclient.Outbox.Row.{QueuedSend, Outbox}
use mailclient.Outbox.Store.{get, claim, claim}
use mailclient.Outbox.Store.Steps.{Op, run, run-Change}
use mailclient.Outbox.Flush.{
  Smtp, Session, keep_outgoing, outgoing, submit_raw, submit_row, submit_loaded, submit_claimed_via,
  row_envelope, stored_bytes,
}
use mailclient.Outbox.Flush.Spent.{
  Spent, Only, Only-same, Only-trans, Spent-Only, Spent-run, mark_sent-Only, mark_sent-Spent,
  claim-Spent, record_failure-Only, keep_outgoing-Only,
}

abbrev pub Fresh : ℕ → List ℕ → Type 0
Fresh i xs = All (λ j. (j == i) ≡ false) xs

-- No id stands in the list twice.
abbrev pub Distinct : List ℕ → Type 0
Distinct [] = Unit
Distinct (i ∷ xs) = Fresh i xs × Distinct xs

pub Spent-All :
    (j : ℕ) (o o' : Outbox) (xs : List ℕ)
    → Only j o o'
    → Fresh j xs
    → All (λ i. Spent i o) xs
    → All (λ i. Spent i o') xs
Spent-All j o o' [] c d h = tt
Spent-All j o o' (x ∷ xs) c (d, ds) (h, hs) =
    (Spent-Only x j o o' c d h, Spent-All j o o' xs c ds hs)

-- A row that a claim wins was not accepted before.
pub claim-Fresh :
    (j now : ℕ) (o : Outbox) (xs : List ℕ)
    → IsKeyed o
    → (claim j now o).1 ≡ true
    → All (λ i. Spent i o) xs
    → Fresh j xs
claim-Fresh j now o [] k won h = tt
claim-Fresh j now o (x ∷ xs) k won (h, hs) =
    (ground (arith, claim-Spent x now o k h), claim-Fresh j now o xs k won hs)

-- The next id was not accepted before.
pub next-Fresh : (o : Outbox) (xs : List ℕ) → All (λ i. Spent i o) xs → Fresh o.next_id xs
next-Fresh o [] h = tt
next-Fresh o (x ∷ xs) ((room, h), hs) = (ground arith, next-Fresh o xs hs)

module _ {Transport : Type 0} where
  -- Every accepted row is spent, and none was accepted twice.
  abbrev pub Logged : Session Transport → Type 0
  Logged s = IsKeyed s.outbox × All (λ i. Spent i s.outbox) s.accepted × Distinct s.accepted

  abbrev pub with_outbox : Outbox → Session Transport → Session Transport
  with_outbox o s = record s { outbox = o }

  -- A submission of row `j` changes that row only, and a row whose message it logs is spent.
  abbrev pub Outcome : ℕ → Session Transport → Session Transport → Type 0
  Outcome j s s' =
      Only j s.outbox s'.outbox
      × ((s'.accepted ≡ s.accepted) ⊎ ((s'.accepted ≡ j ∷ s.accepted) × Spent j s'.outbox))

  pub Logged-run :
      (ops : List (ℕ × Op)) (s : Session Transport)
      → Logged s
      → Logged (with_outbox (run ops s.outbox) s)
  Logged-run ops s (k, spent, once) = (
    Change-IsKeyed (run-Change ops s.outbox) k,
    All-mono (λ i. Spent i s.outbox) (λ i. Spent i (run ops s.outbox)) s.accepted
        (λ i. Spent-run i ops s.outbox k) spent,
    once,
  )

  pub Logged-Outcome :
      (j : ℕ) (s s' : Session Transport)
      → Logged s
      → Fresh j s.accepted
      → Outcome j s s'
      → Logged s'
  Logged-Outcome j s s' (k, spent, once) fresh (c, inl e) =
      let spent' = Spent-All j s.outbox s'.outbox s.accepted c fresh spent in
      (Change-IsKeyed c.0 k, rw (e) spent', rw (e) once)
  Logged-Outcome j s s' (k, spent, once) fresh (c, inr (e, h)) =
      let spent' = Spent-All j s.outbox s'.outbox s.accepted c fresh spent in
      (Change-IsKeyed c.0 k, rw (e) (h, spent'), rw (e) (fresh, once))

module _ {Address Envelope Connect Transport : Type 0}
    (server : Smtp Address Envelope Connect Transport) where
  submit_row-Outcome :
      (j : ℕ) (row : QueuedSend) (raw : Bytes) (envelope : String × List String) (now : ℕ)
      (s : Session Transport)
      → suc j ≤ s.outbox.next_id
      → Outcome j s (submit_row server j row raw envelope now s).0
  unfolding submit_row
  submit_row-Outcome j row raw (from, to) now s room =
      elim (Result-cases (submit_raw server from to raw row.request_dsn s.wire).1) [
        | inl (done, e) ↦
            rw (e, submit_row)
              (mark_sent-Only j now s.outbox, inr (refl, mark_sent-Spent j now s.outbox room))
        | inr (why, e) ↦
            rw (e, submit_row) (record_failure-Only server j row why now s.outbox, inl refl)
      ]

  submit_loaded-Outcome :
      (j : ℕ) (row : QueuedSend) (now : ℕ) (s : Session Transport)
      → suc j ≤ s.outbox.next_id
      → Outcome j s (submit_loaded server j row now s).0
  unfolding submit_loaded
  submit_loaded-Outcome j row now s room = elim (Option-cases (stored_bytes row.raw_mime)) [
    | inl e ↦ rw (e, submit_loaded) (Only-same j s.outbox, inl refl)
    | inr (raw, e) ↦
        (let c = keep_outgoing-Only server j row raw now s.outbox in
          let s' : Session Transport =
            with_outbox (keep_outgoing server j row raw now s.outbox) s in
          elim (Result-cases (row_envelope row)) [
            | inl (envelope, e') ↦
                (let (c', logged) =
                    submit_row-Outcome j row (outgoing server row raw now) envelope now s'
                      (omega (arith, Change-next_id c.0)) in
                  rw (e, e', submit_loaded) (Only-trans j _ _ _ c c', logged))
            | inr (why, e') ↦ rw (e, e', submit_loaded) (c, inl refl)
          ])
  ]

  pub submit_claimed-Outcome :
      (j now : ℕ) (s : Session Transport)
      → suc j ≤ s.outbox.next_id
      → Outcome j s (submit_claimed_via server j now s).0
  unfolding submit_claimed_via
  submit_claimed-Outcome j now s room = elim (Result-cases (get j s.outbox)) [
    | inl (row, e) ↦ rw (e, submit_claimed_via) (submit_loaded-Outcome j row now s room)
    | inr (why, e) ↦ rw (e, submit_claimed_via) (Only-same j s.outbox, inl refl)
  ]
