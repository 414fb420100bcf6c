-- ===== src/Background/QuietHours/Changes.antt =====
-- Between two changes that `next_change` names, quiet hours neither begin nor end.
use mailclient.Base.{
  ℕ, ◌+◌, ◌-◌, ◌*◌, ◌/◌, ◌%◌, ◌≡◌, refl, sym, ap, ◌∙◌, ◌<◌, ◌≤◌, true, false, not, none, some, ltb,
  leb, ◌==◌, if◌then◌else◌, arith,
}
use mailclient.Base.Order.{filter, minimum}
use mailclient.Background.QuietHours.{
  day, TimeZone, single, QuietHours, contains, contains_at, resolve, next_change,
}

-- A zone at a fixed distance from UTC: `east` of it, less `west`. One of the two is 0.
abbrev pub fixed_offset : ℕ → ℕ → TimeZone
fixed_offset east west = record {
  naive_local = λ t. t + east - west;
  from_local_datetime = λ at. single (at + west - east);
}

-- The first boundary after a local time, by the time of day.
abbrev pub next_boundary : QuietHours → ℕ → ℕ
next_boundary q local =
    let today = (local / day) * day in
    let t = local % day in
    let first = if leb q.start q.end then q.start else q.end in
    let last = if leb q.start q.end then q.end else q.start in
    if ltb t first then today + first else if ltb t last then today + last else today + day + first

-- The window of a day.
abbrev pub IsWindow : QuietHours → Type 0
IsWindow q = (q.start < day) × (q.end < day)

next_change-boundary :
    (east west : ℕ) (q : QuietHours) (now : ℕ)
    → IsWindow q
    → west ≤ now
    → next_change (fixed_offset east west) q now ≡ (
        if q.start == q.end then none else some (next_boundary q (now + east - west) + west - east))
unfolding next_change resolve filter minimum
next_change-boundary east west q now (h1, h2) h = ground arith

boundary-keeps :
    (q : QuietHours) (a b : ℕ)
    → IsWindow q
    → a ≤ b
    → b < next_boundary q a
    → contains q (a % day) ≡ contains q (b % day)
unfolding contains
boundary-keeps q a b (h1, h2) h3 h4 = ground arith

boundary-ahead :
    (q : QuietHours) (a : ℕ)
    → IsWindow q
    → (q.start == q.end) ≡ false
    → (a < next_boundary q a) × (next_boundary q a ≤ a + day)
boundary-ahead q a (h1, h2) h3 = ground arith

boundary-flips :
    (q : QuietHours) (a : ℕ)
    → IsWindow q
    → (q.start == q.end) ≡ false
    → contains q (next_boundary q a % day) ≡ not (contains q (a % day))
unfolding contains
boundary-flips q a (h1, h2) h3 = ground arith

boundary-stable :
    (q : QuietHours) (a b : ℕ)
    → IsWindow q
    → a ≤ b
    → b < next_boundary q a
    → next_boundary q b ≡ next_boundary q a
boundary-stable q a b (h1, h2) h3 h4 = ground arith

-- A window is not empty when a change of it is named, and the change is ahead, a day at most.
change-Ahead :
    (east west : ℕ) (q : QuietHours) (now next : ℕ)
    → IsWindow q
    → west ≤ now
    → next_change (fixed_offset east west) q now ≡ some next
    → (next + east - west ≡ next_boundary q (now + east - west))
      × (west ≤ next + east)
      × ((q.start == q.end) ≡ false)
change-Ahead east west q now next w h e =
    ground (arith, next_change-boundary east west q now w h, boundary-ahead q (now + east - west) w)

-- For a window of the day in a time zone at a fixed offset east or west of UTC, from a time
-- whose local date is not before 1970: from now until the next change, a time is in the window
-- exactly when now is, and names the same next change; the change itself is in the window
-- exactly when now is not.
pub next_change-contains_at :
    (east west : ℕ) (q : QuietHours) (now next t : ℕ)
    → IsWindow q
    → west ≤ now
    → next_change (fixed_offset east west) q now ≡ some next
    → now ≤ t
    → t < next
    → (contains_at (fixed_offset east west) q t ≡ contains_at (fixed_offset east west) q now)
      × (contains_at (fixed_offset east west) q next
          ≡ not (contains_at (fixed_offset east west) q now))
      × (next_change (fixed_offset east west) q t ≡ some next)
unfolding contains_at contains
next_change-contains_at east west q now next t w h e later early =
    let (at, above, some_window) = change-Ahead east west q now next w h e in
    let soon : t + east - west < next_boundary q (now + east - west) =
      omega (arith, at, early, h) in
    (
      sym (boundary-keeps q (now + east - west) (t + east - west) w (omega arith) soon),
      ap (λ n. contains q (n % day)) at ∙ boundary-flips q (now + east - west) w some_window,
      ground (
        arith,
        at,
        some_window,
        next_change-boundary east west q t w (omega arith),
        boundary-stable q (now + east - west) (t + east - west) w (omega arith) soon,
      ),
    )

-- A window without changes is empty.
pub no_change-contains_at :
    (east west : ℕ) (q : QuietHours) (now t : ℕ)
    → IsWindow q
    → west ≤ now
    → now ≤ t
    → next_change (fixed_offset east west) q now ≡ none
    → (contains_at (fixed_offset east west) q t ≡ false)
      × (next_change (fixed_offset east west) q t ≡ none)
unfolding contains_at contains
no_change-contains_at east west q now t w h later e =
    let empty : (q.start == q.end) ≡ true =
      ground (arith, next_change-boundary east west q now w h) in
    (ground arith, rw (next_change-boundary east west q t w (omega arith), empty) refl)
