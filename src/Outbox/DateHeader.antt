-- ===== src/Outbox/DateHeader.antt =====
-- `refresh_date_header` of crates/mailcore/src/sync/sender/scheduled.rs: the `Date:` of a stored
-- message becomes the time of delivery. `now` is the formatted date, from chrono.
use Prim.Native.Nat.{suc}
use mathlib.Core.Option
use mailclient.Base.{
  ℕ, ◌+◌, ◌≡◌, refl, Bool, true, false, not, ◌&&◌, ◌||◌, Option, none, some, List, [], ◌∷◌, ◌++◌,
  ◌==◌, leb, if◌then◌else◌, is_empty, length,
}
use mailclient.Base.Text.{codes, starts_with}
use mailclient.Base.Lists.{take, drop}

abbrev pub Bytes : Type 0
Bytes = List ℕ

-- `find_slice`: the first index of `needle`.
unfoldable pub find_slice : Bytes → Bytes → Option ℕ
find_slice [] needle = if is_empty needle then some 0 else none
find_slice (b ∷ bs) needle =
    let rest = Option.map suc (find_slice bs needle) in
    if starts_with needle (b ∷ bs) then some 0 else rest

to_lower : ℕ → ℕ
to_lower b = if leb b'A' b && leb b b'Z' then b + 32 else b

-- Longer than five bytes, `date` in any case, and a colon.
is_date_line : Bytes → Bool
unfolding to_lower
is_date_line (d ∷ a ∷ t ∷ e ∷ colon ∷ next ∷ rest) =
    (colon == b':')
    && ((to_lower d == b'd')
        && ((to_lower a == b'a') && ((to_lower t == b't') && (to_lower e == b'e'))))
is_date_line _ = false

is_folded : Bytes → Bool
is_folded [] = false
is_folded (b ∷ bs) = (b == b' ') || (b == b'\t')

-- `line.ends_with(b"\r")`
ends_with_cr : Bytes → Bool
ends_with_cr [] = false
ends_with_cr (b ∷ []) = b == b'\r'
ends_with_cr (b ∷ c ∷ rest) = ends_with_cr (c ∷ rest)

without_last : Bytes → Bytes
without_last [] = []
without_last (b ∷ []) = []
without_last (b ∷ c ∷ rest) = b ∷ without_last (c ∷ rest)

abbrev date_line : Bytes → Bytes
date_line now = codes "Date: " ++ now

-- The tail of a header block with no newline at its end.
last_line : Bytes → Bytes → Bool → Bool → Bytes × Bool
unfolding is_date_line is_folded
last_line now [] replaced skipping = ([], replaced)
last_line now (b ∷ bs) replaced skipping =
    if skipping && is_folded (b ∷ bs)
    then ([], replaced)
    else if not replaced && is_date_line (b ∷ bs)
    then (date_line now, true)
    else (b ∷ bs, replaced)

-- The loop over the header bytes; `line` holds those since the last newline.
refresh_lines : Bytes → Bytes → Bool → Bool → Bytes → Bytes × Bool
unfolding last_line ends_with_cr without_last
refresh_lines now line replaced skipping [] = last_line now line replaced skipping
refresh_lines now line replaced skipping (b ∷ bs) =
    let had_cr = ends_with_cr line in
    let text = if had_cr then without_last line else line in
    let ending : Bytes = if had_cr then b'\r' ∷ b'\n' ∷ [] else b'\n' ∷ [] in
    let longer = refresh_lines now (line ++ b ∷ []) replaced skipping bs in
    let folded = refresh_lines now [] replaced true bs in
    let dated = refresh_lines now [] true true bs in
    let other = refresh_lines now [] replaced false bs in
    if not (b == b'\n')
    then longer
    else if skipping && is_folded text
    then folded
    else if not replaced && is_date_line text
    then (date_line now ++ ending ++ dated.0, dated.1)
    else (text ++ ending ++ other.0, other.1)

-- Where the body begins.
unfoldable pub head_end : Bytes → ℕ
unfolding find_slice
head_end raw = elim (find_slice raw (codes "\r\n\r\n")) [
  | some i ↦ i + 4
  | none ↦ (elim (find_slice raw (codes "\n\n")) [ some i ↦ i + 2 | none ↦ length raw ])
]

unfoldable pub refresh_date_header : Bytes → Bytes → Bytes
unfolding head_end refresh_lines
refresh_date_header now raw =
    let nl : Bytes = elim (find_slice raw (codes "\r\n")) [
      | some i ↦ codes "\r\n"
      | none ↦ codes "\n"
    ] in
    let (out, replaced) = refresh_lines now [] false false (take (head_end raw) raw) in
    (if replaced then out else date_line now ++ nl ++ out) ++ drop (head_end raw) raw

refreshes :
    refresh_date_header
      (codes "Tue")
      (codes "From: a@example.com\r\nDate: Mon, 01 Jan\r\n 2000\r\nSubject: hi\r\n\r\nDate: x")
    ≡ codes "From: a@example.com\r\nDate: Tue\r\nSubject: hi\r\n\r\nDate: x"
unfolding refresh_date_header
refreshes = refl

prepends :
    refresh_date_header (codes "Tue") (codes "Subject: hi\n\nx")
    ≡ codes "Date: Tue\nSubject: hi\n\nx"
unfolding refresh_date_header
prepends = refl
