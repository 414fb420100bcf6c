-- ===== src/Search/ListFilter/Keep.antt =====
-- The UIDs that a folder's filter keeps.
use mathlib.Core.Path.{fun_ext}
use mailclient.Base.Strings.{trim, trim_start, trim_end}
use mailclient.Search.Query.{normalise_date}
use mailclient.Search.Dates.{date_bounds_pass, contains_text, text_lt}
use mailclient.Base.{
  true, false, not, ◌||◌, none, some, is_empty, ℕ, suc, ◌≡◌, refl, ap, ◌∙◌, Bool, ◌&&◌, Option,
  List, [], ◌∷◌, ◌==◌, if◌then◌else◌, map, arith, Bool-cases, inl, inr,
}
use mailclient.Base.Lists.{get_or}
use mailclient.Base.Order.{sort, insert_sorted}
use mailclient.Base.Sorted.{IsSorted, sort-IsSorted}
use mailclient.Base.Table.{count_where}
use mailclient.Base.Text.{Text, codes}
use mailclient.Search.ListFilter.{
  ListFilter, ListRow, CompactMessage, shown, keep_from, passes, keep, keep_in_folder,
}

-- The elements at the indexes that the test keeps are those that pass it.
abbrev kept : (CompactMessage → Bool) → List CompactMessage → List ℕ
kept test [] = []
kept test (m ∷ ms) = let rest = kept test ms in if test m then m.uid ∷ rest else rest

keep_from-suc :
    {A : Type 0} (test : A → Bool) (i : ℕ) (rows : List A)
    → keep_from test (suc i) rows ≡ map suc (keep_from test i rows)
unfolding keep_from
keep_from-suc test i [] = refl
keep_from-suc test i (r ∷ rows) = elim (Bool-cases (test r)) [
  | inl taken ↦ rw (taken, keep_from-suc test (suc i) rows) refl
  | inr left ↦ rw (left, keep_from-suc test (suc i) rows) refl
]

get_or-suc :
    (u : ℕ) (us is : List ℕ)
    → map (λ i. get_or (u ∷ us) i 0) (map suc is) ≡ map (λ i. get_or us i 0) is
get_or-suc u us [] = refl
get_or-suc u us (i ∷ is) = ap (λ (xs : List ℕ). get_or us i 0 ∷ xs) (get_or-suc u us is)

abbrev uid_of : CompactMessage → ℕ
uid_of m = m.uid

picked :
    (test : ListRow → Bool) (show : CompactMessage → ListRow) (ms : List CompactMessage)
    → map (λ i. get_or (map uid_of ms) i 0) (keep_from test 0 (map show ms))
      ≡ kept (λ m. test (show m)) ms
unfolding keep_from
picked test show [] = refl
picked test show (m ∷ ms) =
    let tail : map (λ i. get_or (map uid_of (m ∷ ms)) i 0) (keep_from test 1 (map show ms))
        ≡ kept (λ m. test (show m)) ms =
      ap (λ is. map (λ i. get_or (map uid_of (m ∷ ms)) i 0) is) (keep_from-suc test 0 (map show ms))
      ∙ get_or-suc m.uid (map uid_of ms) (keep_from test 0 (map show ms))
      ∙ picked test show ms in
    elim (Bool-cases (test (show m))) [
      | inl taken ↦ rw (taken) (ap (λ (xs : List ℕ). m.uid ∷ xs) tail)
      | inr left ↦ rw (left) tail
    ]

count-insert_sorted :
    (u x : ℕ) (xs : List ℕ)
    → count_where (λ a. a == u) (insert_sorted x xs) ≡ count_where (λ a. a == u) (x ∷ xs)
unfolding count_where insert_sorted
count-insert_sorted u x [] = refl
count-insert_sorted u x (y ∷ ys) = ground (arith, count-insert_sorted u x ys)

count-sort :
    (u : ℕ) (xs : List ℕ) → count_where (λ a. a == u) (sort xs) ≡ count_where (λ a. a == u) xs
unfolding count_where sort
count-sort u [] = refl
count-sort u (x ∷ xs) = ground (arith, count-insert_sorted u x (sort xs), count-sort u xs)

count-kept :
    (u : ℕ) (test : CompactMessage → Bool) (ms : List CompactMessage)
    → count_where (λ a. a == u) (kept test ms)
      ≡ count_where (λ (m : CompactMessage). (m.uid == u) && test m) ms
unfolding count_where
count-kept u test [] = refl
count-kept u test (m ∷ ms) = ground (arith, count-kept u test ms)

-- Of a day at or after the one and before the other, where these are set.
abbrev pub in_days : Option Text → Option Text → Option Text → Bool
in_days date none none = true
in_days none after before = false
in_days (some d) none (some b) = not (is_empty (trim d)) && text_lt (trim d) b
in_days (some d) (some a) none = not (is_empty (trim d)) && not (text_lt (trim d) a)
in_days (some d) (some a) (some b) =
    not (is_empty (trim d)) && (not (text_lt (trim d) a) && text_lt (trim d) b)

-- What the list shows of a message, for the search of a text.
abbrev pub subject_of : CompactMessage → Text
subject_of m = elim m.subject [ none ↦ codes "(no subject)" | some s ↦ s ]

abbrev pub sender_of : CompactMessage → Text
sender_of m = elim m.from_addr [ none ↦ codes "?" | some s ↦ s ]

abbrev pub name_of : CompactMessage → Text
name_of m = elim m.from_name [ none ↦ [] | some s ↦ s ]

abbrev pub snippet_of : CompactMessage → Text
snippet_of m = elim m.snippet [ none ↦ [] | some s ↦ s ]

date_bounds-in_days :
    (date after before : Option Text)
    → date_bounds_pass date after before ≡ in_days date after before
unfolding date_bounds_pass trim trim_start trim_end
date_bounds-in_days none none none = refl
date_bounds-in_days (some d) none none = refl
date_bounds-in_days none none (some b) = refl
date_bounds-in_days none (some a) none = refl
date_bounds-in_days none (some a) (some b) = refl
date_bounds-in_days (some d) none (some b) = ground arith
date_bounds-in_days (some d) (some a) none = ground arith
date_bounds-in_days (some d) (some a) (some b) = ground arith

shown_text :
    (m : CompactMessage) (is_trash : Bool)
    → ((shown m is_trash).subject ≡ subject_of m)
      × ((shown m is_trash).from ≡ sender_of m)
      × ((shown m is_trash).from_name ≡ name_of m)
      × ((shown m is_trash).snippet ≡ snippet_of m)
unfolding shown
shown_text m is_trash = (ground arith, ground arith, ground arith, ground arith)

module _ (to_lowercase : Text → Text) (parse_from_str : Text → Option ℕ) (format : ℕ → Text) where
  -- What a filter asks of a message of a folder that is the trash or not.
  abbrev pub wanted : Bool → ListFilter → CompactMessage → Bool
  wanted is_trash f m =
      let after = normalise_date parse_from_str format (trim f.after) in
      let before = normalise_date parse_from_str format (trim f.before) in
      let text = to_lowercase (trim f.text) in
      (if f.unread then not m.is_read && not is_trash else true)
      && ((if f.starred then m.is_starred else true)
          && ((if f.attachments then m.has_attachments else true)
              && (in_days m.date after before
                  && (is_empty text
                      || (contains_text text (to_lowercase (subject_of m))
                          || (contains_text text (to_lowercase (sender_of m))
                              || (contains_text text (to_lowercase (name_of m))
                                  || contains_text text (to_lowercase (snippet_of m)))))))))

  passes-wanted :
      (is_trash : Bool) (f : ListFilter) (m : CompactMessage)
      → passes to_lowercase parse_from_str format f (shown m is_trash) ≡ wanted is_trash f m
  unfolding passes shown
  passes-wanted is_trash f m =
      let after = normalise_date parse_from_str format (trim f.after) in
      let before = normalise_date parse_from_str format (trim f.before) in
      let (subject, sender, name, snippet) = shown_text m is_trash in
      ground (arith, date_bounds-in_days m.date after before, subject, sender, name, snippet)

  -- The filter of a folder keeps, smallest first, the UIDs of the messages that it asks for,
  -- each as often as it has such messages. It may ask for unread messages (none in the trash
  -- count as unread), starred ones, ones with attachments, a date at or after one day and
  -- before another (a message without a date is not kept then), and a text, trimmed and in
  -- lower case, that occurs in the subject, the sender's address, the sender's name or the
  -- snippet as shown, in lower case; an empty text asks for nothing.
  pub keep_in_folder-passes :
      (is_trash : Bool) (ms : List CompactMessage) (f : ListFilter) (u : ℕ)
      → (let uids = keep_in_folder to_lowercase parse_from_str format is_trash ms f in
          IsSorted uids
          × (count_where (λ a. a == u) uids
              ≡ count_where (λ (m : CompactMessage). (m.uid == u) && wanted is_trash f m) ms))
  unfolding keep_in_folder keep
  keep_in_folder-passes is_trash ms f u =
      let test = passes to_lowercase parse_from_str format f in
      let show : CompactMessage → ListRow = λ m. shown m is_trash in
      let uids = map (λ i. get_or (map uid_of ms) i 0) (keep_from test 0 (map show ms)) in
      let whole = picked test show ms in
      (
        sort-IsSorted uids,
        count-sort u uids
            ∙ ap (λ us. count_where (λ a. a == u) us) whole
            ∙ count-kept u (λ m. test (shown m is_trash)) ms
            ∙ ap (λ (w : CompactMessage → Bool). count_where (λ m. (m.uid == u) && w m) ms)
                (fun_ext (λ m. passes-wanted is_trash f m)),
      )
