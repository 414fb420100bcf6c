-- ===== src/Search/ListFilter.antt =====
-- The message list's filters of crates/mailcore/src/search/list_filter.rs. Parameters:
-- `str::to_lowercase` of the Unicode tables and chrono's days, as for the queries. The rows of a
-- folder and whether it is the trash come from the store, as arguments.
pub mod Keep
pub mod Range
use mailclient.Base.{
  ℕ, zero, suc, Bool, true, false, not, ◌&&◌, ◌||◌, Option, none, some, List, [], ◌∷◌, ◌++◌,
  if◌then◌else◌, is_empty, map,
}
use mailclient.Base.Lists.{get_or}
use mailclient.Base.Order.{sort}
use mailclient.Base.Text.{Text, codes}
use mailclient.Base.Strings.{trim}
use mailclient.Base.Results.{Result, ok, err, ok_or}
use mailclient.Search.Query.{normalise_date}
use mailclient.Search.Dates.{date_bounds_pass, contains_text, text_lt, unwrap_or}

pub record ListFilter : Type 0 where
  pub unread : Bool
  pub starred : Bool
  pub attachments : Bool
  pub after : Text
  pub before : Text
  pub text : Text

pub record ListRow : Type 0 where
  pub date_raw : Option Text
  pub unread : Bool
  pub starred : Bool
  pub has_attachments : Bool
  pub subject : Text
  pub from : Text
  pub from_name : Text
  pub snippet : Text

pub record CompactMessage : Type 0 where
  pub uid : ℕ
  pub subject : Option Text
  pub from_addr : Option Text
  pub from_name : Option Text
  pub date : Option Text
  pub snippet : Option Text
  pub is_read : Bool
  pub is_starred : Bool
  pub has_attachments : Bool

abbrev pub no_subject : Text
no_subject = codes "(no subject)"

abbrev pub no_sender : Text
no_sender = codes "?"

unfoldable pub shown : CompactMessage → Bool → ListRow
shown m is_trash = record {
  date_raw = m.date;
  unread = not is_trash && not m.is_read;
  starred = m.is_starred;
  has_attachments = m.has_attachments;
  subject = unwrap_or m.subject no_subject;
  from = unwrap_or m.from_addr no_sender;
  from_name = unwrap_or m.from_name [];
  snippet = unwrap_or m.snippet [];
}

-- The indexes, counted from `i`, of the rows that the test takes.
unfoldable pub keep_from : {A : Type 0} → (A → Bool) → ℕ → List A → List ℕ
keep_from test i [] = []
keep_from test i (r ∷ rows) =
    let rest = keep_from test (suc i) rows in if test r then i ∷ rest else rest

module _ (to_lowercase : Text → Text) (parse_from_str : Text → Option ℕ) (format : ℕ → Text) where
  unfoldable pub passes : ListFilter → ListRow → Bool
  unfolding normalise_date trim date_bounds_pass contains_text
  passes f r =
      let after = normalise_date parse_from_str format (trim f.after) in
      let before = normalise_date parse_from_str format (trim f.before) in
      let text = to_lowercase (trim f.text) in
      (not f.unread || r.unread)
      && (not f.starred || r.starred)
      && (not f.attachments || r.has_attachments)
      && date_bounds_pass r.date_raw after before
      && (is_empty text
          || contains_text text (to_lowercase r.subject)
          || contains_text text (to_lowercase r.from)
          || contains_text text (to_lowercase r.from_name)
          || contains_text text (to_lowercase r.snippet))

  unfoldable pub keep : ListFilter → List ListRow → List ℕ
  unfolding passes keep_from
  keep f rows = keep_from (passes f) 0 rows

  -- Each index is one of the list, so `uids[i]` does not fail and the default is not taken.
  unfoldable pub keep_in_folder : Bool → List CompactMessage → ListFilter → List ℕ
  unfolding keep shown sort
  keep_in_folder is_trash rows f =
      let uids = map (λ (m : CompactMessage). m.uid) rows in
      sort (map (λ i. get_or uids i 0) (keep f (map (λ m. shown m is_trash) rows)))

pub record DateRange : Type 0 where
  pub after : Text
  pub before : Text
  pub error : Text

-- The check of the bounds as read; with an error, the texts stay as typed.
unfoldable pub range_of : Text → Text → Option Text → Option Text → DateRange
unfolding text_lt
range_of after before none b = record {
  after = after;
  before = before;
  error = codes "After is not a date (YYYY-MM-DD)";
}
range_of after before (some a) none = record {
  after = after;
  before = before;
  error = codes "Before is not a date (YYYY-MM-DD)";
}
range_of after before (some a) (some b) =
    if (not (is_empty a) && not (is_empty b)) && not (text_lt a b)
    then record { after = after; before = before; error = codes "Before must be later than After" }
    else record { after = a; before = b; error = [] }

module _ (parse_from_str : Text → Option ℕ) (format : ℕ → Text) where
  -- The closure `read`.
  unfoldable pub read : Text → Option Text
  unfolding trim normalise_date
  read s = let t = trim s in if is_empty t then some [] else normalise_date parse_from_str format t

  unfoldable pub date_range_check : Text → Text → DateRange
  unfolding read range_of trim
  date_range_check after before = range_of (trim after) (trim before) (read after) (read before)
