-- ===== src/Imap/Sync/Tests.antt =====
-- A sync of a small mailbox.
use mathlib.Core.Option
use mailclient.Base.{
  ℕ, ◌+◌, ◌≡◌, refl, ap, ◌∙◌, Bool, true, false, ◌&&◌, ◌||◌, Option, none, some, List, [], ◌∷◌, map,
  leb, ◌==◌, if◌then◌else◌, arith,
}
use mailclient.Base.Order.{maximum, reverse, contains, filter, sort}
use mailclient.Base.Table.{delete_where, find_where, update_where}
use mailclient.Base.Membership.{contains-filter}
use mailclient.Base.Results.{Result, ok}
use mailclient.Errors.{StoreError}
use mailclient.Imap.Action.{Local, ◌>>=◌, ask, reads, writes, when}
use mailclient.Imap.Cache.{
  inserted, Row, lookup, list_uids, delete_by_uid, delete_many_by_uids, upsert, set_flags_by_uid,
}
use mailclient.Imap.Mailbox.{
  Mailbox, in_answers, in_fetched, newer, TellsFlags, TellsMessages, Serves,
}
use mailclient.Imap.Search.Covers.{IsSearched, search_recent_uids-Recent, Recent}
use mailclient.Imap.Search.{search_recent_uids}
use mailclient.Imap.Sync.{
  chunks, SyncReport, refresh_flags, fetch_new, store_messages, delete_each, in_vanished,
  folder_unchanged, sync_folder_window,
}
use mailclient.Imap.Sync.Marks.{marks, sync_folder_window-marks}
use mailclient.Imap.Sync.Refines.{Agrees, after, rebuilt}
use mailclient.Imap.Sync.Whole.{Makes, sync_folder_window-after, sync_folder_window-rebuilt}
use mailclient.Imap.Older.{sync_older}
use mailclient.Imap.Older.Backfill.{counted, is_newest, added, sync_older-added}
use mailclient.Imap.Sync.Fetches.{message}
use mailclient.Imap.Server.{Flag, seen, flagged, SelectResult, Server, flag_state}

-- Mail 2 is read and mail 5 starred; 5 changed last.
abbrev held : List ℕ
held = 2 ∷ 5 ∷ 6 ∷ []

abbrev test_flags : ℕ → List Flag
test_flags u = if u == 2 then seen ∷ [] else if u == 5 then flagged ∷ [] else []

abbrev small_box : Mailbox ℕ
small_box = record {
  has = λ u. contains u held;
  state = λ u. flag_state (test_flags u);
  content = λ u. u;
  modseq = λ u. (if u == 5 then 40 else 10);
}

abbrev test_select : ℕ → SelectResult
test_select validity = record {
  exists = 3;
  uid_validity = some validity;
  uid_next = some 7;
  highest_modseq = some 40;
  vanished = [];
}

-- A server that holds the mailbox, with CONDSTORE.
abbrev small_server : ℕ → Server (Unit {0})
small_server validity = record {
  condstore_enabled = true;
  select = λ known. ok (test_select validity);
  search_all = ok held;
  search_range = λ lo hi. ok (filter (λ u. leb lo u && leb u hi) held);
  search_uids = λ asked. ok (filter (λ u. contains u held) asked);
  fetch_flags = λ asked since. ok (
      map (λ u. (u, test_flags u))
        (filter (λ u. contains u held && newer small_box since u) asked));
  fetch_messages = λ asked. ok (
      map (λ u. record { uid = u; flags = test_flags u; raw = tt })
        (filter (λ u. contains u held) asked));
  store_seen = λ asked. ok tt;
}

abbrev test_parse : ℕ → Unit {0} → Result StoreError ℕ
test_parse u raw = ok u

tells_flags :
    (uids : List ℕ)
    → TellsFlags small_box (map (λ u. (u, test_flags u)) uids)
      × ((u : ℕ) → in_answers u (map (λ v. (v, test_flags v)) uids) ≡ contains u uids)
unfolding contains
tells_flags [] = (tt, λ u. refl)
tells_flags (v ∷ uids) =
    let (tells, named) = tells_flags uids in ((refl, tells), λ u. ap (λ b. (v == u) || b) (named u))

tells_messages :
    (uids : List ℕ)
    → TellsMessages small_box test_parse
        (map (λ u. record { uid = u; flags = test_flags u; raw = tt }) uids)
      × ((u : ℕ)
          → in_fetched u (map (λ v. record { uid = v; flags = test_flags v; raw = tt }) uids)
            ≡ contains u uids)
unfolding contains
tells_messages [] = (tt, λ u. refl)
tells_messages (v ∷ uids) =
    let (tells, named) = tells_messages uids in
    (((refl, refl), tells), λ u. ap (λ b. (v == u) || b) (named u))

small_server-IsSearched :
    (validity : ℕ) → IsSearched (small_server validity) (λ u. contains u held) (some 7)
unfolding contains
small_server-IsSearched validity = record {
  in_range = λ lo hi. (
    filter (λ u. leb lo u && leb u hi) held,
    refl,
    λ u. contains-filter u (λ v. leb lo v && leb v hi) held,
  );
  everywhere = (held, refl, λ u. refl);
  positive = refl;
  below = λ u h. ground arith;
}

small_server-Serves : (validity : ℕ) → Serves (small_server validity) test_parse small_box (some 7)
small_server-Serves validity = record {
  searched = small_server-IsSearched validity;
  finds_uids = λ asked. (
    filter (λ u. contains u held) asked,
    refl,
    λ u. contains-filter u (λ v. contains v held) asked,
  );
  tells_flags = λ asked since.
      let picked = filter (λ u. contains u held && newer small_box since u) asked in
      let (tells, named) = tells_flags picked in
      (
        map (λ u. (u, test_flags u)) picked,
        refl,
        tells,
        λ u. named u ∙ contains-filter u (λ v. contains v held && newer small_box since v) asked,
      );
  tells_messages = λ asked.
      let picked = filter (λ u. contains u held) asked in
      let (tells, named) = tells_messages picked in
      (
        map (λ u. record { uid = u; flags = test_flags u; raw = tt }) picked,
        refl,
        tells,
        λ u. named u ∙ contains-filter u (λ v. contains v held) asked,
      );
  stores_seen = λ asked. refl;
}

abbrev row : ℕ → Bool → Row ℕ
row u read = record {
  uid = u;
  content = 100 + u;
  is_read = read;
  is_starred = false;
  is_draft = false;
  flags_dirty = false;
}

-- The mails 2, 3 and 5 are cached; the last sync was at modseq 30.
abbrev test_local : Local ℕ
test_local = record {
  rows = row 2 true ∷ row 3 true ∷ row 5 false ∷ [];
  folder = record {
    is_trash = false;
    uid_validity = some 1;
    uid_next = some 6;
    server_total = some 3;
    highest_modseq = 30;
  };
}

abbrev whole_sync : ℕ → Option ℕ → Local ℕ × Result StoreError SyncReport
whole_sync validity window = sync_folder_window (small_server validity) test_parse window test_local

-- Mail 3 is expunged, 5 starred and 6 fetched.
syncs :
    (whole_sync 1 (some 3)).0.rows
    ≡ row 2 true
      ∷ record {
        uid = 5;
        content = 105;
        is_read = false;
        is_starred = true;
        is_draft = false;
        flags_dirty = false;
      }
      ∷ record {
        uid = 6;
        content = 6;
        is_read = false;
        is_starred = false;
        is_draft = false;
        flags_dirty = false;
      }
      ∷ []
unfolding sync_folder_window refresh_flags ◌>>=◌ reads ask list_uids search_recent_uids contains
    sort writes when delete_by_uid delete_where upsert find_where set_flags_by_uid update_where
    flag_state
syncs = refl

-- After a change of UIDVALIDITY with a window of one mail, the rows 2 and 5 of the mailbox before
-- it stay, with what the mails of that mailbox said.
keeps_stale :
    Option.map (λ (r : Row ℕ). r.content) (lookup 2 (whole_sync 9 (some 1)).0.rows) ≡ some 102
unfolding sync_folder_window refresh_flags ◌>>=◌ reads ask list_uids search_recent_uids contains
    sort writes when delete_by_uid delete_where upsert find_where set_flags_by_uid update_where
    flag_state lookup fetch_new store_messages delete_each delete_many_by_uids
keeps_stale = refl

search_recent_uids-Recent_example :
    Recent
      (small_server 1)
      (λ u. contains u held)
      (search_recent_uids (small_server 1) (some 2) (some 7))
search_recent_uids-Recent_example =
    search_recent_uids-Recent (small_server 1) (λ u. contains u held) (some 2) (some 7)
      (small_server-IsSearched 1)

sync_folder_window-marks_example :
    (whole_sync 9 none).0.folder
    ≡ marks (small_server 9) test_parse (ok (test_select 9)) (whole_sync 9 none).1 test_local.folder
sync_folder_window-marks_example =
    sync_folder_window-marks (small_server 9) test_parse none test_local

agrees : (u : ℕ) → Agrees (small_server 1) small_box u test_local.folder (lookup u test_local.rows)
unfolding lookup find_where contains flag_state
agrees u = ground arith

sync_folder_window-after_example :
    Makes (small_server 1) test_parse small_box (some 3) (test_select 1) test_local (λ u lo recent.
      after (small_server 1) small_box u test_local.folder (leb lo u) recent (in_vanished [] u))
unfolding folder_unchanged list_uids
sync_folder_window-after_example =
    sync_folder_window-after (small_server 1) test_parse small_box (some 3) (test_select 1)
      test_local refl (small_server-Serves 1) refl refl agrees

sync_folder_window-rebuilt_example :
    Makes
      (small_server 9)
      test_parse
      small_box
      (some 1)
      (test_select 9)
      test_local
      (λ u lo recent. rebuilt (small_server 9) small_box u test_local.folder (leb lo u) recent)
sync_folder_window-rebuilt_example =
    sync_folder_window-rebuilt (small_server 9) test_parse small_box (some 1) (test_select 9)
      test_local refl (small_server-Serves 9) refl

-- The same cache when the server has not changed since.
abbrev quiet_local : Local ℕ
quiet_local = record {
  rows = row 2 true ∷ row 5 false ∷ row 6 false ∷ [];
  folder = record {
    is_trash = false;
    uid_validity = some 1;
    uid_next = some 7;
    server_total = some 3;
    highest_modseq = 40;
  };
}

-- Of the mails 2 and 5 below the cached one, a batch of one loads the newer.
abbrev young_local : Local ℕ
young_local = record { rows = row 6 false ∷ []; folder = test_local.folder }

loads_older : list_uids (sync_older (small_server 1) test_parse 1 young_local).0.rows ≡ 6 ∷ 5 ∷ []
unfolding sync_older maximum reverse ◌>>=◌ reads ask list_uids contains sort upsert find_where
    flag_state fetch_new store_messages chunks filter writes
loads_older = refl

sync_older-added_example :
    (report : SyncReport) × (uids : List ℕ) × ((sync_older
        (small_server 1)
        test_parse
        1
        young_local).1
      ≡ ok report)
    × ((small_server 1).search_range 1 6 ≡ ok uids)
    × ((sync_older (small_server 1) test_parse 1 young_local).0.folder
        ≡ counted (test_select 1) test_local.folder)
    × ((u : ℕ)
        → lookup u (sync_older (small_server 1) test_parse 1 young_local).0.rows
          ≡ added
              (is_newest 1 uids young_local.rows u && contains u held)
              (inserted (message u small_box false))
              (lookup u young_local.rows))
unfolding list_uids lookup find_where
sync_older-added_example =
    sync_older-added (small_server 1) test_parse small_box 1 (test_select 1) 6 young_local refl
      (small_server-Serves 1) refl refl (omega arith, tt)
