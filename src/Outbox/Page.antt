-- ===== src/Outbox/Page.antt =====
-- crates/mailcore/src/outbox.rs: `dismiss`, by which the user drops a waiting row. `take_for_edit`
-- ends with the same statement. With it the `on delete cascade` of db/schema.sql, which drops the
-- rows of an account that is deleted.
use mailclient.Base.{ℕ, Bool, ◌&&◌, ◌==◌, if◌then◌else◌}
use mailclient.Base.Results.{Result, ok, err}
use mailclient.Base.Table.{delete_where, count_where}
use mailclient.Errors.{StoreError, not_found, text}
use mailclient.Outbox.Row.{QueuedSend, Outbox}
use mailclient.Outbox.Store.{held}

abbrev pub dismissable : ℕ → ℕ → QueuedSend → Bool
dismissable account_id id r = (r.id == id) && ((r.account_id == account_id) && held r.status)

unfoldable pub dismiss : ℕ → ℕ → Outbox → Outbox × Result StoreError (Unit {0})
dismiss account_id id o = (
  record o { rows = delete_where (dismissable account_id id) o.rows },
  if count_where (dismissable account_id id) o.rows == 0
      then err (not_found (text "outbox entry (already sent, being sent, or gone)"))
      else ok tt,
)

unfoldable pub delete_account : ℕ → Outbox → Outbox
delete_account account_id o = record o {
  rows = delete_where (λ (r : QueuedSend). r.account_id == account_id) o.rows;
}
