-- ===== src/Imap/Search.antt =====
-- crates/mailcore/src/sync/imap/search.rs: which UIDs a window sync asks the server about. A
-- `HashSet` is a list without repetitions.
pub mod Covers
use mailclient.Base.{
  ℕ, zero, suc, ◌+◌, ◌-◌, ◌*◌, ◌%◌, ◌^◌, Bool, ◌||◌, Option, none, some, List, [], ◌∷◌, ◌++◌, leb,
  ◌==◌, if◌then◌else◌, length,
}
use mailclient.Base.Order.{contains}
use mailclient.Base.Results.{Result, ok, err, ◌>>=◌}
use mailclient.Errors.{StoreError}
use mailclient.Imap.Server.{Server}

-- `HashSet::extend`
unfoldable pub union : List ℕ → List ℕ → List ℕ
union found [] = found
union found (u ∷ uids) = union (if contains u found then found else u ∷ found) uids

abbrev pub larger : ℕ → ℕ → ℕ
larger a b = if leb a b then b else a

abbrev pub search_pages : ℕ
search_pages = 8

abbrev pub u32_max : ℕ
u32_max = 2 ^ 32 - 1

module _ {Raw : Type 0} (server : Server Raw) where
  -- The loop over `pages`, from the page `lo..hi` down. A subtraction stops at 0, as
  -- `saturating_sub` does.
  unfoldable pub search_pages_from : ℕ → ℕ → ℕ → ℕ → ℕ → List ℕ → ℕ → Result StoreError (List ℕ × ℕ)
  search_pages_from zero want span hi lo found searched_lo = ok (found, searched_lo)
  search_pages_from (suc pages) want span hi lo found searched_lo =
      server.search_range lo hi >>= λ uids.
      let next =
        search_pages_from pages want span (lo - 1) (larger (lo - 1 - (span - 1)) 1)
          (union found uids) lo in
      if leb want (length (union found uids)) || leb lo 1
      then ok (union found uids, lo)
      else if lo - 1 == 0
      then ok (union found uids, lo)
      else next

  unfoldable pub search_paged : ℕ → ℕ → ℕ → Result StoreError (List ℕ × ℕ)
  unfolding search_pages_from
  search_paged top want span =
      let span1 = larger span 1 in
      search_pages_from search_pages want span1 top (larger (top - (span1 - 1)) 1) [] (larger top 1)

  unfoldable pub search_recent_uids : Option ℕ → Option ℕ → Result StoreError (List ℕ × ℕ)
  unfolding search_paged union
  search_recent_uids none uid_next = server.search_all >>= λ uids. ok (union [] uids, 1)
  search_recent_uids (some n) uid_next =
      let next : ℕ = elim uid_next [ none ↦ 0 | some u ↦ u ] in
      let n32 = n % 2 ^ 32 in
      let times8 = if leb (n32 * 8) u32_max then n32 * 8 else u32_max in
      if next - 1 == 0
      then (server.search_all >>= λ uids. ok (union [] uids, 1))
      else search_paged (next - 1) n (larger times8 n32)
