-- ===== src/Imap/Search/Covers.antt =====
-- What a search of the newest messages finds.
use mailclient.Base.{
  ℕ, zero, suc, ◌-◌, ◌*◌, ◌%◌, ◌^◌, ◌≤◌, ◌≡◌, refl, Bool, true, false, ◌&&◌, ◌||◌, Option, none,
  some, List, [], ◌∷◌, leb, ◌==◌, if◌then◌else◌, length, arith, Bool-cases, inl, inr, ==_iff, ap,
}
use mailclient.Base.Order.{contains}
use mailclient.Base.Results.{Result, ok, ◌>>=◌}
use mailclient.Errors.{StoreError}
use mailclient.Imap.Server.{Server}
use mailclient.Imap.Search.{
  union, larger, search_pages, search_pages_from, search_paged, search_recent_uids, u32_max,
}

pub contains-union :
    (u : ℕ) (found uids : List ℕ)
    → contains u (union found uids) ≡ (contains u found || contains u uids)
unfolding union contains
contains-union u found [] = ground arith
contains-union u found (x ∷ uids) =
    let same : (x == u) ≡ true → contains x found ≡ contains u found =
      λ h. ap (λ n. contains n found) ((==_iff x u).0 h) in
    let rest = contains-union u (if contains x found then found else x ∷ found) uids in
    elim (Bool-cases (x == u)) [
      | inl hit ↦ ground (arith, same hit, rest)
      | inr miss ↦ ground (arith, rest)
    ]

-- A search answers with the UIDs in its range that the mailbox has.
abbrev pub SearchesRange : {Raw : Type 0} → Server Raw → (ℕ → Bool) → Type 0
SearchesRange server has =
    (lo hi : ℕ)
    → (uids : List ℕ) × (server.search_range lo hi ≡ ok uids)
      × ((u : ℕ) → contains u uids ≡ (has u && (leb lo u && leb u hi)))

-- The UIDs from `lo` to `top` that the mailbox has.
abbrev pub Found : (ℕ → Bool) → ℕ → ℕ → List ℕ → Type 0
Found has top lo uids = (u : ℕ) → contains u uids ≡ (has u && (leb lo u && leb u top))

module _ {Raw : Type 0} (server : Server Raw) (has : ℕ → Bool)
    (searches : SearchesRange server has) where
  page-Found :
      (top lo hi searched : ℕ) (found uids : List ℕ)
      → searched ≡ suc hi
      → lo ≤ searched
      → hi ≤ top
      → Found has top searched found
      → Found has hi lo uids
      → Found has top lo (union found uids)
  page-Found top lo hi searched found uids below small low old page u =
      ground (arith, contains-union u found uids, old u, page u)

  -- Where a search of pages ends: with what it found from the lowest UID that it asked about.
  abbrev Ends : ℕ → Result StoreError (List ℕ × ℕ) → Type 0
  Ends top result = (r : List ℕ × ℕ) × (result ≡ ok r) × Found has top r.1 r.0 × (1 ≤ r.1)

  pages-Found :
      (pages want span top hi lo searched : ℕ) (found : List ℕ)
      → searched ≡ suc hi
      → 1 ≤ lo
      → lo ≤ searched
      → hi ≤ top
      → Found has top searched found
      → Ends top (search_pages_from server pages want span hi lo found searched)
  unfolding search_pages_from
  pages-Found zero want span top hi lo searched found below h1 small low old =
      ((found, searched), refl, old, omega arith)
  pages-Found (suc pages) want span top hi lo searched found below h1 small low old =
      let (uids, e, page) = searches lo hi in
      let new = page-Found top lo hi searched found uids below small low old page in
      elim (Bool-cases (leb want (length (union found uids)) || leb lo 1)) [
        | inl stop ↦ ((union found uids, lo), rw (e, stop, search_pages_from) refl, new, h1)
        | inr more ↦ elim (Bool-cases (lo - 1 == 0)) [
          | inl stop ↦ ((union found uids, lo), rw (e, more, stop, search_pages_from) refl, new, h1)
          | inr go ↦
              rw (e, more, go, search_pages_from)
                (pages-Found pages want span top (lo - 1) (larger (lo - 1 - (span - 1)) 1) lo
                  (union found uids) (omega arith) (ground arith) (ground arith) (omega arith) new)
        ]
      ]

  paged-Found : (top want span : ℕ) → Ends top (search_paged server top want span)
  unfolding search_paged search_pages_from contains
  paged-Found top want span =
      let span1 = larger span 1 in
      pages-Found search_pages want span1 top top (larger (top - (span1 - 1)) 1) (suc top) [] refl
        (ground arith) (ground arith) (omega arith) (λ u. ground arith)

-- Every UID in use is below UIDNEXT.
abbrev pub Below : (ℕ → Bool) → Option ℕ → Type 0
Below has none = Unit
Below has (some n) = (u : ℕ) → has u ≡ true → suc u ≤ n

-- Two answers of a search, and what is known of the UIDs in use.
pub record IsSearched {Raw : Type 0} (server : Server Raw) (has : ℕ → Bool) (uid_next : Option ℕ)
    : Type 0 where
  pub in_range : SearchesRange server has
  pub everywhere :
      (uids : List ℕ) × (server.search_all ≡ ok uids) × ((u : ℕ) → contains u uids ≡ has u)
  pub positive : has 0 ≡ false
  pub below : Below has uid_next

module _ {Raw : Type 0} (server : Server Raw) (has : ℕ → Bool) where
  -- What `search_recent_uids` gives.
  abbrev pub Recent : Result StoreError (List ℕ × ℕ) → Type 0
  Recent result =
      (r : List ℕ × ℕ) × (result ≡ ok r)
      × ((u : ℕ) → contains u r.0 ≡ (has u && leb r.1 u))
      × (1 ≤ r.1)

  all-Recent :
      (uid_next : Option ℕ)
      → IsSearched server has uid_next
      → Recent (server.search_all >>= λ uids. ok (union [] uids, 1))
  unfolding contains
  all-Recent uid_next s =
      let (uids, e, found) = s.everywhere in
      (
        (union [] uids, 1),
        rw e refl,
        λ u. elim (Bool-cases (u == 0)) [
          | inl zero_uid ↦
              rw ((==_iff u 0).0 zero_uid)
                (ground (arith, contains-union 0 [] uids, found 0, s.positive))
          | inr other ↦ ground (arith, contains-union u [] uids, found u)
        ],
        omega arith,
      )

  -- With a server that answers a search with the UIDs in its range and UIDs from 1 to below
  -- UIDNEXT, the search of the newest messages ends well and finds exactly the UIDs that the
  -- mailbox has from the lowest UID that was asked about on, whatever the window.
  pub search_recent_uids-Recent :
      (window uid_next : Option ℕ)
      → IsSearched server has uid_next
      → Recent (search_recent_uids server window uid_next)
  unfolding search_recent_uids
  search_recent_uids-Recent none uid_next s = all-Recent uid_next s
  search_recent_uids-Recent (some n) none s = all-Recent none s
  search_recent_uids-Recent (some n) (some next) s = elim (Bool-cases (next - 1 == 0)) [
    | inl empty ↦ rw (empty) (all-Recent (some next) s)
    | inr used ↦
        (let n32 = n % 2 ^ 32 in
          let times8 = if leb (n32 * 8) u32_max then n32 * 8 else u32_max in
          let (r, e, found, low) =
            paged-Found server has s.in_range (next - 1) n (larger times8 n32) in
          rw (used) (r, e, λ u. ground (arith, found u, s.below u), low))
  ]
