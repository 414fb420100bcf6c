-- ===== src/Search/Query/RoundTrip.antt =====
-- Terms that are printed as the syntax help shows them come back from the parser.
use mailclient.Base.{
  ℕ, zero, suc, ◌+◌, ◌≤◌, ◌≡◌, refl, sym, ap, ◌∙◌, Bool, true, false, Option, some, List, [], ◌∷◌,
  ◌++◌, length, append_assoc, append-nil, arith, All,
}
use mailclient.Base.Lists.{length-append}
use mailclient.Base.Text.{Text, starts_with}
use mailclient.Base.Strings.{any, is_whitespace, trim_start, join}
use mailclient.Search.Query.{
  SearchField, any_field, from, to, subject, SearchTerm, SearchFilters, Round, field_name,
  candidate_round, round, push, parse_loop, parse_query_full, no_filters,
}
use mailclient.Search.Query.Pieces.{Gap, ends, goes, any-head}
use mailclient.Search.Query.Spelled.{
  body, print_term, print, Starts, Starts-append, Starts-length, trim_Starts, IsPrintable, IsBody,
  no_dash, candidate_round-printed,
}

module _ (is_alphanumeric : ℕ → Bool) (parse_from_str : Text → Option ℕ) (format : ℕ → Text) where
  round-dash :
      (s : Text) (fs : SearchFilters)
      → starts_with (b'-' ∷ []) s ≡ false
      → round is_alphanumeric parse_from_str format s fs
        ≡ candidate_round is_alphanumeric parse_from_str format s false fs
  unfolding round
  round-dash s fs h = rw (round, h) refl

  -- The round that reads a printed term.
  round-printed :
      (f : SearchField) (phrase : Bool) (s : Text) (negated : Bool) (rest : Text)
      (fs : SearchFilters)
      → IsBody is_alphanumeric parse_from_str format phrase s
      → Gap rest
      → round is_alphanumeric parse_from_str format
          (print_term (record { field = f; text = s; phrase = phrase; negated = negated }) ++ rest)
          fs
        ≡ record {
          rest = trim_start rest;
          found = some (record { field = f; text = s; phrase = phrase; negated = negated });
          filters = fs;
        }
  unfolding print_term round
  round-printed f phrase s true rest fs h gap =
      rw (append_assoc (field_name f) (body phrase s) rest) (
        candidate_round-printed is_alphanumeric parse_from_str format f phrase s rest true fs h gap)
  round-printed f phrase s false rest fs h gap =
      rw (append_assoc (field_name f) (body phrase s) rest) (
        round-dash (field_name f ++ (body phrase s ++ rest)) fs
          (no_dash is_alphanumeric parse_from_str format f phrase s rest h)
        ∙ candidate_round-printed is_alphanumeric parse_from_str format f phrase s rest false fs h
            gap)

  spelled-Starts :
      (f : SearchField) (phrase : Bool) (s : Text)
      → IsBody is_alphanumeric parse_from_str format phrase s
      → Starts (field_name f ++ body phrase s)
  unfolding field_name is_whitespace body any
  spelled-Starts from phrase s h = refl
  spelled-Starts to phrase s h = refl
  spelled-Starts subject phrase s h = refl
  spelled-Starts any_field true s h = refl
  spelled-Starts any_field false [] (_, (letter, _)) = cc
  spelled-Starts any_field false (c ∷ cs) (_, (_, (solid, _, _))) =
      any-head is_whitespace c cs solid

  print_term-Starts :
      (f : SearchField) (phrase : Bool) (s : Text) (negated : Bool)
      → IsBody is_alphanumeric parse_from_str format phrase s
      → Starts (print_term (record { field = f; text = s; phrase = phrase; negated = negated }))
  unfolding print_term is_whitespace
  print_term-Starts f phrase s true h = refl
  print_term-Starts f phrase s false h = spelled-Starts f phrase s h

  printable-IsBody :
      (t : SearchTerm)
      → IsPrintable is_alphanumeric parse_from_str format t
      → IsBody is_alphanumeric parse_from_str format t.phrase t.text
  printable-IsBody t (term, spelled) = (term.0, (term.1, spelled))

  -- What stands behind the first term.
  abbrev behind : List SearchTerm → Text
  behind [] = []
  behind (t ∷ ts) = b' ' ∷ print (t ∷ ts)

  print-behind :
      (t : SearchTerm) (ts : List SearchTerm) → print (t ∷ ts) ≡ print_term t ++ behind ts
  unfolding print join
  print-behind t [] = sym (append-nil (print_term t))
  print-behind t (u ∷ us) = refl

  short_behind : (ts : List SearchTerm) → length (print ts) ≤ length (behind ts)
  unfolding print join
  short_behind [] = omega arith
  short_behind (t ∷ ts) = omega arith

  behind-Gap : (ts : List SearchTerm) → Gap (behind ts)
  behind-Gap [] = ends
  behind-Gap (t ∷ ts) = goes (print (t ∷ ts))

  print-Starts :
      (t : SearchTerm) (ts : List SearchTerm)
      → IsPrintable is_alphanumeric parse_from_str format t
      → Starts (print (t ∷ ts))
  print-Starts t ts h = rw (print-behind t ts) (
      Starts-append (print_term t) (behind ts)
        (print_term-Starts t.field t.phrase t.text t.negated (printable-IsBody t h)))

  trim_behind :
      (ts : List SearchTerm)
      → All (IsPrintable is_alphanumeric parse_from_str format) ts
      → trim_start (behind ts) ≡ print ts
  unfolding trim_start print join is_whitespace
  trim_behind [] h = refl
  trim_behind (t ∷ ts) (h, hs) = trim_Starts (print (t ∷ ts)) (print-Starts t ts h)

  loop_step :
      (n : ℕ) (s : Text) (fs : SearchFilters)
      → Starts s
      → (let r = round is_alphanumeric parse_from_str format s fs in
          parse_loop is_alphanumeric parse_from_str format (suc n) s fs
          ≡ push r.found (parse_loop is_alphanumeric parse_from_str format n r.rest r.filters))
  unfolding parse_loop
  loop_step n [] fs h = absurd h
  loop_step n (c ∷ cs) fs h = refl

  round-print :
      (t : SearchTerm) (ts : List SearchTerm) (fs : SearchFilters)
      → All (IsPrintable is_alphanumeric parse_from_str format) (t ∷ ts)
      → round is_alphanumeric parse_from_str format (print (t ∷ ts)) fs
        ≡ record { rest = print ts; found = some t; filters = fs }
  round-print t ts fs (h, hs) =
      ap (λ s. round is_alphanumeric parse_from_str format s fs) (print-behind t ts)
      ∙ round-printed t.field t.phrase t.text t.negated (behind ts) fs (printable-IsBody t h)
          (behind-Gap ts)
      ∙ ap (λ s. record { rest = s; found = some t; filters = fs }) (trim_behind ts hs)

  print-longer :
      (t : SearchTerm) (ts : List SearchTerm)
      → IsPrintable is_alphanumeric parse_from_str format t
      → suc (length (print ts)) ≤ length (print (t ∷ ts))
  unfolding print join
  print-longer t ts h =
      let there =
        Starts-length (print_term t)
          (print_term-Starts t.field t.phrase t.text t.negated (printable-IsBody t h)) in
      let whole : length (print (t ∷ ts)) ≡ length (print_term t) + length (behind ts) =
        ap length (print-behind t ts) ∙ length-append (print_term t) (behind ts) in
      omega (arith, there, whole, short_behind ts)

  parse_loop-print :
      (n : ℕ) (ts : List SearchTerm) (fs : SearchFilters)
      → All (IsPrintable is_alphanumeric parse_from_str format) ts
      → length (print ts) ≤ n
      → parse_loop is_alphanumeric parse_from_str format n (print ts) fs
        ≡ record { terms = ts; filters = fs }
  unfolding parse_loop print join
  parse_loop-print zero [] fs h le = refl
  parse_loop-print (suc n) [] fs h le = refl
  parse_loop-print zero (t ∷ ts) fs (h, hs) le = absurd (omega (arith, print-longer t ts h))
  parse_loop-print (suc n) (t ∷ ts) fs (h, hs) le =
      loop_step n (print (t ∷ ts)) fs (print-Starts t ts h)
      ∙ ap
          (λ (r : Round).
            push r.found (parse_loop is_alphanumeric parse_from_str format n r.rest r.filters))
          (round-print t ts fs (h, hs))
      ∙ ap (push (some t)) (parse_loop-print n ts fs hs (omega (arith, print-longer t ts h)))

  print_start :
      (ts : List SearchTerm)
      → All (IsPrintable is_alphanumeric parse_from_str format) ts
      → trim_start (print ts) ≡ print ts
  unfolding print join trim_start
  print_start [] h = refl
  print_start (t ∷ ts) (h, hs) = trim_Starts (print (t ∷ ts)) (print-Starts t ts h)

  -- Terms come back from the text that the syntax help gives them, in their order, with their
  -- fields, their exclusion and their quotes, and no filter is read into them. Their texts hold
  -- a letter or a digit, and neither `"` nor `*`; a phrase has its words one space apart, and a
  -- word has no white space, no colon and no dash at its start.
  pub parse_query_full-print :
      (ts : List SearchTerm)
      → All (IsPrintable is_alphanumeric parse_from_str format) ts
      → parse_query_full is_alphanumeric parse_from_str format (print ts)
        ≡ record { terms = ts; filters = no_filters }
  unfolding parse_query_full
  parse_query_full-print ts h =
      ap (λ s. parse_loop is_alphanumeric parse_from_str format (length (print ts)) s no_filters)
        (print_start ts h)
      ∙ parse_loop-print (length (print ts)) ts no_filters h (omega arith)
