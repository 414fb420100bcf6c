-- ===== src/Search/Fts/Literals.antt =====
-- A MATCH expression as SQLite reads it: its string literals, in which a doubled quote stands for
-- one, and the text around them, which is the syntax.
use mathlib.Core.Path.{subst}
use mailclient.Base.{
  ℕ, ◌≡◌, refl, sym, ap, ◌∙◌, Bool, true, false, some, List, [], ◌∷◌, ◌++◌, ◌==◌, if◌then◌else◌,
  is_empty, map, append_assoc, append-nil, arith, Bool-cases, inl, inr, or_left,
}
use mailclient.Base.Text.{Text, codes}
use mailclient.Base.Strings.{join, attach, any}
use mailclient.Base.Table.{select_where}
use mailclient.Search.Query.{SearchField, any_field, from, to, subject, SearchTerm, any_positive}
use mailclient.Search.Fts.{
  columns, double_quotes, prefix, fts_term, is_positive, is_negated, exclude, fts_of_terms,
}

-- Where the reader stands: `closing` behind a quote that ends a literal or is half of a doubled
-- one.
pub data Place : Type 0 where
  outside inside closing : Place

abbrev pub is_quote : ℕ → Bool
is_quote c = c == b'"'

unfoldable pub literals : Place → Text → List Text
unfolding attach
literals outside [] = []
literals inside [] = [] ∷ []
literals closing [] = [] ∷ []
literals outside (c ∷ cs) = if is_quote c then literals inside cs else literals outside cs
literals inside (c ∷ cs) = if is_quote c then literals closing cs else attach c (literals inside cs)
literals closing (c ∷ cs) =
    if is_quote c then attach c (literals inside cs) else [] ∷ literals outside cs

unfoldable pub syntax : Place → Text → Text
syntax outside [] = []
syntax inside [] = []
syntax closing [] = []
syntax outside (c ∷ cs) = if is_quote c then syntax inside cs else c ∷ syntax outside cs
syntax inside (c ∷ cs) = if is_quote c then syntax closing cs else syntax inside cs
syntax closing (c ∷ cs) = if is_quote c then syntax inside cs else c ∷ syntax outside cs

-- No quote ahead.
abbrev Calm : Text → Type 0
Calm [] = Unit
Calm (c ∷ cs) = is_quote c ≡ false

-- Before any text that does not start with a quote, the piece is read as these literals with this
-- syntax around them.
record Reads (piece : Text) (ws : List Text) (around : Text) : Type 0 where
  words : (rest : Text) → Calm rest → literals outside (piece ++ rest) ≡ ws ++ literals outside rest
  syntax_of :
      (rest : Text) → Calm rest → syntax outside (piece ++ rest) ≡ around ++ syntax outside rest

literals-plain :
    (xs rest : Text)
    → any is_quote xs ≡ false
    → literals outside (xs ++ rest) ≡ literals outside rest
unfolding any literals
literals-plain [] rest h = refl
literals-plain (x ∷ xs) rest h = ground (arith, literals-plain xs rest)

syntax-plain :
    (xs rest : Text)
    → any is_quote xs ≡ false
    → syntax outside (xs ++ rest) ≡ xs ++ syntax outside rest
unfolding any syntax
syntax-plain [] rest h = refl
syntax-plain (x ∷ xs) rest h = ground (arith, syntax-plain xs rest)

-- A literal is read back as what was quoted, whatever that is.
literals-literal :
    (t rest : Text)
    → Calm rest
    → literals inside (double_quotes t ++ b'"' ∷ rest) ≡ t ∷ literals outside rest
unfolding literals double_quotes
literals-literal [] [] calm = refl
literals-literal [] (c ∷ cs) calm = ground arith
literals-literal (x ∷ xs) rest calm = ground (arith, literals-literal xs rest calm)

syntax-literal :
    (t rest : Text)
    → Calm rest
    → syntax inside (double_quotes t ++ b'"' ∷ rest) ≡ syntax outside rest
unfolding syntax double_quotes
syntax-literal [] [] calm = refl
syntax-literal [] (c ∷ cs) calm = ground arith
syntax-literal (x ∷ xs) rest calm = ground (arith, syntax-literal xs rest calm)

columns-plain : (f : SearchField) → any is_quote (columns f) ≡ false
unfolding any columns
columns-plain any_field = refl
columns-plain from = refl
columns-plain to = refl
columns-plain subject = refl

prefix-plain : (phrase : Bool) → any is_quote (prefix phrase) ≡ false
unfolding any prefix
prefix-plain true = refl
prefix-plain false = refl

prefix-Calm : (phrase : Bool) (rest : Text) → Calm rest → Calm (prefix phrase ++ rest)
unfolding prefix
prefix-Calm true rest calm = calm
prefix-Calm false rest calm = refl

-- What of a term is syntax.
abbrev pub shape : SearchTerm → Text
shape t = columns t.field ++ prefix t.phrase

-- The term with its parts in the order of reading.
term_parts :
    (t : SearchTerm) (rest : Text)
    → fts_term t ++ rest
      ≡ columns t.field ++ (b'"' ∷ double_quotes t.text ++ b'"' ∷ (prefix t.phrase ++ rest))
unfolding fts_term
term_parts t rest = simp (append_assoc)

fts_term-Reads : (t : SearchTerm) → Reads (fts_term t) (t.text ∷ []) (shape t)
unfolding literals syntax
fts_term-Reads t = record {
  words = (λ rest calm.
      let body : Text = b'"' ∷ double_quotes t.text ++ b'"' ∷ (prefix t.phrase ++ rest) in
      rw
        (
          term_parts t rest,
          literals-plain (columns t.field) body (columns-plain t.field),
          literals-literal t.text (prefix t.phrase ++ rest) (prefix-Calm t.phrase rest calm),
          literals-plain (prefix t.phrase) rest (prefix-plain t.phrase),
        )
        refl);
  syntax_of = (λ rest calm.
      let body : Text = b'"' ∷ double_quotes t.text ++ b'"' ∷ (prefix t.phrase ++ rest) in
      rw
        (
          term_parts t rest,
          syntax-plain (columns t.field) body (columns-plain t.field),
          syntax-literal t.text (prefix t.phrase ++ rest) (prefix-Calm t.phrase rest calm),
          syntax-plain (prefix t.phrase) rest (prefix-plain t.phrase),
          append_assoc (columns t.field) (prefix t.phrase) (syntax outside rest),
        )
        refl);
}

-- A piece, a separator and a piece.
chain :
    {p p' : Text} {ws ws' : List Text} {a a' : Text} (c : ℕ) (s : Text)
    → any is_quote (c ∷ s) ≡ false
    → Reads p ws a
    → Reads p' ws' a'
    → Reads (p ++ ((c ∷ s) ++ p')) (ws ++ ws') (a ++ ((c ∷ s) ++ a'))
unfolding any
chain {p} {p'} {ws} {ws'} {a} {a'} c s plain r r' = record {
  words = (λ rest calm.
      rw
        (
          append_assoc p ((c ∷ s) ++ p') rest,
          append_assoc (c ∷ s) p' rest,
          r.words ((c ∷ s) ++ (p' ++ rest)) (or_left _ _ plain),
          literals-plain (c ∷ s) (p' ++ rest) plain,
          r'.words rest calm,
          append_assoc ws ws' (literals outside rest),
        )
        refl);
  syntax_of = (λ rest calm.
      rw
        (
          append_assoc p ((c ∷ s) ++ p') rest,
          append_assoc (c ∷ s) p' rest,
          r.syntax_of ((c ∷ s) ++ (p' ++ rest)) (or_left _ _ plain),
          syntax-plain (c ∷ s) (p' ++ rest) plain,
          r'.syntax_of rest calm,
          append_assoc a ((c ∷ s) ++ a') (syntax outside rest),
          append_assoc (c ∷ s) a' (syntax outside rest),
        )
        refl);
}

abbrev pub texts : List SearchTerm → List Text
texts ts = map (λ (t : SearchTerm). t.text) ts

join-Reads :
    (c : ℕ) (s : Text) (t : SearchTerm) (ts : List SearchTerm)
    → any is_quote (c ∷ s) ≡ false
    → Reads
        (join (c ∷ s) (map fts_term (t ∷ ts)))
        (texts (t ∷ ts))
        (join (c ∷ s) (map shape (t ∷ ts)))
unfolding join
join-Reads c s t [] plain = fts_term-Reads t
join-Reads c s t (u ∷ ts) plain = chain c s plain (fts_term-Reads t) (join-Reads c s u ts plain)

-- What of an excluded term's wrapping is syntax.
unfoldable around : Text → List SearchTerm → Text
around a [] = a
around a (t ∷ ts) = around ((b'(' ∷ a) ++ (codes ") NOT " ++ shape t)) ts

open_paren-Reads :
    {q : Text} {ws : List Text} {a : Text} → Reads q ws a → Reads (b'(' ∷ q) ws (b'(' ∷ a)
unfolding literals syntax
open_paren-Reads r = record {
  words = (λ rest calm. r.words rest calm);
  syntax_of = (λ rest calm. ap (λ (s : Text). b'(' ∷ s) (r.syntax_of rest calm));
}

exclude-Reads :
    (ts : List SearchTerm) {q : Text} {ws : List Text} {a : Text}
    → Reads q ws a
    → Reads (exclude q ts) (ws ++ texts ts) (around a ts)
unfolding exclude around any
exclude-Reads [] {q} {ws} {a} r = rw (append-nil ws) r
exclude-Reads (t ∷ ts) {q} {ws} {a} r =
    rw (sym (append_assoc ws (t.text ∷ []) (texts ts)))
      (exclude-Reads ts (chain b')' (codes " NOT ") refl (open_paren-Reads r) (fts_term-Reads t)))

-- The term without its text.
abbrev pub blank : SearchTerm → SearchTerm
blank t = record { field = t.field; text = []; phrase = t.phrase; negated = t.negated }

around-blank : (a : Text) (ts : List SearchTerm) → around a (map blank ts) ≡ around a ts
unfolding around
around-blank a [] = refl
around-blank a (t ∷ ts) = around-blank ((b'(' ∷ a) ++ (codes ") NOT " ++ shape t)) ts

shapes-blank : (ts : List SearchTerm) → map shape (map blank ts) ≡ map shape ts
shapes-blank [] = refl
shapes-blank (t ∷ ts) = ap (λ (ws : List Text). shape t ∷ ws) (shapes-blank ts)

select-blank :
    (test : SearchTerm → Bool) (ts : List SearchTerm)
    → ((t : SearchTerm) → test (blank t) ≡ test t)
    → select_where test (map blank ts) ≡ map blank (select_where test ts)
unfolding select_where
select-blank test [] same = refl
select-blank test (t ∷ ts) same = elim (Bool-cases (test t)) [
  | inl taken ↦ rw (same t, taken, select-blank test ts same) refl
  | inr left ↦ rw (same t, left, select-blank test ts same) refl
]

some_positive :
    (ts : List SearchTerm)
    → any_positive ts ≡ true
    → (t : SearchTerm) × (us : List SearchTerm) × (select_where is_positive ts ≡ t ∷ us)
unfolding any_positive select_where
some_positive [] h = cc
some_positive (t ∷ ts) h = elim (Bool-cases t.negated) [
  | inl out ↦
      (let (u, us, e) = some_positive ts (ground (arith, out, h)) in
        (u, us, ground (arith, out, e)))
  | inr kept ↦ (t, select_where is_positive ts, ground (arith, kept))
]

not_empty-append : (xs : Text) (y : ℕ) (ys : Text) → is_empty (xs ++ y ∷ ys) ≡ false
not_empty-append [] y ys = refl
not_empty-append (x ∷ xs) y ys = refl

not_empty-join :
    (t : SearchTerm) (ts : List SearchTerm)
    → is_empty (join (b' ' ∷ []) (map fts_term (t ∷ ts))) ≡ false
unfolding join fts_term
not_empty-join t [] = not_empty-append (columns t.field) _ _
not_empty-join t (u ∷ ts) =
    (let rest = (b' ' ∷ []) ++ join (b' ' ∷ []) (map fts_term (u ∷ ts)) in
      subst (λ s. is_empty s ≡ false) (sym (term_parts t rest))
        (not_empty-append (columns t.field) b'"' _))

positives-blank :
    (ts : List SearchTerm)
    → select_where is_positive (map blank ts) ≡ map blank (select_where is_positive ts)
positives-blank ts = select-blank is_positive ts (λ t. refl)

negated-blank :
    (ts : List SearchTerm)
    → select_where is_negated (map blank ts) ≡ map blank (select_where is_negated ts)
negated-blank ts = select-blank is_negated ts (λ t. refl)

-- The expression of terms, one of them to be found, and how it is read.
of_terms-Reads :
    (ts us : List SearchTerm) (t : SearchTerm)
    → select_where is_positive ts ≡ t ∷ us
    → (q : Text) × (fts_of_terms ts ≡ some q)
      × Reads q
          (texts (t ∷ us) ++ texts (select_where is_negated ts))
          (around (join (b' ' ∷ []) (map shape (t ∷ us))) (select_where is_negated ts))
unfolding fts_of_terms any
of_terms-Reads ts us t e =
    let out = select_where is_negated ts in
    (
      exclude (join (b' ' ∷ []) (map fts_term (t ∷ us))) out,
      rw (e, not_empty-join t us) refl,
      exclude-Reads out (join-Reads b' ' [] t us refl),
    )

alone :
    {q : Text} {ws : List Text} {a : Text}
    → Reads q ws a
    → (literals outside q ≡ ws) × (syntax outside q ≡ a)
unfolding literals syntax
alone {q} {ws} {a} r = (
  rw (append-nil q, append-nil ws) at (r.words [] tt),
  rw (append-nil q, append-nil a) at (r.syntax_of [] tt),
)

-- Whatever is typed stays text: terms of which one is to be found become a MATCH expression in
-- which SQLite reads, as string literals, exactly the texts of the terms, those to be found
-- first. What it reads as syntax around them is the same as that of the terms without their
-- texts.
pub fts_of_terms-literals :
    (ts : List SearchTerm)
    → any_positive ts ≡ true
    → (q : Text) × (q' : Text) × (fts_of_terms ts ≡ some q)
      × (fts_of_terms (map blank ts) ≡ some q')
      × (literals outside q
          ≡ texts (select_where is_positive ts) ++ texts (select_where is_negated ts))
      × (syntax outside q ≡ syntax outside q')
fts_of_terms-literals ts h =
    let (t, us, e) = some_positive ts h in
    let (q, made, r) = of_terms-Reads ts us t e in
    let (q', made', r') =
      of_terms-Reads (map blank ts) (map blank us) (blank t)
        (positives-blank ts ∙ ap (λ vs. map blank vs) e) in
    (
      q,
      q',
      made,
      made',
      rw (e) (alone r).0,
      (alone r).1
          ∙ sym (
              (alone r').1
              ∙ rw (shapes-blank us, negated-blank ts, around-blank _ (select_where is_negated ts))
                  refl),
    )
