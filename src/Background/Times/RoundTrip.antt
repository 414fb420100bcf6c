-- ===== src/Background/Times/RoundTrip.antt =====
-- A typed time is stored as two digits each, and reads as the hour and the minute typed.
use mailclient.Base.{
  ℕ, ◌+◌, ◌*◌, ◌/◌, ◌%◌, ◌≡◌, refl, ◌∙◌, ◌<◌, Bool, true, false, ◌&&◌, Option, none, some, List, [],
  ◌∷◌, ◌++◌, ltb, ◌==◌, if◌then◌else◌, arith, All, Bool-cases, inl, inr,
}
use mailclient.Base.Range.{all_below, all_below-test}
use mailclient.Background.QuietHours.{hour}
use mailclient.Background.Times.{
  minute, is_whitespace, trim, trim_start, trim_end, split_once, digits, parse_u32, from_hms_opt,
  parse_time, format_time, normalize_time, time_parts,
}

-- A number below 100 in two digits.
abbrev pub two : ℕ → List ℕ
two n = (48 + n / 10) ∷ (48 + n % 10) ∷ []

-- An hour as typed: in two digits, or an hour before ten in one.
abbrev pub written : Bool → ℕ → List ℕ
written short h = if short && ltb h 10 then (48 + h) ∷ [] else two h

abbrev pub clock : List ℕ → ℕ → List ℕ
clock hours m = hours ++ (58 ∷ two m)

abbrev pub Spaces : List ℕ → Type 0
Spaces text = All (λ c. is_whitespace c ≡ true) text

abbrev reads_as : ℕ → Option ℕ → Bool
reads_as t none = false
reads_as t (some s) = t == s

abbrev at : ℕ → ℕ → ℕ
at h m = h * hour + m * minute

reads_as-some : (t : ℕ) (o : Option ℕ) → reads_as t o ≡ true → o ≡ some t
reads_as-some t none h = cc
reads_as-some t (some s) h = ground arith

every_minute :
    (short : Bool)
    → all_below 24
        (λ h. all_below 60 (λ m. reads_as (at h m) (parse_time (clock (written short h) m))))
      ≡ true
unfolding all_below parse_time trim trim_start trim_end split_once parse_u32 digits from_hms_opt
every_minute true = refl
every_minute false = refl

parse-clock :
    (short : Bool) (h m : ℕ)
    → h < 24
    → m < 60
    → parse_time (clock (written short h) m) ≡ some (at h m)
parse-clock short h m h1 h2 =
    reads_as-some (at h m) (parse_time (clock (written short h) m))
      (all_below-test 60 _ m (all_below-test 24 _ h (every_minute short) h1) h2)

trim_end-Spaces : (post : List ℕ) → Spaces post → trim_end post ≡ []
unfolding trim_end
trim_end-Spaces [] s = refl
trim_end-Spaces (c ∷ post) (s, ss) = rw (trim_end-Spaces post ss, s) refl

trim_end-append : (text post : List ℕ) → Spaces post → trim_end (text ++ post) ≡ trim_end text
unfolding trim_end
trim_end-append [] post s = trim_end-Spaces post s
trim_end-append (c ∷ text) post s = rw (trim_end-append text post s) refl

trim_start-append : (pre text : List ℕ) → Spaces pre → trim_start (pre ++ text) ≡ trim_start text
unfolding trim_start
trim_start-append [] text s = refl
trim_start-append (c ∷ pre) text (s, ss) = rw (s) (trim_start-append pre text ss)

-- Blanks around a text that begins with none are trimmed.
trim-around :
    (pre text post : List ℕ) (c : ℕ)
    → Spaces pre
    → Spaces post
    → is_whitespace c ≡ false
    → trim (pre ++ (c ∷ text ++ post)) ≡ trim (c ∷ text)
unfolding trim trim_start
trim-around pre text post c s s' solid =
    rw (trim_start-append pre (c ∷ text ++ post) s, solid) (trim_end-append (c ∷ text) post s')

digit_solid : (n : ℕ) → n < 10 → is_whitespace (48 + n) ≡ false
digit_solid n h = ground arith

parse-around :
    (pre text post : List ℕ) (c : ℕ)
    → Spaces pre
    → Spaces post
    → is_whitespace c ≡ false
    → parse_time (pre ++ (c ∷ text ++ post)) ≡ parse_time (c ∷ text)
unfolding parse_time
parse-around pre text post c s s' solid = rw (trim-around pre text post c s s' solid) refl

parse-typed :
    (pre post : List ℕ) (short : Bool) (h m : ℕ)
    → Spaces pre
    → Spaces post
    → h < 24
    → m < 60
    → parse_time (pre ++ (clock (written short h) m ++ post)) ≡ some (at h m)
parse-typed pre post short h m s s' h1 h2 = elim (Bool-cases (short && ltb h 10)) [
  | inl one ↦
      (let read = rw (one) at (parse-clock short h m h1 h2) in
        rw (one)
          (parse-around pre (58 ∷ two m) post (48 + h) s s' (digit_solid h (ground arith)) ∙ read))
  | inr two_digits ↦
      (let read = rw (two_digits) at (parse-clock short h m h1 h2) in
        rw (two_digits) (
          parse-around pre ((48 + h % 10) ∷ 58 ∷ two m) post (48 + h / 10) s s'
            (digit_solid (h / 10) (omega arith))
          ∙ read))
]

hours_of : (h m : ℕ) → h < 24 → m < 60 → at h m / hour ≡ h
hours_of h m h1 h2 = omega arith

minutes_of : (h m : ℕ) → h < 24 → m < 60 → (at h m / minute) % 60 ≡ m
minutes_of h m h1 h2 = omega arith

-- An hour of the day typed in two digits, or in one if it is below ten, a colon and a minute in
-- two digits, with any blanks around, is stored as two digits each. What is stored is stored
-- for itself, and both show that hour and that minute.
pub normalize_time-stored :
    (pre post : List ℕ) (short : Bool) (h m : ℕ)
    → Spaces pre
    → Spaces post
    → h < 24
    → m < 60
    → (let typed = pre ++ (clock (written short h) m ++ post) in
        let stored = clock (two h) m in
        (normalize_time typed ≡ some stored)
        × (normalize_time stored ≡ some stored)
        × (time_parts typed ≡ some (h, m))
        × (time_parts stored ≡ some (h, m)))
unfolding normalize_time time_parts format_time
normalize_time-stored pre post short h m s s' h1 h2 =
    let typed = parse-typed pre post short h m s s' h1 h2 in
    let stored = parse-clock false h m h1 h2 in
    let hs = hours_of h m h1 h2 in
    let ms = minutes_of h m h1 h2 in
    (
      rw (typed, hs, ms, normalize_time) refl,
      rw (stored, hs, ms, normalize_time) refl,
      rw (typed, hs, ms, time_parts) refl,
      rw (stored, hs, ms, time_parts) refl,
    )
