-- ===== src/Content/Tests.antt =====
-- Tests of content lines, and their theorems at inputs where their hypotheses hold.
use mailclient.Base.{◌≡◌, refl, some, [], ◌∷◌, ◌++◌, ◌+◌, List}
use mailclient.Base.Text.{codes}
use mailclient.Base.Strings.{all, is_ascii_digit}
use mailclient.Content.Times.{fits, parse_duration_seconds}
use mailclient.Content.Times.Parts.{Part, days, minutes, print_parts, seconds_of}
use mailclient.Content.Lines.Escapes.{escape, unescape_text-escape}
use mailclient.Content.Times.Sum.{parse_duration_seconds-sum}
use mailclient.Content.Lines.{unescape_text, ContentLine, parse_content_line, unfold_lines}
use mailclient.Content.Lines.Folding.{done, keeps, ends, folds, lf, crlf, space, unfold_lines-Folds}
use mailclient.Content.Lines.RoundTrip.{print_line, parse_content_line-print}

bare_parameter :
    parse_content_line (codes "tel;CELL;type=\"a;b:c\":+49")
    ≡ some (record {
      name = codes "TEL";
      params = (codes "CELL", []) ∷ (codes "TYPE", codes "a;b:c") ∷ [];
      value = codes "+49";
    })
unfolding parse_content_line
bare_parameter = refl

abbrev attendee : ContentLine
attendee = record {
  name = codes "ATTENDEE";
  params = (codes "CN", codes "A \"B\"; C^D") ∷ [];
  value = codes "mailto:a@b.c";
}

parse_content_line-print_example : parse_content_line (print_line attendee) ≡ some attendee
unfolding all
parse_content_line-print_example =
    parse_content_line-print attendee ((refl, refl), ((refl, refl), tt))

unfold_lines-Folds_example : unfold_lines (codes "a\r\n b\n") ≡ codes "ab\n"
unfold_lines-Folds_example =
    unfold_lines-Folds (codes "ab\n") (codes "a\r\n b\n")
      (keeps b'a' refl refl (folds crlf space (keeps b'b' refl refl (ends lf refl done))))

a_day_and_a_half : parse_duration_seconds (codes " +P1DT12H ") ≡ some 129_600
unfolding parse_duration_seconds
a_day_and_a_half = refl

-- Without any part, with a `T` and nothing behind it, in another order, and twice the same.
reads_malformed :
    (parse_duration_seconds (codes "P") ≡ some 0)
    × (parse_duration_seconds (codes "P1DT") ≡ some 86_400)
    × (parse_duration_seconds (codes "PT5M1H") ≡ some 3_900)
    × (parse_duration_seconds (codes "P1D1D") ≡ some 172_800)
unfolding parse_duration_seconds
reads_malformed = (refl, refl, refl, refl)

abbrev date_parts : List Part
date_parts = (codes "01", days) ∷ []

abbrev clock_parts : List Part
clock_parts = (codes "90", minutes) ∷ []

parse_duration_seconds-sum_example :
    parse_duration_seconds (b'P' ∷ print_parts date_parts ++ b'T' ∷ print_parts clock_parts)
    ≡ fits (seconds_of date_parts + seconds_of clock_parts)
unfolding all is_ascii_digit
parse_duration_seconds-sum_example =
    parse_duration_seconds-sum date_parts clock_parts ((refl, refl, refl), tt)
      ((refl, refl, refl), tt)

unescape_text-escape_example : unescape_text (escape (codes "a,b;\\n\nc")) ≡ codes "a,b;\\n\nc"
unescape_text-escape_example = unescape_text-escape (codes "a,b;\\n\nc")
