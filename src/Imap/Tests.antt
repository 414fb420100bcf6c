-- ===== src/Imap/Tests.antt =====
-- Tests of mailbox names and paths, and its theorems at inputs where their hypotheses hold.
use mailclient.Base.Results.{ok}
use mailclient.Imap.Paths.{normalize_folder_path}
use mailclient.Imap.Paths.Again.{normalize_folder_path-again}
use mailclient.Imap.Sequences.{
  value, single, range, vanished_ranges, in_ranges, set_names, vanished_ranges-set_names,
}
use mailclient.Base.{◌≤◌, ◌∷◌, length, ◌≡◌, refl, All, arith, []}
use mailclient.Imap.Utf7.RoundTrip.{decode-encode_modified_utf7}
use mailclient.Imap.Utf7.Wire.{IsPrintable, encode_modified_utf7-IsPrintable}
use mailclient.Base.Text.{codes, replace, trim_end_matches}
use mailclient.Imap.Utf16.{encode_utf16, decode_utf16}
use mailclient.Imap.Base64.{base64_encode, base64_decode}
use mailclient.Imap.Utf7.{
  encode_modified_utf7, decode_modified_utf7, flush, bytes_of_units, units_of_bytes,
}

decodes_drafts :
    decode_modified_utf7 (codes "[Google Mail]/Entw&APw-rfe") ≡ codes "[Google Mail]/Entwürfe"
unfolding decode_modified_utf7 replace base64_decode units_of_bytes decode_utf16
decodes_drafts = refl

encodes_japanese :
    encode_modified_utf7 (codes "Grüße/日本語 & Co") ≡ codes "Gr&APwA3w-e/&ZeVnLIqe- &- Co"
unfolding encode_modified_utf7 flush bytes_of_units trim_end_matches replace base64_encode
    encode_utf16
encodes_japanese = refl

broken_shift : decode_modified_utf7 (codes "A&!!!-B Box&") ≡ codes "A&!!!-B Box&"
unfolding decode_modified_utf7 replace base64_decode units_of_bytes decode_utf16
broken_shift = refl

decode-encode_modified_utf7_example :
    decode_modified_utf7 (encode_modified_utf7 (codes "Grüße/日本語 & 𝄞")) ≡ codes "Grüße/日本語 & 𝄞"
decode-encode_modified_utf7_example =
    decode-encode_modified_utf7 (codes "Grüße/日本語 & 𝄞") (omega arith)

encode_modified_utf7-IsPrintable_example :
    All IsPrintable (encode_modified_utf7 (codes "Grüße/日本語 & Co"))
encode_modified_utf7-IsPrintable_example = encode_modified_utf7-IsPrintable (codes "Grüße/日本語 & Co")

vanished_ranges-set_names_example :
    (let set = range (value 1) (value 3) ∷ single (value 5) ∷ range (value 10) (value 8) ∷ [] in
      (in_ranges 9 (vanished_ranges set) ≡ set_names 9 set)
      × (length (vanished_ranges set) ≤ length set))
vanished_ranges-set_names_example =
    vanished_ranges-set_names 9
      (range (value 1) (value 3) ∷ single (value 5) ∷ range (value 10) (value 8) ∷ [])

normalize_folder_path-again_example :
    normalize_folder_path (codes "INBOX.Archive.2026") b'.' ≡ ok (codes "INBOX.Archive.2026")
unfolding normalize_folder_path replace
normalize_folder_path-again_example =
    normalize_folder_path-again (codes "  INBOX / Archive.2026 ") b'.' (codes "INBOX.Archive.2026")
      refl refl
