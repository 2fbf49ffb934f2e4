-- ===== src/Validate/Names.antt =====
-- src/design.rs: the predicates on names, paths, texts, digests and dates. A string is its bytes;
-- a test of characters that no byte of a longer character passes is a test of bytes.
use circuitc.Prelude.{
  ℕ, ◌+◌, ◌-◌, ◌*◌, ◌%◌, Bool, true, false, not, ◌&&◌, ◌||◌, List, [], ◌∷◌, reverse, length, Option,
  none, some, Text, codes, text_eq, ltb, ◌==◌, if◌then◌else◌,
}
use circuitc.Prelude.Unicode.{
  within, is_ascii_digit, is_ascii_alphabetic, is_control, is_whitespace,
}
use circuitc.Design.{ApprovedSubstitution}
use circuitc.Design.Canonical.{all}
use circuitc.Validate.Report.{any}

abbrev pub is_empty : {A : Type 0} → List A → Bool
is_empty [] = true
is_empty (_ ∷ _) = false

abbrev is_ascii_alphanumeric : ℕ → Bool
is_ascii_alphanumeric c = is_ascii_alphabetic c || is_ascii_digit c

abbrev is_token_char : ℕ → Bool
is_token_char c = is_ascii_alphanumeric c || any (λ mark. c == mark) (codes "_+-./")

unfoldable pub token_is_valid : Text → Bool
token_is_valid value = not (is_empty value) && all is_token_char value

abbrev starts_word : Text → Bool
starts_word [] = false
starts_word (first ∷ _) = is_ascii_alphabetic first || first == b'_'

unfoldable pub artifact_name_is_valid : Text → Bool
artifact_name_is_valid value =
    starts_word value && all (λ c. is_ascii_alphanumeric c || c == b'_' || c == b'-') value

-- `split('.')`: the pieces, of which there is always a first.
unfoldable pub split_dots : Text → Text × List Text
split_dots [] = ([], [])
split_dots (c ∷ cs) =
    let (piece, pieces) = split_dots cs in
    if c == b'.' then ([], piece ∷ pieces) else (c ∷ piece, pieces)

abbrev starts_with_dot : Text → Bool
starts_with_dot [] = false
starts_with_dot (c ∷ _) = c == b'.'

unfoldable pub semantic_path_is_valid : Text → Bool
unfolding split_dots
semantic_path_is_valid value =
    not (is_empty value)
    && token_is_valid (split_dots value).0
    && all token_is_valid (split_dots value).1
    && not (starts_with_dot value)
    && not (starts_with_dot (reverse value))

-- `rsplit_once('.')`, its first half: what stands before the last dot.
unfoldable pub parent_path : Text → Option Text
parent_path [] = none
parent_path (c ∷ cs) = elim (parent_path cs) [
  | some before ↦ some (c ∷ before)
  | none ↦ if c == b'.' then some [] else none
]

-- A continuation byte, and the value with its six bits.
abbrev continue_char : ℕ → ℕ → Option ℕ × ℕ × ℕ
continue_char pending value =
    if pending == 1 then (some value, 0, 0) else (none, pending - 1, value)

-- One byte of UTF-8: the bytes that are still to come and the value so far, and the character
-- that is complete.
abbrev utf8_step : ℕ → ℕ → ℕ → Option ℕ × ℕ × ℕ
utf8_step pending value byte =
    if ltb byte 0x80
    then (some byte, 0, 0)
    else if ltb byte 0xc0
    then continue_char pending (value * 64 + (byte - 0x80))
    else if ltb byte 0xe0
    then (none, 1, byte - 0xc0)
    else if ltb byte 0xf0
    then (none, 2, byte - 0xe0)
    else (none, 3, byte - 0xf0)

abbrev cons_some : Option ℕ → Text → Text
cons_some none cs = cs
cons_some (some c) cs = c ∷ cs

unfoldable pub decode_from : ℕ → ℕ → Text → Text
decode_from pending value [] = []
decode_from pending value (byte ∷ bytes) =
    let (done, pending, value) = utf8_step pending value byte in
    cons_some done (decode_from pending value bytes)

-- `chars`
abbrev chars : Text → Text
chars bytes = decode_from 0 0 bytes

unfoldable pub trim_start : Text → Text
trim_start [] = []
trim_start (c ∷ cs) = let rest = trim_start cs in if is_whitespace c then rest else c ∷ cs

abbrev trim : Text → Text
trim cs = reverse (trim_start (reverse (trim_start cs)))

unfoldable pub canonical_text_is_valid : Text → Bool
unfolding decode_from trim_start
canonical_text_is_valid value =
    not (is_empty value)
    && text_eq (trim (chars value)) (chars value)
    && not (any is_control (chars value))

-- `library_id.trim().is_empty() || library_id.chars().any(char::is_control)`
abbrev pub is_bad_library_id : Text → Bool
is_bad_library_id value = is_empty (trim (chars value)) || any is_control (chars value)

unfoldable pub approved_substitution_is_valid : ApprovedSubstitution → Bool
approved_substitution_is_valid substitution =
    canonical_text_is_valid substitution.manufacturer
    && canonical_text_is_valid substitution.manufacturer_part_number
    && canonical_text_is_valid substitution.package_name

unfoldable pub sha256_is_valid : Text → Bool
sha256_is_valid value =
    length value == 64 && all (λ byte. is_ascii_digit byte || within b'a' b'f' byte) value

unfoldable pub decimal : ℕ → Text → Option ℕ
decimal result [] = some result
decimal result (byte ∷ bytes) =
    let rest = decimal (result * 10 + (byte - b'0')) bytes in
    if is_ascii_digit byte then rest else none

abbrev is_leap_year : ℕ → Bool
is_leap_year year = year % 4 == 0 && (not (year % 100 == 0) || year % 400 == 0)

abbrev maximum_day : ℕ → ℕ → ℕ
maximum_day year month =
    if month == 2
    then (if is_leap_year year then 29 else 28)
    else if month == 4 || month == 6 || month == 9 || month == 11
    then 30
    else 31

abbrev date_fits : Option ℕ → Option ℕ → Option ℕ → Bool
date_fits (some year) (some month) (some day) =
    not (year == 0) && within 1 12 month && within 1 (maximum_day year month) day
date_fits _ _ _ = false

unfoldable pub date_is_valid : Text → Bool
unfolding decimal
date_is_valid (y1 ∷ y2 ∷ y3 ∷ y4 ∷ dash1 ∷ m1 ∷ m2 ∷ dash2 ∷ d1 ∷ d2 ∷ []) =
    dash1 == b'-'
    && dash2 == b'-'
    && date_fits (decimal 0 (y1 ∷ y2 ∷ y3 ∷ y4 ∷ [])) (decimal 0 (m1 ∷ m2 ∷ []))
        (decimal 0 (d1 ∷ d2 ∷ []))
date_is_valid _ = false
