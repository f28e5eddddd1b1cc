-- ===== src/Text/Json.antt =====
-- `JSON.stringify` on an array of strings and nulls, as the signature of a statement uses it.
use cognivox_record.Prelude.{
  ℕ, ◌+◌, ◌/◌, ◌%◌, ◌||◌, ◌&&◌, List, [], ◌∷◌, ◌++◌, Option, none, some, ltb, leb, ◌==◌,
  if◌then◌else◌,
}
use cognivox_record.Text.Utf8.{Text, codes}

hex_digit : ℕ → ℕ
hex_digit n = if ltb n 10 then 48 + n else 87 + n

-- `\u` and four digits.
unicode_escape : ℕ → Text
unicode_escape c =
    b'\\'
    ∷ b'u'
    ∷ hex_digit (c / 4096 % 16)
    ∷ hex_digit (c / 256 % 16)
    ∷ hex_digit (c / 16 % 16)
    ∷ hex_digit (c % 16)
    ∷ []

-- One code point inside a string: control characters, the quote, the backslash and a surrogate that
-- stands alone are escaped.
escape : ℕ → Text
escape c =
    if c == b'"' || c == b'\\'
    then b'\\' ∷ c ∷ []
    else if c == 8
    then codes "\\b"
    else if c == 9
    then codes "\\t"
    else if c == 10
    then codes "\\n"
    else if c == 12
    then codes "\\f"
    else if c == 13
    then codes "\\r"
    else if ltb c 32 || (leb 55296 c && ltb c 57344)
    then unicode_escape c
    else c ∷ []

escape_all : Text → Text
escape_all [] = []
escape_all (c ∷ t) = escape c ++ escape_all t

unfoldable pub stringify_value : Option Text → Text
unfolding hex_digit unicode_escape escape escape_all
stringify_value none = codes "null"
stringify_value (some t) = b'"' ∷ (escape_all t ++ (b'"' ∷ []))

stringify_values : List (Option Text) → Text
stringify_values [] = []
stringify_values (v ∷ []) = stringify_value v
stringify_values (v ∷ w ∷ vs) = stringify_value v ++ (b',' ∷ stringify_values (w ∷ vs))

unfoldable pub stringify : List (Option Text) → Text
unfolding hex_digit unicode_escape escape escape_all stringify_value stringify_values
stringify vs = b'[' ∷ (stringify_values vs ++ (b']' ∷ []))
