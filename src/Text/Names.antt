-- ===== src/Text/Names.antt =====
-- Texts that a null-terminated field can hold.
use cognivox_record.Prelude.{ℕ, ◌≢◌, [], ◌∷◌, arith, All, All-append}
use cognivox_record.Text.Utf8
use cognivox_record.Text.Utf8.{Text, IsScalar}

-- A text that a null-terminated field can hold.
abbrev pub NotNul : ℕ → Type 0
NotNul c = c ≢ 0

abbrev pub IsName : Text → Type 0
IsName t = All IsScalar t × All NotNul t

encode_point-NotNul : (c : ℕ) → c ≢ 0 → All NotNul (Utf8.encode_point c)
unfolding Utf8.encode_point
encode_point-NotNul c h = ground arith

pub encode-NotNul : (t : Text) → All NotNul t → All NotNul (Utf8.encode t)
unfolding Utf8.encode
encode-NotNul [] h = tt
encode-NotNul (c ∷ t) h =
    All-append NotNul (Utf8.encode_point c) (Utf8.encode t) (encode_point-NotNul c h.0)
      (encode-NotNul t h.1)
