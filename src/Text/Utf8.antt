-- ===== src/Text/Utf8.antt =====
-- Node's UTF-8: `Buffer.from(text, 'utf8')` and `buffer.toString('utf8')`, the decoder as the state
-- machine of the encoding standard, which replaces each maximal ill-formed part by U+FFFD.
use Prim.Native.Char.{code}
use Prim.Native.String.{String}
use cognivox_record.Prelude.{
  ℕ, suc, ◌+◌, ◌-◌, ◌*◌, ◌/◌, ◌%◌, ◌≤◌, ◌<◌, ◌≡◌, refl, ap, ◌∙◌, ◌⊎◌, Bool, ◌&&◌, List, [], ◌∷◌,
  ◌++◌, arith, ltb, leb, ◌==◌, if◌then◌else◌, All,
}

-- A text literal of the source.
abbrev pub codes : String → List ℕ
codes String.[] = []
codes (String.◌∷◌ c s) = code c ∷ codes s

abbrev pub Text : Type 0
Text = List ℕ

abbrev pub Bytes : Type 0
Bytes = List ℕ

abbrev pub replacement : ℕ
replacement = 0xfffd

abbrev is_surrogate : ℕ → Bool
is_surrogate c = leb 0xd800 c && leb c 0xdfff

-- The bytes of one code point.
unfoldable pub encode_point : ℕ → Bytes
encode_point c =
    if ltb c 0x80
    then c ∷ []
    else if ltb c 0x800
    then (0xc0 + c / 64) ∷ (0x80 + c % 64) ∷ []
    else if is_surrogate c
    then 0xef ∷ 0xbf ∷ 0xbd ∷ []
    else if ltb c 0x10000
    then (0xe0 + c / 4096) ∷ (0x80 + c / 64 % 64) ∷ (0x80 + c % 64) ∷ []
    else (0xf0 + c / 262144) ∷ (0x80 + c / 4096 % 64) ∷ (0x80 + c / 64 % 64) ∷ (0x80 + c % 64) ∷ []

-- `Buffer.from(text, 'utf8')`
unfoldable pub encode : Text → Bytes
unfolding encode_point
encode [] = []
encode (c ∷ t) = encode_point c ++ encode t

-- What the decoder has read of a code point: the continuation bytes still needed, the bits so far,
-- and the range of the next byte.
pub record Decoder : Type 0 where
  pub needed : ℕ
  pub bits : ℕ
  pub lower : ℕ
  pub upper : ℕ

abbrev idle : Decoder
idle = record { needed = 0; bits = 0; lower = 0x80; upper = 0xbf }

abbrev awaiting : ℕ → ℕ → ℕ → ℕ → Decoder
awaiting n b lo hi = record { needed = n; bits = b; lower = lo; upper = hi }

-- The first byte of a code point.
start_byte : ℕ → Text × Decoder
start_byte b =
    if ltb b 0x80
    then (b ∷ [], idle)
    else if leb 0xc2 b && leb b 0xdf
    then ([], awaiting 1 (b - 0xc0) 0x80 0xbf)
    else if leb 0xe0 b && leb b 0xef
    then (
      [],
      awaiting 2 (b - 0xe0) (if b == 0xe0 then 0xa0 else 0x80) (if b == 0xed then 0x9f else 0xbf),
    )
    else if leb 0xf0 b && leb b 0xf4
    then (
      [],
      awaiting 3 (b - 0xf0) (if b == 0xf0 then 0x90 else 0x80) (if b == 0xf4 then 0x8f else 0xbf),
    )
    else (replacement ∷ [], idle)

-- A byte that cannot continue ends the part read so far, and starts anew.
restart : Text × Decoder → Text × Decoder
restart (t, d) = (replacement ∷ t, d)

decode_byte : Decoder → ℕ → Text × Decoder
unfolding start_byte restart
decode_byte d b =
    if d.needed == 0
    then start_byte b
    else if leb d.lower b && leb b d.upper
    then (if d.needed == 1
        then ((d.bits * 64 + (b - 0x80)) ∷ [], idle)
        else ([], awaiting (d.needed - 1) (d.bits * 64 + (b - 0x80)) 0x80 0xbf))
    else restart (start_byte b)

unfoldable pub decode_from : Decoder → Bytes → Text
unfolding decode_byte
decode_from d [] = if d.needed == 0 then [] else replacement ∷ []
decode_from d (b ∷ bs) = let (t, e) = decode_byte d b in t ++ decode_from e bs

-- `buffer.toString('utf8')`
unfoldable pub decode : Bytes → Text
unfolding decode_from
decode = decode_from idle

-- A code point that UTF-8 can carry.
abbrev pub IsScalar : ℕ → Type 0
IsScalar c = (c < 0xd800) ⊎ ((0xe000 ≤ c) × (c < 0x110000))

-- One byte of each kind, read in front of `r`.
lead_two :
    (q : ℕ) (r : Bytes)
    → 2 ≤ q
    → q < 32
    → decode_from idle ((0xc0 + q) ∷ r) ≡ decode_from (awaiting 1 q 0x80 0xbf) r
unfolding decode_from
lead_two q r h k = let e : 0xc0 + q - 0xc0 ≡ q = omega arith in ground (arith, e)

lead_three :
    (q : ℕ) (r : Bytes)
    → q < 16
    → decode_from idle ((0xe0 + q) ∷ r)
      ≡ decode_from
          (awaiting 2 q (if q == 0 then 0xa0 else 0x80) (if q == 13 then 0x9f else 0xbf))
          r
unfolding decode_from
lead_three q r h = let e : 0xe0 + q - 0xe0 ≡ q = omega arith in ground (arith, e)

lead_four :
    (q : ℕ) (r : Bytes)
    → q < 5
    → decode_from idle ((0xf0 + q) ∷ r)
      ≡ decode_from (awaiting 3 q (if q == 0 then 0x90 else 0x80) (if q == 4 then 0x8f else 0xbf)) r
unfolding decode_from
lead_four q r h = let e : 0xf0 + q - 0xf0 ≡ q = omega arith in ground (arith, e)

next_byte :
    (n b lo hi x : ℕ) (r : Bytes)
    → lo ≤ 0x80 + x
    → 0x80 + x ≤ hi
    → decode_from (awaiting (suc (suc n)) b lo hi) ((0x80 + x) ∷ r)
      ≡ decode_from (awaiting (suc n) (b * 64 + x) 0x80 0xbf) r
unfolding decode_from
next_byte n b lo hi x r h k =
    let e : 0x80 + x - 0x80 ≡ x = omega arith in
    let f : suc (suc n) - 1 ≡ suc n = omega arith in ground (arith, e, f)

last_byte :
    (b lo hi x : ℕ) (r : Bytes)
    → lo ≤ 0x80 + x
    → 0x80 + x ≤ hi
    → decode_from (awaiting 1 b lo hi) ((0x80 + x) ∷ r) ≡ (b * 64 + x) ∷ decode_from idle r
unfolding decode_from
last_byte b lo hi x r h k = let e : 0x80 + x - 0x80 ≡ x = omega arith in ground (arith, e)

ascii_byte : (c : ℕ) (r : Bytes) → c < 0x80 → decode_from idle (c ∷ r) ≡ c ∷ decode_from idle r
unfolding decode_from
ascii_byte c r h = ground arith

two_bytes :
    (c : ℕ) (r : Bytes)
    → 0x80 ≤ c
    → c < 0x800
    → decode_from idle ((0xc0 + c / 64) ∷ (0x80 + c % 64) ∷ r) ≡ c ∷ decode_from idle r
two_bytes c r h k =
    lead_two (c / 64) _ (omega arith) (omega arith)
    ∙ last_byte (c / 64) 0x80 0xbf (c % 64) r (omega arith) (omega arith)
    ∙ ap (λ x. x ∷ decode_from idle r) (omega arith)

three_bytes :
    (c : ℕ) (r : Bytes)
    → 0x800 ≤ c
    → c < 0x10000
    → IsScalar c
    → decode_from idle ((0xe0 + c / 4096) ∷ (0x80 + c / 64 % 64) ∷ (0x80 + c % 64) ∷ r)
      ≡ c ∷ decode_from idle r
three_bytes c r h k s =
    lead_three (c / 4096) _ (omega arith)
    ∙ next_byte 0 (c / 4096) _ _ (c / 64 % 64) _ (ground arith) (ground arith)
    ∙ last_byte (c / 4096 * 64 + c / 64 % 64) 0x80 0xbf (c % 64) r (omega arith) (omega arith)
    ∙ ap (λ x. x ∷ decode_from idle r) (omega arith)

four_bytes :
    (c : ℕ) (r : Bytes)
    → 0x10000 ≤ c
    → c < 0x110000
    → decode_from idle
        ((0xf0 + c / 262144) ∷ (0x80 + c / 4096 % 64) ∷ (0x80 + c / 64 % 64) ∷ (0x80 + c % 64) ∷ r)
      ≡ c ∷ decode_from idle r
four_bytes c r h k =
    let q = c / 4096 % 64 in
    lead_four (c / 262144) _ (omega arith)
    ∙ next_byte 1 (c / 262144) _ _ q _ (ground arith) (ground arith)
    ∙ next_byte 0 (c / 262144 * 64 + q) 0x80 0xbf (c / 64 % 64) _ (omega arith) (omega arith)
    ∙ last_byte _ 0x80 0xbf (c % 64) r (omega arith) (omega arith)
    ∙ ap (λ x. x ∷ decode_from idle r) (omega arith)

decode_from-encode_point :
    (c : ℕ) (r : Bytes)
    → IsScalar c
    → decode_from idle (encode_point c ++ r) ≡ c ∷ decode_from idle r
unfolding encode_point
decode_from-encode_point c r h =
    ground (arith, ascii_byte c r, two_bytes c r, three_bytes c r, four_bytes c r)

-- Decoding the encoding of a well-formed text gives the text back.
pub decode-encode : (t : Text) → All IsScalar t → decode (encode t) ≡ t
unfolding decode encode
decode-encode [] h = refl
decode-encode (c ∷ t) h =
    decode_from-encode_point c (encode t) h.0 ∙ ap (◌∷◌ c) (decode-encode t h.1)
