-- ===== src/Resp/RoundTrip.antt =====
-- What `encode` writes, `decode` reads back.
use cognivox_record.Prelude.{
  ℕ, zero, suc, ◌+◌, ◌-◌, ◌≤◌, ◌<◌, ◌≡◌, ◌≢◌, refl, inl, false, sym, ◌∙◌, ap, [], ◌∷◌, ◌++◌, none,
  some, arith, length, drop, length-append, append_assoc, take-length_append, drop-length_append,
  All, All-append, ltb, ltb-false,
}
use cognivox_record.Prelude.Int.{ℤ, pos, negsuc}
use cognivox_record.Text.Utf8
use cognivox_record.Text.Utf8.{Text, Bytes, codes, IsScalar, decode-encode}
use cognivox_record.Text.Decimal.{
  parse_int, print_nat, print_int, parse_int-print_int, print_nat-IsDigit, IsDigit, IsSafe,
  safe_bound,
}
use cognivox_record.Framing.{Read, frame}
use cognivox_record.Resp.{
  RespValue, simple, error, integer, bulk, array_null, array, unsupported, RespItems, nil, cons,
  crlf, line, line_end, byte_length, items_length, decode_bulk, next_item, add_item, decode_items,
  close_array, decode_array, decode_integer, decode_marked, decode_line, decode_upto, decode,
  encode_bulk, encode, encode_items,
}
use cognivox_record.Resp.Lines.{NotLf, line_end-line}
use cognivox_record.Resp.Reader.{decode-eq-upto}

-- A text that fits on a line of its own.
abbrev pub IsLine : Text → Type 0
IsLine t = All IsScalar t × All NotLf t

-- A value as a Redis server can send it: well-formed texts, lines without a line feed, integers and
-- lengths in the safe range.
abbrev mutual
  pub IsWire : RespValue → Type 0
  IsWire (simple t) = IsLine t
  IsWire (error t) = IsLine t
  IsWire (integer z) = IsSafe z
  IsWire (bulk none) = Unit
  IsWire (bulk (some t)) = All IsScalar t × (byte_length t < safe_bound)
  IsWire array_null = Unit
  IsWire (array vs) = AreWire vs × (items_length vs < safe_bound)
  IsWire (unsupported t) = ⊥

  pub AreWire : RespItems → Type 0
  AreWire nil = Unit
  AreWire (cons v vs) = IsWire v × AreWire vs

encode_point-NotLf : (c : ℕ) → c ≢ 10 → All NotLf (Utf8.encode_point c)
unfolding Utf8.encode_point
encode_point-NotLf c h = ground arith

encode-NotLf : (t : Text) → All NotLf t → All NotLf (Utf8.encode t)
unfolding Utf8.encode
encode-NotLf [] h = tt
encode-NotLf (c ∷ t) h =
    All-append NotLf (Utf8.encode_point c) (Utf8.encode t) (encode_point-NotLf c h.0)
      (encode-NotLf t h.1)

digits-IsLine : (t : Text) → All IsDigit t → IsLine t
digits-IsLine [] h = (tt, tt)
digits-IsLine (c ∷ t) h =
    let (s, n) = digits-IsLine t h.1 in ((inl (omega arith), s), (λ e. omega arith, n))

print_int-IsLine : (z : ℤ) → IsLine (print_int z)
unfolding print_int
print_int-IsLine (pos n) = digits-IsLine _ (print_nat-IsDigit n)
print_int-IsLine (negsuc n) =
    let (s, k) = digits-IsLine _ (print_nat-IsDigit (suc n)) in
    ((inl (omega arith), s), (λ e. omega arith, k))

-- A line is read as its marker and its text, whatever follows.
decode-line :
    (read : Bytes → Read RespValue) (m : ℕ) (t : Text) (more : Bytes)
    → m ≢ 10
    → IsLine t
    → decode_line read (line_end (line m t ++ more)) (line m t ++ more)
      ≡ decode_marked read m t (byte_length t + 3) (line m t ++ more)
unfolding decode_line
decode-line read m t more h k =
    let b = Utf8.encode t in
    let at : line_end (m ∷ (b ++ (crlf ++ more))) ≡ some (suc (length b)) =
      line_end-line (m ∷ b) more (h, encode-NotLf t k.1) in
    let e : suc (length b) - 1 ≡ length b = omega arith in
    let f : suc (length b) + 2 ≡ length b + 3 = omega arith in
    rw (append_assoc b crlf more, at, e, f, take-length_append, decode-encode t k.0) refl

length-line : (m : ℕ) (t : Text) → length (line m t) ≡ byte_length t + 3
length-line m t = omega (arith, length-append (Utf8.encode t) crlf)

-- What follows the header line.
drop-line : (m : ℕ) (t : Text) (more : Bytes) → drop (byte_length t + 3) (line m t ++ more) ≡ more
drop-line m t more = rw (← length-line m t) (drop-length_append (line m t) more)

decode-bulk :
    (t : Text) (h more : Bytes) (n : ℕ)
    → All IsScalar t
    → n ≡ length h
    → decode_bulk (some (pos (byte_length t))) n (h ++ (Utf8.encode t ++ crlf ++ more))
      ≡ frame (bulk (some t)) (n + byte_length t + 2)
unfolding decode_bulk
decode-bulk t h more n s e =
    let b = Utf8.encode t in
    let fits : ltb (length (h ++ (b ++ crlf ++ more))) (n + byte_length t + 2) ≡ false =
      ltb-false _ _ (
        omega (
          arith,
          length-append h (b ++ crlf ++ more),
          length-append (b ++ crlf) more,
          length-append b crlf,
        )) in
    rw
      (
        fits,
        e,
        drop-length_append h,
        append_assoc b crlf more,
        take-length_append,
        decode-encode t s,
      )
      refl

pub decode_upto-line :
    (d m : ℕ) (t : Text) (more : Bytes)
    → m ≢ 10
    → IsLine t
    → decode_upto (suc d) (line m t ++ more)
      ≡ decode_marked (decode_upto d) m t (byte_length t + 3) (line m t ++ more)
unfolding decode_upto
decode_upto-line d m t more h k = decode-line (decode_upto d) m t more h k

encode-nonempty : (v : RespValue) → 0 < length (encode v)
unfolding encode
encode-nonempty (bulk none) = omega arith
encode-nonempty (bulk (some t)) = omega arith
encode-nonempty _ = omega arith

-- A length is printed and read back.
parse_length : (n : ℕ) → n < safe_bound → parse_int (print_nat n) ≡ some (pos n)
parse_length n h = unfold print_int in parse_int-print_int (pos n) h

count-IsLine : (n : ℕ) → IsLine (print_nat n)
count-IsLine n = digits-IsLine _ (print_nat-IsDigit n)

minus_one-IsLine : IsLine (codes "-1")
minus_one-IsLine =
    ((inl (omega arith), (inl (omega arith), tt)), (λ e. omega arith, (λ e. omega arith, tt)))

decode_upto-null :
    (d : ℕ) (more : Bytes)
    → (decode_upto (suc d) (encode (bulk none) ++ more) ≡ frame (bulk none) 5)
      × (decode_upto (suc d) (encode array_null ++ more) ≡ frame array_null 5)
unfolding encode encode_bulk decode_marked decode_bulk decode_array parse_int Utf8.encode
decode_upto-null d more = (
  decode_upto-line d b'$' (codes "-1") more (λ e. omega arith) minus_one-IsLine,
  decode_upto-line d b'*' (codes "-1") more (λ e. omega arith) minus_one-IsLine,
)

decode_upto-bulk :
    (d : ℕ) (t : Text) (more : Bytes)
    → All IsScalar t
    → byte_length t < safe_bound
    → decode_upto (suc d) (encode_bulk (some t) ++ more)
      ≡ frame (bulk (some t)) (length (encode_bulk (some t)))
unfolding encode_bulk decode_marked
decode_upto-bulk d t more s h =
    let c = print_nat (byte_length t) in
    let b = Utf8.encode t in
    ap (decode_upto (suc d)) (append_assoc (line b'$' c) (b ++ crlf) more)
    ∙ decode_upto-line d b'$' c ((b ++ crlf) ++ more) (λ e. omega arith)
        (count-IsLine (byte_length t))
    ∙ ap (λ o. decode_bulk o (byte_length c + 3) (line b'$' c ++ ((b ++ crlf) ++ more)))
        (parse_length (byte_length t) h)
    ∙ decode-bulk t (line b'$' c) more (byte_length c + 3) s (sym (length-line b'$' c))
    ∙ ap (frame (bulk (some t))) (
        omega (
          arith,
          length-append (line b'$' c) (b ++ crlf),
          length-line b'$' c,
          length-append b crlf,
        ))

mutual
  unfolding encode encode_bulk Utf8.encode decode_items next_item add_item decode_marked
      decode_integer decode_array close_array

  decode_upto-encode :
      (v : RespValue) (d : ℕ) (more : Bytes)
      → IsWire v
      → length (encode v) ≤ suc d
      → decode_upto (suc d) (encode v ++ more) ≡ frame v (length (encode v))
  decode_upto-encode (simple t) d more w h =
      decode_upto-line d b'+' t more (λ e. omega arith) w
      ∙ ap (frame (simple t)) (sym (length-line b'+' t))
  decode_upto-encode (error t) d more w h =
      decode_upto-line d b'-' t more (λ e. omega arith) w
      ∙ ap (frame (error t)) (sym (length-line b'-' t))
  decode_upto-encode (integer z) d more w h =
      let t = print_int z in
      decode_upto-line d b':' t more (λ e. omega arith) (print_int-IsLine z)
      ∙ ap (λ o. decode_integer o (byte_length t + 3)) (parse_int-print_int z w)
      ∙ ap (frame (integer z)) (sym (length-line b':' t))
  decode_upto-encode (bulk none) d more w h = (decode_upto-null d more).0
  decode_upto-encode (bulk (some t)) d more w h = decode_upto-bulk d t more w.0 w.1
  decode_upto-encode array_null d more w h = (decode_upto-null d more).1
  decode_upto-encode (array vs) d more w h =
      let c = print_nat (items_length vs) in
      ap (decode_upto (suc d)) (append_assoc (line b'*' c) (encode_items vs) more)
      ∙ decode_upto-line d b'*' c (encode_items vs ++ more) (λ e. omega arith)
          (count-IsLine (items_length vs))
      ∙ ap
          (λ o.
            decode_array (decode_upto d) o (byte_length c + 3)
              (line b'*' c ++ (encode_items vs ++ more)))
          (parse_length (items_length vs) w.1)
      ∙ ap (λ b. close_array (byte_length c + 3) (decode_items (decode_upto d) (items_length vs) b))
          (drop-line b'*' c (encode_items vs ++ more))
      ∙ ap (close_array (byte_length c + 3)) (
          decode_items-encode vs d more w.0
            (omega (arith, length-append (line b'*' c) (encode_items vs), length-line b'*' c)))
      ∙ ap (frame (array vs))
          (omega (arith, length-append (line b'*' c) (encode_items vs), length-line b'*' c))
  decode_upto-encode (unsupported t) d more w h = absurd w

  decode_items-encode :
      (vs : RespItems) (d : ℕ) (more : Bytes)
      → AreWire vs
      → length (encode_items vs) ≤ d
      → decode_items (decode_upto d) (items_length vs) (encode_items vs ++ more)
        ≡ frame vs (length (encode_items vs))
  decode_items-encode nil d more w h = refl
  decode_items-encode (cons v vs) zero more w h =
      absurd (omega (arith, length-append (encode v) (encode_items vs), encode-nonempty v))
  decode_items-encode (cons v vs) (suc d) more w h =
      let n = length (encode v) in
      let others = λ (b : Bytes). decode_items (decode_upto (suc d)) (items_length vs) b in
      let behind = encode_items vs ++ more in
      ap (λ b. next_item (decode_upto (suc d) b) (λ k. others (drop k b)))
        (append_assoc (encode v) (encode_items vs) more)
      ∙ ap (λ r. next_item r (λ k. others (drop k (encode v ++ behind))))
          (decode_upto-encode v d behind w.0
            (omega (arith, length-append (encode v) (encode_items vs))))
      ∙ ap (λ b. add_item v n (others b)) (drop-length_append (encode v) behind)
      ∙ ap (add_item v n) (
          decode_items-encode vs (suc d) more w.1
            (omega (arith, length-append (encode v) (encode_items vs))))
      ∙ ap (frame (cons v vs)) (sym (length-append (encode v) (encode_items vs)))

-- A reply or a command that a Redis peer can send is decoded from its encoding whatever bytes
-- follow, and the decoder reports exactly the encoded bytes as consumed.
pub decode-encode_value :
    (v : RespValue) (more : Bytes)
    → IsWire v
    → decode (encode v ++ more) ≡ frame v (length (encode v))
decode-encode_value v more w =
    let d = length (encode v ++ more) in
    decode-eq-upto (suc d) (encode v ++ more) (omega arith)
    ∙ decode_upto-encode v d more w (omega (arith, length-append (encode v) more))
