-- ===== src/Resp/Reader.antt =====
-- `decode` is a reader in the sense of Framing: it takes whole values only, and what has been read
-- stays read when more bytes arrive.
use mathlib.Core.Path.{fun_ext}
use cognivox_record.Prelude.{
  ℕ, zero, suc, ◌+◌, ◌-◌, ◌≤◌, ◌≡◌, refl, sym, subst, ◌∙◌, ap, [], ◌∷◌, ◌++◌, Option, none, some,
  arith, length, take, drop, min, length-append, length-drop, drop-append_le, take-append_le,
  Option-cases, inl, inr,
}
use cognivox_record.Prelude.Int.{ℤ, pos, negsuc}
use cognivox_record.Text.Utf8
use cognivox_record.Text.Utf8.{Text, Bytes}
use cognivox_record.Text.Decimal.{parse_int}
use cognivox_record.Framing.{Read, partial, frame, fault, IsReader}
use cognivox_record.Framing.Loop.{Read-cases}
use cognivox_record.Resp.{
  RespValue, RespItems, line_end, decode_bulk, add_item, next_item, decode_items, close_array,
  decode_array, decode_integer, decode_marked, decode_line, decode_upto, decode,
}
use cognivox_record.Resp.Lines.{line_end-append}

-- What a read must satisfy at a position, for a value that begins `n` bytes before its own reader.
module _ {ℓ} {A : Type ℓ} where
  abbrev Within : ℕ → Bytes → Read A → Type 0
  Within n b partial = Unit
  Within n b fault = Unit
  Within n b (frame v k) = (n ≤ k) × (k ≤ length b)

  -- `r` is read from the bytes at hand, and `r'` after more have arrived.
  abbrev Keeps : Read A → Read A → Type ℓ
  Keeps partial r' = Unit
  Keeps r r' = r' ≡ r

weaken {ℓ} : {A : Type ℓ} (r : Read A) (b : Bytes) (n : ℕ) → 1 ≤ n → Within n b r → Within 1 b r
weaken partial b n h w = tt
weaken fault b n h w = tt
weaken (frame v k) b n h w = omega arith

decode_bulk-Within :
    (o : Option ℤ) (n : ℕ) (b : Bytes) → n ≤ length b → Within n b (decode_bulk o n b)
unfolding decode_bulk
decode_bulk-Within none n b h = tt
decode_bulk-Within (some (negsuc z)) n b h = omega arith
decode_bulk-Within (some (pos len)) n b h = ground arith

slice-append :
    (n len : ℕ) (b more : Bytes)
    → n + len ≤ length b
    → take len (drop n (b ++ more)) ≡ take len (drop n b)
slice-append n len b more h =
    rw (drop-append_le n b more (omega arith))
      (take-append_le len (drop n b) more (omega (arith, length-drop n b)))

decode_bulk-Keeps :
    (o : Option ℤ) (n : ℕ) (b more : Bytes)
    → Keeps (decode_bulk o n b) (decode_bulk o n (b ++ more))
unfolding decode_bulk
decode_bulk-Keeps none n b more = refl
decode_bulk-Keeps (some (negsuc z)) n b more = refl
decode_bulk-Keeps (some (pos len)) n b more =
    ground (arith, slice-append n len b more, length-append b more)

add_item-Within :
    (v : RespValue) (k : ℕ) (b : Bytes) (r : Read RespItems)
    → k ≤ length b
    → Within 0 (drop k b) r
    → Within 0 b (add_item v k r)
unfolding add_item
add_item-Within v k b partial h w = tt
add_item-Within v k b fault h w = tt
add_item-Within v k b (frame vs m) h w = omega (arith, length-drop k b)

add_item-Keeps :
    (v : RespValue) (k : ℕ) (r r' : Read RespItems)
    → Keeps r r'
    → Keeps (add_item v k r) (add_item v k r')
unfolding add_item
add_item-Keeps v k partial r' h = tt
add_item-Keeps v k fault r' h = ap (add_item v k) h
add_item-Keeps v k (frame vs m) r' h = ap (add_item v k) h

close_array-Within :
    (n : ℕ) (b : Bytes) (r : Read RespItems)
    → n ≤ length b
    → Within 0 (drop n b) r
    → Within n b (close_array n r)
unfolding close_array
close_array-Within n b partial h w = tt
close_array-Within n b fault h w = tt
close_array-Within n b (frame vs m) h w = omega (arith, length-drop n b)

close_array-Keeps :
    (n : ℕ) (r r' : Read RespItems) → Keeps r r' → Keeps (close_array n r) (close_array n r')
unfolding close_array
close_array-Keeps n partial r' h = tt
close_array-Keeps n fault r' h = ap (close_array n) h
close_array-Keeps n (frame vs m) r' h = ap (close_array n) h

module _ {read : Bytes → Read RespValue} (laws : IsReader read) where
  decode_items-Within : (c : ℕ) (b : Bytes) → Within 0 b (decode_items read c b)
  unfolding decode_items next_item
  decode_items-Within zero b = omega arith
  decode_items-Within (suc c) b = elim (Read-cases (read b)) [
    | inl e ↦ rw e tt
    | inr (inl e) ↦ rw e tt
    | inr (inr (v, k, e)) ↦ rw e (
        add_item-Within v k b (decode_items read c (drop k b)) (laws.bounds b v k e).1
          (decode_items-Within c (drop k b)))
  ]

  decode_items-Keeps :
      (c : ℕ) (b more : Bytes) → Keeps (decode_items read c b) (decode_items read c (b ++ more))
  unfolding decode_items next_item
  decode_items-Keeps zero b more = refl
  decode_items-Keeps (suc c) b more = elim (Read-cases (read b)) [
    | inl e ↦ rw e tt
    | inr (inl e) ↦ rw (e, laws.fault_stable b more e) refl
    | inr (inr (v, k, e)) ↦
        rw (e, laws.stable b more v k e, drop-append_le k b more (laws.bounds b v k e).1)
          (add_item-Keeps v k _ _ (decode_items-Keeps c (drop k b) more))
  ]

  decode_array-Within :
      (o : Option ℤ) (n : ℕ) (b : Bytes) → n ≤ length b → Within n b (decode_array read o n b)
  unfolding decode_array
  decode_array-Within none n b h = tt
  decode_array-Within (some (negsuc z)) n b h = omega arith
  decode_array-Within (some (pos c)) n b h =
      close_array-Within n b _ h (decode_items-Within c (drop n b))

  decode_array-Keeps :
      (o : Option ℤ) (n : ℕ) (b more : Bytes)
      → n ≤ length b
      → Keeps (decode_array read o n b) (decode_array read o n (b ++ more))
  unfolding decode_array
  decode_array-Keeps none n b more h = refl
  decode_array-Keeps (some (negsuc z)) n b more h = refl
  decode_array-Keeps (some (pos c)) n b more h =
      rw (drop-append_le n b more h)
        (close_array-Keeps n _ _ (decode_items-Keeps c (drop n b) more))

  decode_marked-Within :
      (m : ℕ) (t : Text) (n : ℕ) (b : Bytes)
      → n ≤ length b
      → Within n b (decode_marked read m t n b)
  unfolding decode_marked decode_integer
  decode_marked-Within m t n b h =
      ground
        (arith, decode_bulk-Within (parse_int t) n b h, decode_array-Within (parse_int t) n b h)

  decode_marked-Keeps :
      (m : ℕ) (t : Text) (n : ℕ) (b more : Bytes)
      → n ≤ length b
      → Keeps (decode_marked read m t n b) (decode_marked read m t n (b ++ more))
  unfolding decode_marked decode_integer
  decode_marked-Keeps m t n b more h =
      ground (
        arith,
        decode_bulk-Keeps (parse_int t) n b more,
        decode_array-Keeps (parse_int t) n b more h,
      )

  decode_line-Within : (b : Bytes) → Within 1 b (decode_line read (line_end b) b)
  unfolding decode_line
  decode_line-Within [] = unfold line_end in tt
  decode_line-Within (m ∷ r) = elim (Option-cases (line_end (m ∷ r))) [
    | inl e ↦ rw e tt
    | inr (k, e) ↦ rw e (
        weaken _ (m ∷ r) (k + 2) (omega arith)
          (decode_marked-Within m _ (k + 2) (m ∷ r) (line_end-append (m ∷ r) [] k e).1))
  ]

  decode_line-Keeps :
      (b more : Bytes)
      → Keeps
          (decode_line read (line_end b) b)
          (decode_line read (line_end (b ++ more)) (b ++ more))
  unfolding decode_line
  decode_line-Keeps [] more = unfold line_end in tt
  decode_line-Keeps (m ∷ r) more = elim (Option-cases (line_end (m ∷ r))) [
    | inl e ↦ rw e tt
    | inr (k, e) ↦
        let (e', fits) = line_end-append (m ∷ r) more k e in
        rw (e, e', take-append_le (k - 1) r more (omega arith))
          (decode_marked-Keeps m _ (k + 2) (m ∷ r) more fits)
  ]

reader_of {ℓ} :
    {A : Type ℓ} (read : Bytes → Read A)
    → read [] ≡ partial
    → ((b : Bytes) → Within 1 b (read b))
    → ((b more : Bytes) → Keeps (read b) (read (b ++ more)))
    → IsReader read
reader_of read empty within keeps = record {
  empty = empty;
  bounds = λ b v n e. subst (Within 1 b) e (within b);
  stable = λ b more v n e. subst (λ r. Keeps r (read (b ++ more))) e (keeps b more);
  fault_stable = λ b more e. subst (λ r. Keeps r (read (b ++ more))) e (keeps b more);
}

pub decode_upto-IsReader : (d : ℕ) → IsReader (decode_upto d)
unfolding decode_upto
decode_upto-IsReader zero = reader_of (decode_upto zero) refl (λ b. tt) (λ b more. tt)
decode_upto-IsReader (suc d) =
    let laws = decode_upto-IsReader d in
    reader_of (decode_upto (suc d)) (unfold decode_line line_end in refl) (decode_line-Within laws)
      (decode_line-Keeps laws)

-- Two readers that agree on the shorter inputs read the same items.
module _ (read read' : Bytes → Read RespValue) (n : ℕ)
    (agree : (b : Bytes) → length b ≤ n → read b ≡ read' b) where
  decode_items-agree :
      (c : ℕ) (b : Bytes) → length b ≤ n → decode_items read c b ≡ decode_items read' c b
  unfolding decode_items
  decode_items-agree zero b h = refl
  decode_items-agree (suc c) b h =
      ap (λ r. next_item r (λ k. decode_items read c (drop k b))) (agree b h)
      ∙ ap (next_item (read' b))
          (fun_ext λ k. decode_items-agree c (drop k b) (omega (arith, length-drop k b)))

  decode_array-agree :
      (o : Option ℤ) (k : ℕ) (b : Bytes)
      → length (drop k b) ≤ n
      → decode_array read o k b ≡ decode_array read' o k b
  unfolding decode_array
  decode_array-agree none k b h = refl
  decode_array-agree (some (negsuc z)) k b h = refl
  decode_array-agree (some (pos c)) k b h = ap (close_array k) (decode_items-agree c (drop k b) h)

  decode_line-agree :
      (o : Option ℕ) (b : Bytes) → length b ≤ suc n → decode_line read o b ≡ decode_line read' o b
  unfolding decode_line decode_marked
  decode_line-agree none b h = refl
  decode_line-agree (some e) [] h = refl
  decode_line-agree (some e) (m ∷ r) h =
      let t = Utf8.decode (take (e - 1) r) in
      ground (
        arith,
        decode_array-agree (parse_int t) (e + 2) (m ∷ r)
            (omega (arith, length-drop (e + 2) (m ∷ r))),
      )

-- The nesting bound does not matter from the number of bytes on.
pub decode_upto-enough :
    (d d' : ℕ) (b : Bytes) → length b ≤ d → length b ≤ d' → decode_upto d b ≡ decode_upto d' b
unfolding decode_upto
decode_upto-enough d d' [] h h' =
    (decode_upto-IsReader d).empty ∙ sym (decode_upto-IsReader d').empty
decode_upto-enough zero d' (m ∷ r) h h' = absurd (omega arith)
decode_upto-enough (suc d) zero (m ∷ r) h h' = absurd (omega arith)
decode_upto-enough (suc d) (suc d') (m ∷ r) h h' =
    decode_line-agree (decode_upto d) (decode_upto d') (min d d')
      (λ b k. decode_upto-enough d d' b (omega arith) (omega arith)) (line_end (m ∷ r)) (m ∷ r)
      (omega arith)

pub decode-eq-upto : (d : ℕ) (b : Bytes) → length b ≤ d → decode b ≡ decode_upto d b
unfolding decode
decode-eq-upto d b h = decode_upto-enough (length b) d b (omega arith) h

-- Redis values are cut out of a stream by a reader that waits for whole values: what has been read
-- takes some of the bytes at hand, and stays as it is whatever arrives behind it.
pub decode-IsReader : IsReader decode
decode-IsReader = record {
  empty = unfold decode in refl;
  bounds = λ b v n e.
      (decode_upto-IsReader (length b)).bounds b v n
        (sym (decode-eq-upto (length b) b (omega arith)) ∙ e);
  stable = λ b more v n e.
      let d = length (b ++ more) in
      decode-eq-upto d (b ++ more) (omega arith)
      ∙ (decode_upto-IsReader d).stable b more v n
          (sym (decode-eq-upto d b (omega (arith, length-append b more))) ∙ e);
  fault_stable = λ b more e.
      let d = length (b ++ more) in
      decode-eq-upto d (b ++ more) (omega arith)
      ∙ (decode_upto-IsReader d).fault_stable b more
          (sym (decode-eq-upto d b (omega (arith, length-append b more))) ∙ e);
}
