-- ===== src/Tests/Plain.antt =====
-- Printable ASCII is well-formed on every wire.
use cognivox_record.Prelude.{
  ℕ, ◌≤◌, ◌<◌, ◌≡◌, Bool, true, false, ◌&&◌, [], ◌∷◌, arith, ltb, leb, All, inl,
}
use cognivox_record.Text.Utf8.{Text, IsScalar}
use cognivox_record.Resp.Lines.{NotLf}
use cognivox_record.Resp.RoundTrip.{IsLine}
use cognivox_record.Postgres.Encoder.RoundTrip.{NotNul, IsName}

abbrev pub is_plain : Text → Bool
is_plain [] = true
is_plain (c ∷ t) = leb 32 c && ltb c 127 && is_plain t

plain_point :
    (c : ℕ) (r : Bool) → (leb 32 c && ltb c 127 && r) ≡ true → (32 ≤ c) × (c < 127) × (r ≡ true)
plain_point c true h = ground arith
plain_point c false h = ground arith

plain-All : (t : Text) → is_plain t ≡ true → All IsScalar t × (All NotNul t × All NotLf t)
plain-All [] h = (tt, (tt, tt))
plain-All (c ∷ t) h =
    let (lo, hi, others) = plain_point c (is_plain t) h in
    let (s, (n, l)) = plain-All t others in
    ((inl (omega arith), s), (((λ e. omega arith), n), ((λ e. omega arith), l)))

pub plain-IsScalar : (t : Text) → is_plain t ≡ true → All IsScalar t
plain-IsScalar t h = (plain-All t h).0

pub plain-IsName : (t : Text) → is_plain t ≡ true → IsName t
plain-IsName t h = ((plain-All t h).0, (plain-All t h).1.0)

pub plain-IsLine : (t : Text) → is_plain t ≡ true → IsLine t
plain-IsLine t h = ((plain-All t h).0, (plain-All t h).1.1)
