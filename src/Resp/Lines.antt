-- ===== src/Resp/Lines.antt =====
-- Where the first line of the bytes at hand ends.
use cognivox_record.Prelude.{
  ℕ, suc, ◌+◌, ◌-◌, ◌≤◌, ◌≡◌, ◌≢◌, refl, [], ◌∷◌, ◌++◌, Option, none, some, arith, length, All,
}
use cognivox_record.Text.Utf8.{Bytes}
use cognivox_record.Resp.{later, line_end, crlf}

later-eq_some : (o : Option ℕ) (e : ℕ) → later o ≡ some e → (k : ℕ) × (o ≡ some k) × (e ≡ suc k)
unfolding later
later-eq_some none e h = cc
later-eq_some (some k) e h = (k, refl, ground arith)

-- A line that has ended does not change when more bytes arrive, and it lies within the bytes.
pub line_end-append :
    (b more : Bytes) (e : ℕ)
    → line_end b ≡ some e
    → (line_end (b ++ more) ≡ some e) × (e + 2 ≤ length b)
unfolding line_end
line_end-append [] more e h = cc
line_end-append (x ∷ []) more e h = cc
line_end-append (x ∷ y ∷ r) more e h =
    ground (arith, later-eq_some (line_end (y ∷ r)) e, line_end-append (y ∷ r) more (e - 1))

abbrev pub NotLf : ℕ → Type 0
NotLf c = c ≢ 10

-- A line with no line feed in it ends where its terminator begins.
pub line_end-line : (h r : Bytes) → All NotLf h → line_end (h ++ (crlf ++ r)) ≡ some (length h)
unfolding line_end
line_end-line [] r n = refl
line_end-line (x ∷ []) r n = ground arith
line_end-line (x ∷ y ∷ h) r n = ground (arith, line_end-line (y ∷ h) r n.1)
