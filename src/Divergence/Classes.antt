-- ===== src/Divergence/Classes.antt =====
-- Which statements write and which read, by their first words.
use cognivox_record.Prelude.{
  ◌≡◌, refl, subst, Bool, true, false, arith, All, List, [], ◌∷◌, Bool-cases, inl, inr,
}
use cognivox_record.Text.Utf8.{Text, codes}
use cognivox_record.Text.Words.{equal, equal→eq}
use cognivox_record.Text.Patterns.FirstWord.{first_word, test_start-first_word}
use cognivox_record.Dict.{contains}
use cognivox_record.Divergence.{is_write, is_read}

-- The words that a write and a read start with.
abbrev pub writing_words : List Text
writing_words =
    codes "INSERT" ∷ codes "UPDATE" ∷ codes "DELETE" ∷ codes "TRUNCATE" ∷ codes "MERGE" ∷ []

abbrev pub reading_words : List Text
reading_words = codes "SELECT" ∷ codes "WITH" ∷ []

abbrev pub writes : Text → Bool
writes sql = contains (first_word sql) writing_words

abbrev pub reads : Text → Bool
reads sql = contains (first_word sql) reading_words

pub is_write-writes : (sql : Text) → is_write sql ≡ writes sql
unfolding is_write
is_write-writes sql =
    test_start-first_word (codes "INSERT")
      (codes "UPDATE" ∷ codes "DELETE" ∷ codes "TRUNCATE" ∷ codes "MERGE" ∷ []) sql (ground arith)

pub is_read-reads : (sql : Text) → is_read sql ≡ reads sql
unfolding is_read
is_read-reads sql = test_start-first_word (codes "SELECT") (codes "WITH" ∷ []) sql (ground arith)

contains-apart :
    (x : Text) (ks rs : List Text)
    → All (λ k. contains k rs ≡ false) ks
    → contains x ks ≡ true
    → contains x rs ≡ false
unfolding contains
contains-apart x [] rs h e = cc
contains-apart x (k ∷ ks) rs h e = elim (Bool-cases (equal k x)) [
  | inl same ↦ subst (λ y. contains y rs ≡ false) (equal→eq k x same) h.0
  | inr other ↦ contains-apart x ks rs h.1 (rw other at e)
]

-- No statement is both.
pub writes-not_reads : (sql : Text) → writes sql ≡ true → reads sql ≡ false
writes-not_reads sql h =
    contains-apart (first_word sql) writing_words reading_words
      (unfold contains in unfold equal in (refl, (refl, (refl, (refl, (refl, tt)))))) h
