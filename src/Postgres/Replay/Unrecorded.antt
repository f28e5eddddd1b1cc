-- ===== src/Postgres/Replay/Unrecorded.antt =====
-- A statement that the recording does not have.
use cognivox_record.Prelude.{
  ◌≡◌, refl, sym, ◌∙◌, ap, Bool, true, false, ◌||◌, List, [], ◌∷◌, ◌++◌, append-nil, Option, none,
  some,
}
use cognivox_record.Text.Utf8.{Text, Bytes}
use cognivox_record.Text.Words.{equal_refl}
use cognivox_record.Dict.{get, add, contains, contains-add}
use cognivox_record.Interaction.{Row}
use cognivox_record.Postgres.Messages.{read_cstring}
use cognivox_record.Postgres.Encoder.{cstring, error_response, ready_for_query}
use cognivox_record.Postgres.Encoder.RoundTrip.{IsName, read_cstring-cstring}
use cognivox_record.Postgres.Replay.{
  normalise, signature_of, PostgresReplay, RecordedResult, take_loose, choose, lookup, result_for,
  count,
}
use cognivox_record.Postgres.Replay.Server.{
  Served, no_recording, concat_buffers, messages_for, answer_for, write, on_query, handle_frame,
}

contains-add_same : (k : Text) (s : List Text) → contains k (add k s) ≡ true
contains-add_same k s = contains-add k k s ∙ ap (λ b. contains k s || b) (equal_refl k) ∙ or_true _
  where
    or_true : (b : Bool) → (b || true) ≡ true
    or_true true = refl
    or_true false = refl

take_loose-matched_count :
    (r : PostgresReplay) (name : Text) (o : Option (List RecordedResult))
    → (take_loose r name o).1.matched_count ≡ r.matched_count
unfolding take_loose
take_loose-matched_count r name none = refl
take_loose-matched_count r name (some vs) = refl

choose-matched_count :
    (r : PostgresReplay) (key name : Text) (o : Option (List RecordedResult))
    → (choose r key name o).1.matched_count ≡ r.matched_count
unfolding choose
choose-matched_count r key name none = take_loose-matched_count r name (get name r.by_sql)
choose-matched_count r key name (some []) = take_loose-matched_count r name (get name r.by_sql)
choose-matched_count r key name (some (w ∷ ws)) = refl

-- A statement without a recording is not counted as matched, and is listed as missing.
pub result_for-none :
    (r : PostgresReplay) (sql : Text) (params : Row)
    → (lookup r sql params).0 ≡ none
    → ((result_for r sql params).0 ≡ none)
      × ((result_for r sql params).1.matched_count ≡ r.matched_count)
      × (contains (normalise sql) (result_for r sql params).1.missing ≡ true)
unfolding result_for count lookup
result_for-none r sql params h = (
  h,
  rw h (
      choose-matched_count r (signature_of sql params) (normalise sql)
        (get (signature_of sql params) r.by_signature)),
  rw h (contains-add_same (normalise sql) _),
)

on_query-none :
    (s : Served) (payload : Bytes) (sql : Text) {b : Bytes}
    → (read_cstring payload).0 ≡ sql
    → (result_for s.replay sql []).0 ≡ none
    → concat_buffers (error_response (no_recording sql) ∷ ready_for_query ∷ []) ≡ some b
    → on_query s payload
      ≡ some (record {
        replay = (result_for s.replay sql []).1;
        session = record s.session { sql = sql; params = [] };
        written = s.written ++ (b ∷ []);
      })
unfolding on_query answer_for messages_for write
on_query-none s payload sql e h m = rw (e, h, m) refl

-- A simple query without a recording, whatever the state of the replay, is answered in one write by
-- an ErrorResponse that names the normalised statement and by ReadyForQuery, never by rows; the
-- statement is listed as missing and the count of matched statements stays.
pub unrecorded_query :
    (s : Served) (sql : Text) {b : Bytes}
    → IsName sql
    → (lookup s.replay sql []).0 ≡ none
    → concat_buffers (error_response (no_recording sql) ∷ ready_for_query ∷ []) ≡ some b
    → (t : Served) × (handle_frame s (record { type = b'Q'; payload = cstring sql }) ≡ some t)
      × (t.written ≡ s.written ++ (b ∷ []))
      × (t.replay.matched_count ≡ s.replay.matched_count)
      × (contains (normalise sql) t.replay.missing ≡ true)
unfolding handle_frame
unrecorded_query s sql {b} h missing m =
    let (none_found, count_kept, listed) = result_for-none s.replay sql [] missing in
    let read : (read_cstring (cstring sql)).0 ≡ sql =
      ap (λ p. (read_cstring p).0) (sym (append-nil (cstring sql)))
      ∙ ap (λ p. p.0) (read_cstring-cstring sql [] h) in
    (
      record {
        replay = (result_for s.replay sql []).1;
        session = record s.session { sql = sql; params = [] };
        written = s.written ++ (b ∷ []);
      },
      on_query-none s (cstring sql) sql read none_found m,
      refl,
      count_kept,
      listed,
    )
