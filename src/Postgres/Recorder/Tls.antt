-- ===== src/Postgres/Recorder/Tls.antt =====
-- The recorder around an SSLRequest.
use cognivox_record.Prelude.{ℕ, ◌≡◌, refl, ◌∙◌, ap, true, false, List, [], ◌∷◌}
use cognivox_record.Text.Utf8.{Bytes}
use cognivox_record.Postgres.Recorder.{
  awaiting_ssl_reply, encrypted, PostgresRecorder, on_client_data, on_server_data,
}

-- A chunk of either side.
pub data Chunk : Type 0 where
  from_client from_server : Bytes → Chunk

module _ (clock : ℕ → ℕ) where
  abbrev pub feed : PostgresRecorder → List Chunk → PostgresRecorder
  feed s [] = s
  feed s (from_client c ∷ cs) = feed (on_client_data clock s c).0 cs
  feed s (from_server c ∷ cs) = feed (on_server_data clock s c).0 cs

  client_encrypted :
      (s : PostgresRecorder) (c : Bytes)
      → s.phase ≡ encrypted
      → on_client_data clock s c ≡ (s, false)
  unfolding on_client_data
  client_encrypted s c h = rw h refl

  server_encrypted :
      (s : PostgresRecorder) (c : Bytes)
      → s.phase ≡ encrypted
      → on_server_data clock s c ≡ (s, false)
  unfolding on_server_data
  server_encrypted s c h = rw h refl

  feed_encrypted : (s : PostgresRecorder) (cs : List Chunk) → s.phase ≡ encrypted → feed s cs ≡ s
  feed_encrypted s [] h = refl
  feed_encrypted s (from_client c ∷ cs) h =
      ap (λ p. feed p.0 cs) (client_encrypted s c h) ∙ feed_encrypted s cs h
  feed_encrypted s (from_server c ∷ cs) h =
      ap (λ p. feed p.0 cs) (server_encrypted s c h) ∙ feed_encrypted s cs h

  ssl_accepted :
      (s : PostgresRecorder) (rest : Bytes)
      → s.phase ≡ awaiting_ssl_reply
      → on_server_data clock s (b'S' ∷ rest)
        ≡ (record s { phase = encrypted; was_encrypted = true }, false)
  unfolding on_server_data
  ssl_accepted s rest h = rw h refl

  -- The server accepts TLS: the recorder remembers that the connection became unreadable, and no
  -- later byte of either side, however cut, changes anything of it. What was recorded stays.
  pub tls_accepted :
      (s : PostgresRecorder) (rest : Bytes) (cs : List Chunk)
      → s.phase ≡ awaiting_ssl_reply
      → feed s (from_server (b'S' ∷ rest) ∷ cs)
        ≡ record s { phase = encrypted; was_encrypted = true }
  tls_accepted s rest cs h =
      ap (λ p. feed p.0 cs) (ssl_accepted s rest h)
      ∙ feed_encrypted (record s { phase = encrypted; was_encrypted = true }) cs refl
