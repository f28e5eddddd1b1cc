-- ===== src/Redis/Recorder/Chunks.antt =====
-- TCP may cut the two streams of a connection anywhere: the recorder does not notice.
use cognivox_record.Prelude.{
  ℕ, ◌≡◌, refl, sym, ◌∙◌, ap, Bool, true, false, ◌++◌, append_assoc, ◌>>=◌,
}
use cognivox_record.Text.Utf8.{Bytes}
use cognivox_record.Framing.{Consumed, consume}
use cognivox_record.Framing.Chunks.{resume, consume-append}
use cognivox_record.Resp.{decode}
use cognivox_record.Resp.Reader.{decode-IsReader}
use cognivox_record.Redis.Recorder.{
  Queue, RedisRecorder, on_request, on_reply, keep_client, keep_server, on_client_data,
  on_server_data,
}

module _ (clock : ℕ → ℕ) where
  keep_client-resume :
      (s : RedisRecorder) (q : Queue) (rest : Bytes) (faulted : Bool) (y : Bytes)
      → let r : Consumed Queue = record { state = q; rest = rest; faulted = faulted } in
        keep_client clock s (resume decode-IsReader (on_request clock) r y)
        ≡ (keep_client clock s r >>= λ t. on_client_data clock t y)
  unfolding keep_client on_client_data
  keep_client-resume s q rest false y = refl
  keep_client-resume s q rest true y = refl

  keep_server-resume :
      (s : RedisRecorder) (q : Queue) (rest : Bytes) (faulted : Bool) (y : Bytes)
      → let r : Consumed Queue = record { state = q; rest = rest; faulted = faulted } in
        keep_server clock s (resume decode-IsReader (on_reply clock) r y)
        ≡ (keep_server clock s r >>= λ t. on_server_data clock t y)
  unfolding keep_server on_server_data
  keep_server-resume s q rest false y = refl
  keep_server-resume s q rest true y = refl

  -- Bytes of the client that arrive in two chunks leave the recorder as one chunk does.
  pub on_client_data-append :
      (s : RedisRecorder) (x y : Bytes)
      → on_client_data clock s (x ++ y)
        ≡ (on_client_data clock s x >>= λ t. on_client_data clock t y)
  unfolding on_client_data
  on_client_data-append s x y =
      ap (λ b. keep_client clock s (consume decode (on_request clock) s.queue b))
        (sym (append_assoc s.client_buffer x y))
      ∙ ap (keep_client clock s)
          (consume-append decode-IsReader (on_request clock) s.queue (s.client_buffer ++ x) y)
      ∙ keep_client-resume s _ _
          (consume decode (on_request clock) s.queue (s.client_buffer ++ x)).faulted y

  -- So do bytes of the server.
  pub on_server_data-append :
      (s : RedisRecorder) (x y : Bytes)
      → on_server_data clock s (x ++ y)
        ≡ (on_server_data clock s x >>= λ t. on_server_data clock t y)
  unfolding on_server_data
  on_server_data-append s x y =
      ap (λ b. keep_server clock s (consume decode (on_reply clock) s.queue b))
        (sym (append_assoc s.server_buffer x y))
      ∙ ap (keep_server clock s)
          (consume-append decode-IsReader (on_reply clock) s.queue (s.server_buffer ++ x) y)
      ∙ keep_server-resume s _ _
          (consume decode (on_reply clock) s.queue (s.server_buffer ++ x)).faulted y
