-- ===== src/Postgres/Replay/Chunks.antt =====
-- TCP may cut a driver's stream anywhere: the replay server does not notice.
use cognivox_record.Prelude.{
  ◌≡◌, refl, sym, ◌∙◌, ap, Bool, true, false, List, [], ◌∷◌, ◌++◌, append_assoc, Option, none, some,
  ◌>>=◌, >>=-eq-some, some_inj, ◌==◌, if◌then◌else◌,
}
use cognivox_record.Text.Utf8.{Bytes}
use cognivox_record.Framing.{Consumed, consume}
use cognivox_record.Framing.Chunks.{resume, consume-append}
use cognivox_record.Framing.Invariant.{consume-invariant, consume-unfaulted}
use cognivox_record.Postgres.Messages.{PostgresFrame, read_frame, read_bind_parameters}
use cognivox_record.Postgres.Messages.Reader.{read_frame-IsReader, read_frame-ne_fault}
use cognivox_record.Postgres.Encoder.{ready_for_query}
use cognivox_record.Postgres.Replay.Server.{
  Session, Served, Connection, concat_buffers, write, on_query, on_parse, on_bind, on_describe,
  on_execute, handle_frame, keep, serve_frames, on_data,
}

write-session :
    (s t : Served) (ms : List (Option Bytes)) → write s ms ≡ some t → t.session ≡ s.session
unfolding write
write-session s t ms e =
    let (b, made, f) = >>=-eq-some (concat_buffers ms) _ e in
    ap (λ (u : Served). u.session) (sym (some_inj f))

-- A step keeps the connection started.
abbrev Keeps : Served → Option Served → Type 0
Keeps s o = (t : Served) → o ≡ some t → t.session.started ≡ s.session.started

if-Keeps :
    (s : Served) (b : Bool) (x y : Option Served)
    → Keeps s x
    → Keeps s y
    → Keeps s (if b then x else y)
if-Keeps s true x y h k = h
if-Keeps s false x y h k = k

write-Keeps : (s : Served) (ms : List (Option Bytes)) → Keeps s (write s ms)
write-Keeps s ms t e = ap (λ (u : Session). u.started) (write-session s t ms e)

on_bind-Keeps : (s : Served) (payload : Bytes) → Keeps s (on_bind s payload)
unfolding on_bind
on_bind-Keeps s payload t e =
    let (ps, read, f) = >>=-eq-some (read_bind_parameters payload) _ e in write-Keeps _ _ t f

on_query-Keeps : (s : Served) (payload : Bytes) → Keeps s (on_query s payload)
unfolding on_query
on_query-Keeps s payload t e = ap (λ (u : Session). u.started) (write-session _ t _ e)

on_parse-Keeps : (s : Served) (payload : Bytes) → Keeps s (on_parse s payload)
unfolding on_parse
on_parse-Keeps s payload t e = ap (λ (u : Session). u.started) (write-session _ t _ e)

on_describe-Keeps : (s : Served) → Keeps s (on_describe s)
unfolding on_describe
on_describe-Keeps s t e = ap (λ (u : Session). u.started) (write-session _ t _ e)

on_execute-Keeps : (s : Served) → Keeps s (on_execute s)
unfolding on_execute
on_execute-Keeps s t e = ap (λ (u : Session). u.started) (write-session _ t _ e)

-- No frame takes a started session back.
handle_frame-Keeps : (s : Served) (f : PostgresFrame) → Keeps s (handle_frame s f)
unfolding handle_frame
handle_frame-Keeps s f =
    if-Keeps s (f.type == b'Q') (on_query s f.payload) _ (on_query-Keeps s f.payload) (
      if-Keeps s (f.type == b'P') (on_parse s f.payload) _ (on_parse-Keeps s f.payload) (
        if-Keeps s (f.type == b'B') (on_bind s f.payload) _ (on_bind-Keeps s f.payload) (
          if-Keeps s (f.type == b'D') (on_describe s) _ (on_describe-Keeps s) (
            if-Keeps s (f.type == b'E') (on_execute s) _ (on_execute-Keeps s) (
              if-Keeps s (f.type == b'S') (write s (ready_for_query ∷ [])) (some s)
                (write-Keeps s (ready_for_query ∷ []))
                (λ t e. ap (λ (u : Served). u.session.started) (sym (some_inj e))))))))

abbrev step : Option Served → PostgresFrame → Option Served
step o f = o >>= λ t. handle_frame t f

abbrev IsStarted : Option Served → Type 0
IsStarted o = (t : Served) → o ≡ some t → t.session.started ≡ true

step-IsStarted : (o : Option Served) (f : PostgresFrame) → IsStarted o → IsStarted (step o f)
step-IsStarted none f h t e = h t e
step-IsStarted (some s) f h t e = handle_frame-Keeps s f t e ∙ h s refl

step-none : (o : Option Served) (f : PostgresFrame) → o ≡ none → step o f ≡ none
step-none o f e = rw e refl

-- A connection whose greeting has been sent is served frame by frame.
on_data_started :
    (c : Connection) (chunk : Bytes)
    → c.served.session.started ≡ true
    → on_data c chunk ≡ serve_frames c.served (c.buffered ++ chunk)
unfolding on_data
on_data_started c chunk h = rw h refl

keep-resume :
    (o : Option Served) (rest y : Bytes)
    → IsStarted o
    → keep (consume read_frame step o (rest ++ y))
      ≡ (keep (record { state = o; rest = rest; faulted = false }) >>= λ t. on_data t y)
unfolding keep serve_frames
keep-resume none rest y h =
    ap
      (λ o. o >>= λ s.
        some (record { buffered = (consume read_frame step none (rest ++ y)).rest; served = s }))
      (consume-invariant read_frame step (λ o. o ≡ none) none (rest ++ y) step-none refl)
keep-resume (some s) rest y h =
    sym (on_data_started (record { buffered = rest; served = s }) y (h s refl))

resume-unfaulted :
    (r : Consumed (Option Served)) (y : Bytes)
    → r.faulted ≡ false
    → resume read_frame-IsReader step r y ≡ consume read_frame step r.state (r.rest ++ y)
resume-unfaulted r y e = rw e refl

-- Once the greeting has been sent, a driver's bytes that arrive in two chunks are answered as if
-- they had arrived in one, in the same messages and with the same exceptions.
pub on_data-append_started :
    (c : Connection) (x y : Bytes)
    → c.served.session.started ≡ true
    → on_data c (x ++ y) ≡ (on_data c x >>= λ t. on_data t y)
unfolding serve_frames keep
on_data-append_started c x y h =
    let b = c.buffered ++ x in
    let r = consume read_frame step (some c.served) b in
    let kept : IsStarted r.state =
      consume-invariant read_frame step IsStarted (some c.served) b step-IsStarted
        (λ t e. ap (λ (u : Served). u.session.started) (sym (some_inj e)) ∙ h) in
    let whole : r.faulted ≡ false =
      consume-unfaulted read_frame step (some c.served) b read_frame-ne_fault in
    on_data_started c (x ++ y) h
    ∙ ap (λ z. keep (consume read_frame step (some c.served) z)) (sym (append_assoc c.buffered x y))
    ∙ ap keep
        (consume-append read_frame-IsReader step (some c.served) b y ∙ resume-unfaulted r y whole)
    ∙ keep-resume r.state r.rest y kept
    ∙ ap (λ o. o >>= λ t. on_data t y) (sym (on_data_started c x h))
