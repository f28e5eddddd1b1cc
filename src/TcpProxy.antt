-- ===== src/TcpProxy.antt =====
-- `bridge` of src/record/tcp/recordingTcpProxy.ts: bytes are relayed and a recorder is told of them. The
-- sockets are their events and what is written to them; a destroyed socket has no more events.
use cognivox_record.Prelude.{
  ◌≡◌, ◌≢◌, refl, sym, ◌∙◌, ap, List, [], ◌∷◌, ◌++◌, append-nil, append_assoc,
}
use cognivox_record.Text.Utf8.{Bytes}
use cognivox_record.Handled.{Handled, returned, raised, never}
use cognivox_record.Interaction.{DependencyInteraction}

-- `ProtocolRecorder` of src/record/tcp/protocol.ts on a state S; any of its methods may throw or loop for
-- ever.
pub record ProtocolRecorder {ℓ} (S : Type ℓ) : Type ℓ where
  pub on_client_data : S → Bytes → Handled S
  pub on_server_data : S → Bytes → Handled S
  pub drain : S → Handled (List DependencyInteraction × S)

-- How a call of `onInteraction` ends.
abbrev pub Call : Type 0
Call = Handled Unit

pub data SocketEvent : Type 0 where
  client_data server_data : Bytes → SocketEvent
  -- The four listeners that are `close`: either socket ends or fails.
  closing : SocketEvent

-- A listener that lets an exception through ends the process, and one that never returns keeps every
-- other from running: either way the bridge is halted.
pub data Status : Type 0 where
  running destroyed halted : Status

-- `to_upstream` and `to_client` are all the bytes written so far, `reported` the calls of
-- `onInteraction` in their order.
pub record Bridge {ℓ} (S : Type ℓ) : Type ℓ where
  pub recorded : S
  pub to_upstream : Bytes
  pub to_client : Bytes
  pub reported : List DependencyInteraction
  pub status : Status

abbrev pub connect {ℓ} : {S : Type ℓ} → S → Bridge S
connect s = record {
  recorded = s;
  to_upstream = [];
  to_client = [];
  reported = [];
  status = running;
}

-- What a plain relay passes on, up to the end of the connection.
abbrev pub sent_by_client : List SocketEvent → Bytes
sent_by_client [] = []
sent_by_client (client_data c ∷ es) = c ++ sent_by_client es
sent_by_client (server_data c ∷ es) = sent_by_client es
sent_by_client (closing ∷ es) = []

abbrev pub sent_by_server : List SocketEvent → Bytes
sent_by_server [] = []
sent_by_server (client_data c ∷ es) = sent_by_server es
sent_by_server (server_data c ∷ es) = c ++ sent_by_server es
sent_by_server (closing ∷ es) = []

-- `upstream.destroy(); client.destroy()`, which a halted listener does not reach.
abbrev after_destroy : Status → Status
after_destroy running = destroyed
after_destroy destroyed = destroyed
after_destroy halted = halted

module _ {ℓ} {S : Type ℓ} where
  -- The rest of a listener behind a call: it is reached if the call returns.
  abbrev behind {κ} : {A : Type κ} → Bridge S → Handled A → (A → Bridge S) → Bridge S
  behind b (returned a) rest = rest a
  behind b (raised a) rest = record b { status = halted }
  behind b never rest = record b { status = halted }

-- A parser fault is swallowed.
unfoldable pub safely {ℓ} : {S : Type ℓ} → Handled S → Handled S
safely (returned s) = returned s
safely (raised s) = returned s
safely never = never

-- The recorder, and how a call of `onInteraction` ends behind the calls before it.
module _ {ℓ} {S : Type ℓ} (recorder : ProtocolRecorder S)
    (on_interaction : List DependencyInteraction → DependencyInteraction → Call) where
  unfoldable pub report : Bridge S → List DependencyInteraction → Bridge S
  report b [] = b
  report b (i ∷ is) =
      let called : Bridge S = record b { reported = b.reported ++ (i ∷ []) } in
      behind called (on_interaction b.reported i) (λ u. report called is)

  unfoldable pub flush : Bridge S → Bridge S
  unfolding report
  flush b =
      behind b (recorder.drain b.recorded)
        (λ (interactions, s). report (record b { recorded = s }) interactions)

  unfoldable pub handle : Bridge S → SocketEvent → Bridge S
  unfolding flush safely
  handle b (client_data chunk) =
      behind b (safely (recorder.on_client_data b.recorded chunk))
        (λ s. record b { recorded = s; to_upstream = b.to_upstream ++ chunk })
  handle b (server_data chunk) =
      behind b (safely (recorder.on_server_data b.recorded chunk))
        (λ s. flush (record b { recorded = s; to_client = b.to_client ++ chunk }))
  handle b closing =
      let flushed = flush b in record flushed { status = after_destroy flushed.status }

  unfoldable pub on_event : Bridge S → SocketEvent → Bridge S
  unfolding handle
  on_event b e = elim b.status [ running ↦ handle b e | destroyed ↦ b | halted ↦ b ]

  abbrev pub run : Bridge S → List SocketEvent → Bridge S
  run b [] = b
  run b (e ∷ es) = run (on_event b e) es

  event_running : (b : Bridge S) (e : SocketEvent) → b.status ≡ running → on_event b e ≡ handle b e
  unfolding on_event
  event_running b e h = rw h refl

  run_destroyed : (b : Bridge S) (es : List SocketEvent) → b.status ≡ destroyed → run b es ≡ b
  unfolding on_event
  run_destroyed b [] h = refl
  run_destroyed b (e ∷ es) h =
      let same : on_event b e ≡ b = rw h refl in ap (λ c. run c es) same ∙ run_destroyed b es h

  -- The parts of a bridge that the relay is about.
  abbrev Relayed : Type 0
  Relayed = Bytes × Bytes × Status

  abbrev relayed : Bridge S → Relayed
  relayed b = (b.to_upstream, b.to_client, b.status)

  module _ (client_ends : (s : S) (c : Bytes) → recorder.on_client_data s c ≢ never)
      (server_ends : (s : S) (c : Bytes) → recorder.on_server_data s c ≢ never)
      (drained : (s : S) → (r : List DependencyInteraction × S) × (recorder.drain s ≡ returned r))
      (told : (past : List DependencyInteraction) (i : DependencyInteraction)
        → on_interaction past i ≡ returned tt) where
    safely-returned : (h : Handled S) → h ≢ never → (s : S) × (safely h ≡ returned s)
    unfolding safely
    safely-returned (returned s) h = (s, refl)
    safely-returned (raised s) h = (s, refl)
    safely-returned never h = absurd (h refl)

    report-relayed :
        (b : Bridge S) (is : List DependencyInteraction) → relayed (report b is) ≡ relayed b
    unfolding report
    report-relayed b [] = refl
    report-relayed b (i ∷ is) =
        let called : Bridge S = record b { reported = b.reported ++ (i ∷ []) } in
        ap (λ h. relayed (behind called h (λ u. report called is))) (told b.reported i)
        ∙ report-relayed called is

    flush-relayed : (b : Bridge S) → relayed (flush b) ≡ relayed b
    unfolding flush
    flush-relayed b =
        let ((is, s), e) = drained b.recorded in
        ap (λ h. relayed (behind b h (λ (is, s). report (record b { recorded = s }) is))) e
        ∙ report-relayed (record b { recorded = s }) is

    -- What an event is to the relay.
    abbrev Passed : Relayed → SocketEvent → Relayed
    Passed (u, d, s) (client_data c) = (u ++ c, d, s)
    Passed (u, d, s) (server_data c) = (u, d ++ c, s)
    Passed (u, d, s) closing = (u, d, after_destroy s)

    handle-relayed : (b : Bridge S) (e : SocketEvent) → relayed (handle b e) ≡ Passed (relayed b) e
    unfolding handle
    handle-relayed b (client_data c) =
        let (s, e) =
          safely-returned (recorder.on_client_data b.recorded c) (client_ends b.recorded c) in
        ap
          (λ h.
            relayed (behind b h (λ s. record b { recorded = s; to_upstream = b.to_upstream ++ c })))
          e
    handle-relayed b (server_data c) =
        let (s, e) =
          safely-returned (recorder.on_server_data b.recorded c) (server_ends b.recorded c) in
        ap
          (λ h.
            relayed
              (behind b h (λ s. flush (record b { recorded = s; to_client = b.to_client ++ c }))))
          e
        ∙ flush-relayed (record b { recorded = s; to_client = b.to_client ++ c })
    handle-relayed b closing = ap (λ r. Passed r closing) (flush-relayed b)

    relay_from :
        (b : Bridge S) (es : List SocketEvent)
        → b.status ≡ running
        → ((run b es).to_upstream ≡ b.to_upstream ++ sent_by_client es)
          × ((run b es).to_client ≡ b.to_client ++ sent_by_server es)
    relay_from b [] h = (sym (append-nil b.to_upstream), sym (append-nil b.to_client))
    relay_from b (client_data c ∷ es) h =
        let e = ap relayed (event_running b (client_data c) h) ∙ handle-relayed b (client_data c) in
        let next = on_event b (client_data c) in
        let (u, d) = relay_from next es (ap (λ r. r.2) e ∙ h) in
        (
          u
              ∙ ap (λ r. r.0 ++ sent_by_client es) e
              ∙ append_assoc b.to_upstream c (sent_by_client es),
          d ∙ ap (λ r. r.1 ++ sent_by_server es) e,
        )
    relay_from b (server_data c ∷ es) h =
        let e = ap relayed (event_running b (server_data c) h) ∙ handle-relayed b (server_data c) in
        let next = on_event b (server_data c) in
        let (u, d) = relay_from next es (ap (λ r. r.2) e ∙ h) in
        (
          u ∙ ap (λ r. r.0 ++ sent_by_client es) e,
          d ∙ ap (λ r. r.1 ++ sent_by_server es) e ∙ append_assoc b.to_client c (sent_by_server es),
        )
    relay_from b (closing ∷ es) h =
        let e = ap relayed (event_running b closing h) ∙ handle-relayed b closing in
        let over = run_destroyed (on_event b closing) es (ap (λ r. r.2) e ∙ ap after_destroy h) in
        (
          ap (λ (x : Bridge S). x.to_upstream) over
              ∙ ap (λ r. r.0) e
              ∙ sym (append-nil b.to_upstream),
          ap (λ (x : Bridge S). x.to_client) over ∙ ap (λ r. r.1) e ∙ sym (append-nil b.to_client),
        )

    -- Where each call of a handler of the recorder returns or throws, and draining it and reporting an
    -- interaction return, the relay is byte-exact: up to the end of the connection the upstream is
    -- written the client's bytes and the client the upstream's, each in order, and after it nothing.
    pub relay :
        (s : S) (es : List SocketEvent)
        → ((run (connect s) es).to_upstream ≡ sent_by_client es)
          × ((run (connect s) es).to_client ≡ sent_by_server es)
    relay s es = relay_from (connect s) es refl
