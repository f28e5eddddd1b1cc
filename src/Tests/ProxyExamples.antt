-- ===== src/Tests/ProxyExamples.antt =====
-- The theorems on the proxy, the body capture and the environment at concrete inputs.
use cognivox_record.Prelude.{
  ℕ, arith, ◌+◌, ◌≤◌, ◌≡◌, ◌≢◌, refl, ap, true, false, List, [], ◌∷◌, ◌++◌, Option, none, some,
  length, ltb, if◌then◌else◌,
}
use cognivox_record.Text.Utf8.{Text, Bytes, codes}
use cognivox_record.Dict.{Dict, get}
use cognivox_record.BodyBuffer.{
  start, on_chunks, finish, body, whole, discarded, collected, retained_bounds,
}
use cognivox_record.Exchange.{ingress, RecordedExchange, to_lower, to_har_entry, mime_type_bare}
use cognivox_record.Text.Words.{trim, equal}
use cognivox_record.TcpProxy.{
  ProtocolRecorder, SocketEvent, client_data, server_data, closing, connect, run, Call,
  sent_by_client, sent_by_server, relay,
}
use cognivox_record.DependencyEnv.{Url, RedirectPlan, plan_redirects}
use cognivox_record.DependencyEnv.Plan.{
  local_ports, redirects, count_from, plan_redirects-ports, plan_redirects-kept,
}
use cognivox_record.Redis.Recorder.{RedisRecorder, fresh, on_client_data, on_server_data, drain}
use cognivox_record.Handled.{Handled, returned, raised, never}
use cognivox_record.Interaction.{DependencyInteraction}

abbrev ticking : ℕ → ℕ
ticking n = n + 100

-- The handlers of the Redis recorder, in which a fault leaves it as it was.
abbrev handled : RedisRecorder → Option RedisRecorder → Handled RedisRecorder
handled s none = raised s
handled s (some t) = returned t

abbrev redis_recorder : ProtocolRecorder RedisRecorder
redis_recorder = record {
  on_client_data = λ s c. handled s (on_client_data ticking s c);
  on_server_data = λ s c. handled s (on_server_data ticking s c);
  drain = λ s. returned (drain s);
}

handled-ends : (s : RedisRecorder) (o : Option RedisRecorder) → handled s o ≢ never
handled-ends s none e = cc
handled-ends s (some t) e = cc

abbrev collect : List DependencyInteraction → DependencyInteraction → Call
collect past i = returned tt

abbrev conversation : List SocketEvent
conversation =
    client_data (codes "PING")
    ∷ client_data (13 ∷ 10 ∷ [])
    ∷ server_data (b':' ∷ b'x' ∷ 13 ∷ 10 ∷ [])
    ∷ server_data (codes "+PONG")
    ∷ closing
    ∷ client_data (codes "late")
    ∷ []

relay_example :
    ((run redis_recorder collect (connect fresh) conversation).to_upstream
      ≡ sent_by_client conversation)
    × ((run redis_recorder collect (connect fresh) conversation).to_client
        ≡ sent_by_server conversation)
relay_example =
    relay redis_recorder collect (λ s c. handled-ends s (on_client_data ticking s c))
      (λ s c. handled-ends s (on_server_data ticking s c)) (λ s. (drain s, refl)) (λ past i. refl)
      fresh conversation

abbrev chunks : List Bytes
chunks = codes "abc" ∷ codes "de" ∷ []

collected_example :
    finish (on_chunks 4 start chunks)
    ≡ (if ltb 4 (length (body chunks)) then discarded (body chunks) else whole (body chunks))
collected_example = collected 4 chunks

retained_bounds_example :
    let s = on_chunks 4 start chunks in
    (length s.retained ≡ s.retained_bytes)
    × (s.retained_bytes ≤ 4)
    × (s.total_bytes ≡ length (body chunks))
retained_bounds_example = retained_bounds 4 chunks

-- A parser that reads one scheme and keeps no more than host and port.
abbrev toy_parse : Text → Option Url
toy_parse [] = none
toy_parse (c ∷ t) = some (record {
  protocol = codes "redis:";
  hostname = c ∷ t;
  port = [];
  sslmode = none;
  redirected = λ host port. codes "redis://" ++ (host ++ (b':' ∷ port));
})

abbrev environment : Dict Text
environment =
    (codes "HOME", codes "/root")
    ∷ (codes "REDIS_URL", codes "cache")
    ∷ (codes "PG_URL", codes "db")
    ∷ []

plan_redirects-ports_example :
    let ds = (plan_redirects toy_parse environment 9000).dependencies in
    local_ports ds ≡ count_from 9000 (length ds)
plan_redirects-ports_example = plan_redirects-ports toy_parse environment 9000

home_untouched :
    redirects (codes "HOME") (plan_redirects toy_parse environment 9000).dependencies ≡ false
unfolding plan_redirects cognivox_record.Text.Words.equal get cognivox_record.DependencyEnv.redirect
    cognivox_record.DependencyEnv.protocol_of
home_untouched = refl

plan_redirects-kept_example :
    get (codes "HOME") (plan_redirects toy_parse environment 9000).env
    ≡ get (codes "HOME") environment
plan_redirects-kept_example =
    plan_redirects-kept toy_parse environment 9000 (codes "HOME") home_untouched

abbrev json_exchange : RecordedExchange
json_exchange = record {
  direction = ingress;
  method = codes "GET";
  url = codes "http://localhost/";
  request_headers = [];
  request_body = none;
  request_bytes = 0;
  status = 200;
  status_text = codes "OK";
  response_headers =
      (codes "Vary", codes "*")
      ∷ (codes "Content-Type", codes "js" ++ (b';' ∷ codes " charset=utf-8"))
      ∷ (codes "content-type", codes "text/plain")
      ∷ [];
  response_body = some (codes "{}");
  response_bytes = 2;
  started_at = 0;
  duration_ms = 5;
}

vary-IsOther : to_lower (codes "Vary") ≢ to_lower (codes "content-type")
unfolding to_lower equal
vary-IsOther e = let differs : true ≡ false = ap (equal (to_lower (codes "Vary"))) e in cc

content_type_lower : to_lower (codes "Content-Type") ≡ to_lower (codes "content-type")
unfolding to_lower
content_type_lower = refl

mime_type_bare_example :
    (to_har_entry (λ u. none) (λ n. []) json_exchange).response.mime_type
    ≡ to_lower (trim (codes "js"))
mime_type_bare_example =
    mime_type_bare (λ u. none) (λ n. []) json_exchange (codes "Content-Type") (codes "js")
      (codes " charset=utf-8") ((codes "Vary", codes "*") ∷ [])
      ((codes "content-type", codes "text/plain") ∷ []) refl (vary-IsOther, tt) content_type_lower
      ((λ e. omega arith), ((λ e. omega arith), tt))
