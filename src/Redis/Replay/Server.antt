-- ===== src/Redis/Replay/Server.antt =====
-- The connection handler of `startRedisReplayServer` in src/replay/redisReplayServer.ts.
use mathlib.Core.Option
use mathlib.Core.List.{foldl}
use cognivox_record.Prelude.{
  ◌≡◌, refl, false, true, Bool, sym, ◌∙◌, ap, List, [], ◌∷◌, ◌++◌, append-nil, append_assoc, Option,
  none, some, ◌>>=◌, All, unless,
}
use cognivox_record.Text.Utf8.{Text, Bytes}
use cognivox_record.Text.Words.{to_upper}
use cognivox_record.Framing.{Consumed, consume}
use cognivox_record.Framing.Chunks.{resume, consume-append}
use cognivox_record.Framing.Encoded.{concat_map, consume-concat_map}
use cognivox_record.Resp.{RespValue, array, decode, encode}
use cognivox_record.Resp.Commands.{RespCommand, to_command, command_items, to_command-command_items}
use cognivox_record.Resp.Reader.{decode-IsReader}
use cognivox_record.Resp.RoundTrip.{IsWire, decode-encode_value}
use cognivox_record.Interaction.{DependencyInteraction}
use cognivox_record.Redis.Replay.{RedisReplay, load, reply_to}
use cognivox_record.Redis.Replay.Answers.{reply_all, expected, replay_refines}

-- The replay, which the connections share, and what has been written to this socket; `none` is the
-- TypeError of encoding an undefined reply.
pub record Served : Type 0 where
  pub replay : RedisReplay
  pub written : List (Option Bytes)

pub record Connection : Type 0 where
  pub buffered : Bytes
  pub served : Served

serve_command : Served → Option RespCommand → Served
serve_command s none = s
serve_command s (some c) =
    let (v, r) = reply_to s.replay c.command c.args in
    record { replay = r; written = s.written ++ (Option.map encode v ∷ []) }

-- One round of the loop.
unfoldable pub serve_value : Served → RespValue → Served
unfolding serve_command
serve_value s v = serve_command s (to_command v)

keep : Consumed Served → Option Connection
keep r = unless r.faulted (record { buffered = r.rest; served = r.state })

-- The `data` handler.
unfoldable pub on_data : Connection → Bytes → Option Connection
unfolding keep
on_data s chunk = keep (consume decode serve_value s.served (s.buffered ++ chunk))

keep-resume :
    (q : Served) (rest : Bytes) (faulted : Bool) (y : Bytes)
    → let r : Consumed Served = record { state = q; rest = rest; faulted = faulted } in
      keep (resume decode-IsReader serve_value r y) ≡ (keep r >>= λ t. on_data t y)
unfolding keep on_data
keep-resume q rest false y = refl
keep-resume q rest true y = refl

-- A client's bytes that arrive in two chunks are answered as if they had arrived in one.
pub on_data-append :
    (s : Connection) (x y : Bytes) → on_data s (x ++ y) ≡ (on_data s x >>= λ t. on_data t y)
unfolding on_data
on_data-append s x y =
    ap (λ b. keep (consume decode serve_value s.served b)) (sym (append_assoc s.buffered x y))
    ∙ ap keep (consume-append decode-IsReader serve_value s.served (s.buffered ++ x) y)
    ∙ keep-resume _ _ (consume decode serve_value s.served (s.buffered ++ x)).faulted y

-- A command as a client sends it.
pub record Sent : Type 0 where
  pub verb : Text
  pub args : List Text

abbrev pub as_value : Sent → RespValue
as_value c = array (command_items (c.verb ∷ c.args))

abbrev pub as_command : Sent → RespCommand
as_command c = record { command = to_upper c.verb; args = c.args }

abbrev pub as_commands : List Sent → List RespCommand
as_commands [] = []
as_commands (c ∷ cs) = as_command c ∷ as_commands cs

abbrev pub as_values : List Sent → List RespValue
as_values [] = []
as_values (c ∷ cs) = as_value c ∷ as_values cs

abbrev pub encode_all : List (Option RespValue) → List (Option Bytes)
encode_all [] = []
encode_all (o ∷ os) = Option.map encode o ∷ encode_all os

serve_values :
    (r : RedisReplay) (out : List (Option Bytes)) (cs : List Sent)
    → foldl serve_value (record { replay = r; written = out }) (as_values cs) ≡ record {
      replay = (reply_all r (as_commands cs)).1;
      written = out ++ encode_all (reply_all r (as_commands cs)).0;
    }
unfolding serve_value serve_command
serve_values r out [] = ap (λ w. record { replay = r; written = w }) (sym (append-nil out))
serve_values r out (c ∷ cs) =
    let s : Served = record { replay = r; written = out } in
    let p = reply_to r (to_upper c.verb) c.args in
    let one = Option.map encode p.0 ∷ [] in
    ap (λ o. foldl serve_value (serve_command s o) (as_values cs))
      (to_command-command_items c.verb c.args)
    ∙ serve_values p.1 (out ++ one) cs
    ∙ ap (λ w. record { replay = (reply_all p.1 (as_commands cs)).1; written = w })
        (append_assoc out one (encode_all (reply_all p.1 (as_commands cs)).0))

keep_burst :
    (s : Served) (vs : List RespValue)
    → All IsWire vs
    → on_data (record { buffered = []; served = s }) (concat_map encode vs)
      ≡ some (record { buffered = []; served = foldl serve_value s vs })
unfolding on_data keep
keep_burst s vs h = ap keep (
    ap (consume decode serve_value s) (sym (append-nil (concat_map encode vs)))
    ∙ consume-concat_map decode-IsReader serve_value encode IsWire decode-encode_value s vs [] h
        decode-IsReader.empty)

-- The replay server on the wire: to the bytes of any row of commands it writes the encodings of
-- the answers that the recording prescribes, one for each command and in the same order, and
-- keeps no byte back.
pub on_data_answers :
    (is : List DependencyInteraction) (r : RedisReplay) (cs : List Sent)
    → load is ≡ some r
    → All IsWire (as_values cs)
    → (t : Connection) × (on_data
          (record { buffered = []; served = record { replay = r; written = [] } })
          (concat_map encode (as_values cs))
        ≡ some t)
      × (t.buffered ≡ [])
      × (t.served.written ≡ encode_all (expected is [] (as_commands cs)))
on_data_answers is r cs e h =
    let s : Served = record { replay = r; written = [] } in
    let all = foldl serve_value s (as_values cs) in
    (
      record { buffered = []; served = all },
      keep_burst s (as_values cs) h,
      refl,
      ap (λ (t : Served). t.written) (serve_values r [] cs)
          ∙ ap encode_all (replay_refines is r (as_commands cs) e),
    )
