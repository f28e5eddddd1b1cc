-- ===== src/Resp/Commands.antt =====
-- `toCommand` of src/record/protocols/resp.ts.
use cognivox_record.Prelude.{
  ℕ, ◌+◌, ◌≡◌, ◌≢◌, refl, ◌∙◌, ap, List, [], ◌∷◌, ◌++◌, Option, none, some, arith, length,
}
use cognivox_record.Text.Utf8.{Text, Bytes}
use cognivox_record.Text.Words.{to_upper, trim, split_spaces}
use cognivox_record.Framing.{Read, frame}
use cognivox_record.Resp.{
  RespValue, simple, bulk, array, unsupported, RespItems, nil, cons, line, byte_length,
  decode_marked, decode,
}
use cognivox_record.Resp.Reader.{decode-eq-upto}
use cognivox_record.Resp.RoundTrip.{IsLine, decode_upto-line}

pub record RespCommand : Type 0 where
  pub command : Text
  pub args : List Text

-- The text of a part: `item.value ?? ''` of a bulk or simple string, and nothing of another kind.
item_text : RespValue → Text
item_text (bulk (some t)) = t
item_text (simple t) = t
item_text _ = []

item_texts : RespItems → List Text
item_texts nil = []
item_texts (cons v vs) = item_text v ∷ item_texts vs

words_command : List Text → Option RespCommand
words_command [] = none
words_command (verb ∷ rest) = some (record { command = to_upper verb; args = rest })

-- A bare line, trimmed; an empty one is no command.
line_command : Text → Option RespCommand
line_command [] = none
line_command (c ∷ t) = words_command (split_spaces (c ∷ t))

unfoldable pub to_command : RespValue → Option RespCommand
unfolding item_text item_texts words_command line_command
to_command (array vs) = words_command (item_texts vs)
to_command (simple t) = line_command (trim t)
to_command _ = none

-- A command in the form that clients send: an array of bulk strings.
unfoldable pub command_items : List Text → RespItems
command_items [] = nil
command_items (t ∷ ts) = cons (bulk (some t)) (command_items ts)

item_texts-command_items : (ts : List Text) → item_texts (command_items ts) ≡ ts
unfolding item_texts item_text command_items
item_texts-command_items [] = refl
item_texts-command_items (t ∷ ts) = ap (◌∷◌ t) (item_texts-command_items ts)

-- The verb of a client's command is read in upper case, and its arguments as they were sent.
pub to_command-command_items :
    (verb : Text) (args : List Text)
    → to_command (array (command_items (verb ∷ args)))
      ≡ some (record { command = to_upper verb; args = args })
unfolding to_command
to_command-command_items verb args = ap words_command (item_texts-command_items (verb ∷ args))

-- A byte that is none of the five markers.
pub record IsPlain (m : ℕ) : Type 0 where
  pub not_simple : m ≢ b'+'
  pub not_error : m ≢ b'-'
  pub not_integer : m ≢ b':'
  pub not_bulk : m ≢ b'$'
  pub not_array : m ≢ b'*'

decode_marked-plain :
    (read : Bytes → Read RespValue) (m : ℕ) (t : Text) (n : ℕ) (b : Bytes)
    → IsPlain m
    → decode_marked read m t n b ≡ frame (unsupported (m ∷ t)) n
unfolding decode_marked
decode_marked-plain read m t n b p = ground arith

-- An inline command, a bare line such as `PING` that begins with none of the markers, is decoded as
-- an unsupported value, which `toCommand` takes for no command.
pub inline_command_lost :
    (m : ℕ) (t : Text) (more : Bytes)
    → IsPlain m
    → m ≢ 10
    → IsLine t
    → (decode (line m t ++ more) ≡ frame (unsupported (m ∷ t)) (byte_length t + 3))
      × (to_command (unsupported (m ∷ t)) ≡ none)
unfolding to_command
inline_command_lost m t more p h k = (
  decode-eq-upto _ (line m t ++ more) (omega arith)
      ∙ decode_upto-line (length (line m t ++ more)) m t more h k
      ∙ decode_marked-plain _ m t (byte_length t + 3) _ p,
  refl,
)
