-- ===== src/Tests/MongoExamples.antt =====
-- The theorems on BSON and MongoDB at concrete inputs.
use cognivox_record.Prelude.{
  ℕ, ◌+◌, ◌*◌, ◌<◌, arith, length, take, drop, All, ◌≡◌, refl, Bool, true, false, List, [], ◌∷◌,
  ◌++◌, Option, none, some, inl, inr,
}
use cognivox_record.Prelude.Int.{ℤ, pos, negsuc}
use cognivox_record.Text.Utf8.{Text, Bytes, codes}
use cognivox_record.Bson.{
  integer, double, BsonValue, null, boolean, number, string, array, document, no_values, value,
  Fields, no_fields, field, set_field, get_field, set_all, Platform,
}
use cognivox_record.Bson.Encode.{encode_document, encode_fields, encode_value, encode_items}
use cognivox_record.Bson.Decode.{done, decode_document}
use cognivox_record.Bson.Numbers.{number_of_bits, big_int}
use cognivox_record.Bson.Wire.{object_id_fields, AreWireFields}
use cognivox_record.Bson.Reads.{IsByte}
use cognivox_record.Bson.Encode.{text_of}
use cognivox_record.Bson.RoundTrip.{decode-encode_document}
use cognivox_record.Mongo.{op_msg, read_message}
use cognivox_record.Mongo.Loop.{messages}
use cognivox_record.Mongo.Server.{start, on_data}
use cognivox_record.Mongo.Server.Replies.{Written, on_data-replies}
use cognivox_record.Mongo.Reply.{encode_reply}
use cognivox_record.Mongo.Framed.{read_message-encode_reply}
use cognivox_record.Handled.{Handled, returned, raised, never}
use cognivox_record.Mongo.Recorder.{MongoRecorder, fresh}
use cognivox_record.Mongo.Recorder.Events.{exchanges, expected}
use cognivox_record.Mongo.Recorder.Streams.{no_bytes}
use cognivox_record.Mongo.Recorder.Pairing.{record_all, events, recorded-expected}
use cognivox_record.Mongo.Replay.{plain_ok, empty_replay, load}
use cognivox_record.Mongo.Replay.Answers
use cognivox_record.Mongo.Replay.Recorded.{
  Exchange, interactions, asked_again, replies_again, OwnApart, AreApart, conversation_replayed,
}
use cognivox_record.Mongo.{command_name_of}
use cognivox_record.Dict.{contains}
use cognivox_record.Text.Words.{equal}
use cognivox_record.Mongo.Replay.{signature_of}
use cognivox_record.Mongo.Replay.Answers.{is_own}
use cognivox_record.Prelude.{sym, ◌∙◌}
use cognivox_record.Mongo.Replay.Answers.{reply_all, replies_refine}
use cognivox_record.Interaction.{DependencyInteraction, mongodb}
use cognivox_record.Tests.Plain.{plain-IsScalar, plain-IsName}

-- A platform whose dates are their numbers of milliseconds and whose base64 is the bytes themselves.
abbrev platform : Platform
platform = record {
  base64 = λ b. b;
  from_base64 = λ t. t;
  iso_date = λ z. some (codes "1970");
  parse_date = λ t. some (pos 0);
  double_text = λ n. codes "0.5";
}

abbrev id_bytes : Bytes
id_bytes = 1 ∷ 2 ∷ 3 ∷ 4 ∷ 5 ∷ 6 ∷ 7 ∷ 8 ∷ 9 ∷ 10 ∷ 11 ∷ 255 ∷ []

-- { ok: 1, rows: [-7, 0.5, null, true], at: { "0": "x" }, _id: ... }
abbrev reply_document : Fields
reply_document = field (codes "ok") (number (integer (pos 1))) (
    field (codes "rows")
      (array (
        value (number (integer (negsuc 6))) (
          value (number (double 0x3FE0_0000_0000_0000))
            (value null (value (boolean true) no_values)))))
      (field (codes "at") (document (field (codes "0") (string (codes "x")) no_fields))
        (field (codes "_id") (document (object_id_fields id_bytes)) no_fields)))

abbrev encoded : Bytes
encoded =
    84 ∷ 0 ∷ 0 ∷ 0 ∷ 16 ∷ 111 ∷ 107 ∷ 0 ∷ 1 ∷ 0 ∷ 0 ∷ 0 ∷ 4 ∷ 114 ∷ 111 ∷ 119 ∷ 115 ∷ 0 ∷ 30 ∷ 0 ∷ 0
    ∷ 0 ∷ 16 ∷ 48 ∷ 0 ∷ 249 ∷ 255 ∷ 255 ∷ 255 ∷ 1 ∷ 49 ∷ 0 ∷ 0 ∷ 0 ∷ 0 ∷ 0 ∷ 0 ∷ 0 ∷ 224 ∷ 63 ∷ 10
    ∷ 50 ∷ 0 ∷ 8 ∷ 51 ∷ 0 ∷ 1 ∷ 0 ∷ 3 ∷ 97 ∷ 116 ∷ 0 ∷ 14 ∷ 0 ∷ 0 ∷ 0 ∷ 2 ∷ 48 ∷ 0 ∷ 2 ∷ 0 ∷ 0 ∷ 0
    ∷ 120 ∷ 0 ∷ 0 ∷ 7 ∷ 95 ∷ 105 ∷ 100 ∷ 0 ∷ 1 ∷ 2 ∷ 3 ∷ 4 ∷ 5 ∷ 6 ∷ 7 ∷ 8 ∷ 9 ∷ 10 ∷ 11 ∷ 255 ∷ 0
    ∷ []

id_bytes-All : All IsByte id_bytes
id_bytes-All = ground arith

abbrev nested : Fields
nested = field (codes "0") (string (codes "x")) no_fields

nested_keys : set_all no_fields nested ≡ nested
unfolding set_all set_field cognivox_record.Bson.index_of cognivox_record.Text.Decimal.parse_nat
    cognivox_record.Text.Words.equal cognivox_record.Text.Decimal.print_nat
nested_keys = refl

nested_plain : text_of (get_field (codes "$type") nested) ≡ none
unfolding get_field cognivox_record.Text.Words.equal
nested_plain = refl

reply_keys : set_all no_fields reply_document ≡ reply_document
unfolding set_all set_field cognivox_record.Bson.index_of cognivox_record.Text.Decimal.parse_nat
    cognivox_record.Text.Words.equal
reply_keys = refl

double_kept : number_of_bits 0x3FE0_0000_0000_0000 ≡ double 0x3FE0_0000_0000_0000
unfolding number_of_bits
double_kept = refl

reply_document-AreWire :
    AreWireFields reply_document × (set_all no_fields reply_document ≡ reply_document)
reply_document-AreWire = (
  (
    plain-IsName (codes "ok") refl,
    refl,
    (
      plain-IsName (codes "rows") refl,
      ((refl, ((omega arith, double_kept), (tt, (tt, tt)))), omega arith),
      (
        plain-IsName (codes "at") refl,
        inl (
          (plain-IsName (codes "0") refl, plain-IsScalar (codes "x") refl, tt),
          nested_keys,
          nested_plain,
        ),
        (plain-IsName (codes "_id") refl, inr (id_bytes, refl, id_bytes-All, refl), tt),
      ),
    ),
  ),
  reply_keys,
)

encoded-made : encode_document platform reply_document ≡ some encoded
unfolding encode_document encode_fields encode_value encode_items
    cognivox_record.Bson.Encode.encode_number cognivox_record.Prelude.Int.write_int32_le
    cognivox_record.Bson.Encode.close_document cognivox_record.Bson.Encode.tag
    cognivox_record.Text.Utf8.encode cognivox_record.Text.Decimal.print_nat
    cognivox_record.Bson.Numbers.write_word64_le get_field cognivox_record.Text.Words.equal
    cognivox_record.Bson.Encode.string_body cognivox_record.Bson.Encode.encode_tagged
    cognivox_record.Bson.Encode.from_hex cognivox_record.Bson.Decode.hex
encoded-made = refl

decode-encode_document_example :
    decode_document platform (codes "xy" ++ (encoded ++ codes "z")) 2 ≡ done reply_document
decode-encode_document_example =
    decode-encode_document platform reply_document (codes "xy") (codes "z") reply_document-AreWire.0
      reply_document-AreWire.1 encoded-made

big_int-signs :
    ((big_int (codes " -12\n") ≡ some (negsuc 11)) × (big_int (codes "+5") ≡ some (pos 5)))
    × ((big_int (codes "0x1F") ≡ some (pos 31)) × (big_int (codes "0b2") ≡ none))
unfolding big_int cognivox_record.Text.Words.trim cognivox_record.Text.Decimal.parse_nat
    cognivox_record.Bson.Numbers.with_sign
big_int-signs = ((refl, refl), (refl, refl))

-- Two commands outstanding at once, and their replies in the other order, cut within messages.
abbrev find_users : Fields
find_users = field (codes "find") (string (codes "users")) no_fields

abbrev find_5 : Bytes
find_5 =
    42 ∷ 0 ∷ 0 ∷ 0 ∷ 5 ∷ 0 ∷ 0 ∷ 0 ∷ 0 ∷ 0 ∷ 0 ∷ 0 ∷ 221 ∷ 7 ∷ 0 ∷ 0 ∷ 0 ∷ 0 ∷ 0 ∷ 0 ∷ 0 ∷ 21 ∷ 0
    ∷ 0 ∷ 0 ∷ 2 ∷ 102 ∷ 105 ∷ 110 ∷ 100 ∷ 0 ∷ 6 ∷ 0 ∷ 0 ∷ 0 ∷ 117 ∷ 115 ∷ 101 ∷ 114 ∷ 115 ∷ 0 ∷ 0
    ∷ []

abbrev ping_6 : Bytes
ping_6 =
    36 ∷ 0 ∷ 0 ∷ 0 ∷ 6 ∷ 0 ∷ 0 ∷ 0 ∷ 0 ∷ 0 ∷ 0 ∷ 0 ∷ 221 ∷ 7 ∷ 0 ∷ 0 ∷ 0 ∷ 0 ∷ 0 ∷ 0 ∷ 0 ∷ 15 ∷ 0
    ∷ 0 ∷ 0 ∷ 16 ∷ 112 ∷ 105 ∷ 110 ∷ 103 ∷ 0 ∷ 1 ∷ 0 ∷ 0 ∷ 0 ∷ 0 ∷ []

abbrev reply_6 : Bytes
reply_6 =
    34 ∷ 0 ∷ 0 ∷ 0 ∷ 2 ∷ 0 ∷ 0 ∷ 0 ∷ 6 ∷ 0 ∷ 0 ∷ 0 ∷ 221 ∷ 7 ∷ 0 ∷ 0 ∷ 0 ∷ 0 ∷ 0 ∷ 0 ∷ 0 ∷ 13 ∷ 0
    ∷ 0 ∷ 0 ∷ 16 ∷ 111 ∷ 107 ∷ 0 ∷ 1 ∷ 0 ∷ 0 ∷ 0 ∷ 0 ∷ []

abbrev reply_5 : Bytes
reply_5 =
    41 ∷ 0 ∷ 0 ∷ 0 ∷ 3 ∷ 0 ∷ 0 ∷ 0 ∷ 5 ∷ 0 ∷ 0 ∷ 0 ∷ 221 ∷ 7 ∷ 0 ∷ 0 ∷ 0 ∷ 0 ∷ 0 ∷ 0 ∷ 0 ∷ 20 ∷ 0
    ∷ 0 ∷ 0 ∷ 16 ∷ 110 ∷ 0 ∷ 1 ∷ 0 ∷ 0 ∷ 0 ∷ 16 ∷ 111 ∷ 107 ∷ 0 ∷ 1 ∷ 0 ∷ 0 ∷ 0 ∷ 0 ∷ []

abbrev chunks : List (Bool × Bytes)
chunks =
    (true, find_5 ++ take 20 ping_6)
    ∷ (true, drop 20 ping_6)
    ∷ (false, reply_6 ++ take 7 reply_5)
    ∷ (false, drop 7 reply_5)
    ∷ []

-- The state behind the chunks.
abbrev state_of : Handled MongoRecorder → MongoRecorder
state_of (returned s) = s
state_of (raised s) = s
state_of never = fresh

abbrev recorded : MongoRecorder
recorded = state_of (record_all (λ k. k * 10) platform fresh chunks)

chunks-recorded : record_all (λ k. k * 10) platform fresh chunks ≡ returned recorded
unfolding cognivox_record.Mongo.Recorder.on_client_data cognivox_record.Mongo.Loop.scan read_message
    cognivox_record.Prelude.Int.read_int32_le decode_document
    cognivox_record.Bson.Decode.read_cstring cognivox_record.Mongo.Recorder.on_server_data
chunks-recorded = refl

recorded-expected_example :
    exchanges recorded.table.completed
    ≡ expected [] (events (λ k. k * 10) platform no_bytes no_bytes chunks)
recorded-expected_example = recorded-expected (λ k. k * 10) platform chunks recorded chunks-recorded

reply_6-made : encode_reply platform (pos 6) (pos 2) plain_ok op_msg ≡ some reply_6
unfolding encode_reply encode_document encode_fields cognivox_record.Bson.Encode.encode_number
    cognivox_record.Prelude.Int.write_int32_le cognivox_record.Bson.Encode.close_document
    cognivox_record.Bson.Encode.tag cognivox_record.Text.Utf8.encode
reply_6-made = refl

read_message-encode_reply_example :
    read_message platform (reply_5 ++ (reply_6 ++ codes "z")) (length reply_5)
    ≡ done (
        some (record {
          request_id = pos 2;
          response_to = pos 6;
          op_code = op_msg;
          body = plain_ok;
          bytes = length reply_6;
        }))
unfolding set_all set_field cognivox_record.Bson.index_of cognivox_record.Text.Decimal.parse_nat
read_message-encode_reply_example =
    read_message-encode_reply platform (pos 6) (pos 2) plain_ok op_msg reply_5 (codes "z")
      (plain-IsName (codes "ok") refl, refl, tt) refl refl reply_6-made

abbrev recording : List DependencyInteraction
recording =
    mongodb (codes "find") find_users plain_ok (pos 3)
    ∷ mongodb (codes "find") find_users reply_document (pos 4)
    ∷ []

abbrev asked : List (Text × Fields)
asked =
    (codes "t0", field (codes "hello") (number (integer (pos 1))) no_fields)
    ∷ (codes "t1", find_users)
    ∷ (codes "t2", find_users)
    ∷ (codes "t3", find_users)
    ∷ (codes "t4", field (codes "drop") (string (codes "users")) no_fields)
    ∷ []

replies_refine_example :
    reply_all platform (load platform recording) asked
    ≡ Answers.expected platform recording [] asked
replies_refine_example = replies_refine platform recording asked

served_chunk-returns :
    (on_data platform (λ n. codes "t") (start empty_replay) (ping_6 ++ take 3 find_5)).1 ≡ done tt
unfolding on_data cognivox_record.Mongo.Loop.scan read_message
    cognivox_record.Prelude.Int.read_int32_le decode_document
    cognivox_record.Bson.Decode.read_cstring encode_reply encode_document encode_fields
    cognivox_record.Mongo.Replay.reply_to cognivox_record.Dict.contains
    cognivox_record.Text.Words.equal cognivox_record.Mongo.command_name_of set_all set_field
    cognivox_record.Bson.index_of cognivox_record.Text.Decimal.parse_nat
    cognivox_record.Text.Utf8.decode cognivox_record.Bson.Encode.encode_number
    cognivox_record.Prelude.Int.write_int32_le cognivox_record.Bson.Encode.close_document
    cognivox_record.Bson.Encode.tag cognivox_record.Text.Utf8.encode encode_value
    cognivox_record.Bson.Encode.string_body cognivox_record.Bson.Encode.encode_tagged
    cognivox_record.Bson.get_field cognivox_record.Mongo.Loop.ended
    cognivox_record.Bson.Numbers.write_int64_le
served_chunk-returns = refl

on_data-replies_example :
    Written platform
      (λ n. codes "t")
      (start empty_replay).served
      (messages platform (ping_6 ++ take 3 find_5)).0
      (on_data platform (λ n. codes "t") (start empty_replay) (ping_6 ++ take 3 find_5)).0.served
on_data-replies_example =
    on_data-replies platform (λ n. codes "t") (start empty_replay) (ping_6 ++ take 3 find_5)
      served_chunk-returns

-- A handshake, and the same query twice with different replies.
abbrev conversation : List Exchange
conversation =
    (field (codes "hello") (number (integer (pos 1))) no_fields, plain_ok, pos 1)
    ∷ (find_users, plain_ok, pos 2)
    ∷ (find_users, reply_document, pos 3)
    ∷ []

hello_apart :
    equal
      (signature_of platform (field (codes "hello") (number (integer (pos 1))) no_fields))
      (signature_of platform find_users)
    ≡ false
unfolding signature_of equal cognivox_record.Text.Words.trim command_name_of get_field
hello_apart = refl

find-not_own : is_own find_users ≡ false
unfolding contains equal command_name_of
find-not_own = refl

hello-own : is_own (field (codes "hello") (number (integer (pos 1))) no_fields) ≡ true
unfolding contains equal command_name_of
hello-own = refl

conversation-AreApart : AreApart platform conversation
conversation-AreApart =
    let own : OwnApart platform (signature_of platform find_users) conversation = (
      (λ e. hello_apart),
      (
        (λ e. let no : true ≡ false = sym e ∙ find-not_own in cc),
        ((λ e. let no : true ≡ false = sym e ∙ find-not_own in cc), tt),
      ),
    ) in
    ((λ e. let no : true ≡ false = sym hello-own ∙ e in cc), ((λ e. own), ((λ e. own), tt)))

conversation_replayed_example :
    reply_all platform
      (load platform (interactions conversation))
      (asked_again (codes "t") conversation)
    ≡ replies_again (codes "t") conversation
conversation_replayed_example =
    conversation_replayed platform (codes "t") conversation conversation-AreApart
