-- ===== src/Lib.antt =====
-- Verification of cognivox-record: what the recorder captures of the conversations between a program
-- and its databases, and what the replay answers in the databases' place.
--
-- The program puts a proxy between an application and each of its dependencies. A recorder is fed the
-- raw chunks of both directions, cuts them into messages and pairs requests with replies into
-- interactions, which are saved. Later a replay server loads the interactions and answers the same
-- requests with no database present.
--
-- Parts and files:
--   Prelude       shared names, Boolean tests, lemmas on lists and options, signed words of 16 and
--                 32 bits as Node's Buffer reads and writes them (Prelude/Int)
--   Text          JavaScript strings as lists of code points, UTF-8, decimal numbers, the string
--                 methods that the source calls, JSON.stringify of parameter lists
--   Dict          Map and Set with string keys
--   Handled       how a handler's call ends: it returns, throws, or never ends
--   Interaction   src/record/tcp/protocol.ts: DependencyInteraction, typed by protocol
--   Framing       the loop that cuts a stream into messages (consume of
--                 src/record/protocols/redisRecorder.ts, and its copies in the handlers of Redis and Postgres)
--   Resp          src/record/protocols/resp.ts: decode, encode, toCommand, fromStored; describe of
--                 redisRecorder.ts in Resp/Stored
--   Redis         src/record/protocols/redisRecorder.ts (Redis/Recorder) and
--                 src/replay/redisReplayServer.ts (Redis/Replay, the socket handler in Server)
--   Postgres      src/record/protocols/postgresMessages.ts (Messages), postgresRecorder.ts
--                 (Recorder), src/replay/postgresEncoder.ts (Encoder), postgresReplayServer.ts
--                 (Replay, the socket handler in Replay/Server); Session and Recorded join them
--   Bson          src/record/protocols/bson.ts: documents, Bson/Decode and Bson/Encode, the 64-bit
--                 words in Bson/Numbers, JSON.stringify in Bson/Json
--   Mongo         src/record/protocols/mongoRecorder.ts (the messages in Mongo, the loop in
--                 Mongo/Loop, Mongo/Recorder) and src/replay/mongoReplayServer.ts (Mongo/Replay,
--                 Mongo/Reply, the socket handler in Mongo/Server)
--   Sequences     the replies kept for one command: in order, the last one for ever after
--   Divergence    src/replay/divergence.ts: the tracker and its patterns (Text/Patterns)
--   ReplaySession src/replay/session.ts: the servers of a replay and the program's environment
--   BodyBuffer    src/record/bodyBuffer.ts: a relayed body and its bounded copy
--   TcpProxy      src/record/tcp/recordingTcpProxy.ts: bridge and safely, for any recorder and any
--                 onInteraction, which may throw or never end
--   DependencyEnv src/record/dependencyEnv.ts: the plan of redirects, with the URL class a parameter
--   Exchange      src/record/exchange.ts: the HAR entry of an HTTP exchange, without constant fields
--   Tests         every theorem at a concrete input
--
-- How the code is modelled. A class is a record of its fields and a method a function from the old
-- record to the result and the new one. A position in a buffer is the list of the bytes from there on;
-- in Bson and Mongo, whose readers can go back, it is an index, and an `Outcome` tells an exception
-- from a loop without end.
-- `Date.now()` is a parameter `clock` that gives the k-th reading of a connection. A null of the
-- readers is `partial`, an exception is `none`, a flag or a `fault`. Numbers are unbounded naturals,
-- as the source's are doubles that stay below 2^53; the 16-bit and 32-bit words of the wire are read
-- and written with their sign and their range errors.
--
-- Fuel. The loop of Framing runs on the number of bytes: each message takes a byte at least. The
-- decoder of Resp runs on the number of bytes too, which bounds the nesting of arrays. The loops of
-- Bson and Mongo may go back or stay, as a length on the wire can be negative or zero: their state is
-- a position, a round that goes on has it inside the buffer, and so more rounds than there are bytes
-- never end; they are `stalled`, an outcome of its own. Documents nested deeper than there are bytes
-- are nested without end, which the source's stack turns into an exception; a nesting that ends, but
-- deeper than the stack, is decoded here.
--
-- BSON. A number is a safe integer or the 64 bits of any other double, so no rounding is modelled.
-- Base64, dates and the text of a double are a parameter, Platform, on which no theorem relies. The
-- key `__proto__`, which an assignment does not store, is left out. A tagged value
-- (`$type` and `value`) that is encoded may be a text, as the source's type TaggedValue has it, an
-- integer, a Boolean or null; an array, an object or a double, which a recording from elsewhere could
-- hold there, is an exception here.
--
-- Not modelled: sockets, processes, files and TLS, which the source only calls; a RESP length or
-- integer that is not a safe decimal integer (the source computes with NaN or a fraction there);
-- upper case beyond ASCII; the HTTP proxies and the command line.
pub mod BodyBuffer
pub mod Bson
pub mod DependencyEnv
pub mod Dict
pub mod Divergence
pub mod Exchange
pub mod Framing
pub mod Handled
pub mod Interaction
pub mod Mongo
pub mod Postgres
pub mod Prelude
pub mod Redis
pub mod ReplaySession
pub mod Resp
pub mod Sequences
pub mod TcpProxy
pub mod Tests
pub mod Text
