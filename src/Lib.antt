-- ===== src/Lib.antt =====
-- A verification of the protocol core of Webel, an implementation of sockets, TLS, HTTP, HTML and
-- JSON in C++. The program is a set of push parsers: a stream object (Basic.IStream.h) is handed
-- elements one by one, and a frame (Basic.IProcess.h, Basic.Frame.cpp) is handed an event that
-- carries bytes, of which it reads as many as it can. Each is a state machine.
--
-- How code corresponds to definitions. A C++ class is a record of its fields, an enum State a data
-- type with the enum's names, and a member function a function from the record to the new record
-- and what was written to the destination stream, as a list. `throw FatalError(...)` is `fatal` of
-- Prelude.Fatal. Numbers are natural numbers with the wrap-around of the C++ type written out. A
-- Codepoint, an int32, stands as its 32-bit pattern. Entries of the debug log are counted where a
-- theorem needs them and left out elsewhere.
--
--   Basic.Utf8            Basic.Utf8Decoder.cpp, Basic.Utf8Encoder.cpp
--   Basic.Numbers         lower_case, base_10, base_16 (Basic.String.h), the number streams
--   Basic.TextSanitizer   Basic.TextSanitizer.cpp
--   Basic.Frame           Basic.Frame.cpp, the events of Basic.Event.cpp, Basic.IProcess.h
--   Http.Characters       the tables of Http.Globals.cpp, ascii_encode
--   Http.UrlDecoder       Http.UrlDecoder.cpp
--   Http.HeadersFrame     Http.HeadersFrame.cpp and the serializer of Http.HeadersFrame.h
--   Http.LengthBodyFrame  Http.LengthBodyFrame.cpp
--   Http.BodyChunksFrame  Http.BodyChunksFrame.cpp
--   Http.BodyFrame        Http.BodyFrame.cpp, Http.DisconnectBodyFrame.cpp
--   Json.Tokens           the tokens of Json.Types.h, the constants of Json.Globals.h
--   Json.Tokenizer        Json.Tokenizer.cpp: Texts and Numbers hold its states, Machine the switch
--   Json.Values           the values of Json.Types.h and their write_to_stream in Json.Types.cpp
--   Json.Documents        the tokens that stand for a value's text
--   Json.Script           Json.Script.cpp
--   Json.Frames           the frames of values, arrays, objects and scripts (Json.ValueFrame.cpp,
--                         Json.ArrayFrame.cpp, Json.ObjectFrame.cpp, Json.ScriptFrame.cpp)
--   Json.Text             Json.Text.cpp, and behind a tokenizer as in Json.Parser.cpp
--   Basic.NumberFrame     Basic.NumberFrame.h, Basic.StreamFrame.h
--   Basic.MemoryRange     Basic.MemoryRange.h, Basic.MemoryRange.cpp
--   Basic.Uri             Basic.Uri.cpp: Encoding holds percent encoding, Parser the states of Parse,
--                         Writing write_to_stream; Progress, RoundTrip and Faults hold proofs
--   Tls.Heartbeat         Tls.HeartbeatMessageFrame.h, Tls.HeartbeatMessageFrame.cpp
--   Tls.RecordFrame       Tls.RecordFrame.h, Tls.RecordFrame.cpp
--   Gzip.Bits             Deflate::read_next of Gzip.Deflate.cpp
--   Gzip.Huffman          HuffmanAlphabet of Gzip.Types.h
--   Gzip.Deflate          Gzip.Deflate.cpp: Blocks, Lengths and Machine hold its states
--   Html.InputStreamPreprocessor   Html.InputStreamPreprocessor.cpp
--
-- Parameters. What a library outside the repository computes is an argument: the arithmetic on long
-- double (LongDouble of Json.Tokens), the text that vsprintf_s gives for a number (`print`) and for
-- a percent-encoded byte (`percent_format`), and the byte that the encoding index holds for a code
-- point that is not ASCII (`pointer`). The scripts of JSON search the tree of an Html document; the
-- functions of Html::Node that they call are the interface Scripting of Json.Script.
--
-- How the parts meet. A BodyChunksFrame runs a LengthBodyFrame and a HeadersFrame inside its own
-- states through process_event_change_state_on_fail of Basic.Frame. It shares its content stream
-- with the LengthBodyFrame, in whose record the calls on it stand. Deflate runs number frames and a
-- stream frame in the same way. Numbers are read by the number streams of Basic.Numbers in
-- Json.Tokenizer and in Http.BodyChunksFrame alike.
--
-- Bounds. Basic::process_event gives a process 0x10000000 iterations and throws when they run out;
-- the model keeps that number as its fuel, and a frame that reads a byte in each iteration stays
-- below it on any event with fewer bytes. Tokenizer::write_element of Json calls itself; the model
-- allows three calls inside one another, which a code point needs that ends a number and begins a
-- token, and takes as an argument what would stand in place of a deeper call. The loop in which an
-- ArrayFrame replays the tokens of a scripted element runs on fuel: one for each node that the
-- script finds, and what the scripts within these tokens need.
--
-- The for loop of Uri::Parse, whose pointer also goes back, has 19 turns for each code point and 39
-- more as its fuel: no turn goes back to an earlier state, and within a state the pointer only
-- grows.
--
-- Not modelled: sockets, threads, logging, the service, cryptography and the certificate store,
-- which are calls into Windows; and the parts of the program that no module above names.
pub mod Prelude
pub mod Basic
pub mod Http
pub mod Html
pub mod Json
pub mod Gzip
pub mod Tls
