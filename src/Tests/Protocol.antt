-- ===== src/Tests/Protocol.antt =====
-- The wire format at concrete frames.
use uruflow.Prelude.{◌≢◌, ℕ, ◌≡◌, arith, List, [], ◌∷◌, ◌++◌, some, Text, bytes, take, drop}
use uruflow.Protocol.{
  ok, Error, timeout, eof, invalid_magic, Message, encode, encode_header, decode_header,
}
use uruflow.Protocol.MessageType
use uruflow.Protocol.Header.{decode_header-encode_header}
use uruflow.Protocol.Stream.{byte, deadline, arrivals, read_messages}
use uruflow.Protocol.Framing.{read_messages-wire, wire}
use uruflow.Protocol.Loop.{read_messages_ends, read_messages_desync}

abbrev hello : Message
hello = record { type = MessageType.command_log; payload = bytes "hello" }

abbrev bye : Message
bye = record { type = MessageType.disconnect; payload = [] }

decode_header-encode_header_example : decode_header (encode_header 16 5) ≡ ok (16, 5)
decode_header-encode_header_example = decode_header-encode_header 16 5 (omega arith)

abbrev header : Text
header = 85 ∷ 70 ∷ 1 ∷ 16 ∷ 0 ∷ 0 ∷ 1 ∷ 2 ∷ []

abbrev frames : List (ℕ × Message)
frames = (0, hello) ∷ (2, bye) ∷ []

read_messages-wire_example : read_messages 5 (wire frames) ≡ (hello ∷ bye ∷ [], some eof)
read_messages-wire_example = read_messages-wire frames 5 (omega arith) (omega arith)

read_messages_ends_example :
    (e : Error) × ((read_messages 3 (byte 85 ∷ deadline ∷ [])).1 ≡ some e) × (e ≢ timeout)
read_messages_ends_example = read_messages_ends 3 (byte 85 ∷ deadline ∷ []) (omega arith)

read_messages_desync_example :
    read_messages 2 (
      arrivals (take 3 (encode hello)) ++ deadline ∷ arrivals (drop 3 (encode hello) ++ encode bye))
    ≡ ([], some invalid_magic)
unfolding encode encode_header
read_messages_desync_example =
    read_messages_desync hello 3 0 (encode bye) (omega arith) (omega arith) (omega arith)
      (omega arith)
