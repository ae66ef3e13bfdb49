-- ===== src/Protocol.antt =====
-- internal/tcp/protocol/protocol.go and the framing half of message.go: the eight-byte header
-- (magic, version, type, big-endian payload length) and `Message.Encode`. A byte is a number
-- below 256; a uint32 is a number below 2 ^ 32.
pub mod MessageType
pub mod Header
pub mod Stream
pub mod Framing
pub mod Loop
pub mod Payloads
use uruflow.Prelude.{
  ℕ, ◌+◌, ◌*◌, ◌/◌, ◌%◌, ◌^◌, Bool, not, ◌||◌, List, [], ◌∷◌, ◌++◌, ltb, ◌==◌, if◌then◌else◌,
  length, Text,
}

abbrev pub magic_byte1 : ℕ
magic_byte1 = 0x55

abbrev pub magic_byte2 : ℕ
magic_byte2 = 0x46

abbrev pub version : ℕ
version = 0x01

abbrev pub header_size : ℕ
header_size = 8

abbrev pub max_payload_size : ℕ
max_payload_size = 16 * 1024 * 1024

-- The errors of the header, and those that `io.ReadFull` hands on from the connection.
pub data Error : Type 0 where
  invalid_magic invalid_version payload_too_large invalid_header : Error
  eof unexpected_eof timeout : Error

pub data Result {ℓ} (A : Type ℓ) : Type ℓ where
  ok : A → Result A
  err : Error → Result A

-- binary.BigEndian.PutUint32 and Uint32
abbrev pub put_uint32 : ℕ → Text
put_uint32 n = (n / 2 ^ 24 % 256) ∷ (n / 2 ^ 16 % 256) ∷ (n / 2 ^ 8 % 256) ∷ (n % 256) ∷ []

abbrev pub uint32 : ℕ → ℕ → ℕ → ℕ → ℕ
uint32 a b c d = a * 2 ^ 24 + b * 2 ^ 16 + c * 2 ^ 8 + d

unfoldable pub encode_header : ℕ → ℕ → Text
encode_header msg_type payload_len =
    magic_byte1 ∷ magic_byte2 ∷ version ∷ msg_type ∷ put_uint32 payload_len

-- The tests of `DecodeHeader` on the eight bytes that it reads, in its order.
check_header : ℕ → ℕ → ℕ → ℕ → ℕ → Result (ℕ × ℕ)
check_header m1 m2 v msg_type payload_len =
    if not (m1 == magic_byte1) || not (m2 == magic_byte2)
    then err invalid_magic
    else if not (v == version)
    then err invalid_version
    else if ltb max_payload_size payload_len
    then err payload_too_large
    else ok (msg_type, payload_len)

-- A slice shorter than the header is refused; bytes behind the header are not read.
unfoldable pub decode_header : Text → Result (ℕ × ℕ)
unfolding check_header
decode_header (m1 ∷ m2 ∷ v ∷ t ∷ a ∷ b ∷ c ∷ d ∷ rest) = check_header m1 m2 v t (uint32 a b c d)
decode_header _ = err invalid_header

pub record Message : Type 0 where
  pub type : ℕ
  pub payload : Text

-- `uint32(len(m.Payload))` wraps.
unfoldable pub encode : Message → Text
unfolding encode_header
encode m = encode_header m.type (length m.payload % 2 ^ 32) ++ m.payload
