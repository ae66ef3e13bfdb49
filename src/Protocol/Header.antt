-- ===== src/Protocol/Header.antt =====
-- What `EncodeHeader` and `DecodeHeader` of internal/tcp/protocol/protocol.go are to each other.
use uruflow.Prelude.{ℕ, ◌^◌, ◌≤◌, ◌<◌, ◌≡◌, [], ◌∷◌, Text, take, arith, leb, if◌then◌else◌}
use uruflow.Protocol.{
  ok, err, payload_too_large, max_payload_size, header_size, encode_header, decode_header,
}

abbrev pub AllBytes : Text → Type 0
AllBytes [] = Unit {0}
AllBytes (b ∷ bs) = (b < 256) × AllBytes bs

-- Decoding an encoded header gives the type and the length back, for every uint32 length up to
-- the limit; a longer payload is refused as too large.
pub decode_header-encode_header :
    (t n : ℕ)
    → n < 2 ^ 32
    → decode_header (encode_header t n)
      ≡ (if leb n max_payload_size then ok (t, n) else err payload_too_large)
unfolding decode_header encode_header
decode_header-encode_header t n h = ground arith

-- A header that is accepted holds the bytes that `EncodeHeader` writes for what was decoded, and
-- its length is within the limit.
pub encode_header-decode_header :
    (header : Text) {t n : ℕ}
    → AllBytes header
    → decode_header header ≡ ok (t, n)
    → (take header_size header ≡ encode_header t n) × (n ≤ max_payload_size)
unfolding decode_header encode_header
encode_header-decode_header (m1 ∷ m2 ∷ v ∷ t' ∷ a ∷ b ∷ c ∷ d ∷ rest) {t} {n} h e =
    (ground arith, ground arith)
encode_header-decode_header _ {t} {n} h e = ground arith
