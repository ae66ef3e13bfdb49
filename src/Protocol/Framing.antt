-- ===== src/Protocol/Framing.antt =====
-- Reading back what was written: reader.go and the read loop of internal/agent/daemon/daemon.go
-- against `Message.Encode`.
use mathlib.Core.List.{append-nil, append_assoc, map-append}
use uruflow.Prelude.{
  ℕ, zero, suc, ◌+◌, ◌%◌, ◌^◌, ◌≤◌, ◌≡◌, refl, ap, List, [], ◌∷◌, ◌++◌, Text, some, arith, length,
}
use uruflow.Protocol.{
  ok, err, max_payload_size, header_size, encode_header, decode_header, Message, encode, eof,
  timeout,
}
use uruflow.Protocol.Header.{decode_header-encode_header}
use uruflow.Protocol.Stream.{
  Arrival, deadline, arrivals, read_full, read_payload, read, read_messages,
}

pub read_full-arrivals :
    (bs got : Text) (rest : List Arrival)
    → read_full (length bs) got (arrivals bs ++ rest) ≡ (ok (got ++ bs), rest)
unfolding read_full
read_full-arrivals [] got rest = simp append-nil
read_full-arrivals (b ∷ bs) got rest = simp (read_full-arrivals bs, append_assoc)

length-encode_header : (t n : ℕ) → length (encode_header t n) ≡ 8
unfolding encode_header
length-encode_header t n = refl

read_header :
    (t n : ℕ) (rest : List Arrival)
    → read_full header_size [] (arrivals (encode_header t n) ++ rest)
      ≡ (ok (encode_header t n), rest)
unfolding encode_header
read_header t n rest = read_full-arrivals (encode_header t n) [] rest

encode_lem :
    (m : Message)
    → length m.payload ≤ max_payload_size
    → encode m ≡ encode_header m.type (length m.payload) ++ m.payload
unfolding encode
encode_lem m h =
    ap (λ n. encode_header m.type n ++ m.payload)
      (let e : length m.payload % 2 ^ 32 ≡ length m.payload = omega arith in e)

decode_small :
    (m : Message)
    → length m.payload ≤ max_payload_size
    → decode_header (encode_header m.type (length m.payload)) ≡ ok (m.type, length m.payload)
decode_small m h = ground (arith, decode_header-encode_header m.type (length m.payload))

read_payload-arrivals :
    (t : ℕ) (bs : Text) (rest : List Arrival)
    → read_payload (ok (t, length bs)) (arrivals bs ++ rest)
      ≡ (ok (record { type = t; payload = bs }), rest)
unfolding read_payload
read_payload-arrivals t [] rest = refl
read_payload-arrivals t (b ∷ bs) rest = rw (read_full-arrivals (b ∷ bs) [] rest) (ground arith)

read_frame :
    (m : Message) (rest : List Arrival)
    → decode_header (encode_header m.type (length m.payload)) ≡ ok (m.type, length m.payload)
    → read (arrivals (encode_header m.type (length m.payload)) ++ (arrivals m.payload ++ rest))
      ≡ (ok m, rest)
unfolding read
read_frame m rest h =
    rw (read_header m.type (length m.payload) (arrivals m.payload ++ rest), h)
      (read_payload-arrivals m.type m.payload rest)

-- A frame within the size limit is read back as the message that was written, whatever its type
-- and bytes, and the reader stands at what follows the frame.
pub read-encode :
    (m : Message) (rest : List Arrival)
    → length m.payload ≤ max_payload_size
    → read (arrivals (encode m) ++ rest) ≡ (ok m, rest)
read-encode m rest h =
    rw (encode_lem m h, map-append, append_assoc) (read_frame m rest (decode_small m h))

-- What a peer puts on the wire: each frame behind some number of expired deadlines.
abbrev pub pause : ℕ → List Arrival → List Arrival
pause zero rest = rest
pause (suc n) rest = deadline ∷ pause n rest

abbrev pub wire : List (ℕ × Message) → List Arrival
wire [] = []
wire ((n, m) ∷ frames) = pause n (arrivals (encode m) ++ wire frames)

abbrev pub messages : List (ℕ × Message) → List Message
messages [] = []
messages ((n, m) ∷ frames) = m ∷ messages frames

abbrev pub AllSmall : List (ℕ × Message) → Type 0
AllSmall [] = Unit {0}
AllSmall ((n, m) ∷ frames) = (length m.payload ≤ max_payload_size) × AllSmall frames

-- The rounds that a wire takes.
abbrev pub rounds : List (ℕ × Message) → ℕ
rounds [] = 1
rounds ((n, m) ∷ frames) = n + suc (rounds frames)

read-deadline : (rest : List Arrival) → read (deadline ∷ rest) ≡ (err timeout, rest)
unfolding read
read-deadline rest = refl

pub read_nil : read [] ≡ (err eof, [])
unfolding read
read_nil = refl

-- The read loop hands on every frame of the wire, in order and unchanged, where all frames are
-- within the size limit, the deadlines expire only between frames, and the fuel is at least the
-- number of rounds; it then ends with the end of the stream.
pub read_messages-wire :
    (frames : List (ℕ × Message)) (fuel : ℕ)
    → AllSmall frames
    → rounds frames ≤ fuel
    → read_messages fuel (wire frames) ≡ (messages frames, some eof)
unfolding read_messages
read_messages-wire [] zero small h = absurd (omega arith)
read_messages-wire [] (suc f) small h = rw read_nil
read_messages-wire ((zero, m) ∷ frames) zero small h = absurd (omega arith)
read_messages-wire ((zero, m) ∷ frames) (suc f) small h =
    rw (read-encode m (wire frames) small.0)
      (rw (read_messages-wire frames f small.1 (omega arith)))
read_messages-wire ((suc n, m) ∷ frames) zero small h = absurd (omega arith)
read_messages-wire ((suc n, m) ∷ frames) (suc f) small h =
    rw (read-deadline (pause n (arrivals (encode m) ++ wire frames)))
      (read_messages-wire ((n, m) ∷ frames) f small (omega arith))
