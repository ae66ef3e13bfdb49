-- ===== src/Protocol/Loop.antt =====
-- The read loop ends, and what an expired deadline inside a frame does to it (reader.go, and the
-- read loop of internal/agent/daemon/daemon.go).
use uruflow.Prelude.{
  ℕ, zero, suc, ◌≤◌, ◌<◌, ◌≡◌, ◌≢◌, refl, List, [], ◌∷◌, ◌++◌, Text, Option, some, arith, length,
  drop, take,
}
use uruflow.Protocol.{
  Result, Error, ok, err, invalid_magic, magic_byte1, magic_byte2, version, header_size,
  decode_header, Message, encode, timeout, eof,
}
use uruflow.Protocol.Framing.{read_nil}
use uruflow.Protocol.Stream.{
  Arrival, byte, deadline, arrivals, read_full, read_payload, with_payload, with_header, read,
  next_round, read_messages,
}

-- What is left on the connection after a read of up to `n` bytes.
read_full_shrinks :
    (n : ℕ) (got : Text) (source : List Arrival) → length (read_full n got source).1 ≤ length source
unfolding read_full
read_full_shrinks zero got source = omega arith
read_full_shrinks (suc n) got [] = omega arith
read_full_shrinks (suc n) got (deadline ∷ source) = omega arith
read_full_shrinks (suc n) got (byte b ∷ source) =
    omega (arith, read_full_shrinks n (got ++ b ∷ []) source)

with_payload-1 : (t : ℕ) (r : Result Text × List Arrival) → (with_payload t r).1 ≡ r.1
unfolding with_payload
with_payload-1 t (ok payload, rest) = refl
with_payload-1 t (err e, rest) = refl

read_payload_shrinks :
    (r : Result (ℕ × ℕ)) (source : List Arrival) → length (read_payload r source).1 ≤ length source
unfolding read_payload
read_payload_shrinks (err e) source = omega arith
read_payload_shrinks (ok (t, n)) source = ground (arith, read_full_shrinks n [] source)

with_header_shrinks : (r : Result Text × List Arrival) → length (with_header r).1 ≤ length r.1
unfolding with_header
with_header_shrinks (ok header, rest) = read_payload_shrinks (decode_header header) rest
with_header_shrinks (err e, rest) = omega arith

read_shrinks : (a : Arrival) (source : List Arrival) → length (read (a ∷ source)).1 ≤ length source
unfolding read read_full
read_shrinks deadline source = with_header_shrinks (err timeout, source)
read_shrinks (byte b) source =
    omega (
      arith,
      with_header_shrinks (read_full 7 (b ∷ []) source),
      read_full_shrinks 7 (b ∷ []) source,
    )

-- An error that is not an expired deadline.
abbrev pub Stops : Option Error → Type 0
Stops o = (e : Error) × (o ≡ some e) × (e ≢ timeout)

next_round-Stops :
    (again : List Arrival → List Message × Option Error) (r : Result Message × List Arrival)
    → Stops (again r.1).1
    → Stops (next_round again r).1
unfolding next_round
next_round-Stops again (ok m, rest) h = h
next_round-Stops again (err timeout, rest) h = h
next_round-Stops again (err e, rest) h = (e, refl, λ t. cc)

-- The read loop ends with an error other than an expired deadline, on every connection: one more
-- round than there are arrivals is enough.
pub read_messages_ends :
    (fuel : ℕ) (source : List Arrival)
    → length source < fuel
    → (e : Error) × ((read_messages fuel source).1 ≡ some e) × (e ≢ timeout)
unfolding read_messages
read_messages_ends zero source h = absurd (omega arith)
read_messages_ends (suc f) [] h = rw read_nil (eof, refl, λ e. cc)
read_messages_ends (suc f) (a ∷ source) h =
    next_round-Stops (read_messages f) (read (a ∷ source))
      (read_messages_ends f (read (a ∷ source)).1 (omega (arith, read_shrinks a source)))

read_full-broken :
    (bs got : Text) (n : ℕ) (rest : List Arrival)
    → length bs < n
    → read_full n got (arrivals bs ++ deadline ∷ rest) ≡ (err timeout, rest)
unfolding read_full
read_full-broken bs got zero rest h = absurd (omega arith)
read_full-broken [] got (suc n) rest h = refl
read_full-broken (b ∷ bs) got (suc n) rest h =
    read_full-broken bs (got ++ b ∷ []) n rest (omega arith)

bad_start :
    (x : ℕ) (bs : Text)
    → 7 ≤ length bs
    → x ≢ magic_byte1
    → read (arrivals (x ∷ bs)) ≡ (err invalid_magic, arrivals (drop 7 bs))
unfolding read read_full read_payload
bad_start x (b1 ∷ b2 ∷ b3 ∷ b4 ∷ b5 ∷ b6 ∷ b7 ∷ more) h ne = ground arith
bad_start x _ h ne = absurd (omega arith)

read_broken :
    (bs : Text) (rest : List Arrival)
    → length bs < header_size
    → read (arrivals bs ++ deadline ∷ rest) ≡ (err timeout, rest)
unfolding read
read_broken bs rest h = rw (read_full-broken bs [] header_size rest h)

resumes_inside :
    (head tail : Text) (x fuel : ℕ)
    → length head < header_size
    → x ≢ magic_byte1
    → 7 ≤ length tail
    → read_messages (suc (suc fuel)) (arrivals head ++ deadline ∷ arrivals (x ∷ tail))
      ≡ ([], some invalid_magic)
unfolding read_messages
resumes_inside head tail x fuel short ne enough =
    rw (read_broken head (arrivals (x ∷ tail)) short) (rw (bad_start x tail enough ne))

-- A deadline that expires after the first, second or third byte of a frame loses these bytes: the
-- loop goes on inside the frame, takes what follows for a header and ends with the invalid-magic
-- error, so neither this message nor any later one is delivered. The type of the message is not
-- 0x55, which no message of the protocol has, and enough bytes follow to fill a header.
pub read_messages_desync :
    (m : Message) (k fuel : ℕ) (later : Text)
    → 0 < k
    → k ≤ 3
    → m.type ≢ magic_byte1
    → k ≤ length (m.payload ++ later)
    → read_messages
        (suc (suc fuel))
        (arrivals (take k (encode m)) ++ deadline ∷ arrivals (drop k (encode m) ++ later))
      ≡ ([], some invalid_magic)
unfolding encode
read_messages_desync m zero fuel later lo hi ne enough = absurd (omega arith)
read_messages_desync m (suc zero) fuel later lo hi ne enough =
    resumes_inside (take 1 (encode m)) (drop 2 (encode m) ++ later) magic_byte2 fuel (omega arith)
      (omega arith) (omega arith)
read_messages_desync m (suc (suc zero)) fuel later lo hi ne enough =
    resumes_inside (take 2 (encode m)) (drop 3 (encode m) ++ later) version fuel (omega arith)
      (omega arith) (omega arith)
read_messages_desync m (suc (suc (suc zero))) fuel later lo hi ne enough =
    resumes_inside (take 3 (encode m)) (drop 4 (encode m) ++ later) m.type fuel (omega arith) ne
      (omega arith)
read_messages_desync m (suc (suc (suc (suc k)))) fuel later lo hi ne enough = absurd (omega arith)
