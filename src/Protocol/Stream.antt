-- ===== src/Protocol/Stream.antt =====
-- internal/tcp/protocol/reader.go. A connection is what will still arrive on it: bytes, and the
-- moments at which a read deadline expires. At the end of the list the peer has closed it.
use uruflow.Prelude.{
  ℕ, zero, suc, List, [], ◌∷◌, ◌++◌, Option, none, some, ◌==◌, if◌then◌else◌, Text, is_nil, map,
}
use uruflow.Protocol.{
  Error, Result, ok, err, eof, unexpected_eof, timeout, header_size, decode_header, Message,
}

pub data Arrival : Type 0 where
  byte : ℕ → Arrival
  deadline : Arrival

abbrev pub arrivals : Text → List Arrival
arrivals = map byte

-- io.ReadFull: all `n` bytes or an error. The bytes read before an error are gone.
-- The text holds what was read so far.
unfoldable pub read_full : ℕ → Text → List Arrival → Result Text × List Arrival
read_full zero got source = (ok got, source)
read_full (suc n) got [] = (err (if is_nil got then eof else unexpected_eof), [])
read_full (suc n) got (deadline ∷ source) = (err timeout, source)
read_full (suc n) got (byte b ∷ source) = read_full n (got ++ b ∷ []) source

-- The second half of `Reader.Read`: the payload, if the header announces one.
unfoldable pub with_payload : ℕ → Result Text × List Arrival → Result Message × List Arrival
with_payload t (ok payload, rest) = (ok (record { type = t; payload = payload }), rest)
with_payload t (err e, rest) = (err e, rest)

unfoldable pub read_payload : Result (ℕ × ℕ) → List Arrival → Result Message × List Arrival
unfolding with_payload read_full
read_payload (err e) source = (err e, source)
read_payload (ok (t, n)) source =
    if n == 0
    then (ok (record { type = t; payload = [] }), source)
    else with_payload t (read_full n [] source)

unfoldable pub with_header : Result Text × List Arrival → Result Message × List Arrival
unfolding read_payload decode_header
with_header (ok header, rest) = read_payload (decode_header header) rest
with_header (err e, rest) = (err e, rest)

unfoldable pub read : List Arrival → Result Message × List Arrival
unfolding with_header
read source = with_header (read_full header_size [] source)

-- A loop that reads until an error which is no expired deadline, as `readMessages` of
-- internal/agent/daemon/daemon.go does: the messages handed on, and the error that ended it;
-- `none` says that the fuel ran out. Each round takes an arrival or is the last, so one more
-- round than there are arrivals is enough.

unfoldable pub next_round :
    (List Arrival → List Message × Option Error)
    → Result Message × List Arrival
    → List Message × Option Error
next_round again (ok m, rest) = let (ms, e) = again rest in (m ∷ ms, e)
next_round again (err timeout, rest) = again rest
next_round again (err e, rest) = ([], some e)

unfoldable pub read_messages : ℕ → List Arrival → List Message × Option Error
unfolding next_round
read_messages zero source = ([], none)
read_messages (suc fuel) source = next_round (read_messages fuel) (read source)
