-- ===== src/Socket.antt =====
-- comm/SocketCommunicator.cc: messages over a stream of bytes. Each message follows a header of eight
-- characters with its length in hexadecimal. A byte is a number. The set-up of sockets and threads is
-- not modelled.
pub mod Header
pub mod Sending
pub mod Rounds
pub mod Framing
pub mod Channel
use arl_hierarchical_multisc.Base.{
  ℕ, zero, suc, ◌+◌, ◌-◌, ◌*◌, ◌/◌, ◌%◌, Bool, true, false, List, [], ◌∷◌, ◌++◌, length, take, drop,
  ltb, leb, ◌==◌, if◌then◌else◌,
}
use arl_hierarchical_multisc.Base.Int.{ℤ, pos, negsuc, unsigned_mod}
use arl_hierarchical_multisc.Base.Effect.{
  M, Result, ok, err, connection_termination, network_error, undefined, pure, throw, ◌>>=◌,
}

abbrev pub Bytes : Type 0
Bytes = List ℕ

abbrev pub header_length : ℕ
header_length = 8

abbrev pub receive_buffer_size : ℕ
receive_buffer_size = 8192

-- The character of a hexadecimal digit.
abbrev pub hex_digit : ℕ → ℕ
hex_digit n = if ltb n 10 then n + 48 else n + 87

-- The digits of `n` before a text, with fuel for their number.
unfoldable pub hex_before : ℕ → ℕ → Bytes → Bytes
hex_before zero n text = text
hex_before (suc fuel) n text =
    let longer = hex_digit (n % 16) ∷ text in
    let rest = hex_before fuel (n / 16) longer in if n / 16 == 0 then longer else rest

abbrev blanks : ℕ → Bytes → Bytes
blanks zero text = text
blanks (suc n) text = 32 ∷ blanks n text

-- `std::setw(headerLength) << std::hex << n`; a `size_t` has at most 16 digits.
unfoldable pub header : ℕ → Bytes
unfolding hex_before
header n = let digits = hex_before 16 n [] in blanks (header_length - length digits) digits

-- What `sendSerialized` puts on the wire.
unfoldable pub frame : Bytes → Bytes
unfolding header
frame message = header (length message) ++ message

-- The value of a character as a hexadecimal digit, or 16.
abbrev pub digit_value : ℕ → ℕ
digit_value c =
    if leb 48 c
    then (if leb c 57
        then c - 48
        else if leb 97 c
        then (if leb c 102 then c - 87 else 16)
        else if leb 65 c
        then (if leb c 70 then c - 55 else 16)
        else 16)
    else 16

unfoldable pub read_digits : ℕ → Bytes → ℕ
read_digits acc [] = acc
read_digits acc (c ∷ cs) =
    let rest = read_digits (acc * 16 + digit_value c) cs in
    if digit_value c == 16 then acc else rest

unfoldable pub skip_blanks : Bytes → Bytes
skip_blanks [] = []
skip_blanks (c ∷ cs) = let rest = skip_blanks cs in if c == 32 then rest else c ∷ cs

-- `header >> std::hex >> dataSize`, where the header has neither sign nor prefix.
unfoldable pub read_header : Bytes → ℕ
unfolding read_digits skip_blanks
read_header text = read_digits 0 (skip_blanks text)

-- The bytes of the bucket from a position to another.
abbrev pub slice : ℕ → ℕ → Bytes → Bytes
slice from to bucket = take (to - from) (drop from bucket)

-- The loop of `receiveSerialized`, with fuel for its rounds: the messages, and `headerStart` at its
-- end. The positions are `unsigned int`s.
unfoldable pub unpack : ℕ → ℕ → Bytes → List Bytes × ℕ
unfolding read_header
unpack zero header_start bucket = ([], header_start)
unpack (suc fuel) header_start bucket =
    let header_end = (header_start + header_length) % unsigned_mod in
    let data_size = read_header (slice header_start header_end bucket) in
    let data_end = (header_end + data_size) % unsigned_mod in
    let (messages, end) = unpack fuel data_end bucket in
    if ltb header_end (length bucket)
    then if leb data_end (length bucket)
      then (slice header_end data_end bucket ∷ messages, end)
      else ([], header_start)
    else ([], header_start)

pub record Socket : Type 0 where
  pub bucket : Bytes
  pub is_connected : Bool

-- A round of `receiveThread`, by what `recv` returned: bytes, or none where the connection has ended.
unfoldable pub receive_bytes : Bytes → Socket → Socket
receive_bytes [] s = record s { is_connected = false }
receive_bytes (c ∷ cs) s = record s { bucket = s.bucket ++ c ∷ cs }

-- Where no message was taken: an empty answer, or the connection has ended.
abbrev pub answer : List Bytes → Bool → Result (List Bytes)
answer [] true = ok []
answer [] false = err connection_termination
answer (m ∷ ms) connected = ok (m ∷ ms)

-- The socket is that of the first locked section, which empties the bucket. `connected` is what the
-- second one reads, under another lock: bytes and the end of the connection may come between the two.
-- Each round but the last takes a header at least, so there are no more than there are bytes.
unfoldable pub receive_serialized : (connected : Bool) → Socket → Result (List Bytes) × Socket
unfolding unpack
receive_serialized connected s =
    let (messages, end) = unpack (length s.bucket) 0 s.bucket in
    (answer messages connected, record s { bucket = drop end s.bucket })

-- `::send`: the number of bytes that it took, or -1.
pub record Wire (W : Type 0) : Type 0 where
  pub send : Bytes → M W ℤ

module _ {W : Type 0} (wire : Wire W) where
  -- The loop of `sendSerialized`, with fuel: each round takes a byte at least.
  abbrev sent_some : (ℕ → M W (Unit {0})) → ℤ → M W (Unit {0})
  sent_some go_on (pos n) = go_on n
  sent_some go_on (negsuc n) = throw network_error

  unfoldable pub send_loop : ℕ → Bytes → M W (Unit {0})
  send_loop fuel [] = pure tt
  send_loop zero (c ∷ cs) = throw undefined
  send_loop (suc fuel) (c ∷ cs) = do
    sent ← wire.send (c ∷ cs)
    sent_some (λ n. send_loop fuel (drop n (c ∷ cs))) sent

  unfoldable pub send_serialized : Bytes → M W (Unit {0})
  unfolding send_loop frame
  send_serialized message = send_loop (length (frame message)) (frame message)
