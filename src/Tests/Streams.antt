-- ===== src/Tests/Streams.antt =====
-- A sender and a receiver with a chunk of a message between them, and a connection that takes three
-- bytes at a time.
use arl_hierarchical_multisc.Base.{true, ◌<◌, ◌≡◌, refl, List, [], ◌∷◌, ◌++◌, length, take, arith}
use arl_hierarchical_multisc.Base.Int.{pos}
use arl_hierarchical_multisc.Base.Effect.{ok}
use arl_hierarchical_multisc.Socket.{
  hex_before, Bytes, Wire, header, frame, receive_bytes, send_serialized,
}
use arl_hierarchical_multisc.Socket.Rounds.{Fits}
use arl_hierarchical_multisc.Socket.Channel
use arl_hierarchical_multisc.Socket.Channel.{
  Link, QueueStep, Represents, Reach, Step, start, poll, here, next, Link-refines, poll-all,
  receive_serialized-stream,
}
use arl_hierarchical_multisc.Socket.Sending.{IsStream, Sent, Sends, took, send_serialized-Sent}

abbrev message : Bytes
message = 104 ∷ 105 ∷ []

abbrev fits : Fits message
fits = (omega arith, omega arith)

abbrev sent : Link
sent = record start { sent = message ∷ []; in_flight = frame message }

abbrev first_bytes : Bytes
first_bytes = 32 ∷ 32 ∷ 32 ∷ []

abbrev last_bytes : Bytes
last_bytes = 32 ∷ 32 ∷ 32 ∷ 32 ∷ 50 ∷ 104 ∷ 105 ∷ []

sent-Reach : Reach sent
sent-Reach = next here (Channel.send message fits refl)

abbrev halfway : Link
halfway = record sent { in_flight = last_bytes; socket = receive_bytes first_bytes start.socket }

halfway-Reach : Reach halfway
unfolding frame header hex_before
halfway-Reach =
    next sent-Reach (Channel.transfer 32 (32 ∷ 32 ∷ []) last_bytes refl (omega arith) (omega arith))

abbrev arrived : Link
arrived = record halfway { in_flight = []; socket = receive_bytes last_bytes halfway.socket }

arrived-Reach : Reach arrived
unfolding receive_bytes
arrived-Reach =
    next halfway-Reach
      (Channel.transfer 32 (32 ∷ 32 ∷ 32 ∷ 50 ∷ 104 ∷ 105 ∷ []) [] refl (omega arith) (omega arith))

Link-refines_example :
    (q : List Bytes) × (q' : List Bytes) × QueueStep q q'
    × Represents arrived q
    × Represents (poll true arrived) q'
Link-refines_example = Link-refines arrived (poll true arrived) arrived-Reach (Channel.receive true)

poll-all_example : (poll true arrived).delivered ≡ message ∷ []
poll-all_example = poll-all true arrived arrived-Reach refl

abbrev closed : Link
closed = record start { socket = receive_bytes [] start.socket }

-- The world is what is out.
abbrev three_bytes : Wire Bytes
three_bytes = record { send = λ data' out. (ok (pos (length (take 3 data'))), out ++ take 3 data') }

three_bytes-IsStream : IsStream three_bytes (λ out. out)
three_bytes-IsStream = record { sends = sends }
  where
    sends :
        (data' : Bytes) (w : Bytes)
        → 0 < length data'
        → Sends (λ out. out) data' w (three_bytes.send data' w)
    sends [] w h = absurd (omega arith)
    sends (a ∷ []) w h = took 1 _ (omega arith) (omega arith) refl refl
    sends (a ∷ b ∷ []) w h = took 2 _ (omega arith) (omega arith) refl refl
    sends (a ∷ b ∷ c ∷ cs) w h = took 3 _ (omega arith) (omega arith) refl refl

send_serialized-Sent_example :
    Sent (λ out. out) (frame message) [] (send_serialized three_bytes message [])
send_serialized-Sent_example =
    send_serialized-Sent three_bytes (λ out. out) three_bytes-IsStream message []
