-- ===== src/Socket/Channel.antt =====
-- A sender and a receiver at the two ends of a stream, which hands over bytes in chunks of any size:
-- what the two ends do implements a queue of messages.
use arl_hierarchical_multisc.Base.{
  ap₂, ℕ, zero, suc, ◌+◌, ◌^◌, ◌<◌, ◌≤◌, ◌≡◌, refl, sym, subst, ◌∙◌, ap, Bool, true, false, List,
  [], ◌∷◌, ◌++◌, length, drop, length-append, append_assoc, append-nil, All, All-append, All-split,
  arith,
}
use arl_hierarchical_multisc.Base.Effect.{Result, ok, err}
use arl_hierarchical_multisc.Socket.{
  Bytes, Socket, frame, receive_buffer_size, unpack, answer, receive_bytes, receive_serialized,
}
use arl_hierarchical_multisc.Socket.Rounds.{stream, Fits}
use arl_hierarchical_multisc.Socket.Framing.{Result-of, unpack-Unpacked}

-- All messages sent and all delivered so far; the bytes between the two ends.
pub record Link : Type 0 where
  pub sent : List Bytes
  pub in_flight : Bytes
  pub socket : Socket
  pub delivered : List Bytes

abbrev pub start : Link
start = record {
  sent = [];
  in_flight = [];
  socket = record { bucket = []; is_connected = true };
  delivered = [];
}

abbrev pub messages_of : Result (List Bytes) → List Bytes
messages_of (ok ms) = ms
messages_of (err e) = []

-- A call of `receiveSerialized`, from its first locked section, and what its second one reads. Nothing
-- else of the call reads or changes the link: where it has messages it returns them, whatever has
-- happened since, and where it has none it delivers none.
abbrev pub poll : (connected : Bool) → Link → Link
poll connected l =
    let (r, s) = receive_serialized connected l.socket in
    record l { socket = s; delivered = l.delivered ++ messages_of r }

-- The steps of the sender, of the stream with the receiver's thread, and of the receiver. Messages and
-- the bucket are shorter than 2^31 bytes. The connection ends in order: when all bytes have come, and
-- nothing is sent from there. A call of the receiver may find in its second section that the connection
-- has ended, whatever it was in its first.
pub data Step (l : Link) : Link → Type 0 where
  send :
      (m : Bytes)
      → Fits m
      → l.socket.is_connected ≡ true
      → Step l (record l { sent = l.sent ++ m ∷ []; in_flight = l.in_flight ++ frame m })
  transfer :
      (c : ℕ) (chunk rest : Bytes)
      → l.in_flight ≡ c ∷ chunk ++ rest
      → length (c ∷ chunk) ≤ receive_buffer_size
      → length l.socket.bucket + length (c ∷ chunk) < 2 ^ 31
      → Step l (record l { in_flight = rest; socket = receive_bytes (c ∷ chunk) l.socket })
  finish : l.in_flight ≡ [] → Step l (record l { socket = receive_bytes [] l.socket })
  receive : (connected : Bool) → Step l (poll connected l)

pub data Reach : Link → Type 0 where
  here : Reach start
  next : {l l' : Link} → Reach l → Step l l' → Reach l'

-- The queue that the link implements: the messages that are sent and not delivered.
pub data QueueStep (q : List Bytes) : List Bytes → Type 0 where
  put : (m : Bytes) → QueueStep q (q ++ m ∷ [])
  get : (got q' : List Bytes) → q ≡ got ++ q' → QueueStep q q'
  idle : QueueStep q q

-- What is not delivered yet is what the bucket and the bytes in flight stand for.
pub record Represents (l : Link) (q : List Bytes) : Type 0 where
  pub in_order : l.sent ≡ l.delivered ++ q
  pub bytes : l.socket.bucket ++ l.in_flight ≡ stream q
  pub fits : All Fits q
  pub room : length l.socket.bucket < 2 ^ 31
  pub ended : l.socket.is_connected ≡ false → l.in_flight ≡ []

stream-append : (ms ns : List Bytes) → stream (ms ++ ns) ≡ stream ms ++ stream ns
stream-append [] ns = refl
stream-append (m ∷ ms) ns =
    ap (λ s. frame m ++ s) (stream-append ms ns)
    ∙ sym (append_assoc (frame m) (stream ms) (stream ns))

messages_of-answer : (ms : List Bytes) (b : Bool) → messages_of (answer ms b) ≡ ms
messages_of-answer [] true = refl
messages_of-answer [] false = refl
messages_of-answer (m ∷ ms) b = refl

-- What a call of `unpack` makes of the bucket.
taken :
    (l : Link) (q : List Bytes)
    → Represents l q
    → Result-of (length l.socket.bucket) [] l.socket.bucket l.in_flight q
taken l q h =
    unpack-Unpacked (length l.socket.bucket) [] l.socket.bucket l.in_flight q h.fits h.bytes
      (omega (arith, h.room)) (omega arith)

length-drop : (n : ℕ) (xs : Bytes) → length (drop n xs) ≤ length xs
length-drop zero xs = omega arith
length-drop (suc n) [] = omega arith
length-drop (suc n) (x ∷ xs) = omega (arith, length-drop n xs)

poll-Represents :
    (connected : Bool) (l : Link) (q : List Bytes) (h : Represents l q)
    → Represents (poll connected l) (taken l q h).pending
unfolding receive_serialized
poll-Represents connected l q h =
    let b = l.socket.bucket in
    let r = unpack (length b) 0 b in
    let u = taken l q h in
    record {
      in_order =
          h.in_order
          ∙ ap (λ s. l.delivered ++ s) u.in_order
          ∙ sym (append_assoc l.delivered r.0 u.pending)
          ∙ ap (λ s. (l.delivered ++ s) ++ u.pending) (sym (messages_of-answer r.0 connected));
      bytes = u.kept;
      fits = (All-split Fits r.0 u.pending (subst (All Fits) u.in_order h.fits)).1;
      room = omega (arith, h.room, length-drop r.1 b);
      ended = h.ended;
    }

no_more : {xs : Bytes} {c : ℕ} {cs : Bytes} → xs ≡ c ∷ cs → xs ≡ [] → ⊥
no_more e none = cc

-- Each step of the link is a step of the queue.
Step-QueueStep :
    (l l' : Link) (q : List Bytes)
    → Represents l q
    → Step l l'
    → (q' : List Bytes) × QueueStep q q' × Represents l' q'
unfolding receive_bytes
Step-QueueStep l _ q h (send m fit connected) = (
  q ++ m ∷ [],
  put m,
  record {
    in_order = ap (λ s. s ++ m ∷ []) h.in_order ∙ append_assoc l.delivered q (m ∷ []);
    bytes =
        sym (append_assoc l.socket.bucket l.in_flight (frame m))
        ∙ ap (λ s. s ++ frame m) h.bytes
        ∙ ap (λ s. stream q ++ s) (sym (append-nil (frame m)))
        ∙ sym (stream-append q (m ∷ []));
    fits = All-append Fits q (m ∷ []) h.fits (fit, tt);
    room = h.room;
    ended = λ e. absurd (cc);
  },
)
Step-QueueStep l _ q h (transfer c chunk rest e small room) = (
  q,
  idle,
  record {
    in_order = h.in_order;
    bytes =
        append_assoc l.socket.bucket (c ∷ chunk) rest
        ∙ ap (λ s. l.socket.bucket ++ s) (sym e)
        ∙ h.bytes;
    fits = h.fits;
    room = omega (arith, room, length-append l.socket.bucket (c ∷ chunk));
    ended = λ off. absurd (no_more e (h.ended off));
  },
)
Step-QueueStep l _ q h (finish e) = (
  q,
  idle,
  record { in_order = h.in_order; bytes = h.bytes; fits = h.fits; room = h.room; ended = λ _. e },
)
Step-QueueStep l _ q h (receive connected) =
    let u = taken l q h in (u.pending, get _ u.pending u.in_order, poll-Represents connected l q h)

start-Represents : Represents start []
start-Represents = record {
  in_order = refl;
  bytes = refl;
  fits = tt;
  room = omega arith;
  ended = λ _. refl;
}

Reach-Represents : (l : Link) → Reach l → (q : List Bytes) × Represents l q
Reach-Represents l here = ([], start-Represents)
Reach-Represents l (next {l = m} r s) =
    let (q, h) = Reach-Represents m r in let (q', t, h') = Step-QueueStep m l q h s in (q', h')

all_taken : (q ms pending : List Bytes) → q ≡ ms ++ pending → pending ≡ [] → q ≡ ms
all_taken q ms pending e none = e ∙ ap (λ p. ms ++ p) none ∙ append-nil ms

-- When no bytes are in flight, a call of `receiveSerialized` delivers all that was sent and not yet
-- delivered, whether it then finds the connection ended or not: from there the delivered messages are
-- the sent ones, in their order.
pub poll-all :
    (connected : Bool) (l : Link)
    → Reach l
    → l.in_flight ≡ []
    → (poll connected l).delivered ≡ l.sent
poll-all connected l r none =
    let (q, h) = Reach-Represents l r in
    let u = taken l q h in
    let h' = poll-Represents connected l q h in
    sym (all_taken l.sent (poll connected l).delivered u.pending h'.in_order (u.complete none))

-- The link implements a queue: in a link that has run for any number of steps in any order, each step
-- appends a message to the queue of those that are sent and not delivered, or takes a front part off it,
-- or leaves it as it is; what the bucket and the bytes in flight hold are always that queue's frames, and
-- the sent messages are the delivered ones followed by it. Messages are not empty and, like the bucket,
-- shorter than 2^31 bytes.
pub Link-refines :
    (l l' : Link)
    → Reach l
    → Step l l'
    → (q : List Bytes) × (q' : List Bytes) × QueueStep q q' × Represents l q × Represents l' q'
Link-refines l l' r s =
    let (q, h) = Reach-Represents l r in
    let (q', t, h') = Step-QueueStep l l' q h s in (q, q', t, h, h')

-- A whole stream in the bucket, of messages that are not empty, comes out as just these messages, in one
-- call, and leaves the bucket empty, if it is shorter than 2^31 bytes and there is a message.
pub receive_serialized-stream :
    (m : Bytes) (ms : List Bytes) (b : Bool)
    → All Fits (m ∷ ms)
    → length (stream (m ∷ ms)) < 2 ^ 31
    → receive_serialized b (record { bucket = stream (m ∷ ms); is_connected = b })
      ≡ (ok (m ∷ ms), record { bucket = []; is_connected = b })
unfolding receive_serialized
receive_serialized-stream m ms b fits room =
    let bucket = stream (m ∷ ms) in
    let u : Result-of (length bucket) [] bucket [] (m ∷ ms) =
      unpack-Unpacked (length bucket) [] bucket [] (m ∷ ms) fits (append-nil bucket)
        (omega (arith, room)) (omega arith) in
    let r = unpack (length bucket) 0 bucket in
    let all = all_taken (m ∷ ms) r.0 u.pending u.in_order (u.complete refl) in
    let rest = sym (append-nil (drop r.1 bucket)) ∙ u.kept ∙ ap stream (u.complete refl) in
    ap₂ (λ got left. (answer got b, record { bucket = left; is_connected = b })) (sym all) rest
