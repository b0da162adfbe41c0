-- ===== src/Socket/Sending.antt =====
-- SocketCommunicator::sendSerialized: the bytes go out in order, whatever part of them each `::send`
-- takes.
use arl_hierarchical_multisc.Base.{
  ℕ, zero, suc, ◌<◌, ◌≤◌, ◌≡◌, refl, sym, subst, ◌∙◌, ap, [], ◌∷◌, ◌++◌, length, take, drop,
  append_assoc, append-nil, take-append-drop, length-drop, arith,
}
use arl_hierarchical_multisc.Base.Int.{ℤ, pos, negsuc}
use arl_hierarchical_multisc.Base.Effect.{bind-ok, M, Result, ok, err, network_error, ◌>>=◌}
use arl_hierarchical_multisc.Socket.{Bytes, Wire, frame, sent_some, send_loop, send_serialized}

-- What `::send` documents: it takes a front part of its data, which is not empty, or returns -1. The
-- connection's output is a function of the world.
pub data Sends {W : Type 0} (output : W → Bytes) (data' : Bytes) (w : W) (r : Result ℤ × W)
    : Type 0 where
  took :
      (n : ℕ) (w' : W)
      → 0 < n
      → n ≤ length data'
      → output w' ≡ output w ++ take n data'
      → r ≡ (ok (pos n), w')
      → Sends output data' w r
  failed : (w' : W) → output w' ≡ output w → r ≡ (ok (negsuc 0), w') → Sends output data' w r

pub record IsStream {W : Type 0} (wire : Wire W) (output : W → Bytes) : Type 0 where
  pub sends : (data' : Bytes) (w : W) → 0 < length data' → Sends output data' w (wire.send data' w)

-- All of the bytes are out, or a front part of them and the exception is thrown.
pub data Sent {W : Type 0} (output : W → Bytes) (data' : Bytes) (w : W) (r : Result (Unit {0}) × W)
    : Type 0 where
  whole : (w' : W) → output w' ≡ output w ++ data' → r ≡ (ok tt, w') → Sent output data' w r
  part :
      (w' : W) (front back : Bytes)
      → data' ≡ front ++ back
      → output w' ≡ output w ++ front
      → r ≡ (err network_error, w')
      → Sent output data' w r

module _ {W : Type 0} (wire : Wire W) (output : W → Bytes) (stream : IsStream wire output) where
  after_some :
      (n : ℕ) (data' : Bytes) (w w' : W) (r : Result (Unit {0}) × W)
      → output w' ≡ output w ++ take n data'
      → Sent output (drop n data') w' r
      → Sent output data' w r
  after_some n data' w w' r e (whole w'' out run) =
      whole w''
        (out
          ∙ ap (λ o. o ++ drop n data') e
          ∙ append_assoc (output w) (take n data') (drop n data')
          ∙ ap (λ d. output w ++ d) (take-append-drop n data'))
        run
  after_some n data' w w' r e (part w'' front back split out run) =
      part w'' (take n data' ++ front) back
        (sym (take-append-drop n data')
          ∙ ap (λ d. take n data' ++ d) split
          ∙ sym (append_assoc (take n data') front back))
        (out ∙ ap (λ o. o ++ front) e ∙ append_assoc (output w) (take n data') front) run

  send_loop-nil : (fuel : ℕ) (w : W) → send_loop wire fuel [] w ≡ (ok tt, w)
  unfolding send_loop ◌>>=◌
  send_loop-nil zero w = refl
  send_loop-nil (suc fuel) w = refl

  sent_some-failed :
      (f : ℕ → M W (Unit {0})) (w : W) → sent_some wire f (negsuc 0) w ≡ (err network_error, w)
  unfolding ◌>>=◌
  sent_some-failed f w = refl

  send_loop-Sent :
      (fuel : ℕ) (data' : Bytes) (w : W)
      → length data' ≤ fuel
      → Sent output data' w (send_loop wire fuel data' w)
  send_loop-Sent zero [] w enough = whole w (sym (append-nil (output w))) (send_loop-nil zero w)
  send_loop-Sent (suc fuel) [] w enough =
      whole w (sym (append-nil (output w))) (send_loop-nil (suc fuel) w)
  send_loop-Sent zero (c ∷ cs) w enough = absurd (omega arith)
  send_loop-Sent (suc fuel) (c ∷ cs) w enough =
      continued (stream.sends (c ∷ cs) w (omega arith)) (λ n w' some_bytes.
        send_loop-Sent fuel (drop n (c ∷ cs)) w' (omega (arith, length-drop n (c ∷ cs))))
    where
      round : ℤ → M W (Unit {0})
      round z = sent_some wire (λ n. send_loop wire fuel (drop n (c ∷ cs))) z

      runs :
          (z : ℤ) (w' : W)
          → wire.send (c ∷ cs) w ≡ (ok z, w')
          → send_loop wire (suc fuel) (c ∷ cs) w ≡ round z w'
      runs z w' e = unfold send_loop in bind-ok (wire.send (c ∷ cs)) round w w' z e

      continued :
          Sends output (c ∷ cs) w (wire.send (c ∷ cs) w)
          → ((n : ℕ) (w' : W)
              → 0 < n
              → Sent output (drop n (c ∷ cs)) w' (send_loop wire fuel (drop n (c ∷ cs)) w'))
          → Sent output (c ∷ cs) w (send_loop wire (suc fuel) (c ∷ cs) w)
      continued (took n w' some_bytes bound out run) later =
          subst (Sent output (c ∷ cs) w) (sym (runs (pos n) w' run))
            (after_some n (c ∷ cs) w w' _ out (later n w' some_bytes))
      continued (failed w' out run) later =
          part w' [] (c ∷ cs) refl (out ∙ sym (append-nil (output w))) (
            runs (negsuc 0) w' run
            ∙ sent_some-failed (λ n. send_loop wire fuel (drop n (c ∷ cs))) w')

  -- Where `::send` does what it documents, `sendSerialized` ends: either it returns and all bytes of
  -- the frame are out, in their order, behind what was there, or it throws `NetworkError` and a front
  -- part of them is.
  pub send_serialized-Sent :
      (message : Bytes) (w : W) → Sent output (frame message) w (send_serialized wire message w)
  unfolding send_serialized
  send_serialized-Sent message w =
      send_loop-Sent (length (frame message)) (frame message) w (omega arith)
