-- ===== src/Socket/Framing.antt =====
-- What the receiver takes out of its bucket, when the bucket holds a front part of what was sent.
use arl_hierarchical_multisc.Base.{
  ℕ, zero, suc, ◌+◌, ◌^◌, ◌<◌, ◌≤◌, ◌≡◌, refl, sym, subst, ◌∙◌, ap, List, [], ◌∷◌, ◌++◌, length,
  drop, length-append, append_assoc, All, arith,
}
use arl_hierarchical_multisc.Base.{◌≢◌}
use native.Mathlib.Decide.{dec_lt}
use arl_hierarchical_multisc.Socket.{Bytes, header, frame, unpack}
use arl_hierarchical_multisc.Socket.Header.{length-header}
use arl_hierarchical_multisc.Socket.Rounds.{
  stream, Fits, split_front, message_waits, passed-append, length-passed, message_taken,
  drop-append, unpack_short,
}

-- The messages taken, and those still to come: they are all messages, in their order; what is left
-- in the bucket begins what is still to come; and nothing is left over that could be taken.
pub record Unpacked (ms : List Bytes) (back : Bytes) (got : List Bytes) (left : Bytes)
    : Type 0 where
  pub pending : List Bytes
  pub in_order : ms ≡ got ++ pending
  pub kept : left ++ back ≡ stream pending
  pub complete : back ≡ [] → pending ≡ []

-- Nothing can be taken.
none_taken :
    (ms : List Bytes) (done rest back : Bytes) {r : List Bytes × ℕ}
    → r ≡ ([], length done)
    → rest ++ back ≡ stream ms
    → (back ≡ [] → ms ≡ [])
    → Unpacked ms back r.0 (drop r.1 (done ++ rest))
none_taken ms done rest back e split end =
    subst (λ r. Unpacked ms back r.0 (drop r.1 (done ++ rest))) (sym e)
      (record {
        pending = ms;
        in_order = refl;
        kept = ap (λ l. l ++ back) (drop-append done rest) ∙ split;
        complete = end;
      })

Unpacked-cons :
    (m : Bytes) {ms : List Bytes} {back : Bytes} {got : List Bytes} {left : Bytes}
    → Unpacked ms back got left
    → Unpacked (m ∷ ms) back (m ∷ got) left
Unpacked-cons m u = record {
  pending = u.pending;
  in_order = ap (◌∷◌ m) u.in_order;
  kept = u.kept;
  complete = u.complete;
}

-- A whole frame that is not there to its end is still on its way.
front-short : (front back zs : Bytes) → front ++ back ≡ zs → length front < length zs → back ≢ []
front-short front back zs e h none =
    omega (arith, ap length e, ap length none, length-append front back)

length-stream :
    (m : Bytes) (ms : List Bytes)
    → Fits m
    → length (stream (m ∷ ms)) ≡ 8 + length m + length (stream ms)
unfolding frame
length-stream m ms fit = omega (
  arith,
  length-append (header (length m) ++ m) (stream ms),
  length-append (header (length m)) m,
  length-header (length m) (omega arith),
)

frame-stream :
    (m : Bytes) (ms : List Bytes) → stream (m ∷ ms) ≡ header (length m) ++ (m ++ stream ms)
unfolding frame
frame-stream m ms = append_assoc (header (length m)) m (stream ms)

-- What a call of the loop makes of a bucket.
abbrev pub Result-of : ℕ → Bytes → Bytes → Bytes → List Bytes → Type 0
Result-of fuel done rest back ms =
    let r = unpack fuel (length done) (done ++ rest) in
    Unpacked ms back r.0 (drop r.1 (done ++ rest))

-- A header has come, and perhaps the message behind it.
module _ (fuel : ℕ) (done rest back m : Bytes) (ms : List Bytes) (fit : Fits m)
    (split : rest ++ back ≡ m ++ stream ms) (room : length done + 8 + length rest < 2 ^ 31)
    (later : (rest' : Bytes)
      → rest' ++ back ≡ stream ms
      → length rest' ≤ length rest
      → length (done ++ frame m) + length rest' < 2 ^ 31
      → Result-of fuel (done ++ frame m) rest' back ms) where
  with_message :
      (rest' : Bytes)
      → rest ≡ m ++ rest'
      → rest' ++ back ≡ stream ms
      → Result-of (suc fuel) done (header (length m) ++ rest) back (m ∷ ms)
  with_message rest' e behind =
      subst (λ l. Result-of (suc fuel) done (header (length m) ++ l) back (m ∷ ms)) (sym e)
        (subst (λ r. Unpacked (m ∷ ms) back r.0 (drop r.1 bucket)) (sym taken)
          (subst (λ b. Unpacked (m ∷ ms) back (m ∷ after.0) (drop after.1 b))
            (passed-append fuel done m rest' fit room')
            (Unpacked-cons m (
              later rest' behind (omega (arith, ap length e, length-append m rest')) (
                omega (
                  arith,
                  ap length e,
                  length-append m rest',
                  length-passed fuel done m rest' fit room',
                ))))))
    where
      bucket : Bytes
      bucket = done ++ (header (length m) ++ (m ++ rest'))

      after : List Bytes × ℕ
      after = unpack fuel (length (done ++ frame m)) ((done ++ frame m) ++ rest')

      room' : length done + 8 + length (m ++ rest') < 2 ^ 31
      room' = omega (arith, ap length e)

      taken : unpack (suc fuel) (length done) bucket ≡ (m ∷ after.0, after.1)
      taken = message_taken fuel done m rest' fit room'

  framed : (header (length m) ++ rest) ++ back ≡ stream (m ∷ ms)
  unfolding frame
  framed =
      append_assoc (header (length m)) rest back
      ∙ ap (λ l. header (length m) ++ l) split
      ∙ sym (append_assoc (header (length m)) m (stream ms))

  without_message :
      length rest < length m → Result-of (suc fuel) done (header (length m) ++ rest) back (m ∷ ms)
  without_message h =
      none_taken (m ∷ ms) done (header (length m) ++ rest) back
        (message_waits (suc fuel) done (length m) rest fit.1 room h) framed
        (λ none. absurd (
          front-short rest back (m ++ stream ms) split (omega (arith, length-append m (stream ms)))
            none))

  with_header : Result-of (suc fuel) done (header (length m) ++ rest) back (m ∷ ms)
  with_header = elim (dec_lt (length rest) (length m)) [
    | yes h ↦ without_message h
    | no h ↦
        let (rest', e, behind) = split_front m rest back (stream ms) split (omega arith) in
        with_message rest' e behind
  ]

pub unpack-Unpacked :
    (fuel : ℕ) (done rest back : Bytes) (ms : List Bytes)
    → All Fits ms
    → rest ++ back ≡ stream ms
    → length done + length rest < 2 ^ 31
    → length rest ≤ fuel
    → Result-of fuel done rest back ms
unpack-Unpacked fuel done rest back [] fits split room enough =
    none_taken [] done rest back
      (unpack_short fuel (length done) (done ++ rest)
        (omega (arith, length-append done rest, length-append rest back, ap length split)))
      split (λ _. refl)
unpack-Unpacked zero done rest back (m ∷ ms) (fit, fits) split room enough =
    none_taken (m ∷ ms) done rest back (unfold unpack in refl) split (λ none.
      absurd (
        front-short rest back (stream (m ∷ ms)) split (omega (arith, length-stream m ms fit)) none))
unpack-Unpacked (suc fuel) done rest back (m ∷ ms) (fit, fits) split room enough =
    elim (dec_lt 8 (length rest)) [
      | yes whole_header ↦
          let (rest', e, behind) =
            split_front (header (length m)) rest back (m ++ stream ms) (split ∙ frame-stream m ms)
              (omega (arith, length-header (length m) (omega arith))) in
          let size : length rest ≡ 8 + length rest' = omega (
            arith,
            ap length e,
            length-append (header (length m)) rest',
            length-header (length m) (omega arith),
          ) in
          subst (λ l. Result-of (suc fuel) done l back (m ∷ ms)) (sym e)
            (with_header fuel done rest' back m ms fit behind (omega arith)
              λ rest'' behind' less room'.
                unpack-Unpacked fuel (done ++ frame m) rest'' back ms fits behind' room'
                  (omega arith))
      | no no_header ↦
          none_taken (m ∷ ms) done rest back
            (unpack_short (suc fuel) (length done) (done ++ rest)
              (omega (arith, length-append done rest)))
            split
            (λ none. absurd (
              front-short rest back (stream (m ∷ ms)) split (omega (arith, length-stream m ms fit))
                none))
    ]
