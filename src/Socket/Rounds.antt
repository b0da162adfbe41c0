-- ===== src/Socket/Rounds.antt =====
-- A round of the loop of `receiveSerialized` where a header, or a header and its message, stand at the
-- position.
use arl_hierarchical_multisc.Base.{
  lt→ltb, le→leb, le→not_ltb, lt→not_leb, ap₂, ℕ, zero, suc, ◌+◌, ◌%◌, ◌^◌, ◌<◌, ◌≤◌, ◌≡◌, refl,
  sym, ◌∙◌, ap, List, [], ◌∷◌, ◌++◌, length, take, drop, length-append, append_assoc, arith,
}
use native.Mathlib.Decide.{dec_lt}
use arl_hierarchical_multisc.Base.Int.{unsigned_mod}
use arl_hierarchical_multisc.Socket.{Bytes, header, frame, read_header, slice, unpack}
use arl_hierarchical_multisc.Socket.Header.{length-header, read_header-header}

-- What a list of messages is on the wire.
abbrev pub stream : List Bytes → Bytes
stream [] = []
stream (m ∷ ms) = frame m ++ stream ms

abbrev pub Fits : Bytes → Type 0
Fits m = (0 < length m) × (length m < 2 ^ 31)

-- A list that begins another, which a list at least as long begins too.
pub split_front :
    (front xs ys zs : Bytes)
    → xs ++ ys ≡ front ++ zs
    → length front ≤ length xs
    → (rest : Bytes) × (xs ≡ front ++ rest) × (rest ++ ys ≡ zs)
split_front [] xs ys zs e h = (xs, refl, e)
split_front (f ∷ front) [] ys zs e h = absurd (omega arith)
split_front (f ∷ front) (x ∷ xs) ys zs e h =
    let (rest, same, behind) = split_front front xs ys zs (ground arith) (omega arith) in
    (rest, ground (arith, same), behind)

pub drop-append : (xs ys : Bytes) → drop (length xs) (xs ++ ys) ≡ ys
drop-append [] ys = refl
drop-append (x ∷ xs) ys = drop-append xs ys

take-append : (xs ys : Bytes) → take (length xs) (xs ++ ys) ≡ xs
take-append [] ys = refl
take-append (x ∷ xs) ys = ap (◌∷◌ x) (take-append xs ys)

slice-append :
    (done mid rest : Bytes) (from to : ℕ)
    → from ≡ length done
    → to ≡ length done + length mid
    → slice from to (done ++ (mid ++ rest)) ≡ mid
slice-append done mid rest from to ef et =
    ap₂ take (omega (arith, ef, et))
      (ap (λ k. drop k (done ++ (mid ++ rest))) ef ∙ drop-append done (mid ++ rest))
    ∙ take-append mid rest

-- One round, by the values that it computes.
module _ (fuel start end data_size data_end : ℕ) (bucket : Bytes)
    (at_end : (start + 8) % unsigned_mod ≡ end)
    (size : read_header (slice start end bucket) ≡ data_size)
    (at_data : (end + data_size) % unsigned_mod ≡ data_end) where
  unpack_round :
      end < length bucket
      → data_end ≤ length bucket
      → unpack (suc fuel) start bucket ≡ (
          let (messages, last) = unpack fuel data_end bucket in
          (slice end data_end bucket ∷ messages, last))
  unfolding unpack
  unpack_round h k = rw (at_end, size, at_data, lt→ltb _ _ h, le→leb _ _ k)

  unpack_waits :
      end < length bucket → length bucket < data_end → unpack (suc fuel) start bucket ≡ ([], start)
  unfolding unpack
  unpack_waits h k = rw (at_end, size, at_data, lt→ltb _ _ h, lt→not_leb _ _ k)

pub unpack_short :
    (fuel start : ℕ) (bucket : Bytes)
    → length bucket ≤ (start + 8) % unsigned_mod
    → unpack fuel start bucket ≡ ([], start)
unfolding unpack
unpack_short zero start bucket h = refl
unpack_short (suc fuel) start bucket h = rw (le→not_ltb _ _ h)

-- A header stands at the position.
module _ (fuel : ℕ) (done : Bytes) (n : ℕ) (rest : Bytes) (small : n < 2 ^ 31)
    (room : length done + 8 + length rest < 2 ^ 31) where
  abbrev whole : Bytes
  whole = done ++ (header n ++ rest)

  length-whole : length whole ≡ length done + 8 + length rest
  length-whole = omega (
    arith,
    length-append done (header n ++ rest),
    length-append (header n) rest,
    length-header n (omega arith),
  )

  header-slice : read_header (slice (length done) (length done + 8) whole) ≡ n
  header-slice =
      ap read_header (
        slice-append done (header n) rest (length done) (length done + 8) refl
          (omega (arith, length-header n (omega arith))))
      ∙ read_header-header n (omega arith)

  pub message_waits : length rest < n → unpack fuel (length done) whole ≡ ([], length done)
  message_waits h = elim (dec_lt 0 (length rest)) [
    | yes some_bytes ↦ waits fuel some_bytes
    | no no_bytes ↦ unpack_short fuel (length done) whole (omega (arith, length-whole))
  ]
    where
      waits : (f : ℕ) → 0 < length rest → unpack f (length done) whole ≡ ([], length done)
      waits zero some_bytes = unfold unpack in refl
      waits (suc f) some_bytes =
          unpack_waits f (length done) (length done + 8) n (length done + 8 + n) whole (omega arith)
            header-slice (omega arith) (omega (arith, length-whole)) (omega (arith, length-whole))

module _ (fuel : ℕ) (done m rest : Bytes) (fit : Fits m)
    (room : length done + 8 + length (m ++ rest) < 2 ^ 31) where
  pub passed-append : (done ++ frame m) ++ rest ≡ done ++ (header (length m) ++ (m ++ rest))
  unfolding frame
  passed-append = simp append_assoc

  pub length-passed : length (done ++ frame m) ≡ length done + 8 + length m
  unfolding frame
  length-passed = omega (
    arith,
    length-append done (header (length m) ++ m),
    length-append (header (length m)) m,
    length-header (length m) (omega arith),
  )

  pub message_taken :
      unpack (suc fuel) (length done) (done ++ (header (length m) ++ (m ++ rest))) ≡ (
        let (messages, last) = unpack fuel (length (done ++ frame m)) ((done ++ frame m) ++ rest) in
        (m ∷ messages, last))
  message_taken =
      unpack_round fuel (length done) from n to bucket (omega arith)
        (header-slice fuel done n (m ++ rest) fit.1 room) (omega arith)
        (omega (arith, size, length-append m rest)) (omega (arith, size, length-append m rest))
      ∙ ap₂ (λ s (r : List Bytes × ℕ). (s ∷ r.0, r.1)) taken
          (ap₂ (λ k b. unpack fuel k b) (sym length-passed) (sym passed-append))
    where
      n : ℕ
      n = length m

      from : ℕ
      from = length done + 8

      to : ℕ
      to = length done + 8 + n

      bucket : Bytes
      bucket = done ++ (header n ++ (m ++ rest))

      size : length bucket ≡ length done + 8 + length (m ++ rest)
      size = length-whole fuel done n (m ++ rest) fit.1 room

      taken : slice from to bucket ≡ m
      taken =
          ap (slice from to) (sym (append_assoc done (header n) (m ++ rest)))
          ∙ slice-append (done ++ header n) m rest from to
              (omega (arith, length-append done (header n), length-header n (omega arith)))
              (omega (arith, length-append done (header n), length-header n (omega arith)))
