-- ===== src/Socket/Header.antt =====
-- A header reads back as the length that was written, and takes its eight characters.
use arl_hierarchical_multisc.Base.{
  ℕ, zero, suc, ◌+◌, ◌-◌, ◌*◌, ◌/◌, ◌%◌, ◌^◌, ◌<◌, ◌≤◌, ◌≡◌, refl, ◌∙◌, ap, [], ◌∷◌, length, arith,
  Bool-cases, inl, inr, ◌==◌,
}
use arl_hierarchical_multisc.Socket.{
  header_length, Bytes, hex_digit, hex_before, blanks, header, digit_value, read_digits,
  skip_blanks, read_header,
}

digit_value-hex_digit : (d : ℕ) → d < 16 → digit_value (hex_digit d) ≡ d
digit_value-hex_digit d h = ground arith

skip_blanks-hex_digit :
    (d : ℕ) (text : Bytes) → skip_blanks (hex_digit d ∷ text) ≡ hex_digit d ∷ text
unfolding skip_blanks
skip_blanks-hex_digit d text = ground arith

read_digits-hex_digit :
    (a d : ℕ) (text : Bytes)
    → d < 16
    → read_digits a (hex_digit d ∷ text) ≡ read_digits (a * 16 + d) text
unfolding read_digits
read_digits-hex_digit a d text h = ground (arith, digit_value-hex_digit d h)

-- The digits of `n` read as `n`, with any digits behind them.
read_digits-hex_before :
    (fuel n : ℕ) (text : Bytes)
    → n < 16 ^ fuel
    → read_digits 0 (hex_before fuel n text) ≡ read_digits n text
unfolding hex_before
read_digits-hex_before zero n text h = ap (λ k. read_digits k text) (omega arith)
read_digits-hex_before (suc fuel) n text h =
    let longer : Bytes = hex_digit (n % 16) ∷ text in
    elim (Bool-cases (n / 16 == 0)) [
      | inl last ↦ rw last (
          read_digits-hex_digit 0 (n % 16) text (omega arith)
          ∙ ap (λ k. read_digits k text) (ground arith))
      | inr more ↦ rw more (
          read_digits-hex_before fuel (n / 16) longer (omega arith)
          ∙ read_digits-hex_digit (n / 16) (n % 16) text (omega arith)
          ∙ ap (λ k. read_digits k text) (omega arith))
    ]

skip_blanks-hex_before :
    (fuel n : ℕ) (text : Bytes)
    → skip_blanks text ≡ text
    → skip_blanks (hex_before fuel n text) ≡ hex_before fuel n text
unfolding hex_before
skip_blanks-hex_before zero n text h = h
skip_blanks-hex_before (suc fuel) n text h = ground (
  arith,
  skip_blanks-hex_digit (n % 16) text,
  skip_blanks-hex_before fuel (n / 16) (hex_digit (n % 16) ∷ text),
)

length-hex_before :
    (k fuel n : ℕ) (text : Bytes)
    → n < 16 ^ suc k
    → length (hex_before fuel n text) ≤ suc k + length text
unfolding hex_before
length-hex_before k zero n text h = omega arith
length-hex_before zero (suc fuel) n text h = ground arith
length-hex_before (suc k) (suc fuel) n text h =
    ground (arith, length-hex_before k fuel (n / 16) (hex_digit (n % 16) ∷ text) (omega arith))

length-blanks : (n : ℕ) (text : Bytes) → length (blanks n text) ≡ n + length text
length-blanks zero text = omega arith
length-blanks (suc n) text = omega (arith, length-blanks n text)

skip_blanks-blanks : (n : ℕ) (text : Bytes) → skip_blanks (blanks n text) ≡ skip_blanks text
unfolding skip_blanks
skip_blanks-blanks zero text = refl
skip_blanks-blanks (suc n) text = skip_blanks-blanks n text

-- The header of an object of less than 2^32 bytes, a number in hexadecimal with blanks before it, has
-- exactly `headerLength` characters.
pub length-header : (n : ℕ) → n < 2 ^ 32 → length (header n) ≡ header_length
unfolding header
length-header n h = omega (
  arith,
  length-blanks (8 - length (hex_before 16 n [])) (hex_before 16 n []),
  length-hex_before 7 16 n [] (omega arith),
)

pub read_header-header : (n : ℕ) → n < 2 ^ 32 → read_header (header n) ≡ n
unfolding header read_header
read_header-header n h =
    ap (read_digits 0) (
      skip_blanks-blanks (8 - length (hex_before 16 n [])) (hex_before 16 n [])
      ∙ skip_blanks-hex_before 16 n [] refl)
    ∙ read_digits-hex_before 16 n [] (omega arith)
