-- ===== src/Launcher/Arguments/RoundTrip.antt =====
-- A module reads from its command line the id and the ranks that its launcher has written.
use arl_hierarchical_multisc.Base.{
  ℕ, zero, suc, ◌+◌, ◌-◌, ◌*◌, ◌/◌, ◌%◌, ◌^◌, ◌<◌, ◌≡◌, ap, ap₂, ◌∙◌, Bool, true, false, some, List,
  [], ◌∷◌, ◌++◌, map, All, ◌==◌, leb, ◌&&◌, arith, Bool-cases, inl, inr,
}
use arl_hierarchical_multisc.Base.Int.{pos}
use arl_hierarchical_multisc.Machinefile.{Text, cons_head, digits, atoi}
use arl_hierarchical_multisc.Launcher.Arguments.{
  comma, digits_before, decimal_text, rank_list, generate_module_arguments, starts_field, fields,
  process_command_line,
}

abbrev IsDigit : ℕ → Type 0
IsDigit c = (leb 48 c && leb c 57) ≡ true

abbrev power : ℕ → ℕ
power zero = 1
power (suc n) = 10 * power n

-- Not negative, and a value of an `int`.
abbrev pub IsRank : ℕ → Type 0
IsRank n = n < 2 ^ 31

-- Some digits, and at least one of them.
data IsNumeral : Text → Type 0 where
  numeral : (c : ℕ) (cs : Text) → IsDigit c → All IsDigit cs → IsNumeral (c ∷ cs)

last-IsDigit : (n : ℕ) → IsDigit (48 + n % 10)
last-IsDigit n = ground arith

digits_before-IsNumeral :
    (fuel n : ℕ) (text : Text) → All IsDigit text → IsNumeral (digits_before (suc fuel) n text)
unfolding digits_before
digits_before-IsNumeral zero n text h = elim (Bool-cases (n / 10 == 0)) [
  | inl e ↦ rw e (numeral (48 + n % 10) text (last-IsDigit n) h)
  | inr e ↦ rw e (numeral (48 + n % 10) text (last-IsDigit n) h)
]
digits_before-IsNumeral (suc fuel) n text h = elim (Bool-cases (n / 10 == 0)) [
  | inl e ↦ rw e (numeral (48 + n % 10) text (last-IsDigit n) h)
  | inr e ↦ rw e (digits_before-IsNumeral fuel (n / 10) ((48 + n % 10) ∷ text) (last-IsDigit n, h))
]

digits-cons :
    (acc c : ℕ) (cs : Text) → IsDigit c → digits acc (c ∷ cs) ≡ digits (acc * 10 + (c - 48)) cs
unfolding digits
digits-cons acc c cs h = rw h

digits-last :
    (acc n : ℕ) (text : Text)
    → acc * 10 + n % 10 ≡ n
    → digits acc ((48 + n % 10) ∷ text) ≡ digits n text
digits-last acc n text e =
    digits-cons acc (48 + n % 10) text (last-IsDigit n) ∙ ap (λ a. digits a text) (omega arith)

digits-digits_before :
    (fuel n : ℕ) (text : Text)
    → n < power (suc fuel)
    → digits 0 (digits_before (suc fuel) n text) ≡ digits n text
unfolding digits_before
digits-digits_before zero n text h = elim (Bool-cases (n / 10 == 0)) [
  | inl e ↦ rw e (digits-last 0 n text (omega arith))
  | inr e ↦ rw e (digits-last 0 n text (omega arith))
]
digits-digits_before (suc fuel) n text h = elim (Bool-cases (n / 10 == 0)) [
  | inl e ↦ rw e (digits-last 0 n text (ground arith))
  | inr e ↦ rw e (
      digits-digits_before fuel (n / 10) ((48 + n % 10) ∷ text) (smaller (power (suc fuel)) h)
      ∙ digits-last (n / 10) n text (omega arith))
]
  where
    smaller : (b : ℕ) → n < 10 * b → n / 10 < b
    smaller b h = omega arith

decimal_text-IsNumeral : (n : ℕ) → IsNumeral (decimal_text n)
unfolding decimal_text
decimal_text-IsNumeral n = digits_before-IsNumeral 9 n [] tt

atoi-IsNumeral : (t : Text) → IsNumeral t → atoi t ≡ pos (digits 0 t)
unfolding atoi
atoi-IsNumeral _ (numeral c cs h hs) = rw (no_minus c h, no_plus c h)
  where
    no_minus : (c : ℕ) → IsDigit c → (c == 45) ≡ false
    no_minus c h = ground arith

    no_plus : (c : ℕ) → IsDigit c → (c == 43) ≡ false
    no_plus c h = ground arith

atoi-decimal_text : (n : ℕ) → n < 2 ^ 31 → atoi (decimal_text n) ≡ pos n
unfolding decimal_text digits
atoi-decimal_text n h =
    atoi-IsNumeral (decimal_text n) (decimal_text-IsNumeral n)
    ∙ ap pos (digits-digits_before 9 n [] (omega arith))

no_comma : (c : ℕ) → IsDigit c → (c == comma) ≡ false
no_comma c h = ground arith

fields-cons :
    (c : ℕ) (cs : Text)
    → IsDigit c
    → starts_field cs ≡ true
    → fields (c ∷ cs) ≡ cons_head c (fields cs)
unfolding fields
fields-cons c cs h k = rw (no_comma c h, k)

-- The field that ends at a comma, and the last one.
fields-comma :
    (c : ℕ) (cs rest : Text)
    → IsDigit c
    → All IsDigit cs
    → fields (c ∷ (cs ++ comma ∷ rest)) ≡ (c ∷ cs) ∷ fields rest
fields-comma c [] rest h hs = unfold fields in rw (no_comma c h)
fields-comma c (d ∷ ds) rest h (k, hs) =
    fields-cons c (d ∷ (ds ++ comma ∷ rest)) h (rw (no_comma d k))
    ∙ ap (cons_head c) (fields-comma d ds rest k hs)

fields-last : (c : ℕ) (cs : Text) → IsDigit c → All IsDigit cs → fields (c ∷ cs) ≡ (c ∷ cs) ∷ []
fields-last c [] h hs = unfold fields in rw (no_comma c h)
fields-last c (d ∷ ds) h (k, hs) =
    fields-cons c (d ∷ ds) h (rw (no_comma d k)) ∙ ap (cons_head c) (fields-last d ds k hs)

fields-numeral_comma : (t rest : Text) → IsNumeral t → fields (t ++ comma ∷ rest) ≡ t ∷ fields rest
fields-numeral_comma _ rest (numeral c cs h hs) = fields-comma c cs rest h hs

fields-numeral : (t : Text) → IsNumeral t → fields t ≡ t ∷ []
fields-numeral _ (numeral c cs h hs) = fields-last c cs h hs

-- The ranks that are read from a list of ranks.
fields-rank_list :
    (r : ℕ) (rs : List ℕ)
    → All IsRank (r ∷ rs)
    → map atoi (fields (rank_list (r ∷ rs))) ≡ map pos (r ∷ rs)
unfolding rank_list
fields-rank_list r [] (h, hs) =
    ap (map atoi) (fields-numeral (decimal_text r) (decimal_text-IsNumeral r))
    ∙ ap (λ a. a ∷ []) (atoi-decimal_text r h)
fields-rank_list r (s ∷ rs) (h, hs) =
    ap (map atoi)
      (fields-numeral_comma (decimal_text r) (rank_list (s ∷ rs)) (decimal_text-IsNumeral r))
    ∙ ap₂ (λ a b. a ∷ b) (atoi-decimal_text r h) (fields-rank_list s rs hs)

-- A module that is started for some ranks, and at least one, reads back its id and these ranks in their
-- order, where `getopt` finds no error in the command line. The id and the ranks are below 2^31.
pub process_command_line-generate :
    (error_flag : List Text → Bool) (path : Text) (id r : ℕ) (rs : List ℕ)
    → IsRank id
    → All IsRank (r ∷ rs)
    → error_flag (generate_module_arguments path id (r ∷ rs)) ≡ false
    → process_command_line error_flag (generate_module_arguments path id (r ∷ rs))
      ≡ some (pos id, map pos (r ∷ rs))
unfolding process_command_line generate_module_arguments
process_command_line-generate error_flag path id r rs h hs e =
    rw e (ap₂ (λ a b. some (a, b)) (atoi-decimal_text id h) (fields-rank_list r rs hs))
