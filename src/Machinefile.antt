-- ===== src/Machinefile.antt =====
-- base/MPIMachinefileGenerator.cc and base/MPIResourceListGenerator.cc: files that name the hosts of a
-- list of resources. A text is a list of characters by their numbers.
pub mod RoundTrip
use arl_hierarchical_multisc.Base.{
  ℕ, zero, suc, ◌+◌, ◌-◌, ◌*◌, Bool, true, false, ◌&&◌, ◌||◌, Option, none, some, String, List, [],
  ◌∷◌, ◌++◌, length, take, drop, ltb, leb, ◌==◌, if◌then◌else◌,
}
use arl_hierarchical_multisc.Base.Int.{ℤ, pos, negsuc, pos_part, sub_ℕ}
use arl_hierarchical_multisc.Base.Effect.{M, Result, ok, err, io_error, pure, throw, lift, ◌>>=◌}

abbrev pub Text : Type 0
Text = List ℕ

abbrev pub newline : ℕ
newline = 10

-- `isspace`.
abbrev pub is_space : ℕ → Bool
is_space c = c == 32 || (leb 9 c && leb c 13)

-- The files: whether a file could be opened and written, and the text of one that could be opened.
pub record Files (W : Type 0) : Type 0 where
  pub write : String → Text → M W Bool
  pub read : String → M W (Option Text)

-- What `outputFile << *iter << std::endl` writes for each host.
unfoldable pub machinefile_text : List Text → Text
machinefile_text [] = []
machinefile_text (h ∷ hs) = h ++ newline ∷ machinefile_text hs

abbrev pub cons_head : ℕ → List Text → List Text
cons_head c [] = (c ∷ []) ∷ []
cons_head c (l ∷ ls) = (c ∷ l) ∷ ls

-- The lines that `std::getline` reads.
unfoldable pub lines : Text → List Text
lines [] = []
lines (c ∷ cs) = let rest = lines cs in if c == newline then [] ∷ rest else cons_head c rest

abbrev pub starts_word : Text → Bool
starts_word [] = false
starts_word (c ∷ cs) = if is_space c then false else true

-- The tokens that `>>` reads.
unfoldable pub tokens : Text → List Text
tokens [] = []
tokens (c ∷ cs) =
    let rest = tokens cs in
    if is_space c then rest else if starts_word cs then cons_head c rest else (c ∷ []) ∷ rest

unfoldable pub digits : ℕ → Text → ℕ
digits acc [] = acc
digits acc (c ∷ cs) =
    let rest = digits (acc * 10 + (c - 48)) cs in if leb 48 c && leb c 57 then rest else acc

-- `std::atoi`, of a token.
unfoldable pub atoi : Text → ℤ
unfolding digits
atoi [] = pos 0
atoi (c ∷ cs) =
    if c == 45
    then sub_ℕ 0 (digits 0 cs)
    else if c == 43
    then pos (digits 0 cs)
    else pos (digits 0 (c ∷ cs))

abbrev pub same_text : Text → Text → Bool
same_text [] [] = true
same_text [] (d ∷ ds) = false
same_text (c ∷ cs) [] = false
same_text (c ∷ cs) (d ∷ ds) = c == d && same_text cs ds

-- `slots=`.
abbrev pub slots_prefix : Text
slots_prefix = 115 ∷ 108 ∷ 111 ∷ 116 ∷ 115 ∷ 61 ∷ []

unfoldable pub number_slots : List Text → ℤ
unfolding atoi
number_slots [] = pos 1
number_slots (token ∷ rest) =
    let others = number_slots rest in
    if ltb 6 (length token) && same_text (take 6 token) slots_prefix
    then atoi (drop 6 token)
    else others

abbrev pub copies : ℕ → Text → List Text
copies zero host = []
copies (suc n) host = host ∷ copies n host

abbrev pub hosts_of_tokens : List Text → List Text
hosts_of_tokens [] = copies (pos_part (number_slots [])) []
hosts_of_tokens (host ∷ rest) = copies (pos_part (number_slots rest)) host

-- `#` begins a comment.
unfoldable pub hosts_of_line : Text → List Text
unfolding tokens number_slots
hosts_of_line [] = []
hosts_of_line (c ∷ cs) = if c == 35 then [] else hosts_of_tokens (tokens (c ∷ cs))

unfoldable pub hosts_of_lines : List Text → List Text
unfolding hosts_of_line
hosts_of_lines [] = []
hosts_of_lines (l ∷ ls) = hosts_of_line l ++ hosts_of_lines ls

abbrev pub parsed : Option Text → Result (List Text)
parsed none = err io_error
parsed (some text) = ok (hosts_of_lines (lines text))

module _ {W : Type 0} (files : Files W) where
  -- MPIMachinefileGenerator::generate.
  unfoldable pub generate : String → List Text → M W (Unit {0})
  unfolding machinefile_text
  generate path resources = do
    opened ← files.write path (machinefile_text resources)
    if opened then pure tt else throw io_error

  -- MPIResourceListGenerator::generate, without the type of the resources.
  unfoldable pub generate_resources : String → M W (List Text)
  unfolding hosts_of_lines lines
  generate_resources path = do text ← files.read path; lift (parsed text)
