-- ===== src/Launcher/Arguments.antt =====
-- comm/Launcher.cc and broker/StartBroker.cc: the command line of a launched module, as its launcher
-- writes it and as the module reads it. What `getopt` finds is a parameter.
pub mod RoundTrip
use arl_hierarchical_multisc.Base.{
  ℕ, zero, suc, ◌+◌, ◌/◌, ◌%◌, Bool, true, false, Option, none, some, List, [], ◌∷◌, ◌++◌, map,
  ◌==◌, if◌then◌else◌,
}
use arl_hierarchical_multisc.Base.Int.{ℤ}
use arl_hierarchical_multisc.Machinefile.{Text, cons_head, atoi}

abbrev pub comma : ℕ
comma = 44

-- The digits of `n` before a text, with fuel above their number.
unfoldable pub digits_before : ℕ → ℕ → Text → Text
digits_before zero n text = text
digits_before (suc fuel) n text =
    let longer = (48 + n % 10) ∷ text in
    let rest = digits_before fuel (n / 10) longer in if n / 10 == 0 then longer else rest

-- `<<` of an `int` that is not negative, which has at most 10 digits.
unfoldable pub decimal_text : ℕ → Text
unfolding digits_before
decimal_text n = digits_before 10 n []

-- The ranks with commas between them.
unfoldable pub rank_list : List ℕ → Text
unfolding decimal_text
rank_list [] = []
rank_list (r ∷ []) = decimal_text r
rank_list (r ∷ s ∷ rs) = decimal_text r ++ comma ∷ rank_list (s ∷ rs)

abbrev pub rank_arguments : List ℕ → List Text
rank_arguments [] = []
rank_arguments (r ∷ rs) = rank_list (r ∷ rs) ∷ []

unfoldable pub generate_module_arguments : Text → (module_id : ℕ) → List ℕ → List Text
unfolding rank_list
generate_module_arguments start_module_path module_id client_ranks =
    start_module_path ∷ decimal_text module_id ∷ rank_arguments client_ranks

abbrev pub starts_field : Text → Bool
starts_field [] = false
starts_field (c ∷ cs) = if c == comma then false else true

-- The tokens that `strtok` finds between commas.
unfoldable pub fields : Text → List Text
fields [] = []
fields (c ∷ cs) =
    let rest = fields cs in
    if c == comma then rest else if starts_field cs then cons_head c rest else (c ∷ []) ∷ rest

-- The id and the ranks; `none` is the usage message and the failing exit. `error_flag` says whether
-- `getopt` finds an option, or goes past the arguments.
abbrev pub three_arguments : List Text → Option (ℤ × List ℤ)
three_arguments (name ∷ id ∷ ranks ∷ []) = some (atoi id, map atoi (fields ranks))
three_arguments arguments = none

unfoldable pub process_command_line :
    (error_flag : List Text → Bool) → List Text → Option (ℤ × List ℤ)
unfolding fields
process_command_line error_flag arguments =
    if error_flag arguments then none else three_arguments arguments
