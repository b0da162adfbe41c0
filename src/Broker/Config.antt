-- ===== src/Broker/Config.antt =====
-- broker/BrokerFactory.cc: the options of a broker in a configuration file, which has one value for all
-- brokers or one for each. Boost's property tree is given as a function from keys.
pub mod Values
use arl_hierarchical_multisc.Base.{
  ℕ, Bool, true, false, not, ◌||◌, Option, none, some, String, List, [], ◌∷◌, length, ltb, ◌==◌,
  if◌then◌else◌,
}
use arl_hierarchical_multisc.Base.Effect.{Result, ok, err, Exception, bad_path, io_error, undefined}
use arl_hierarchical_multisc.Machinefile.{is_space}
use Prim.Native.Char.{Char, code}

-- `propertyTree.get`, where an option that is missing is `none`.
abbrev pub Tree : Type 0
Tree = String → Option String

abbrev pub cons_char : Char → List String → List String
cons_char c [] = String.◌∷◌ c "" ∷ []
cons_char c (s ∷ ss) = String.◌∷◌ c s ∷ ss

abbrev pub starts_word : String → Bool
starts_word (String.[]) = false
starts_word (String.◌∷◌ c s) = if is_space (code c) then false else true

-- The words that `>>` reads.
unfoldable pub split_string : String → List String
split_string (String.[]) = []
split_string (String.◌∷◌ c s) =
    let rest = split_string s in
    if is_space (code c)
    then rest
    else if starts_word s
    then cons_char c rest
    else String.◌∷◌ c "" ∷ rest

-- What `std::getline` reads up to commas.
unfoldable pub comma_separated : String → List String
comma_separated (String.[]) = []
comma_separated (String.◌∷◌ c s) =
    let rest = comma_separated s in if code c == 44 then "" ∷ rest else cons_char c rest

abbrev pub at : List String → ℕ → Result String
at [] i = err undefined
at (s ∷ ss) ℕ.zero = ok s
at (s ∷ ss) (ℕ.suc i) = at ss i

-- A value for one processor: none, the only one, or its own. A failed `assert` counts as undefined.
abbrev pub value_for : (processor_id processor_size : ℕ) → List String → Result String
value_for processor_id processor_size [] = ok ""
value_for processor_id processor_size (s ∷ []) = ok s
value_for processor_id processor_size (s ∷ t ∷ ss) =
    if not (ltb processor_id (length (s ∷ t ∷ ss)))
    then err undefined
    else if not (length (s ∷ t ∷ ss) == processor_size)
    then err io_error
    else at (s ∷ t ∷ ss) processor_id

abbrev pub get : Tree → String → Result String
get tree key = elim (tree key) [ none ↦ err bad_path | some value ↦ ok value ]

unfoldable pub get_config_value :
    Tree → (config_key : String) → (processor_id processor_size : ℕ) → Result String
unfolding split_string
get_config_value tree config_key processor_id processor_size = elim (tree config_key) [
  | none ↦ err bad_path
  | some value ↦ value_for processor_id processor_size (split_string value)
]

-- `try` around an option that may be missing: the default value.
abbrev pub or_default : String → Result String → Result String
or_default default (ok value) = ok value
or_default default (err bad_path) = ok default
or_default default (err e) = err e
