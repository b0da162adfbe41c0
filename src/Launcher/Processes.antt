-- ===== src/Launcher/Processes.antt =====
-- comm/Launcher.cc: a child process, and the two pipes to and from it.
pub mod Pipes
use arl_hierarchical_multisc.Base.{
  ℕ, zero, suc, ◌+◌, ◌-◌, Bool, true, false, not, ◌&&◌, Option, none, some, List, [], ◌∷◌, ◌++◌,
  String, length, take, drop, ltb, ◌==◌, if◌then◌else◌,
}
use arl_hierarchical_multisc.Base.Int.{ℤ, pos, negsuc, ltb_ℤ}
use arl_hierarchical_multisc.Base.Effect.{
  M, Result, ok, err, io_error, os_error, undefined, pure, throw, lift, ◌>>=◌, ◌>>◌,
}
use arl_hierarchical_multisc.Machinefile.{Text, newline, same_text}
use arl_hierarchical_multisc.Launcher.Arguments.{generate_module_arguments}
use arl_hierarchical_multisc.MpiCommand.{is_minus_one, is_zero}
use Prim.Native.Char.{code}

-- The characters of a literal.
abbrev pub codes : String → Text
codes (String.[]) = []
codes (String.◌∷◌ c s) = code c ∷ codes s

-- The system's calls: `pipe` returns a read end and a write end, if it can; `fork` returns to the parent
-- the child's number or -1, and has the child execute the arguments in the environment, with a read
-- end as its input and a write end as its output; `write` returns how many characters it has written, or
-- -1; `read` returns a character, if there is one; `close` returns 0 or -1.
pub record System (W : Type 0) : Type 0 where
  pub pipe : M W (Option (ℕ × ℕ))
  pub environ : M W (List Text)
  pub fork : (arguments environment : List Text) (input output : ℕ) → M W ℤ
  pub write : ℕ → ℕ → M W ℤ
  pub read : ℕ → M W (Option ℕ)
  pub close : ℕ → M W ℤ

abbrev pub starts_with : Text → Text → Bool
starts_with prefix text = same_text (take (length prefix) text) prefix

-- Whether the child gets a variable.
unfoldable pub keeps_variable : Text → Bool
keeps_variable v =
    ltb (length (codes "PMI_")) (length v)
    && not (starts_with (codes "PMI_") v)
    && not (starts_with (codes "I_MPI") v)
    && not (starts_with (codes "MPICH") v)

unfoldable pub child_environment : List Text → List Text
unfolding keeps_variable
child_environment [] = []
child_environment (v ∷ vs) =
    let rest = child_environment vs in if keeps_variable v then v ∷ rest else rest

abbrev pub address_line : Text
address_line = codes "Address: "

abbrev pub is_address : Text → Bool
is_address line = ltb (length address_line) (length line) && starts_with address_line line

-- What follows in a line, without its newline.
abbrev pub address_of : Text → Text
address_of line = take (length line - length address_line - 1) (drop (length address_line) line)

-- `HMS_SSH`, and the host, before the arguments of a child on another host.
abbrev pub exec_arguments : (hms_ssh host : Text) → (is_remote : Bool) → List Text → List Text
exec_arguments hms_ssh host is_remote arguments =
    if is_remote then hms_ssh ∷ host ∷ arguments else arguments

module _ {W : Type 0} (system : System W) where
  -- The text so far and the line so far are what a failure reports; it is not kept.
  unfoldable pub read_address : (fuel pipe : ℕ) (child_output : Text) → M W Text
  read_address zero pipe child_output = throw undefined
  read_address (suc fuel) pipe child_output = do
    character ← system.read pipe
    elim character [
      | none ↦ throw os_error
      | some c ↦
          let line = child_output ++ c ∷ [] in
          if not (c == newline)
          then read_address fuel pipe line
          else if is_address line
          then pure (address_of line)
          else read_address fuel pipe []
    ]

  -- `const int written = write(...) < 1`: the variable is 1 or 0.
  unfoldable pub write_character : (fuel pipe character : ℕ) → M W (Unit {0})
  write_character zero pipe c = throw undefined
  write_character (suc fuel) pipe c = do
    count ← system.write pipe c
    let written = pos (if ltb_ℤ count (pos 1) then 1 else 0)
    if is_zero written
        then pure tt
        else if is_minus_one written
        then throw io_error
        else write_character fuel pipe c

  unfoldable pub write_config : (fuel pipe : ℕ) → Text → M W (Unit {0})
  unfolding write_character
  write_config fuel pipe [] = pure tt
  write_config fuel pipe (c ∷ cs) = do write_character fuel pipe c; write_config fuel pipe cs

  abbrev pub new_pipe : M W (ℕ × ℕ)
  new_pipe = do ends ← system.pipe; elim ends [ none ↦ throw os_error | some p ↦ pure p ]

  abbrev pub close_end : ℕ → M W (Unit {0})
  close_end pipe = do result ← system.close pipe; if is_zero result then pure tt else throw os_error

  -- The read end of the pipe from the child.
  unfoldable pub launch :
      (fuel : ℕ) (hms_ssh start_module_path config_file host : Text) (module_id : ℕ)
      → List ℕ
      → Bool
      → M W ℕ
  unfolding write_config child_environment
  launch fuel hms_ssh start_module_path config_file host module_id client_ranks is_remote = do
    (child_input, to_child) ← new_pipe
    (from_child, child_output) ← new_pipe
    variables ← system.environ
    process ←
        system.fork
          (exec_arguments hms_ssh host is_remote
            (generate_module_arguments start_module_path module_id client_ranks))
          (child_environment variables) child_input child_output
    if is_minus_one process then throw os_error else pure tt
    write_config fuel to_child config_file
    close_end to_child
    close_end child_input
    close_end child_output
    pure from_child
