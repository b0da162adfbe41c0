-- ===== src/ModelPackage.antt =====
-- base/ModelPackage.cc, base/Model.cc, base/Argument.cc, base/Priority.h and the part of
-- base/TimeUtils.cc that they call: the unit of work that a client sends to a broker. An object of
-- a class that the user derives (a filter, a predicate, a value) is a number that stands for its
-- pointer, and an absent pointer is `none`.
use arl_hierarchical_multisc.Base.{ℕ, String, Bool, Option, none, List, [], ◌∷◌}
use arl_hierarchical_multisc.Base.Int.{ℤ, pos, negsuc, ◌-ℤ◌}
use arl_hierarchical_multisc.Base.Effect.{M, Result, ok, err, undefined, pure, ◌>>=◌}
use arl_hierarchical_multisc.ResourceList.{ResourceType}

abbrev pub Handle : Type 0
Handle = ℕ

pub data Priority : Type 0 where
  speculative lowest low normal high highest : Priority

-- The value of the enumerator.
abbrev pub rank : Priority → ℕ
rank speculative = 0
rank lowest = 1
rank low = 2
rank normal = 3
rank high = 4
rank highest = 5

-- `struct timespec`.
pub record Timespec : Type 0 where
  pub tv_sec : ℤ
  pub tv_nsec : ℤ

unfoldable pub time_subtract : Timespec → Timespec → Timespec
time_subtract a b = record { tv_sec = a.tv_sec -ℤ b.tv_sec; tv_nsec = a.tv_nsec -ℤ b.tv_nsec }

pub record Argument : Type 0 where
  pub object : Handle
  pub to_cleanup : Bool

pub record Model : Type 0 where
  pub prefix : String
  pub executable : String
  pub arguments : List String
  pub resource_type : ResourceType
  pub resource_amount : ℤ

-- The head of `communicator_ids` and of `timestamps` is the back of the vector. Times are kept as
-- read: the source rounds them to a `double` for output.
pub record ModelPackage : Type 0 where
  pub argument : Argument
  pub communicator_ids : List ℕ
  pub hint : ℤ
  pub id : ℕ
  pub input_filter : Option Handle
  pub model : Model
  pub number_evaluations : ℕ
  pub output_filter : Option Handle
  pub priority : Priority
  pub status_predicates : List Handle
  pub end_predicates : List Handle
  pub timestamps : List (Timespec × String)
  pub value : Option Handle
  pub wall_clock_time : Timespec

abbrev pub zero_time : Timespec
zero_time = record { tv_sec = pos 0; tv_nsec = pos 0 }

abbrev pub new : Model → Option Handle → Option Handle → Argument → ModelPackage
new model input_filter output_filter argument = record {
  argument = argument;
  communicator_ids = [];
  hint = negsuc 0;
  id = 0;
  input_filter = input_filter;
  model = model;
  number_evaluations = 0;
  output_filter = output_filter;
  priority = normal;
  status_predicates = [];
  end_predicates = [];
  timestamps = [];
  value = none;
  wall_clock_time = zero_time;
}

abbrev pub add_communicator : ModelPackage → ℕ → ModelPackage
add_communicator p i = record p { communicator_ids = i ∷ p.communicator_ids }

abbrev pop_from : ModelPackage → List ℕ → Result (ModelPackage × ℕ)
pop_from p [] = err undefined
pop_from p (i ∷ ids) = ok (record p { communicator_ids = ids }, i)

-- `back` of an empty vector is undefined.
abbrev pub pop_communicator : ModelPackage → Result (ModelPackage × ℕ)
pop_communicator p = pop_from p p.communicator_ids

-- `clock_gettime`, which getTime wraps.
pub record Clock (W : Type 0) : Type 0 where
  pub get_time : M W Timespec

unfoldable pub log_timestamp : {W : Type 0} → Clock W → ModelPackage → String → M W ModelPackage
log_timestamp clock p message = do
  time ← clock.get_time
  pure (record p { timestamps = (time, message) ∷ p.timestamps })

-- `pop_back` of an empty vector is undefined.
abbrev pub pop_timestamp : ModelPackage → Result ModelPackage
pop_timestamp p = elim p.timestamps [
  | [] ↦ err undefined
  | t ∷ ts ↦ ok (record p { timestamps = ts })
]
