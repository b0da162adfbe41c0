-- ===== src/SamplingFactory.antt =====
-- adaptive_sampling/AdaptiveSamplingFactory.cc, built with MPI: an adaptive sampling client is made of a
-- configuration file. The databases and generators are what their constructors get; the filters are the
-- input and the output filter of the client, which are absent when there is no client.
pub mod Build
pub mod Serving
use arl_hierarchical_multisc.Base.{
  ℕ, zero, suc, ◌^◌, ◌-◌, Bool, true, false, Option, none, some, String, List, [], ◌∷◌, length,
  ◌==◌, if◌then◌else◌,
}
use arl_hierarchical_multisc.Base.Int.{ℤ, pos, negsuc}
use arl_hierarchical_multisc.Base.Effect.{
  M, Result, ok, err, bad_path, io_error, network_error, undefined, pure, throw, lift, ◌>>=◌, ◌>>◌,
}
use arl_hierarchical_multisc.PbsCommand.{same_name}
use arl_hierarchical_multisc.ModelPackage.{Handle}
use arl_hierarchical_multisc.RoundRobin
use arl_hierarchical_multisc.RoundRobin.{RoundRobin}
use arl_hierarchical_multisc.LoadScheduler.{LoadScheduler}
use arl_hierarchical_multisc.PerformanceScheduler
use arl_hierarchical_multisc.PerformanceScheduler.{Doubles, Measures, PerformanceScheduler}
use arl_hierarchical_multisc.Launcher.Modules.{SocketType}
use arl_hierarchical_multisc.Broker.Config.{Tree, get, get_config_value}
use arl_hierarchical_multisc.Broker.Factory.{Setup, sockets, mpi_communicators, parent_or_error}

-- What the factory calls beside the broker's: the size of the parent's side, if it is found; the end of
-- the addresses on standard output; the filters that have come from a client, and the word that they
-- have; numbers of an option, if it has one; the first number of a text with the text after it,
-- if its end has not been met;
-- and the brokers that are launched.
pub record SamplingSetup (W J D : Type 0) : Type 0 where
  pub remote_size : J → M W (Option ℕ)
  pub redirect_output : M W (Unit {0})
  pub receive_input_filters : Handle → M W (List Handle)
  pub receive_output_filters : Handle → M W (List Handle)
  pub send_acknowledgement : Handle → M W (Unit {0})
  pub to_int : String → Option ℤ
  pub to_double : String → Option D
  pub next_double : String → D × Option String
  pub launch_brokers : String → (rank size : ℕ) → M W (List Handle)

pub data SpeculativeGenerator : Type 0 where
  absent null : SpeculativeGenerator
  monte_carlo : Option (Handle × Handle) → SpeculativeGenerator

pub record Kriging (D : Type 0) : Type 0 where
  pub theta : D
  pub aging_threshold : ℤ
  pub max_kriging_model_size : ℤ
  pub max_number_search_models : ℤ
  pub max_query_point_model_distance : D
  pub mean_error_factor : D
  pub mtree_directory_name : String
  pub tolerance : D
  pub database : String
  pub delta_h : List D

pub data InterpolationDatabase (D : Type 0) : Type 0 where
  null_database : InterpolationDatabase D
  kriging : Option (Handle × Handle) → Kriging D → InterpolationDatabase D
  pyas :
      Option (Handle × Handle) → (delta_h : List D) (config_file : String) → InterpolationDatabase D

pub data SamplingScheduler (D : Type 0) : Type 0 where
  round_robin : RoundRobin → SamplingScheduler D
  performance : PerformanceScheduler D → SamplingScheduler D
  load : LoadScheduler → SamplingScheduler D

pub record Sampling (D : Type 0) : Type 0 where
  pub database : InterpolationDatabase D
  pub scheduler : SamplingScheduler D
  pub communicators : List Handle
  pub broker_communicators : List Handle
  pub generator : SpeculativeGenerator
  pub number_interpolation_threads : ℤ
  pub evaluation_limit : ℤ

-- `std::numeric_limits<int>::max()`.
abbrev pub max_int : ℤ
max_int = pos (2 ^ 31 - 1)

abbrev pub text_or : String → Option String → String
text_or default none = default
text_or default (some value) = value

abbrev is_there : Option ℕ → Bool
is_there none = false
is_there (some n) = true

abbrev number : {A : Type 0} → Option A → Result A
number none = err bad_path
number (some n) = ok n

module _ {W J D : Type 0} (setup : Setup W J) (sampling : SamplingSetup W J D) where
  open sampling use {to_int, to_double, next_double}

  unfoldable pub client_communicators :
      Tree → (communicator_type : String) → List ℤ → M W (List Handle)
  client_communicators tree communicator_type ranks =
      if same_name communicator_type "UnixSocket"
      then (do
        address ← lift (get tree "Communicator.UnixSocketFileName")
        sockets setup address SocketType.unix ranks)
      else if same_name communicator_type "TCPIPSocket"
      then sockets setup "0.0.0.0:0" SocketType.tcpip ranks
      else if same_name communicator_type "MPI"
      then (do
        found ← setup.parent
        parent ← parent_or_error setup found
        size ← sampling.remote_size parent
        if is_there size then pure tt else throw network_error
        mpi_communicators setup parent ranks)
      else throw io_error

  -- `while(filters.size() == 0)`, with fuel for its rounds: the first of the filters that have come.
  unfoldable pub receive_first : (fuel : ℕ) → M W (List Handle) → M W Handle
  receive_first zero receive = throw undefined
  receive_first (suc fuel) receive = do
    filters ← receive
    elim filters [ [] ↦ receive_first fuel receive | f ∷ fs ↦ pure f ]

  -- The filters of the last communicator are kept.
  unfoldable pub receive_filters :
      (fuel : ℕ) → Option (Handle × Handle) → List Handle → M W (Option (Handle × Handle))
  unfolding receive_first
  receive_filters fuel filters [] = pure filters
  receive_filters fuel filters (c ∷ cs) = do
    input ← receive_first fuel (sampling.receive_input_filters c)
    sampling.send_acknowledgement c
    output ← receive_first fuel (sampling.receive_output_filters c)
    sampling.send_acknowledgement c
    receive_filters fuel (some (input, output)) cs

  unfoldable pub generator_of :
      Option String → Option (Handle × Handle) → Result SpeculativeGenerator
  generator_of speculative filters =
      let s = text_or "" speculative in
      if same_name s ""
      then ok SpeculativeGenerator.null
      else if same_name s "KDE"
      then ok SpeculativeGenerator.absent
      else if same_name s "MonteCarlo"
      then ok (SpeculativeGenerator.monte_carlo filters)
      else if same_name s "Null"
      then ok SpeculativeGenerator.null
      else err io_error

  -- `while(!eof)`: a number is read in each round, with fuel for the rounds.
  unfoldable pub read_doubles : (fuel : ℕ) → String → Result (List D)
  read_doubles zero text = err undefined
  read_doubles (suc fuel) text =
      let (value, rest) = next_double text in
      elim rest [
        | none ↦ ok (value ∷ [])
        | some later ↦ elim (read_doubles fuel later) [
          | ok values ↦ ok (value ∷ values)
          | err e ↦ err e
        ]
      ]

  abbrev pub int_of : Tree → String → M W ℤ
  int_of tree key = do value ← lift (get tree key); lift (number (to_int value))

  abbrev pub double_of : Tree → String → M W D
  double_of tree key = do value ← lift (get tree key); lift (number (to_double value))

  -- `get<int>` with a default, which stands in for an option that is no number too.
  abbrev pub number_or : ℤ → Option String → ℤ
  number_or default none = default
  number_or default (some value) = elim (to_int value) [ none ↦ default | some n ↦ n ]
