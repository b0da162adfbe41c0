-- ===== src/SamplingFactory/Serving.antt =====
-- The scheduler of a client that has been built knows the brokers that have been launched for it.
use arl_hierarchical_multisc.Base.{
  ℕ, ◌<◌, ◌≡◌, refl, ap, sym, subst, ◌⊎◌, inl, inr, Bool, String, List, length, All, if◌then◌else◌,
}
use arl_hierarchical_multisc.Base.Int.{ℤ, negsuc}
use arl_hierarchical_multisc.Base.Effect.{
  Exception, undefined, Result, ok, err, ok-injective, Ensures, Ensures->>=, Ensures-after,
  Ensures-pure, Ensures-throw, Ensures-if, Ensures-lift, Ensures-returns,
}
use arl_hierarchical_multisc.PbsCommand.{same_name}
use arl_hierarchical_multisc.ModelPackage.{ModelPackage}
use arl_hierarchical_multisc.RoundRobin
use arl_hierarchical_multisc.LoadScheduler.{LoadScheduler}
use arl_hierarchical_multisc.LoadScheduler.Assignment.{IsBelow}
use arl_hierarchical_multisc.PerformanceScheduler
use arl_hierarchical_multisc.PerformanceScheduler.{Doubles, Measures, PerformanceScheduler}
use arl_hierarchical_multisc.PerformanceScheduler.Bins.{Converts, new-IsReady}
use arl_hierarchical_multisc.PerformanceScheduler.Placing.{schedule_places}
use arl_hierarchical_multisc.Broker.Config.{Tree}
use arl_hierarchical_multisc.Broker.Factory.{Setup}
use arl_hierarchical_multisc.Broker.Factory.Fresh.{sockets-length, mpi_communicators-length}
use arl_hierarchical_multisc.Launcher.Modules.{SocketType}
use arl_hierarchical_multisc.SamplingFactory.{
  client_communicators, SamplingSetup, SamplingScheduler, round_robin, performance, load, Sampling,
}
use arl_hierarchical_multisc.SamplingFactory.Build.{
  caught, load_with, load_of, loaded_as, scheduler_of, build,
}

-- Which branch has returned.
branches :
    {A : Type 0} (b : Bool) (x y : Result A) (a : A)
    → (if b then x else y) ≡ ok a
    → (x ≡ ok a) ⊎ (y ≡ ok a)
branches Bool.true x y a e = inl e
branches Bool.false x y a e = inr e

caught-same : (x : Exception) (s l : LoadScheduler) → caught x s ≡ ok l → l ≡ s
caught-same x s l e =
    elim x as (λ x. caught x s ≡ ok l → l ≡ s) [
      | undefined ↦ λ e. absurd (cc)
      | _ ↦ λ e. sym (ok-injective e)
    ]
      e

load_of-brokers :
    (n : ℕ) (atoi : String → ℤ) (log delta : Result String) (l : LoadScheduler)
    → load_of n atoi log delta ≡ ok l
    → l.number_brokers ≡ n
load_of-brokers n atoi (err x) delta l e =
    ap (λ s. s.number_brokers) (caught-same x (load_with n (negsuc 0)) l e)
load_of-brokers n atoi (ok log) (err x) l e =
    ap (λ s. s.number_brokers) (caught-same x (load_with n (negsuc 0)) l e)
load_of-brokers n atoi (ok log) (ok delta) l e = ap (λ s. s.number_brokers) (sym (ok-injective e))

module _ {W J D : Type 0} (setup : Setup W J) (sampling : SamplingSetup W J D) (doubles : Doubles D)
    (measures : Measures D) where
  -- Packages go to `n` brokers: where there is one, the first two schedulers give every package one of
  -- them, the second where the places of the norms among its bins are numbers that an `int` holds, and
  -- the third asks that many for their loads.
  pub Serves : ℕ → SamplingScheduler D → Type 0
  Serves n (round_robin s) =
      (ps : List ModelPackage) → 0 < n → All (IsBelow n) (RoundRobin.schedule s ps).1
  Serves n (performance s) =
      (ps : List ModelPackage)
      → 0 < n
      → All (Converts doubles measures s.min_argument s.bin_delta) ps
      → (s' : PerformanceScheduler D) × (ids : List ℕ) × (PerformanceScheduler.schedule doubles
            measures s ps
          ≡ ok (s', ids))
        × (length ids ≡ length ps)
        × All (IsBelow n) ids
  Serves n (load s) = s.number_brokers ≡ n

  performance-Serves :
      (n : ℕ)
      → Serves n (
          performance (
            PerformanceScheduler.new doubles measures n 3 1
              (doubles.of_number 0)
              (doubles.of_number 10)))
  unfolding Serves PerformanceScheduler.new
  performance-Serves n ps h c =
      let (s', ids, e, size, all, ready) =
        schedule_places doubles measures _ ps
          (new-IsReady doubles measures n 3 1 (doubles.of_number 0) (doubles.of_number 10) h) c in
      (s', ids, e, size, all)

  load-Serves :
      (n : ℕ) (s : SamplingScheduler D) (r : Result LoadScheduler)
      → ((l : LoadScheduler) → r ≡ ok l → l.number_brokers ≡ n)
      → loaded_as r ≡ ok s
      → Serves n s
  unfolding Serves
  load-Serves n s (ok l) h e = subst (Serves n) (ok-injective e) (h l refl)
  load-Serves n s (err x) h e = absurd (cc)

  scheduler_of-Serves :
      (tree : Tree) (id size : ℕ) (type : String) (n : ℕ) (s : SamplingScheduler D)
      → scheduler_of setup sampling doubles measures tree id size type n ≡ ok s
      → Serves n s
  unfolding scheduler_of Serves
  scheduler_of-Serves tree id size type n s e =
      elim (branches (same_name type "RoundRobin") _ _ s e) [
        | inl r ↦
            subst (Serves n) (ok-injective r)
              λ ps h. RoundRobin.schedule-IsBelow (RoundRobin.new n) ps h
        | inr e' ↦ elim (branches (same_name type "Performance") _ _ s e') [
          | inl r ↦ subst (Serves n) (ok-injective r) (performance-Serves n)
          | inr e'' ↦ elim (branches (same_name type "Load") _ _ s e'') [
            | inl r ↦
                load-Serves n s (load_of n setup.atoi _ _) (λ l. load_of-brokers n setup.atoi _ _ l)
                  r
            | inr r ↦ absurd (cc)
          ]
        ]
      ]

  client_communicators-length :
      (tree : Tree) (type : String) (ranks : List ℤ)
      → Ensures
          (client_communicators setup sampling tree type ranks)
          (λ cs. length cs ≡ length ranks)
  unfolding client_communicators
  client_communicators-length tree type ranks =
      Ensures-if (same_name type "UnixSocket")
        (λ _. Ensures-after _ λ address. sockets-length setup address SocketType.unix ranks)
        λ _.
          Ensures-if (same_name type "TCPIPSocket")
            (λ _. sockets-length setup "0.0.0.0:0" SocketType.tcpip ranks)
            λ _.
              Ensures-if (same_name type "MPI")
                (λ _. Ensures-after _ λ found. Ensures-after _ λ p.
                  Ensures-after _
                    λ size. Ensures-after _ λ _. mpi_communicators-length setup p ranks)
                (λ _. Ensures-throw _)

  build-Serves :
      (fuel : ℕ) (config_file : String) (id : ℕ) (ranks : List ℤ)
      → Ensures (build setup sampling doubles measures fuel config_file id ranks) (λ s.
        (length s.communicators ≡ length ranks)
        × Serves (length s.broker_communicators) s.scheduler)
  unfolding build
  build-Serves fuel config_file id ranks = Ensures-after _ λ tree. Ensures-after _ λ hosts.
      Ensures-after _ λ kind. Ensures-after _ λ bounded. Ensures-after _ λ library.
        Ensures-after _ λ threads. Ensures-after _ λ scheduler_type. Ensures-after _ λ type.
          Ensures-after _ λ loaded. Ensures-after _ λ there.
            Ensures->>= _ (client_communicators-length tree kind ranks) λ cs h. Ensures-after _ λ _.
              Ensures-after _ λ filters. Ensures-after _ λ generator. Ensures-after _ λ database.
                Ensures-after _ λ brokers.
                  Ensures->>= _
                    (Ensures-lift _
                      λ s e. scheduler_of-Serves tree id _ scheduler_type (length brokers) s e)
                    λ s k. Ensures-pure _ (h, k)

  -- When a client has been built from a configuration file for some ranks, it has a communicator for each
  -- rank, and its scheduler works with as many brokers as it has connections to: where there is a broker,
  -- the round robin scheduler gives every package one of these, and so does the performance scheduler
  -- where the places of the packages' norms among its bins are numbers that an `int` holds, and the load
  -- scheduler asks that many for their loads.
  pub built_client_knows_brokers :
      (fuel : ℕ) (config_file : String) (id : ℕ) (ranks : List ℤ) (s : Sampling D) (w w' : W)
      → build setup sampling doubles measures fuel config_file id ranks w ≡ (ok s, w')
      → (length s.communicators ≡ length ranks) × Serves (length s.broker_communicators) s.scheduler
  built_client_knows_brokers fuel config_file id ranks s w w' e =
      Ensures-returns (build-Serves fuel config_file id ranks) w w' s e
