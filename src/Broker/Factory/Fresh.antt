-- ===== src/Broker/Factory/Fresh.antt =====
-- A broker that has been built is one whose run keeps all its resources.
use arl_hierarchical_multisc.Base.{
  ℕ, ◌≡◌, refl, ap, sym, subst, Bool, Option, some, String, List, [], ◌∷◌, length, All,
}
use arl_hierarchical_multisc.Base.Int.{ℤ}
use arl_hierarchical_multisc.Base.Effect.{
  Ensures-after, ok, Ensures, Ensures->>=, Ensures-pure, Ensures-throw, Ensures-if, Ensures-returns,
}
use arl_hierarchical_multisc.PbsCommand.{same_name}
use arl_hierarchical_multisc.ResourceList.{ResourceList}
use arl_hierarchical_multisc.ResourceManager
use arl_hierarchical_multisc.ResourceManager.{ResourceManager}
use arl_hierarchical_multisc.ResourceManager.Accounts.{IsKeyed, assign-IsKeyed}
use arl_hierarchical_multisc.ModelPackage.{Handle}
use arl_hierarchical_multisc.StateDb
use arl_hierarchical_multisc.StateDb.{StateDb}
use arl_hierarchical_multisc.StateDb.Ledger.{IsIdle, IsStaffed}
use arl_hierarchical_multisc.Scheduler.{Scheduler}
use arl_hierarchical_multisc.CleanupPolicy.{CleanupPolicy}
use arl_hierarchical_multisc.Broker.{CommandFactory, Environment}
use arl_hierarchical_multisc.Broker.Cycle.{Broker, Clients, run}
use arl_hierarchical_multisc.Broker.Cycle.Accounts.{IsStocked}
use arl_hierarchical_multisc.Broker.Cycle.Lifetime.{Follows, run_keeps_resources}
use arl_hierarchical_multisc.Launcher.Modules.{SocketType}
use arl_hierarchical_multisc.Broker.Factory.{Setup, sockets, mpi_communicators, communicators_of}
use arl_hierarchical_multisc.Broker.Factory.Build.{new_broker, build}

-- What a broker is before its first round: a communicator for each rank, resources that are all free and
-- of one type, no command, and no package that has been counted.
pub record IsFresh (ranks : List ℤ) (b : Broker) : Type 0 where
  pub connected : length b.communicators ≡ length ranks
  pub answers_all : b.client_communicators ≡ b.communicators
  pub idle : b.state_db ≡ StateDb.new
  pub uncounted : b.command_counter ≡ 0
  pub keyed : IsKeyed b.manager

add-IsKeyed : (r : ResourceList) → IsKeyed (ResourceManager.add ResourceManager.empty r)
unfolding ResourceManager.add
add-IsKeyed r =
    assign-IsKeyed r.resource_type r ResourceManager.empty (record { at_cpu = tt; at_gpu = tt })
      refl

module _ {W J : Type 0} (setup : Setup W J) where
  pub sockets-length :
      (address : String) (type : SocketType) (ranks : List ℤ)
      → Ensures (sockets setup address type ranks) (λ cs. length cs ≡ length ranks)
  unfolding sockets
  sockets-length address type [] = Ensures-pure [] refl
  sockets-length address type (r ∷ ranks) = Ensures-after _ λ c.
      Ensures->>= _ (sockets-length address type ranks) λ cs h. Ensures-pure (c ∷ cs) (ap ℕ.suc h)

  pub mpi_communicators-length :
      (parent : J) (ranks : List ℤ)
      → Ensures (mpi_communicators setup parent ranks) (λ cs. length cs ≡ length ranks)
  unfolding mpi_communicators
  mpi_communicators-length parent [] = Ensures-pure [] refl
  mpi_communicators-length parent (r ∷ ranks) = Ensures-after _ λ c.
      Ensures->>= _ (mpi_communicators-length parent ranks)
        λ cs h. Ensures-pure (c ∷ cs) (ap ℕ.suc h)

  communicators_of-length :
      (tree : String → Option String) (type : String) (ranks : List ℤ)
      → Ensures (communicators_of setup tree type ranks) (λ cs. length cs ≡ length ranks)
  unfolding communicators_of
  communicators_of-length tree type ranks =
      Ensures-if (same_name type "UnixSocket")
        (λ _. Ensures-after _ λ address. sockets-length address SocketType.unix ranks)
        λ _.
          Ensures-if (same_name type "TCPIPSocket")
            (λ _. sockets-length "0.0.0.0:0" SocketType.tcpip ranks)
            λ _.
              Ensures-if (same_name type "MPI")
                (λ _.
                  Ensures-after _ λ found. Ensures-after _ λ p. mpi_communicators-length p ranks)
                (λ _. Ensures-throw _)

  new_broker-IsFresh :
      (ranks : List ℤ) (cs : List Handle) (s : Scheduler) (policy : CleanupPolicy)
      (factory : CommandFactory) (m : ResourceManager) (directory : String) (load : Bool)
      → length cs ≡ length ranks
      → IsKeyed m
      → Ensures (new_broker setup cs s policy factory m directory load) (IsFresh ranks)
  unfolding new_broker
  new_broker-IsFresh ranks cs s policy factory m directory load h k = Ensures-after _ λ name.
      Ensures-after _ λ host. Ensures-after _ λ pid. Ensures-after _ λ _. Ensures-after _ λ _.
        Ensures-after _ λ _.
          Ensures-pure _
            (record { connected = h; answers_all = refl; idle = refl; uncounted = refl; keyed = k })

  build-IsFresh :
      (config_file : String) (id : ℕ) (ranks : List ℤ)
      → Ensures (build setup config_file id ranks) (IsFresh ranks)
  unfolding build
  build-IsFresh config_file id ranks = Ensures-after _ λ tree. Ensures-after _ λ hosts.
      Ensures-after _ λ kind. Ensures-after _ λ named. Ensures-after _ λ cleanup.
        Ensures-after _ λ library. Ensures-after _ λ directory. Ensures-after _ λ resource.
          Ensures-after _ λ resource_type. Ensures-after _ λ list_type.
            Ensures-after _ λ scheduler_type. Ensures-after _ λ monitor.
              Ensures-after _ λ broker_type. Ensures-after _ λ status. Ensures-after _ λ ends.
                Ensures-after _ λ loaded. Ensures-after _ λ found. Ensures-after _ λ policy.
                  Ensures-after _ λ type. Ensures-after _ λ resources.
                    Ensures->>= _ (communicators_of-length tree kind ranks) λ cs h.
                      Ensures-after _ λ chosen. Ensures-after _ λ monitored.
                        Ensures-after _ λ predicates. Ensures-after _ λ end_predicates.
                          Ensures-after _ λ known.
                            new_broker-IsFresh ranks cs chosen.0 policy _ _ _ _ h
                              (add-IsKeyed resources)

pub IsFresh-IsStocked :
    (ranks : List ℤ) (b : Broker) (speculative : Bool)
    → IsFresh ranks b
    → b.scheduler ≡ Scheduler.basic speculative
    → IsStocked speculative b
IsFresh-IsStocked ranks b speculative h e = record {
  scheme = e;
  consistent = record {
    keyed = h.keyed;
    idle = subst (λ db. All IsIdle db.queued) (sym h.idle) tt;
    staffed = subst (λ db. All IsStaffed db.running) (sym h.idle) tt;
  };
}

-- When a broker has been built from a configuration file for some ranks, with a basic scheduler, then it
-- has a communicator for each of the ranks, and after any number of rounds after which it would go on,
-- each of its resources is still free or held by a running command that has asked for it.
pub built_keeps_resources :
    {W J : Type 0} (setup : Setup W J) (env : Environment W) (clients : Clients W)
    (config_file : String) (id : ℕ) (ranks : List ℤ) (speculative : Bool) (rounds : ℕ)
    (b b' : Broker) (w w' w'' : W)
    → build setup config_file id ranks w ≡ (ok b, w')
    → b.scheduler ≡ Scheduler.basic speculative
    → run env clients rounds b w' ≡ (ok (some b'), w'')
    → (length b.communicators ≡ length ranks) × Follows speculative b b'
built_keeps_resources setup env clients config_file id ranks speculative rounds b b' w w' w'' e s
      r =
    let fresh = Ensures-returns (build-IsFresh setup config_file id ranks) w w' b e in
    (
      fresh.connected,
      run_keeps_resources env clients speculative rounds b b' w' w''
          (IsFresh-IsStocked ranks b speculative fresh s) r,
    )
