-- ===== src/Launcher/Start/Connected.antt =====
-- However the modules are launched, a process gets its share of the connections.
use arl_hierarchical_multisc.Base.{
  ℕ, zero, suc, ◌+◌, ◌/◌, ◌%◌, ◌≡◌, refl, ap, sym, subst, ◌∙◌, true, false, List, [], ◌∷◌, ◌++◌,
  length, map, ◌==◌, if◌then◌else◌, arith, lt→ltb, length-append,
}
use arl_hierarchical_multisc.Base.Effect.{
  ok-injective, Ensures-after, ok, lift, Ensures, Ensures->>=, Ensures-pure, Ensures-throw,
  Ensures-if, Ensures-lift, Ensures-mono, Ensures-returns,
}
use arl_hierarchical_multisc.Machinefile.{Text, same_text, tokens}
use arl_hierarchical_multisc.Launcher.Ranks.{
  launched_ids, larger, generate_communicator_ranks, client_servers, intercommunicator_ranks,
}
use arl_hierarchical_multisc.Launcher.Ranks.Placement.{Placed, own, in_common, Shared-Placed}
use arl_hierarchical_multisc.Launcher.Ranks.Shares.{generate-positive, generate-ok}
use arl_hierarchical_multisc.Launcher.Processes.{System, codes}
use arl_hierarchical_multisc.Launcher.Modules.{
  Network, Plan, SocketType, Launched, launch_all, share, launch_sockets,
}
use arl_hierarchical_multisc.Launcher.Modules.Spawning.{Spawner, connect_all, launch_mpi}
use arl_hierarchical_multisc.Launcher.Start.{is_socket, launch_by_type, launch_module}

abbrev HasLength : {A : Type 0} → ℕ → List A → Type 0
HasLength n xs = length xs ≡ n

length-map : {A B : Type 0} (f : A → B) (xs : List A) → length (map f xs) ≡ length xs
length-map f [] = refl
length-map f (x ∷ xs) = ap suc (length-map f xs)

length-client_servers : (l p r i n : ℕ) → length (client_servers l p r i n) ≡ n
unfolding client_servers
length-client_servers l p r i zero = refl
length-client_servers l p r i (suc n) = ap suc (length-client_servers l p r (suc i) n)

length-launched_ids : (k l rank i n : ℕ) → length (launched_ids k l rank i n) ≡ n
unfolding launched_ids
length-launched_ids k l rank i zero = refl
length-launched_ids k l rank i (suc n) = ap suc (length-launched_ids k l rank (suc i) n)

length-intercommunicator_ranks :
    (size servers rank : ℕ)
    → length (intercommunicator_ranks size servers rank) ≡ larger size servers / size
unfolding intercommunicator_ranks
length-intercommunicator_ranks size servers rank =
    length-client_servers (larger size servers / size) (larger size servers / servers) rank 0
      (larger size servers / size)

abbrev first_only : ℕ → ℕ
first_only b = if b == 1 then 1 else 0

-- How many modules the process starts when it shares one with others.
abbrev first : (rank p : ℕ) → ℕ
first rank p = if rank % p == 0 then 1 else 0

when_one : (b : ℕ) → (b == 1) ≡ true → first_only b ≡ 1
when_one b e = rw e refl

when_other : (b : ℕ) → (b == 1) ≡ false → first_only b ≡ 0
when_other b e = rw e refl

first_one : (rank p : ℕ) → first rank p ≡ first_only (first rank p)
first_one rank p = ground arith

module _ {W C I J : Type 0} (system : System W) (network : Network W C)
    (spawner : Spawner W C I J) where
  launch_all-HasLength :
      (fuel : ℕ) (plan : Plan) (type : SocketType) (ratio i : ℕ) (ids : List ℕ)
      → Ensures (launch_all system network fuel plan type ratio i ids) (HasLength (length ids))
  unfolding launch_all
  launch_all-HasLength fuel plan type ratio i [] = Ensures-pure [] refl
  launch_all-HasLength fuel plan type ratio i (module_id ∷ ids) = Ensures-after _ λ launched.
      Ensures->>= _ (launch_all-HasLength fuel plan type ratio (suc i) ids)
        λ others h. Ensures-pure (launched ∷ others) (ap suc h)

  connect_all-HasLength :
      (j : J) (servers : List ℕ)
      → Ensures (connect_all spawner j servers) (HasLength (length servers))
  unfolding connect_all
  connect_all-HasLength j [] = Ensures-pure [] refl
  connect_all-HasLength j (s ∷ servers) = Ensures-after _ λ c.
      Ensures->>= (connect_all spawner j servers) (connect_all-HasLength j servers)
        λ others h. Ensures-pure (c ∷ others) (ap suc h)

  launch_mpi-HasLength :
      (plan : Plan) (rank size : ℕ)
      → Ensures
          (launch_mpi spawner plan rank size)
          (HasLength (larger size (length plan.hosts) / size))
  unfolding launch_mpi
  launch_mpi-HasLength plan rank size =
      let n = larger size (length plan.hosts) / size in
      Ensures-after _ λ arguments. Ensures-after _ λ infos. Ensures-after _ λ result.
        Ensures-after _ λ r. Ensures-after _ λ _. Ensures-after _ λ _. Ensures-after _ λ _.
          Ensures-after _ λ _.
            Ensures-mono (λ cs h. h ∙ length-intercommunicator_ranks size (length plan.hosts) rank)
              (connect_all-HasLength r.0 (intercommunicator_ranks size (length plan.hosts) rank))

  share-HasLength :
      (plan : Plan) (type : SocketType) (ratio number rank size : ℕ) (launched : List (Launched C))
      → length launched ≡ first_only number
      → Ensures (share system network plan type ratio number rank size launched) (HasLength 1)
  unfolding share
  share-HasLength plan type ratio number rank size launched h = Ensures-after _ λ world_size.
      Ensures-after _ λ _.
        Ensures-if (number == 1)
          (λ e. Ensures-after _ λ started. Ensures-after _ λ _. Ensures-after _ λ _.
            Ensures-pure (map (λ l. l.communicator) launched)
              (length-map (λ l. l.communicator) launched ∙ h ∙ when_one number e))
          (λ e. Ensures-after _ λ c. Ensures-pure (map (λ l. l.communicator) launched ++ c ∷ []) (
            length-append (map (λ l. l.communicator) launched) (c ∷ [])
            ∙ ap (λ n. n + 1)
                (length-map (λ l. l.communicator) launched ∙ h ∙ when_other number e)))

  launch_sockets-HasLength :
      (fuel : ℕ) (plan : Plan) (type : SocketType) (rank size l : ℕ)
      → Placed size (length plan.hosts) rank l
      → Ensures (launch_sockets system network fuel plan type rank size) (HasLength l)
  unfolding launch_sockets
  launch_sockets-HasLength fuel plan type rank size l (own e) = rw e (
      Ensures->>= _ (launch_all-HasLength fuel plan type 1 0 (launched_ids l 1 rank 0 l))
        λ launched h.
          Ensures-pure _
            (length-map (λ m. m.communicator) launched ∙ h ∙ length-launched_ids l 1 rank 0 l))
  launch_sockets-HasLength fuel plan type rank size l (in_common p h e one) =
      let n = first rank p in
      rw (e, lt→ltb 1 p h)
        (Ensures->>= _ (launch_all-HasLength fuel plan type p 0 (launched_ids n p rank 0 n))
          λ launched m.
            subst
              (λ k. Ensures (share system network plan type p n rank size launched) (HasLength k))
              (sym one)
              (share-HasLength plan type p n rank size launched
                (m ∙ length-launched_ids n p rank 0 n ∙ first_one rank p)))

  launch_by_type-HasLength :
      (fuel : ℕ) (type : Text) (plan : Plan) (rank size : ℕ)
      → Placed size (length plan.hosts) rank (larger size (length plan.hosts) / size)
      → Ensures
          (launch_by_type system network spawner fuel type plan rank size)
          (HasLength (larger size (length plan.hosts) / size))
  unfolding launch_by_type
  launch_by_type-HasLength fuel type plan rank size h =
      Ensures-if (is_socket type)
        (λ _. Ensures-after _ λ t. launch_sockets-HasLength fuel plan t rank size _ h)
        λ _.
          Ensures-if (same_text type (codes "MPI")) (λ _. launch_mpi-HasLength plan rank size)
            (λ _. Ensures-throw _)

  launch_module-HasLength :
      (fuel : ℕ) (hms_ssh config_file : Text) (rank size : ℕ) (path_keyword hosts_keyword : Text)
      (hosts : Text)
      → network.option config_file hosts_keyword ≡ ok hosts
      → Ensures
          (launch_module system network spawner fuel hms_ssh config_file rank size path_keyword
            hosts_keyword)
          (HasLength (length (intercommunicator_ranks size (length (tokens hosts)) rank)))
  unfolding launch_module
  launch_module-HasLength fuel hms_ssh config_file rank size path_keyword hosts_keyword hosts e =
      Ensures-after _ λ type.
        Ensures->>= (lift (network.option config_file hosts_keyword))
          (Ensures-lift _ λ h r. ok-injective (sym r ∙ e))
          λ h same.
            Ensures-mono
              (λ cs k.
                k ∙ ap (λ t. length (intercommunicator_ranks size (length (tokens t)) rank)) same)
              (Ensures-after _ λ path. Ensures-after _ λ _.
                Ensures->>= (lift (generate_communicator_ranks (tokens h) size))
                  (Ensures-lift _ λ rss r. r)
                  λ rss r.
                    Ensures-mono
                      (λ cs m.
                        m ∙ sym (length-intercommunicator_ranks size (length (tokens h)) rank))
                      (launch_by_type-HasLength fuel type _ rank size (
                        Shared-Placed _ _ _ _ rank 0 (generate-ok (tokens h) size rss r).0
                          (generate-positive (tokens h) size rss r))))

  -- When `launchModule` returns, and the option of the hosts is known, a process has exactly as many
  -- communicators as its share of the connections, over sockets of either kind as over MPI, whether it
  -- has started several modules, or one, or none and shares that of another process.
  pub launch_module_connects :
      (fuel : ℕ) (hms_ssh config_file : Text) (rank size : ℕ) (path_keyword hosts_keyword : Text)
      (hosts : Text) (cs : List C) (w w' : W)
      → network.option config_file hosts_keyword ≡ ok hosts
      → launch_module system network spawner fuel hms_ssh config_file rank size path_keyword
          hosts_keyword w
        ≡ (ok cs, w')
      → length cs ≡ length (intercommunicator_ranks size (length (tokens hosts)) rank)
  launch_module_connects fuel hms_ssh config_file rank size path_keyword hosts_keyword hosts cs w w'
        h e =
      Ensures-returns
        (launch_module-HasLength fuel hms_ssh config_file rank size path_keyword hosts_keyword hosts
          h)
        w w' cs e
