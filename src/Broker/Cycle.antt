-- ===== src/Broker/Cycle.antt =====
-- BasicBroker::run: one round of the `while`, the loop, and the handler of exceptions.
pub mod Accounts
pub mod Lifetime
use arl_hierarchical_multisc.Base.{
  ℕ, zero, suc, String, Bool, true, false, Option, none, some, List, [], ◌∷◌, if◌then◌else◌, map,
}
use arl_hierarchical_multisc.Base.Effect.{
  M, Result, ok, err, Exception, is_of_program, pure, throw, ◌>>=◌, ◌>>◌,
}
use arl_hierarchical_multisc.ResourceManager.{ResourceManager}
use arl_hierarchical_multisc.ModelPackage.{ModelPackage, Handle}
use arl_hierarchical_multisc.Command.{Command}
use arl_hierarchical_multisc.StateDb.{StateDb}
use arl_hierarchical_multisc.Scheduler
use arl_hierarchical_multisc.Scheduler.{Scheduler}
use arl_hierarchical_multisc.Monitor
use arl_hierarchical_multisc.CleanupPolicy
use arl_hierarchical_multisc.CleanupPolicy.{CleanupPolicy}
use arl_hierarchical_multisc.Warehouse
use arl_hierarchical_multisc.Warehouse.{attempt}
use arl_hierarchical_multisc.LoadQuery.{LoadQuery, execute}
use arl_hierarchical_multisc.Broker.{CommandFactory, Environment}
use arl_hierarchical_multisc.Broker.Commands.{create_commands, schedule_commands}
use arl_hierarchical_multisc.Broker.Filters.{
  Verdict, package_of, apply_output_filters, completed_packages, failed_packages,
}

pub record Broker : Type 0 where
  pub communicators : List Handle
  pub client_communicators : List Handle
  pub scheduler : Scheduler
  pub cleanup_policy : CleanupPolicy
  pub command_factory : CommandFactory
  pub manager : ResourceManager
  pub output_directory : String
  pub command_counter : ℕ
  pub state_db : StateDb
  pub handle_load_query : Bool

-- The connections beside those for model packages, and what PBS programs report of the load.
pub record Clients (W : Type 0) : Type 0 where
  pub receive_queries : Handle → M W (List LoadQuery)
  pub send_query : Handle → LoadQuery → M W (Unit {0})
  pub send_exception : Handle → Exception → M W (Unit {0})
  pub pbs : M W LoadQuery

-- The commands share their packages with the verdicts.
abbrev pub with_packages : List Command → List Verdict → List Command
with_packages (c ∷ cs) (v ∷ vs) = record c { model_package = package_of v } ∷ with_packages cs vs
with_packages cs vs = cs

module _ {W : Type 0} (env : Environment W) (clients : Clients W) where
  open env use {clock, ops, carrier, disk}
  open clients use {receive_queries, send_query, send_exception, pbs}

  -- getCompletedCommands; the commands are those of the completed queue.
  unfoldable pub get_completed_commands : Broker → M W Broker
  get_completed_commands b = do
    (m, db) ← Monitor.process_queue clock ops b.manager (record b.state_db { completed = [] })
    pure (record b { manager = m; state_db = db })

  unfoldable pub process_scheduler : Broker → M W Broker
  process_scheduler b = do
    (m, db) ← Scheduler.process_queue clock ops b.scheduler b.manager b.state_db
    pure (record b { manager = m; state_db = db })

  -- Commands for model packages, scheduled.
  unfoldable pub admit : List ModelPackage → Broker → M W Broker
  admit ps b = do
    (counter, commands) ←
        create_commands env b.command_factory b.output_directory b.command_counter ps
    db ← schedule_commands env commands b.state_db
    pure (record b { command_counter = counter; state_db = db })

  process_if_completed : List Command → Broker → M W Broker
  unfolding process_scheduler
  process_if_completed [] b = pure b
  process_if_completed (c ∷ cs) b = process_scheduler b

  restart : List ModelPackage → Broker → M W Broker
  unfolding admit process_scheduler
  restart [] b = pure b
  restart (p ∷ ps) b = do b' ← admit (p ∷ ps) b; process_scheduler b'

  -- A round, from the commands for the received packages on, but for the shipping: the broker after
  -- it, and the completed packages.
  unfoldable pub evaluate : List ModelPackage → Broker → M W (Broker × List ModelPackage)
  unfolding get_completed_commands process_if_completed restart
  evaluate packages b = do
    b₁ ← admit packages b
    b₂ ← process_scheduler b₁
    b₃ ← get_completed_commands b₂
    let commands = b₃.state_db.completed
    b₄ ← process_if_completed commands b₃
    verdicts ← apply_output_filters env commands
    policy ← CleanupPolicy.apply disk b₄.cleanup_policy (with_packages commands verdicts)
    b₅ ← restart (failed_packages verdicts) (record b₄ { cleanup_policy = policy })
    pure (b₅, completed_packages verdicts)

  unfoldable pub round : List ModelPackage → Broker → M W Broker
  unfolding evaluate
  round packages b = do
    (b', done) ← evaluate packages b
    Warehouse.ship carrier b'.communicators done
    pure b'

  answer_all : Handle → List LoadQuery → Broker → M W (Unit {0})
  answer_all h [] b = pure tt
  answer_all h (q ∷ qs) b = do
    answer ← execute pbs b.scheduler b.manager b.state_db
    send_query h answer
    answer_all h qs b

  -- The load queries of each client; `false` where a connection has ended, which ends the broker.
  unfoldable pub answer_queries : List Handle → Broker → M W Bool
  unfolding answer_all attempt
  answer_queries [] b = pure true
  answer_queries (h ∷ hs) b = do
    received ← attempt (receive_queries h)
    elim received [ none ↦ pure false | some qs ↦ do answer_all h qs b; answer_queries hs b ]

  -- The body of the `while`: `none` where it returns from `run`.
  unfoldable pub cycle : Broker → M W (Option Broker)
  unfolding round answer_queries attempt
  cycle b = do
    received ← attempt (Warehouse.receive carrier b.communicators)
    elim received [
      | none ↦ pure none
      | some (communicators, packages) ↦ do
        b' ← round packages (record b { communicators = communicators })
        going ←
            if b'.handle_load_query then answer_queries b'.client_communicators b' else pure true
        if going then pure (some b') else pure none
    ]

  send_to_all : List Handle → Exception → M W (Unit {0})
  send_to_all [] e = pure tt
  send_to_all (h ∷ hs) e = do send_exception h e; send_to_all hs e

  -- The handler tells each client of an exception of the program, and throws it again; it does not
  -- catch others.
  abbrev handle : Broker → Result (Option Broker) × W → Result (Option Broker) × W
  handle b (ok r, w) = (ok r, w)
  handle b (err e, w) =
      (if is_of_program e then send_to_all b.client_communicators e >> throw e else throw e) w

  -- `run` for at most so many rounds: `some` where it would go on.
  unfoldable pub run : ℕ → Broker → M W (Option Broker)
  unfolding cycle send_to_all
  run zero b = pure (some b)
  run (suc rounds) b = do
    next ← λ w. handle b (cycle b w)
    elim next [ none ↦ pure none | some b' ↦ run rounds b' ]
