-- ===== src/Lib.antt =====
-- A verification library for the Hierarchical Multiscale Framework (HMS): its brokers, the adaptive
-- sampling client that calls them, and the connections between the two.
--
-- Clients send model packages (units of work) to a broker. The broker's loop receives them through a
-- warehouse of communicators, makes a command of each, queues the commands by priority, has a
-- scheduler start them on free resources and a monitor collect those that have ended, applies the
-- users' output filters, removes directories by a cleanup policy, evaluates failed packages again, and
-- ships completed ones back to the client that each came from.
--
-- An adaptive sampling client stands between an algorithm and brokers. It answers a package from an
-- interpolation database where that is possible, sends it to a broker where not, and puts what comes
-- back into the database, for which it may ask for additional evaluations. Its threads share piles of
-- packages; messages go through sockets as frames in a stream of bytes.
--
-- Parts, with the paths from the repository's root:
--   Base               the shared names: lists and tests over native numbers, int and unsigned int
--                      (Base/Int), exceptions and effects (Base/Effect; exception/), decimals
--   ResourceList       base/ResourceList.cc: check_in, check_out; Lending
--   ResourceManager    base/ResourceManager.cc: a list for each resource type; Accounts, Balance,
--                      Totals
--   Queue              base/Queue_t.cc; Sort
--   ModelPackage       base/ModelPackage.cc, Model.cc, Argument.cc, Priority.h, TimeUtils.cc
--   Command            base/Command.cc; the virtual functions are the interface CommandOps, with laws
--   MpiCommand         base/MPICommand.cc over the system's calls; Lifecycle has it fill CommandOps;
--                      Settling is about the end of a process
--   PbsCommand         base/PBSCommand.cc and base/NumberProcessorsPerNode.cc over the calls of a batch
--                      system; Ending has it fill CommandOps
--   StateDb            base/StateDB.cc: the queued, the running and the completed queue; Ledger, the
--                      counts of commands and of lent resources
--   Scheduler          scheduler/: Basic (BasicScheduler.cc), with Conservation, Greed (what is
--                      started), Preempting (what is cancelled) and Progress (when a pass
--                      returns); and Batch (BatchQueueScheduler.cc), with Parity
--   Monitor            monitor/BasicMonitor.cc; Directions (which command goes where), Conservation
--   Warehouse          warehouse/Warehouse_t.cc: receive, ship; Routing, Termination (connections
--                      that end), Fuel
--   CleanupPolicy      broker/CleanupPolicy*.cc; Retention
--   LoadQuery          scheduler/LoadQuery.cc
--   RoundRobin         adaptive_sampling/AdaptiveSamplingRoundRobinScheduler.cc
--   LoadScheduler      adaptive_sampling/AdaptiveSamplingLoadScheduler.cc; Order (the comparator),
--                      Assignment (one broker for each package), Delivery (with the client's evaluation thread)
--   PerformanceScheduler
--                      adaptive_sampling/AdaptiveSamplingPerformanceScheduler.cc: Bins (measured times),
--                      Placing and Least (the choice of a broker)
--   AdaptiveSampling   adaptive_sampling/AdaptiveSampling.cc, by threads: Receive
--                      (algorithmWarehouseReceiveThread), Interpolate and Speculate
--                      (adaptiveSamplingThread), Evaluate (evaluationThread) and Values
--                      (valueProcessingThread); System has the steps of all of them. Outcome
--                      and Processing are about what comes back, Tally counts, Conservation leads
--                      to where each request is and to the counter, Limits is about speculation
--   SamplingFactory    adaptive_sampling/AdaptiveSamplingFactory.cc: Build, and Serving, which is about what
--                      is built
--   Socket             comm/SocketCommunicator.cc: Header, Rounds and Framing (receiveSerialized),
--                      Sending (sendSerialized), Channel
--                      (a sender and a receiver with a stream between them)
--   Launcher           comm/Launcher.cc: Ranks (who is connected with whom; Pairing of the two sides,
--                      Launching and Placement of the modules, Transports: sockets and MPI),
--                      Arguments (with the command line in broker/StartBroker.cc; RoundTrip),
--                      Processes (a child and its pipes; Pipes), Modules (over sockets, and
--                      Spawning over MPI), Start (launchModule; Connected)
--   Machinefile        base/MPIMachinefileGenerator.cc, base/MPIResourceListGenerator.cc; RoundTrip
--   Broker             base/CommandFactory.cc, and broker/BasicBroker.cc in three parts: Commands
--                      (commandsFromModelPackages, scheduleCommands), Filters (applyOutputFilters) and
--                      Cycle (getCompletedCommands and run); broker/BrokerFactory.cc: Config (options),
--                      Factory (with base/LocalhostResourceListGenerator.cc; Build has build and the
--                      constructor of BasicBroker, Fresh is about what is built)
--   Tests              small inputs, on which the theorems are applied
--
-- How the code is read. A function that reads or changes the outside world W, or throws, is a function
-- from W to a Result and a W; the world of a call that throws stays. The clock, the connections, the
-- file system, the processes, the batch system, the database and the users' filters are parameters
-- (Clock, Carrier, Disk, Files, Processes, BatchSystem, Services, Brokers, Wire, Environment, Clients,
-- System, Network, Spawner, Setup, SamplingSetup), and so are doubles, where they decide anything
-- (Doubles).
-- An int is the type of Base/Int, the counter of evaluations keeps to its values as a condition of the
-- steps in which it grows, the other counters are not bounded, and an unsigned int is reduced modulo 2^32 where the code computes with
-- it.
-- Threads are steps over explicit states (System, Channel): a step is a round of a loop or the code
-- between two loops, in any order of the threads, and each step of the client runs in a world of its
-- own, since the database, the clock and the brokers may change between steps. Where the code takes two
-- locks one after the other and what stands between them matters, these are two steps (unanswered and
-- count_evaluation), or the later reading is an argument of its own (receive_serialized). Additional
-- evaluations are put on the pile and counted in one step, both in one round of the value processing
-- thread. What a client hands to
-- its warehouse is the list `shipped`; what it and a broker exchange is a BrokerLink. Bytes and the
-- characters of machine files are numbers.
-- What C++ leaves undefined throws `undefined`. An object of a user's class is a number that stands
-- for its pointer. A queue's iterator is the queue split in two. Where an object is shared, as a
-- package is by its command, the record that holds it is the only copy, and each call that changes it
-- returns it. The vectors of communicator ids and of time stamps have their back at the head of the
-- list.
--
-- Bounds. `run` takes the number of rounds of its endless loop. `receive_from` has fuel for the rounds
-- of its loop: the number of communicators is enough, as the loop's number grows in each round and the
-- vector does not. `unpack` has as much fuel as the bucket has bytes and `send_loop` as much as there are
-- bytes to send, since a round takes a byte at least. `collect_responses` waits for brokers, so that no
-- fuel is enough in general: it throws `undefined` without; the same holds
-- of `read_address`, which has fuel for the characters of a child, and of `write_character`, for its
-- tries. `hex_before` has sixteen digits for a size, `digits_before` ten for an int. The other loops are
-- structural recursion.
--
-- Not modelled: what the child of a command or of a launcher does, the set-up of sockets, threads and
-- locks, the other communicators, the main programs, the interpolation back ends, logging, printing,
-- serialisation and the Python bindings. The time of an evaluation is kept as read, where the code rounds
-- it to a double. Locks are not modelled: that a step is atomic stands for them.
pub mod Base
pub mod ResourceList
pub mod ResourceManager
pub mod Queue
pub mod ModelPackage
pub mod Command
pub mod StateDb
pub mod Scheduler
pub mod Monitor
pub mod Warehouse
pub mod CleanupPolicy
pub mod RoundRobin
pub mod LoadQuery
pub mod Broker
pub mod Tests
pub mod MpiCommand
pub mod Socket
pub mod AdaptiveSampling
pub mod Machinefile
pub mod LoadScheduler
pub mod PbsCommand
pub mod Launcher
pub mod PerformanceScheduler
pub mod SamplingFactory
