-- ===== src/Lib.antt =====
-- daichod: a daemon that serves one GnuCash book over gRPC. It owns the engine (libgnucash), which is not
-- thread-safe: every call of it runs on one engine thread, fed by a bounded queue. Every RPC that changes the
-- book carries a mutation id and runs through one protocol, whose journal (a SQLite file) makes a retry after
-- a crash safe: the intent is recorded, the response is recorded as pending inside the engine's edit, the edit
-- is committed, and the outcome is recorded. At startup the pending entries are settled by what the book shows.
--
-- Files, and the code that they are about:
--   Base, Base/*             lists, byte texts, integers, sorting, searching and rows with keys
--   Exec                     a task on a state: it returns, throws, or dies with the process
--   Rpc/Error                src/rpc/error.h, src/rpc/error.cpp: codes, details, statuses
--   Journal                  src/journal/journal.h, src/journal/journal.cpp, src/journal/internal.proto: the two
--                            tables, with a list of faults for the statements that SQLite fails; each method of
--                            Journal has the method's name in snake case
--   Journal/Phase            what the tables say of one id: the abstract state that each method refines
--   Journal/Opening          Journal::Open and its destructor, over the answers of SQLite's calls
--   Journal/Invariant        the keys and the reference that the schema declares
--   Journal/Recovery         src/journal/recovery.h, src/journal/recovery.cpp: ReconcilePendingMutations
--   Journal/Recovery/Verdict WasApplied and GuidExists, on an interface of the engine's lookups
--   World                    src/util/crash_point.h, and the book in memory beside what the backend holds
--   Rpc/Mutation             src/rpc/mutation.h, src/rpc/mutation.cpp: ValidateMutationId and RunMutation
--   Rpc/Mutation/History     requests, faults, deaths, restarts and recoveries as steps of the daemon;
--                            Rpc/Mutation/Refused is about a refusal in such a history
--   Rpc/Mutation/Staged      RunMutation over an apply() that keeps the contract of mutation.h
--   Rpc/QuerySplits          src/rpc/transaction_service.cpp: ClearedMaskFromStates and QuerySplits; its loop over the
--                            results of the engine's query stands apart from the inputs and the query's terms (Handler)
--   Rpc/Session              src/rpc/session_service.cpp, src/rpc/rpc_util.h: RunRpc and the handlers of the session
--   Rpc/Stagings             the handlers that change the book, against the contract of RunMutation
--   Rpc/Plan                 src/rpc/transaction_service.cpp: PlanTransaction
--   Proto                    proto/shim.proto: the messages
--   Engine/Objects           what the code asks of libgnucash: the objects of a book, the getters, the calls that change
--                            them; Engine/Laws says what libgnucash documents of them, as far as it is relied on
--   Engine/Map               src/engine/map.h, src/engine/map.cpp: types, states, dates and amounts
--   Engine/Convert           src/engine/map.cpp: the lookups by GUID and the conversions of objects to messages
--   Engine/Checks            Session::RunStartupChecks and BalanceServiceImpl::GetTrialBalance
--   Rpc/Handler              what the body of a handler is made of, and RunMutation over such a body
--   Rpc/Transactions         src/rpc/transaction_service.cpp: ApplyPlan and the handlers
--   Rpc/Accounts             src/rpc/account_service.h, src/rpc/account_service.cpp: CheckNoCycle and the handlers
--   Rpc/Commodities          src/rpc/commodity_service.h, src/rpc/commodity_service.cpp: the handlers
--   Backup                   src/util/backup.h, src/util/backup.cpp: SnapshotBeforeOpen on a directory's entries
--   Engine/Worker            src/engine/worker.h, src/engine/worker.cpp: the queue and its thread as a step relation
--   Engine/Session           src/engine/session.h, src/engine/session.cpp: Open, Close and the stale-lock test
--   Mkbook                   tools/mkbook/mkbook.cpp: the program that creates an empty book
--   Startup/FailLine         Fail of src/main.cpp, and its line read as JSON
--   Uri, Startup             src/main.cpp, src/engine/session.cpp, src/engine/map.cpp: the texts that name a book, the
--                            options and the paths of the locks; Startup/Run is Run, from the locks to the exit code
--   Tests                    concrete instances
--
-- How they interact: a handler calls run_mutation, a task for Engine/Worker; it writes Journal and edits the
-- book in World; restart keeps what the backend and the journal hold, and Journal/Recovery settles the rest.
--
-- State: a task is a function from a state to a result and a state. A C++ exception is `err`, std::abort is
-- `aborted`. The worker's threads interleave freely, one critical section at a time.
--
-- Bounds and fuel: texts are lists of bytes, and a cast to a narrower integer is written as a remainder. Loops follow
-- the list that they walk, but for CheckNoCycle, which climbs the parents: it runs on fuel, one for each round, and is
-- `aborted` when that is used up; it takes one round for each ancestor and one more. The client that follows page
-- tokens and the engine thread that empties its queue are given a number of rounds, and it is shown to be enough.
--
-- Chance: one Objects is the engine as one request meets it, with the time that gnc_time(nullptr) reads and the new
-- objects whose GUIDs are drawn. A retry after a restart meets another clock and draws other GUIDs (Chance and drawn of
-- Engine/Objects). Of the engine's session a begin takes the book's lock unless it is SESSION_READ_ONLY, and an end lets go
-- of it. A call of fs::exists with an error code may fail, by a list of its own beside the faults of the other calls.
-- The journal's timestamps are natural numbers, where the source has int64: nothing computes with them.
--
-- Not modelled: libgnucash, SQLite, protobuf, SHA-256, GLib's calendar, gRPC, the file system and the clock are
-- parameters. The engine's commit is taken to persist the edit that it commits, as a SQL backend documents, and a
-- message that is serialised is taken to parse to itself. getopt_long, the
-- signals, the gRPC server and the setting up of the engine (GlobalInit, GlobalShutdown) are not modelled: they are the
-- system's and the engine's own.
pub mod Backup
pub mod Base
pub mod Engine
pub mod Exec
pub mod Journal
pub mod Mkbook
pub mod Proto
pub mod Rpc
pub mod Startup
pub mod Tests
pub mod Uri
pub mod World
