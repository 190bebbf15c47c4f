-- ===== src/Startup/Run.antt =====
-- src/main.cpp: AcquireLocks, and Run up to the server's start and after its end.
pub mod Ready
pub mod Released
use daichod.Base.{ℕ, Bool, true, false, not, Option, none, some, List, [], ◌∷◌, ◌++◌, if◌then◌else◌}
use daichod.Base.Text.{Bytes, str, empty}
use daichod.Base.Codec.{Codec}
use daichod.Backup
use daichod.Backup.{snapshot_before_open}
use daichod.Engine.Checks.{run_startup_checks}
use daichod.Engine.Objects.{Objects}
use daichod.Engine.Session.{
  constructed, Session, Answer, Answers, open_session, close_session, destroy_session,
}
use daichod.Exec.{Result, ok, err, aborted}
use daichod.Journal
use daichod.Journal.{Outcome, PendingEntry, list_indeterminate}
use daichod.Journal.Opening.{Database, Sqlite, open_journal, close_journal}
use daichod.Journal.Recovery.{reconcile_pending_mutations}
use daichod.Rpc.Error.{Exception}
use daichod.Rpc.Handler.{require_book}
use daichod.Rpc.Plan.Types.{and_then}
use daichod.Startup.{Options, Failure, book_path, book_lock_path}

-- What open and flock answer for a lock file, and fopen for its pid file.
pub data LockAnswer : Type 0 where
  not_opened held_by_another no_pid_file taken : LockAnswer

-- How the process ends: by Fail, by an exception that nothing catches or std::abort, or with an exit code.
pub data Ending : Type 0 where
  failed : Failure → Ending
  terminated : Ending
  exits : ℕ → Ending

-- What Run works on: the backup directory, SQLite's handles, the journal's file, the session, and the engine's book.
pub record System (B : Type 0) : Type 0 where
  pub backups : Backup.Disk
  pub sqlite : Sqlite
  pub journal : Journal.Disk
  pub session : Session
  pub book : B

-- What the system and the engine answer.
pub record Surroundings (B : Type 0) : Type 0 where
  pub lock : Bytes → LockAnswer
  pub what : Exception → Bytes
  pub today : Bytes
  pub filename : Bytes → Bytes
  pub parent_path : Bytes → Bytes
  pub join_paths : Bytes → Bytes → Bytes
  pub sha256 : Bytes → Bytes
  pub database : Database
  pub answers : Answers
  pub loaded : B
  pub listens : Bool
  pub serve : System B → System B
  pub fail_point : Option Exception
  pub save : Answer

-- AcquireOneLock, on the lock's path, its pid file's path and the reason of a contention.
unfoldable pub acquire_one_lock : LockAnswer → Bytes → Bytes → Bytes → Option Failure
acquire_one_lock not_opened lock_path pid_path reason =
    some (record { reason = str "lock_open_failed"; detail = lock_path })
acquire_one_lock held_by_another lock_path pid_path reason =
    some (record { reason = reason; detail = str "another daichod holds " ++ lock_path })
acquire_one_lock no_pid_file lock_path pid_path reason =
    some (record { reason = str "pidfile_open_failed"; detail = pid_path })
acquire_one_lock taken lock_path pid_path reason = none

abbrev pub or_else : Option Failure → Option Failure → Option Failure
or_else none f = f
or_else (some f) g = some f

module _ {B G C A T S P : Type 0} (e : Objects B G C A T S P) (env : Surroundings B)
    (outcomes : Codec Outcome) (was_applied : B → PendingEntry → Option Bool)
    (now : PendingEntry → ℕ) (o : Options) where
  -- AcquireLocks
  unfoldable pub acquire_locks : Option Failure
  acquire_locks =
      let socket_lock = o.socket_path ++ str ".lock" in
      let book_lock = book_lock_path env.parent_path env.join_paths env.sha256 o in
      or_else
        (acquire_one_lock (env.lock socket_lock) socket_lock (o.socket_path ++ str ".pid")
          (str "already_running"))
        (acquire_one_lock (env.lock book_lock) book_lock (book_lock ++ str ".pid")
          (str "book_already_open"))

  -- `try { ... } catch (const std::exception& e) { Fail(reason, e.what()); }`, and what follows it.
  abbrev pub or_fail :
      {X : Type 0}
      → Bytes
      → Result X × System B
      → (X → System B → Option Ending × System B)
      → Option Ending × System B
  or_fail reason (ok x, s) k = k x s
  or_fail reason (err x, s) k = (some (failed (record { reason = reason; detail = env.what x })), s)
  or_fail reason (aborted, s) k = (some terminated, s)

  -- A call outside any try block.
  abbrev pub or_terminate :
      {X : Type 0}
      → Result X × System B
      → (X → System B → Option Ending × System B)
      → Option Ending × System B
  or_terminate (ok x, s) k = k x s
  or_terminate (err x, s) k = (some terminated, s)
  or_terminate (aborted, s) k = (some terminated, s)

  abbrev pub snapshot_if : Bool → System B → Result Bool × System B
  snapshot_if false s = (ok false, s)
  snapshot_if true s =
      let p =
        snapshot_before_open env.filename env.today (book_path o) o.journal_path o.backup_dir
          o.backup_keep_days s.backups in
      (p.0, record s { backups = p.1 })

  abbrev pub snapshot : System B → Result Bool × System B
  snapshot s = snapshot_if (not (empty o.backup_dir)) s

  -- journal = Journal::Open(options.journal_path)
  abbrev pub open_the_journal : System B → Result (Unit {0}) × System B
  open_the_journal s =
      let p = open_journal env.database o.journal_path s.sqlite in (p.0, record s { sqlite = p.1 })

  -- Session session(Config{...})
  abbrev pub new_session : Session
  new_session = constructed o.book_uri o.read_only

  -- session.Open(), after which the engine has its book.
  abbrev pub open_book : System B → Result (Unit {0}) × System B
  open_book s =
      let p = open_session env.answers new_session in
      (p.0, record s { session = p.1; book = env.loaded })

  -- ReconcilePendingMutations(journal.get(), session.book())
  abbrev pub reconcile_on : Result (Unit {0}) → System B → Result ℕ × System B
  reconcile_on (ok u) s =
      let p = reconcile_pending_mutations outcomes (was_applied s.book) now s.journal in
      (p.0, record s { journal = p.1 })
  reconcile_on (err x) s = (err x, s)
  reconcile_on aborted s = (aborted, s)

  abbrev pub reconcile : System B → Result ℕ × System B
  reconcile s = reconcile_on (require_book s.session s.book) s

  abbrev pub count_indeterminate : System B → Result (List Journal.IndeterminateEntry) × System B
  count_indeterminate s = let p = list_indeterminate s.journal in (p.0, record s { journal = p.1 })

  abbrev pub start_server : System B → Option Ending × System B
  start_server s =
      if env.listens
      then (none, s)
      else (some (failed (record { reason = str "listen_failed"; detail = o.socket_path })), s)

  -- Run from the locks on, until the server waits.
  abbrev pub boot_with : Option Failure → System B → Option Ending × System B
  boot_with (some f) s0 = (some (failed f), s0)
  boot_with none s0 = or_fail (str "backup_failed") (snapshot s0) (λ _ s1.
      or_fail (str "journal_open_failed") (open_the_journal s1) (λ _ s2.
        or_fail (str "book_open_failed") (open_book s2) (λ _ s3.
          or_fail (str "startup_check_failed") (run_startup_checks e s3.session s3.book, s3)
            (λ _ s4.
              or_fail (str "reconciliation_failed") (reconcile s4)
                (λ _ s5. or_terminate (count_indeterminate s5) (λ _ s6. start_server s6))))))

  -- Run, until the server waits.
  unfoldable pub boot : System B → Option Ending × System B
  boot s0 = boot_with acquire_locks s0

  -- The exit code of Run, by how the close went.
  abbrev pub exit_of : Result (Unit {0}) → Ending
  exit_of (ok u) = exits 0
  exit_of (err x) = exits 1
  exit_of aborted = terminated

  abbrev pub shut_down : System B → Ending × System B
  shut_down s =
      let p = close_session env.fail_point env.save s.session in
      (exit_of p.0, record s { session = p.1 })

  -- What is destroyed when Run returns: the journal, and then the session.
  abbrev pub leave : Ending × System B → Ending × System B
  leave (terminated, s) = (terminated, s)
  leave (ending, s) = (
    ending,
    record s {
      sqlite = close_journal s.sqlite;
      session = destroy_session env.fail_point env.save s.session;
    },
  )

  -- Fail leaves by std::exit, which destroys no local of Run.
  abbrev pub after_boot : Option Ending × System B → Ending × System B
  after_boot (some ending, s) = (ending, s)
  after_boot (none, s) = leave (shut_down (env.serve s))

  -- Run
  unfoldable pub run : System B → Ending × System B
  run s = after_boot (boot s)
