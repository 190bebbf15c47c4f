-- ===== src/Journal/Opening.antt =====
-- Journal::Open and the destructor of Journal (src/journal/journal.cpp): the handle of SQLite, and the statements that make
-- the journal durable and give it its tables. What SQLite answers is given for each call.
pub mod Handles
use daichod.Base.{ℕ, ◌+◌, ◌-◌, ◌==◌, if◌then◌else◌, Option, none, some, List, [], ◌∷◌, ◌++◌}
use daichod.Base.Text.{Bytes, str}
use daichod.Exec.{Result, ok, err, aborted, Exec, continue, ◌>>◌, pure}
use daichod.Journal.{journal_error}

-- What sqlite3_open_v2 gives: a database, or a handle that has the error's message, or no handle at all.
pub data Database : Type 0 where
  opened unallocated : Database
  refused : Bytes → Database

-- The handles that are open, the statements that have run well, and what sqlite3_exec will answer: no error, or one with its
-- message, which may be missing.
pub record Sqlite : Type 0 where
  pub handles : ℕ
  pub executed : List Bytes
  pub faults : List (Option (Option Bytes))

-- The statements of Open, in order; a table's columns are those of Intent and of Applied.
abbrev pub statements : List Bytes
statements =
    str "PRAGMA journal_mode=WAL"
    ∷ str "PRAGMA synchronous=FULL"
    ∷ str "PRAGMA foreign_keys=ON"
    ∷ str
        "CREATE TABLE IF NOT EXISTS intents (  mutation_id TEXT PRIMARY KEY,  rpc_name TEXT NOT NULL,  payload BLOB NOT NULL,  payload_sha256 BLOB NOT NULL,  journaled_at_utc INTEGER NOT NULL,  pending_response BLOB)"
    ∷ str
        "CREATE TABLE IF NOT EXISTS applied (  mutation_id TEXT PRIMARY KEY    REFERENCES intents(mutation_id),  outcome BLOB NOT NULL,  applied_at_utc INTEGER NOT NULL)"
    ∷ []

abbrev pub message_or : Bytes → Option Bytes → Bytes
message_or missing none = missing
message_or missing (some m) = m

-- Exec
abbrev exec_with : List (Option (Option Bytes)) → Bytes → Exec Sqlite (Unit {0})
exec_with [] sql s = (ok tt, record s { executed = s.executed ++ sql ∷ [] })
exec_with (none ∷ fs) sql s = (ok tt, record s { executed = s.executed ++ sql ∷ []; faults = fs })
exec_with (some message ∷ fs) sql s = (
  err (journal_error (message_or (str "unknown sqlite error") message) sql),
  record s { faults = fs },
)

unfoldable pub exec : Bytes → Exec Sqlite (Unit {0})
exec sql s = exec_with s.faults sql s

unfoldable pub exec_all : List Bytes → Exec Sqlite (Unit {0})
exec_all [] = pure tt
exec_all (sql ∷ rest) = exec sql >> exec_all rest

-- The destructor of Journal: sqlite3_close.
unfoldable pub close_journal : Sqlite → Sqlite
close_journal s = record s { handles = s.handles - 1 }

-- The `unique_ptr` that holds the journal while it is set up closes it if a statement throws.
abbrev pub or_close : Result (Unit {0}) × Sqlite → Result (Unit {0}) × Sqlite
or_close (ok u, s) = (ok u, s)
or_close (err x, s) = (err x, close_journal s)
or_close (aborted, s) = (aborted, s)

abbrev pub allocated : Sqlite → Sqlite
allocated s = record s { handles = s.handles + 1 }

-- Journal::Open
unfoldable pub open_journal : Database → Bytes → Exec Sqlite (Unit {0})
open_journal opened path s = or_close (exec_all statements (allocated s))
open_journal (refused message) path s =
    (err (journal_error message path), close_journal (allocated s))
open_journal unallocated path s =
    (err (journal_error (str "cannot allocate sqlite handle") path), s)
