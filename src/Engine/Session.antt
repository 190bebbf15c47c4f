-- ===== src/Engine/Session.antt =====
-- src/engine/session.h and src/engine/session.cpp: Open and Close of the book's session, BackendError and the
-- test of a stale lock. What libgnucash, SQLite and kill(2) answer is given for each call.
pub mod Errors
pub mod Lock
pub mod Reopen
use daichod.Base.{
  ◌+◌, ◌-◌, ℕ, Bool, true, false, not, ◌&&◌, ◌||◌, Option, none, some, List, [], ◌∷◌, ◌++◌,
  if◌then◌else◌,
}
use daichod.Base.Text.{Bytes, str, empty, bytes_eq, starts_with}
use daichod.Exec.{Result, ok, err, aborted, Exec}
use daichod.Rpc.Error.{
  Exception, ShimError, shim, book_locked, read_only_book, engine_error, invalid_argument,
  book_not_open,
}
use daichod.Uri.{has_supported_scheme, sqlite3_path, sqlite3_prefix}

-- QofBackendError, as far as it is told apart; `other_error` has its number as text.
pub data BackendError : Type 0 where
  no_err locked readonly perm : BackendError
  other_error : BackendError

-- A backend's error and its message, empty if it has none; `code_text` is the error's number.
pub record Answer : Type 0 where
  pub error : BackendError
  pub message : Bytes
  pub code_text : Bytes

-- BackendError, the function.
unfoldable pub backend_error : Answer → Bytes → ShimError
backend_error a uri =
    let message = if empty a.message then str "backend error " ++ a.code_text else a.message in
    elim a.error [
      | locked ↦ record { code = book_locked; engine_message = message; context = uri }
      | readonly ↦ record { code = read_only_book; engine_message = message; context = uri }
      | perm ↦ record { code = read_only_book; engine_message = message; context = uri }
      | no_err ↦ record { code = engine_error; engine_message = message; context = uri }
      | other_error ↦ record { code = engine_error; engine_message = message; context = uri }
    ]

-- A row of gnclock, with what kill(2) says of its process.
pub record LockRow : Type 0 where
  pub row_host : Option Bytes
  pub is_dead : Bool

-- How the read of gnclock goes: the file or its table cannot be opened, or some rows are read, and then
-- the read ends or fails.
pub data LockTable : Type 0 where
  unreadable : LockTable
  rows_then : List LockRow → Bool → LockTable

abbrev pub same_host : Bytes → Option Bytes → Bool
same_host this_host none = false
same_host this_host (some host) = bytes_eq host this_host

-- The loop of GncLockIsProvablyStale; the flag says whether the read ends well.
unfoldable pub all_stale : Bytes → List LockRow → Bool → Bool
all_stale this_host [] ends_well = ends_well
all_stale this_host (row ∷ rows) ends_well =
    same_host this_host row.row_host && row.is_dead && all_stale this_host rows ends_well

-- GncLockIsProvablyStale
unfoldable pub gnc_lock_is_provably_stale : Bytes → Bytes → LockTable → Bool
gnc_lock_is_provably_stale this_host book_uri table =
    if empty (sqlite3_path book_uri) then false else elim table [
      | unreadable ↦ false
      | rows_then rows ends_well ↦ all_stale this_host rows ends_well
    ]

-- The members of Session: `session` is whether session_ is not null. With them what the engine keeps: how many session
-- objects were made and not destroyed, and whether this process holds the book's engine lock.
pub record Session : Type 0 where
  pub book_uri : Bytes
  pub read_only : Bool
  pub session : Bool
  pub open_flag : Bool
  pub live_sessions : ℕ
  pub holds_lock : Bool

-- The constructor of Session, on its configuration.
abbrev pub constructed : Bytes → Bool → Session
constructed uri read_only = record {
  book_uri = uri;
  read_only = read_only;
  session = false;
  open_flag = false;
  live_sessions = 0;
  holds_lock = false;
}

-- What the engine answers during an Open, and the rows of its lock table.
pub record Answers : Type 0 where
  pub this_host : Bytes
  pub begin : Answer
  pub lock_table : LockTable
  pub break_lock : Answer
  pub load : Answer

abbrev pub is_locked : BackendError → Bool
is_locked locked = true
is_locked _ = false

abbrev pub is_no_err : BackendError → Bool
is_no_err no_err = true
is_no_err _ = false

-- Is a lock that is reported broken?
abbrev pub breaks_lock : Session → Answers → Bool
breaks_lock s a =
    is_locked a.begin.error
    && not s.read_only
    && (not (starts_with sqlite3_prefix s.book_uri)
        || gnc_lock_is_provably_stale a.this_host s.book_uri a.lock_table)

-- The engine's calls, as far as they touch what it keeps. A begin that succeeds takes the lock, unless its mode is
-- SESSION_READ_ONLY; an end lets go of it.
abbrev pub qof_session_new : Session → Session
qof_session_new s = record s { live_sessions = s.live_sessions + 1 }

abbrev pub qof_session_begin : Answer → Session → Session
qof_session_begin a s = record s {
  holds_lock = s.holds_lock || is_no_err a.error && not s.read_only;
}

abbrev pub qof_session_end : Session → Session
qof_session_end s = record s { holds_lock = false }

abbrev pub qof_session_destroy : Session → Session
qof_session_destroy s = record s { live_sessions = s.live_sessions - 1 }

-- The end of Open, once the session is begun: a failed load ends and destroys it.
abbrev pub load_book : Answer → Exec Session (Unit {0})
load_book load s =
    if is_no_err load.error
    then (ok tt, record s { session = true; open_flag = true })
    else (err (shim (backend_error load s.book_uri)), qof_session_destroy (qof_session_end s))

-- The rest of Open, with the answer of the last qof_session_begin; a session that did not begin is destroyed.
abbrev pub open_with : Answer → Answer → Exec Session (Unit {0})
open_with begun load s =
    if is_no_err begun.error
    then load_book load s
    else (err (shim (backend_error begun s.book_uri)), qof_session_destroy s)

-- A lock that is reported, and found stale, is broken by another begin of the same session object.
abbrev pub begin_session : Answers → Exec Session (Unit {0})
begin_session a s =
    if breaks_lock s a
    then open_with a.break_lock a.load (qof_session_begin a.break_lock s)
    else open_with a.begin a.load s

-- Session::Open
unfoldable pub open_session : Answers → Exec Session (Unit {0})
open_session a s =
    if s.session
    then (ok tt, s)
    else if not (has_supported_scheme s.book_uri)
    then (
      err (
          shim (record {
            code = invalid_argument;
            engine_message =
                str
                  "unsupported book URI scheme; only sqlite3:// and postgres:// books are crash-safe";
            context = s.book_uri;
          })),
      s,
    )
    else begin_session a (qof_session_begin a.begin (qof_session_new s))

-- FailPointMaybe of src/util/fail_point.h, where DAICHOD_FAIL_AT is `target`: what it throws.
unfoldable pub fail_point_maybe : Option Bytes → Bytes → Option Exception
fail_point_maybe none name = none
fail_point_maybe (some target) name =
    if bytes_eq target name
    then some (
        shim (record {
          code = engine_error;
          engine_message = str "injected failure at fail point";
          context = name;
        }))
    else none

-- The save of Close: the fail point throws, or the engine answers.
abbrev pub save_result : Option Exception → Answer → Session → Result (Unit {0})
save_result (some e) save s = if s.read_only then ok tt else err e
save_result none save s =
    if s.read_only
    then ok tt
    else if is_no_err save.error
    then ok tt
    else err (shim (backend_error save s.book_uri))

-- Session::Close: what the save threw is thrown after the session is torn down.
unfoldable pub close_session : Option Exception → Answer → Exec Session (Unit {0})
close_session fail_point save s =
    if s.session
    then (
      save_result fail_point save s,
      record (qof_session_destroy (qof_session_end (record s { open_flag = false }))) {
        session = false;
      },
    )
    else (ok tt, s)

-- The destructor of Session: what a last close throws is logged and swallowed.
unfoldable pub destroy_session : Option Exception → Answer → Session → Session
destroy_session fail_point save s = (close_session fail_point save s).1

-- Session::book: what it throws when no book is open.
unfoldable pub book : Session → Option ShimError
book s =
    if s.session
    then none
    else some
        (record { code = book_not_open; engine_message = str "no book is open"; context = [] })

-- A sequence of calls of a session, whatever each answers.
pub data Call : Type 0 where
  opens : Answers → Call
  closes : Option Exception → Answer → Call

unfoldable pub play : List Call → Session → Session
play [] s = s
play (opens a ∷ calls) s = play calls (open_session a s).1
play (closes f save ∷ calls) s = play calls (close_session f save s).1
