-- ===== src/Tests/Sessions.antt =====
-- A session on a file whose last writer died, and the journal on a SQLite that fails.
use daichod.Base.{◌⊎◌, ◌↔◌, true, false, ◌≡◌, refl, none, some, [], ◌∷◌}
use daichod.Base.Text.{empty, drop, Bytes, str, starts_with}
use daichod.Exec.{ok}
use daichod.Journal.Opening
use daichod.Journal.Opening.{Sqlite, statements, open_journal}
use daichod.Journal.Opening.Handles.{opens_well, HaveRun, Threw, open_journal-Handles}
use daichod.Engine.Session.Errors.{ShowsIfThrown, session_errors-Shows}
use daichod.Uri.{sqlite3_path, sqlite3_prefix, has_supported_scheme}
use daichod.Engine.Session.{
  constructed, Session, Answer, Answers, BackendError, no_err, locked, other_error, rows_then,
  opens, closes, play, open_session, close_session, book,
}
use daichod.Engine.Session.Lock.{AllDead, open_session-locked}
use daichod.Engine.Session.Reopen.{IsConsistent, play-IsConsistent, open_session-close_session}

abbrev pub answer : BackendError → Answer
answer e = record { error = e; message = []; code_text = [] }

abbrev pub host : Bytes
host = b'h' ∷ []

-- The lock is one that a dead process of this host left.
abbrev pub after_crash : Answers
after_crash = record {
  this_host = host;
  begin = answer locked;
  lock_table = rows_then (record { row_host = some host; is_dead = true } ∷ []) true;
  break_lock = answer no_err;
  load = answer no_err;
}

abbrev pub calm_open : Answers
calm_open = record after_crash { begin = answer no_err }

abbrev failed_load : Answers
failed_load = record calm_open { load = answer other_error }

abbrev closed : Session
closed = record {
  book_uri = str "sqlite3://b";
  read_only = false;
  session = false;
  open_flag = false;
  live_sessions = 0;
  holds_lock = false;
}

closed-IsConsistent : IsConsistent closed
closed-IsConsistent = record { flag_agrees = refl; lock_agrees = refl; one_object = refl }

play-IsConsistent_example :
    IsConsistent
      (play (opens after_crash ∷ closes none (answer other_error) ∷ opens failed_load ∷ []) closed)
play-IsConsistent_example =
    play-IsConsistent
      (opens after_crash ∷ closes none (answer other_error) ∷ opens failed_load ∷ []) closed
      closed-IsConsistent

abbrev opened : Session
opened = record closed { session = true; open_flag = true; live_sessions = 1; holds_lock = true }

opened-scheme : has_supported_scheme opened.book_uri ≡ true
unfolding has_supported_scheme str starts_with
opened-scheme = refl

open_session-close_session_example :
    let closed =
      (close_session none
        (answer other_error)
        (play (opens after_crash ∷ []) (constructed (str "sqlite3://b") false))).1 in
    let again = open_session calm_open closed in
    (closed ≡ constructed (str "sqlite3://b") false)
    × (again.0 ≡ ok tt)
    × (book again.1 ≡ none)
    × (again.1.holds_lock ≡ true)
    × (again.1.live_sessions ≡ 1)
open_session-close_session_example =
    open_session-close_session (str "sqlite3://b") false (opens after_crash ∷ []) none
      (answer other_error) calm_open opened-scheme refl refl

closed-sqlite3 : starts_with sqlite3_prefix closed.book_uri ≡ true
unfolding str starts_with
closed-sqlite3 = refl

closed-scheme : has_supported_scheme closed.book_uri ≡ true
unfolding has_supported_scheme str starts_with
closed-scheme = refl

closed-path : empty (sqlite3_path closed.book_uri) ≡ false
unfolding sqlite3_path drop str starts_with empty
closed-path = refl

open_session-locked_example :
    ((open_session after_crash closed).0 ≡ ok tt)
    ↔ ((closed.read_only ≡ false) × AllDead host after_crash.lock_table)
open_session-locked_example =
    open_session-locked closed after_crash refl closed-scheme closed-sqlite3 closed-path refl refl
      refl

-- A book on a server, whose URI holds a password.
abbrev remote : Session
remote = record closed { book_uri = str "postgres://me:pw@h/db" }

session_errors-Shows_example :
    ShowsIfThrown remote.book_uri
      (open_session (record after_crash { begin = answer other_error }) remote).0
    × ShowsIfThrown remote.book_uri (close_session none (answer other_error) remote).0
session_errors-Shows_example =
    session_errors-Shows (record after_crash { begin = answer other_error }) (answer other_error)
      remote

abbrev nothing_open : Sqlite
nothing_open = record { handles = 0; executed = []; faults = none ∷ some none ∷ [] }

open_journal-Handles_example :
    ((opens_well Opening.opened nothing_open ≡ true)
      × HaveRun statements 1 [] (open_journal Opening.opened (str "j") nothing_open))
    ⊎ ((opens_well Opening.opened nothing_open ≡ false)
        × Threw 0 (open_journal Opening.opened (str "j") nothing_open))
open_journal-Handles_example = open_journal-Handles Opening.opened (str "j") nothing_open
