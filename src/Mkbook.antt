-- ===== src/Mkbook.antt =====
-- src/tools/mkbook/mkbook.cpp: the program that creates an empty book and prints the GUID of its root account. What the engine
-- answers is given for each call.
pub mod Made
use daichod.Base.{
  arith, inl, inr, Bool-cases, ◌⊎◌, ◌≡◌, ◌+◌, ◌-◌, ℕ, Bool, true, false, List, [], ◌∷◌, ◌++◌,
  if◌then◌else◌,
}
use daichod.Base.Text.{Bytes, str}
use daichod.Engine.Session.{no_err, BackendError, Answer, is_no_err}

-- The process: is the engine initialised, how many of its sessions are there, does one hold the lock of the book, and the lines
-- on stdout and stderr.
pub record Process : Type 0 where
  pub engine_up : Bool
  pub live_sessions : ℕ
  pub holds_lock : Bool
  pub printed : List Bytes
  pub complained : List Bytes

-- The answers to qof_session_begin with SESSION_NEW_STORE and to qof_session_save, and the root account's GUID as text.
pub record Creation : Type 0 where
  pub begin : Answer
  pub save : Answer
  pub root_guid : Bytes

abbrev complain : Bytes → Process → ℕ × Process
complain line p = (1, record p { complained = p.complained ++ line ∷ [] })

-- Session::GlobalInit and qof_session_new
abbrev pub initialised : Process → Process
initialised p = record p { engine_up = true; live_sessions = p.live_sessions + 1 }

-- The end of main: the GUID, qof_session_end, qof_session_destroy and Session::GlobalShutdown.
abbrev finished : Creation → Process → ℕ × Process
finished c p = (
  0,
  record p {
    printed = p.printed ++ c.root_guid ∷ [];
    holds_lock = false;
    live_sessions = p.live_sessions - 1;
    engine_up = false;
  },
)

abbrev saved_book : Creation → Process → ℕ × Process
saved_book c p =
    if is_no_err c.save.error
    then finished c p
    else complain (str "save failed: " ++ c.save.message) p

abbrev pub begun_book : Creation → Process → ℕ × Process
begun_book c p =
    if is_no_err c.begin.error
    then saved_book c (record p { holds_lock = true })
    else complain (str "begin failed: " ++ c.begin.message) p

-- main, with its arguments.
unfoldable pub make_book : List Bytes → Creation → Process → ℕ × Process
make_book (program ∷ uri ∷ []) c p = begun_book c (initialised p)
make_book _ c p = complain (str "usage: daichod-mkbook <sqlite3:///abs/path>") p
