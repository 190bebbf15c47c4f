-- ===== src/Startup.antt =====
-- src/main.cpp: what ParseOptions checks and fills in once getopt_long is through, and the paths that
-- AcquireLocks locks. Fail is an error value; std::filesystem's paths and SHA-256 are parameters.
pub mod FailLine
pub mod Checked
pub mod Lock
pub mod Parse
pub mod Run
use daichod.Base.{
  ◌||◌, ◌==◌, ℕ, Bool, true, false, not, ◌&&◌, ◌≡◌, refl, ap, List, [], ◌∷◌, ◌++◌, if◌then◌else◌,
  arith, ◌⊎◌, inl, inr,
}
use daichod.Base.Int.{ℤ}
use daichod.Base.Text.{Bytes, str, empty, starts_with, take}
use daichod.Uri.{strip_credentials, sqlite3_path, hex_encode}

pub record Options : Type 0 where
  pub book_uri : Bytes
  pub socket_path : Bytes
  pub journal_path : Bytes
  pub backup_dir : Bytes
  pub backup_keep_days : ℤ
  pub read_only : Bool
  pub queue_depth : ℕ

-- What Fail prints before it ends the process.
pub record Failure : Type 0 where
  pub reason : Bytes
  pub detail : Bytes

abbrev usage : Bytes → Failure
usage detail = record { reason = str "usage"; detail = detail }

-- Options::book_path
abbrev pub book_path : Options → Bytes
book_path o = sqlite3_path o.book_uri

abbrev pub is_absolute : Bytes → Bool
is_absolute [] = false
is_absolute (c ∷ s) = c == b'/'

-- The journal's default.
abbrev default_journal : Options → Failure ⊎ Options
default_journal o =
    if not (empty o.journal_path)
    then inr o
    else if not (empty (book_path o))
    then inr (record o { journal_path = book_path o ++ str ".daichod-journal" })
    else inl (usage (str "--journal is required for non-sqlite3 books"))

abbrev check_backup : Options → Failure ⊎ Options
check_backup o =
    if not (empty o.backup_dir) && empty (book_path o)
    then inl (
        usage
          (str "--backup-dir requires a sqlite3 book; database backups are a deployment concern"))
    else inr o

-- ParseOptions, after its loop.
unfoldable pub check_options : Options → Failure ⊎ Options
check_options o =
    if empty o.book_uri || empty o.socket_path
    then inl (usage (str "--book-uri and --socket are required"))
    else if not (is_absolute o.socket_path)
    then inl (usage (str "--socket must be an absolute path"))
    else elim (default_journal o) [ inl f ↦ inl f | inr o' ↦ check_backup o' ]

module _ (parent_path : Bytes → Bytes) (join_paths : Bytes → Bytes → Bytes)
    (sha256 : Bytes → Bytes) where
  -- book_lock_path of AcquireLocks
  unfoldable pub book_lock_path : Options → Bytes
  book_lock_path o =
      if not (empty (book_path o))
      then book_path o ++ str ".daichod.lock"
      else join_paths (parent_path o.journal_path)
          (take 32 (hex_encode (sha256 (strip_credentials o.book_uri))) ++ str ".daichod.lock")

-- The lock of the socket, and its pid file.
unfoldable pub socket_locks : Options → List Bytes
socket_locks o = (o.socket_path ++ str ".lock") ∷ (o.socket_path ++ str ".pid") ∷ []
