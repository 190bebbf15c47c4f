-- ===== src/Tests/Startup.antt =====
-- The options and the locks of a daemon, at concrete inputs.
use daichod.Base.{◌↔◌, some, inr, arith, ◌≢◌, ◌≡◌, refl, true, false, [], ◌∷◌, ◌++◌}
use daichod.Base.Int.{pos}
use daichod.Base.Text.{Bytes, str, empty}
use daichod.Uri.{sqlite3_path}
use daichod.Base.Text.{starts_with, drop}
use daichod.Startup.FailLine.{Plain, fail_line, read_failure, read_failure-fail_line}
use daichod.Startup.{Failure, Options, check_options, book_path, is_absolute, book_lock_path}
use daichod.Startup.Checked.{check_options-inr}
use daichod.Startup.Lock.{credentials_share_lock, directories_split_lock}
use daichod.Uri.Credentials.{with_scheme}

-- A file-backed book whose journal is left out.
abbrev on_file : Options
on_file = record {
  book_uri = str "sqlite3://b";
  socket_path = b'/' ∷ b's' ∷ [];
  journal_path = [];
  backup_dir = b'k' ∷ [];
  backup_keep_days = pos 14;
  read_only = false;
  queue_depth = 256;
}

abbrev filled_in : Options
filled_in = record on_file { journal_path = book_path on_file ++ str ".daichod-journal" }

filled_in_lem : check_options on_file ≡ inr filled_in
unfolding check_options str empty sqlite3_path starts_with drop
filled_in_lem = refl

check_options-inr_example :
    (empty filled_in.book_uri ≡ false)
    × (is_absolute filled_in.socket_path ≡ true)
    × (empty filled_in.journal_path ≡ false)
    × (empty filled_in.backup_dir ≡ false → empty (book_path filled_in) ≡ false)
    × (empty on_file.journal_path ≡ false → filled_in ≡ on_file)
    × (record filled_in { journal_path = on_file.journal_path } ≡ on_file)
check_options-inr_example = check_options-inr on_file filled_in filled_in_lem

abbrev scheme : Bytes
scheme = b'p' ∷ []

abbrev host : Bytes
host = b'h' ∷ b'/' ∷ b'd' ∷ []

abbrev mine : Bytes
mine = b'm' ∷ []

abbrev yours : Bytes
yours = b'y' ∷ b':' ∷ []

-- A book in a database, with its journal in a directory of one letter.
abbrev on_database : Bytes → Bytes → Options
on_database credentials journal = record {
  book_uri = with_scheme scheme (credentials ++ b'@' ∷ host);
  socket_path = b'/' ∷ b's' ∷ [];
  journal_path = journal;
  backup_dir = [];
  backup_keep_days = pos 14;
  read_only = false;
  queue_depth = 256;
}

-- The first byte of a path stands for its directory.
abbrev directory : Bytes → Bytes
directory [] = []
directory (c ∷ s) = c ∷ []

-- A path as operator/ joins it, of a directory that ends in a name.
abbrev joined : Bytes → Bytes → Bytes
joined d f = d ++ b'/' ∷ f

mine_has_no_path : empty (book_path (on_database mine (b'j' ∷ []))) ≡ true
unfolding sqlite3_path str starts_with empty with_scheme
mine_has_no_path = refl

yours_has_no_path : empty (book_path (on_database yours (b'j' ∷ b'k' ∷ []))) ≡ true
unfolding sqlite3_path str starts_with empty with_scheme
yours_has_no_path = refl

elsewhere_has_no_path : empty (book_path (on_database mine (b'k' ∷ []))) ≡ true
unfolding sqlite3_path str starts_with empty with_scheme
elsewhere_has_no_path = refl

credentials_share_lock_example :
    book_lock_path directory joined (λ s. s) (on_database mine (b'j' ∷ []))
    ≡ book_lock_path directory joined (λ s. s) (on_database yours (b'j' ∷ b'k' ∷ []))
credentials_share_lock_example =
    credentials_share_lock directory joined (λ s. s) (on_database mine (b'j' ∷ []))
      (on_database yours (b'j' ∷ b'k' ∷ [])) scheme mine yours host refl refl (refl, tt)
      ((refl, tt), (refl, tt)) ((refl, (refl, tt)), (refl, (refl, tt))) mine_has_no_path
      yours_has_no_path refl

directories_split_lock_example :
    book_lock_path directory joined (λ s. s) (on_database mine (b'j' ∷ []))
    ≢ book_lock_path directory joined (λ s. s) (on_database mine (b'k' ∷ []))
directories_split_lock_example =
    directories_split_lock directory joined (λ s. s) (on_database mine (b'j' ∷ []))
      (on_database mine (b'k' ∷ [])) (λ d f h k. refl) mine_has_no_path elsewhere_has_no_path refl
      refl refl (λ e. ground arith)

-- What SQLite says of a statement that it cannot parse has quotes.
abbrev quoted : Failure
quoted = record { reason = str "journal_open_failed"; detail = str "near \"x\": syntax error" }

read_failure-fail_line_example :
    (read_failure (fail_line quoted) ≡ some quoted) ↔ (Plain quoted.reason × Plain quoted.detail)
read_failure-fail_line_example = read_failure-fail_line quoted
