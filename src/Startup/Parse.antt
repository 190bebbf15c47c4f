-- ===== src/Startup/Parse.antt =====
-- src/main.cpp: the loop of ParseOptions over what getopt_long returns.
use daichod.Base.{ℕ, true, false, Option, none, some, List, [], ◌∷◌, ◌⊎◌, inl, inr}
use daichod.Base.Int.{ℤ, pos}
use daichod.Base.Text.{Bytes, str}
use daichod.Startup.{Options, Failure, check_options}

-- An option that getopt_long has found, with its argument; `unknown` is any other answer of it.
pub data Flag : Type 0 where
  book_uri socket journal backup_dir backup_keep_days queue_depth : Bytes → Flag
  read_only version unknown : Flag

-- How ParseOptions ends: with the options, with Fail, with std::exit(0), or by an exception that nothing catches.
pub data Parsed : Type 0 where
  parsed : Options → Parsed
  refused : Failure → Parsed
  version_shown terminated : Parsed

abbrev pub no_options : Options
no_options = record {
  book_uri = [];
  socket_path = [];
  journal_path = [];
  backup_dir = [];
  backup_keep_days = pos 14;
  read_only = false;
  queue_depth = 256;
}

abbrev with_number : {N : Type 0} → Option N → (N → Parsed) → Parsed
with_number none f = terminated
with_number (some n) f = f n

abbrev checked : Failure ⊎ Options → Parsed
checked (inl f) = refused f
checked (inr o) = parsed o

-- `stoi` and `stoul` are the standard library's, which throw on a text that is no number.
module _ (stoi : Bytes → Option ℤ) (stoul : Bytes → Option ℕ) where
  unfoldable pub parse_options : List Flag → Options → Parsed
  parse_options [] o = checked (check_options o)
  parse_options (book_uri s ∷ fs) o = parse_options fs (record o { book_uri = s })
  parse_options (socket s ∷ fs) o = parse_options fs (record o { socket_path = s })
  parse_options (journal s ∷ fs) o = parse_options fs (record o { journal_path = s })
  parse_options (backup_dir s ∷ fs) o = parse_options fs (record o { backup_dir = s })
  parse_options (backup_keep_days s ∷ fs) o =
      with_number (stoi s) (λ n. parse_options fs (record o { backup_keep_days = n }))
  parse_options (read_only ∷ fs) o = parse_options fs (record o { read_only = true })
  parse_options (queue_depth s ∷ fs) o =
      with_number (stoul s) (λ n. parse_options fs (record o { queue_depth = n }))
  parse_options (version ∷ fs) o = version_shown
  parse_options (unknown ∷ fs) o = refused (record {
    reason = str "usage";
    detail =
        str
          "daichod --book-uri <sqlite3://...> --socket </abs/path.sock> [--read-only] [--queue-depth N]";
  })
