-- ===== src/Backup.antt =====
-- src/util/backup.cpp: the daily snapshot of the book and of the journal, over the entries of the backup directory.
pub mod After
pub mod Atomic
pub mod Copies
pub mod Retention
use daichod.Base.{
  ◌||◌, ℕ, Bool, true, false, not, ◌&&◌, ◌==◌, ◌-◌, ◌^◌, Option, none, some, List, [], ◌∷◌, ◌++◌,
  map, keep, any, first, length, ltb, if◌then◌else◌,
}
use daichod.Base.Int.{ℤ, pos, negsuc}
use daichod.Base.Text.{Bytes, str, bytes_eq, bytes_lt}
use daichod.Exec.{Result, ok, err, aborted, Exec, pure, throw, continue, ◌>>=◌, ◌>>◌}
use daichod.Rpc.Error.{shim, other, engine_error}

pub record File : Type 0 where
  pub file_name : Bytes
  pub data_of : Bytes

-- An entry of the backup directory.
pub record Folder : Type 0 where
  pub name : Bytes
  pub is_directory : Bool
  pub contents : List File

-- The entries of the backup directory, the files outside it under their paths, and how the next calls fail: with what() of
-- the filesystem_error, or not at all. Once the list is used up no call fails. `blind` says of the next calls of
-- fs::exists(path, ec) whether they fail; once it is used up none does.
pub record Disk : Type 0 where
  pub folders : List Folder
  pub files : List File
  pub faults : List (Option Bytes)
  pub blind : List Bool

abbrev pub is_named : Bytes → Folder → Bool
is_named n f = bytes_eq f.name n

abbrev pub has_folder : Bytes → Disk → Bool
has_folder n d = any (is_named n) d.folders

abbrev pub without : Bytes → List Folder → List Folder
without n fs = keep (λ f. not (is_named n f)) fs

-- A call that throws filesystem_error if it fails, and a call with a std::error_code, which is not read.
abbrev pub after_fault : Option Bytes → Exec Disk (Unit {0}) → Exec Disk (Unit {0})
after_fault none m = m
after_fault (some what) m = throw (other what)

unfoldable pub call : Exec Disk (Unit {0}) → Exec Disk (Unit {0})
call m d = elim d.faults [ [] ↦ m d | f ∷ fs ↦ after_fault f m (record d { faults = fs }) ]

abbrev pub unless_fault : Option Bytes → (Disk → Disk) → Disk → Disk
unless_fault none f d = f d
unless_fault (some what) f d = d

unfoldable pub quietly : (Disk → Disk) → Disk → Disk
quietly f d = elim d.faults [ [] ↦ f d | x ∷ xs ↦ unless_fault x f (record d { faults = xs }) ]

-- fs::exists(path, ec): its error, which is not read, makes it false.
abbrev pub seen_by : {X : Type 0} → X → X → List Bool → Disk → X × Disk
seen_by found missing [] d = (found, d)
seen_by found missing (fails ∷ rest) d =
    (if fails then missing else found, record d { blind = rest })

unfoldable pub exists : {X : Type 0} → X → X → Disk → X × Disk
exists found missing d = seen_by found missing d.blind d

-- fs::remove_all(root / n, ec)
abbrev pub remove_all : Bytes → Disk → Disk
remove_all n = quietly (λ d. record d { folders = without n d.folders })

-- fs::create_directories(root / n), which leaves a directory as it is and throws on anything else of that name.
abbrev pub is_obstacle : Bytes → Folder → Bool
is_obstacle n f = is_named n f && not f.is_directory

abbrev pub create_directories : Bytes → Exec Disk (Unit {0})
create_directories n = call (λ d.
    if any (is_obstacle n) d.folders then (err (other (str "Not a directory")), d) else (
      ok tt,
      if has_folder n d then d else record d {
        folders = d.folders ++ record { name = n; is_directory = true; contents = [] } ∷ [];
      },
    ))

-- A file is put into a folder.
abbrev pub put_into : Bytes → File → List Folder → List Folder
put_into n f fs =
    map
      (λ folder.
        if is_named n folder
        then record folder { contents = folder.contents ++ f ∷ [] }
        else folder)
      fs

abbrev pub has_file : Bytes → Folder → Bool
has_file n folder = any (λ f. bytes_eq f.file_name n) folder.contents

-- fs::copy_file(source, root / n / f.file_name), which does not overwrite.
abbrev pub copy_file : Bytes → File → Exec Disk (Unit {0})
copy_file n f = call (λ d.
    if any (λ folder. is_named n folder && has_file f.file_name folder) d.folders
    then (err (other (str "File exists")), d)
    else (ok tt, record d { folders = put_into n f d.folders }))

-- fs::rename(root / n, root / m) of a directory: an empty directory m is replaced, and anything else of that name is in
-- the way.
abbrev pub renamed : Bytes → Bytes → List Folder → List Folder
renamed n m fs = map (λ folder. if is_named n folder then record folder { name = m } else folder) fs

abbrev pub is_in_the_way : Bytes → Folder → Bool
is_in_the_way m f = is_named m f && (not f.is_directory || ltb 0 (length f.contents))

abbrev pub rename : Bytes → Bytes → Exec Disk (Unit {0})
rename n m = call (λ d.
    if any (is_in_the_way m) d.folders
    then (err (other (str "Directory not empty")), d)
    else (ok tt, record d { folders = renamed n m (without m d.folders) }))

abbrev pub suffixes : List Bytes
suffixes = [] ∷ str "-wal" ∷ str "-shm" ∷ str "-journal" ∷ []

-- LooksLikeStamp
unfoldable pub looks_like_stamp : Bytes → Bool
looks_like_stamp (a ∷ b ∷ c ∷ d ∷ e ∷ f ∷ g ∷ h ∷ i ∷ j ∷ []) = e == b'-' && h == b'-'
looks_like_stamp _ = false

-- std::sort on paths of one directory.
unfoldable pub insert_stamp : Bytes → List Bytes → List Bytes
insert_stamp s [] = s ∷ []
insert_stamp s (t ∷ ts) = if bytes_lt t s then t ∷ insert_stamp s ts else s ∷ t ∷ ts

unfoldable pub sort_stamps : List Bytes → List Bytes
sort_stamps [] = []
sort_stamps (s ∷ ss) = insert_stamp s (sort_stamps ss)

-- The stamps that the iteration over the directory collects.
abbrev pub is_stamp : Folder → Bool
is_stamp f = f.is_directory && looks_like_stamp f.name

abbrev pub stamps_of : List Folder → List Bytes
stamps_of fs = map (λ f. f.name) (keep is_stamp fs)

-- The loop that removes the oldest: its list is `stamps`.
unfoldable pub prune : ℕ → List Bytes → Disk → Disk
prune limit [] d = d
prune limit (s ∷ ss) d =
    let rest = prune limit ss (remove_all s d) in if ltb limit (length (s ∷ ss)) then rest else d

-- static_cast<size_t> of an int
unfoldable pub size_of : ℤ → ℕ
size_of (pos n) = n
size_of (negsuc n) = 2 ^ 64 - 1 - n

-- `filename` is fs::path::filename.
module _ (filename : Bytes → Bytes) where
  abbrev pub find_file : Bytes → Disk → Option File
  find_file path d = first (λ f. bytes_eq f.file_name path) d.files

  -- The file as it is copied, under its name without the directory.
  abbrev pub copy_of : File → File
  copy_of f = record f { file_name = filename f.file_name }

  abbrev pub copy_if : Bytes → Option File → Exec Disk (Unit {0})
  copy_if n none = pure tt
  copy_if n (some f) = copy_file n (copy_of f)

  -- CopyWithSidecars, from a suffix on.
  unfoldable pub copy_each : Bytes → Bytes → List Bytes → Exec Disk (Unit {0})
  copy_each path n [] d = (ok tt, d)
  copy_each path n (s ∷ ss) d =
      let seen = exists (find_file (path ++ s) d) none d in
      continue (copy_if n seen.0 seen.1) (λ _. copy_each path n ss)

  abbrev pub copy_with_sidecars : Bytes → Bytes → Exec Disk (Unit {0})
  copy_with_sidecars path n = copy_each path n suffixes

  -- The try block of SnapshotBeforeOpen.
  unfoldable pub assemble : Bytes → Bytes → Bytes → Bytes → Exec Disk (Unit {0})
  assemble book_path journal_path tmp today = do
    create_directories tmp
    copy_with_sidecars book_path tmp
    copy_with_sidecars journal_path tmp
    rename tmp today

  -- What follows the try block, its handler included.
  unfoldable pub pruned : Bytes → ℤ → Result (Unit {0}) × Disk → Result Bool × Disk
  pruned backup_dir keep_days (ok u, d) =
      (ok true, prune (size_of keep_days) (sort_stamps (stamps_of d.folders)) d)
  pruned backup_dir keep_days (err (other what), d) = (
    err (
        shim (record {
          code = engine_error;
          engine_message = str "backup snapshot failed: " ++ what;
          context = backup_dir;
        })),
    d,
  )
  pruned backup_dir keep_days (err e, d) = (err e, d)
  pruned backup_dir keep_days (aborted, d) = (aborted, d)

  -- SnapshotBeforeOpen, where TodayStamp is `stamp`; true if it took a snapshot.
  unfoldable pub snapshot_before_open : Bytes → Bytes → Bytes → Bytes → ℤ → Exec Disk Bool
  snapshot_before_open stamp book_path journal_path backup_dir keep_days d =
      let seen = exists (has_folder stamp d) false d in
      if seen.0
      then (ok false, seen.1)
      else pruned backup_dir keep_days (
          assemble book_path journal_path (stamp ++ str ".tmp") stamp
            (remove_all (stamp ++ str ".tmp") seen.1))
