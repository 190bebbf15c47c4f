-- ===== src/Journal/Opening/Handles.antt =====
-- What Journal::Open leaves, by what SQLite answers.
use mathlib.Core.List.{append_assoc, append-nil}
use daichod.Base.{
  ℕ, ◌≡◌, refl, ◌∙◌, ◌+◌, ◌++◌, arith, Bool, true, false, Bool-cases, inl, inr, Option, none, some,
  List, [], ◌∷◌, ◌⊎◌,
}
use daichod.Base.Text.{str, Bytes}
use daichod.Exec.{Result, ok, err, aborted}
use daichod.Journal.{journal_error}
use daichod.Journal.Opening.{
  Database, opened, unallocated, refused, Sqlite, statements, exec, exec_all, allocated,
  open_journal, or_close, close_journal, message_or,
}

-- None of the statements to come fails.
abbrev pub answers_well : List Bytes → List (Option (Option Bytes)) → Bool
answers_well sqls [] = true
answers_well [] fs = true
answers_well (sql ∷ rest) (none ∷ fs) = answers_well rest fs
answers_well (sql ∷ rest) (some m ∷ fs) = false

-- Does Open succeed?
abbrev pub opens_well : Database → Sqlite → Bool
opens_well opened s = answers_well statements s.faults
opens_well _ s = false

abbrev sqlite : ℕ → List Bytes → List (Option (Option Bytes)) → Sqlite
sqlite h x fs = record { handles = h; executed = x; faults = fs }

-- The statements have run, after those that had, and the handles are as they were.
abbrev pub HaveRun : List Bytes → ℕ → List Bytes → Result (Unit {0}) × Sqlite → Type 0
HaveRun sqls h x p = (p.0 ≡ ok tt) × (p.1.handles ≡ h) × (p.1.executed ≡ x ++ sqls)

-- The error of the journal was thrown, and the handles are as they were.
abbrev pub Threw : ℕ → Result (Unit {0}) × Sqlite → Type 0
Threw h p =
    (message : Bytes) × (context : Bytes) × (p.0 ≡ err (journal_error message context))
    × (p.1.handles ≡ h)

exec_all-HaveRun :
    (sqls : List Bytes) (h : ℕ) (x : List Bytes) (fs : List (Option (Option Bytes)))
    → answers_well sqls fs ≡ true
    → HaveRun sqls h x (exec_all sqls (sqlite h x fs))
unfolding exec_all exec
exec_all-HaveRun [] h x fs w = (refl, refl, simp append-nil)
exec_all-HaveRun (sql ∷ rest) h x [] w =
    let r = exec_all-HaveRun rest h (x ++ sql ∷ []) [] refl in (r.0, r.1, r.2 ∙ simp append_assoc)
exec_all-HaveRun (sql ∷ rest) h x (none ∷ fs) w =
    let r = exec_all-HaveRun rest h (x ++ sql ∷ []) fs w in (r.0, r.1, r.2 ∙ simp append_assoc)
exec_all-HaveRun (sql ∷ rest) h x (some m ∷ fs) w = ground (arith, w)

exec_all-Threw :
    (sqls : List Bytes) (h : ℕ) (x : List Bytes) (fs : List (Option (Option Bytes)))
    → answers_well sqls fs ≡ false
    → Threw h (exec_all sqls (sqlite h x fs))
unfolding exec_all exec
exec_all-Threw [] h x [] w = absurd (ground (arith, w))
exec_all-Threw [] h x (f ∷ fs) w = absurd (ground (arith, w))
exec_all-Threw (sql ∷ rest) h x [] w = absurd (ground (arith, w))
exec_all-Threw (sql ∷ rest) h x (none ∷ fs) w = exec_all-Threw rest h (x ++ sql ∷ []) fs w
exec_all-Threw (sql ∷ rest) h x (some m ∷ fs) w =
    (message_or (str "unknown sqlite error") m, sql, refl, refl)

closes : (h : ℕ) (p : Result (Unit {0}) × Sqlite) → Threw (h + 1) p → Threw h (or_close p)
unfolding close_journal
closes h (ok u, s) (message, context, e, handles) = absurd (ground (arith, e))
closes h (err x, s) (message, context, e, handles) = (message, context, e, ground (arith, handles))
closes h (aborted, s) (message, context, e, handles) = absurd (ground (arith, e))

stays_open :
    (sqls : List Bytes) (h : ℕ) (x : List Bytes) (p : Result (Unit {0}) × Sqlite)
    → HaveRun sqls h x p
    → HaveRun sqls h x (or_close p)
stays_open sqls h x (ok u, s) r = r
stays_open sqls h x (err y, s) r = absurd (ground (arith, r.0))
stays_open sqls h x (aborted, s) r = absurd (ground (arith, r.0))

-- Journal::Open returns exactly if SQLite opens the database and fails none of the statements; then one more handle is open and
-- the pragmas and the tables' definitions have run in their order. Otherwise it throws an error of the journal, and the handle
-- that it may have been given is closed.
pub open_journal-Handles :
    (d : Database) (path : Bytes) (s : Sqlite)
    → ((opens_well d s ≡ true)
        × HaveRun statements (s.handles + 1) s.executed (open_journal d path s))
      ⊎ ((opens_well d s ≡ false) × Threw s.handles (open_journal d path s))
unfolding open_journal close_journal
open_journal-Handles opened path s = elim (Bool-cases (answers_well statements s.faults)) [
  | inl well ↦ inl (
    well,
    stays_open statements (s.handles + 1) s.executed (exec_all statements (allocated s))
        (exec_all-HaveRun statements (s.handles + 1) s.executed s.faults well),
  )
  | inr bad ↦ inr (
    bad,
    closes s.handles (exec_all statements (allocated s))
        (exec_all-Threw statements (s.handles + 1) s.executed s.faults bad),
  )
]
open_journal-Handles (refused message) path s = inr (refl, (message, path, refl, omega arith))
open_journal-Handles unallocated path s =
    inr (refl, (str "cannot allocate sqlite handle", path, refl, refl))
