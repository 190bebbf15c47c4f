-- ===== src/Engine/Session/Lock.antt =====
-- The engine's own lock on a book: when Open breaks it.
use daichod.Base.{
  inr, inl, Bool-cases, ◌↔◌, ap, ◌≡◌, Bool, true, false, ◌&&◌, Option, none, some, List, [], ◌∷◌,
  All, arith,
}
use daichod.Base.Text.{empty, Bytes, bytes_eq_iff, starts_with}
use daichod.Exec.{ok}
use daichod.Uri.{has_supported_scheme, sqlite3_prefix}
use daichod.Engine.Session.{
  locked, sqlite3_path, same_host, Session, Answers, open_session, is_no_err, is_locked,
  breaks_lock, LockRow, LockTable, unreadable, rows_then, all_stale, gnc_lock_is_provably_stale,
  no_err,
}

same_host-lem :
    (this_host : Bytes) (o : Option Bytes) → same_host this_host o ≡ true → o ≡ some this_host
same_host-lem this_host none h = ground arith
same_host-lem this_host (some host) h = ap some ((bytes_eq_iff host this_host).0 h)

three_of : (a b c : Bool) → (a && b && c) ≡ true → (a ≡ true) × (b ≡ true) × (c ≡ true)
three_of a b c h = ground arith

-- The table was read to its end, and every row was written on this host by a process that is dead.
abbrev pub AllDead : Bytes → LockTable → Type 0
AllDead this_host unreadable = ⊥
AllDead this_host (rows_then rows ends_well) =
    All (λ r. (r.row_host ≡ some this_host) × (r.is_dead ≡ true)) rows × (ends_well ≡ true)

all_stale-All :
    (this_host : Bytes) (rows : List LockRow) (ends_well : Bool)
    → all_stale this_host rows ends_well ≡ true
    → All (λ r. (r.row_host ≡ some this_host) × (r.is_dead ≡ true)) rows × (ends_well ≡ true)
unfolding all_stale
all_stale-All this_host [] ends_well h = (tt, h)
all_stale-All this_host (r ∷ rows) ends_well h =
    let (here, dead, more) =
      three_of (same_host this_host r.row_host) r.is_dead (all_stale this_host rows ends_well) h in
    let (all, well) = all_stale-All this_host rows ends_well more in
    (((same_host-lem this_host r.row_host here, dead), all), well)

stale-AllDead :
    (this_host uri : Bytes) (table : LockTable)
    → gnc_lock_is_provably_stale this_host uri table ≡ true
    → AllDead this_host table
unfolding gnc_lock_is_provably_stale
stale-AllDead this_host uri unreadable h = absurd (ground arith)
stale-AllDead this_host uri (rows_then rows ends_well) h =
    all_stale-All this_host rows ends_well (ground arith)

-- Open breaks the engine's lock of a file-backed book only if the book is opened for writing, the lock table was read to
-- its end, and every row was written on this host by a process that is dead.
pub breaks_lock-AllDead :
    (s : Session) (a : Answers)
    → starts_with sqlite3_prefix s.book_uri ≡ true
    → breaks_lock s a ≡ true
    → (s.read_only ≡ false) × AllDead a.this_host a.lock_table
breaks_lock-AllDead s a h b =
    let facts : (s.read_only ≡ false)
        × (gnc_lock_is_provably_stale a.this_host s.book_uri a.lock_table ≡ true) =
      ground arith in
    (facts.0, stale-AllDead a.this_host s.book_uri a.lock_table facts.1)

dead_host :
    (this_host : Bytes) (o : Option Bytes) → o ≡ some this_host → same_host this_host o ≡ true
dead_host this_host none h = ground (arith, h)
dead_host this_host (some host) h = (bytes_eq_iff host this_host).1 (ground (arith, h))

All-all_stale :
    (this_host : Bytes) (rows : List LockRow) (ends_well : Bool)
    → All (λ r. (r.row_host ≡ some this_host) × (r.is_dead ≡ true)) rows
    → ends_well ≡ true
    → all_stale this_host rows ends_well ≡ true
unfolding all_stale
All-all_stale this_host [] ends_well all h = h
All-all_stale this_host (r ∷ rows) ends_well all h = ground (
  arith,
  dead_host this_host r.row_host all.0.0,
  all.0.1,
  All-all_stale this_host rows ends_well all.1 h,
)

AllDead-stale :
    (this_host uri : Bytes) (table : LockTable)
    → empty (sqlite3_path uri) ≡ false
    → AllDead this_host table
    → gnc_lock_is_provably_stale this_host uri table ≡ true
unfolding gnc_lock_is_provably_stale
AllDead-stale this_host uri unreadable path dead = absurd dead
AllDead-stale this_host uri (rows_then rows ends_well) path dead =
    ground (arith, path, All-all_stale this_host rows ends_well dead.0 dead.1)

-- If the engine reports a file-backed book as locked, and would then break the lock and load the book, Open succeeds exactly if
-- the book is opened for writing, the lock table was read to its end, and every row was written on this host by a process that
-- is dead: so a crash of the daemon does not keep the next one from the book, and another writer that lives does.
pub open_session-locked :
    (s : Session) (a : Answers)
    → s.session ≡ false
    → has_supported_scheme s.book_uri ≡ true
    → starts_with sqlite3_prefix s.book_uri ≡ true
    → empty (sqlite3_path s.book_uri) ≡ false
    → a.begin.error ≡ locked
    → a.break_lock.error ≡ no_err
    → a.load.error ≡ no_err
    → ((open_session a s).0 ≡ ok tt) ↔ ((s.read_only ≡ false) × AllDead a.this_host a.lock_table)
unfolding open_session
open_session-locked s a closed scheme file path held broken loaded = (
  λ opened. elim (Bool-cases (breaks_lock s a)) [
    | inl breaks ↦ breaks_lock-AllDead s a file breaks
    | inr keeps ↦ absurd (ground (arith, closed, scheme, keeps, ap is_no_err held, opened))
  ],
  λ dead.
      let stale = AllDead-stale a.this_host s.book_uri a.lock_table path dead.1 in
      let breaks : breaks_lock s a ≡ true =
        ground (arith, ap is_locked held, dead.0, file, stale) in
      ground (arith, closed, scheme, breaks, ap is_no_err broken, ap is_no_err loaded),
)
