-- ===== src/Startup/Run/Ready.antt =====
-- What holds when the daemon serves.
use daichod.Journal.Opening.{Sqlite, statements}
use daichod.Journal.Opening.Handles.{open_journal-Handles}
use daichod.Base.{
  ◌++◌, ◌+◌, ◌+◌, ℕ, ◌≡◌, refl, sym, ap, ◌∙◌, subst, Bool, true, false, not, ap₂, Bool-cases, inl,
  inr, Option, none, some, List, arith,
}
use daichod.Base.Text.{Bytes, str, empty}
use daichod.Base.Codec.{Codec}
use daichod.Engine.Checks.{run_startup_checks}
use daichod.Engine.Objects.{Objects}
use daichod.Engine.Session.{Session, book}
use daichod.Exec.{Result, ok, err, aborted}
use daichod.Journal
use daichod.Journal.{Outcome, PendingEntry, Tables, list_indeterminate, statement}
use daichod.Journal.Invariant.{IsValid}
use daichod.Journal.Phase.{phase, calm}
use daichod.Journal.Recovery.{reconcile_pending_mutations}
use daichod.Journal.Recovery.Settled.{recovered, reconcile-recovered}
use daichod.Rpc.Handler.{require_book}
use daichod.Startup.{Options, Failure}
use daichod.Startup.Run.{
  System, Surroundings, Ending, boot_with, start_server, reconcile_on, snapshot_if, acquire_locks,
  or_fail, or_terminate, snapshot, open_book, open_the_journal, reconcile, count_indeterminate,
  boot,
}

module _ {B G C A T S P : Type 0} (e : Objects B G C A T S P) (env : Surroundings B)
    (outcomes : Codec Outcome) (was_applied : B → PendingEntry → Option Bool)
    (now : PendingEntry → ℕ) (o : Options) where
  -- The journal has one handle, on which its pragmas and its tables' definitions have run; the book is open and has passed the
  -- checks, and each mutation that was pending is settled by what the book shows.
  pub record IsReady (t : Tables) (q : Sqlite) (s : System B) : Type 0 where
    pub one_handle : s.sqlite.handles ≡ q.handles + 1
    pub durable : s.sqlite.executed ≡ q.executed ++ statements
    pub open_book : book s.session ≡ none
    pub passed : run_startup_checks e s.session s.book ≡ ok tt
    pub settled :
        (j : Bytes)
        → phase s.journal.tables j ≡ recovered outcomes (was_applied s.book) now j (phase t j)

  list_indeterminate-calm : (t : Tables) → (list_indeterminate (calm t)).1 ≡ calm t
  unfolding list_indeterminate
  list_indeterminate-calm t = refl

  pub goes_on :
      {X : Type 0} {Goal : Type 0} (reason : Bytes) (p : Result X × System B)
      (k : X → System B → Option Ending × System B) (s' : System B)
      → ((x : X) (s : System B) → p ≡ (ok x, s) → k x s ≡ (none, s') → Goal)
      → or_fail e env outcomes was_applied now o reason p k ≡ (none, s')
      → Goal
  goes_on reason (ok x, s) k s' f h = f x s refl h
  goes_on reason (err x, s) k s' f h = ground (arith, h)
  goes_on reason (aborted, s) k s' f h = ground (arith, h)

  snapshot_if-journal :
      (c : Bool) (s : System B)
      → (snapshot_if e env outcomes was_applied now o c s).1.journal ≡ s.journal
  snapshot_if-journal true s = refl
  snapshot_if-journal false s = refl

  pub snapshot_if-sqlite :
      (c : Bool) (s : System B)
      → (snapshot_if e env outcomes was_applied now o c s).1.sqlite ≡ s.sqlite
  snapshot_if-sqlite true s = refl
  snapshot_if-sqlite false s = refl

  pub opened_well :
      (s1 s2 : System B) {u : Unit {0}}
      → open_the_journal e env outcomes was_applied now o s1 ≡ (ok u, s2)
      → (s2.sqlite.handles ≡ s1.sqlite.handles + 1)
        × (s2.sqlite.executed ≡ s1.sqlite.executed ++ statements)
  opened_well s1 s2 h =
      let sqlite = ap (λ (p : Result (Unit {0}) × System B). p.1.sqlite) (sym h) in
      elim (open_journal-Handles env.database o.journal_path s1.sqlite) [
        | inl well ↦ (
          ap (λ (d : Sqlite). d.handles) sqlite ∙ well.1.1,
          ap (λ (d : Sqlite). d.executed) sqlite ∙ well.1.2,
        )
        | inr bad ↦
            absurd (ground (arith, ap (λ (p : Result (Unit {0}) × System B). p.0) h, bad.1.2))
      ]

  start_server-same :
      (s s' : System B) → start_server e env outcomes was_applied now o s ≡ (none, s') → s' ≡ s
  start_server-same s s' h = ground (arith, h)

  -- The last step: the count of what is indeterminate.
  pub last_step :
      (r : Result (List Journal.IndeterminateEntry)) (s s' : System B)
      → or_terminate e env outcomes was_applied now o
          (r, s)
          (λ _ s6. start_server e env outcomes was_applied now o s6)
        ≡ (none, s')
      → s' ≡ s
  last_step (ok l) s s' h = start_server-same s s' h
  last_step (err x) s s' h = ground (arith, h)
  last_step aborted s s' h = ground (arith, h)

  reconcile-settles :
      (r : Result (Unit {0})) (s s' : System B) (t : Tables) (n : ℕ)
      → s.journal ≡ calm t
      → IsValid t
      → reconcile_on e env outcomes was_applied now o r s ≡ (ok n, s')
      → (r ≡ ok tt)
        × (s'.session ≡ s.session)
        × (s'.book ≡ s.book)
        × (s'.sqlite ≡ s.sqlite)
        × (t' : Tables) × (s'.journal ≡ calm t')
        × ((j : Bytes) → phase t' j ≡ recovered outcomes (was_applied s.book) now j (phase t j))
  reconcile-settles (ok u) s s' t n quiet valid h =
      let (m, t', runs, phases) = reconcile-recovered outcomes (was_applied s.book) now t valid in
      (
        refl,
        ground (arith, h),
        ground (arith, h),
        ground (arith, h),
        t',
        sym (ap (λ (p : Result ℕ × System B). p.1.journal) h)
            ∙ ap
                (λ (d : Journal.Disk).
                  (reconcile_pending_mutations outcomes (was_applied s.book) now d).1)
                quiet
            ∙ ap (λ (p : Result ℕ × Journal.Disk). p.1) runs,
        phases,
      )
  reconcile-settles (err x) s s' t n quiet valid h = ground (arith, h)
  reconcile-settles aborted s s' t n quiet valid h = ground (arith, h)

  require_book-open : (s : Session) (b : B) → require_book s b ≡ ok tt → book s ≡ none
  unfolding book
  require_book-open s b h = elim (Bool-cases s.session) [
    | inl has ↦ ground (arith, has)
    | inr closed ↦ ground (arith, closed, h)
  ]

  -- From the checks on.
  settled-IsReady :
      (s s5 s' : System B) (t : Tables) (q : Sqlite) (n : ℕ)
      → s.journal ≡ calm t
      → IsValid t
      → s.sqlite.handles ≡ q.handles + 1
      → s.sqlite.executed ≡ q.executed ++ statements
      → run_startup_checks e s.session s.book ≡ ok tt
      → reconcile e env outcomes was_applied now o s ≡ (ok n, s5)
      → or_terminate e env outcomes was_applied now o
          (count_indeterminate e env outcomes was_applied now o s5)
          (λ _ s6. start_server e env outcomes was_applied now o s6)
        ≡ (none, s')
      → IsReady t q s'
  settled-IsReady s s5 s' t q n quiet valid one durable passed h5 h6 =
      let (opened, same_session, same_book, same_sqlite, t', journal, phases) =
        reconcile-settles (require_book s.session s.book) s s5 t n quiet valid h5 in
      let counted = record s5 { journal = (list_indeterminate s5.journal).1 } in
      let tables : counted.journal.tables ≡ t' =
        ap (λ (d : Journal.Disk). (list_indeterminate d).1.tables) journal
        ∙ ap (λ (d : Journal.Disk). d.tables) (list_indeterminate-calm t') in
      subst (IsReady t q) (sym (last_step (list_indeterminate s5.journal).0 counted s' h6))
        (record {
          one_handle = ap (λ (d : Sqlite). d.handles) same_sqlite ∙ one;
          durable = ap (λ (d : Sqlite). d.executed) same_sqlite ∙ durable;
          open_book = ap book same_session ∙ require_book-open s.session s.book opened;
          passed = ap₂ (λ x y. run_startup_checks e x y) same_session same_book ∙ passed;
          settled = λ j.
              ap (λ (x : Tables). phase x j) tables
              ∙ phases j
              ∙ ap (λ (b : B). recovered outcomes (was_applied b) now j (phase t j))
                  (sym same_book);
        })

  boot_with-IsReady :
      (l : Option Failure) (s s' : System B) (t : Tables)
      → s.journal ≡ calm t
      → IsValid t
      → boot_with e env outcomes was_applied now o l s ≡ (none, s')
      → IsReady t s.sqlite s'
  boot_with-IsReady (some f) s s' t quiet valid = λ h. ground (arith, h)
  boot_with-IsReady none s s' t quiet valid =
      goes_on (str "backup_failed") (snapshot e env outcomes was_applied now o s) _ s' (λ _ s1 h1.
        goes_on (str "journal_open_failed") (open_the_journal e env outcomes was_applied now o s1) _
          s'
          (λ _ s2 h2.
            goes_on (str "book_open_failed") (open_book e env outcomes was_applied now o s2) _ s'
              (λ _ s3 h3.
                goes_on (str "startup_check_failed") (run_startup_checks e s3.session s3.book, s3) _
                  s'
                  (λ _ s4 h4.
                    goes_on (str "reconciliation_failed")
                      (reconcile e env outcomes was_applied now o s4) _ s'
                      (λ n s5 h5 h6.
                        let opened = opened_well s1 s2 h2 in
                        let same : s4.sqlite ≡ s2.sqlite =
                          ap (λ (p : Result (Unit {0}) × System B). p.1.sqlite) (sym h4)
                          ∙ ap (λ (p : Result (Unit {0}) × System B). p.1.sqlite) (sym h3) in
                        let first : s1.sqlite ≡ s.sqlite =
                          ap (λ (p : Result Bool × System B). p.1.sqlite) (sym h1)
                          ∙ snapshot_if-sqlite (not (empty o.backup_dir)) s in
                        settled-IsReady s4 s5 s' t s.sqlite n
                          (ap (λ (p : Result (Unit {0}) × System B). p.1.journal) (sym h4)
                            ∙ ap (λ (p : Result (Unit {0}) × System B). p.1.journal) (sym h3)
                            ∙ ap (λ (p : Result (Unit {0}) × System B). p.1.journal) (sym h2)
                            ∙ ap (λ (p : Result Bool × System B). p.1.journal) (sym h1)
                            ∙ snapshot_if-journal (not (empty o.backup_dir)) s
                            ∙ quiet)
                          valid
                          (ap (λ (d : Sqlite). d.handles) same
                            ∙ opened.0
                            ∙ ap (λ (d : Sqlite). d.handles + 1) first)
                          (ap (λ (d : Sqlite). d.executed) same
                            ∙ opened.1
                            ∙ ap (λ (d : Sqlite). d.executed ++ statements) first)
                          (ap
                              (λ (p : Result (Unit {0}) × System B).
                                run_startup_checks e p.1.session p.1.book)
                              (sym h4)
                            ∙ ap (λ (p : Result (Unit {0}) × System B). p.0) h4)
                          h5 h6)))))

  -- If the daemon gets to serving, its journal has been opened durably and has its tables, its book is open and has passed the startup checks, and each mutation that was pending is
  -- resolved as applied or not by what the book shows, all other ids being as they were; on a valid journal whose disk fails
  -- no statement.
  pub boot-IsReady :
      (s s' : System B) (t : Tables)
      → s.journal ≡ calm t
      → IsValid t
      → boot e env outcomes was_applied now o s ≡ (none, s')
      → IsReady t s.sqlite s'
  unfolding boot
  boot-IsReady s s' t = boot_with-IsReady (acquire_locks e env outcomes was_applied now o) s s' t
