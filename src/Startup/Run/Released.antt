-- ===== src/Startup/Run/Released.antt =====
-- What Run has let go of when it returns.
use daichod.Base.{
  not, inr, subst, inl, Bool-cases, ◌⊎◌, ◌+◌, ℕ, ◌≡◌, refl, ap, sym, ◌∙◌, Bool, false, Option, none,
  some, ◌↔◌, arith,
}
use daichod.Base.Text.{str, empty}
use daichod.Base.Codec.{Codec}
use daichod.Engine.Objects.{Objects}
use daichod.Engine.Session.{
  backend_error, is_no_err, Session, Answer, open_session, close_session, destroy_session,
}
use daichod.Engine.Session.Reopen.{IsConsistent, open_session-IsConsistent}
use daichod.Exec.{Result, ok, err, aborted}
use daichod.Journal.{list_indeterminate, Outcome, PendingEntry}
use daichod.Journal.Opening.{Sqlite, close_journal}
use daichod.Rpc.Error.{shim, Exception}
use daichod.Startup.{Options, Failure}
use daichod.Startup.Run.Ready.{goes_on, last_step, snapshot_if-sqlite, opened_well}
use daichod.Startup.Run.{
  new_session, new_session, require_book, reconcile, run_startup_checks, open_book,
  open_the_journal, acquire_locks, snapshot, boot_with, reconcile_on, System, Surroundings, Ending,
  exits, boot, run, after_boot, leave, exit_of,
}

-- The engine's lock on the book is let go of, no session object is left, and SQLite has the handles that it had.
pub record IsReleased {B : Type 0} (before after : System B) : Type 0 where
  pub no_lock : after.session.holds_lock ≡ false
  pub no_session : after.session.live_sessions ≡ 0
  pub same_handles : after.sqlite.handles ≡ before.sqlite.handles

-- Whatever a session is, after a close and the destructor there is none.
closed_for_good :
    (f : Option Exception) (save : Answer) (s : Session)
    → IsConsistent s
    → let s' = destroy_session f save (close_session f save s).1 in
      (s'.holds_lock ≡ false) × (s'.live_sessions ≡ 0)
unfolding destroy_session close_session
closed_for_good f save s c = ground (arith, c)

close_session-returns :
    (f : Option Exception) (save : Answer) (s : Session)
    → ((close_session f save s).0 ≡ ok tt) ⊎ ((x : Exception) × (close_session f save s).0 ≡ err x)
unfolding close_session
close_session-returns none save s = elim (Bool-cases s.session) [
  | inl has ↦ elim (Bool-cases s.read_only) [
    | inl read_only ↦ inl (ground (arith, has, read_only))
    | inr writes ↦ elim (Bool-cases (is_no_err save.error)) [
      | inl saved ↦ inl (ground (arith, has, writes, saved))
      | inr lost ↦ inr (shim (backend_error save s.book_uri), ground (arith, has, writes, lost))
    ]
  ]
  | inr closed ↦ inl (ground (arith, closed))
]
close_session-returns (some x) save s = elim (Bool-cases s.session) [
  | inl has ↦ elim (Bool-cases s.read_only) [
    | inl read_only ↦ inl (ground (arith, has, read_only))
    | inr writes ↦ inr (x, ground (arith, has, writes))
  ]
  | inr closed ↦ inl (ground (arith, closed))
]

module _ {B G C A T S P : Type 0} (e : Objects B G C A T S P) (env : Surroundings B)
    (outcomes : Codec Outcome) (was_applied : B → PendingEntry → Option Bool)
    (now : PendingEntry → ℕ) (o : Options) where
  -- What the daemon holds while it serves.
  record IsRunning (before after : System B) : Type 0 where
    consistent : IsConsistent after.session
    one_handle : after.sqlite.handles ≡ before.sqlite.handles + 1

  reconcile_on-same :
      (r : Result (Unit {0})) (s s' : System B) (n : ℕ)
      → reconcile_on e env outcomes was_applied now o r s ≡ (ok n, s')
      → (s'.session ≡ s.session) × (s'.sqlite ≡ s.sqlite)
  reconcile_on-same (ok u) s s' n h = (ground (arith, h), ground (arith, h))
  reconcile_on-same (err x) s s' n h = ground (arith, h)
  reconcile_on-same aborted s s' n h = ground (arith, h)

  boot_with-IsRunning :
      (l : Option Failure) (s s' : System B)
      → boot_with e env outcomes was_applied now o l s ≡ (none, s')
      → IsRunning s s'
  boot_with-IsRunning (some f) s s' = λ h. ground (arith, h)
  boot_with-IsRunning none s s' =
      goes_on e env outcomes was_applied now o (str "backup_failed")
        (snapshot e env outcomes was_applied now o s) _ s'
        (λ _ s1 h1.
          goes_on e env outcomes was_applied now o (str "journal_open_failed")
            (open_the_journal e env outcomes was_applied now o s1) _ s'
            (λ _ s2 h2.
              goes_on e env outcomes was_applied now o (str "book_open_failed")
                (open_book e env outcomes was_applied now o s2) _ s'
                (λ _ s3 h3.
                  goes_on e env outcomes was_applied now o (str "startup_check_failed")
                    (run_startup_checks e s3.session s3.book, s3) _ s'
                    (λ _ s4 h4.
                      goes_on e env outcomes was_applied now o (str "reconciliation_failed")
                        (reconcile e env outcomes was_applied now o s4) _ s'
                        (λ n s5 h5 h6.
                          let same =
                            reconcile_on-same (require_book s4.session s4.book) s4 s5 n h5 in
                          let counted = record s5 { journal = (list_indeterminate s5.journal).1 } in
                          let last : s' ≡ counted =
                            last_step e env outcomes was_applied now o
                              (list_indeterminate s5.journal).0 counted s' h6 in
                          let session : s'.session
                              ≡ (open_session env.answers
                                  (new_session e env outcomes was_applied now o)).1 =
                            ap (λ (u : System B). u.session) last
                            ∙ same.0
                            ∙ ap (λ (p : Result (Unit {0}) × System B). p.1.session) (sym h4)
                            ∙ ap (λ (p : Result (Unit {0}) × System B). p.1.session) (sym h3) in
                          let sqlite : s'.sqlite ≡ s2.sqlite =
                            ap (λ (u : System B). u.sqlite) last
                            ∙ same.1
                            ∙ ap (λ (p : Result (Unit {0}) × System B). p.1.sqlite) (sym h4)
                            ∙ ap (λ (p : Result (Unit {0}) × System B). p.1.sqlite) (sym h3) in
                          let first : s1.sqlite ≡ s.sqlite =
                            ap (λ (p : Result Bool × System B). p.1.sqlite) (sym h1)
                            ∙ snapshot_if-sqlite e env outcomes was_applied now o
                                (not (empty o.backup_dir)) s in
                          record {
                            consistent = subst IsConsistent (sym session) (
                                open_session-IsConsistent env.answers
                                  (new_session e env outcomes was_applied now o)
                                  (record {
                                    flag_agrees = refl;
                                    lock_agrees = refl;
                                    one_object = refl;
                                  }));
                            one_handle =
                                ap (λ (d : Sqlite). d.handles) sqlite
                                ∙ (opened_well e env outcomes was_applied now o s1 s2 h2).0
                                ∙ ap (λ (d : Sqlite). d.handles + 1) first;
                          })))))

  -- What is destroyed behind a close, by how the close went.
  leave-IsReleased :
      (r : Result (Unit {0})) (v : Session) (s u : System B)
      → (r ≡ ok tt) ⊎ ((x : Exception) × (r ≡ err x))
      → (destroy_session env.fail_point env.save v).holds_lock ≡ false
      → (destroy_session env.fail_point env.save v).live_sessions ≡ 0
      → u.sqlite.handles ≡ s.sqlite.handles + 1
      → let p =
          leave e env outcomes was_applied now o
            (exit_of e env outcomes was_applied now o r, record u { session = v }) in
        IsReleased s p.1 × ((p.0 ≡ exits 0) ↔ (r ≡ ok tt))
  unfolding close_journal
  leave-IsReleased (ok x) v s u h lock left one = (
    record { no_lock = lock; no_session = left; same_handles = ground (arith, one) },
    (λ q. refl, λ q. refl),
  )
  leave-IsReleased (err x) v s u h lock left one = (
    record { no_lock = lock; no_session = left; same_handles = ground (arith, one) },
    (λ q. absurd (ground (arith, q)), λ q. absurd (ground (arith, q))),
  )
  leave-IsReleased aborted v s u (inl q) lock left one = absurd (ground (arith, q))
  leave-IsReleased aborted v s u (inr q) lock left one = absurd (ground (arith, q.1))

  -- If the daemon gets to serving, Run returns with the engine's lock on the book let go of, no session object left and as many
  -- handles of SQLite as before; the exit code is 0 exactly if the session's close threw nothing. Serving is to leave the
  -- session consistent and the journal's handle open.
  pub run-IsReleased :
      (s s1 : System B)
      → ((u : System B) → IsConsistent u.session → IsConsistent (env.serve u).session)
      → ((u : System B) → (env.serve u).sqlite ≡ u.sqlite)
      → boot e env outcomes was_applied now o s ≡ (none, s1)
      → let p = run e env outcomes was_applied now o s in
        IsReleased s p.1
        × ((p.0 ≡ exits 0)
            ↔ ((close_session env.fail_point env.save (env.serve s1).session).0 ≡ ok tt))
  unfolding run boot
  run-IsReleased s s1 keeps same h =
      let running = boot_with-IsRunning (acquire_locks e env outcomes was_applied now o) s s1 h in
      let u = env.serve s1 in
      let closed = close_session env.fail_point env.save u.session in
      let gone = closed_for_good env.fail_point env.save u.session (keeps s1 running.consistent) in
      subst (λ (p : Ending × System B). IsReleased s p.1 × ((p.0 ≡ exits 0) ↔ (closed.0 ≡ ok tt)))
        (sym (ap (after_boot e env outcomes was_applied now o) h))
        (leave-IsReleased closed.0 closed.1 s u
          (close_session-returns env.fail_point env.save u.session) gone.0 gone.1
          (ap (λ (d : Sqlite). d.handles) (same s1) ∙ running.one_handle))
