-- ===== src/Rpc/Handler.antt =====
-- What the body of a mutating handler is made of: reads of the book that may throw, edits of the book in memory, and the
-- commit, which the backend persists.
pub mod Anew
pub mod Evidence
pub mod Once
pub mod Runs
pub mod Steps
use daichod.Base.{◌≡◌, refl, Option, none, some, arith}
use daichod.Exec.{Result, ok, err, aborted, Exec, pure, ◌>>=◌, ◌>>◌}
use daichod.World.{World, Backend, commit_edit}
use daichod.Rpc.Error.{shim}
use daichod.Rpc.Mutation.{Recorder}
use daichod.Engine.Session.{Session, book}

module _ {B : Type 0} where
  -- A read that may throw.
  abbrev pub check : {X : Type 0} → (B → Result X) → Exec (World B) X
  check f w = (f w.live, w)

  -- A read.
  abbrev pub read : {X : Type 0} → (B → X) → Exec (World B) X
  read f w = (ok (f w.live), w)

  abbrev pub edit : (B → B) → Exec (World B) (Unit {0})
  edit f w = (ok tt, record w { live = f w.live })

  abbrev pub alloc : {X : Type 0} → (B → X × B) → Exec (World B) X
  alloc f w = (ok (f w.live).0, record w { live = (f w.live).1 })

  -- A call after which the backend holds what the book in memory is.
  abbrev pub commit : Backend B → (B → B) → Exec (World B) (Unit {0})
  commit backend f w =
      (ok tt, record w { live = f w.live; saved = backend.commit w.saved (f w.live) })

  -- Session::book, which throws on a closed session.
  abbrev pub require_book : Session → B → Result (Unit {0})
  require_book session b = elim (book session) [ none ↦ ok tt | some e ↦ err (shim e) ]

  -- A recorder that leaves the book in memory alone, as RunMutation's does: it writes to the journal.
  abbrev pub KeepsBook : {R : Type 0} → Recorder B R → Type 0
  KeepsBook {R} record_pending = (r : R) (w : World B) → (record_pending r w).1.live ≡ w.live
