-- ===== src/Rpc/Mutation/History.antt =====
-- A mutation id in the life of the daemon: requests, faults, deaths, restarts and recoveries, in any order.
use daichod.Base.{ℕ, ◌≡◌, sym, subst, Bool, true, false, Option, List, [], ◌∷◌, ◌+◌, arith}
use daichod.Base.Text.{Bytes}
use daichod.Base.Codec.{Codec}
use daichod.Exec.{Result, ok, err, aborted, Exec, continue}
use daichod.World.{World, Backend, restart}
use daichod.Journal.{Outcome, PendingEntry, Disk, Fault, list_pending_unresolved}
use daichod.Journal.Invariant.{unstage, outcome}
use daichod.Journal.Recovery.{
  settle_entries, settle_entry, is_applied, reconciled, reconcile_pending_mutations,
}
use daichod.Rpc.Mutation.{Request, Recorder, run_mutation}
use daichod.Rpc.Mutation.Keeps.{IsRecorded, write-IsRecorded, run-keeps_journal}
use daichod.Rpc.Mutation.Replayed.{IsReplay, run-IsReplay}
use daichod.Rpc.Mutation.Staged.{Staging, submit}
use daichod.Rpc.Mutation.Staged.ExactlyOnce.{recover}

module _ {B : Type 0} (sha256 : Bytes → Bytes) (outcomes : Codec Outcome)
    (backend : Backend B) where
  -- What can happen to the daemon: a request, of whatever response type, runs until it returns, throws or dies; the disk gets
  -- other faults to come; the process starts again from what is saved; it recovers by some verdict.
  pub data Step (w : World B) : World B → Type 1 where
    runs :
        {R : Type 0} (responses : Codec R) (q : Request) (stage : B → Result (Staging B R))
        → Step w (submit sha256 outcomes responses backend q stage w).1
    meets :
        (faults : List (Option Fault))
        → Step w (record w { disk = record w.disk { faults = faults } })
    restarts : Step w (restart w)
    recovers :
        (was_applied : B → PendingEntry → Option Bool) (now : PendingEntry → ℕ)
        → Step w (recover outcomes was_applied now w).1

  pub data Reach (w : World B) : World B → Type 1 where
    here : Reach w w
    later : {v u : World B} → Reach w v → Step v u → Reach w u

  module _ (id o : Bytes) where
    disk_then :
        {X Y : Type 0} (r : Result X × Disk) (k : X → Exec Disk Y)
        → IsRecorded id o r.1.tables
        → ((x : X) (d : Disk) → IsRecorded id o d.tables → IsRecorded id o (k x d).1.tables)
        → IsRecorded id o (continue r k).1.tables
    disk_then (ok x, d) k h f = f x d h
    disk_then (err e, d) k h f = h
    disk_then (aborted, d) k h f = h

    settle_entry-IsRecorded :
        (was_applied : PendingEntry → Option Bool) (now : PendingEntry → ℕ) (b : Bool)
        (e : PendingEntry) (d : Disk)
        → IsRecorded id o d.tables
        → IsRecorded id o (settle_entry outcomes was_applied now b e d).1.tables
    settle_entry-IsRecorded was_applied now true e d h =
        disk_then _ _
          (write-IsRecorded {sha256 = sha256} {codec = outcomes} id o
            (outcome e.mutation_id (reconciled e) (now e)) d h)
          (λ _ v k. k)
    settle_entry-IsRecorded was_applied now false e d h =
        disk_then _ _
          (write-IsRecorded {sha256 = sha256} {codec = outcomes} id o (unstage e.mutation_id) d h)
          (λ _ v k. k)

    settle_entries-IsRecorded :
        (was_applied : PendingEntry → Option Bool) (now : PendingEntry → ℕ) (es : List PendingEntry)
        (n : ℕ) (d : Disk)
        → IsRecorded id o d.tables
        → IsRecorded id o (settle_entries outcomes was_applied now es n d).1.tables
    unfolding settle_entries
    settle_entries-IsRecorded was_applied now [] n d h = h
    settle_entries-IsRecorded was_applied now (e ∷ es) n d h =
        disk_then _ _ (settle_entry-IsRecorded was_applied now (is_applied (was_applied e)) e d h)
          (λ m v k. settle_entries-IsRecorded was_applied now es (n + m) v k)

    list_pending_unresolved-tables : (d : Disk) → (list_pending_unresolved d).1.tables ≡ d.tables
    unfolding list_pending_unresolved
    list_pending_unresolved-tables d = ground arith

    Step-IsRecorded :
        (w v : World B) → Step w v → IsRecorded id o w.disk.tables → IsRecorded id o v.disk.tables
    unfolding reconcile_pending_mutations
    Step-IsRecorded w _ (runs responses q stage) h =
        (run-keeps_journal sha256 outcomes responses backend stage q w).0 id o h
    Step-IsRecorded w _ (meets faults) h = h
    Step-IsRecorded w _ restarts h = h
    Step-IsRecorded w _ (recovers was_applied now) h =
        disk_then (list_pending_unresolved w.disk) _
          (subst (IsRecorded id o) (sym (list_pending_unresolved-tables w.disk)) h)
          (λ es d k. settle_entries-IsRecorded (was_applied w.live) now es 0 d k)

    pub Reach-IsRecorded :
        (w v : World B) → Reach w v → IsRecorded id o w.disk.tables → IsRecorded id o v.disk.tables
    Reach-IsRecorded w _ here h = h
    Reach-IsRecorded w u (later {v = v} reach step) h =
        Step-IsRecorded v u step (Reach-IsRecorded w v reach h)

-- Once the outcome of an id is recorded, and whatever the daemon goes through from then on, other requests, deaths, restarts and
-- recoveries in any order on a disk that may fail any statement, a request with this id changes neither book, whatever it asks
-- for, whatever SQLite fails and wherever the process dies; and what it returns, if it returns, is the recorded response.
pub at_most_once :
    {B R : Type 0} (sha256 : Bytes → Bytes) (outcomes : Codec Outcome) (backend : Backend B)
    (responses : Codec R) (q : Request) (apply : Recorder B R → Exec (World B) R) (o : Outcome)
    (w v : World B)
    → IsRecorded q.mutation_id (outcomes.serialize o) w.disk.tables
    → Reach sha256 outcomes backend w v
    → IsReplay sha256 outcomes responses q o v (run_mutation sha256 outcomes responses q apply v)
at_most_once sha256 outcomes backend responses q apply o w v recorded reach =
    run-IsReplay sha256 outcomes responses q o v apply (
      Reach-IsRecorded sha256 outcomes backend q.mutation_id (outcomes.serialize o) w v reach
        recorded)
