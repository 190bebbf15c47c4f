-- ===== src/Rpc/Handler/Runs.antt =====
-- RunMutation over a handler, and over the staging that the handler is.
use mathlib.Core.Path.{fun_ext}
use daichod.Base.{◌≡◌, refl, ap}
use daichod.Base.Text.{Bytes}
use daichod.Base.Codec.{Codec}
use daichod.Exec.{Result, ok, err, aborted, Exec, continue}
use daichod.World.{World, Backend, CrashPoint, after_pending, same_point, crash_point_maybe, die_if}
use daichod.Journal
use daichod.Journal.{Outcome, Disk}
use daichod.Base.{Bool, true, false, Option, none, some}
use daichod.Rpc.Handler.{KeepsBook}
use daichod.Rpc.Mutation.{Recorder, Request, pending_recorder, run_mutation}
use daichod.Rpc.Mutation.Staged.{Staging, staged, submit}

die-live : {B : Type 0} (b : Bool) (w : World B) → (die_if b w).1.live ≡ w.live
die-live true w = refl
die-live false w = refl

dies_or_not :
    {B : Type 0} (p : Result (Unit {0}) × Disk) (w : World B) (o : Option CrashPoint)
    → (continue {B = Unit {0}}
        (p.0, record w { disk = p.1 })
        (λ _. crash_point_maybe o after_pending)).1.live
      ≡ w.live
dies_or_not (ok u, d) w none = refl
dies_or_not (ok u, d) w (some c) = die-live (same_point c after_pending) (record w { disk = d })
dies_or_not (err e, d) w o = refl
dies_or_not (aborted, d) w o = refl

module _ {B R : Type 0} (sha256 : Bytes → Bytes) (outcomes : Codec Outcome) (responses : Codec R)
    (q : Request) where
  pending_recorder-KeepsBook : KeepsBook {B = B} (pending_recorder sha256 outcomes responses q)
  pending_recorder-KeepsBook r w =
      dies_or_not (Journal.record_pending q.mutation_id (responses.serialize r) w.disk) w q.crash_at

  -- A handler that is a staging for every recorder that leaves the book alone runs as that staging does.
  pub run_mutation-staged :
      (backend : Backend B) (apply : Recorder B R → Exec (World B) R)
      (stage : B → Result (Staging B R))
      → ((record_pending : Recorder B R)
          → KeepsBook record_pending
          → (w : World B) → apply record_pending w ≡ staged backend stage record_pending w)
      → (w : World B)
      → run_mutation sha256 outcomes responses q apply w
        ≡ submit sha256 outcomes responses backend q stage w
  unfolding run_mutation
  run_mutation-staged backend apply stage h w =
      let recorder = pending_recorder sha256 outcomes responses q in
      ap (λ (m : Exec (World B) R). run_mutation sha256 outcomes responses q (λ _. m) w)
        (fun_ext (h recorder pending_recorder-KeepsBook))
