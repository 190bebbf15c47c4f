-- ===== src/Rpc/Handler/Steps.antt =====
-- A handler, step by step, against the contract of apply().
use daichod.Base.{◌≡◌, refl, ap}
use daichod.Exec.{Result, ok, err, aborted, Exec, continue}
use daichod.World.{World, Backend}
use daichod.Rpc.Mutation.{Recorder}
use daichod.Rpc.Mutation.Staged.{Staging, decide}
use daichod.Rpc.Plan.Types.{and_then}

module _ {B R : Type 0} (backend : Backend B) (record_pending : Recorder B R) where
  -- A check that throws decides the request.
  pub check_then :
      {X : Type 0} (r : Result X) (w : World B) (k : X → Exec (World B) R)
      (f : X → Result (Staging B R))
      → ((x : X) → k x w ≡ decide backend (f x) record_pending w)
      → continue (r, w) k ≡ decide backend (and_then r f) record_pending w
  check_then (ok x) w k f h = h x
  check_then (err e) w k f h = refl
  check_then aborted w k f h = refl

  -- What follows the record, once it has returned.
  pub after_record :
      (p : Result (Unit {0}) × World B) (f : B → B) (final : B) (r : R)
      → f p.1.live ≡ final
      → continue p
          (λ _ w. (ok r, record w { live = f w.live; saved = backend.commit w.saved (f w.live) }))
        ≡ continue p
            (λ _ w. (ok r, record w { live = final; saved = backend.commit w.saved final }))
  after_record (ok u, w) f final r h =
      ap (λ (l : B). (ok r, record w { live = l; saved = backend.commit w.saved l })) h
  after_record (err e, w) f final r h = refl
  after_record (aborted, w) f final r h = refl
