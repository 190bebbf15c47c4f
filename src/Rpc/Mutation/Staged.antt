-- ===== src/Rpc/Mutation/Staged.antt =====
-- The contract that mutation.h sets for apply(): decide on the request, build the complete response
-- inside an engine edit, call the recorder, commit. `stage` is the decision and the edit.
pub mod Runs
pub mod Anew
pub mod ExactlyOnce
pub mod Refusals
pub mod Faults
pub mod Known
use daichod.Exec.{Result, ok, err, aborted, Exec, pure, ◌>>=◌, ◌>>◌}
use daichod.World.{World, Backend, commit_edit}
use daichod.Base.Text.{Bytes}
use daichod.Base.Codec.{Codec}
use daichod.Journal.{Outcome}
use daichod.Rpc.Mutation.{Recorder, Request, run_mutation}

-- A decided request: its response, the book in memory when the recorder is called (the edit is open,
-- or has not begun), and the book that the commit leaves.
pub record Staging (B R : Type 0) : Type 0 where
  pub response : R
  pub edited : B
  pub final : B

module _ {B R : Type 0} (backend : Backend B) where
  -- What follows an edit that is staged: the response is recorded as pending, then committed.
  abbrev pub finish : Staging B R → Recorder B R → Exec (World B) R
  finish s record_pending = do
    record_pending s.response
    commit_edit backend s.final
    pure s.response

  abbrev pub decide : Result (Staging B R) → Recorder B R → Exec (World B) R
  decide (ok s) record_pending w = finish s record_pending (record w { live = s.edited })
  decide (err e) record_pending w = (err e, w)
  decide aborted record_pending w = (aborted, w)

  abbrev pub staged : (B → Result (Staging B R)) → Recorder B R → Exec (World B) R
  staged stage record_pending w = decide (stage w.live) record_pending w

-- RunMutation over such an apply().
abbrev pub submit :
    {B R : Type 0}
    → (Bytes → Bytes)
    → Codec Outcome
    → Codec R
    → Backend B
    → Request
    → (B → Result (Staging B R))
    → Exec (World B) R
submit sha256 outcomes responses backend q stage =
    run_mutation sha256 outcomes responses q (staged backend stage)
