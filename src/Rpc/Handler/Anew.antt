-- ===== src/Rpc/Handler/Anew.antt =====
-- The crash theorem for a handler that reads the clock or draws GUIDs, where the retry is another run of it.
use daichod.Base.{ℕ, ◌≡◌, some, sym, ap, ◌∙◌, subst}
use daichod.Base.Text.{Bytes}
use daichod.Base.Codec.{Codec}
use daichod.Exec.{Result, ok, Exec}
use daichod.World.{World, Backend, restart}
use daichod.Journal.{Outcome, Tables, PendingEntry}
use daichod.Journal.Recovery.Verdict.{Engine, Kind, kind_of, was_applied}
use daichod.Journal.Recovery.Verdict.Tells.{Changes, was_applied-Changes}
use daichod.Rpc.Handler.{KeepsBook}
use daichod.Rpc.Handler.Once.{IsFresh, entry_of}
use daichod.Rpc.Handler.Runs.{run_mutation-staged}
use daichod.Rpc.Mutation.{Recorder, Request, run_mutation}
use daichod.Rpc.Mutation.Staged.{Staging, staged, submit}
use daichod.Rpc.Mutation.Staged.Runs.{on_calm}
use daichod.Rpc.Mutation.Staged.ExactlyOnce.{recover, retry_of}
use daichod.Rpc.Mutation.Staged.Anew.{IsDoneAs, lasting, done_anew}

-- The handler, as it is for one request, does what its staging says.
abbrev pub IsStaging :
    {B R : Type 0}
    → Backend B
    → (Recorder B R → Exec (World B) R)
    → (B → Result (Staging B R))
    → Type 0
IsStaging {B} {R} backend apply stage =
    (record_pending : Recorder B R)
    → KeepsBook record_pending
    → (w : World B) → apply record_pending w ≡ staged backend stage record_pending w

module _ {B R Guid A T : Type 0} (sha256 : Bytes → Bytes) (outcomes : Codec Outcome)
    (responses : Codec R) (backend : Backend B) (engine : Engine B Guid A T)
    (now : PendingEntry → ℕ) (apply again : Recorder B R → Exec (World B) R) (q : Request)
    (later : ℕ) (t : Tables) (before : B) where
  -- The run, its restart with the reconciliation, and the retry.
  abbrev pub runs_apart : Result R × World B
  runs_apart =
      run_mutation sha256 outcomes responses (retry_of q later) again
        (recover outcomes (was_applied engine) now
          (restart (run_mutation sha256 outcomes responses q apply (on_calm t before before)).1)).1

  module _ (stage stage_again : B → Result (Staging B R)) (s s' : Staging B R) where
    -- The id is resolved, and the client has the response, and the book holds the edit, of the retry if the first run died
    -- before its commit, and of the first run if not.
    abbrev pub HappensAnew : Type 0
    HappensAnew =
        IsDoneAs sha256 outcomes responses backend (was_applied engine) now stage stage_again q
          later t before s s' (lasting q.crash_at s s') runs_apart

    pub handler_anew :
        (k : Kind)
        → IsStaging backend apply stage
        → IsStaging backend again stage_again
        → IsFresh q t
        → stage before ≡ ok s
        → stage_again before ≡ ok s'
        → kind_of q.rpc_name ≡ some k
        → Changes engine k before s.final
            (entry_of sha256 outcomes responses backend engine now apply q later t before stage s)
        → HappensAnew
    handler_anew k is_staged is_staged_again f decided decided_again known changes =
        let tells = was_applied-Changes engine k before s.final _ known changes in
        subst
          (IsDoneAs sha256 outcomes responses backend (was_applied engine) now stage stage_again q
            later t before s s' (lasting q.crash_at s s'))
          (sym (
            run_mutation-staged sha256 outcomes responses (retry_of q later) backend again
              stage_again is_staged_again _
            ∙ ap
                (λ (p : Result R × World B).
                  submit sha256 outcomes responses backend (retry_of q later) stage_again
                    (recover outcomes (was_applied engine) now (restart p.1)).1)
                (run_mutation-staged sha256 outcomes responses q backend apply stage is_staged
                  (on_calm t before before))))
          (done_anew sha256 outcomes responses backend (was_applied engine) now stage stage_again q
            later t before s s'
            (record {
              is_valid = f.is_valid;
              keys = f.keys;
              unresolved = f.unresolved;
              same_request = f.same_request;
              decided = decided;
              shown_after = tells.0;
              hidden_before = tells.1;
            })
            decided_again)
