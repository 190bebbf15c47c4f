-- ===== src/Rpc/Handler/Once.antt =====
-- The crash theorem for a handler, with recovery's own verdict.
use daichod.Base.{ℕ, ◌≡◌, true, false, some, sym, ap, ◌∙◌, subst}
use daichod.Base.Text.{Bytes}
use daichod.Base.Codec.{Codec}
use daichod.Exec.{Result, ok, Exec}
use daichod.World.{World, Backend, restart}
use daichod.Journal.{Outcome, Tables, PendingEntry}
use daichod.Journal.Invariant.{IsValid}
use daichod.Journal.Phase.{phase, begin, intended}
use daichod.Journal.Phase.Calm.{is_resolved}
use daichod.Journal.Recovery.Verdict.{Engine, Kind, kind_of, was_applied}
use daichod.Journal.Recovery.Verdict.Tells.{Changes}
use daichod.Rpc.Handler.{KeepsBook}
use daichod.Rpc.Handler.Runs.{run_mutation-staged}
use daichod.Rpc.Mutation.{Recorder, Request, is_uuid, run_mutation}
use daichod.Rpc.Mutation.Staged.{Staging, staged}
use daichod.Rpc.Mutation.Staged.Runs.{on_calm}
use daichod.Rpc.Mutation.Staged.ExactlyOnce.{IsDone, recover, retry_of}
use daichod.Rpc.Mutation.Staged.Known.{own_entry, known_exactly_once}

-- What a request meets: a valid id with no outcome, new or known by its own intent, in a valid journal.
pub record IsFresh (q : Request) (t : Tables) : Type 0 where
  pub is_valid : is_uuid q.mutation_id ≡ true
  pub keys : IsValid t
  pub unresolved : is_resolved (phase t q.mutation_id) ≡ false
  pub same_request :
      begin q.rpc_name q.payload (phase t q.mutation_id) ≡ intended q.rpc_name q.payload

module _ {B R Guid A T : Type 0} (sha256 : Bytes → Bytes) (outcomes : Codec Outcome)
    (responses : Codec R) (backend : Backend B) (engine : Engine B Guid A T)
    (now : PendingEntry → ℕ) (apply : Recorder B R → Exec (World B) R) (q : Request) (later : ℕ)
    (t : Tables) (before : B) where
  -- The run, its restart with the reconciliation, and the retry.
  abbrev pub two_runs : Result R × World B
  two_runs =
      run_mutation sha256 outcomes responses (retry_of q later) apply
        (recover outcomes (was_applied engine) now
          (restart (run_mutation sha256 outcomes responses q apply (on_calm t before before)).1)).1

  module _ (stage : B → Result (Staging B R)) (s : Staging B R) where
    -- The entry that the request leaves if it dies behind its pending record.
    abbrev pub entry_of : PendingEntry
    entry_of =
        own_entry sha256 outcomes responses backend engine now stage q later t before s.edited
          s.final s.response

    -- The client has the response, the book holds the edit once, and the id is resolved.
    abbrev pub HappensOnce : Type 0
    HappensOnce =
        IsDone sha256 outcomes responses backend (was_applied engine) now stage q later t before
          s.edited s.final s.response two_runs

    pub handler_exactly_once :
        (k : Kind)
        → ((record_pending : Recorder B R)
            → KeepsBook record_pending
            → (w : World B) → apply record_pending w ≡ staged backend stage record_pending w)
        → IsFresh q t
        → stage before ≡ ok s
        → kind_of q.rpc_name ≡ some k
        → Changes engine k before s.final entry_of
        → HappensOnce
    handler_exactly_once k is_staged f decided known changes =
        subst
          (IsDone sha256 outcomes responses backend (was_applied engine) now stage q later t before
            s.edited s.final s.response)
          (sym (
            run_mutation-staged sha256 outcomes responses (retry_of q later) backend apply stage
              is_staged _
            ∙ ap
                (λ (p : Result R × World B).
                  run_mutation sha256 outcomes responses (retry_of q later) (staged backend stage)
                    (recover outcomes (was_applied engine) now (restart p.1)).1)
                (run_mutation-staged sha256 outcomes responses q backend apply stage is_staged
                  (on_calm t before before))))
          (known_exactly_once sha256 outcomes responses backend engine now stage q later t before
            s.edited s.final s.response k f.is_valid f.keys f.unresolved f.same_request decided
            known changes)
