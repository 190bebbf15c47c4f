-- ===== src/Rpc/Mutation/Staged/Faults.antt =====
-- SQLite fails a statement in the middle of the protocol, and the daemon lives on.
use daichod.Base.{Option, ◌≡◌, true, false, none, some, List, [], ◌∷◌, arith, ap, ◌∙◌}
use daichod.Base.Codec.{Codec}
use daichod.Base.Text.{Bytes}
use daichod.Exec.{Result, ok, err}
use daichod.World.{World, Backend}
use daichod.Journal.{
  Outcome, Tables, Fault, journal_error, record_intent, get_outcome, record_pending, record_outcome,
}
use daichod.Journal.Phase.{phase}
use daichod.Journal.Phase.Calm.{is_resolved}
use daichod.Rpc.Error.{is_deterministic_verdict}
use daichod.Rpc.Mutation.{Request, run_mutation, is_uuid, validate_mutation_id}
use daichod.Rpc.Mutation.Staged.{Staging, submit}
use daichod.Rpc.Mutation.Staged.Runs.{
  on_calm, intents_after, pending_after, run_returns, unresolved_begun, unresolved_pending,
}

-- The statement that records the pending response fails.
abbrev pub pending_fails : {B : Type 0} → Tables → B → Fault → World B
pending_fails t before fault = record {
  disk = record { tables = t; faults = none ∷ none ∷ some fault ∷ [] };
  live = before;
  saved = before;
}

-- The statement that records the outcome fails.
abbrev pub outcome_fails : {B : Type 0} → Tables → B → Fault → World B
outcome_fails t before fault = record {
  disk = record { tables = t; faults = none ∷ none ∷ none ∷ some fault ∷ [] };
  live = before;
  saved = before;
}

module _ {B R : Type 0} (sha256 : Bytes → Bytes) (outcomes : Codec Outcome) (responses : Codec R)
    (backend : Backend B) (q : Request) (stage : B → Result (Staging B R)) (t : Tables) (before : B)
    (s : Staging B R) (fault : Fault) (valid : is_uuid q.mutation_id ≡ true)
    (lives : q.crash_at ≡ none) (unresolved : is_resolved (phase t q.mutation_id) ≡ false)
    (decided : stage before ≡ ok s) where
  read_none :
      (fs : List (Option Fault))
      → get_outcome outcomes q.mutation_id (record {
        tables = intents_after sha256 outcomes responses backend q t;
        faults = none ∷ fs;
      })
        ≡ (
          ok none,
          record { tables = intents_after sha256 outcomes responses backend q t; faults = fs },
        )
  unfolding get_outcome
  read_none fs =
      let begun =
        unresolved_begun sha256 outcomes responses backend q stage t before before valid
          unresolved in
      ground (arith, begun)

  -- If the pending record cannot be written, the call fails, nothing is saved and nothing is committed,
  -- but the edit stays in the book in memory: what staging did to it is neither committed nor rolled back.
  pub pending_failure_leaves_edit :
      ((submit sha256 outcomes responses backend q stage (pending_fails t before fault)).0
        ≡ err (journal_error fault.message fault.context))
      × ((submit sha256 outcomes responses backend q stage (pending_fails t before fault)).1.live
          ≡ s.edited)
      × ((submit sha256 outcomes responses backend q stage (pending_fails t before fault)).1.saved
          ≡ before)
  unfolding run_mutation validate_mutation_id record_intent record_pending is_deterministic_verdict
  pending_failure_leaves_edit =
      let recorded = read_none (some fault ∷ []) in
      (ground (arith, recorded), ground (arith, recorded), ground (arith, recorded))

  run-outcome_fails :
      submit sha256 outcomes responses backend q stage (outcome_fails t before fault) ≡ (
        err (journal_error fault.message fault.context),
        on_calm (pending_after sha256 outcomes responses backend q s.response t) s.final s.final,
      )
  unfolding run_mutation validate_mutation_id record_intent record_pending record_outcome
      is_deterministic_verdict
  run-outcome_fails =
      ground (arith, read_none (none ∷ some fault ∷ []), backend.commit_saves before s.final)

  -- If the outcome cannot be written after the commit, the client is told of a failure though the book
  -- holds the edit; and while the daemon lives, a retry with the same id applies the request again.
  pub outcome_failure_applies_twice :
      (again : Staging B R)
      → stage s.final ≡ ok again
      → ((submit sha256 outcomes responses backend q stage (outcome_fails t before fault)).0
          ≡ err (journal_error fault.message fault.context))
        × ((submit sha256 outcomes responses backend q stage (outcome_fails t before fault)).1.saved
            ≡ s.final)
        × ((submit sha256 outcomes responses backend q stage
              (submit sha256 outcomes responses backend q stage (outcome_fails t before fault)).1).0
            ≡ ok again.response)
        × ((submit sha256 outcomes responses backend q stage
              (submit sha256 outcomes responses backend q stage
                (outcome_fails t before fault)).1).1.saved
            ≡ again.final)
  outcome_failure_applies_twice again next =
      let first_run = run-outcome_fails in
      let open_still =
        unresolved_pending sha256 outcomes responses backend q stage t before before valid
          s.response unresolved in
      let second_run =
        run_returns sha256 outcomes responses backend q stage
          (pending_after sha256 outcomes responses backend q s.response t) s.final s.final valid
          again.response again.edited again.final next (ground (arith, open_still)) lives in
      (
        ap (λ (p : Result R × World B). p.0) first_run,
        ap (λ (p : Result R × World B). p.1.saved) first_run,
        ap (λ (p : Result R × World B). (submit sha256 outcomes responses backend q stage p.1).0)
              first_run
            ∙ ap (λ (p : Result R × World B). p.0) second_run,
        ap
              (λ (p : Result R × World B).
                (submit sha256 outcomes responses backend q stage p.1).1.saved)
              first_run
            ∙ ap (λ (p : Result R × World B). p.1.saved) second_run,
      )
