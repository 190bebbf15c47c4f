-- ===== src/Rpc/Mutation/Staged/Refusals.antt =====
-- A request that apply() refuses with a ShimError.
use daichod.Base.{ap, ◌∙◌, ◌≡◌, true, false, none, arith, if◌then◌else◌}
use daichod.Base.Codec.{Codec}
use daichod.Base.Text.{Bytes, bytes_eq_refl}
use daichod.Exec.{Result, err}
use daichod.World.{World, Backend}
use daichod.Journal.{Outcome, Tables, record_outcome}
use daichod.Journal.Phase.Refinement.{phase-record_intent, phase-record_outcome}
use daichod.Journal.Phase.{begin, resolved, phase, calm}
use daichod.Journal.Phase.Calm.{is_resolved, intent-calm, get_outcome-unresolved, outcome-calm}
use daichod.Rpc.Error.{ShimError, shim, is_deterministic_verdict}
use daichod.Rpc.Mutation.{Request, run_mutation, is_uuid, failed, validate_mutation_id}
use daichod.Rpc.Mutation.Staged.{Staging, submit}
use daichod.Rpc.Mutation.Staged.Runs.{on_calm, intents_after, unresolved_begun}

module _ {B R : Type 0} (sha256 : Bytes → Bytes) (outcomes : Codec Outcome) (responses : Codec R)
    (backend : Backend B) (q : Request) (stage : B → Result (Staging B R)) (t : Tables)
    (live saved : B) (e : ShimError) (valid : is_uuid q.mutation_id ≡ true)
    (lives : q.crash_at ≡ none) (unresolved : is_resolved (phase t q.mutation_id) ≡ false)
    (refused : stage live ≡ err (shim e)) where
  abbrev refusal_tables : Tables
  refusal_tables =
      if is_deterministic_verdict e.code
      then (record_outcome outcomes q.mutation_id (failed q.rpc_name e) q.now
          (calm (intents_after sha256 outcomes responses backend q t))).1.tables
      else intents_after sha256 outcomes responses backend q t

  run_refuses :
      (submit sha256 outcomes responses backend q stage (on_calm t live saved))
      ≡ (err (shim e), on_calm refusal_tables live saved)
  unfolding run_mutation validate_mutation_id
  run_refuses =
      let begun =
        unresolved_begun sha256 outcomes responses backend q stage t live saved valid unresolved in
      ground (
        arith,
        intent-calm sha256 q.mutation_id q.rpc_name q.payload q.now t,
        get_outcome-unresolved outcomes q.mutation_id
            (intents_after sha256 outcomes responses backend q t),
        begun,
        outcome-calm outcomes q.mutation_id (intents_after sha256 outcomes responses backend q t)
            (failed q.rpc_name e) q.now,
      )

  -- On a disk that fails no statement, with no crash point, for a valid id with no outcome: if the checks refuse the request,
  -- its error is returned and both books are left alone; if it is a deterministic verdict it is recorded as the outcome, and if
  -- not the id is in the phase that the journaled intent alone puts it in.
  pub refusal_lem :
      ((submit sha256 outcomes responses backend q stage (on_calm t live saved)).0 ≡ err (shim e))
      × ((submit sha256 outcomes responses backend q stage (on_calm t live saved)).1.live ≡ live)
      × ((submit sha256 outcomes responses backend q stage (on_calm t live saved)).1.saved ≡ saved)
      × (phase
            (submit sha256 outcomes responses backend q stage (on_calm t live saved)).1.disk.tables
            q.mutation_id
          ≡ (if is_deterministic_verdict e.code
              then resolved (outcomes.serialize (failed q.rpc_name e))
              else begin q.rpc_name q.payload (phase t q.mutation_id)))
  refusal_lem =
      let begun =
        phase-record_intent sha256 q.mutation_id q.rpc_name q.payload q.now t q.mutation_id in
      (
        ap (λ (p : Result R × World B). p.0) run_refuses,
        ap (λ (p : Result R × World B). p.1.live) run_refuses,
        ap (λ (p : Result R × World B). p.1.saved) run_refuses,
        ap (λ (p : Result R × World B). phase p.1.disk.tables q.mutation_id) run_refuses
            ∙ ground (
              arith,
              begun,
              bytes_eq_refl q.mutation_id,
              unresolved_begun sha256 outcomes responses backend q stage t live saved valid
                  unresolved,
              phase-record_outcome outcomes q.mutation_id (failed q.rpc_name e) q.now
                  (intents_after sha256 outcomes responses backend q t) q.mutation_id,
            ),
      )
