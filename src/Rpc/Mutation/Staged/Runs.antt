-- ===== src/Rpc/Mutation/Staged/Runs.antt =====
-- A run of the protocol on a calm disk, for each point at which the process may die.
use daichod.Base.{◌≡◌, true, false, none, some, arith}
use daichod.Base.Text.{Bytes, bytes_eq_refl}
use daichod.Base.Codec.{Codec}
use daichod.Exec.{Result, ok, aborted}
use daichod.World.{World, Backend, after_intent, after_pending, after_apply, after_outcome}
use daichod.Journal.{Outcome, Tables, record_intent, record_pending, record_outcome, get_outcome}
use daichod.Journal.Phase.{resolved, phase, calm, is_open}
use daichod.Journal.Phase.Refinement.{
  phase-record_outcome, phase-record_intent, phase-record_pending,
}
use daichod.Journal.Phase.Calm.{
  get_outcome-resolved, intent-calm, pending-calm, outcome-calm, get_outcome-unresolved,
  is_resolved,
}
use daichod.Rpc.Mutation.{replay, Request, run_mutation, is_uuid, validate_mutation_id, succeeded}
use daichod.Rpc.Mutation.Staged.{staged, Staging}

abbrev pub on_calm : {B : Type 0} → Tables → B → B → World B
on_calm t live saved = record { disk = calm t; live = live; saved = saved }

module _ {B R : Type 0} (sha256 : Bytes → Bytes) (outcomes : Codec Outcome) (responses : Codec R)
    (backend : Backend B) (q : Request) where
  -- The tables after each statement of the protocol.
  abbrev pub intents_after : Tables → Tables
  intents_after t =
      (record_intent sha256 q.mutation_id q.rpc_name q.payload q.now (calm t)).1.tables

  abbrev pub pending_after : R → Tables → Tables
  pending_after r t =
      (record_pending q.mutation_id (responses.serialize r) (calm (intents_after t))).1.tables

  abbrev pub outcome_after : R → Tables → Tables
  outcome_after r t =
      (record_outcome outcomes q.mutation_id (succeeded q.rpc_name (responses.serialize r)) q.now
        (calm (pending_after r t))).1.tables

  module _ (stage : B → Result (Staging B R)) (t : Tables) (live saved : B)
      (valid : is_uuid q.mutation_id ≡ true) where
    -- The id has an intent and no outcome when the statement that reads the outcome runs.
    pub unresolved_begun :
        is_resolved (phase t q.mutation_id) ≡ false
        → is_open (phase (intents_after t) q.mutation_id) ≡ true
    unresolved_begun h = ground (
      arith,
      phase-record_intent sha256 q.mutation_id q.rpc_name q.payload q.now t q.mutation_id,
      bytes_eq_refl q.mutation_id,
    )

    pub unresolved_pending :
        (r : R)
        → is_resolved (phase t q.mutation_id) ≡ false
        → is_open (phase (pending_after r t) q.mutation_id) ≡ true
    unresolved_pending r h = ground (
      arith,
      unresolved_begun h,
      phase-record_pending q.mutation_id (responses.serialize r) (intents_after t) q.mutation_id,
      bytes_eq_refl q.mutation_id,
    )

    pub phase-outcome_after :
        (r : R)
        → is_resolved (phase t q.mutation_id) ≡ false
        → phase (outcome_after r t) q.mutation_id
          ≡ resolved (outcomes.serialize (succeeded q.rpc_name (responses.serialize r)))
    phase-outcome_after r h = ground (
      arith,
      phase-record_outcome outcomes q.mutation_id (succeeded q.rpc_name (responses.serialize r))
          q.now (pending_after r t) q.mutation_id,
      bytes_eq_refl q.mutation_id,
      unresolved_pending r h,
    )

    pub run_dies_after_intent :
        q.crash_at ≡ some after_intent
        → run_mutation sha256 outcomes responses q (staged backend stage) (on_calm t live saved)
          ≡ (aborted, on_calm (intents_after t) live saved)
    unfolding run_mutation validate_mutation_id
    run_dies_after_intent dies = rw (valid, intent-calm, dies)

    -- A recorded outcome is answered from the journal, whatever apply() would do.
    pub run_replays :
        (o : Outcome)
        → phase t q.mutation_id ≡ resolved (outcomes.serialize o)
        → q.crash_at ≡ none
        → run_mutation sha256 outcomes responses q (staged backend stage) (on_calm t live saved)
          ≡ replay sha256 outcomes responses q o (on_calm (intents_after t) live saved)
    unfolding run_mutation validate_mutation_id
    run_replays o known lives = ground (
      arith,
      intent-calm sha256 q.mutation_id q.rpc_name q.payload q.now t,
      get_outcome-resolved outcomes q.mutation_id (intents_after t) o,
      phase-record_intent sha256 q.mutation_id q.rpc_name q.payload q.now t q.mutation_id,
      bytes_eq_refl q.mutation_id,
    )

    module _ (r : R) (edited b : B)
        (decided : stage live ≡ ok (record { response = r; edited = edited; final = b }))
        (unresolved : is_resolved (phase t q.mutation_id) ≡ false) where
      intent_recorded :
          record_intent sha256 q.mutation_id q.rpc_name q.payload q.now (calm t)
          ≡ (ok tt, calm (intents_after t))
      intent_recorded = intent-calm sha256 q.mutation_id q.rpc_name q.payload q.now t

      pending_recorded :
          record_pending q.mutation_id (responses.serialize r) (calm (intents_after t))
          ≡ (ok tt, calm (pending_after r t))
      pending_recorded = pending-calm q.mutation_id (responses.serialize r) (intents_after t)

      recorded_none :
          get_outcome outcomes q.mutation_id (calm (intents_after t))
          ≡ (ok none, calm (intents_after t))
      recorded_none =
          get_outcome-unresolved outcomes q.mutation_id (intents_after t)
            (ground (arith, unresolved_begun unresolved))

      outcome_recorded :
          record_outcome outcomes q.mutation_id
            (succeeded q.rpc_name (responses.serialize r))
            q.now
            (calm (pending_after r t))
          ≡ (ok tt, calm (outcome_after r t))
      outcome_recorded =
          outcome-calm outcomes q.mutation_id (pending_after r t) _ q.now
            (unresolved_pending r unresolved)

      -- What a run comes to once apply() is reached.
      pub run_dies_after_pending :
          q.crash_at ≡ some after_pending
          → run_mutation sha256 outcomes responses q (staged backend stage) (on_calm t live saved)
            ≡ (aborted, on_calm (pending_after r t) edited saved)
      unfolding run_mutation validate_mutation_id
      run_dies_after_pending dies = ground (arith, intent_recorded, recorded_none, pending_recorded)

      pub run_dies_after_apply :
          q.crash_at ≡ some after_apply
          → run_mutation sha256 outcomes responses q (staged backend stage) (on_calm t live saved)
            ≡ (aborted, on_calm (pending_after r t) b b)
      unfolding run_mutation validate_mutation_id
      run_dies_after_apply dies =
          ground
            (arith, intent_recorded, recorded_none, pending_recorded, backend.commit_saves saved b)

      pub run_dies_after_outcome :
          q.crash_at ≡ some after_outcome
          → run_mutation sha256 outcomes responses q (staged backend stage) (on_calm t live saved)
            ≡ (aborted, on_calm (outcome_after r t) b b)
      unfolding run_mutation validate_mutation_id
      run_dies_after_outcome dies = ground (
        arith,
        intent_recorded,
        recorded_none,
        pending_recorded,
        backend.commit_saves saved b,
        outcome_recorded,
      )

      pub run_returns :
          q.crash_at ≡ none
          → run_mutation sha256 outcomes responses q (staged backend stage) (on_calm t live saved)
            ≡ (ok r, on_calm (outcome_after r t) b b)
      unfolding run_mutation validate_mutation_id
      run_returns lives = ground (
        arith,
        intent_recorded,
        recorded_none,
        pending_recorded,
        backend.commit_saves saved b,
        outcome_recorded,
      )
