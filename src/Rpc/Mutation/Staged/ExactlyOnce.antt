-- ===== src/Rpc/Mutation/Staged/ExactlyOnce.antt =====
-- A crash at any point of the protocol, the restart, the reconciliation, and the client's retry.
use daichod.Base.{subst, ℕ, ◌≡◌, refl, sym, ◌∙◌, ap, Bool, true, false, Option, none, some, arith}
use daichod.Base.Text.{Bytes, bytes_eq_refl}
use daichod.Base.Codec.{Codec}
use daichod.Exec.{Result, ok, Exec}
use daichod.World.{
  CrashPoint, after_intent, after_pending, after_apply, after_outcome, World, Backend, restart,
  on_disk, death, lives, at_intent, at_pending, at_apply, at_outcome,
}
use daichod.Journal.{Outcome, Tables, PendingEntry}
use daichod.Journal.Invariant.{IsValid, write-IsValid, intent, stage, outcome}
use daichod.Journal.Phase.{phase, calm, begin, intended, pending, resolved}
use daichod.Journal.Phase.Calm.{is_resolved}
use daichod.Journal.Phase.Refinement.{phase-record_intent, phase-record_pending}
use daichod.Journal.Recovery.{is_applied, reconciled, reconcile_pending_mutations}
use daichod.Journal.Recovery.Settled.{recovered, reconcile-recovered}
use daichod.Rpc.Mutation.{CrashPoint, Request, run_mutation, is_uuid, succeeded}
use daichod.Rpc.Mutation.Staged.{staged, Staging}
use daichod.Rpc.Mutation.Staged.Runs.{
  phase-outcome_after, on_calm, intents_after, pending_after, outcome_after, run_dies_after_intent,
  run_dies_after_pending, run_dies_after_apply, run_dies_after_outcome, run_returns, run_replays,
}

-- Startup reconciles against the book that it loaded.
abbrev pub recover :
    {B : Type 0}
    → Codec Outcome
    → (B → PendingEntry → Option Bool)
    → (PendingEntry → ℕ)
    → Exec (World B) ℕ
recover outcomes was_applied now w =
    on_disk (reconcile_pending_mutations outcomes (was_applied w.live) now) w

-- The same request, sent again to a process that does not die.
abbrev pub retry_of : Request → ℕ → Request
retry_of q later = record q { now = later; crash_at = none }

-- Does a run that dies there die before it commits?
abbrev pub dies_uncommitted : Option CrashPoint → Bool
dies_uncommitted none = false
dies_uncommitted (some after_intent) = true
dies_uncommitted (some after_pending) = true
dies_uncommitted (some after_apply) = false
dies_uncommitted (some after_outcome) = false

module _ {B R : Type 0} (sha256 : Bytes → Bytes) (outcomes : Codec Outcome) (responses : Codec R)
    (backend : Backend B) (was_applied : B → PendingEntry → Option Bool) (now : PendingEntry → ℕ)
    (apply : B → Result (Staging B R)) (q : Request) (later : ℕ) (t : Tables)
    (before edited after : B) (r : R) where
  abbrev pub entry : PendingEntry
  entry = record {
    mutation_id = q.mutation_id;
    rpc_name = q.rpc_name;
    request_payload = q.payload;
    pending_response = responses.serialize r;
  }

  -- The first run, up to its crash or its answer.
  abbrev pub first_run : Result R × World B
  first_run =
      run_mutation sha256 outcomes responses q (staged backend apply) (on_calm t before before)

  -- The daemon starts again, reconciles, and is sent the request once more.
  abbrev pub second_run : World B → Result R × World B
  second_run w =
      run_mutation sha256 outcomes responses (retry_of q later) (staged backend apply)
        (recover outcomes was_applied now (restart w)).1

  -- The client has the response, the book holds the edit once, and the id is resolved.
  pub record IsDone (answer : Result R × World B) : Type 0 where
    pub answers : answer.0 ≡ ok r
    pub saved_once : answer.1.saved ≡ after
    pub live_once : answer.1.live ≡ after
    pub recorded : is_resolved (phase answer.1.disk.tables q.mutation_id) ≡ true

  -- What the request meets: a valid id, new or known by its intent alone.
  pub record Meets : Type 0 where
    pub is_valid : is_uuid q.mutation_id ≡ true
    pub keys : IsValid t
    pub unresolved : is_resolved (phase t q.mutation_id) ≡ false
    pub same_request :
        begin q.rpc_name q.payload (phase t q.mutation_id) ≡ intended q.rpc_name q.payload
    pub decided : apply before ≡ ok (record { response = r; edited = edited; final = after })
    pub shown_after : was_applied after entry ≡ some true
    pub hidden_before : is_applied (was_applied before entry) ≡ false

  module _ (is_valid : is_uuid q.mutation_id ≡ true) where
    -- A retry that finds the bare intent runs apply() on the book as it was.
    retry_runs :
        apply before ≡ ok (record { response = r; edited = edited; final = after })
        → (t' : Tables) → phase t' q.mutation_id ≡ intended q.rpc_name q.payload
        → IsDone (
            run_mutation sha256 outcomes responses
              (retry_of q later)
              (staged backend apply)
              (on_calm t' before before))
    retry_runs decided t' h =
        let unresolved : is_resolved (phase t' q.mutation_id) ≡ false = ground arith in
        subst IsDone
          (sym (
            run_returns sha256 outcomes responses backend (retry_of q later) apply t' before before
              is_valid r edited after decided unresolved refl))
          (record {
            answers = refl;
            saved_once = refl;
            live_once = refl;
            recorded = ap is_resolved (
                phase-outcome_after sha256 outcomes responses backend (retry_of q later) apply t'
                  before before is_valid r unresolved);
          })

    -- A retry that finds the outcome is answered from the journal.
    retry_replays :
        (t' : Tables) (o : Outcome)
        → phase t' q.mutation_id ≡ resolved (outcomes.serialize o)
        → o.is_ok ≡ true
        → o.response ≡ responses.serialize r
        → IsDone (
            run_mutation sha256 outcomes responses
              (retry_of q later)
              (staged backend apply)
              (on_calm t' after after))
    retry_replays t' o h good same =
        subst IsDone
          (sym (
            run_replays sha256 outcomes responses backend (retry_of q later) apply t' after after
              is_valid o h refl))
          (rw good (
            rw (same, responses.parse-serialize)
              (record {
                answers = refl;
                saved_once = refl;
                live_once = refl;
                recorded = ground (
                  arith,
                  phase-record_intent sha256 q.mutation_id q.rpc_name q.payload later t'
                      q.mutation_id,
                );
              })))

    -- A retry after recovery, by what recovery made of the id.
    pub recovered_runs :
        apply before ≡ ok (record { response = r; edited = edited; final = after })
        → (t' : Tables) (live : B) → IsValid t'
        → recovered outcomes (was_applied before) now q.mutation_id (phase t' q.mutation_id)
          ≡ intended q.rpc_name q.payload
        → IsDone (second_run (on_calm t' live before))
    recovered_runs decided t' live v h =
        let (n, u, runs, phases) = reconcile-recovered outcomes (was_applied before) now t' v in
        rw runs (retry_runs decided u (phases q.mutation_id ∙ h))

    pub recovered_replays :
        (t' : Tables) (o : Outcome) (live : B)
        → IsValid t'
        → recovered outcomes (was_applied after) now q.mutation_id (phase t' q.mutation_id)
          ≡ resolved (outcomes.serialize o)
        → o.is_ok ≡ true
        → o.response ≡ responses.serialize r
        → IsDone (second_run (on_calm t' live after))
    recovered_replays t' o live v h good same =
        let (n, u, runs, phases) = reconcile-recovered outcomes (was_applied after) now t' v in
        rw runs (retry_replays u o (phases q.mutation_id ∙ h) good same)

  module _ (m : Meets) where
    begun_tables : Tables
    begun_tables = intents_after sha256 outcomes responses backend q t

    pending_tables : Tables
    pending_tables = pending_after sha256 outcomes responses backend q r t

    outcome_tables : Tables
    outcome_tables = outcome_after sha256 outcomes responses backend q r t

    phase-begun : phase begun_tables q.mutation_id ≡ intended q.rpc_name q.payload
    unfolding begun_tables
    phase-begun = ground (
      arith,
      phase-record_intent sha256 q.mutation_id q.rpc_name q.payload q.now t q.mutation_id,
      bytes_eq_refl q.mutation_id,
      m.same_request,
    )

    phase-pending :
        phase pending_tables q.mutation_id ≡ pending q.rpc_name q.payload (responses.serialize r)
    unfolding pending_tables begun_tables
    phase-pending = ground (
      arith,
      phase-record_pending q.mutation_id (responses.serialize r) begun_tables q.mutation_id,
      bytes_eq_refl q.mutation_id,
      phase-begun,
    )

    done : Outcome
    done = succeeded q.rpc_name (responses.serialize r)

    phase-outcome : phase outcome_tables q.mutation_id ≡ resolved (outcomes.serialize done)
    unfolding outcome_tables done
    phase-outcome =
        phase-outcome_after sha256 outcomes responses backend q apply t before before m.is_valid r
          m.unresolved

    begun-IsValid : IsValid begun_tables
    unfolding begun_tables
    begun-IsValid =
        write-IsValid {sha256 = sha256} {codec = outcomes}
          (intent q.mutation_id q.rpc_name q.payload q.now) (calm t) m.keys

    pending-IsValid : IsValid pending_tables
    unfolding pending_tables begun_tables
    pending-IsValid =
        write-IsValid {sha256 = sha256} {codec = outcomes}
          (stage q.mutation_id (responses.serialize r)) (calm begun_tables) begun-IsValid

    outcome-IsValid : IsValid outcome_tables
    unfolding outcome_tables pending_tables done
    outcome-IsValid =
        write-IsValid {sha256 = sha256} {codec = outcomes} (outcome q.mutation_id done q.now)
          (calm pending_tables) pending-IsValid

    is_ok-done : done.is_ok ≡ true
    unfolding done
    is_ok-done = refl

    response-done : done.response ≡ responses.serialize r
    unfolding done
    response-done = refl

    -- What recovery makes of the id, by where the first run died.
    settled_intent :
        recovered outcomes (was_applied before) now q.mutation_id (phase begun_tables q.mutation_id)
        ≡ intended q.rpc_name q.payload
    settled_intent = rw phase-begun

    settled_pending :
        recovered outcomes
          (was_applied before)
          now
          q.mutation_id
          (phase pending_tables q.mutation_id)
        ≡ intended q.rpc_name q.payload
    settled_pending = rw phase-pending (rw m.hidden_before)

    settled_applied :
        recovered outcomes
          (was_applied after)
          now
          q.mutation_id
          (phase pending_tables q.mutation_id)
        ≡ resolved (outcomes.serialize (reconciled entry))
    settled_applied = rw phase-pending (rw m.shown_after)

    settled_outcome :
        recovered outcomes
          (was_applied after)
          now
          q.mutation_id
          (phase outcome_tables q.mutation_id)
        ≡ resolved (outcomes.serialize done)
    settled_outcome = rw phase-outcome

    -- What holds of the world in which the first run stops: by whether the edit is committed, and so what recovery makes of
    -- the id.
    pub first_run_stops :
        (Q : World B → Type 0)
        → (dies_uncommitted q.crash_at ≡ true
            → (t' : Tables) (live : B) → IsValid t'
            → recovered outcomes (was_applied before) now q.mutation_id (phase t' q.mutation_id)
              ≡ intended q.rpc_name q.payload
            → Q (on_calm t' live before))
        → (dies_uncommitted q.crash_at ≡ false
            → (t' : Tables) (o : Outcome) (live : B) → IsValid t'
            → recovered outcomes (was_applied after) now q.mutation_id (phase t' q.mutation_id)
              ≡ resolved (outcomes.serialize o)
            → o.is_ok ≡ true
            → o.response ≡ responses.serialize r
            → Q (on_calm t' live after))
        → Q first_run.1
    unfolding begun_tables pending_tables outcome_tables
    first_run_stops Q dropped kept = elim (death q.crash_at) [
      | lives e ↦
          rw
            (run_returns sha256 outcomes responses backend q apply t before before m.is_valid r
              edited after m.decided m.unresolved e)
            (kept (ap dies_uncommitted e) outcome_tables done after outcome-IsValid settled_outcome
              is_ok-done response-done)
      | at_intent e ↦
          rw
            (run_dies_after_intent sha256 outcomes responses backend q apply t before before
              m.is_valid e)
            (dropped (ap dies_uncommitted e) begun_tables before begun-IsValid settled_intent)
      | at_pending e ↦
          rw
            (run_dies_after_pending sha256 outcomes responses backend q apply t before before
              m.is_valid r edited after m.decided m.unresolved e)
            (dropped (ap dies_uncommitted e) pending_tables edited pending-IsValid settled_pending)
      | at_apply e ↦
          rw
            (run_dies_after_apply sha256 outcomes responses backend q apply t before before
              m.is_valid r edited after m.decided m.unresolved e)
            (kept (ap dies_uncommitted e) pending_tables (reconciled entry) after pending-IsValid
              settled_applied refl refl)
      | at_outcome e ↦
          rw
            (run_dies_after_outcome sha256 outcomes responses backend q apply t before before
              m.is_valid r edited after m.decided m.unresolved e)
            (kept (ap dies_uncommitted e) outcome_tables done after outcome-IsValid settled_outcome
              is_ok-done response-done)
    ]

    -- At whichever crash point the process dies in the first run, if it does: after the restart, the reconciliation and one
    -- retry, the client has the response, the book holds the edit once and the id is resolved; for what the request `Meets`, on
    -- a disk that fails no statement.
    pub exactly_once : IsDone (second_run first_run.1)
    exactly_once =
        first_run_stops (λ w. IsDone (second_run w)) (λ _. recovered_runs m.is_valid m.decided)
          (λ _. recovered_replays m.is_valid)
