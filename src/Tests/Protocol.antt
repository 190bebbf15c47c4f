-- ===== src/Tests/Protocol.antt =====
-- The mutation protocol on a ledger to which each request adds a number.
use daichod.Base.{ℕ, ◌≡◌, refl, Bool, true, Option, none, some, [], ◌∷◌, length, ltb}
use daichod.Base.Text.{bytes_eq, Bytes, str}
use daichod.Exec.{Result, ok, err}
use daichod.World.{restart, World, after_apply}
use daichod.Journal.{Outcome, journal_error, Tables, PendingEntry, Fault, journal_error}
use daichod.Journal.Invariant.{IsValid}
use daichod.Journal.Phase.{phase, resolved}
use daichod.Rpc.Mutation.History.{Reach, here, later, runs, meets, restarts, at_most_once}
use daichod.Rpc.Mutation.Replayed.{IsReplay}
use daichod.Rpc.Mutation.{
  succeeded, run_mutation, Request, is_uuid, matches_pattern, is_xdigit, failed,
}
use daichod.Rpc.Mutation.Staged.Runs.{on_calm}
use daichod.Rpc.Error.{ShimError, shim, unbalanced_transaction, is_deterministic_verdict}
use daichod.Rpc.Mutation.Staged.{staged, Staging, submit}
use daichod.Rpc.Mutation.Staged.ExactlyOnce.{IsDone, Meets, exactly_once, first_run, second_run}
use daichod.Rpc.Mutation.Staged.Faults.{
  pending_fails, outcome_fails, pending_failure_leaves_edit, outcome_failure_applies_twice,
}
use daichod.Rpc.Mutation.Refused.{refusal_replayed}
use daichod.Rpc.Mutation.Staged.Refusals.{refusal_lem}
use daichod.Rpc.Mutation.Keeps.{IsRecorded, run-keeps_journal}
use daichod.Tests.Toy.{toy_outcomes, toy_numbers, toy_backend, toy_sha, uuid, Ledger}

-- Adds 7 to the ledger.
abbrev add_seven : Ledger → Result (Staging Ledger ℕ)
add_seven b = ok (record { response = 7; edited = 7 ∷ b; final = 7 ∷ b })

abbrev shows : Ledger → PendingEntry → Option Bool
shows b e = some (ltb 0 (length b))

abbrev dying : Request
dying = record {
  mutation_id = uuid;
  payload = [];
  rpc_name = str "/PostTransaction";
  now = 5;
  crash_at = some after_apply;
}

abbrev no_rows : Tables
no_rows = record { intents = []; applied = [] }

no_rows-IsValid : IsValid no_rows
no_rows-IsValid = record { intents_unique = tt; applied_unique = tt; references = tt }

dying-Meets :
    Meets toy_sha toy_outcomes toy_numbers toy_backend shows
      (λ e. 9)
      add_seven
      dying
      6
      no_rows
      []
      (7 ∷ [])
      (7 ∷ [])
      7
unfolding is_uuid matches_pattern is_xdigit str
dying-Meets = record {
  is_valid = refl;
  keys = no_rows-IsValid;
  unresolved = refl;
  same_request = refl;
  decided = refl;
  shown_after = refl;
  hidden_before = refl;
}

exactly_once_example :
    IsDone toy_sha toy_outcomes toy_numbers toy_backend shows
      (λ e. 9)
      add_seven
      dying
      6
      no_rows
      []
      (7 ∷ [])
      (7 ∷ [])
      7
      (second_run toy_sha toy_outcomes toy_numbers toy_backend shows
        (λ e. 9)
        add_seven
        dying
        6
        no_rows
        []
        (7 ∷ [])
        (7 ∷ [])
        7
        (first_run toy_sha toy_outcomes toy_numbers toy_backend shows
          (λ e. 9)
          add_seven
          dying
          6
          no_rows
          []
          (7 ∷ [])
          (7 ∷ [])
          7).1)
exactly_once_example =
    exactly_once toy_sha toy_outcomes toy_numbers toy_backend shows (λ e. 9) add_seven dying 6
      no_rows [] (7 ∷ []) (7 ∷ []) 7 dying-Meets

abbrev living : Request
living = record dying { crash_at = none }

abbrev full_disk : Fault
full_disk = record { message = str "database or disk is full"; context = str "step" }

abbrev seven : Staging Ledger ℕ
seven = record { response = 7; edited = 7 ∷ []; final = 7 ∷ [] }

abbrev play :
    Request → (Ledger → Result (Staging Ledger ℕ)) → World Ledger → Result ℕ × World Ledger
play = submit toy_sha toy_outcomes toy_numbers toy_backend

living-is_uuid : is_uuid living.mutation_id ≡ true
unfolding is_uuid matches_pattern is_xdigit str
living-is_uuid = refl

pending_failure_leaves_edit_example :
    ((play living add_seven (pending_fails no_rows [] full_disk)).0
      ≡ err (journal_error full_disk.message full_disk.context))
    × ((play living add_seven (pending_fails no_rows [] full_disk)).1.live ≡ 7 ∷ [])
    × ((play living add_seven (pending_fails no_rows [] full_disk)).1.saved ≡ [])
pending_failure_leaves_edit_example =
    pending_failure_leaves_edit toy_sha toy_outcomes toy_numbers toy_backend living add_seven
      no_rows [] seven full_disk living-is_uuid refl refl refl

abbrev seven_again : Staging Ledger ℕ
seven_again = record { response = 7; edited = 7 ∷ 7 ∷ []; final = 7 ∷ 7 ∷ [] }

outcome_failure_applies_twice_example :
    ((play living add_seven (outcome_fails no_rows [] full_disk)).0
      ≡ err (journal_error full_disk.message full_disk.context))
    × ((play living add_seven (outcome_fails no_rows [] full_disk)).1.saved ≡ 7 ∷ [])
    × ((play living add_seven (play living add_seven (outcome_fails no_rows [] full_disk)).1).0
        ≡ ok 7)
    × ((play living add_seven
          (play living add_seven (outcome_fails no_rows [] full_disk)).1).1.saved
        ≡ 7 ∷ 7 ∷ [])
outcome_failure_applies_twice_example =
    outcome_failure_applies_twice toy_sha toy_outcomes toy_numbers toy_backend living add_seven
      no_rows [] seven full_disk living-is_uuid refl refl refl seven_again refl

-- Refuses every request.
abbrev unbalanced : ShimError
unbalanced = record {
  code = unbalanced_transaction;
  engine_message = str "split values sum to 1/1, expected zero";
  context = str "transaction.splits";
}

abbrev refuses : Ledger → Result (Staging Ledger ℕ)
refuses b = err (shim unbalanced)

refusal_lem_example :
    ((play living refuses (on_calm no_rows [] [])).0 ≡ err (shim unbalanced))
    × ((play living refuses (on_calm no_rows [] [])).1.live ≡ [])
    × ((play living refuses (on_calm no_rows [] [])).1.saved ≡ [])
    × (phase (play living refuses (on_calm no_rows [] [])).1.disk.tables uuid
        ≡ resolved (toy_outcomes.serialize (failed living.rpc_name unbalanced)))
unfolding is_deterministic_verdict
refusal_lem_example =
    refusal_lem toy_sha toy_outcomes toy_numbers toy_backend living refuses no_rows [] [] unbalanced
      living-is_uuid refl refl refl

is_final : is_deterministic_verdict unbalanced.code ≡ true
unfolding is_deterministic_verdict
is_final = refl

abbrev refused_world : World Ledger
refused_world = (play living refuses (on_calm no_rows [] [])).1

-- Behind the refusal the request is sent again and dies at a crash point, SQLite is no more to fail, and the process starts
-- again.
abbrev long_after : World Ledger
long_after = restart (record (play dying add_seven refused_world).1 {
  disk = record (play dying add_seven refused_world).1.disk { faults = [] };
})

long_after-Reach : Reach toy_sha toy_outcomes toy_backend refused_world long_after
long_after-Reach = later (later (later here (runs toy_numbers dying add_seven)) (meets _)) restarts

refusal_replayed_example :
    ((play living add_seven long_after).0 ≡ err (shim unbalanced))
    × ((play living add_seven long_after).1.live ≡ long_after.live)
    × ((play living add_seven long_after).1.saved ≡ long_after.saved)
refusal_replayed_example =
    refusal_replayed toy_sha toy_outcomes toy_numbers toy_backend living refuses no_rows [] []
      unbalanced living-is_uuid refl refl refl is_final long_after long_after-Reach toy_numbers
      living add_seven refl refl refl

run-keeps_journal_example :
    ((id o : Bytes)
      → IsRecorded id o no_rows
      → IsRecorded id o (play dying add_seven (on_calm no_rows [] [])).1.disk.tables)
    × (IsValid no_rows → IsValid (play dying add_seven (on_calm no_rows [] [])).1.disk.tables)
run-keeps_journal_example =
    run-keeps_journal toy_sha toy_outcomes toy_numbers toy_backend add_seven dying
      (on_calm no_rows [] [])

abbrev settled : Outcome
settled = succeeded living.rpc_name (toy_numbers.serialize 7)

abbrev settled_world : World Ledger
settled_world =
    on_calm
      (record {
        intents = [];
        applied =
            record {
              mutation_id = uuid;
              outcome = toy_outcomes.serialize settled;
              applied_at_utc = 3;
            }
            ∷ [];
      })
      (7 ∷ []) (7 ∷ [])

-- A request dies, SQLite is to fail the second statement from then on, and the process starts again.
abbrev hard_times : World Ledger
hard_times = restart (record (play dying add_seven settled_world).1 {
  disk = record (play dying add_seven settled_world).1.disk {
    faults = none ∷ some (record { message = []; context = [] }) ∷ [];
  };
})

hard_times-Reach : Reach toy_sha toy_outcomes toy_backend settled_world hard_times
hard_times-Reach = later (later (later here (runs toy_numbers dying add_seven)) (meets _)) restarts

settled-IsRecorded : IsRecorded uuid (toy_outcomes.serialize settled) settled_world.disk.tables
unfolding bytes_eq str
settled-IsRecorded = refl

at_most_once_example :
    IsReplay toy_sha toy_outcomes toy_numbers living settled hard_times (
      run_mutation toy_sha toy_outcomes toy_numbers living
        (staged toy_backend add_seven)
        hard_times)
at_most_once_example =
    at_most_once toy_sha toy_outcomes toy_backend toy_numbers living (staged toy_backend add_seven)
      settled settled_world hard_times settled-IsRecorded hard_times-Reach
