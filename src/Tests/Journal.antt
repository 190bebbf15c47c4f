-- ===== src/Tests/Journal.antt =====
-- The journal at concrete rows.
use daichod.Base.{List, ℕ, ◌≡◌, refl, true, Option, none, some, [], ◌∷◌}
use daichod.Base.Text.{Bytes, bytes_eq, str}
use daichod.Exec.{ok}
use daichod.Journal.{Disk, Intent, Tables}
use daichod.Journal.Invariant.{outcome, intent, Write, IsValid, write, write-IsValid, stage}
use daichod.Journal.Phase.{phase, calm}
use daichod.Journal.Phase.Trace.{play, play_phases, phase-play}
use daichod.Journal.Recovery.{reconcile_pending_mutations}
use daichod.Journal.Recovery.Settled.{recovered, reconcile-recovered}
use daichod.Rpc.Mutation.{succeeded}
use daichod.Tests.Toy.{toy_outcomes, toy_sha}

abbrev pub row : ℕ → ℕ → Option Bytes → Intent
row id time pending = record {
  mutation_id = id ∷ [];
  rpc_name = str "/PostTransaction";
  payload = id ∷ [];
  payload_sha256 = [];
  journaled_at_utc = time;
  pending_response = pending;
}

-- Id 1 is pending, id 2 has its intent alone, and id 3 is resolved.
abbrev pub three_rows : Tables
three_rows = record {
  intents = row 1 30 (some (7 ∷ [])) ∷ row 2 10 none ∷ row 3 20 (some (8 ∷ [])) ∷ [];
  applied = record { mutation_id = 3 ∷ []; outcome = 9 ∷ []; applied_at_utc = 21 } ∷ [];
}

pub three_rows-IsValid : IsValid three_rows
unfolding bytes_eq
three_rows-IsValid = record {
  intents_unique = (refl, (refl, (refl, tt)));
  applied_unique = (refl, tt);
  references = (refl, tt);
}

reconcile-recovered_example :
    (m : ℕ) × (t' : Tables) × (reconcile_pending_mutations toy_outcomes
        (λ e. some true)
        (λ e. 40)
        (calm three_rows)
      ≡ (ok m, calm t'))
    × ((j : Bytes)
        → phase t' j ≡ recovered toy_outcomes (λ e. some true) (λ e. 40) j (phase three_rows j))
reconcile-recovered_example =
    reconcile-recovered toy_outcomes (λ e. some true) (λ e. 40) three_rows three_rows-IsValid

-- An intent, whose pending response SQLite fails to write, and then its outcome.
abbrev three_writes : List (Write toy_sha toy_outcomes)
three_writes =
    intent (5 ∷ []) (str "/AddPrice") (6 ∷ []) 50
    ∷ stage (5 ∷ []) (7 ∷ [])
    ∷ outcome (5 ∷ []) (succeeded (str "/AddPrice") (7 ∷ [])) 51
    ∷ []

abbrev one_fault : Disk
one_fault = record {
  tables = three_rows;
  faults = none ∷ some (record { message = []; context = [] }) ∷ [];
}

phase-play_example :
    phase (play three_writes one_fault).tables (5 ∷ [])
    ≡ play_phases three_writes one_fault.faults (phase one_fault.tables) (5 ∷ [])
phase-play_example = phase-play three_writes one_fault (5 ∷ [])

write-IsValid_example :
    IsValid
      (write {sha256 = toy_sha} {codec = toy_outcomes} (stage (2 ∷ []) (7 ∷ [])) (record {
        tables = three_rows;
        faults = some (record { message = []; context = [] }) ∷ [];
      })).tables
write-IsValid_example =
    write-IsValid {sha256 = toy_sha} {codec = toy_outcomes} (stage (2 ∷ []) (7 ∷ []))
      (record { tables = three_rows; faults = some (record { message = []; context = [] }) ∷ [] })
      three_rows-IsValid
