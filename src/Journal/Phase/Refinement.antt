-- ===== src/Journal/Phase/Refinement.antt =====
-- The methods of the journal implement the abstract phases.
use daichod.Base.{ap, ℕ, ◌≡◌, none, some, if◌then◌else◌, arith}
use daichod.Base.Text.{str, Bytes, bytes_eq, bytes_eq_iff}
use daichod.Base.Codec.{Codec}
use daichod.Exec.{Result, ok, err}
use daichod.Journal.{
  journal_error, Outcome, Intent, Tables, record_intent, record_pending, clear_pending,
  record_outcome,
}
use daichod.Journal.Rows.{
  first-set_pending, find_intent-insert_or_ignore, find_applied-snoc, applied-insert_or_ignore,
}
use daichod.Journal.Phase.{
  Phase, phase, calm, begin, stage, unstage, resolve, absent, intended, pending, resolved,
}

abbrev pub new_intent : (Bytes → Bytes) → Bytes → Bytes → Bytes → ℕ → Intent
new_intent sha256 id rpc payload now = record {
  mutation_id = id;
  rpc_name = rpc;
  payload = payload;
  payload_sha256 = sha256 payload;
  journaled_at_utc = now;
  pending_response = none;
}

-- RecordIntent begins an id that is unknown, and leaves every other phase as it was.
pub phase-record_intent :
    (sha256 : Bytes → Bytes) (id rpc payload : Bytes) (now : ℕ) (t : Tables) (j : Bytes)
    → phase (record_intent sha256 id rpc payload now (calm t)).1.tables j
      ≡ (if bytes_eq id j then begin rpc payload (phase t j) else phase t j)
unfolding record_intent
phase-record_intent sha256 id rpc payload now t j = ground (
  arith,
  find_intent-insert_or_ignore (new_intent sha256 id rpc payload now) t j,
  applied-insert_or_ignore (new_intent sha256 id rpc payload now) t,
)

-- RecordPending moves one id.
pub phase-record_pending :
    (id b : Bytes) (t : Tables) (j : Bytes)
    → phase (record_pending id b (calm t)).1.tables j
      ≡ (if bytes_eq id j then stage b (phase t j) else phase t j)
unfolding record_pending
phase-record_pending id b t j = ground (arith, first-set_pending id j (some b) t.intents)

pub phase-clear_pending :
    (id : Bytes) (t : Tables) (j : Bytes)
    → phase (clear_pending id (calm t)).1.tables j
      ≡ (if bytes_eq id j then unstage (phase t j) else phase t j)
unfolding clear_pending
phase-clear_pending id t j = ground (arith, first-set_pending id j none t.intents)

-- What RecordOutcome answers: an id is resolved once, and only if it was journaled.
abbrev pub verdict : Phase → Result (Unit {0})
verdict absent = err (journal_error (str "FOREIGN KEY constraint failed") (str "step"))
verdict (resolved o) =
    err (journal_error (str "UNIQUE constraint failed: applied.mutation_id") (str "step"))
verdict (intended rpc payload) = ok tt
verdict (pending rpc payload b) = ok tt

module _ (codec : Codec Outcome) (id : Bytes) (o : Outcome) (now : ℕ) (t : Tables) where
  pub record_outcome-verdict : (record_outcome codec id o now (calm t)).0 ≡ verdict (phase t id)
  unfolding record_outcome
  record_outcome-verdict = ground arith

  pub phase-record_outcome :
      (j : Bytes)
      → phase (record_outcome codec id o now (calm t)).1.tables j
        ≡ (if bytes_eq id j then resolve (codec.serialize o) (phase t j) else phase t j)
  unfolding record_outcome
  phase-record_outcome j = ground (
    arith,
    find_applied-snoc
        (record { mutation_id = id; outcome = codec.serialize o; applied_at_utc = now }) t j,
    λ (e : id ≡ j). ap (phase t) e,
    bytes_eq_iff id j,
  )
