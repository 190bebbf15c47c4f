-- ===== src/Rpc/Mutation/Refused.antt =====
-- A refused request, and the later requests with its id.
use daichod.Base.{ap, ◌∙◌, ◌≡◌, true, false, none, []}
use daichod.Base.Codec.{Codec}
use daichod.Base.Text.{Bytes}
use daichod.Exec.{Result, err}
use daichod.World.{World, Backend}
use daichod.Journal.{Outcome, Tables}
use daichod.Journal.Phase.{phase, resolved}
use daichod.Journal.Phase.Calm.{is_resolved}
use daichod.Rpc.Error.{ShimError, shim, is_deterministic_verdict, from_detail, to_detail}
use daichod.Rpc.Mutation.{Request, is_uuid, failed}
use daichod.Rpc.Mutation.History.{Reach, Reach-IsRecorded}
use daichod.Rpc.Mutation.Staged.{Staging, submit}
use daichod.Rpc.Mutation.Staged.Refusals.{refusal_lem}
use daichod.Rpc.Mutation.Staged.Runs.{on_calm, run_replays}

-- A world whose disk fails no statement.
calm_again :
    {B : Type 0} (v : World B) → v.disk.faults ≡ [] → v ≡ on_calm v.disk.tables v.live v.saved
calm_again v calm = λ i. record {
  disk = record { tables = v.disk.tables; faults = calm i };
  live = v.live;
  saved = v.saved;
}

module _ {B R X : Type 0} (sha256 : Bytes → Bytes) (outcomes : Codec Outcome) (responses : Codec R)
    (backend : Backend B) (q : Request) (stage : B → Result (Staging B R)) (t : Tables)
    (live saved : B) (e : ShimError) where
  -- If a request with a valid and unresolved id is refused by a deterministic verdict, on a disk that fails no statement and with
  -- no crash point, then after whatever the daemon goes through from there, other requests, faults, deaths, restarts and
  -- recoveries in any order: a request with the id, of whatever type and whatever it asks for, that meets no fault and no crash
  -- point is answered by the same error, and changes neither book.
  pub refusal_replayed :
      is_uuid q.mutation_id ≡ true
      → q.crash_at ≡ none
      → is_resolved (phase t q.mutation_id) ≡ false
      → stage live ≡ err (shim e)
      → is_deterministic_verdict e.code ≡ true
      → (v : World B)
      → Reach sha256 outcomes backend
          (submit sha256 outcomes responses backend q stage (on_calm t live saved)).1
          v
      → (others : Codec X) (q' : Request) (stage' : B → Result (Staging B X)) → v.disk.faults ≡ []
      → q'.mutation_id ≡ q.mutation_id
      → q'.crash_at ≡ none
      → let again = submit sha256 outcomes others backend q' stage' v in
        (again.0 ≡ err (shim e)) × (again.1.live ≡ v.live) × (again.1.saved ≡ v.saved)
  unfolding from_detail to_detail
  refusal_replayed valid lives unresolved refused verdict v reach others q' stage' calm same
        lives' =
      let first = submit sha256 outcomes responses backend q stage (on_calm t live saved) in
      let outcome = outcomes.serialize (failed q.rpc_name e) in
      let recorded : phase first.1.disk.tables q.mutation_id ≡ resolved outcome =
        (refusal_lem sha256 outcomes responses backend q stage t live saved e valid lives unresolved
          refused).3
        ∙ rw verdict in
      let known : phase v.disk.tables q'.mutation_id ≡ resolved outcome =
        ap (phase v.disk.tables) same
        ∙ Reach-IsRecorded sha256 outcomes backend q.mutation_id outcome first.1 v reach recorded in
      let runs =
        ap (submit sha256 outcomes others backend q' stage') (calm_again v calm)
        ∙ run_replays sha256 outcomes others backend q' stage' v.disk.tables v.live v.saved
            (ap is_uuid same ∙ valid) (failed q.rpc_name e) known lives' in
      (
        ap (λ (p : Result X × World B). p.0) runs,
        ap (λ (p : Result X × World B). p.1.live) runs,
        ap (λ (p : Result X × World B). p.1.saved) runs,
      )
