-- ===== src/Rpc/Mutation/Replayed.antt =====
-- A request whose id has its outcome recorded, on a disk that may fail any statement.
use daichod.Base.{◌≡◌, refl, ap, sym, ◌∙◌, subst, Option, none, some, List, [], ◌∷◌, arith}
use daichod.Base.Text.{Bytes}
use daichod.Base.Codec.{Codec}
use daichod.Exec.{Result, ok, err, aborted, Exec, continue}
use daichod.World.{World, CrashPoint, on_disk, crash_point_maybe, after_intent}
use daichod.Journal.{Outcome, Tables, Disk, Fault, record_intent, get_outcome}
use daichod.Journal.Invariant.{intent}
use daichod.Journal.Phase.Calm.{get_outcome-resolved}
use daichod.Rpc.Mutation.{Request, Recorder, run_mutation, validate_mutation_id, replay, execute}
use daichod.Rpc.Mutation.Keeps.{IsRecorded, write-IsRecorded, get_outcome-tables}

value_or : {X : Type 0} → X → Result X → X
value_or x (ok y) = y
value_or x (err e) = x
value_or x aborted = x

ok_inj : {X : Type 0} {x y : X} → ok x ≡ ok y → x ≡ y
unfolding value_or
ok_inj {x = x} h = ap (value_or x) h

-- A run on an id whose outcome is recorded, on a disk that may fail any statement.
module _ {B R : Type 0} (sha256 : Bytes → Bytes) (outcomes : Codec Outcome) (responses : Codec R)
    (q : Request) (o : Outcome) (w : World B) where
  -- Both books are as they were, and the outcome is recorded.
  record IsSame (v : World B) : Type 0 where
    live_same : v.live ≡ w.live
    saved_same : v.saved ≡ w.saved
    recorded : IsRecorded q.mutation_id (outcomes.serialize o) v.disk.tables

  -- The books are as they were, and what is returned, if anything is, is the recorded response.
  pub record IsReplay (p : Result R × World B) : Type 0 where
    pub live_kept : p.1.live ≡ w.live
    pub saved_kept : p.1.saved ≡ w.saved
    pub answer : (x : R) → p.0 ≡ ok x → responses.parse o.response ≡ some x

  same_then :
      {X : Type 0} (r : Result X × World B) (k : X → Exec (World B) R)
      → IsSame r.1
      → ((x : X) (v : World B) → r ≡ (ok x, v) → IsSame v → IsReplay (k x v))
      → IsReplay (continue r k)
  same_then (ok x, v) k h f = f x v refl h
  same_then (err e, v) k h f = record {
    live_kept = h.live_same;
    saved_kept = h.saved_same;
    answer = λ x q. absurd (ground (arith, q));
  }
  same_then (aborted, v) k h f = record {
    live_kept = h.live_same;
    saved_kept = h.saved_same;
    answer = λ x q. absurd (ground (arith, q));
  }

  validate-IsSame : (v : World B) → IsSame v → IsSame (validate_mutation_id q.mutation_id v).1
  unfolding validate_mutation_id
  validate-IsSame v h = subst IsSame (ground arith) h

  crash_point-IsSame :
      (target : Option CrashPoint) (p : CrashPoint) (v : World B)
      → IsSame v
      → IsSame (crash_point_maybe target p v).1
  crash_point-IsSame none p v h = h
  crash_point-IsSame (some target) p v h = subst IsSame (ground arith) h

  intent-IsSame :
      (v : World B)
      → IsSame v
      → IsSame (on_disk (record_intent sha256 q.mutation_id q.rpc_name q.payload q.now) v).1
  intent-IsSame v h = record {
    live_same = h.live_same;
    saved_same = h.saved_same;
    recorded =
        write-IsRecorded {sha256 = sha256} {codec = outcomes} q.mutation_id (outcomes.serialize o)
          (intent q.mutation_id q.rpc_name q.payload q.now) v.disk h.recorded;
  }

  outcome-IsSame :
      (v : World B) → IsSame v → IsSame (on_disk (get_outcome outcomes q.mutation_id) v).1
  outcome-IsSame v h = record {
    live_same = h.live_same;
    saved_same = h.saved_same;
    recorded =
        subst (IsRecorded q.mutation_id (outcomes.serialize o))
          (sym (get_outcome-tables outcomes q.mutation_id v.disk)) h.recorded;
  }

  -- What GetOutcome finds.
  found_outcome :
      (t : Tables) (fs : List (Option Fault)) (x : Option Outcome) (d : Disk)
      → IsRecorded q.mutation_id (outcomes.serialize o) t
      → get_outcome outcomes q.mutation_id (record { tables = t; faults = fs }) ≡ (ok x, d)
      → x ≡ some o
  unfolding get_outcome
  found_outcome t [] x d h k = ok_inj (
      ap (λ (p : Result (Option Outcome) × Disk). p.0)
        (sym k ∙ get_outcome-resolved outcomes q.mutation_id t o h))
  found_outcome t (none ∷ fs) x d h k =
      let found : (get_outcome outcomes q.mutation_id (record { tables = t; faults = none ∷ fs })).0
          ≡ ok (some o) =
        ground (arith, h, outcomes.parse-serialize o) in
      ok_inj (ap (λ (p : Result (Option Outcome) × Disk). p.0) (sym k) ∙ found)
  found_outcome t (some f ∷ fs) x d h k = ground (arith, k)

  replay-IsReplay : (v : World B) → IsSame v → IsReplay (replay sha256 outcomes responses q o v)
  replay-IsReplay v h = record {
    live_kept = ground (arith, h.live_same);
    saved_kept = ground (arith, h.saved_same);
    answer = λ x k. ground (arith, k);
  }

  module _ (apply : Recorder B R → Exec (World B) R) where
    answered :
        (x : Option Outcome) (v : World B)
        → x ≡ some o
        → IsSame v
        → let answer : Exec (World B) R = elim x [
          | some p ↦ replay sha256 outcomes responses q p
          | none ↦ execute sha256 outcomes responses q apply
        ] in
          IsReplay (answer v)
    answered none v e h = absurd (ground (arith, e))
    answered (some p) v e h =
        let same : o ≡ p = ground (arith, e) in
        subst (λ (p : Outcome). IsReplay (replay sha256 outcomes responses q p v)) same
          (replay-IsReplay v h)

    -- Whatever the request with the id asks for, whatever SQLite fails and wherever the process dies.
    pub run-IsReplay :
        IsRecorded q.mutation_id (outcomes.serialize o) w.disk.tables
        → IsReplay (run_mutation sha256 outcomes responses q apply w)
    unfolding run_mutation
    run-IsReplay recorded =
        let start : IsSame w = record {
          live_same = refl;
          saved_same = refl;
          recorded = recorded;
        } in
        same_then (validate_mutation_id q.mutation_id w) _ (validate-IsSame w start) (λ _ w1 _ h1.
          same_then (on_disk (record_intent sha256 q.mutation_id q.rpc_name q.payload q.now) w1) _
            (intent-IsSame w1 h1)
            (λ _ w2 _ h2.
              same_then (crash_point_maybe q.crash_at after_intent w2) _
                (crash_point-IsSame q.crash_at after_intent w2 h2)
                (λ _ w3 _ h3.
                  same_then (on_disk (get_outcome outcomes q.mutation_id) w3) _
                    (outcome-IsSame w3 h3)
                    (λ x w4 e h4.
                      answered x w4
                        (found_outcome w3.disk.tables w3.disk.faults x w4.disk h3.recorded
                          (ap (λ (p : Result (Option Outcome) × World B). (p.0, p.1.disk)) e))
                        h4))))
