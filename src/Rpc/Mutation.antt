-- ===== src/Rpc/Mutation.antt =====
-- src/rpc/mutation.h and src/rpc/mutation.cpp: the mutation protocol, which every mutating RPC runs
-- through.
pub mod Refused
pub mod Uuid
pub mod Staged
pub mod Keeps
pub mod Replayed
pub mod History
use daichod.Base.{
  ℕ, zero, suc, Bool, true, false, ◌&&◌, Option, none, some, List, [], ◌∷◌, ◌++◌, length, ◌==◌,
  if◌then◌else◌, ◌||◌, leb,
}
use daichod.Base.Text.{Bytes, str}
use daichod.Base.Codec.{Codec}
use daichod.Exec.{Result, ok, err, aborted, Exec, pure, throw, guard, catch_shim, ◌>>=◌, ◌>>◌}
use daichod.Journal.{Outcome, record_intent, get_outcome, record_pending, record_outcome}
use daichod.Rpc.Error.{
  ErrorDetail, ShimError, Exception, shim, engine_error, invalid_argument, unspecified,
  is_deterministic_verdict, to_detail, from_detail,
}
use daichod.World.{
  World, CrashPoint, after_intent, after_pending, after_apply, after_outcome, on_disk,
  crash_point_maybe,
}

-- std::isxdigit in the C locale
unfoldable pub is_xdigit : ℕ → Bool
is_xdigit c = (leb b'0' c && leb c b'9') || (leb b'a' c && leb c b'f') || (leb b'A' c && leb c b'F')

-- kPattern of ValidateMutationId
abbrev pub pattern_of_uuid : Bytes
pattern_of_uuid = str "xxxxxxxx-xxxx-xxxx-xxxx-xxxxxxxxxxxx"

-- The loop of ValidateMutationId: one byte of the pattern and of the id at a time.
unfoldable pub matches_pattern : Bytes → Bytes → Bool
matches_pattern (p ∷ ps) (c ∷ cs) =
    (if p == b'-' then c == b'-' else is_xdigit c) && matches_pattern ps cs
matches_pattern _ _ = true

unfoldable pub is_uuid : Bytes → Bool
is_uuid id = length id == length pattern_of_uuid && matches_pattern pattern_of_uuid id

-- ValidateMutationId
unfoldable pub validate_mutation_id : {S : Type 0} → Bytes → Exec S (Unit {0})
validate_mutation_id id = guard (is_uuid id) (
    shim (record {
      code = invalid_argument;
      engine_message = str "mutation_id must be a UUID";
      context = id;
    }))

-- The arguments of RunMutation: the id of the request's meta, the serialised request, the RPC's name,
-- std::time, and the point at which the process is to die.
pub record Request : Type 0 where
  pub mutation_id : Bytes
  pub payload : Bytes
  pub rpc_name : Bytes
  pub now : ℕ
  pub crash_at : Option CrashPoint

abbrev no_error : ErrorDetail
no_error = record { code = unspecified; engine_message = []; context = [] }

-- The outcome of an apply() that returned, with the serialised response.
abbrev pub succeeded : Bytes → Bytes → Outcome
succeeded rpc_name response = record {
  rpc_name = rpc_name;
  is_ok = true;
  response = response;
  error = no_error;
}

-- The outcome of an apply() that threw a ShimError.
abbrev pub failed : Bytes → ShimError → Outcome
failed rpc_name e = record {
  rpc_name = rpc_name;
  is_ok = false;
  response = [];
  error = to_detail e;
}

-- PendingRecorder: it is handed the response that is built so far.
abbrev pub Recorder : Type 0 → Type 0 → Type 0
Recorder B R = R → Exec (World B) (Unit {0})

module _ {B R : Type 0} (sha256 : Bytes → Bytes) (outcomes : Codec Outcome) (responses : Codec R)
    (q : Request) where
  -- record_pending
  abbrev pub pending_recorder : Recorder B R
  pending_recorder r = do
    on_disk (record_pending q.mutation_id (responses.serialize r))
    crash_point_maybe q.crash_at after_pending

  -- A recorded outcome is returned as it was, failure or response.
  abbrev pub replay : Outcome → Exec (World B) R
  replay o =
      if o.is_ok
      then (elim (responses.parse o.response) [
        | some r ↦ pure r
        | none ↦ throw (
            shim (record {
              code = engine_error;
              engine_message =
                  str "journal: recorded outcome does not parse as "
                  ++ (q.rpc_name ++ str " response");
              context = q.mutation_id;
            }))
      ])
      else throw (shim (from_detail o.error))

  -- The `catch` around apply(): only a deterministic verdict is recorded.
  abbrev pub on_shim_error : ShimError → Exec (World B) R
  on_shim_error e =
      (if is_deterministic_verdict e.code
        then on_disk (record_outcome outcomes q.mutation_id (failed q.rpc_name e) q.now)
        else pure tt)
      >> throw (shim e)

  -- Steps 3 and 4.
  abbrev pub execute : (Recorder B R → Exec (World B) R) → Exec (World B) R
  execute apply = do
    r ←
        catch_shim (do r ← apply pending_recorder; crash_point_maybe q.crash_at after_apply; pure r)
          on_shim_error
    on_disk
        (record_outcome outcomes q.mutation_id (succeeded q.rpc_name (responses.serialize r)) q.now)
    crash_point_maybe q.crash_at after_outcome
    pure r

  -- RunMutation, from the task on the engine thread to what it returns or throws.
  unfoldable pub run_mutation : (Recorder B R → Exec (World B) R) → Exec (World B) R
  run_mutation apply = do
    validate_mutation_id q.mutation_id
    on_disk (record_intent sha256 q.mutation_id q.rpc_name q.payload q.now)
    crash_point_maybe q.crash_at after_intent
    recorded ← on_disk (get_outcome outcomes q.mutation_id)
    elim recorded [ some o ↦ replay o | none ↦ execute apply ]
