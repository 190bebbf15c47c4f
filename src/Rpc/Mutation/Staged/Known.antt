-- ===== src/Rpc/Mutation/Staged/Known.antt =====
-- The crash theorem for the RPCs that recovery knows, with WasApplied as its verdict.
use daichod.Base.{ℕ, ◌≡◌, true, false, some}
use daichod.Base.Text.{Bytes}
use daichod.Base.Codec.{Codec}
use daichod.Exec.{Result, ok}
use daichod.World.{Backend}
use daichod.Journal.{Outcome, Tables, PendingEntry}
use daichod.Journal.Invariant.{IsValid}
use daichod.Journal.Phase.{phase, begin, intended}
use daichod.Journal.Phase.Calm.{is_resolved}
use daichod.Journal.Recovery.Verdict.{Engine, Kind, kind_of, was_applied}
use daichod.Journal.Recovery.Verdict.Tells.{Changes, was_applied-Changes}
use daichod.Rpc.Mutation.{World, Request, is_uuid}
use daichod.Rpc.Mutation.Staged.{Staging}
use daichod.Rpc.Mutation.Staged.ExactlyOnce.{entry, IsDone, first_run, second_run, exactly_once}

module _ {B R Guid A T : Type 0} (sha256 : Bytes → Bytes) (outcomes : Codec Outcome)
    (responses : Codec R) (backend : Backend B) (engine : Engine B Guid A T)
    (now : PendingEntry → ℕ) (apply : B → Result (Staging B R)) (q : Request) (later : ℕ)
    (t : Tables) (before edited after : B) (r : R) where
  -- The entry that the request leaves if it dies behind its pending record.
  abbrev pub own_entry : PendingEntry
  own_entry =
      entry sha256 outcomes responses backend (was_applied engine) now apply q later t before edited
        after r

  abbrev pub whole_story : Result R × World B
  whole_story =
      second_run sha256 outcomes responses backend (was_applied engine) now apply q later t before
        edited after r
        (first_run sha256 outcomes responses backend (was_applied engine) now apply q later t before
          edited after r).1

  -- For every mutating RPC: if its commit changes the book in the way that its kind is known by, then at whichever
  -- crash point the process dies in it, if it does, after restart, reconciliation and one retry the client has the response, the book holds
  -- the edit exactly once and the id is resolved; for a valid id that has no outcome, on a valid journal.
  pub known_exactly_once :
      (k : Kind)
      → is_uuid q.mutation_id ≡ true
      → IsValid t
      → is_resolved (phase t q.mutation_id) ≡ false
      → begin q.rpc_name q.payload (phase t q.mutation_id) ≡ intended q.rpc_name q.payload
      → apply before ≡ ok (record { response = r; edited = edited; final = after })
      → kind_of q.rpc_name ≡ some k
      → Changes engine k before after own_entry
      → IsDone sha256 outcomes responses backend
          (was_applied engine)
          now
          apply
          q
          later
          t
          before
          edited
          after
          r
          whole_story
  known_exactly_once k is_valid keys unresolved same decided known changes =
      let tells = was_applied-Changes engine k before after own_entry known changes in
      exactly_once sha256 outcomes responses backend (was_applied engine) now apply q later t before
        edited after r
        (record {
          is_valid = is_valid;
          keys = keys;
          unresolved = unresolved;
          same_request = same;
          decided = decided;
          shown_after = tells.0;
          hidden_before = tells.1;
        })
