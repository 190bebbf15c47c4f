-- ===== src/Journal/Recovery.antt =====
-- src/journal/recovery.h and ReconcilePendingMutations of src/journal/recovery.cpp. The verdict on
-- one entry (WasApplied) and the clock of each record are arguments.
pub mod Settled
pub mod Verdict
use daichod.Base.{ℕ, ◌+◌, Bool, true, false, Option, none, some, List, [], ◌∷◌}
use daichod.Base.Text.{Bytes}
use daichod.Base.Codec.{Codec}
use daichod.Exec.{Result, Exec, pure, ◌>>=◌, ◌>>◌}
use daichod.Rpc.Error.{ErrorDetail, unspecified}
use daichod.Journal.{
  Outcome, PendingEntry, Disk, record_outcome, clear_pending, list_pending_unresolved,
}

-- `applied.has_value() && *applied`
abbrev pub is_applied : Option Bool → Bool
is_applied none = false
is_applied (some b) = b

-- The outcome of an entry that the book shows: its pending response, byte for byte.
abbrev pub reconciled : PendingEntry → Outcome
reconciled e = record {
  rpc_name = e.rpc_name;
  is_ok = true;
  response = e.pending_response;
  error = record { code = unspecified; engine_message = []; context = [] };
}

module _ (outcomes : Codec Outcome) (was_applied : PendingEntry → Option Bool)
    (now : PendingEntry → ℕ) where
  -- One round of the loop: the entry is resolved as applied, or its pending record is dropped.
  abbrev pub settle_entry : Bool → PendingEntry → Exec Disk ℕ
  settle_entry true e = do record_outcome outcomes e.mutation_id (reconciled e) (now e); pure 1
  settle_entry false e = do clear_pending e.mutation_id; pure 0

  unfoldable pub settle_entries : List PendingEntry → ℕ → Exec Disk ℕ
  settle_entries [] applied_count = pure applied_count
  settle_entries (e ∷ es) applied_count =
      settle_entry (is_applied (was_applied e)) e >>= λ n. settle_entries es (applied_count + n)

  -- ReconcilePendingMutations
  unfoldable pub reconcile_pending_mutations : Exec Disk ℕ
  reconcile_pending_mutations = do entries ← list_pending_unresolved; settle_entries entries 0
