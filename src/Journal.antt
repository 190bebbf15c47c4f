-- ===== src/Journal.antt =====
-- src/journal/journal.h, src/journal/journal.cpp and src/journal/internal.proto: the sidecar intent
-- journal. A table is the list of its rows in the order of insertion, a method of the class runs
-- the one SQL statement that it prepares, and SQLite may fail any statement: the faults to come
-- are part of the state. SHA-256 (GLib's) and the serialisation of an outcome are parameters.
pub mod Phase
pub mod Recovery
pub mod Rows
pub mod Invariant
pub mod Listing
pub mod Opening
use daichod.Base.{
  ℕ, Bool, true, false, not, ◌&&◌, Option, none, some, List, [], ◌∷◌, ◌++◌, map, first, keep,
  is_some, if◌then◌else◌,
}
use daichod.Base.Text.{Bytes, str, bytes_eq}
use daichod.Base.Codec.{Codec}
use daichod.Base.Sort.{sort_by}
use daichod.Exec.{Result, ok, err, Exec, pure, throw, ◌>>=◌}
use daichod.Rpc.Error.{ErrorDetail, Exception, shim, engine_error}

-- message Outcome
pub record Outcome : Type 0 where
  pub rpc_name : Bytes
  pub is_ok : Bool
  pub response : Bytes
  pub error : ErrorDetail

-- A row of the table `intents`.
pub record Intent : Type 0 where
  pub mutation_id : Bytes
  pub rpc_name : Bytes
  pub payload : Bytes
  pub payload_sha256 : Bytes
  pub journaled_at_utc : ℕ
  pub pending_response : Option Bytes

-- A row of the table `applied`.
pub record Applied : Type 0 where
  pub mutation_id : Bytes
  pub outcome : Bytes
  pub applied_at_utc : ℕ

pub record Tables : Type 0 where
  pub intents : List Intent
  pub applied : List Applied

-- What SQLite reports when it fails a statement, and the context that the source names.
pub record Fault : Type 0 where
  pub message : Bytes
  pub context : Bytes

pub record Disk : Type 0 where
  pub tables : Tables
  pub faults : List (Option Fault)

-- ThrowSqlite
abbrev pub journal_error : Bytes → Bytes → Exception
journal_error message context =
    shim (record {
      code = engine_error;
      engine_message = str "journal: " ++ message;
      context = context;
    })

module _ {A : Type 0} where
  abbrev finished : List (Option Fault) → Result A × Tables → Result A × Disk
  finished fs (r, t) = (r, record { tables = t; faults = fs })

  abbrev attempt : List (Option Fault) → Exec Tables A → Tables → Result A × Disk
  attempt [] f t = finished [] (f t)
  attempt (none ∷ fs) f t = finished fs (f t)
  attempt (some x ∷ fs) f t =
      (err (journal_error x.message x.context), record { tables = t; faults = fs })

  -- One prepared statement, with the fault that it meets. A failed statement changes nothing.
  abbrev pub statement : Exec Tables A → Exec Disk A
  statement f d = attempt d.faults f d.tables

abbrev pub intent_has : Bytes → Intent → Bool
intent_has id i = bytes_eq i.mutation_id id

abbrev pub applied_has : Bytes → Applied → Bool
applied_has id a = bytes_eq a.mutation_id id

abbrev pub find_intent : Tables → Bytes → Option Intent
find_intent t id = first (intent_has id) t.intents

abbrev pub find_applied : Tables → Bytes → Option Applied
find_applied t id = first (applied_has id) t.applied

-- INSERT OR IGNORE INTO intents: the primary key is the mutation id.
unfoldable pub insert_or_ignore : Intent → Tables → Tables
insert_or_ignore row t =
    if is_some (find_intent t row.mutation_id)
    then t
    else record t { intents = t.intents ++ row ∷ [] }

-- UPDATE intents SET pending_response = ? WHERE mutation_id = ?
unfoldable pub set_pending : Bytes → Option Bytes → List Intent → List Intent
set_pending id v [] = []
set_pending id v (i ∷ is) =
    (if intent_has id i then record i { pending_response = v } else i) ∷ set_pending id v is

update_pending : Bytes → Option Bytes → Exec Tables (Unit {0})
unfolding set_pending
update_pending id v t = pure tt (record t { intents = set_pending id v t.intents })

-- INSERT INTO applied: its primary key first, then the reference into `intents`.
unfoldable pub insert_applied : Applied → Exec Tables (Unit {0})
insert_applied row t =
    if is_some (find_applied t row.mutation_id)
    then throw (journal_error (str "UNIQUE constraint failed: applied.mutation_id") (str "step")) t
    else if is_some (find_intent t row.mutation_id)
    then pure tt (record t { applied = t.applied ++ row ∷ [] })
    else throw (journal_error (str "FOREIGN KEY constraint failed") (str "step")) t

-- struct Journal::PendingEntry
pub record PendingEntry : Type 0 where
  pub mutation_id : Bytes
  pub rpc_name : Bytes
  pub request_payload : Bytes
  pub pending_response : Bytes

-- struct Journal::IndeterminateEntry
pub record IndeterminateEntry : Type 0 where
  pub mutation_id : Bytes
  pub rpc_name : Bytes
  pub payload_sha256 : Bytes
  pub journaled_at_utc : ℕ

-- intents LEFT JOIN applied USING (mutation_id) WHERE applied.mutation_id IS NULL
abbrev pub unresolved : Tables → List Intent
unresolved t = keep (λ i. not (is_some (find_applied t i.mutation_id))) t.intents

abbrev pub time_of : Intent → ℕ
time_of i = i.journaled_at_utc

-- The columns of the row; a NULL blob reads as the empty text.
abbrev pub pending_entry : Intent → PendingEntry
pending_entry i = record {
  mutation_id = i.mutation_id;
  rpc_name = i.rpc_name;
  request_payload = i.payload;
  pending_response = elim i.pending_response [ none ↦ [] | some b ↦ b ];
}

abbrev pub indeterminate_entry : Intent → IndeterminateEntry
indeterminate_entry i = record {
  mutation_id = i.mutation_id;
  rpc_name = i.rpc_name;
  payload_sha256 = i.payload_sha256;
  journaled_at_utc = i.journaled_at_utc;
}

abbrev pub pending_rows : Tables → List Intent
pending_rows t = keep (λ i. is_some i.pending_response) (unresolved t)

-- The rows of the two queries, in the order of ORDER BY journaled_at_utc.
abbrev pub pending_list : Tables → List PendingEntry
pending_list t = map pending_entry (sort_by time_of (pending_rows t))

abbrev pub indeterminate_list : Tables → List IndeterminateEntry
indeterminate_list t = map indeterminate_entry (sort_by time_of (unresolved t))

-- ListPendingUnresolved
unfoldable pub list_pending_unresolved : Exec Disk (List PendingEntry)
list_pending_unresolved = statement (λ t. pure (pending_list t) t)

-- ListIndeterminate
unfoldable pub list_indeterminate : Exec Disk (List IndeterminateEntry)
list_indeterminate = statement (λ t. pure (indeterminate_list t) t)

-- RecordPending
unfoldable pub record_pending : Bytes → Bytes → Exec Disk (Unit {0})
unfolding update_pending
record_pending id response_bytes = statement (update_pending id (some response_bytes))

-- ClearPending
unfoldable pub clear_pending : Bytes → Exec Disk (Unit {0})
unfolding update_pending
clear_pending id = statement (update_pending id none)

-- RecordIntent
unfoldable pub record_intent : (Bytes → Bytes) → Bytes → Bytes → Bytes → ℕ → Exec Disk (Unit {0})
record_intent sha256 id rpc_name payload now = statement (λ t. pure tt (
    insert_or_ignore
      (record {
        mutation_id = id;
        rpc_name = rpc_name;
        payload = payload;
        payload_sha256 = sha256 payload;
        journaled_at_utc = now;
        pending_response = none;
      })
      t))

module _ (codec : Codec Outcome) where
  open codec use {serialize, parse}

  -- GetOutcome, after its statement: no row, or a row whose outcome must parse.
  abbrev read_outcome : Bytes → Option Applied → Exec Disk (Option Outcome)
  read_outcome id none = pure none
  read_outcome id (some a) = elim (parse a.outcome) [
    | some o ↦ pure (some o)
    | none ↦ throw (journal_error (str "corrupt outcome record") id)
  ]

  -- GetOutcome
  unfoldable pub get_outcome : Bytes → Exec Disk (Option Outcome)
  get_outcome id = do row ← statement (λ t. pure (find_applied t id) t); read_outcome id row

  -- RecordOutcome
  unfoldable pub record_outcome : Bytes → Outcome → ℕ → Exec Disk (Unit {0})
  unfolding insert_applied
  record_outcome id outcome now = statement (
      insert_applied
        (record { mutation_id = id; outcome = serialize outcome; applied_at_utc = now }))
