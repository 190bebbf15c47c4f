-- ===== src/Journal/Phase.antt =====
-- The abstract journal: one phase for each mutation id, and how the methods of the class move it.
pub mod Refinement
pub mod Calm
pub mod Trace
use daichod.Base.{Bool, true, false, Option, none, some, []}
use daichod.Base.Text.{Bytes}
use daichod.Journal.{Intent, Applied, Tables, Disk, find_intent, find_applied}

-- Nothing is known of the id; its request is on disk; its would-be response is too; its outcome is.
pub data Phase : Type 0 where
  absent : Phase
  intended : Bytes → Bytes → Phase
  pending : Bytes → Bytes → Bytes → Phase
  resolved : Bytes → Phase

abbrev pub of_intent : Intent → Option Bytes → Phase
of_intent i none = intended i.rpc_name i.payload
of_intent i (some b) = pending i.rpc_name i.payload b

abbrev pub of_intent? : Option Intent → Phase
of_intent? none = absent
of_intent? (some i) = of_intent i i.pending_response

abbrev pub phase_of : Option Applied → Option Intent → Phase
phase_of (some a) i = resolved a.outcome
phase_of none i = of_intent? i

abbrev pub phase : Tables → Bytes → Phase
phase t id = phase_of (find_applied t id) (find_intent t id)

-- A calm disk fails no further statement.
abbrev pub calm : Tables → Disk
calm t = record { tables = t; faults = [] }

-- RecordIntent: an id that is known keeps what it has.
abbrev pub begin : Bytes → Bytes → Phase → Phase
begin rpc payload absent = intended rpc payload
begin rpc payload p = p

-- RecordPending
abbrev pub stage : Bytes → Phase → Phase
stage b (intended rpc payload) = pending rpc payload b
stage b (pending rpc payload old) = pending rpc payload b
stage b p = p

-- ClearPending
abbrev pub unstage : Phase → Phase
unstage (pending rpc payload b) = intended rpc payload
unstage p = p

-- Is the id on disk without an outcome?
abbrev pub is_open : Phase → Bool
is_open absent = false
is_open (intended rpc payload) = true
is_open (pending rpc payload b) = true
is_open (resolved o) = false

-- RecordOutcome, on an id that is open.
abbrev pub resolve : Bytes → Phase → Phase
resolve o p = elim (is_open p) [ true ↦ resolved o | false ↦ p ]
