-- ===== src/Journal/Rows.antt =====
-- What each statement of the journal does to the row of a mutation id.
use daichod.Base.{
  ◌≡◌, Option, none, some, List, [], ◌∷◌, ◌++◌, first, is_some, inl, inr, Bool-cases, first-snoc,
  ap, if◌then◌else◌, arith,
}
use daichod.Base.Text.{Bytes, bytes_eq, bytes_eq_iff}
use daichod.Journal.{
  Intent, Applied, Tables, intent_has, applied_has, find_intent, find_applied, insert_or_ignore,
  set_pending,
}

abbrev pub with_pending : Option Bytes → Option Intent → Option Intent
with_pending v none = none
with_pending v (some i) = some (record i { pending_response = v })

pub first-set_pending :
    (id j : Bytes) (v : Option Bytes) (rows : List Intent)
    → first (intent_has j) (set_pending id v rows) ≡ (
        if bytes_eq id j
        then with_pending v (first (intent_has j) rows)
        else first (intent_has j) rows)
unfolding set_pending
first-set_pending id j v [] = ground arith
first-set_pending id j v (i ∷ rows) = ground (
  arith,
  first-set_pending id j v rows,
  bytes_eq_iff i.mutation_id id,
  bytes_eq_iff i.mutation_id j,
  bytes_eq_iff id j,
)

pub find_intent-insert_or_ignore :
    (row : Intent) (t : Tables) (j : Bytes)
    → find_intent (insert_or_ignore row t) j ≡ (
        if bytes_eq row.mutation_id j
        then (if is_some (find_intent t j) then find_intent t j else some row)
        else find_intent t j)
unfolding insert_or_ignore
find_intent-insert_or_ignore row t j = elim (Bool-cases (bytes_eq row.mutation_id j)) [
  | inl same ↦ ground (
    arith,
    first-snoc (intent_has j) t.intents row,
    ap (find_intent t) ((bytes_eq_iff row.mutation_id j).0 same),
  )
  | inr other ↦ ground (arith, first-snoc (intent_has j) t.intents row)
]

pub find_applied-snoc :
    (row : Applied) (t : Tables) (j : Bytes)
    → find_applied t row.mutation_id ≡ none
    → first (applied_has j) (t.applied ++ row ∷ [])
      ≡ (if bytes_eq row.mutation_id j then some row else find_applied t j)
find_applied-snoc row t j fresh = elim (Bool-cases (bytes_eq row.mutation_id j)) [
  | inl same ↦ ground (
    arith,
    first-snoc (applied_has j) t.applied row,
    ap (find_applied t) ((bytes_eq_iff row.mutation_id j).0 same),
  )
  | inr other ↦ ground (arith, first-snoc (applied_has j) t.applied row)
]

pub applied-insert_or_ignore :
    (row : Intent) (t : Tables) → (insert_or_ignore row t).applied ≡ t.applied
unfolding insert_or_ignore
applied-insert_or_ignore row t = ground arith
