-- ===== src/Journal/Listing.antt =====
-- The two reports of the journal, read off the phases.
use daichod.Base.{
  ◌≡◌, refl, ap, ◌∙◌, Bool, not, Option, none, some, List, [], ◌∷◌, any, first, map, is_some, inl,
  inr, Option-cases, arith,
}
use daichod.Base.Text.{Bytes, bytes_eq}
use daichod.Base.Keyed.{
  Unique, that_passes, id_of-first, any-first, any-sort_by, any-keep, first-sort_by, first-keep,
  Unique-keep, Unique-sort_by,
}
use daichod.Base.Sort.{sort_by}
use daichod.Journal.{
  Intent, Tables, PendingEntry, IndeterminateEntry, find_applied, intent_has, unresolved,
  pending_rows, time_of, pending_entry, indeterminate_entry, pending_list, indeterminate_list,
}
use daichod.Journal.Invariant.{IsValid, intent_id}
use daichod.Journal.Phase.{Phase, phase, is_open, pending}

abbrev pub indeterminate_has : Bytes → IndeterminateEntry → Bool
indeterminate_has j e = bytes_eq e.mutation_id j

any-map_indeterminate :
    (j : Bytes) (is : List Intent)
    → any (indeterminate_has j) (map indeterminate_entry is) ≡ any (intent_has j) is
any-map_indeterminate j [] = refl
any-map_indeterminate j (i ∷ is) = ground (arith, any-map_indeterminate j is)

-- An id is reported indeterminate exactly while its phase is open.
pub any-indeterminate_list :
    (t : Tables) (j : Bytes)
    → any (indeterminate_has j) (indeterminate_list t) ≡ is_open (phase t j)
any-indeterminate_list t j =
    any-map_indeterminate j _
    ∙ any-sort_by time_of (intent_has j) (unresolved t)
    ∙ any-keep intent_id _ (λ k. not (is_some (find_applied t k))) (λ a. refl) j t.intents
    ∙ ground (arith, any-first (intent_has j) t.intents)

abbrev pub pending_has : Bytes → PendingEntry → Bool
pending_has j e = bytes_eq e.mutation_id j

first-map_pending :
    (j : Bytes) (is : List Intent)
    → first (pending_has j) (map pending_entry is)
      ≡ (elim (first (intent_has j) is) [ none ↦ none | some i ↦ some (pending_entry i) ])
first-map_pending j [] = refl
first-map_pending j (i ∷ is) = ground (arith, first-map_pending j is)

-- The pending entry that a phase stands for.
abbrev pub entry_of : Bytes → Phase → Option PendingEntry
entry_of j (pending rpc payload b) =
    some
      (record { mutation_id = j; rpc_name = rpc; request_payload = payload; pending_response = b })
entry_of j p = none

abbrev pub pending_id : PendingEntry → Bytes
pending_id e = e.mutation_id

first-rows :
    (t : Tables) (j : Bytes)
    → IsValid t
    → first (intent_has j) (sort_by time_of (pending_rows t))
      ≡ that_passes
          (λ i. is_some i.pending_response)
          (that_passes
            (λ i. not (is_some (find_applied t i.mutation_id)))
            (first (intent_has j) t.intents))
first-rows t j v =
    first-sort_by intent_id time_of j (pending_rows t) (Unique-keep intent_id _ _ kept)
    ∙ first-keep intent_id _ j (unresolved t) kept
    ∙ ap (that_passes _) (first-keep intent_id _ j t.intents v.intents_unique)
  where
    kept : Unique intent_id (unresolved t)
    kept = Unique-keep intent_id _ t.intents v.intents_unique

-- Recovery is handed exactly the ids whose phase is pending, each with what the phase holds.
pub first-pending_list :
    (t : Tables) (j : Bytes)
    → IsValid t
    → first (pending_has j) (pending_list t) ≡ entry_of j (phase t j)
first-pending_list t j v = elim (Option-cases (first (intent_has j) t.intents)) [
  | inl missing ↦
      ground (arith, first-map_pending j (sort_by time_of (pending_rows t)), first-rows t j v)
  | inr (i, found) ↦
      let same : i.mutation_id ≡ j = id_of-first intent_id j t.intents i found in
      ground (
        arith,
        first-map_pending j (sort_by time_of (pending_rows t)),
        first-rows t j v,
        same,
        ap (find_applied t) same,
      )
]

any-map_pending :
    (j : Bytes) (is : List Intent)
    → any (pending_has j) (map pending_entry is) ≡ any (intent_has j) is
any-map_pending j [] = refl
any-map_pending j (i ∷ is) = ground (arith, any-map_pending j is)

Unique-map_pending :
    (is : List Intent) → Unique intent_id is → Unique pending_id (map pending_entry is)
Unique-map_pending [] u = tt
Unique-map_pending (i ∷ is) u = (any-map_pending i.mutation_id is ∙ u.0, Unique-map_pending is u.1)

-- No id is handed to recovery twice.
pub pending_list-Unique : (t : Tables) → IsValid t → Unique pending_id (pending_list t)
pending_list-Unique t v = Unique-map_pending _ (
    Unique-sort_by intent_id time_of (pending_rows t)
      (Unique-keep intent_id _ _ (Unique-keep intent_id _ t.intents v.intents_unique)))
