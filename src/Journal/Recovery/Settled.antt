-- ===== src/Journal/Recovery/Settled.antt =====
-- What recovery leaves behind.
use daichod.Base.{
  sym, ℕ, ◌+◌, ◌≡◌, refl, ◌∙◌, ap, Bool, true, false, Option, none, some, List, [], ◌∷◌, All, any,
  first, if◌then◌else◌, arith,
}
use daichod.Base.Text.{Bytes, bytes_eq, bytes_eq_iff}
use daichod.Base.Codec.{Codec}
use daichod.Base.Keyed.{Unique, any-first, All-found}
use daichod.Exec.{ok}
use daichod.Journal.{Outcome, PendingEntry, Tables, record_outcome, clear_pending, pending_list}
use daichod.Journal.Phase.{Phase, phase, calm, resolved, unstage, is_open}
use daichod.Journal.Phase.Refinement.{phase-record_outcome, phase-clear_pending}
use daichod.Journal.Phase.Calm.{outcome-calm, clear-calm, pending_list-calm}
use daichod.Journal.Listing.{
  pending_has, pending_id, entry_of, first-pending_list, pending_list-Unique,
}
use daichod.Journal.Invariant.{IsValid}
use daichod.Journal.Recovery.{
  is_applied, reconciled, settle_entry, settle_entries, reconcile_pending_mutations,
}

module _ (outcomes : Codec Outcome) (was_applied : PendingEntry → Option Bool)
    (now : PendingEntry → ℕ) where
  abbrev IsPending : Tables → PendingEntry → Type 0
  IsPending t e = entry_of e.mutation_id (phase t e.mutation_id) ≡ some e

  -- The tables after one round, by its verdict.
  settled : Bool → PendingEntry → Tables → Tables
  settled true e t =
      (record_outcome outcomes e.mutation_id (reconciled e) (now e) (calm t)).1.tables
  settled false e t = (clear_pending e.mutation_id (calm t)).1.tables

  abbrev by_verdict : Bool → PendingEntry → Phase → Phase
  by_verdict v e p = if v then resolved (outcomes.serialize (reconciled e)) else unstage p

  -- The abstract recovery of one id: its entry, if it has one, settles its phase by the verdict.
  abbrev pub settle : Option PendingEntry → Phase → Phase
  settle none p = p
  settle (some e) p = by_verdict (is_applied (was_applied e)) e p

  is_open-IsPending :
      (t : Tables) (e : PendingEntry) → IsPending t e → is_open (phase t e.mutation_id) ≡ true
  is_open-IsPending t e h = ground arith

  settle_entry-calm :
      (v : Bool) (e : PendingEntry) (t : Tables)
      → IsPending t e
      → settle_entry outcomes was_applied now v e (calm t)
        ≡ (ok (if v then 1 else 0), calm (settled v e t))
  unfolding settled
  settle_entry-calm true e t h =
      rw (outcome-calm outcomes e.mutation_id t (reconciled e) (now e) (is_open-IsPending t e h))
  settle_entry-calm false e t h = rw clear-calm

  phase-settled :
      (v : Bool) (e : PendingEntry) (t : Tables) (j : Bytes)
      → IsPending t e
      → phase (settled v e t) j
        ≡ (if bytes_eq e.mutation_id j then by_verdict v e (phase t j) else phase t j)
  unfolding settled
  phase-settled true e t j h = ground (
    arith,
    phase-record_outcome outcomes e.mutation_id (reconciled e) (now e) t j,
    is_open-IsPending t e h,
    bytes_eq_iff e.mutation_id j,
    λ (same : e.mutation_id ≡ j). ap (phase t) same,
  )
  phase-settled false e t j h = phase-clear_pending e.mutation_id t j

  -- A round leaves the other entries pending.
  settled-IsPending :
      (v : Bool) (e : PendingEntry) (t : Tables) (es : List PendingEntry)
      → IsPending t e
      → any (pending_has e.mutation_id) es ≡ false
      → All (IsPending t) es
      → All (IsPending (settled v e t)) es
  settled-IsPending v e t [] h fresh all = tt
  settled-IsPending v e t (d ∷ es) h fresh all = (
    ground (
      arith,
      phase-settled v e t d.mutation_id h,
      bytes_eq_iff e.mutation_id d.mutation_id,
      bytes_eq_iff d.mutation_id e.mutation_id,
      all.0,
    ),
    settled-IsPending v e t es h (ground arith) all.1,
  )

  -- The loop settles each entry that it is given, and touches no other id.
  settle_entries-calm :
      (es : List PendingEntry) (n : ℕ) (t : Tables)
      → All (IsPending t) es
      → Unique pending_id es
      → (m : ℕ) × (t' : Tables) × (settle_entries outcomes was_applied now es n (calm t)
          ≡ (ok m, calm t'))
        × ((j : Bytes) → phase t' j ≡ settle (first (pending_has j) es) (phase t j))
  unfolding settle_entries
  settle_entries-calm [] n t all u = (n, t, refl, λ j. refl)
  settle_entries-calm (e ∷ es) n t all u =
      let v : Bool = is_applied (was_applied e) in
      let (m, t', runs, phases) =
        settle_entries-calm es (n + (if v then 1 else 0)) (settled v e t)
          (settled-IsPending v e t es all.0 u.0 all.1) u.1 in
      (
        m,
        t',
        rw (settle_entry-calm v e t all.0) runs,
        λ j. ground (
          arith,
          phases j,
          phase-settled v e t j all.0,
          any-first (pending_has e.mutation_id) es,
          λ (same : e.mutation_id ≡ j). ap (λ (k : Bytes). first (pending_has k) es) same,
          bytes_eq_iff e.mutation_id j,
        ),
      )

  -- The phase of an id after recovery.
  abbrev pub recovered : Bytes → Phase → Phase
  recovered j p = settle (entry_of j p) p

  -- On a valid journal whose disk fails no statement, ReconcilePendingMutations ends, and resolves each
  -- pending id as applied, or drops its pending record, by the verdict on its entry; no other id moves.
  pub reconcile-recovered :
      (t : Tables)
      → IsValid t
      → (m : ℕ) × (t' : Tables) × (reconcile_pending_mutations outcomes was_applied now (calm t)
          ≡ (ok m, calm t'))
        × ((j : Bytes) → phase t' j ≡ recovered j (phase t j))
  unfolding reconcile_pending_mutations
  reconcile-recovered t v =
      let (m, t', runs, phases) =
        settle_entries-calm (pending_list t) 0 t
          (All-found pending_id (λ k. entry_of k (phase t k)) (pending_list t)
            (λ k h. sym (first-pending_list t k v)) (pending_list-Unique t v))
          (pending_list-Unique t v) in
      (
        m,
        t',
        rw pending_list-calm runs,
        λ j.
            phases j
            ∙ ap (λ (e : Option PendingEntry). settle e (phase t j)) (first-pending_list t j v),
      )
