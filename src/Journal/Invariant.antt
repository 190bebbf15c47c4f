-- ===== src/Journal/Invariant.antt =====
-- The keys and the reference that the journal's schema declares.
use daichod.Base.{
  ℕ, ◌≡◌, refl, true, Option, none, some, List, [], ◌∷◌, ◌++◌, All, any, inl, inr, ◌∙◌, is_some,
  Bool-cases, arith,
}
use daichod.Base.Text.{Bytes}
use daichod.Base.Codec.{Codec}
use daichod.Base.Keyed.{Unique, Unique-snoc, any-first, any-snoc}
use daichod.Exec.{Exec}
use daichod.Journal.{
  Outcome, Intent, Applied, Tables, Disk, Fault, find_intent, find_applied, record_intent,
  record_pending, clear_pending, record_outcome, insert_or_ignore, set_pending, insert_applied,
  intent_has, applied_has, statement, attempt,
}

attempt-keeps :
    {A : Type 0} (P : Tables → Type 0) (fs : List (Option Fault)) (f : Exec Tables A) (t : Tables)
    → P t
    → P (f t).1
    → P (attempt fs f t).1.tables
attempt-keeps P [] f t before after = after
attempt-keeps P (none ∷ fs) f t before after = after
attempt-keeps P (some x ∷ fs) f t before after = before

-- A statement keeps what its body keeps, whether SQLite fails it or not.
pub statement-keeps :
    {A : Type 0} (P : Tables → Type 0) (f : Exec Tables A) (d : Disk)
    → P d.tables
    → P (f d.tables).1
    → P (statement f d).1.tables
statement-keeps P f d = attempt-keeps P d.faults f d.tables

abbrev pub intent_id : Intent → Bytes
intent_id i = i.mutation_id

abbrev pub applied_id : Applied → Bytes
applied_id a = a.mutation_id

-- Every outcome belongs to an intent.
abbrev pub References : List Applied → List Intent → Type 0
References rows is = All (λ a. any (intent_has a.mutation_id) is ≡ true) rows

pub record IsValid (t : Tables) : Type 0 where
  pub intents_unique : Unique intent_id t.intents
  pub applied_unique : Unique applied_id t.applied
  pub references : References t.applied t.intents

any-set_pending :
    (id j : Bytes) (v : Option Bytes) (is : List Intent)
    → any (intent_has j) (set_pending id v is) ≡ any (intent_has j) is
unfolding set_pending
any-set_pending id j v [] = refl
any-set_pending id j v (i ∷ is) = ground (arith, any-set_pending id j v is)

Unique-set_pending :
    (id : Bytes) (v : Option Bytes) (is : List Intent)
    → Unique intent_id is
    → Unique intent_id (set_pending id v is)
unfolding set_pending
Unique-set_pending id v [] u = tt
Unique-set_pending id v (i ∷ is) u =
    ground (arith, Unique-set_pending id v is, any-set_pending id i.mutation_id v is)

References-set_pending :
    (id : Bytes) (v : Option Bytes) (rows : List Applied) (is : List Intent)
    → References rows is
    → References rows (set_pending id v is)
References-set_pending id v [] is h = tt
References-set_pending id v (a ∷ rows) is h =
    (any-set_pending id a.mutation_id v is ∙ h.0, References-set_pending id v rows is h.1)

References-snoc :
    (rows : List Applied) (is : List Intent) (i : Intent)
    → References rows is
    → References rows (is ++ i ∷ [])
References-snoc [] is i h = tt
References-snoc (a ∷ rows) is i h = (
  ground (arith, any-snoc intent_id (intent_has a.mutation_id) is i),
  References-snoc rows is i h.1,
)

References-applied :
    (rows : List Applied) (is : List Intent) (a : Applied)
    → any (intent_has a.mutation_id) is ≡ true
    → References rows is
    → References (rows ++ a ∷ []) is
References-applied [] is a k h = (k, tt)
References-applied (b ∷ rows) is a k h = (h.0, References-applied rows is a k h.1)

pub insert_or_ignore-IsValid :
    (row : Intent) (t : Tables) → IsValid t → IsValid (insert_or_ignore row t)
unfolding insert_or_ignore
insert_or_ignore-IsValid row t v = elim (Bool-cases (is_some (find_intent t row.mutation_id))) [
  | inl old ↦ rw old v
  | inr new ↦ rw new (record {
    intents_unique =
        Unique-snoc intent_id t.intents row (any-first (intent_has row.mutation_id) t.intents ∙ new)
          v.intents_unique;
    applied_unique = v.applied_unique;
    references = References-snoc t.applied t.intents row v.references;
  })
]

pub set_pending-IsValid :
    (id : Bytes) (p : Option Bytes) (t : Tables)
    → IsValid t
    → IsValid (record t { intents = set_pending id p t.intents })
set_pending-IsValid id p t v = record {
  intents_unique = Unique-set_pending id p t.intents v.intents_unique;
  applied_unique = v.applied_unique;
  references = References-set_pending id p t.applied t.intents v.references;
}

pub insert_applied-IsValid :
    (row : Applied) (t : Tables) → IsValid t → IsValid (insert_applied row t).1
unfolding insert_applied
insert_applied-IsValid row t v = elim (Bool-cases (is_some (find_applied t row.mutation_id))) [
  | inl old ↦ rw old v
  | inr new ↦ rw new (elim (Bool-cases (is_some (find_intent t row.mutation_id))) [
    | inl known ↦ rw known (record {
      intents_unique = v.intents_unique;
      applied_unique =
          Unique-snoc applied_id t.applied row
            (any-first (applied_has row.mutation_id) t.applied ∙ new) v.applied_unique;
      references =
          References-applied t.applied t.intents row
            (any-first (intent_has row.mutation_id) t.intents ∙ known) v.references;
    })
    | inr unknown ↦ rw unknown v
  ])
]

-- Each statement that writes, in the terms of the class's methods.
pub data Write (sha256 : Bytes → Bytes) (codec : Codec Outcome) : Type 0 where
  intent : Bytes → Bytes → Bytes → ℕ → Write sha256 codec
  stage : Bytes → Bytes → Write sha256 codec
  unstage : Bytes → Write sha256 codec
  outcome : Bytes → Outcome → ℕ → Write sha256 codec

module _ {sha256 : Bytes → Bytes} {codec : Codec Outcome} where
  abbrev pub write : Write sha256 codec → Disk → Disk
  write (intent id rpc payload now) d = (record_intent sha256 id rpc payload now d).1
  write (stage id b) d = (record_pending id b d).1
  write (unstage id) d = (clear_pending id d).1
  write (outcome id o now) d = (record_outcome codec id o now d).1

  -- No call of a method, failed by SQLite or not, breaks a key or leaves an outcome with no intent.
  pub write-IsValid :
      (w : Write sha256 codec) (d : Disk) → IsValid d.tables → IsValid (write w d).tables
  unfolding record_intent record_pending clear_pending record_outcome
  write-IsValid (intent id rpc payload now) d v =
      statement-keeps IsValid _ d v (insert_or_ignore-IsValid _ d.tables v)
  write-IsValid (stage id b) d v =
      statement-keeps IsValid _ d v (set_pending-IsValid id (some b) d.tables v)
  write-IsValid (unstage id) d v =
      statement-keeps IsValid _ d v (set_pending-IsValid id none d.tables v)
  write-IsValid (outcome id o now) d v =
      statement-keeps IsValid _ d v (insert_applied-IsValid _ d.tables v)
